-- ===== src/Spool/Cap.antt =====
-- src/spool/writer.rs, `enforce_total_size_cap`: the oldest batches go until the budget is met.
pub mod Budget
pub mod Oldest
use wazabi_edr_agent.Prelude.{
  ℕ, ◌+◌, ◌-◌, ◌≡◌, Bool, true, false, List, [], ◌∷◌, ◌++◌, leb, length, if◌then◌else◌,
}
use wazabi_edr_agent.Prelude.Order.{sort_by, total_by}
use wazabi_edr_agent.Spool.File.{SpoolFile, is_batch}

-- `entry.metadata().map(|m| m.len()).unwrap_or(0)`.
unfoldable pub size : SpoolFile → ℕ
size f = if f.has_metadata then length f.contents else 0

-- The batches among the entries, and the entries that are none.
unfoldable pub batches : List SpoolFile → List SpoolFile
batches [] = []
batches (f ∷ fs) = if is_batch f then f ∷ batches fs else batches fs

unfoldable pub others : List SpoolFile → List SpoolFile
others [] = []
others (f ∷ fs) = if is_batch f then others fs else f ∷ others fs

-- The eviction loop. The answer holds the files removed, in order, and those that stay.
pub record Eviction : Type 0 where
  pub evicted : List SpoolFile
  pub kept : List SpoolFile

unfoldable pub evict : ℕ → (SpoolFile → Bool) → ℕ → List SpoolFile → Eviction
evict budget removes total [] = record { evicted = []; kept = [] }
evict budget removes total (f ∷ fs) =
    let gone : Eviction = evict budget removes (total - size f) fs in
    let stuck : Eviction = evict budget removes total fs in
    if leb total budget
    then record { evicted = []; kept = f ∷ fs }
    else if removes f
    then record { evicted = f ∷ gone.evicted; kept = gone.kept }
    else record { evicted = stuck.evicted; kept = f ∷ stuck.kept }

-- `listed` is whether `read_dir` succeeds, `removes f` whether `remove_file` of `f` does.
-- The order of a directory's entries means nothing: the survivors stand behind the other files.
unfoldable pub enforce_total_size_cap :
    ℕ → Bool → (SpoolFile → Bool) → List SpoolFile → List SpoolFile × List SpoolFile
unfolding evict
enforce_total_size_cap budget listed removes files =
    let found = batches files in
    let run : Eviction = evict budget removes (total_by size found) (sort_by (λ f. f.name) found) in
    if listed
    then (if leb (total_by size found) budget
        then (files, [])
        else (others files ++ run.kept, run.evicted))
    else (files, [])

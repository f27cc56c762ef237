-- ===== src/Control/Executor/Walk.antt =====
-- src/control/executor.rs, `walk`: the count of the files below a directory. A tree is what `read_dir` and `metadata`
-- answer for it; whether the time is over is asked at each check.
pub mod Totals
use wazabi_edr_agent.Prelude.{
  ℕ, zero, suc, ◌+◌, Bool, true, false, ◌||◌, List, [], ◌∷◌, leb, if◌then◌else◌,
}

-- A directory that cannot be read; an entry that fails, one without metadata, a directory, a file of a size, or another.
mutual
  pub data Directory : Type 0 where
    unreadable : Directory
    listing : Entries → Directory

  pub data Entries : Type 0 where
    no_entry : Entries
    entry_error : Entries → Entries
    metadata_error : Entries → Entries
    directory : Directory → Entries → Entries
    file : ℕ → Entries → Entries
    special : Entries → Entries

-- The four counters, and the checks of the clock so far.
pub record Walked : Type 0 where
  pub files : ℕ
  pub dirs : ℕ
  pub bytes : ℕ
  pub errors : ℕ
  pub checks : ℕ

abbrev pub nothing_walked : Walked
nothing_walked = record { files = 0; dirs = 0; bytes = 0; errors = 0; checks = 0 }

-- What the loop over the entries leaves: the counters, the stack, and whether it returned.
pub record Pass : Type 0 where
  pub walked : Walked
  pub stack : List Directory
  pub truncated : Bool

abbrev pub one_error : Walked → Walked
one_error w = record w { errors = Walked.errors w + 1 }

abbrev pub one_file : ℕ → Walked → Walked
one_file size w = record w {
  files = Walked.files w + 1;
  bytes = Walked.bytes w + size;
  checks = Walked.checks w + 1;
}

abbrev pub one_directory : Walked → Walked
one_directory w = record w { dirs = Walked.dirs w + 1; checks = Walked.checks w + 1 }

module _ (late : ℕ → Bool) (max_files : ℕ) where
  -- `*files >= max_files || t0.elapsed() >= max_duration`, for the check before which the counters stand.
  abbrev pub over : ℕ → ℕ → Bool
  over files check = leb max_files files || late check

  unfoldable pub walk_entries : Entries → List Directory → Walked → Pass
  walk_entries no_entry stack w = record { walked = w; stack = stack; truncated = false }
  walk_entries (entry_error es) stack w = walk_entries es stack (one_error w)
  walk_entries (metadata_error es) stack w = walk_entries es stack (one_error w)
  walk_entries (directory d es) stack w = walk_entries es (d ∷ stack) w
  walk_entries (special es) stack w = walk_entries es stack w
  walk_entries (file size es) stack w =
      let rest = walk_entries es stack (one_file size w) in
      if over (Walked.files w + 1) (Walked.checks w)
      then record { walked = one_file size w; stack = stack; truncated = true }
      else rest

  unfoldable pub walk_listing : Directory → List Directory → Walked → Pass
  unfolding walk_entries
  walk_listing unreadable stack w = record {
    walked = one_error w;
    stack = stack;
    truncated = false;
  }
  walk_listing (listing es) stack w = walk_entries es stack w

  -- The directory on the top of the stack.
  unfoldable pub walk_one : Directory → List Directory → Walked → Pass
  unfolding walk_listing
  walk_one d stack w =
      if over (Walked.files w) (Walked.checks w)
      then record { walked = w; stack = stack; truncated = true }
      else walk_listing d stack (one_directory w)

  -- Each round takes a directory of the tree.
  unfoldable pub walk : ℕ → List Directory → Walked → Walked × Bool
  unfolding walk_one
  walk zero stack w = (w, false)
  walk (suc f) [] w = (w, false)
  walk (suc f) (d ∷ stack) w =
      let p = walk_one d stack w in
      let rest = walk f (Pass.stack p) (Pass.walked p) in
      if Pass.truncated p then (Pass.walked p, true) else rest

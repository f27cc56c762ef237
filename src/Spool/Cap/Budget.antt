-- ===== src/Spool/Cap/Budget.antt =====
-- src/spool/writer.rs, `enforce_total_size_cap`: which batches go, and what is left.
use wazabi_edr_agent.Prelude.{
  ℕ, ◌+◌, ◌-◌, ◌≤◌, ◌≡◌, refl, ◌∙◌, Bool, true, List, [], ◌∷◌, ◌++◌, arith, leb, Bool-cases, inl,
  inr, All, length,
}
use wazabi_edr_agent.Prelude.Order.{sort_by, total_by, total-sort_by, All-sort_by}
use wazabi_edr_agent.Spool.File.{SpoolFile, is_batch}
use wazabi_edr_agent.Spool.Cap.{size, batches, others, Eviction, evict, enforce_total_size_cap}

-- Every removal succeeds.
abbrev pub AllRemovable : (SpoolFile → Bool) → Type 0
AllRemovable removes = (f : SpoolFile) → removes f ≡ true

abbrev IsBatch : SpoolFile → Type 0
IsBatch f = is_batch f ≡ true

batches-IsBatch : (fs : List SpoolFile) → All IsBatch (batches fs)
unfolding batches
batches-IsBatch [] = tt
batches-IsBatch (f ∷ fs) = elim (Bool-cases (is_batch f)) [
  | inl e ↦ rw e (e, batches-IsBatch fs)
  | inr e ↦ rw e (batches-IsBatch fs)
]

batches-All : (fs : List SpoolFile) → All IsBatch fs → batches fs ≡ fs
unfolding batches
batches-All [] h = refl
batches-All (f ∷ fs) (e, h) = rw (e, batches-All fs h)

batches-others : (fs gs : List SpoolFile) → batches (others fs ++ gs) ≡ batches gs
unfolding batches others
batches-others [] gs = refl
batches-others (f ∷ fs) gs = elim (Bool-cases (is_batch f)) [
  | inl e ↦ rw e (batches-others fs gs)
  | inr e ↦ rw (e, batches) (rw e (batches-others fs gs))
]

evict-kept :
    (P : SpoolFile → Type 0) (budget : ℕ) (removes : SpoolFile → Bool) (total : ℕ)
    (fs : List SpoolFile)
    → All P fs
    → All P (evict budget removes total fs).kept
unfolding evict
evict-kept P budget removes total [] h = tt
evict-kept P budget removes total (f ∷ fs) h = elim (Bool-cases (leb total budget)) [
  | inl e ↦ rw e h
  | inr e ↦ rw e (elim (Bool-cases (removes f)) [
    | inl r ↦ rw r (evict-kept P budget removes (total - size f) fs h.1)
    | inr r ↦ rw r (h.0, evict-kept P budget removes total fs h.1)
  ])
]

-- With every removal possible the loop stops exactly when the rest fits.
evict-fits :
    (budget : ℕ) (removes : SpoolFile → Bool) (fs : List SpoolFile)
    → AllRemovable removes
    → total_by size (evict budget removes (total_by size fs) fs).kept ≤ budget
unfolding evict
evict-fits budget removes [] h = omega arith
evict-fits budget removes (f ∷ fs) h = elim (Bool-cases (leb (size f + total_by size fs) budget)) [
  | inl e ↦ rw e (ground arith)
  | inr e ↦ rw (e, h f, left) (evict-fits budget removes fs h)
]
  where
    left : size f + total_by size fs - size f ≡ total_by size fs
    left = omega arith

-- The run of the eviction loop over the batches, oldest name first.
abbrev pub eviction : ℕ → (SpoolFile → Bool) → List SpoolFile → Eviction
eviction budget removes files =
    evict budget removes (total_by size (batches files)) (sort_by (λ f. f.name) (batches files))

pub eviction-kept_batches :
    (budget : ℕ) (removes : SpoolFile → Bool) (files : List SpoolFile)
    → batches (others files ++ (eviction budget removes files).kept)
      ≡ (eviction budget removes files).kept
eviction-kept_batches budget removes files =
    batches-others files _
    ∙ batches-All _ (
        evict-kept IsBatch budget removes _ (sort_by (λ f. f.name) (batches files))
          (All-sort_by (λ f. f.name) IsBatch (batches files) (batches-IsBatch files)))

-- The length of a batch can be read, so that the loop counts all its bytes.
abbrev pub HasLength : SpoolFile → Type 0
HasLength f = f.has_metadata ≡ true

abbrev pub bytes_of : SpoolFile → ℕ
bytes_of f = length f.contents

total-bytes : (fs : List SpoolFile) → All HasLength fs → total_by bytes_of fs ≡ total_by size fs
unfolding size
total-bytes [] h = refl
total-bytes (f ∷ fs) h = ground (arith, h.0, total-bytes fs h.1)

eviction-HasLength :
    (budget : ℕ) (removes : SpoolFile → Bool) (files : List SpoolFile)
    → All HasLength (batches files)
    → All HasLength (eviction budget removes files).kept
eviction-HasLength budget removes files h =
    evict-kept HasLength budget removes (total_by size (batches files))
      (sort_by (λ f. f.name) (batches files))
      (All-sort_by (λ f. f.name) HasLength (batches files) h)

eviction-fits :
    (budget : ℕ) (removes : SpoolFile → Bool) (files : List SpoolFile)
    → AllRemovable removes
    → total_by size (eviction budget removes files).kept ≤ budget
eviction-fits budget removes files h =
    rw (← total-sort_by (λ f. f.name) size (batches files))
      (evict-fits budget removes (sort_by (λ f. f.name) (batches files)) h)

-- After a run in which the directory can be listed, the length of every batch can be read and every
-- removal succeeds, the batches left have together no more bytes than the budget.
pub enforce_total_size_cap-fits :
    (budget : ℕ) (removes : SpoolFile → Bool) (files : List SpoolFile)
    → AllRemovable removes
    → All HasLength (batches files)
    → total_by bytes_of (batches (enforce_total_size_cap budget true removes files).0) ≤ budget
unfolding enforce_total_size_cap
enforce_total_size_cap-fits budget removes files h m =
    elim (Bool-cases (leb (total_by size (batches files)) budget)) [
      | inl e ↦ rw e (ground (arith, total-bytes (batches files) m))
      | inr e ↦
          rw
            (
              e,
              eviction-kept_batches budget removes files,
              total-bytes (eviction budget removes files).kept
                  (eviction-HasLength budget removes files m),
            )
            (eviction-fits budget removes files h)
    ]

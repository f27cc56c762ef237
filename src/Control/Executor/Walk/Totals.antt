-- ===== src/Control/Executor/Walk/Totals.antt =====
-- The walk against the recursive count of the tree.
use wazabi_edr_agent.Prelude.{
  ℕ, zero, suc, ◌+◌, ◌≡◌, ◌⊎◌, ◌≤◌, ◌<◌, refl, Bool, true, false, List, [], ◌∷◌, Bool-cases, inl,
  inr, if-either, arith,
}
use wazabi_edr_agent.Control.Executor.Walk.{
  Directory, unreadable, listing, Entries, no_entry, entry_error, metadata_error, directory, file,
  special, Walked, Pass, one_error, one_file, one_directory, over, walk_entries, walk_listing,
  walk_one, walk, nothing_walked,
}

-- The totals of a tree, by recursion on it: files, directories, bytes, errors.
pub record Totals : Type 0 where
  pub files : ℕ
  pub dirs : ℕ
  pub bytes : ℕ
  pub errors : ℕ

abbrev plus : Totals → Totals → Totals
plus a b = record {
  files = Totals.files a + Totals.files b;
  dirs = Totals.dirs a + Totals.dirs b;
  bytes = Totals.bytes a + Totals.bytes b;
  errors = Totals.errors a + Totals.errors b;
}

abbrev counted : ℕ → ℕ → ℕ → ℕ → Totals
counted f d b e = record { files = f; dirs = d; bytes = b; errors = e }

unfoldable mutual
  pub directory_totals : Directory → Totals
  directory_totals unreadable = counted 0 1 0 1
  directory_totals (listing es) = plus (counted 0 1 0 0) (entries_totals es)

  pub entries_totals : Entries → Totals
  entries_totals no_entry = counted 0 0 0 0
  entries_totals (entry_error es) = plus (counted 0 0 0 1) (entries_totals es)
  entries_totals (metadata_error es) = plus (counted 0 0 0 1) (entries_totals es)
  entries_totals (directory d es) = plus (directory_totals d) (entries_totals es)
  entries_totals (file size es) = plus (counted 1 0 size 0) (entries_totals es)
  entries_totals (special es) = entries_totals es

unfoldable pub stack_totals : List Directory → Totals
unfolding directory_totals
stack_totals [] = counted 0 0 0 0
stack_totals (d ∷ ds) = plus (directory_totals d) (stack_totals ds)

-- Counters, and what is still to come, against a goal.
abbrev Reaches : Walked → Totals → Totals → Type 0
Reaches w left goal =
    (Walked.files w + Totals.files left ≡ Totals.files goal)
    × (Walked.dirs w + Totals.dirs left ≡ Totals.dirs goal)
    × (Walked.bytes w + Totals.bytes left ≡ Totals.bytes goal)
    × (Walked.errors w + Totals.errors left ≡ Totals.errors goal)

-- The four counters are the totals.
abbrev pub IsTotal : Walked → Totals → Type 0
IsTotal w t =
    (Walked.files w ≡ Totals.files t)
    × (Walked.dirs w ≡ Totals.dirs t)
    × (Walked.bytes w ≡ Totals.bytes t)
    × (Walked.errors w ≡ Totals.errors t)

module _ (late : ℕ → Bool) (max_files : ℕ) where
  walk_entries-Reaches :
      (es : Entries) (stack : List Directory) (w : Walked) (goal : Totals)
      → Reaches w (plus (entries_totals es) (stack_totals stack)) goal
      → Pass.truncated (walk_entries late max_files es stack w) ≡ false
      → Reaches
          (Pass.walked (walk_entries late max_files es stack w))
          (stack_totals (Pass.stack (walk_entries late max_files es stack w)))
          goal
  unfolding walk_entries entries_totals stack_totals
  walk_entries-Reaches no_entry stack w goal h t =
      (omega (arith, h.0), omega (arith, h.1), omega (arith, h.2), omega (arith, h.3))
  walk_entries-Reaches (entry_error es) stack w goal h t =
      walk_entries-Reaches es stack (one_error w) goal (omega arith) t
  walk_entries-Reaches (metadata_error es) stack w goal h t =
      walk_entries-Reaches es stack (one_error w) goal (omega arith) t
  walk_entries-Reaches (directory d es) stack w goal h t =
      walk_entries-Reaches es (d ∷ stack) w goal (omega arith) t
  walk_entries-Reaches (special es) stack w goal h t = walk_entries-Reaches es stack w goal h t
  walk_entries-Reaches (file size es) stack w goal h t =
      elim (Bool-cases (over late max_files (Walked.files w + 1) (Walked.checks w))) [
        | inl e ↦ let z : true ≡ false = rw e at t in cc
        | inr e ↦
            rw e (walk_entries-Reaches es stack (one_file size w) goal (omega arith) (rw e at t))
      ]

  walk_listing-Reaches :
      (d : Directory) (stack : List Directory) (w : Walked) (goal : Totals)
      → Reaches w (plus (directory_totals d) (stack_totals stack)) goal
      → Pass.truncated (walk_listing late max_files d stack (one_directory w)) ≡ false
      → Reaches
          (Pass.walked (walk_listing late max_files d stack (one_directory w)))
          (stack_totals (Pass.stack (walk_listing late max_files d stack (one_directory w))))
          goal
  unfolding walk_listing directory_totals
  walk_listing-Reaches unreadable stack w goal h t =
      (omega (arith, h.0), omega (arith, h.1), omega (arith, h.2), omega (arith, h.3))
  walk_listing-Reaches (listing es) stack w goal h t =
      walk_entries-Reaches es stack (one_directory w) goal (omega arith) t

  walk_one-Reaches :
      (d : Directory) (stack : List Directory) (w : Walked) (goal : Totals)
      → Reaches w (plus (directory_totals d) (stack_totals stack)) goal
      → Pass.truncated (walk_one late max_files d stack w) ≡ false
      → Reaches
          (Pass.walked (walk_one late max_files d stack w))
          (stack_totals (Pass.stack (walk_one late max_files d stack w)))
          goal
  unfolding walk_one
  walk_one-Reaches d stack w goal h t =
      elim (Bool-cases (over late max_files (Walked.files w) (Walked.checks w))) [
        | inl e ↦ let z : true ≡ false = rw e at t in cc
        | inr e ↦ rw e (walk_listing-Reaches d stack w goal h (rw e at t))
      ]

  walk_entries-dirs :
      (es : Entries) (stack : List Directory) (w : Walked)
      → Walked.dirs (Pass.walked (walk_entries late max_files es stack w)) ≡ Walked.dirs w
  unfolding walk_entries
  walk_entries-dirs no_entry stack w = refl
  walk_entries-dirs (entry_error es) stack w = walk_entries-dirs es stack (one_error w)
  walk_entries-dirs (metadata_error es) stack w = walk_entries-dirs es stack (one_error w)
  walk_entries-dirs (directory d es) stack w = walk_entries-dirs es (d ∷ stack) w
  walk_entries-dirs (special es) stack w = walk_entries-dirs es stack w
  walk_entries-dirs (file size es) stack w =
      if-either (λ p. Walked.dirs (Pass.walked p) ≡ Walked.dirs w)
        (over late max_files (Walked.files w + 1) (Walked.checks w)) refl
        (walk_entries-dirs es stack (one_file size w))

  walk_listing-dirs :
      (d : Directory) (stack : List Directory) (w : Walked)
      → Walked.dirs (Pass.walked (walk_listing late max_files d stack w)) ≡ Walked.dirs w
  unfolding walk_listing
  walk_listing-dirs unreadable stack w = refl
  walk_listing-dirs (listing es) stack w = walk_entries-dirs es stack w

  -- Each round counts a directory, so that the ones still to come are fewer.
  walk_one-counts :
      (d : Directory) (stack : List Directory) (w : Walked)
      → Pass.truncated (walk_one late max_files d stack w) ≡ false
      → Walked.dirs w < Walked.dirs (Pass.walked (walk_one late max_files d stack w))
  unfolding walk_one walk_listing
  walk_one-counts d stack w t =
      elim (Bool-cases (over late max_files (Walked.files w) (Walked.checks w))) [
        | inl e ↦ let z : true ≡ false = rw e at t in cc
        | inr e ↦ rw e (omega (arith, walk_listing-dirs d stack (one_directory w)))
      ]

  pub walk-Reaches :
      (f : ℕ) (stack : List Directory) (w : Walked) (goal : Totals)
      → Reaches w (stack_totals stack) goal
      → Totals.dirs (stack_totals stack) < f
      → (walk late max_files f stack w).1 ≡ false
      → Reaches (walk late max_files f stack w).0 (counted 0 0 0 0) goal
  unfolding walk stack_totals
  walk-Reaches zero stack w goal h l t = absurd (omega arith)
  walk-Reaches (suc f) [] w goal h l t = h
  walk-Reaches (suc f) (d ∷ stack) w goal h l t =
      let p = walk_one late max_files d stack w in
      elim (Bool-cases (Pass.truncated p)) [
        | inl e ↦ let z : true ≡ false = rw e at t in cc
        | inr e ↦
            let r = walk_one-Reaches d stack w goal h e in
            rw e (
              walk-Reaches f (Pass.stack p) (Pass.walked p) goal r
                (omega (arith, walk_one-counts d stack w e, r.1, h.1)) (rw e at t))
      ]

  walk_entries-max :
      (es : Entries) (stack : List Directory) (w : Walked)
      → Walked.files w < max_files
      → Walked.files (Pass.walked (walk_entries late max_files es stack w)) ≤ max_files
  unfolding walk_entries
  walk_entries-max no_entry stack w h = omega arith
  walk_entries-max (entry_error es) stack w h = walk_entries-max es stack (one_error w) h
  walk_entries-max (metadata_error es) stack w h = walk_entries-max es stack (one_error w) h
  walk_entries-max (directory d es) stack w h = walk_entries-max es (d ∷ stack) w h
  walk_entries-max (special es) stack w h = walk_entries-max es stack w h
  walk_entries-max (file size es) stack w h =
      elim (Bool-cases (over late max_files (Walked.files w + 1) (Walked.checks w))) [
        | inl e ↦ rw e (omega arith)
        | inr e ↦ rw e (walk_entries-max es stack (one_file size w) (ground arith))
      ]

  walk_listing-max :
      (d : Directory) (stack : List Directory) (w : Walked)
      → Walked.files w < max_files
      → Walked.files (Pass.walked (walk_listing late max_files d stack w)) ≤ max_files
  unfolding walk_listing
  walk_listing-max unreadable stack w h = omega arith
  walk_listing-max (listing es) stack w h = walk_entries-max es stack w h

  walk_one-max :
      (d : Directory) (stack : List Directory) (w : Walked)
      → Walked.files w ≤ max_files
      → Walked.files (Pass.walked (walk_one late max_files d stack w)) ≤ max_files
  unfolding walk_one
  walk_one-max d stack w h =
      elim (Bool-cases (over late max_files (Walked.files w) (Walked.checks w))) [
        | inl e ↦ rw e h
        | inr e ↦ rw e (walk_listing-max d stack (one_directory w) (ground arith))
      ]

  walk-max :
      (f : ℕ) (stack : List Directory) (w : Walked)
      → Walked.files w ≤ max_files
      → Walked.files (walk late max_files f stack w).0 ≤ max_files
  unfolding walk
  walk-max zero stack w h = h
  walk-max (suc f) [] w h = h
  walk-max (suc f) (d ∷ stack) w h =
      let p = walk_one late max_files d stack w in
      if-either (λ (r : Walked × Bool). Walked.files r.0 ≤ max_files) (Pass.truncated p)
        (walk_one-max d stack w h)
        (walk-max f (Pass.stack p) (Pass.walked p) (walk_one-max d stack w h))

  walk-IsTotal :
      (d : Directory) (f : ℕ)
      → Totals.dirs (directory_totals d) < f
      → (walk late max_files f (d ∷ []) nothing_walked).1 ≡ false
      → IsTotal (walk late max_files f (d ∷ []) nothing_walked).0 (directory_totals d)
  unfolding stack_totals
  walk-IsTotal d f l e =
      let r =
        walk-Reaches f (d ∷ []) nothing_walked (directory_totals d)
          (omega arith, omega arith, omega arith, omega arith) (omega arith) e in
      (omega (arith, r.0), omega (arith, r.1), omega (arith, r.2), omega (arith, r.3))

  walk_entries-uncut :
      (es : Entries) (stack : List Directory) (w : Walked)
      → ((k : ℕ) → late k ≡ false)
      → Walked.files w + Totals.files (entries_totals es) < max_files
      → Pass.truncated (walk_entries late max_files es stack w) ≡ false
  unfolding walk_entries entries_totals
  walk_entries-uncut no_entry stack w n h = refl
  walk_entries-uncut (entry_error es) stack w n h =
      walk_entries-uncut es stack (one_error w) n (omega arith)
  walk_entries-uncut (metadata_error es) stack w n h =
      walk_entries-uncut es stack (one_error w) n (omega arith)
  walk_entries-uncut (directory d es) stack w n h =
      walk_entries-uncut es (d ∷ stack) w n (omega arith)
  walk_entries-uncut (special es) stack w n h = walk_entries-uncut es stack w n h
  walk_entries-uncut (file size es) stack w n h =
      let e : over late max_files (Walked.files w + 1) (Walked.checks w) ≡ false =
        ground (arith, n (Walked.checks w)) in
      rw e (walk_entries-uncut es stack (one_file size w) n (omega arith))

  walk_one-uncut :
      (d : Directory) (stack : List Directory) (w : Walked)
      → ((k : ℕ) → late k ≡ false)
      → Walked.files w + Totals.files (directory_totals d) < max_files
      → Pass.truncated (walk_one late max_files d stack w) ≡ false
  unfolding walk_one walk_listing directory_totals
  walk_one-uncut d stack w n h =
      let e : over late max_files (Walked.files w) (Walked.checks w) ≡ false =
        ground (arith, n (Walked.checks w)) in
      rw e (go d h)
    where
      go :
          (d : Directory)
          → Walked.files w + Totals.files (directory_totals d) < max_files
          → Pass.truncated (walk_listing late max_files d stack (one_directory w)) ≡ false
      go unreadable h = refl
      go (listing es) h = walk_entries-uncut es stack (one_directory w) n (omega arith)

  walk-uncut :
      (f : ℕ) (stack : List Directory) (w : Walked) (goal : Totals)
      → ((k : ℕ) → late k ≡ false)
      → Reaches w (stack_totals stack) goal
      → Totals.files goal < max_files
      → (walk late max_files f stack w).1 ≡ false
  unfolding walk stack_totals
  walk-uncut zero stack w goal n h l = refl
  walk-uncut (suc f) [] w goal n h l = refl
  walk-uncut (suc f) (d ∷ stack) w goal n h l =
      let p = walk_one late max_files d stack w in
      let e : Pass.truncated p ≡ false = walk_one-uncut d stack w n (omega (arith, h.0)) in
      rw e
        (walk-uncut f (Pass.stack p) (Pass.walked p) goal n (walk_one-Reaches d stack w goal h e) l)

  -- With a fuel above the number of its directories, the walk of a tree never counts more files than the limit, and it is
  -- cut off, or its four counters are the totals of the tree.
  pub walk-totals :
      (d : Directory) (f : ℕ)
      → Totals.dirs (directory_totals d) < f
      → (Walked.files (walk late max_files f (d ∷ []) nothing_walked).0 ≤ max_files)
        × (((walk late max_files f (d ∷ []) nothing_walked).1 ≡ true)
            ⊎ IsTotal (walk late max_files f (d ∷ []) nothing_walked).0 (directory_totals d))
  unfolding stack_totals
  walk-totals d f l = (
    walk-max f (d ∷ []) nothing_walked (omega arith),
    elim (Bool-cases (walk late max_files f (d ∷ []) nothing_walked).1) [
      | inl e ↦ inl e
      | inr e ↦ inr (walk-IsTotal d f l e)
    ],
  )

  -- Where the time is never over, the walk of a tree with fewer files than the limit is not cut off, and its four counters
  -- are the totals of the tree.
  pub walk_complete :
      (d : Directory) (f : ℕ)
      → ((k : ℕ) → late k ≡ false)
      → Totals.dirs (directory_totals d) < f
      → Totals.files (directory_totals d) < max_files
      → ((walk late max_files f (d ∷ []) nothing_walked).1 ≡ false)
        × IsTotal (walk late max_files f (d ∷ []) nothing_walked).0 (directory_totals d)
  unfolding stack_totals
  walk_complete d f n l m =
      let e =
        walk-uncut f (d ∷ []) nothing_walked (directory_totals d) n
          (omega arith, omega arith, omega arith, omega arith) m in
      (e, walk-IsTotal d f l e)

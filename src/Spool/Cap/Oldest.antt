-- ===== src/Spool/Cap/Oldest.antt =====
-- src/spool/writer.rs, `enforce_total_size_cap`: the batches that go are the first by name, and no
-- more of them go than the budget asks for.
use wazabi_edr_agent.Prelude.{
  ℕ, ◌+◌, ◌-◌, ◌<◌, ◌≡◌, refl, sym, ap, ◌∙◌, Bool, true, List, [], ◌∷◌, ◌++◌, arith, leb,
  Bool-cases, inl, inr, In, All, All-In,
}
use wazabi_edr_agent.Prelude.Order.{
  sort_by, total_by, total-sort_by, lex_leb, IsSortedBy, sort_by-IsSortedBy,
}
use wazabi_edr_agent.Spool.File.{SpoolFile}
use wazabi_edr_agent.Spool.Cap.{size, batches, Eviction, evict, enforce_total_size_cap}
use wazabi_edr_agent.Spool.Cap.Budget.{AllRemovable, eviction, eviction-kept_batches}

abbrev name_of : SpoolFile → List ℕ
name_of f = f.name

-- The loop splits its list in two.
evict-splits :
    (budget : ℕ) (removes : SpoolFile → Bool) (total : ℕ) (fs : List SpoolFile)
    → AllRemovable removes
    → let r = evict budget removes total fs in r.evicted ++ r.kept ≡ fs
unfolding evict
evict-splits budget removes total [] h = refl
evict-splits budget removes total (f ∷ fs) h = elim (Bool-cases (leb total budget)) [
  | inl e ↦ rw e
  | inr e ↦ rw (e, h f) (ap (◌∷◌ f) (evict-splits budget removes (total - size f) fs h))
]

-- The last batch to go left the total above the budget.
evict-needed :
    (budget : ℕ) (removes : SpoolFile → Bool) (fs front : List SpoolFile) (l : SpoolFile)
    → AllRemovable removes
    → (evict budget removes (total_by size fs) fs).evicted ≡ front ++ (l ∷ [])
    → budget < size l + total_by size (evict budget removes (total_by size fs) fs).kept
unfolding evict
evict-needed budget removes [] [] l h e = cc
evict-needed budget removes [] (g ∷ front) l h e = cc
evict-needed budget removes (f ∷ fs) front l h e =
    elim (Bool-cases (leb (size f + total_by size fs) budget)) [
      | inl t ↦ absurd (none_left front (rw t at e))
      | inr t ↦
          rw (t, h f, left)
            (go front (λ fr r. evict-needed budget removes fs fr l h r) (rw (t, h f, left) at e)
              (ground arith))
    ]
  where
    left : size f + total_by size fs - size f ≡ total_by size fs
    left = omega arith

    none_left : (front : List SpoolFile) → [] ≡ front ++ (l ∷ []) → ⊥
    none_left [] e = cc
    none_left (g ∷ front) e = cc

    rest : Eviction
    rest = evict budget removes (total_by size fs) fs

    go :
        (front : List SpoolFile)
        → ((fr : List SpoolFile)
            → rest.evicted ≡ fr ++ (l ∷ [])
            → budget < size l + total_by size rest.kept)
        → f ∷ rest.evicted ≡ front ++ (l ∷ [])
        → budget < size f + total_by size fs
        → budget < size l + total_by size rest.kept
    go [] again e over = rw (← last, ← all_kept) over
      where
        last : f ≡ l
        last = cc

        all_kept : fs ≡ rest.kept
        all_kept =
            sym (evict-splits budget removes (total_by size fs) fs h)
            ∙ ap (λ xs. xs ++ rest.kept) nothing
          where
            nothing : rest.evicted ≡ []
            nothing = cc
    go (g ∷ front) again e over = again front (ground arith)

All-append_right : (P : SpoolFile → Type 0) (xs ys : List SpoolFile) → All P (xs ++ ys) → All P ys
All-append_right P [] ys h = h
All-append_right P (x ∷ xs) ys h = All-append_right P xs ys h.1

-- In a sorted list all of the front comes before all of the back.
sorted-front :
    (xs ys : List SpoolFile) (f g : SpoolFile)
    → IsSortedBy name_of (xs ++ ys)
    → In f xs
    → In g ys
    → lex_leb f.name g.name ≡ true
sorted-front [] ys f g s i j = absurd i
sorted-front (x ∷ xs) ys f g s (inl e) j = rw e (All-In _ ys g (All-append_right _ xs ys s.0) j)
sorted-front (x ∷ xs) ys f g s (inr i) j = sorted-front xs ys f g s.1 i j

enforce_total_size_cap-runs :
    (budget : ℕ) (removes : SpoolFile → Bool) (files : List SpoolFile)
    → AllRemovable removes
    → let (after, gone) = enforce_total_size_cap budget true removes files in
      ((f g : SpoolFile) → In f gone → In g (batches after) → lex_leb f.name g.name ≡ true)
      × ((front : List SpoolFile) (l : SpoolFile)
          → gone ≡ front ++ (l ∷ [])
          → budget < size l + total_by size (batches after))
unfolding enforce_total_size_cap
enforce_total_size_cap-runs budget removes files h =
    elim (Bool-cases (leb (total_by size (batches files)) budget)) [
      | inl e ↦ rw e ((λ f g i j. absurd i), λ front l r. absurd (none_left front l r))
      | inr e ↦ rw (e, eviction-kept_batches budget removes files) (ordered, needed)
    ]
  where
    sorted : List SpoolFile
    sorted = sort_by name_of (batches files)

    run : Eviction
    run = eviction budget removes files

    none_left : (front : List SpoolFile) (l : SpoolFile) → [] ≡ front ++ (l ∷ []) → ⊥
    none_left [] l e = cc
    none_left (g ∷ front) l e = cc

    ordered : (f g : SpoolFile) → In f run.evicted → In g run.kept → lex_leb f.name g.name ≡ true
    ordered f g i j =
        sorted-front run.evicted run.kept f g
          (rw (evict-splits budget removes (total_by size (batches files)) sorted h)
            (sort_by-IsSortedBy name_of (batches files)))
          i j

    needed :
        (front : List SpoolFile) (l : SpoolFile)
        → run.evicted ≡ front ++ (l ∷ [])
        → budget < size l + total_by size run.kept
    needed =
        rw (← total-sort_by name_of size (batches files))
          λ front l. evict-needed budget removes sorted front l h

-- The last of the batches that go was needed: with it, the rest exceed the budget.
abbrev pub LastNeeded : ℕ → ℕ → List SpoolFile → Type 0
LastNeeded budget left [] = Unit {0}
LastNeeded budget left (f ∷ []) = budget < size f + left
LastNeeded budget left (f ∷ g ∷ fs) = LastNeeded budget left (g ∷ fs)

last-needed :
    (budget left : ℕ) (gone : List SpoolFile)
    → ((front : List SpoolFile) (l : SpoolFile) → gone ≡ front ++ (l ∷ []) → budget < size l + left)
    → LastNeeded budget left gone
last-needed budget left [] h = tt
last-needed budget left (f ∷ []) h = h [] f refl
last-needed budget left (f ∷ g ∷ fs) h =
    last-needed budget left (g ∷ fs) (λ front l e. h (f ∷ front) l (ap (◌∷◌ f) e))

All-of :
    (P : SpoolFile → Type 0) (xs : List SpoolFile) → ((f : SpoolFile) → In f xs → P f) → All P xs
All-of P [] h = tt
All-of P (x ∷ xs) h = (h x (inl refl), All-of P xs (λ f i. h f (inr i)))

-- Where every removal succeeds, every batch that goes has a name no later than that of any batch
-- that stays, and
-- if any goes, the last of them and those that stay are together over the budget.
pub enforce_total_size_cap-oldest_first :
    (budget : ℕ) (removes : SpoolFile → Bool) (files : List SpoolFile)
    → AllRemovable removes
    → let (after, gone) = enforce_total_size_cap budget true removes files in
      All (λ f. All (λ g. lex_leb f.name g.name ≡ true) (batches after)) gone
      × LastNeeded budget (total_by size (batches after)) gone
enforce_total_size_cap-oldest_first budget removes files h =
    let (before, needed) = enforce_total_size_cap-runs budget removes files h in
    let (after, gone) = enforce_total_size_cap budget true removes files in
    (
      All-of (λ f. All (λ g. lex_leb f.name g.name ≡ true) (batches after)) gone
          (λ f i.
            All-of (λ g. lex_leb f.name g.name ≡ true) (batches after) (λ g j. before f g i j)),
      last-needed budget (total_by size (batches after)) gone needed,
    )

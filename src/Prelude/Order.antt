-- ===== src/Prelude/Order.antt =====
-- Lexicographic order of byte strings, as `Ord` on `str` and on file names, and a stable sort by it.
use Prim.Native.Nat.{ℕ, ◌+◌, compare, Ordering}
use mathlib.Core.Path.{◌≡◌, refl}
use mathlib.Core.Logic.{inl, inr}
use mathlib.Core.Bool.{Bool, true, false}
use mathlib.Core.List.{List, [], ◌∷◌}
use native.Mathlib.Omega.{arith}
use wazabi_edr_agent.Prelude.Tests.{if◌then◌else◌, Bool-cases}
use wazabi_edr_agent.Prelude.Lists.{In, All}

abbrev pub lex_leb : List ℕ → List ℕ → Bool
lex_leb [] ys = true
lex_leb (x ∷ xs) [] = false
lex_leb (x ∷ xs) (y ∷ ys) = elim (compare x y) [
  | Ordering.lt ↦ true
  | Ordering.eq ↦ lex_leb xs ys
  | Ordering.gt ↦ false
]

pub lex_leb_refl : (xs : List ℕ) → lex_leb xs xs ≡ true
lex_leb_refl [] = refl
lex_leb_refl (x ∷ xs) = ground (arith, lex_leb_refl xs)

pub lex_leb-total : (xs ys : List ℕ) → lex_leb xs ys ≡ false → lex_leb ys xs ≡ true
lex_leb-total [] ys h = cc
lex_leb-total (x ∷ xs) [] h = refl
lex_leb-total (x ∷ xs) (y ∷ ys) h = ground (arith, lex_leb-total xs ys)

pub lex_leb_trans :
    (xs ys zs : List ℕ) → lex_leb xs ys ≡ true → lex_leb ys zs ≡ true → lex_leb xs zs ≡ true
lex_leb_trans [] ys zs h k = refl
lex_leb_trans (x ∷ xs) [] zs h k = cc
lex_leb_trans (x ∷ xs) (y ∷ ys) [] h k = cc
lex_leb_trans (x ∷ xs) (y ∷ ys) (z ∷ zs) h k = ground (arith, lex_leb_trans xs ys zs)

pub lex_leb-antisym : (xs ys : List ℕ) → lex_leb xs ys ≡ true → lex_leb ys xs ≡ true → xs ≡ ys
lex_leb-antisym [] [] h k = refl
lex_leb-antisym [] (y ∷ ys) h k = cc
lex_leb-antisym (x ∷ xs) [] h k = cc
lex_leb-antisym (x ∷ xs) (y ∷ ys) h k = ground (arith, lex_leb-antisym xs ys)

-- The sum of the sizes.
abbrev pub total_by : {A : Type 0} → (A → ℕ) → List A → ℕ
total_by size [] = 0
total_by size (x ∷ xs) = size x + total_by size xs

-- A stable insertion sort by a key.
module _ {A : Type 0} (key : A → List ℕ) where
  abbrev pub insert_by : A → List A → List A
  insert_by a [] = a ∷ []
  insert_by a (x ∷ xs) = if lex_leb (key a) (key x) then a ∷ x ∷ xs else x ∷ insert_by a xs

  abbrev pub sort_by : List A → List A
  sort_by [] = []
  sort_by (x ∷ xs) = insert_by x (sort_by xs)

  -- The keys never fall along the list.
  abbrev pub IsSortedBy : List A → Type 0
  IsSortedBy [] = Unit {0}
  IsSortedBy (x ∷ xs) = All (λ y. lex_leb (key x) (key y) ≡ true) xs × IsSortedBy xs

  All-insert_by : (P : A → Type 0) (a : A) (xs : List A) → P a → All P xs → All P (insert_by a xs)
  All-insert_by P a [] h k = (h, tt)
  All-insert_by P a (x ∷ xs) h k = elim (Bool-cases (lex_leb (key a) (key x))) [
    | inl e ↦ rw e (h, k)
    | inr e ↦ rw e (k.0, All-insert_by P a xs h k.1)
  ]

  pub All-sort_by : (P : A → Type 0) (xs : List A) → All P xs → All P (sort_by xs)
  All-sort_by P [] h = tt
  All-sort_by P (x ∷ xs) h = All-insert_by P x (sort_by xs) h.0 (All-sort_by P xs h.1)

  All-le_trans :
      (a x : A) (xs : List A)
      → lex_leb (key a) (key x) ≡ true
      → All (λ y. lex_leb (key x) (key y) ≡ true) xs
      → All (λ y. lex_leb (key a) (key y) ≡ true) xs
  All-le_trans a x [] h k = tt
  All-le_trans a x (y ∷ ys) h k =
      (lex_leb_trans (key a) (key x) (key y) h k.0, All-le_trans a x ys h k.1)

  insert_by-IsSortedBy : (a : A) (xs : List A) → IsSortedBy xs → IsSortedBy (insert_by a xs)
  insert_by-IsSortedBy a [] s = (tt, tt)
  insert_by-IsSortedBy a (x ∷ xs) s = elim (Bool-cases (lex_leb (key a) (key x))) [
    | inl e ↦ rw e ((e, All-le_trans a x xs e s.0), s)
    | inr e ↦
        rw e (
          All-insert_by _ a xs (lex_leb-total (key a) (key x) e) s.0,
          insert_by-IsSortedBy a xs s.1,
        )
  ]

  pub sort_by-IsSortedBy : (xs : List A) → IsSortedBy (sort_by xs)
  sort_by-IsSortedBy [] = tt
  sort_by-IsSortedBy (x ∷ xs) = insert_by-IsSortedBy x (sort_by xs) (sort_by-IsSortedBy xs)

  total-insert_by :
      (size : A → ℕ) (a : A) (xs : List A)
      → total_by size (insert_by a xs) ≡ size a + total_by size xs
  total-insert_by size a [] = refl
  total-insert_by size a (x ∷ xs) = ground (arith, total-insert_by size a xs)

  pub total-sort_by : (size : A → ℕ) (xs : List A) → total_by size (sort_by xs) ≡ total_by size xs
  total-sort_by size [] = refl
  total-sort_by size (x ∷ xs) =
      omega (arith, total-insert_by size x (sort_by xs), total-sort_by size xs)

  In-insert_by_self : (a : A) (xs : List A) → In a (insert_by a xs)
  In-insert_by_self a [] = inl refl
  In-insert_by_self a (x ∷ xs) = elim (Bool-cases (lex_leb (key a) (key x))) [
    | inl e ↦ rw e (inl refl)
    | inr e ↦ rw e (inr (In-insert_by_self a xs))
  ]

  In-insert_by : (b a : A) (xs : List A) → In b xs → In b (insert_by a xs)
  In-insert_by b a [] h = absurd h
  In-insert_by b a (x ∷ xs) h = elim (Bool-cases (lex_leb (key a) (key x))) [
    | inl e ↦ rw e (inr h)
    | inr e ↦ rw e (elim h [ inl i ↦ inl i | inr i ↦ inr (In-insert_by b a xs i) ])
  ]

  pub In-sort_by : (a : A) (xs : List A) → In a xs → In a (sort_by xs)
  In-sort_by a [] h = absurd h
  In-sort_by a (x ∷ xs) (inl e) = rw e (In-insert_by_self x (sort_by xs))
  In-sort_by a (x ∷ xs) (inr i) = In-insert_by a x (sort_by xs) (In-sort_by a xs i)

-- ===== src/Prelude/Text.antt =====
-- Whole texts compared by the native `String`, and maps keyed by texts as association lists.
use Prim.Native.String.{String}
use mathlib.Core.Path.{◌≡◌, refl, subst}
use mathlib.Core.Logic.{◌≢◌, ◌⊎◌, inl, inr}
use mathlib.Core.Bool.{Bool, true, false}
use mathlib.Core.List.{List, [], ◌∷◌}
use mathlib.Core.Option.{Option, none, some}
use native.Mathlib.Omega.{arith}
use text.Mathlib.Text.{◌==◌}
use text.Mathlib.TextEquality.{eq_iff}
use wazabi_edr_agent.Prelude.Tests.{if◌then◌else◌, Bool-cases}
use wazabi_edr_agent.Prelude.Lists.{In}

-- Equality of two texts, as `==` on `str` decides it.
abbrev pub text_eq : String → String → Bool
text_eq s t = s == t

pub text_eq-true : (s t : String) → text_eq s t ≡ true → s ≡ t
text_eq-true s t h = (eq_iff s t).0 h

pub text_eq_refl : (s : String) → text_eq s s ≡ true
text_eq_refl s = (eq_iff s s).1 refl

pub text_eq-false : (s t : String) → text_eq s t ≡ false → s ≢ t
text_eq-false s t h e = cc (h, (eq_iff s t).1 e)

pub ne→text_eq : (s t : String) → s ≢ t → text_eq s t ≡ false
ne→text_eq s t h = elim (Bool-cases (text_eq s t)) [
  | inl e ↦ absurd (h (text_eq-true s t e))
  | inr e ↦ e
]

pub text_eq-cases : (s t : String) → (s ≡ t) ⊎ (s ≢ t)
text_eq-cases s t = elim (Bool-cases (text_eq s t)) [
  | inl e ↦ inl (text_eq-true s t e)
  | inr e ↦ inr (text_eq-false s t e)
]

-- `HashSet::contains`.
abbrev pub contains : List String → String → Bool
contains [] k = false
contains (x ∷ xs) k = if text_eq x k then true else contains xs k

pub contains-In : (xs : List String) (k : String) → contains xs k ≡ true → In k xs
contains-In [] k h = cc
contains-In (x ∷ xs) k h = ground (arith, eq_iff x k, contains-In xs k)

pub In-contains : (xs : List String) (k : String) → In k xs → contains xs k ≡ true
In-contains [] k h = absurd h
In-contains (x ∷ xs) k (inl e) = ground (arith, eq_iff x k)
In-contains (x ∷ xs) k (inr i) = ground (arith, eq_iff x k, In-contains xs k i)

-- A `HashMap<String, V>`: its entries in some order of iteration.
abbrev pub Dict : Type 0 → Type 0
Dict V = List (String × V)

module _ {V : Type 0} where
  abbrev pub lookup : Dict V → String → Option V
  lookup [] k = none
  lookup ((j, v) ∷ m) k = if text_eq j k then some v else lookup m k

  abbrev pub keys : Dict V → List String
  keys [] = []
  keys ((j, v) ∷ m) = j ∷ keys m

  -- A map holds a key once.
  abbrev pub Distinct : Dict V → Type 0
  Distinct [] = Unit {0}
  Distinct ((j, v) ∷ m) = (¬ In j (keys m)) × Distinct m

  pub In-keys : (m : Dict V) (k : String) (v : V) → In (k, v) m → In k (keys m)
  In-keys [] k v h = absurd h
  In-keys ((j, w) ∷ m) k v (inl e) = inl (ground arith)
  In-keys ((j, w) ∷ m) k v (inr h) = inr (In-keys m k v h)

  pub lookup-In : (m : Dict V) (k : String) (v : V) → lookup m k ≡ some v → In (k, v) m
  lookup-In [] k v h = cc
  lookup-In ((j, w) ∷ m) k v h = ground (arith, eq_iff j k, lookup-In m k v)

  pub In-lookup : (m : Dict V) (k : String) (v : V) → Distinct m → In (k, v) m → lookup m k ≡ some v
  In-lookup [] k v d h = absurd h
  In-lookup ((j, w) ∷ m) k v d (inl e) = ground (arith, eq_iff j k)
  In-lookup ((j, w) ∷ m) k v d (inr h) =
      ground (arith, eq_iff j k, In-lookup m k v d.1 h, In-keys m k v h)

  pub lookup-none : (m : Dict V) (k : String) → ¬ In k (keys m) → lookup m k ≡ none
  lookup-none [] k h = refl
  lookup-none ((j, w) ∷ m) k h =
      ground (arith, eq_iff j k, lookup-none m k (λ i. h (inr i)), λ (e : k ≡ j). h (inl e))

  pub none-lookup : (m : Dict V) (k : String) → lookup m k ≡ none → ¬ In k (keys m)
  none-lookup [] k h i = absurd i
  none-lookup ((j, w) ∷ m) k h (inl e) = ground (arith, eq_iff j k)
  none-lookup ((j, w) ∷ m) k h (inr i) =
      ground (arith, eq_iff j k, λ (g : lookup m k ≡ none). none-lookup m k g i)

-- `HashMap::insert`.
module _ {V : Type 0} where
  abbrev pub insert : Dict V → String → V → Dict V
  insert [] k v = (k, v) ∷ []
  insert ((j, w) ∷ m) k v = if text_eq j k then (j, v) ∷ m else (j, w) ∷ insert m k v

  pub lookup-insert :
      (m : Dict V) (k j : String) (v : V)
      → lookup (insert m k v) j ≡ (if text_eq k j then some v else lookup m j)
  lookup-insert [] k j v = refl
  lookup-insert ((i, w) ∷ m) k j v =
      ground (arith, eq_iff i k, eq_iff i j, eq_iff k j, lookup-insert m k j v)

  In-keys-insert :
      (m : Dict V) (k j : String) (v : V) → In j (keys (insert m k v)) → (j ≡ k) ⊎ In j (keys m)
  In-keys-insert [] k j v h = ground arith
  In-keys-insert ((i, w) ∷ m) k j v h = elim (Bool-cases (text_eq i k)) [
    | inl e ↦ inr (subst (λ b. In j (keys (if b then (i, v) ∷ m else (i, w) ∷ insert m k v))) e h)
    | inr e ↦
        elim (subst (λ b. In j (keys (if b then (i, v) ∷ m else (i, w) ∷ insert m k v))) e h) [
          | inl p ↦ inr (inl p)
          | inr later ↦ elim (In-keys-insert m k j v later) [ inl p ↦ inl p | inr q ↦ inr (inr q) ]
        ]
  ]

  pub Distinct-insert : (m : Dict V) (k : String) (v : V) → Distinct m → Distinct (insert m k v)
  Distinct-insert [] k v d = (λ i. absurd i, tt)
  Distinct-insert ((j, w) ∷ m) k v d = elim (Bool-cases (text_eq j k)) [
    | inl e ↦ rw e d
    | inr e ↦ rw e (
      (λ i. elim (In-keys-insert m k j v i) [ inl p ↦ text_eq-false j k e p | inr q ↦ d.0 q ]),
      Distinct-insert m k v d.1,
    )
  ]

-- ===== src/Filter.antt =====
-- src/filter.rs: the allow-list of emitted events.
use wazabi_edr_agent.Prelude.{
  ◌≡◌, refl, ◌↔◌, ◌⊎◌, inl, inr, Bool, true, false, List, [], ◌∷◌, Option, none, some, String,
  arith, In, if◌then◌else◌, when, ◌∙◌,
}
use wazabi_edr_agent.Prelude.Text.{contains, contains-In, In-contains}

pub record FilterSection : Type 0 where
  pub modules : List String
  pub event_types : List String

pub record Filter : Type 0 where
  pub modules : List String
  pub event_types : List String

-- The sets hold the elements of the lists.
abbrev pub from_section : FilterSection → Filter
from_section section = record {
  modules = FilterSection.modules section;
  event_types = FilterSection.event_types section;
}

abbrev pub is_empty : List String → Bool
is_empty [] = true
is_empty (x ∷ xs) = false

-- `Filter::allows`.
unfoldable pub allows_of : Filter → String → String → Bool
allows_of f m t =
    if is_empty (Filter.modules f)
    then (if is_empty (Filter.event_types f) then true else contains (Filter.event_types f) t)
    else if contains (Filter.modules f) m
    then (if is_empty (Filter.event_types f) then true else contains (Filter.event_types f) t)
    else false

-- The global, unset or set once.
abbrev pub Global : Type 0
Global = Option Filter

-- `init`: the `OnceLock` keeps its first value.
unfoldable pub init : Global → Option FilterSection → Global
init (some f) section = some f
init none none = some (from_section (record { modules = []; event_types = [] }))
init none (some section) = some (from_section section)

unfoldable pub allows : Global → String → String → Bool
unfolding allows_of
allows none m t = true
allows (some f) m t = allows_of f m t

-- A dimension without restriction, or that lists the value.
abbrev pub Admits : List String → String → Type 0
Admits xs x = (xs ≡ []) ⊎ In x xs

dimension :
    (xs : List String) (x : String)
    → ((if is_empty xs then true else contains xs x) ≡ true) ↔ Admits xs x
dimension [] x = (λ _. inl refl, λ _. refl)
dimension (y ∷ ys) x = (
  λ h. inr (contains-In (y ∷ ys) x h),
  λ (a : Admits (y ∷ ys) x). elim a [ inl e ↦ cc e | inr i ↦ In-contains (y ∷ ys) x i ],
)

both :
    (ms ts : List String) (m t : String)
    → allows_of (record { modules = ms; event_types = ts }) m t ≡ (
        if (if is_empty ms then true else contains ms m)
        then (if is_empty ts then true else contains ts t)
        else false)
unfolding allows_of
both [] ts m t = refl
both (x ∷ ms) ts m t = refl

-- An initialised filter lets an event through exactly when each of its two lists is empty or names the event's value.
pub allows-Admits :
    (f : Filter) (m t : String)
    → (allows (some f) m t ≡ true) ↔ (Admits (Filter.modules f) m × Admits (Filter.event_types f) t)
unfolding allows
allows-Admits f m t =
    let a = dimension (Filter.modules f) m in
    let b = dimension (Filter.event_types f) t in
    let e = both (Filter.modules f) (Filter.event_types f) m t in
    (
      λ h. (a.0 (ground (arith, e, h)), b.0 (ground (arith, e, h))),
      λ (x, y). e ∙ when (a.1 x) _ _ ∙ b.1 y,
    )

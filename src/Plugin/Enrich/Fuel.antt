-- ===== src/Plugin/Enrich/Fuel.antt =====
-- src/plugin/server.rs, `scan_data_fields`: the fuel of the scan is enough.
use wazabi_edr_agent.Prelude.{
  ℕ, zero, suc, ◌+◌, ◌≤◌, ◌<◌, ◌≡◌, refl, ap, ◌||◌, [], ◌∷◌, some, arith, Option-cases, Bool-cases,
  inl, inr, length, ◌==◌,
}
use wazabi_edr_agent.Prelude.Bytes.{codes}
use wazabi_edr_agent.Plugin.Enrich.{
  Chars, Fields, strip_prefix, split_once, found, quoted, data_field, scan_fuel, scan_data_fields,
}

strip_prefix-length : (p s r : Chars) → strip_prefix p s ≡ some r → length r + length p ≡ length s
unfolding strip_prefix
strip_prefix-length [] s r h = ground (arith, h)
strip_prefix-length (p ∷ ps) [] r h = cc h
strip_prefix-length (p ∷ ps) (c ∷ s) r h = ground (arith, h, strip_prefix-length ps s r)

-- What stands behind the needle is shorter by the needle, at least.
split_once-length :
    (needle s b a : Chars) → split_once needle s ≡ some (b, a) → length a + length needle ≤ length s
unfolding split_once
split_once-length needle [] b a h = elim (Option-cases (strip_prefix needle [])) [
  | inl e ↦ absurd (ground (arith, e, h))
  | inr (r, e) ↦
      let same : r ≡ a = ground (arith, e, h) in
      omega (arith, strip_prefix-length needle [] r e, ap length same)
]
split_once-length needle (c ∷ s) b a h = elim (Option-cases (strip_prefix needle (c ∷ s))) [
  | inr (r, e) ↦
      let same : r ≡ a = ground (arith, e, h) in
      omega (arith, strip_prefix-length needle (c ∷ s) r e, ap length same)
  | inl e ↦ elim (Option-cases (split_once needle s)) [
    | inl l ↦ absurd (ground (arith, e, l, h))
    | inr ((b', a'), l) ↦
        let same : a' ≡ a = ground (arith, e, l, h) in
        omega (arith, split_once-length needle s b' a' l, ap length same)
  ]
]

-- Two ways to go on agree on texts of at most `n` characters.
Agree : ℕ → (Chars → Fields) → (Chars → Fields) → Type 0
Agree n f g = (s : Chars) → length s ≤ n → f s ≡ g s

quoted-Agree :
    (n : ℕ) (f g : Chars → Fields) (q : ℕ) (s : Chars)
    → Agree n f g
    → length s ≤ n
    → quoted f q s ≡ quoted g q s
unfolding quoted Agree
quoted-Agree n f g q s agree h = elim (Option-cases (split_once (q ∷ []) s)) [
  | inl e ↦ rw (e, quoted) refl
  | inr ((name, tag), e) ↦ elim (Option-cases (split_once (codes ">") tag)) [
    | inl e1 ↦ rw (e, quoted) (rw e1 refl)
    | inr ((attributes, body), e1) ↦ elim (Option-cases (split_once (codes "</Data>") body)) [
      | inl e2 ↦ rw (e, quoted) (rw e1 (rw e2 refl))
      | inr ((value, rest), e2) ↦
          let short : length rest ≤ n = omega (
            arith,
            split_once-length (q ∷ []) s name tag e,
            split_once-length (codes ">") tag attributes body e1,
            split_once-length (codes "</Data>") body value rest e2,
          ) in
          rw (e, quoted) (rw e1 (rw e2 (ap (found name value) (agree rest short))))
    ]
  ]
]

data_field-Agree :
    (n : ℕ) (f g : Chars → Fields) (s : Chars)
    → Agree n f g
    → length s ≤ n
    → data_field f s ≡ data_field g s
unfolding data_field Agree
data_field-Agree n f g [] agree h = refl
data_field-Agree n f g (q ∷ s) agree h = elim (Bool-cases (q == 34 || q == 39)) [
  | inl e ↦ rw e (quoted-Agree n f g q s agree (omega arith))
  | inr e ↦ rw e (agree (q ∷ s) h)
]

scan_fuel-Agree :
    (f g : ℕ) (xml : Chars) → length xml < f → length xml < g → scan_fuel f xml ≡ scan_fuel g xml
unfolding scan_fuel Agree
scan_fuel-Agree zero g xml h k = absurd (omega arith)
scan_fuel-Agree (suc f) zero xml h k = absurd (omega arith)
scan_fuel-Agree (suc f) (suc g) xml h k =
    elim (Option-cases (split_once (codes "<Data Name=") xml)) [
      | inl e ↦ rw (e, scan_fuel) refl
      | inr ((before, rest), e) ↦
          let short = split_once-length (codes "<Data Name=") xml before rest e in
          rw (e, scan_fuel)
            (data_field-Agree (length rest) (λ s. scan_fuel f s) (λ s. scan_fuel g s) rest
              (λ s l. scan_fuel-Agree f g s (omega (arith, short)) (omega (arith, short)))
              (omega arith))
    ]

-- The scan of the data fields has enough fuel: with any greater fuel it finds the same fields.
pub scan_data_fields-fuel :
    (f : ℕ) (xml : Chars) → length xml < f → scan_fuel f xml ≡ scan_data_fields xml
unfolding scan_data_fields
scan_data_fields-fuel f xml h = scan_fuel-Agree f (suc (length xml)) xml h (omega arith)

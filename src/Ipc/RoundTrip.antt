-- ===== src/Ipc/RoundTrip.antt =====
-- Packed structures: what is written field by field is what the agent reads.
use wazabi_edr_agent.Prelude.{
  ℕ, zero, suc, ◌*◌, ◌/◌, ◌%◌, ◌≡◌, ◌≤◌, ◌<◌, refl, sym, ap, subst, ◌∙◌, List, [], ◌∷◌, ◌++◌,
  Option, none, some, ltb, length, length-append, take, drop, take-append_length,
  drop-append_length, append_assoc, All, if-cases, ltb→lt, arith,
}
use wazabi_edr_agent.Prelude.Bytes.{u32_from_le_bytes}
use wazabi_edr_agent.Ipc.Wire.{
  Field, int, array, FieldValue, number, numbers, size_of_field, size_of, units, read_field,
  read_fields, read_unaligned,
}
use wazabi_edr_agent.Ipc.Payloads.{Decoded, malformed, decoded, read_packed}

-- `w` bytes of a number, the lowest first.
abbrev pub to_le_bytes : ℕ → ℕ → List ℕ
to_le_bytes zero v = []
to_le_bytes (suc w) v = v % 256 ∷ to_le_bytes w (v / 256)

abbrev pub capacity : ℕ → ℕ
capacity zero = 1
capacity (suc w) = 256 * capacity w

abbrev pub write_units : ℕ → List ℕ → List ℕ
write_units w [] = []
write_units w (u ∷ us) = to_le_bytes w u ++ write_units w us

-- A value of a field, in its width.
pub data Fits : Field → FieldValue → List ℕ → Type 0 where
  fits_int : (w v : ℕ) → v < capacity w → Fits (int w) (number v) (to_le_bytes w v)
  fits_array :
      (n w : ℕ) (us : List ℕ)
      → length us ≡ n
      → All (λ u. u < capacity w) us
      → Fits (array n w) (numbers us) (write_units w us)

-- The bytes of a structure, field after field.
pub data Written : List Field → List FieldValue → List ℕ → Type 0 where
  written_none : Written [] [] []
  written_one :
      (f : Field) (v : FieldValue) (b : List ℕ) (fs : List Field) (vs : List FieldValue)
      (bs : List ℕ)
      → Fits f v b
      → Written fs vs bs
      → Written (f ∷ fs) (v ∷ vs) (b ++ bs)

length-to_le_bytes : (w v : ℕ) → length (to_le_bytes w v) ≡ w
length-to_le_bytes zero v = refl
length-to_le_bytes (suc w) v = omega (arith, length-to_le_bytes w (v / 256))

le-round_trip : (w v : ℕ) → v < capacity w → u32_from_le_bytes (to_le_bytes w v) ≡ v
le-round_trip zero v h = omega arith
le-round_trip (suc w) v h =
    let s : v / 256 < capacity w = omega arith in omega (arith, le-round_trip w (v / 256) s)

take-exact : (n : ℕ) (xs ys : List ℕ) → length xs ≡ n → take n (xs ++ ys) ≡ xs
take-exact n xs ys h = subst (λ k. take k (xs ++ ys) ≡ xs) h (take-append_length xs ys)

drop-exact : (n : ℕ) (xs ys : List ℕ) → length xs ≡ n → drop n (xs ++ ys) ≡ ys
drop-exact n xs ys h = subst (λ k. drop k (xs ++ ys) ≡ ys) h (drop-append_length xs ys)

length-write_units : (w : ℕ) (us : List ℕ) → length (write_units w us) ≡ length us * w
length-write_units w [] = omega arith
length-write_units w (u ∷ us) =
    length-append (to_le_bytes w u) (write_units w us)
    ∙ omega (arith, length-to_le_bytes w u, length-write_units w us)

units-write :
    (w : ℕ) (us rest : List ℕ)
    → All (λ u. u < capacity w) us
    → units (length us) w (write_units w us ++ rest) ≡ us
unfolding units
units-write w [] rest h = refl
units-write w (u ∷ us) rest h =
    let a = append_assoc (to_le_bytes w u) (write_units w us) rest in
    let t : take w ((to_le_bytes w u ++ write_units w us) ++ rest) ≡ to_le_bytes w u =
      ap (take w) a
      ∙ take-exact w (to_le_bytes w u) (write_units w us ++ rest) (length-to_le_bytes w u) in
    let d : drop w ((to_le_bytes w u ++ write_units w us) ++ rest) ≡ write_units w us ++ rest =
      ap (drop w) a
      ∙ drop-exact w (to_le_bytes w u) (write_units w us ++ rest) (length-to_le_bytes w u) in
    λ i.
      (ap u32_from_le_bytes t ∙ le-round_trip w u h.0) i
      ∷ (ap (units (length us) w) d ∙ units-write w us rest h.1) i

Fits-length : {f : Field} {v : FieldValue} {b : List ℕ} → Fits f v b → length b ≡ size_of_field f
Fits-length (fits_int w v h) = length-to_le_bytes w v
Fits-length (fits_array n w us e h) = length-write_units w us ∙ ap (λ k. k * w) e

read_field-Fits :
    {f : Field} {v : FieldValue} {b : List ℕ} (rest : List ℕ)
    → Fits f v b
    → read_field f (b ++ rest) ≡ v
unfolding read_field
read_field-Fits rest (fits_int w v h) = ap number (
    ap u32_from_le_bytes (take-exact w (to_le_bytes w v) rest (length-to_le_bytes w v))
    ∙ le-round_trip w v h)
read_field-Fits rest (fits_array n w us e h) =
    ap numbers (ap (λ k. units k w (write_units w us ++ rest)) (sym e) ∙ units-write w us rest h)

read_fields-Written :
    {fs : List Field} {vs : List FieldValue} {b : List ℕ} (rest : List ℕ)
    → Written fs vs b
    → read_fields fs (b ++ rest) ≡ vs
unfolding read_fields
read_fields-Written rest written_none = refl
read_fields-Written rest (written_one f v b fs vs bs k r) =
    let a = append_assoc b bs rest in
    let d : drop (size_of_field f) ((b ++ bs) ++ rest) ≡ bs ++ rest =
      ap (drop (size_of_field f)) a ∙ drop-exact (size_of_field f) b (bs ++ rest) (Fits-length k) in
    λ i.
      (ap (read_field f) a ∙ read_field-Fits (bs ++ rest) k) i
      ∷ (ap (read_fields fs) d ∙ read_fields-Written rest r) i

pub Written-length :
    {fs : List Field} {vs : List FieldValue} {b : List ℕ} → Written fs vs b → length b ≡ size_of fs
unfolding size_of
Written-length written_none = refl
Written-length (written_one f v b fs vs bs k r) =
    length-append b bs ∙ omega (arith, Fits-length k, Written-length r)

pub read_unaligned-Written :
    {fs : List Field} {vs : List FieldValue} {b : List ℕ} (rest : List ℕ)
    → Written fs vs b
    → read_unaligned fs (b ++ rest) ≡ some vs
unfolding read_unaligned
read_unaligned-Written {fs} {vs} {b} rest w =
    if-cases (λ (o : Option (List FieldValue)). o ≡ some vs) (ltb (length (b ++ rest)) (size_of fs))
      {x = none}
      (λ e. absurd (
        omega (
          arith,
          ltb→lt (length (b ++ rest)) (size_of fs) e,
          length-append {0} b rest,
          Written-length w,
        )))
      (λ e. ap some (read_fields-Written rest w))

read_packed-Written :
    (fs : List Field) (vs : List FieldValue) (b rest : List ℕ) (size : ℕ)
    → Written fs vs b
    → size_of fs ≤ size
    → read_packed fs (b ++ rest) size ≡ decoded vs
unfolding read_packed
read_packed-Written fs vs b rest size w h =
    if-cases (λ (d : Decoded (List FieldValue)). d ≡ decoded vs) (ltb size (size_of fs))
      {x = malformed} (λ e. absurd (omega (arith, h, ltb→lt size (size_of fs) e)))
      (λ e. rw (read_unaligned-Written rest w) refl)

-- The same, of bytes given by an equation.
pub read_packed-bytes :
    (fs : List Field) (vs : List FieldValue) (b rest buf : List ℕ) (size : ℕ)
    → Written fs vs b
    → size_of fs ≤ size
    → buf ≡ b ++ rest
    → read_packed fs buf size ≡ decoded vs
read_packed-bytes fs vs b rest buf size w h e =
    ap (λ x. read_packed fs x size) e ∙ read_packed-Written fs vs b rest size w h

pub Written-append :
    {fs gs : List Field} {vs ws : List FieldValue} {b c : List ℕ}
    → Written fs vs b
    → Written gs ws c
    → Written (fs ++ gs) (vs ++ ws) (b ++ c)
Written-append written_none w = w
Written-append {gs} {ws} {c} (written_one f v b fs vs bs k r) w =
    subst (Written (f ∷ (fs ++ gs)) (v ∷ (vs ++ ws))) (sym (append_assoc b bs c))
      (written_one f v b (fs ++ gs) (vs ++ ws) (bs ++ c) k (Written-append r w))

-- ===== src/Plugin/Enrich.antt =====
-- src/plugin/server.rs, `enrich_with_xml_data_fields`: the fields that embedded XML adds to a payload. Texts are lists
-- of code points.
pub mod Fields
pub mod Fuel
use wazabi_edr_agent.Prelude.{
  ℕ, zero, suc, ◌+◌, ◌-◌, ◌*◌, Bool, true, false, ◌&&◌, ◌||◌, List, [], ◌∷◌, ◌++◌, Option, none,
  some, leb, ltb, ◌==◌, if◌then◌else◌, length,
}
use wazabi_edr_agent.Prelude.Bytes.{codes, bytes_eq, trim}

abbrev pub Chars : Type 0
Chars = List ℕ

-- The values of a JSON object that matter here; `other` stands for all that is neither a string nor a number of ours.
pub data Value : Type 0 where
  text : Chars → Value
  number : ℕ → Value
  other : ℕ → Value

abbrev pub Fields : Type 0
Fields = List (Chars × Value)

pub data Payload : Type 0 where
  object : Fields → Payload
  no_object : Value → Payload

unfoldable pub field : Fields → Chars → Option Value
field [] k = none
field ((j, v) ∷ obj) k = if bytes_eq j k then some v else field obj k

unfoldable pub strip_prefix : Chars → Chars → Option Chars
strip_prefix [] s = some s
strip_prefix (p ∷ ps) [] = none
strip_prefix (p ∷ ps) (c ∷ s) = if c == p then strip_prefix ps s else none

-- `find`: what stands before the first occurrence, and what stands behind it.
unfoldable pub split_once : Chars → Chars → Option (Chars × Chars)
unfolding strip_prefix
split_once needle [] = elim (strip_prefix needle []) [ none ↦ none | some r ↦ some ([], r) ]
split_once needle (c ∷ s) =
    let later = split_once needle s in
    elim (strip_prefix needle (c ∷ s)) [
      | some r ↦ some ([], r)
      | none ↦ elim later [ none ↦ none | some (b, a) ↦ some (c ∷ b, a) ]
    ]

digits : ℕ → Chars → Option ℕ
digits n [] = some n
digits n (c ∷ s) = if leb 48 c && leb c 57 then digits (n * 10 + (c - 48)) s else none

in_u32 : Option ℕ → Option ℕ
in_u32 none = none
in_u32 (some n) = if ltb n 4294967296 then some n else none

-- `str::parse::<u32>`.
parse_u32 : Chars → Option ℕ
unfolding digits in_u32
parse_u32 [] = none
parse_u32 (c ∷ []) = if c == 43 then none else in_u32 (digits 0 (c ∷ []))
parse_u32 (c ∷ d ∷ s) = if c == 43 then in_u32 (digits 0 (d ∷ s)) else in_u32 (digits 0 (c ∷ d ∷ s))

unfoldable pub scan_event_id : Chars → Option ℕ
unfolding parse_u32 trim split_once
scan_event_id xml = elim (split_once (codes "<EventID") xml) [
  | none ↦ none
  | some (a, tag) ↦ elim (split_once (codes ">") tag) [
    | none ↦ none
    | some (b, body) ↦ elim (split_once (codes "</EventID>") body) [
      | none ↦ none
      | some (id, c) ↦ parse_u32 (trim id)
    ]
  ]
]

lower : ℕ → ℕ
lower c = if c == 32 then 95 else if leb 65 c && leb c 90 then c + 32 else c

lower_all : Chars → Chars
unfolding lower
lower_all [] = []
lower_all (c ∷ s) = lower c ∷ lower_all s

normalize_data_key : Chars → Chars
unfolding lower_all trim
normalize_data_key name = lower_all (trim name)

-- `str::replace`: fuel of the text's length is enough, since each round takes a character.
replace : ℕ → Chars → Chars → Chars → Chars
unfolding strip_prefix
replace zero from to s = s
replace (suc f) from to [] = []
replace (suc f) from to (c ∷ s) = elim (strip_prefix from (c ∷ s)) [
  | none ↦ c ∷ replace f from to s
  | some r ↦ to ++ replace f from to r
]

replace_all : Chars → Chars → Chars → Chars
unfolding replace
replace_all from to s = replace (length s) from to s

-- The entities are replaced one after the other, `&amp;` first.
unfoldable pub decode_xml_entities : Chars → Chars
unfolding replace_all
decode_xml_entities s = replace_all (codes "&apos;") (codes "'") (
    replace_all (codes "&quot;") (34 ∷ []) (
      replace_all (codes "&gt;") (codes ">")
        (replace_all (codes "&lt;") (codes "<") (replace_all (codes "&amp;") (codes "&") s))))

unfoldable pub found : Chars → Chars → Fields → Fields
unfolding trim normalize_data_key
found name value rest = elim (trim value) [
  | [] ↦ rest
  | c ∷ s ↦ (normalize_data_key name, text (decode_xml_entities (c ∷ s))) ∷ rest
]

-- Behind the quote: the name, the end of the tag, the value. `next` is the rest of the scan.
unfoldable pub quoted : (Chars → Fields) → ℕ → Chars → Fields
unfolding split_once found
quoted next q s = elim (split_once (q ∷ []) s) [
  | none ↦ []
  | some (name, tag) ↦ elim (split_once (codes ">") tag) [
    | none ↦ []
    | some (attributes, body) ↦ elim (split_once (codes "</Data>") body) [
      | none ↦ []
      | some (value, rest) ↦ found name value (next rest)
    ]
  ]
]

unfoldable pub data_field : (Chars → Fields) → Chars → Fields
unfolding quoted
data_field next [] = []
data_field next (q ∷ s) = if q == 34 || q == 39 then quoted next q s else next (q ∷ s)

unfoldable pub scan_fuel : ℕ → Chars → Fields
unfolding data_field split_once
scan_fuel zero xml = []
scan_fuel (suc f) xml = elim (split_once (codes "<Data Name=") xml) [
  | none ↦ []
  | some (before, rest) ↦ data_field (λ s. scan_fuel f s) rest
]

unfoldable pub scan_data_fields : Chars → Fields
unfolding scan_fuel
scan_data_fields xml = scan_fuel (suc (length xml)) xml

-- `contains_key` and `insert`.
unfoldable pub insert_missing : Fields → Chars → Value → Fields
unfolding field
insert_missing obj k v = elim (field obj k) [ none ↦ obj ++ ((k, v) ∷ []) | some w ↦ obj ]

unfoldable pub insert_all : Fields → Fields → Fields
unfolding insert_missing
insert_all obj [] = obj
insert_all obj ((k, v) ∷ new) = insert_all (insert_missing obj k v) new

event_field : Option ℕ → Fields
event_field none = []
event_field (some id) = (codes "event_id", number id) ∷ []

-- All that the XML has to add, the event id first.
unfoldable pub xml_fields : Chars → Fields
unfolding event_field
xml_fields xml = event_field (scan_event_id xml) ++ scan_data_fields xml

unfoldable pub enrich_fields : Fields → Option Value → Fields
unfolding insert_all
enrich_fields obj none = obj
enrich_fields obj (some (number n)) = obj
enrich_fields obj (some (other n)) = obj
enrich_fields obj (some (text xml)) = insert_all obj (xml_fields xml)

unfoldable pub enrich_with_xml_data_fields : Payload → Payload
unfolding enrich_fields
enrich_with_xml_data_fields (no_object v) = no_object v
enrich_with_xml_data_fields (object obj) = object (enrich_fields obj (field obj (codes "raw_xml")))

-- ===== src/Plugin/Enrich/Fields.antt =====
-- src/plugin/server.rs: what a payload holds after the enrichment.
use wazabi_edr_agent.Prelude.{
  ◌≡◌, refl, sym, ap, ◌∙◌, [], ◌∷◌, ◌++◌, Option, none, some, arith, if◌then◌else◌, Option-cases,
  Bool-cases, inl, inr,
}
use wazabi_edr_agent.Prelude.Bytes.{codes, bytes_eq, bytes_eq_iff}
use wazabi_edr_agent.Plugin.Enrich.{
  Chars, Value, text, number, other, Fields, object, field, insert_missing, insert_all,
  enrich_fields, enrich_with_xml_data_fields, xml_fields,
}

-- The first of two, or else the second.
abbrev pub or_else : Option Value → Option Value → Option Value
or_else none later = later
or_else (some v) later = some v

or_else-none : (o : Option Value) → o ≡ or_else o none
or_else-none none = refl
or_else-none (some v) = refl

field-append : (a b : Fields) (k : Chars) → field (a ++ b) k ≡ or_else (field a k) (field b k)
unfolding field
field-append [] b k = refl
field-append ((j, v) ∷ a) b k = ground (arith, field-append a b k)

field-insert_missing :
    (obj : Fields) (k j : Chars) (v : Value)
    → field (insert_missing obj k v) j
      ≡ or_else (field obj j) (if bytes_eq k j then some v else none)
unfolding insert_missing field
field-insert_missing obj k j v = elim (Option-cases (field obj k)) [
  | inl e ↦ rw (e, insert_missing) (field-append obj ((k, v) ∷ []) j)
  | inr (w, e) ↦ rw (e, insert_missing) (kept w e)
]
  where
    kept :
        (w : Value)
        → field obj k ≡ some w
        → field obj j ≡ or_else (field obj j) (if bytes_eq k j then some v else none)
    kept w e = elim (Bool-cases (bytes_eq k j)) [
      | inl b ↦
          let same : field obj j ≡ some w = ap (field obj) (sym ((bytes_eq_iff k j).0 b)) ∙ e in
          rw same refl
      | inr b ↦ rw b (or_else-none (field obj j))
    ]

field-insert_all :
    (obj new : Fields) (k : Chars)
    → field (insert_all obj new) k ≡ or_else (field obj k) (field new k)
unfolding insert_all field
field-insert_all obj [] k = or_else-none (field obj k)
field-insert_all obj ((j, v) ∷ new) k =
    ground (arith, field-insert_all (insert_missing obj j v) new k, field-insert_missing obj j k v)

-- What the enrichment may add to an object: nothing unless its field `raw_xml` is a text.
abbrev pub additions : Option Value → Fields
additions none = []
additions (some (number n)) = []
additions (some (other n)) = []
additions (some (text xml)) = xml_fields xml

-- The enrichment never overwrites: a field that the plugin sent stays as it is, and any other is the first that the
-- XML in `raw_xml` has to add under that name, the event id before the data fields.
pub enrich_with_xml_data_fields-field :
    (obj : Fields) (k : Chars)
    → (obj' : Fields) × (enrich_with_xml_data_fields (object obj) ≡ object obj')
      × (field obj' k ≡ or_else (field obj k) (field (additions (field obj (codes "raw_xml"))) k))
unfolding enrich_with_xml_data_fields
enrich_with_xml_data_fields-field obj k =
    (enrich_fields obj (field obj (codes "raw_xml")), refl, by_raw (field obj (codes "raw_xml")))
  where
    by_raw :
        (o : Option Value)
        → field (enrich_fields obj o) k ≡ or_else (field obj k) (field (additions o) k)
    by_raw none = unfold enrich_fields field in or_else-none (field obj k)
    by_raw (some (number n)) = unfold enrich_fields field in or_else-none (field obj k)
    by_raw (some (other n)) = unfold enrich_fields field in or_else-none (field obj k)
    by_raw (some (text xml)) = unfold enrich_fields in field-insert_all obj (xml_fields xml) k

-- ===== src/Ipc/Decode.antt =====
-- The round trip of the events of whole numbers: what the driver writes of an exit or of a thread is what the line says.
use wazabi_edr_agent.Prelude.{
  ℕ, ◌≡◌, ◌≤◌, ◌<◌, refl, ap, ◌∙◌, subst, not, ◌&&◌, List, [], ◌∷◌, ◌++◌, some, ltb, ◌==◌, length,
  length-append, append_assoc, map, All, if-cases, ltb→lt, String, arith,
}
use wazabi_edr_agent.Prelude.Bytes.{codes}
use wazabi_edr_agent.Prelude.Json.{Json, number, boolean, object, member, no_member}
use wazabi_edr_agent.Ipc.Wire.{
  Field, int, FieldValue, size_of, read_unaligned, value_at, event_header,
}
use wazabi_edr_agent.Ipc.Payloads.{
  Lookups, Decoded, malformed, decoded, read_packed, then_encode, signed32, signed64, encode_event,
  process_exit_payload, thread_create_payload, thread_exit_payload,
}
use wazabi_edr_agent.Ipc.Kernel.{
  DecodedKernel, with_header, decode_with, decode_kernel_event, kind_of, event_type_of,
}
use wazabi_edr_agent.Ipc.RoundTrip.{
  to_le_bytes, capacity, fits_int, Written, written_none, written_one, Written-append,
  Written-length, read_unaligned-Written, read_packed-bytes,
}

-- An event as the driver knows it.
pub data Event : Type 0 where
  exited : (pid code : ℕ) → Event
  thread_started : (pid tid creator : ℕ) → Event
  thread_ended : (pid tid : ℕ) → Event

-- The header without its version and type.
pub record Header : Type 0 where
  pub timestamp : ℕ
  pub size : ℕ
  pub drop_count : ℕ
  pub trunc_count : ℕ

abbrev pub number_of : Event → ℕ
number_of (exited pid code) = 2
number_of (thread_started pid tid creator) = 5
number_of (thread_ended pid tid) = 6

-- The numbers behind the header, in the order of the driver's structures.
abbrev pub words : Event → List ℕ
words (exited pid code) = pid ∷ code ∷ []
words (thread_started pid tid creator) = pid ∷ tid ∷ creator ∷ []
words (thread_ended pid tid) = pid ∷ tid ∷ []

abbrev pub word_bytes : List ℕ → List ℕ
word_bytes [] = []
word_bytes (w ∷ ws) = to_le_bytes 4 w ++ word_bytes ws

abbrev pub header_bytes : Event → Header → List ℕ
header_bytes e h =
    to_le_bytes 2 6
    ++ (to_le_bytes 2 (number_of e)
        ++ (to_le_bytes 8 (Header.timestamp h)
            ++ (to_le_bytes 4 (Header.size h)
                ++ (to_le_bytes 4 (Header.drop_count h)
                    ++ (to_le_bytes 4 (Header.trunc_count h) ++ [])))))

-- What the line is to say of it.
abbrev pub kind_name : Event → String
kind_name (exited pid code) = "ProcessExit"
kind_name (thread_started pid tid creator) = "ThreadCreate"
kind_name (thread_ended pid tid) = "ThreadExit"

abbrev pub type_name : Event → String
type_name (exited pid code) = "process_terminate"
type_name (thread_started pid tid creator) = "thread_create"
type_name (thread_ended pid tid) = "thread_exit"

abbrev pub said : Event → Json
said (exited pid code) = object (
    member (codes "pid") (number pid) (
      member (codes "exit_code") (signed32 code)
        (member (codes "clean_exit") (boolean (code == 0)) no_member)))
said (thread_started pid tid creator) = object (
    member (codes "pid") (number pid) (
      member (codes "tid") (number tid) (
        member (codes "creating_pid") (number creator) (
          member (codes "remote_injection") (boolean (not (creator == pid) && not (creator == 0)))
            no_member))))
said (thread_ended pid tid) =
    object (member (codes "pid") (number pid) (member (codes "tid") (number tid) no_member))

-- The numbers fit their fields, and the size is at least that of the structure.
pub record Fitting (e : Event) (h : Header) : Type 0 where
  pub time_fits : Header.timestamp h < capacity 8
  pub size_fits : Header.size h < capacity 4
  pub drops_fit : Header.drop_count h < capacity 4
  pub truncs_fit : Header.trunc_count h < capacity 4
  pub words_fit : All (λ w. w < capacity 4) (words e)
  pub complete : length (header_bytes e h ++ word_bytes (words e)) ≤ Header.size h

abbrev header_values : Event → Header → List FieldValue
header_values e h =
    FieldValue.number 6
    ∷ FieldValue.number (number_of e)
    ∷ FieldValue.number (Header.timestamp h)
    ∷ FieldValue.number (Header.size h)
    ∷ FieldValue.number (Header.drop_count h)
    ∷ FieldValue.number (Header.trunc_count h)
    ∷ []

header-Written :
    (e : Event) (h : Header)
    → number_of e < capacity 2
    → Fitting e h
    → Written event_header (header_values e h) (header_bytes e h)
header-Written e h n f = written_one _ _ _ _ _ _ (fits_int 2 6 (omega arith)) (
    written_one _ _ _ _ _ _ (fits_int 2 (number_of e) n) (
      written_one _ _ _ _ _ _ (fits_int 8 (Header.timestamp h) (Fitting.time_fits f)) (
        written_one _ _ _ _ _ _ (fits_int 4 (Header.size h) (Fitting.size_fits f)) (
          written_one _ _ _ _ _ _ (fits_int 4 (Header.drop_count h) (Fitting.drops_fit f)) (
            written_one _ _ _ _ _ _ (fits_int 4 (Header.trunc_count h) (Fitting.truncs_fit f))
              written_none)))))

abbrev word_fields : List ℕ → List Field
word_fields ws = map (λ w. int 4) ws

words-Written :
    (ws : List ℕ)
    → All (λ w. w < capacity 4) ws
    → Written (word_fields ws) (map FieldValue.number ws) (word_bytes ws)
words-Written [] h = written_none
words-Written (w ∷ ws) h = written_one _ _ _ _ _ _ (fits_int 4 w h.0) (words-Written ws h.1)

small : (e : Event) → number_of e < capacity 2
small (exited pid code) = omega arith
small (thread_started pid tid creator) = omega arith
small (thread_ended pid tid) = omega arith

abbrev pub delivered : Event → Header → List ℕ → List ℕ
delivered e h rest = (header_bytes e h ++ word_bytes (words e)) ++ rest

abbrev whole_values : Event → Header → List FieldValue
whole_values e h = header_values e h ++ map FieldValue.number (words e)

whole-Written :
    (e : Event) (h : Header)
    → Fitting e h
    → Written
        (event_header ++ word_fields (words e))
        (whole_values e h)
        (header_bytes e h ++ word_bytes (words e))
whole-Written e h f =
    Written-append (header-Written e h (small e) f) (words-Written (words e) (Fitting.words_fit f))

packed :
    (e : Event) (h : Header) (rest : List ℕ)
    → Fitting e h
    → read_packed (event_header ++ word_fields (words e)) (delivered e h rest) (Header.size h)
      ≡ decoded (whole_values e h)
packed e h rest f =
    read_packed-bytes _ _ (header_bytes e h ++ word_bytes (words e)) rest (delivered e h rest)
      (Header.size h) (whole-Written e h f)
      (subst (λ k. k ≤ Header.size h) (Written-length (whole-Written e h f)) (Fitting.complete f))
      refl

module _ (look : Lookups) where
  abbrev pub line_of : Event → Header → DecodedKernel
  line_of e h = record {
    kind = kind_name e;
    event_type = type_name e;
    payload = said e;
    ts = Lookups.format_timestamp look (signed64 (Header.timestamp h));
    ts_ft_100ns = signed64 (Header.timestamp h);
    version = 6;
    drop_count = Header.drop_count h;
    trunc_count = Header.trunc_count h;
  }

  encode-said :
      (e : Event) (h : Header) (rest : List ℕ)
      → Fitting e h
      → encode_event look (number_of e) (delivered e h rest) (Header.size h) ≡ decoded (said e)
  unfolding encode_event process_exit_payload thread_create_payload thread_exit_payload value_at
  encode-said (exited pid code) h rest f =
      ap (then_encode process_exit_payload) (packed (exited pid code) h rest f)
  encode-said (thread_started pid tid creator) h rest f =
      ap (then_encode thread_create_payload) (packed (thread_started pid tid creator) h rest f)
  encode-said (thread_ended pid tid) h rest f =
      ap (then_encode thread_exit_payload) (packed (thread_ended pid tid) h rest f)

  with_header-line :
      (e : Event) (h : Header)
      → with_header look (header_values e h) (decoded (said e)) ≡ decoded (line_of e h)
  unfolding with_header kind_of event_type_of value_at
  with_header-line (exited pid code) h = refl
  with_header-line (thread_started pid tid creator) h = refl
  with_header-line (thread_ended pid tid) h = refl

  decode_with-line :
      (e : Event) (h : Header) (rest : List ℕ)
      → Fitting e h
      → Header.size h ≤ length (delivered e h rest)
      → decode_with look (header_values e h) (delivered e h rest) ≡ decoded (line_of e h)
  unfolding decode_with value_at
  decode_with-line e h rest f fit =
      if-cases (λ (d : Decoded DecodedKernel). d ≡ decoded (line_of e h))
        (ltb (length (delivered e h rest)) (Header.size h)) {x = malformed}
        (λ l. absurd (omega (arith, fit, ltb→lt (length (delivered e h rest)) (Header.size h) l)))
        (λ l.
          ap (with_header look (header_values e h)) (encode-said e h rest f) ∙ with_header-line e h)

  -- Whatever numbers an exit of a process or a start or an end of a thread has, the decoding of the bytes that the driver
  -- writes of it, with any bytes behind them within what was delivered, gives these numbers under their names, the type of
  -- the event, and the time and the counters of the header.
  pub decode_kernel_event-line :
      (e : Event) (h : Header) (rest : List ℕ)
      → Fitting e h
      → Header.size h ≤ length (delivered e h rest)
      → decode_kernel_event look (delivered e h rest) ≡ decoded (line_of e h)
  unfolding decode_kernel_event
  decode_kernel_event-line e h rest f fit =
      let w = header-Written e h (small e) f in
      let behind = word_bytes (words e) ++ rest in
      let r : read_unaligned event_header (delivered e h rest) ≡ some (header_values e h) =
        ap (read_unaligned event_header)
          (append_assoc (header_bytes e h) (word_bytes (words e)) rest)
        ∙ read_unaligned-Written behind w in
      if-cases (λ (d : Decoded DecodedKernel). d ≡ decoded (line_of e h))
        (ltb (length (delivered e h rest)) (size_of event_header)) {x = malformed}
        (λ l. absurd (
          omega (
            arith,
            ltb→lt (length (delivered e h rest)) (size_of event_header) l,
            Written-length w,
            length-append {0} (header_bytes e h ++ word_bytes (words e)) rest,
            length-append {0} (header_bytes e h) (word_bytes (words e)),
          )))
        (λ l. rw r (decode_with-line e h rest f fit))

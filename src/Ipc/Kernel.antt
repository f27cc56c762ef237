-- ===== src/Ipc/Kernel.antt =====
-- src/ipc/json.rs: the decoding of an event.
use wazabi_edr_agent.Prelude.{ℕ, List, none, some, ltb, ◌==◌, if◌then◌else◌, length, String}
use wazabi_edr_agent.Prelude.Json.{Json}
use wazabi_edr_agent.Ipc.Wire.{FieldValue, size_of, read_unaligned, value_at, event_header}
use wazabi_edr_agent.Ipc.Payloads.{
  Lookups, Decoded, malformed, undefined_read, decoded, encode_event, Chars, signed64,
}

abbrev pub event_version : ℕ
event_version = 6

pub record DecodedKernel : Type 0 where
  pub kind : String
  pub event_type : String
  pub payload : Json
  pub ts : Chars
  pub ts_ft_100ns : Json
  pub version : ℕ
  pub drop_count : ℕ
  pub trunc_count : ℕ

unfoldable pub kind_of : ℕ → String
kind_of t =
    if t == 1
    then "ProcessCreate"
    else if t == 2
    then "ProcessExit"
    else if t == 3
    then "ImageLoad"
    else if t == 4
    then "RegistryModify"
    else if t == 5
    then "ThreadCreate"
    else if t == 6
    then "ThreadExit"
    else if t == 7
    then "ProcessHandleAccess"
    else "Unknown"

-- An unknown type goes under the name of a process that is created.
unfoldable pub event_type_of : ℕ → String
event_type_of t =
    if t == 1
    then "process_create"
    else if t == 2
    then "process_terminate"
    else if t == 3
    then "module_load"
    else if t == 4
    then "registry_write"
    else if t == 5
    then "thread_create"
    else if t == 6
    then "thread_exit"
    else if t == 7
    then "process_handle_access"
    else "process_create"

module _ (look : Lookups) where
  unfoldable pub with_header : List FieldValue → Decoded Json → Decoded DecodedKernel
  unfolding kind_of event_type_of value_at signed64
  with_header h malformed = malformed
  with_header h undefined_read = undefined_read
  with_header h (decoded j) = decoded (record {
    kind = kind_of (value_at 1 h);
    event_type = event_type_of (value_at 1 h);
    payload = j;
    ts = Lookups.format_timestamp look (signed64 (value_at 2 h));
    ts_ft_100ns = signed64 (value_at 2 h);
    version = value_at 0 h;
    drop_count = value_at 4 h;
    trunc_count = value_at 5 h;
  })

  -- The version, then the size that the header gives against what was delivered.
  unfoldable pub decode_with : List FieldValue → List ℕ → Decoded DecodedKernel
  unfolding with_header encode_event value_at
  decode_with h buf =
      if value_at 0 h == event_version
      then (if ltb (length buf) (value_at 3 h)
          then malformed
          else with_header h (encode_event look (value_at 1 h) buf (value_at 3 h)))
      else malformed

  unfoldable pub decode_kernel_event : List ℕ → Decoded DecodedKernel
  unfolding decode_with read_unaligned size_of
  decode_kernel_event buf =
      if ltb (length buf) (size_of event_header)
      then malformed
      else elim (read_unaligned event_header buf) [
        | none ↦ undefined_read
        | some h ↦ decode_with h buf
      ]

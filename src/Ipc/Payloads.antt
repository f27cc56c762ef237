-- ===== src/Ipc/Payloads.antt =====
-- src/ipc/json.rs: the payload of each kind of event. The conversion from UTF-16, which may replace what is no text, and the
-- look-ups of users, sessions and elevation, and the text of a time are parameters.
use wazabi_edr_agent.Prelude.{
  ℕ, ◌-◌, ◌^◌, min, Bool, not, ◌&&◌, ◌||◌, List, [], ◌∷◌, ◌++◌, Option, none, some, ltb, ◌==◌,
  if◌then◌else◌, take, String,
}
use wazabi_edr_agent.Prelude.Bytes.{codes}
use wazabi_edr_agent.Prelude.Json.{
  Json, boolean, number, negative, text, object, Members, no_member, member,
}
use wazabi_edr_agent.Control.Sha256.{hex}
use wazabi_edr_agent.Ipc.Wire.{
  Field, FieldValue, size_of, read_unaligned, value_at, units_at, process_create_event,
  process_exit_event, image_load_event, registry_event, thread_create_event, thread_exit_event,
  process_handle_access_event,
}

abbrev pub Chars : Type 0
Chars = List ℕ

pub record Lookups : Type 0 where
  pub from_utf16_lossy : List ℕ → Chars
  pub resolve_user : Chars → Option (Chars × Chars)
  pub session_id_for_pid : ℕ → Option ℕ
  pub is_elevated_for_pid : ℕ → Option Bool
  pub format_timestamp : Json → Chars

-- An error, a read outside the buffer, or a value.
pub data Decoded (A : Type 0) : Type 0 where
  malformed : Decoded A
  undefined_read : Decoded A
  decoded : A → Decoded A

-- `read_packed`: the size in the header against that of the structure, then the read.
unfoldable pub read_packed : List Field → List ℕ → ℕ → Decoded (List FieldValue)
unfolding read_unaligned size_of
read_packed fs buf header_size =
    if ltb header_size (size_of fs)
    then malformed
    else elim (read_unaligned fs buf) [ none ↦ undefined_read | some vs ↦ decoded vs ]

abbrev pub then_encode : (List FieldValue → Json) → Decoded (List FieldValue) → Decoded Json
then_encode f malformed = malformed
then_encode f undefined_read = undefined_read
then_encode f (decoded vs) = decoded (f vs)

-- The last part of a path, where there is one and it is not empty.
after_separator : Option Chars → Chars → Option Chars
after_separator last [] = last
after_separator last (c ∷ s) = after_separator (if c == 92 || c == 47 then some s else last) s

unfoldable pub nonempty : Option Chars → Option Chars
nonempty (some (c ∷ s)) = some (c ∷ s)
nonempty _ = none

unfoldable pub basename : Chars → Option Chars
unfolding after_separator nonempty
basename path = nonempty (after_separator none path)

unfoldable pub text_or_none : Chars → Option Json
text_or_none [] = none
text_or_none (c ∷ s) = some (text (c ∷ s))

unfoldable pub number_or_none : Option ℕ → Option Json
number_or_none none = none
number_or_none (some n) = some (number n)

unfoldable pub boolean_or_none : Option Bool → Option Json
boolean_or_none none = none
boolean_or_none (some b) = some (boolean b)

-- A member that is left out where there is no value.
unfoldable pub optional : Chars → Option Json → Members → Members
optional k none ms = ms
optional k (some j) ms = member k j ms

integrity_label_str : ℕ → String
integrity_label_str rid =
    if rid == 0
    then "untrusted"
    else if rid == 0x1000
    then "low"
    else if rid == 0x2000
    then "medium"
    else if rid == 0x2100
    then "medium_plus"
    else if rid == 0x3000
    then "high"
    else if rid == 0x4000
    then "system"
    else if rid == 0x5000
    then "protected"
    else "unknown"

or_empty : Option Chars → Chars
or_empty none = []
or_empty (some s) = s

unfoldable pub full_name : Chars → Chars → Chars
full_name account [] = account
full_name account (d ∷ ds) = (d ∷ ds) ++ (92 ∷ account)

unfoldable pub user_members : Option (Chars × Chars) → Members → Members
unfolding full_name
user_members none ms = ms
user_members (some (account, domain)) ms = member (codes "user") (text account) (
    member (codes "user_domain") (text domain)
      (member (codes "user_full") (text (full_name account domain)) ms))

unfoldable pub integrity_members : ℕ → Members → Members
unfolding integrity_label_str
integrity_members il ms =
    if il == 0xFFFFFFFF
    then ms
    else member (codes "integrity_level") (number il)
        (member (codes "integrity_label") (text (codes (integrity_label_str il))) ms)

registry_op_name : ℕ → String
registry_op_name op =
    if op == 1
    then "SetValue"
    else if op == 2
    then "DeleteValue"
    else if op == 3
    then "DeleteKey"
    else if op == 4
    then "RenameKey"
    else if op == 5
    then "CreateKey"
    else "Unknown"

handle_op_name : ℕ → String
handle_op_name op = if op == 1 then "Open" else if op == 2 then "Duplicate" else "Unknown"

-- An i32 from its two's complement.
unfoldable pub signed32 : ℕ → Json
signed32 n = if ltb n (2 ^ 31) then number n else negative (2 ^ 32 - 1 - n)

-- An i64, likewise.
unfoldable pub signed64 : ℕ → Json
signed64 n = if ltb n (2 ^ 63) then number n else negative (2 ^ 64 - 1 - n)

module _ (look : Lookups) where
  -- `decode_path` of an array with room for `n` units.
  unfoldable pub decode_path : ℕ → List ℕ → ℕ → Chars
  decode_path n arr len =
      if len == 0 || ltb n len then [] else Lookups.from_utf16_lossy look (take len arr)

  unfoldable pub user_of : Chars → Members → Members
  unfolding user_members
  user_of [] ms = ms
  user_of (c ∷ sid) ms =
      member (codes "user_sid") (text (c ∷ sid))
        (user_members (Lookups.resolve_user look (c ∷ sid)) ms)

  unfoldable pub parent_name : Chars → Chars
  unfolding basename or_empty
  parent_name [] = []
  parent_name (c ∷ s) = or_empty (basename (c ∷ s))

  unfoldable pub process_create_payload : List FieldValue → Json
  unfolding decode_path optional text_or_none number_or_none boolean_or_none user_of parent_name
      integrity_members value_at units_at
  process_create_payload vs =
      let pid = value_at 6 vs in
      let parent = decode_path 512 (units_at 13 vs) (value_at 14 vs) in
      object (
        member (codes "pid") (number pid) (
          member (codes "parent_pid") (number (value_at 7 vs)) (
            member (codes "creating_pid") (number (value_at 8 vs)) (
              member (codes "image_path") (text (decode_path 512 (units_at 9 vs) (value_at 10 vs)))
                (optional (codes "command_line")
                  (text_or_none (decode_path 4096 (units_at 11 vs) (value_at 12 vs)))
                  (optional (codes "parent_image_path") (text_or_none parent) (
                    optional (codes "parent_image_name") (text_or_none (parent_name parent)) (
                      user_of (decode_path 192 (units_at 15 vs) (value_at 16 vs)) (
                        integrity_members (value_at 17 vs) (
                          optional (codes "session_id")
                            (number_or_none (Lookups.session_id_for_pid look pid))
                            (optional (codes "elevated")
                              (boolean_or_none (Lookups.is_elevated_for_pid look pid))
                              no_member)))))))))))

  unfoldable pub image_load_payload : List FieldValue → Json
  unfolding decode_path value_at units_at
  image_load_payload vs =
      let pid = value_at 6 vs in
      object (
        member (codes "pid") (number pid) (
          member (codes "scope") (text (codes (if pid == 0 then "kernel" else "user"))) (
            member (codes "image_base") (number (value_at 7 vs)) (
              member (codes "image_size") (number (value_at 8 vs)) (
                member (codes "image_path")
                  (text (decode_path 512 (units_at 9 vs) (value_at 10 vs))) no_member)))))

  -- The preview of a value that is set, of at most 256 bytes.
  set_value_members : List FieldValue → Members
  unfolding hex value_at units_at
  set_value_members vs =
      if value_at 7 vs == 1
      then member (codes "value_type") (number (value_at 8 vs)) (
          member (codes "data_size") (number (value_at 9 vs)) (
            member (codes "data_preview_hex")
              (text (hex (take (min (value_at 15 vs) 256) (units_at 14 vs))))
              (member (codes "data_truncated") (boolean (ltb (value_at 15 vs) (value_at 9 vs)))
                no_member)))
      else no_member

  unfoldable pub registry_payload : List FieldValue → Json
  unfolding decode_path optional text_or_none registry_op_name set_value_members value_at units_at
  registry_payload vs = object (
      member (codes "pid") (number (value_at 6 vs)) (
        member (codes "op") (text (codes (registry_op_name (value_at 7 vs)))) (
          member (codes "op_code") (number (value_at 7 vs)) (
            member (codes "key_path") (text (decode_path 512 (units_at 10 vs) (value_at 11 vs))) (
              optional (codes "value_name")
                (text_or_none (decode_path 128 (units_at 12 vs) (value_at 13 vs)))
                (set_value_members vs))))))

unfoldable pub process_exit_payload : List FieldValue → Json
unfolding signed32 value_at
process_exit_payload vs = object (
    member (codes "pid") (number (value_at 6 vs)) (
      member (codes "exit_code") (signed32 (value_at 7 vs))
        (member (codes "clean_exit") (boolean (value_at 7 vs == 0)) no_member)))

-- A creator that is neither the process nor 0 is another process.
unfoldable pub thread_create_payload : List FieldValue → Json
unfolding value_at
thread_create_payload vs = object (
    member (codes "pid") (number (value_at 6 vs)) (
      member (codes "tid") (number (value_at 7 vs)) (
        member (codes "creating_pid") (number (value_at 8 vs)) (
          member (codes "remote_injection")
            (boolean (not (value_at 8 vs == value_at 6 vs) && not (value_at 8 vs == 0)))
            no_member))))

unfoldable pub thread_exit_payload : List FieldValue → Json
unfolding value_at
thread_exit_payload vs = object (
    member (codes "pid") (number (value_at 6 vs))
      (member (codes "tid") (number (value_at 7 vs)) no_member))

-- The process of the event is the source of the access.
unfoldable pub handle_access_payload : List FieldValue → Json
unfolding handle_op_name value_at
handle_access_payload vs = object (
    member (codes "pid") (number (value_at 6 vs)) (
      member (codes "source_pid") (number (value_at 6 vs)) (
        member (codes "target_pid") (number (value_at 7 vs)) (
          member (codes "desired_access") (number (value_at 8 vs)) (
            member (codes "original_desired_access") (number (value_at 9 vs)) (
              member (codes "op") (text (codes (handle_op_name (value_at 10 vs))))
                (member (codes "op_code") (number (value_at 10 vs)) no_member)))))))

module _ (look : Lookups) where
  unfoldable pub encode_event : ℕ → List ℕ → ℕ → Decoded Json
  unfolding read_packed process_create_payload image_load_payload registry_payload
      process_exit_payload thread_create_payload thread_exit_payload handle_access_payload
  encode_event type buf size =
      if type == 1
      then then_encode (process_create_payload look) (read_packed process_create_event buf size)
      else if type == 2
      then then_encode process_exit_payload (read_packed process_exit_event buf size)
      else if type == 3
      then then_encode (image_load_payload look) (read_packed image_load_event buf size)
      else if type == 4
      then then_encode (registry_payload look) (read_packed registry_event buf size)
      else if type == 5
      then then_encode thread_create_payload (read_packed thread_create_event buf size)
      else if type == 6
      then then_encode thread_exit_payload (read_packed thread_exit_event buf size)
      else if type == 7
      then then_encode handle_access_payload (read_packed process_handle_access_event buf size)
      else decoded (
          object
            (member (codes "type") (number type) (member (codes "size") (number size) no_member)))

-- ===== src/Ipc/Wire.antt =====
-- src/ipc/events.rs: the packed structures of the driver's events, as lists of fields; and the reading of one from the
-- bytes that were delivered. A read behind the end of these is undefined.
use wazabi_edr_agent.Prelude.{
  ℕ, zero, suc, ◌+◌, ◌*◌, List, [], ◌∷◌, ◌++◌, Option, none, some, ltb, if◌then◌else◌, length, take,
  drop,
}
use wazabi_edr_agent.Prelude.Bytes.{u32_from_le_bytes}

-- A little-endian integer of a width in bytes, or an array of such.
pub data Field : Type 0 where
  int : ℕ → Field
  array : ℕ → ℕ → Field

pub data FieldValue : Type 0 where
  number : ℕ → FieldValue
  numbers : List ℕ → FieldValue

abbrev pub size_of_field : Field → ℕ
size_of_field (int w) = w
size_of_field (array n w) = n * w

unfoldable pub size_of : List Field → ℕ
size_of [] = 0
size_of (f ∷ fs) = size_of_field f + size_of fs

unfoldable pub units : ℕ → ℕ → List ℕ → List ℕ
units zero w bs = []
units (suc n) w bs = u32_from_le_bytes (take w bs) ∷ units n w (drop w bs)

unfoldable pub read_field : Field → List ℕ → FieldValue
unfolding units
read_field (int w) bs = number (u32_from_le_bytes (take w bs))
read_field (array n w) bs = numbers (units n w bs)

unfoldable pub read_fields : List Field → List ℕ → List FieldValue
unfolding read_field
read_fields [] bs = []
read_fields (f ∷ fs) bs = read_field f bs ∷ read_fields fs (drop (size_of_field f) bs)

-- `ptr::read_unaligned` at the start of the buffer.
unfoldable pub read_unaligned : List Field → List ℕ → Option (List FieldValue)
unfolding size_of read_fields
read_unaligned fs buf = if ltb (length buf) (size_of fs) then none else some (read_fields fs buf)

-- The value of a field by its place, 0 or no units where it is of the other kind.
unfoldable pub value_at : ℕ → List FieldValue → ℕ
value_at n [] = 0
value_at zero (number v ∷ vs) = v
value_at zero (numbers us ∷ vs) = 0
value_at (suc n) (v ∷ vs) = value_at n vs

unfoldable pub units_at : ℕ → List FieldValue → List ℕ
units_at n [] = []
units_at zero (number v ∷ vs) = []
units_at zero (numbers us ∷ vs) = us
units_at (suc n) (v ∷ vs) = units_at n vs

-- version, type, timestamp, size, drop_count, trunc_count
abbrev pub event_header : List Field
event_header = int 2 ∷ int 2 ∷ int 8 ∷ int 4 ∷ int 4 ∷ int 4 ∷ []

-- process_id, parent_process_id, creating_process_id, image_path, image_path_len, command_line, command_line_len,
-- parent_image_path, parent_image_path_len, user_sid, user_sid_len, integrity_level
abbrev pub process_create_event : List Field
process_create_event =
    event_header
    ++ (int 4
        ∷ int 4
        ∷ int 4
        ∷ array 512 2
        ∷ int 2
        ∷ array 4096 2
        ∷ int 2
        ∷ array 512 2
        ∷ int 2
        ∷ array 192 2
        ∷ int 2
        ∷ int 4
        ∷ [])

-- process_id, exit_code
abbrev pub process_exit_event : List Field
process_exit_event = event_header ++ (int 4 ∷ int 4 ∷ [])

-- process_id, image_base, image_size, image_path, image_path_len
abbrev pub image_load_event : List Field
image_load_event = event_header ++ (int 4 ∷ int 8 ∷ int 8 ∷ array 512 2 ∷ int 2 ∷ [])

-- process_id, operation, value_type, data_size, key_path, key_path_len, value_name, value_name_len, data_preview,
-- data_preview_len
abbrev pub registry_event : List Field
registry_event =
    event_header
    ++ (int 4
        ∷ int 2
        ∷ int 4
        ∷ int 4
        ∷ array 512 2
        ∷ int 2
        ∷ array 128 2
        ∷ int 2
        ∷ array 256 1
        ∷ int 2
        ∷ [])

-- process_id, thread_id, creating_process_id
abbrev pub thread_create_event : List Field
thread_create_event = event_header ++ (int 4 ∷ int 4 ∷ int 4 ∷ [])

-- process_id, thread_id
abbrev pub thread_exit_event : List Field
thread_exit_event = event_header ++ (int 4 ∷ int 4 ∷ [])

-- source_process_id, target_process_id, desired_access, original_desired_access, operation
abbrev pub process_handle_access_event : List Field
process_handle_access_event = event_header ++ (int 4 ∷ int 4 ∷ int 4 ∷ int 4 ∷ int 2 ∷ [])

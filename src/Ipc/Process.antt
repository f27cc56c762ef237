-- ===== src/Ipc/Process.antt =====
-- src/ipc/json.rs: the process that an event is about, as the server reads it, and the envelope of the event's line. serde's
-- writer and the flattening of the fields for the detection are parameters.
use wazabi_edr_agent.Prelude.{
  ℕ, ◌%◌, ◌^◌, Bool, List, [], ◌∷◌, ◌++◌, Option, none, some, ◌==◌, if◌then◌else◌, String,
}
use wazabi_edr_agent.Prelude.Bytes.{codes}
use wazabi_edr_agent.Prelude.Json.{Json, object, Members, get, as_str, as_u64, as_bool}
use wazabi_edr_agent.Filter.{Global, allows}
use wazabi_edr_agent.Ipc.Payloads.{
  Chars, Lookups, Decoded, malformed, undefined_read, decoded, basename, nonempty,
}
use wazabi_edr_agent.Ipc.Kernel.{DecodedKernel, decode_kernel_event}

pub record ProcessSlim : Type 0 where
  pub pid : ℕ
  pub ppid : Option ℕ
  pub name : Option Chars
  pub path : Option Chars
  pub command_line : Option Chars
  pub user : Option Chars
  pub user_sid : Option Chars
  pub user_domain : Option Chars
  pub integrity_label : Option Chars
  pub session_id : Option ℕ
  pub elevated : Option Bool

-- A text that is there and not empty.
unfoldable pub text_of : Json → String → Option Chars
unfolding get as_str nonempty
text_of j k = nonempty (as_str (get j (codes k)))

wrapped : Option ℕ → Option ℕ
wrapped none = none
wrapped (some n) = some (n % 2 ^ 32)

unfoldable pub or_else : Option Chars → Option Chars → Option Chars
or_else none o = o
or_else (some s) o = some s

name_of : Option Chars → Option Chars
unfolding basename
name_of none = none
name_of (some path) = basename path

unfoldable pub slim : ℕ → Json → ProcessSlim
unfolding text_of wrapped or_else name_of get as_u64 as_bool
slim pid j = record {
  pid = pid;
  ppid = wrapped (as_u64 (get j (codes "parent_pid")));
  name = name_of (text_of j "image_path");
  path = text_of j "image_path";
  command_line = text_of j "command_line";
  user = or_else (text_of j "user_full") (text_of j "user_sid");
  user_sid = text_of j "user_sid";
  user_domain = text_of j "user_domain";
  integrity_label = text_of j "integrity_label";
  session_id = wrapped (as_u64 (get j (codes "session_id")));
  elevated = as_bool (get j (codes "elevated"));
}

unfoldable pub process_at : Option ℕ → Json → Option ProcessSlim
unfolding slim
process_at none j = none
process_at (some n) j = let pid = n % 2 ^ 32 in if pid == 0 then none else some (slim pid j)

-- Process 0 stands for the kernel and is none.
unfoldable pub extract_process : Json → Option ProcessSlim
unfolding process_at get as_u64
extract_process j = process_at (as_u64 (get j (codes "pid"))) j

pub record KernelEnvelope : Type 0 where
  pub module_name : String
  pub event_type : String
  pub process : Option ProcessSlim
  pub raw : Json
  pub ts : Chars
  pub ts_ft_100ns : Json
  pub source : String
  pub kind : String
  pub event_version : ℕ
  pub drop_count : ℕ
  pub trunc_count : ℕ

unfoldable envelope : DecodedKernel → KernelEnvelope
unfolding extract_process
envelope d = record {
  module_name = "kernel_callback";
  event_type = DecodedKernel.event_type d;
  process = extract_process (DecodedKernel.payload d);
  raw = DecodedKernel.payload d;
  ts = DecodedKernel.ts d;
  ts_ft_100ns = DecodedKernel.ts_ft_100ns d;
  source = "kernel";
  kind = DecodedKernel.kind d;
  event_version = DecodedKernel.version d;
  drop_count = DecodedKernel.drop_count d;
  trunc_count = DecodedKernel.trunc_count d;
}

-- `encode_decoded`: the envelope, and the end of the line.
unfoldable encode_decoded : (KernelEnvelope → List ℕ) → DecodedKernel → List ℕ
unfolding envelope
encode_decoded to_vec d = to_vec (envelope d) ++ (10 ∷ [])

module _ (look : Lookups) (to_vec : KernelEnvelope → List ℕ) (g : Global) where
  line_of : Decoded DecodedKernel → Decoded (Option (List ℕ))
  unfolding encode_decoded
  line_of malformed = malformed
  line_of undefined_read = undefined_read
  line_of (decoded d) = decoded (
      if allows g "kernel_callback" (DecodedKernel.event_type d)
      then some (encode_decoded to_vec d)
      else none)

  -- An event that the allow-list leaves out has no line.
  unfoldable encode_kernel_event : List ℕ → Decoded (Option (List ℕ))
  unfolding line_of decode_kernel_event
  encode_kernel_event buf = line_of (decode_kernel_event look buf)

-- The time of the event is left out.
record LogEvent (Fields : Type 0) : Type 0 where
  log_module : String
  log_type : String
  fields : Fields

module _ {Fields : Type 0} (no_fields : Fields) (flatten_fields : Members → Fields) where
  fields_of : Json → Fields
  fields_of (object ms) = flatten_fields ms
  fields_of _ = no_fields

  unfoldable decoded_to_log_event : DecodedKernel → LogEvent Fields
  unfolding fields_of
  decoded_to_log_event d = record {
    log_module = "kernel_callback";
    log_type = DecodedKernel.event_type d;
    fields = fields_of (DecodedKernel.payload d);
  }

  and_log : (KernelEnvelope → List ℕ) → Decoded DecodedKernel → Decoded (List ℕ × LogEvent Fields)
  unfolding encode_decoded decoded_to_log_event
  and_log to_vec malformed = malformed
  and_log to_vec undefined_read = undefined_read
  and_log to_vec (decoded d) = decoded (encode_decoded to_vec d, decoded_to_log_event d)

  -- The line and the event for the detection; the allow-list is not asked.
  unfoldable encode_kernel_event_and_log :
      Lookups → (KernelEnvelope → List ℕ) → List ℕ → Decoded (List ℕ × LogEvent Fields)
  unfolding and_log decode_kernel_event
  encode_kernel_event_and_log look to_vec buf = and_log to_vec (decode_kernel_event look buf)

-- ===== src/Tests/Ipc.antt =====
-- Examples for the driver's events: a buffer that is cut short, the end of a thread, the user of a process.
use wazabi_edr_agent.Prelude.{ℕ, ◌≡◌, refl, List, [], ◌∷◌, ◌++◌, none, some, arith}
use wazabi_edr_agent.Ipc.Wire.{FieldValue, number, numbers, value_at, units_at}
use wazabi_edr_agent.Ipc.Payloads.{Lookups, decoded, decode_path, process_create_payload}
use wazabi_edr_agent.Ipc.Kernel.{decode_kernel_event}
use wazabi_edr_agent.Prelude.Bytes.{codes}
use wazabi_edr_agent.Ipc.Process.{ProcessSlim, extract_process}
use wazabi_edr_agent.Ipc.Named.{IsUser, extract_process-IsUser}
use wazabi_edr_agent.Ipc.Bounds.{IsDefined, decode_kernel_event-IsDefined}
use wazabi_edr_agent.Ipc.Decode.{
  Header, Fitting, thread_ended, delivered, line_of, decode_kernel_event-line,
}
use wazabi_edr_agent.Ipc.RoundTrip.{to_le_bytes}

abbrev look : Lookups
look = record {
  from_utf16_lossy = λ us. us;
  resolve_user = λ sid. none;
  session_id_for_pid = λ pid. none;
  is_elevated_for_pid = λ pid. none;
  format_timestamp = λ t. [];
}

-- Version 6, type 6, and a size of 32 where 26 bytes came.
abbrev cut_short : List ℕ
cut_short =
    to_le_bytes 2 6
    ++ (to_le_bytes 2 6
        ++ (to_le_bytes 8 1
            ++ (to_le_bytes 4 32 ++ (to_le_bytes 4 0 ++ (to_le_bytes 4 0 ++ (1 ∷ 2 ∷ []))))))

decode_kernel_event-IsDefined_example : IsDefined (decode_kernel_event look cut_short)
decode_kernel_event-IsDefined_example = decode_kernel_event-IsDefined look cut_short

-- The end of thread 70000 of process 4321, with a byte behind it.
abbrev thread_header : Header
thread_header = record { timestamp = 1; size = 32; drop_count = 0; trunc_count = 0 }

thread-Fitting : Fitting (thread_ended 4321 70000) thread_header
thread-Fitting = record {
  time_fits = omega arith;
  size_fits = omega arith;
  drops_fit = omega arith;
  truncs_fit = omega arith;
  words_fit = (omega arith, (omega arith, tt));
  complete = omega arith;
}

decode_kernel_event-line_example :
    decode_kernel_event look (delivered (thread_ended 4321 70000) thread_header (9 ∷ []))
    ≡ decoded (line_of look (thread_ended 4321 70000) thread_header)
decode_kernel_event-line_example =
    decode_kernel_event-line look (thread_ended 4321 70000) thread_header (9 ∷ []) thread-Fitting
      (omega arith)

-- Process 4321 of a user whom Windows knows by no name at all.
abbrev nameless : Lookups
nameless = record {
  from_utf16_lossy = λ us. us;
  resolve_user = λ sid. some ([], []);
  session_id_for_pid = λ pid. some 1;
  is_elevated_for_pid = λ pid. none;
  format_timestamp = λ t. [];
}

abbrev created : List FieldValue
created =
    number 6
    ∷ number 1
    ∷ number 1
    ∷ number 10672
    ∷ number 0
    ∷ number 0
    ∷ number 4321
    ∷ number 4
    ∷ number 4
    ∷ numbers (codes "C:\\a.exe")
    ∷ number 8
    ∷ numbers []
    ∷ number 0
    ∷ numbers (codes "C:\\b.exe")
    ∷ number 8
    ∷ numbers (codes "S-1-5")
    ∷ number 5
    ∷ number 0x4000
    ∷ []

extract_process-IsUser_example :
    (p : ProcessSlim) × (extract_process (process_create_payload nameless created) ≡ some p)
    × (ProcessSlim.pid p ≡ 4321)
    × (ProcessSlim.user_sid p ≡ some (codes "S-1-5"))
    × IsUser (some ([], [])) (codes "S-1-5") (ProcessSlim.user p)
unfolding decode_path value_at units_at
extract_process-IsUser_example =
    extract_process-IsUser nameless created 83 (codes "-1-5") refl (omega arith)

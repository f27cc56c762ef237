-- ===== src/Control/Executor/Files.antt =====
-- src/control/executor.rs, the handlers of commands on processes and files. A result keeps the fields of the JSON object
-- that depend on what happened; the clocks and the texts of the errors are left out.
pub mod Verified
use wazabi_edr_agent.Prelude.{
  ℕ, ◌+◌, ◌-◌, ◌*◌, ◌^◌, Bool, true, false, not, ◌&&◌, List, [], ◌∷◌, ◌++◌, Option, none, some, ltb,
  leb, ◌==◌, if◌then◌else◌, length, take, map, min, max,
}
use wazabi_edr_agent.Prelude.Bytes.{codes, bytes_eq}
use wazabi_edr_agent.Prelude.Json.{Json, get, as_str, as_u64}
use wazabi_edr_agent.Control.Sha256.{sha256_file}
use wazabi_edr_agent.Control.Isolation.{Status, success, failed, completed}
use wazabi_edr_agent.Control.Executor.{
  OsCall, open_process, terminate_process, close_handle, spawn_shell, kill_child, create_dir_all,
  rename, copy, remove_file, download_to_file, spawn_installer, Os,
}
use wazabi_edr_agent.Control.Executor.Output.{
  Waited, exit_code, timed_out, wait_error, no_fuel, wait_child, read_capped,
}

-- What the result of a command says.
pub data Report : Type 0 where
  note : Report
  bad_payload : Report
  call_failed : Report
  terminated : ℕ → Report
  shell_result : Option ℕ → Bool → List ℕ × Bool → List ℕ × Bool → Report
  no_source : Report
  no_regular_file : Report
  sha256_failed : Report
  sha256_mismatch : List ℕ → List ℕ → Report
  quarantined : List ℕ → List ℕ → List ℕ → Report
  installer_started : Bool → List ℕ → Report
  walked : ℕ → ℕ → ℕ → ℕ → Bool → Report
  firewall_changed : Report

pub record ExecutionResult : Type 0 where
  pub status : Status
  pub result : Report

abbrev pub Outcome : Type 0
Outcome = ExecutionResult × List OsCall

abbrev pub fail : Report → List OsCall → Outcome
fail r calls = (record { status = failed; result = r }, calls)

abbrev pub succeed : Report → List OsCall → Outcome
succeed r calls = (record { status = success; result = r }, calls)

-- `Some(s) if !s.is_empty()`.
unfoldable pub nonempty : Option (List ℕ) → Option (List ℕ)
nonempty (some (c ∷ s)) = some (c ∷ s)
nonempty _ = none

unfoldable pub ascii_lower : ℕ → ℕ
ascii_lower c = if leb 65 c && leb c 90 then c + 32 else c

unfoldable pub eq_ignore_ascii_case : List ℕ → List ℕ → Bool
unfolding ascii_lower
eq_ignore_ascii_case s t = bytes_eq (map ascii_lower s) (map ascii_lower t)

-- A digest that the payload asks for and that is not the file's.
unfoldable pub mismatch : Option (List ℕ) → List ℕ → Bool
unfolding eq_ignore_ascii_case
mismatch none actual = false
mismatch (some want) actual = not (eq_ignore_ascii_case want actual)

unwrap_or : List ℕ → Option (List ℕ) → List ℕ
unwrap_or d none = d
unwrap_or d (some s) = s

is_some : Option (List ℕ) → Bool
is_some none = false
is_some (some s) = true

module _ (os : Os) where
  -- `TerminateProcess`, with the handle closed whatever it gave.
  unfoldable pub kill : ℕ → List OsCall → Outcome
  kill pid calls =
      let opened = open_process pid ∷ calls in
      if Os.answer os calls (open_process pid)
      then (let ended = close_handle ∷ terminate_process pid ∷ opened in
          if Os.answer os opened (terminate_process pid)
          then succeed (terminated pid) ended
          else fail call_failed ended)
      else fail call_failed opened

  unfoldable pub execute_kill_process : Json → List OsCall → Outcome
  unfolding kill as_u64 get
  execute_kill_process payload calls = elim (as_u64 (get payload (codes "pid"))) [
    | none ↦ fail bad_payload calls
    | some p ↦ if ltb 0 p && leb p (2 ^ 32 - 1) then kill p calls else fail bad_payload calls
  ]

  -- `clamp(1, 600)` of the seconds, 30 by default.
  unfoldable pub timeout_seconds : Option ℕ → ℕ
  timeout_seconds none = 30
  timeout_seconds (some n) = min 600 (max 1 n)

  max_shell_output_bytes : ℕ
  max_shell_output_bytes = 64 * 1024

  -- The pipes are read once the child is gone.
  unfoldable pub shell_outcome : Waited → List OsCall → Outcome
  unfolding read_capped max_shell_output_bytes
  shell_outcome wait_error calls = fail call_failed calls
  shell_outcome no_fuel calls = fail call_failed calls
  shell_outcome timed_out calls =
      let ended = kill_child ∷ calls in
      fail
        (shell_result none true
          (read_capped (Os.from_utf8_lossy os) (Os.stdout os ended) max_shell_output_bytes)
          (read_capped (Os.from_utf8_lossy os) (Os.stderr os ended) max_shell_output_bytes))
        ended
  shell_outcome (exit_code code) calls =
      succeed
        (shell_result code false
          (read_capped (Os.from_utf8_lossy os) (Os.stdout os calls) max_shell_output_bytes)
          (read_capped (Os.from_utf8_lossy os) (Os.stderr os calls) max_shell_output_bytes))
        calls

  -- The polls are 100 ms apart: ten for each second of the timeout are enough.
  unfoldable pub execute_run_shell : Json → List OsCall → Outcome
  unfolding shell_outcome timeout_seconds wait_child nonempty as_str as_u64 get
  execute_run_shell payload calls = elim (nonempty (as_str (get payload (codes "command")))) [
    | none ↦ fail bad_payload calls
    | some command ↦
        let seconds = timeout_seconds (as_u64 (get payload (codes "timeout_seconds"))) in
        let call = spawn_shell command (as_str (get payload (codes "working_dir"))) in
        let spawned = call ∷ calls in
        if Os.answer os calls call
        then shell_outcome
            (wait_child (seconds * 10 + 1) (Os.try_wait os spawned) (seconds * 1000) 0) spawned
        else fail call_failed spawned
  ]

  -- The move: a rename, or else a copy and the removal of the source.
  move_file : List ℕ → List ℕ → List ℕ → List OsCall → Outcome
  move_file src dst sha calls =
      let renamed = rename src dst ∷ calls in
      let copied = copy src dst ∷ renamed in
      let removed = remove_file src ∷ copied in
      if Os.answer os calls (rename src dst)
      then succeed (quarantined src dst sha) renamed
      else (if Os.answer os renamed (copy src dst)
          then (if Os.answer os copied (remove_file src)
              then succeed (quarantined src dst sha) removed
              else fail call_failed removed)
          else fail call_failed copied)

  -- The name in the quarantine: the first 16 digits of the digest, and the file's name.
  quarantine_path : List ℕ → List ℕ → List ℕ
  unfolding unwrap_or
  quarantine_path src sha =
      let name = unwrap_or (codes "unknown") (Os.file_name os src) in
      Os.join os (Os.quarantine_dir os)
        (take (min 16 (length sha)) sha ++ (codes "__" ++ (name ++ codes ".quarantined")))

  unfoldable pub quarantine_verified : List ℕ → List ℕ → List OsCall → Outcome
  unfolding move_file quarantine_path
  quarantine_verified src sha calls =
      let made = create_dir_all (Os.quarantine_dir os) ∷ calls in
      if Os.answer os calls (create_dir_all (Os.quarantine_dir os))
      then move_file src (quarantine_path src sha) sha made
      else fail call_failed made

  -- The digest decides: `wanted` is the payload's.
  unfoldable pub quarantine_hashed :
      Option (List ℕ) → List ℕ → Option (List ℕ) → List OsCall → Outcome
  unfolding quarantine_verified mismatch unwrap_or
  quarantine_hashed wanted src none calls = fail sha256_failed calls
  quarantine_hashed wanted src (some actual) calls =
      if mismatch wanted actual
      then fail (sha256_mismatch (unwrap_or [] wanted) actual) calls
      else quarantine_verified src actual calls

  unfoldable pub execute_quarantine_file : Json → List OsCall → Outcome
  unfolding quarantine_hashed nonempty as_str get
  execute_quarantine_file payload calls = elim (nonempty (as_str (get payload (codes "path")))) [
    | none ↦ fail bad_payload calls
    | some src ↦
        if Os.exists os calls src
        then (if Os.is_file os calls src
            then quarantine_hashed (as_str (get payload (codes "sha256"))) src
                (sha256_file (Os.reads os calls src)) calls
            else fail no_regular_file calls)
        else fail no_source calls
  ]

  unfoldable pub update_verified : Bool → List ℕ → List OsCall → Outcome
  update_verified checked actual calls =
      let call = spawn_installer (Os.installer_path os) in
      if Os.answer os calls call
      then succeed (installer_started checked actual) (call ∷ calls)
      else fail call_failed (call ∷ calls)

  unfoldable pub update_hashed : Option (List ℕ) → Option (List ℕ) → List OsCall → Outcome
  unfolding update_verified mismatch unwrap_or is_some
  update_hashed wanted none calls = fail sha256_failed (remove_file (Os.installer_path os) ∷ calls)
  update_hashed wanted (some actual) calls =
      if mismatch wanted actual
      then fail (sha256_mismatch (unwrap_or [] wanted) actual)
          (remove_file (Os.installer_path os) ∷ calls)
      else update_verified (is_some wanted) actual calls

  unfoldable pub execute_update_agent : Json → List OsCall → Outcome
  unfolding update_hashed nonempty as_str get
  execute_update_agent payload calls =
      elim (nonempty (as_str (get payload (codes "download_url")))) [
        | none ↦ fail bad_payload calls
        | some url ↦
            let call = download_to_file url (Os.installer_path os) in
            let downloaded = call ∷ calls in
            if Os.answer os calls call
            then update_hashed (as_str (get payload (codes "sha256")))
                (sha256_file (Os.reads os downloaded (Os.installer_path os))) downloaded
            else fail call_failed downloaded
      ]

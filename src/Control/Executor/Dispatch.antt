-- ===== src/Control/Executor/Dispatch.antt =====
-- src/control/executor.rs, `execute`: the handler of each type of command. The endpoint is its firewall with the backup,
-- and the calls to the system so far.
use wazabi_edr_agent.Prelude.{ℕ, suc, Bool, List, [], ◌∷◌, Option, none, some, if◌then◌else◌}
use wazabi_edr_agent.Prelude.Bytes.{codes, bytes_eq}
use wazabi_edr_agent.Prelude.Json.{Json, get, as_str}
use wazabi_edr_agent.Control.Isolation.{
  Netsh, Status, completed, Machine, execute_isolate, execute_unisolate,
}
use wazabi_edr_agent.Control.Executor.{OsCall, Os}
use wazabi_edr_agent.Control.Executor.Walk.{Walked, walk, nothing_walked}
use wazabi_edr_agent.Control.Executor.Walk.Totals.{Totals, directory_totals}
use wazabi_edr_agent.Control.Executor.Files.{
  ExecutionResult, Outcome, note, no_source, walked, firewall_changed, fail, succeed,
  execute_kill_process, execute_run_shell, execute_quarantine_file, execute_update_agent,
}

pub record CommandOut : Type 0 where
  pub id : List ℕ
  pub cmd_type : List ℕ
  pub payload : Json

pub record Endpoint (Firewall : Type 0) (File : Type 0) : Type 0 where
  pub machine : Machine Firewall File
  pub calls : List OsCall

module _ (os : Os) where
  target : Option (List ℕ) → List ℕ
  target none = Os.program_data os
  target (some path) = path

  -- At most 100000 files; a round of the walk for each directory of the tree, and one more.
  unfoldable pub execute_scan_now : Json → List OsCall → Outcome
  unfolding target walk directory_totals as_str get
  execute_scan_now payload calls =
      let root = target (as_str (get payload (codes "target_path"))) in
      let tree = Os.tree os calls root in
      let r =
        walk (Os.late os calls) 100000 (suc (Totals.dirs (directory_totals tree))) (tree ∷ [])
          nothing_walked in
      let w = r.0 in
      if Os.exists os calls root
      then succeed (walked (Walked.files w) (Walked.dirs w) (Walked.bytes w) (Walked.errors w) r.1)
          calls
      else fail no_source calls

  module _ {Firewall : Type 0} {File : Type 0}
      (netsh : Netsh → Machine Firewall File → Bool × Machine Firewall File)
      (resolve : List ℕ → Option (List ℕ)) (removable : Bool) where
    -- A handler of processes and files leaves the firewall.
    by_calls :
        (Json → List OsCall → Outcome)
        → Json
        → Endpoint Firewall File
        → ExecutionResult × Endpoint Firewall File
    by_calls handler payload p =
        let o = handler payload (Endpoint.calls p) in (o.0, record p { calls = o.1 })

    by_firewall :
        (Machine Firewall File → Status × Machine Firewall File)
        → Endpoint Firewall File
        → ExecutionResult × Endpoint Firewall File
    by_firewall handler p =
        let o = handler (Endpoint.machine p) in
        (record { status = o.0; result = firewall_changed }, record p { machine = o.1 })

    -- `update_rules`, `restart_module` and an unknown type are only acknowledged.
    no_op_ack : Endpoint Firewall File → ExecutionResult × Endpoint Firewall File
    no_op_ack p = (record { status = completed; result = note }, p)

    unfoldable pub execute :
        CommandOut → Endpoint Firewall File → ExecutionResult × Endpoint Firewall File
    unfolding by_calls by_firewall no_op_ack execute_scan_now execute_kill_process execute_run_shell
        execute_quarantine_file execute_update_agent execute_isolate execute_unisolate
    execute cmd p =
        let t = CommandOut.cmd_type cmd in
        let payload = CommandOut.payload cmd in
        if bytes_eq t (codes "kill_process")
        then by_calls (execute_kill_process os) payload p
        else if bytes_eq t (codes "quarantine_file")
        then by_calls (execute_quarantine_file os) payload p
        else if bytes_eq t (codes "scan_now")
        then by_calls execute_scan_now payload p
        else if bytes_eq t (codes "run_shell")
        then by_calls (execute_run_shell os) payload p
        else if bytes_eq t (codes "isolate_endpoint")
        then by_firewall (execute_isolate netsh resolve payload) p
        else if bytes_eq t (codes "unisolate_endpoint")
        then by_firewall (execute_unisolate netsh removable) p
        else if bytes_eq t (codes "update_agent")
        then by_calls (execute_update_agent os) payload p
        else no_op_ack p

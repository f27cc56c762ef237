-- ===== src/Control/Isolation.antt =====
-- src/control/executor.rs, `execute_isolate` and `execute_unisolate`: the firewall of an endpoint that is cut off. A
-- machine has the state of its firewall and, where there is one, the file `firewall_pre_isolation.wfw`. What a call of
-- `netsh` does, and whether it works, is a parameter, as are the resolution of a host and the removal of the file.
pub mod Restore
use wazabi_edr_agent.Prelude.{
  Bool, true, false, ◌&&◌, List, [], ◌∷◌, ◌++◌, ℕ, Option, none, some, if◌then◌else◌, String,
}
use wazabi_edr_agent.Prelude.Bytes.{codes}
use wazabi_edr_agent.Prelude.Json.{Json, get, as_array, as_str}

pub data Direction : Type 0 where
  inbound : Direction
  outbound : Direction

-- The calls of `netsh advfirewall`.
pub data Netsh : Type 0 where
  export_backup : Netsh
  import_backup : Netsh
  reset : Netsh
  state_on : Netsh
  block_inbound_block_outbound : Netsh
  block_inbound_allow_outbound : Netsh
  allow : String → Direction → List (List ℕ) → Netsh
  allow_dhcp : Direction → Netsh

pub data Status : Type 0 where
  success : Status
  failed : Status
  completed : Status

pub record Machine (Firewall : Type 0) (File : Type 0) : Type 0 where
  pub firewall : Firewall
  pub backup : Option File

unfoldable pub present : {A : Type 0} → Option A → Bool
present none = false
present (some a) = true

-- The texts of `allowed_hosts` that are not empty.
nonempty_texts : List Json → List (List ℕ)
unfolding as_str
nonempty_texts [] = []
nonempty_texts (j ∷ js) =
    let rest = nonempty_texts js in
    elim (as_str (some j)) [ none ↦ rest | some [] ↦ rest | some (c ∷ s) ↦ (c ∷ s) ∷ rest ]

unfoldable pub allowed_hosts : Json → List (List ℕ)
unfolding nonempty_texts as_array get
allowed_hosts payload = nonempty_texts (as_array (get payload (codes "allowed_hosts")))

module _ (resolve_host_to_ipv4 : List ℕ → Option (List ℕ)) where
  unfoldable pub allowed_ips : List (List ℕ) → List (List ℕ)
  allowed_ips [] = []
  allowed_ips (h ∷ hs) =
      let rest = allowed_ips hs in
      elim (resolve_host_to_ipv4 h) [ none ↦ rest | some ip ↦ ip ∷ rest ]

abbrev loopback : List (List ℕ)
loopback = codes "127.0.0.1" ∷ codes "::1" ∷ []

server_rules : List (List ℕ) → List Netsh
server_rules [] = []
server_rules (ip ∷ ips) =
    allow "ServerOut" outbound (ip ∷ ips) ∷ allow "ServerIn" inbound (ip ∷ ips) ∷ []

-- The calls of an isolation, in order, after the backup.
unfoldable pub isolate_calls : List (List ℕ) → List Netsh
unfolding server_rules
isolate_calls ips =
    reset
    ∷ state_on
    ∷ block_inbound_block_outbound
    ∷ allow "LoopOut" outbound loopback
    ∷ allow "LoopIn" inbound loopback
    ∷ (server_rules ips ++ (allow_dhcp outbound ∷ allow_dhcp inbound ∷ []))

abbrev fallback_calls : List Netsh
fallback_calls = reset ∷ state_on ∷ block_inbound_allow_outbound ∷ []

module _ {Firewall : Type 0} {File : Type 0}
    (netsh_invoke : Netsh → Machine Firewall File → Bool × Machine Firewall File) where
  -- Each call is made whatever the earlier ones gave; the flag says whether all were ok.
  unfoldable pub invoke_all : List Netsh → Machine Firewall File → Bool × Machine Firewall File
  invoke_all [] m = (true, m)
  invoke_all (c ∷ cs) m =
      let r = netsh_invoke c m in let rest = invoke_all cs r.1 in (r.0 && rest.0, rest.1)

  -- A backup that is there is kept.
  unfoldable pub execute_isolate :
      (List ℕ → Option (List ℕ)) → Json → Machine Firewall File → Status × Machine Firewall File
  unfolding invoke_all isolate_calls allowed_ips allowed_hosts present
  execute_isolate resolve payload m =
      let calls = isolate_calls (allowed_ips resolve (allowed_hosts payload)) in
      let r = invoke_all (if present (Machine.backup m) then calls else export_backup ∷ calls) m in
      (if r.0 then success else failed, r.1)

  -- The first argument says whether the backup file can be removed; its removal has no part in the status.
  unfoldable pub execute_unisolate : Bool → Machine Firewall File → Status × Machine Firewall File
  unfolding invoke_all present
  execute_unisolate removable m =
      if present (Machine.backup m)
      then (let r = netsh_invoke import_backup m in
          (
            if r.0 then success else completed,
            if removable then record r.1 { backup = none } else r.1,
          ))
      else (let r = invoke_all fallback_calls m in (if r.0 then success else completed, r.1))

-- ===== src/Tests/Control.antt =====
-- Examples for the alerts: three alerts, two looks, a server that acknowledges; for the digest of a file that is read in two
-- pieces; for an endpoint that is isolated twice, its firewall a number.
use wazabi_edr_agent.Prelude.{ℕ, ◌≡◌, refl, List, [], ◌∷◌, ◌++◌, Option, some, All, arith}
use wazabi_edr_agent.Prelude.{Bool, true, false, none, map, ap, ◌≢◌}
use wazabi_edr_agent.Prelude.Bytes.{codes}
use wazabi_edr_agent.Prelude.Json.{
  Json, object, member, no_member, array, element, no_element, text,
}
use wazabi_edr_agent.Control.Sha256.{sha256_file, hex, hex_digest, update}
use wazabi_edr_agent.Control.Sha256.Compress.{compress}
use wazabi_edr_agent.Control.Sha256.Blocks.{concat, reference_digest}
use wazabi_edr_agent.Control.Sha256.Digest.{sha256_file-reference}
use wazabi_edr_agent.Control.Isolation.{
  Netsh, export_backup, import_backup, reset, state_on, block_inbound_block_outbound,
  block_inbound_allow_outbound, allow, allow_dhcp, Machine, present, execute_isolate,
  execute_unisolate,
}
use wazabi_edr_agent.Control.Isolation.Restore.{
  IsNetsh, Event, isolate, changed, after, unisolate-restores,
}
use wazabi_edr_agent.Control.Alerts.{AgentAlert, AlertEvent, arrive, look, run_alerts}
use wazabi_edr_agent.Control.Alerts.Delivery.{joined, arrivals, IsBatch, run_alerts-delivers}

abbrev alert : AgentAlert
alert = record {
  ts = "t";
  rule_name = "r";
  alert_module = "etw";
  action_taken = "none";
  evidence = "e";
}

abbrev events : List AlertEvent
events = look ∷ arrive (alert ∷ alert ∷ []) ∷ look ∷ arrive (alert ∷ []) ∷ []

run_alerts-delivers_example :
    (joined (run_alerts events []) ≡ [] ++ arrivals events) × All IsBatch (run_alerts events [])
run_alerts-delivers_example = run_alerts-delivers events []

-- The vectors of the source's own tests.
abc :
    sha256_file (some (codes "abc") ∷ [])
    ≡ some (codes "ba7816bf8f01cfea414140de5dae2223b00361a396177a9cb410ff61f20015ad")
unfolding sha256_file hex_digest compress update
abc = refl

empty_file :
    sha256_file [] ≡ some (codes "e3b0c44298fc1c149afbf4c8996fb92427ae41e4649b934ca495991b7852b855")
unfolding sha256_file hex_digest compress update
empty_file = refl

abbrev pieces : List (List ℕ)
pieces = codes "a" ∷ codes "bc" ∷ []

sha256_file-reference_example :
    sha256_file (map some pieces) ≡ some (hex (reference_digest (concat pieces)))
sha256_file-reference_example =
    sha256_file-reference pieces (omega arith, (omega arith, tt)) (omega arith)

-- A firewall is a number: 0 after a reset, 1 or 2 under a policy.
abbrev Host : Type 0
Host = Machine ℕ ℕ

abbrev set_firewall : ℕ → Host → Bool × Host
set_firewall f m = (true, record m { firewall = f })

import_from : Option ℕ → Host → Bool × Host
import_from none m = (false, m)
import_from (some f) m = (true, record m { firewall = f })

abbrev netsh : Netsh → Host → Bool × Host
netsh export_backup m = (true, record m { backup = some (Machine.firewall m) })
netsh import_backup m = import_from (Machine.backup m) m
netsh reset m = set_firewall 0 m
netsh state_on m = (true, m)
netsh block_inbound_block_outbound m = set_firewall 1 m
netsh block_inbound_allow_outbound m = set_firewall 2 m
netsh (allow name dir ips) m = (true, m)
netsh (allow_dhcp dir) m = (true, m)

netsh-imports :
    (m : Host) (f : ℕ) → Machine.backup m ≡ some f → Machine.firewall (netsh import_backup m).1 ≡ f
unfolding import_from
netsh-imports m f h =
    let e : import_from (Machine.backup m) m ≡ import_from (some f) m =
      ap (λ o. import_from o m) h in
    ap (λ r. Machine.firewall r.1) e

import-keeps : (o : Option ℕ) (m : Host) → Machine.backup (import_from o m).1 ≡ Machine.backup m
unfolding import_from
import-keeps none m = refl
import-keeps (some f) m = refl

netsh-keeps :
    (c : Netsh) (m : Host) → c ≢ export_backup → Machine.backup (netsh c m).1 ≡ Machine.backup m
netsh-keeps export_backup m h = absurd (h refl)
netsh-keeps import_backup m h = import-keeps (Machine.backup m) m
netsh-keeps reset m h = refl
netsh-keeps state_on m h = refl
netsh-keeps block_inbound_block_outbound m h = refl
netsh-keeps block_inbound_allow_outbound m h = refl
netsh-keeps (allow name dir ips) m h = refl
netsh-keeps (allow_dhcp dir) m h = refl

netsh-IsNetsh : IsNetsh (λ f. f) netsh
netsh-IsNetsh = record {
  exports = λ m h. (Machine.firewall m, refl, refl);
  imports = λ m f h k. netsh-imports m f h;
  keeps = netsh-keeps;
}

abbrev resolve : List ℕ → Option (List ℕ)
resolve host = some host

abbrev server : Json
server = object (
    member (codes "allowed_hosts") (array (element (text (codes "10.0.0.1")) no_element)) no_member)

abbrev endpoint : Host
endpoint = record { firewall = 7; backup = none }

abbrev between : List (Event {Firewall = ℕ} {File = ℕ} (λ f. f) netsh)
between = changed 9 ∷ isolate server ∷ []

unisolate-restores_example :
    (Machine.firewall
        (execute_unisolate netsh true
          (after (λ f. f) netsh resolve (isolate server ∷ between) endpoint)).1
      ≡ 7)
    × (present (
          Machine.backup
            (execute_unisolate netsh true
              (after (λ f. f) netsh resolve (isolate server ∷ between) endpoint)).1)
        ≡ false)
unfolding execute_isolate execute_unisolate import_from
unisolate-restores_example =
    unisolate-restores (λ f. f) netsh netsh-IsNetsh resolve server between true endpoint refl refl
      refl

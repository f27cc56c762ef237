-- ===== src/Tests/Polling.antt =====
-- Examples for the pollers: a service that appears and one that is gone.
use wazabi_edr_agent.Prelude.{ℕ, ◌↔◌, true, false, List, [], ◌∷◌, Option, some, String, arith, In}
use wazabi_edr_agent.Prelude.Text.{Dict}
use wazabi_edr_agent.Polling.Envelope.{PersistenceEvent, Envelope, Sink}
use wazabi_edr_agent.Polling.Tasks.{TaskSnapshot, TaskPayload, task_event, task_diff}
use wazabi_edr_agent.Polling.Tasks.Diff.{TaskChange, task_diff_iff}
use wazabi_edr_agent.Polling.Services.{ServiceSnapshot, compute_diff, create_entry}
use wazabi_edr_agent.Polling.Services.Spec.{Change}
use wazabi_edr_agent.Polling.Services.Diff.{compute_diff_iff}
use wazabi_edr_agent.Polling.Services.Enumerate.{ScmIo, ServiceEntry, filled}
use wazabi_edr_agent.Polling.Services.Run.{PollState, IsCurrent}

abbrev service : String → ServiceSnapshot
service path = record {
  display_name = "Service";
  binary_path = path;
  start_type = 2;
  service_type = 16;
  account = "LocalSystem";
  running = true;
}

abbrev before : Dict ServiceSnapshot
before = ("old", service "C:\\old.exe") ∷ []

abbrev after : Dict ServiceSnapshot
after = ("new", service "C:\\new.exe") ∷ []

compute_diff_iff_example :
    In (create_entry "new") (compute_diff before after) ↔ Change before after (create_entry "new")
compute_diff_iff_example =
    compute_diff_iff before after (create_entry "new") (λ i. i, tt) (λ i. i, tt)

abbrev dhcp : ServiceEntry
dhcp = record { name = "Dhcp"; display_name = "DHCP Client"; state = 4 }

abbrev manager : ScmIo
manager = record {
  opened = true;
  bytes_needed = 256;
  fill = λ call size. filled (dhcp ∷ []);
  query_service_config = λ name. some (record {
    binary_path = "C:\\svchost.exe";
    start_type = 2;
    service_type = 32;
    account = "LocalService";
  });
}

abbrev snapshot : Dict ServiceSnapshot
snapshot =
    (
      "Dhcp",
      record {
        display_name = "DHCP Client";
        binary_path = "C:\\svchost.exe";
        start_type = 2;
        service_type = 32;
        account = "LocalService";
        running = true;
      },
    )
    ∷ []

abbrev state : PollState
state = record { prev = before; first = false; cycles_since_full = 9; reported = [] }

state-IsCurrent : IsCurrent state
state-IsCurrent = record { distinct = (λ i. i, tt); due = omega arith }

abbrev to_vec : Envelope ℕ → Option (List ℕ)
to_vec e = some (e.raw ∷ [])

abbrev sink : Sink
sink = record {
  submitter = record {
    channel = record { queue = []; capacity = 1; receiving = true };
    events_dropped = 0;
  };
  counter = 0;
  dropped = 0;
}

abbrev two_events : List (PersistenceEvent ℕ)
two_events =
    record { event_type = "service_create"; kind = "ServiceCreate"; event_version = 1; payload = 1 }
    ∷ record { event_type = "service_stop"; kind = "ServiceStop"; event_version = 1; payload = 2 }
    ∷ []

abbrev task : ℕ → TaskSnapshot
task digest = record { mtime = 1; digest = digest; size = 9 }

abbrev modified_event : PersistenceEvent TaskPayload
modified_event =
    task_event "scheduled_task_modify" "ScheduledTaskModify" "T" (task 6) (some (task 5))

task_diff_iff_example :
    In modified_event (task_diff (("T", task 5) ∷ []) (("T", task 6) ∷ []))
    ↔ TaskChange (("T", task 5) ∷ []) (("T", task 6) ∷ []) modified_event
task_diff_iff_example =
    task_diff_iff (("T", task 5) ∷ []) (("T", task 6) ∷ []) modified_event (λ i. i, tt) (λ i. i, tt)

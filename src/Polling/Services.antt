-- ===== src/Polling/Services.antt =====
-- src/polling/services.rs: the diff of two snapshots of the services.
pub mod Enumerate
pub mod Snapshot
pub mod Spec
pub mod Diff
pub mod Run
use wazabi_edr_agent.Prelude.{
  ℕ, ◌≡◌, Bool, true, false, not, ◌&&◌, ◌||◌, List, [], ◌∷◌, ◌++◌, Option, none, some, String, ◌==◌,
  if◌then◌else◌,
}
use wazabi_edr_agent.Prelude.Text.{text_eq, Dict, lookup, keys}
use wazabi_edr_agent.Polling.Envelope.{
  et_service_create, et_service_modify, et_service_delete, et_service_start, et_service_stop,
  PersistenceEvent, Envelope, Sink, emit,
}

pub record ServiceSnapshot : Type 0 where
  pub display_name : String
  pub binary_path : String
  pub start_type : ℕ
  pub service_type : ℕ
  pub account : String
  pub running : Bool

abbrev pub bool_eq : Bool → Bool → Bool
bool_eq true b = b
bool_eq false b = not b

-- The test of `service_modify`, negated.
unfoldable pub same_config : ServiceSnapshot → ServiceSnapshot → Bool
same_config a b =
    text_eq a.binary_path b.binary_path
    && (a.start_type == b.start_type
        && (a.service_type == b.service_type
            && (text_eq a.account b.account && text_eq a.display_name b.display_name)))

-- The derived `PartialEq`.
unfoldable pub snapshot_eq : ServiceSnapshot → ServiceSnapshot → Bool
snapshot_eq a b =
    text_eq a.display_name b.display_name
    && (text_eq a.binary_path b.binary_path
        && (a.start_type == b.start_type
            && (a.service_type == b.service_type
                && (text_eq a.account b.account && bool_eq a.running b.running))))

pub record DiffEntry : Type 0 where
  pub event_type : String
  pub kind : String
  pub name : String

abbrev pub create_entry : String → DiffEntry
create_entry name = record { event_type = et_service_create; kind = "ServiceCreate"; name = name }

abbrev pub delete_entry : String → DiffEntry
delete_entry name = record { event_type = et_service_delete; kind = "ServiceDelete"; name = name }

abbrev pub modify_entry : String → DiffEntry
modify_entry name = record { event_type = et_service_modify; kind = "ServiceModify"; name = name }

abbrev pub transition_entry : Bool → String → DiffEntry
transition_entry running name = record {
  event_type = if running then et_service_start else et_service_stop;
  kind = if running then "ServiceStart" else "ServiceStop";
  name = name;
}

-- The body of the first loop of `compute_diff`.
unfoldable pub diff_one : Dict ServiceSnapshot → String → ServiceSnapshot → List DiffEntry
unfolding same_config snapshot_eq
diff_one prev name snap = elim (lookup prev name) [
  | none ↦ create_entry name ∷ []
  | some old ↦
      if snapshot_eq old snap
      then []
      else (if bool_eq old.running snap.running
          then []
          else transition_entry snap.running name ∷ [])
        ++ (if same_config old snap then [] else modify_entry name ∷ [])
]

unfoldable pub diff_next : Dict ServiceSnapshot → Dict ServiceSnapshot → List DiffEntry
diff_next prev [] = []
diff_next prev ((name, snap) ∷ rest) = diff_one prev name snap ++ diff_next prev rest

-- The second loop: what vanished.
unfoldable pub diff_gone : Dict ServiceSnapshot → Dict ServiceSnapshot → List DiffEntry
diff_gone next [] = []
diff_gone next ((name, old) ∷ rest) = elim (lookup next name) [
  | none ↦ delete_entry name ∷ diff_gone next rest
  | some _ ↦ diff_gone next rest
]

unfoldable pub compute_diff : Dict ServiceSnapshot → Dict ServiceSnapshot → List DiffEntry
compute_diff prev next = diff_next prev next ++ diff_gone next prev

-- The part of the earlier snapshot that a payload repeats.
pub record Previous : Type 0 where
  pub binary_path : String
  pub start_type : ℕ
  pub service_type : ℕ
  pub account : String
  pub running : Bool

-- The fields that `build_payload` writes.
pub record Payload : Type 0 where
  pub name : String
  pub snap : ServiceSnapshot
  pub start_type_label : String
  pub previous : Option Previous

start_type_label_of : ℕ → String
start_type_label_of t =
    if t == 0
    then "boot"
    else if t == 1
    then "system"
    else if t == 2
    then "auto"
    else if t == 3
    then "manual"
    else if t == 4
    then "disabled"
    else "unknown"

previous_of : Option ServiceSnapshot → Option Previous
previous_of none = none
previous_of (some p) = some (record {
  binary_path = p.binary_path;
  start_type = p.start_type;
  service_type = p.service_type;
  account = p.account;
  running = p.running;
})

unfoldable pub build_payload : String → ServiceSnapshot → Option ServiceSnapshot → Payload
unfolding start_type_label_of previous_of
build_payload name snap prev = record {
  name = name;
  snap = snap;
  start_type_label = start_type_label_of snap.start_type;
  previous = previous_of prev;
}

-- The event of an entry; an entry whose service stands in neither snapshot has none.
unfoldable pub event_of :
    Dict ServiceSnapshot → Dict ServiceSnapshot → DiffEntry → List (PersistenceEvent Payload)
unfolding build_payload
event_of prev next e =
    let prev_snap = if text_eq e.event_type et_service_delete then none else lookup prev e.name in
    let event : ServiceSnapshot → PersistenceEvent Payload = λ snap. record {
      event_type = e.event_type;
      kind = e.kind;
      event_version = 1;
      payload = build_payload e.name snap prev_snap;
    } in
    elim (lookup next e.name) [
      | some snap ↦ event snap ∷ []
      | none ↦ elim (lookup prev e.name) [ some snap ↦ event snap ∷ [] | none ↦ [] ]
    ]

unfoldable pub events_of :
    Dict ServiceSnapshot → Dict ServiceSnapshot → List DiffEntry → List (PersistenceEvent Payload)
unfolding event_of
events_of prev next [] = []
events_of prev next (e ∷ es) = event_of prev next e ++ events_of prev next es

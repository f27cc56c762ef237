-- ===== src/Polling/Services/Enumerate.antt =====
-- src/polling/services.rs, `enumerate_services`: the snapshot of one poll. The service manager
-- answers through `ScmIo`; handles are opened and closed outside the model.
use wazabi_edr_agent.Prelude.{
  ℕ, zero, suc, ◌+◌, ◌/◌, Bool, not, ◌&&◌, List, [], ◌∷◌, Option, none, some, String, ◌==◌,
  if◌then◌else◌, max,
}
use wazabi_edr_agent.Prelude.Text.{text_eq, Dict, lookup, insert}
use wazabi_edr_agent.Polling.Services.{ServiceSnapshot, bool_eq}

-- An entry that `EnumServicesStatusExW` fills in, its state as the raw word.
pub record ServiceEntry : Type 0 where
  pub name : String
  pub display_name : String
  pub state : ℕ

-- What `query_service_config` finds.
pub record ServiceConfig : Type 0 where
  pub binary_path : String
  pub start_type : ℕ
  pub service_type : ℕ
  pub account : String

pub data EnumAnswer : Type 0 where
  filled : List ServiceEntry → EnumAnswer
  more_data : ℕ → EnumAnswer
  enum_failed : EnumAnswer

pub record ScmIo : Type 0 where
  pub opened : Bool
  pub bytes_needed : ℕ
  -- The answer of a call, by its number and the size of its buffer.
  pub fill : ℕ → ℕ → EnumAnswer
  pub query_service_config : String → Option ServiceConfig

abbrev pub service_running : ℕ
service_running = 4

abbrev pub max_retries : ℕ
max_retries = 3

-- The retry loop: the buffer grows by a quarter at least.
unfoldable pub fill_buffer : (ℕ → ℕ → EnumAnswer) → ℕ → ℕ → ℕ → Option (List ServiceEntry)
fill_buffer fill zero call size = none
fill_buffer fill (suc left) call size = elim (fill call size) [
  | filled entries ↦ some entries
  | enum_failed ↦ none
  | more_data needed ↦ fill_buffer fill left (call + 1) (max needed (size + size / 4))
]

config_default : ServiceConfig
config_default = record { binary_path = ""; start_type = 0; service_type = 0; account = "" }

unfoldable pub or_default : Option ServiceConfig → ServiceConfig
unfolding config_default
or_default none = config_default
or_default (some c) = c

unfoldable pub kept_config : ServiceSnapshot → ServiceConfig
kept_config p = record {
  binary_path = p.binary_path;
  start_type = p.start_type;
  service_type = p.service_type;
  account = p.account;
}

-- The configuration is reused while the service is known, its running state is the same and the
-- configuration known is not empty.
unfoldable pub config_of :
    (String → Option ServiceConfig) → Dict ServiceSnapshot → Bool → String → Bool → ServiceConfig
unfolding or_default kept_config
config_of query prev full_rescan name running = elim (lookup prev name) [
  | none ↦ or_default (query name)
  | some p ↦
      if not full_rescan && (bool_eq p.running running && not (text_eq p.binary_path ""))
      then kept_config p
      else or_default (query name)
]

unfoldable pub snapshot_of :
    (String → Option ServiceConfig) → Dict ServiceSnapshot → Bool → ServiceEntry → ServiceSnapshot
unfolding config_of
snapshot_of query prev full_rescan e =
    let running = e.state == service_running in
    let c = config_of query prev full_rescan e.name running in
    record {
      display_name = e.display_name;
      binary_path = c.binary_path;
      start_type = c.start_type;
      service_type = c.service_type;
      account = c.account;
      running = running;
    }

-- The loop over the entries: a nameless one is left out, a later one of the same name wins.
unfoldable pub collect :
    (ServiceEntry → ServiceSnapshot)
    → Dict ServiceSnapshot
    → List ServiceEntry
    → Dict ServiceSnapshot
collect snap map [] = map
collect snap map (e ∷ es) =
    collect snap (if text_eq e.name "" then map else insert map e.name (snap e)) es

-- The entries of a successful enumeration; none are needed where the probe asks for no byte.
unfoldable pub listed_entries : ScmIo → Option (List ServiceEntry)
unfolding fill_buffer
listed_entries io =
    let run = fill_buffer io.fill max_retries 0 io.bytes_needed in
    if io.opened then (if io.bytes_needed == 0 then some [] else run) else none

unfoldable pub enumerate_services :
    ScmIo → Dict ServiceSnapshot → Bool → Option (Dict ServiceSnapshot)
enumerate_services io prev full_rescan = elim (listed_entries io) [
  | none ↦ none
  | some entries ↦ some (collect (snapshot_of io.query_service_config prev full_rescan) [] entries)
]

-- ===== src/Control/Heartbeat.antt =====
-- src/control/heartbeat.rs: the loop that asks the server, runs and acknowledges its commands, and pulls the profile. The
-- handlers that it calls are those of the other modules; here they are an interface on the state that they share. A
-- number of seconds that is not positive is 0.
pub mod Order
use wazabi_edr_agent.Prelude.{
  ℕ, ◌+◌, Bool, true, false, ◌||◌, List, [], ◌∷◌, ◌++◌, Option, none, some, if◌then◌else◌, ltb,
}
use wazabi_edr_agent.Prelude.Bytes.{codes, bytes_eq}
use wazabi_edr_agent.Control.Isolation.{Status, Netsh, Machine}
use wazabi_edr_agent.Control.Executor.{Os}
use wazabi_edr_agent.Control.Executor.Files.{ExecutionResult}
use wazabi_edr_agent.Control.Executor.Dispatch.{CommandOut, Endpoint, execute}
use wazabi_edr_agent.Control.Sync.{
  Chars, Parsed, Site, Metadata, Template, Agent, ProfileState, Fetched, pull,
}

pub record HeartbeatResponse (Action : Type 0) : Type 0 where
  pub current_profile_version : ℕ
  pub pending_commands : List CommandOut
  pub pending_plugins : List Action
  pub next_checkin_seconds : ℕ

pub record ControlStats : Type 0 where
  pub heartbeats_ok : ℕ
  pub heartbeats_failed : ℕ
  pub commands_acked : ℕ

-- What the loop does, in order; an acknowledgement with what the server answered to it.
pub data Act (Action : Type 0) : Type 0 where
  requested : ℕ → Act Action
  executed : CommandOut → Act Action
  acked : List ℕ → Status → Bool → Act Action
  reconciled : List Action → Act Action
  pulled : Bool → Act Action
  slept : ℕ → Act Action

-- The handlers: the executor on what the commands change, the pull on the agent's profile, whether an acknowledgement is
-- taken.
pub record Handlers (World : Type 0) (Action : Type 0) : Type 0 where
  pub execute_one : CommandOut → World → ExecutionResult × World
  pub pull_one : Agent → Bool × Agent
  pub ack_command : List (Act Action) → CommandOut → Bool

pub record Loop (World : Type 0) (Action : Type 0) : Type 0 where
  pub world : World
  pub agent : Agent
  pub stats : ControlStats
  pub interval : ℕ
  pub acts : List (Act Action)

abbrev pub is_update_rules : CommandOut → Bool
is_update_rules c = bytes_eq (CommandOut.cmd_type c) (codes "update_rules")

module _ {World : Type 0} {Action : Type 0} (h : Handlers World Action) where
  abbrev pub act : Act Action → Loop World Action → Loop World Action
  act a s = record s { acts = Loop.acts s ++ (a ∷ []) }

  abbrev count_ack : Bool → ControlStats → ControlStats
  count_ack true t = record t { commands_acked = ControlStats.commands_acked t + 1 }
  count_ack false t = t

  -- A command is run, then acknowledged with the status that it gave, once, whatever the server answers.
  unfoldable pub run_command : CommandOut → Loop World Action → Loop World Action
  run_command c s =
      let r = Handlers.execute_one h c (Loop.world s) in
      let ran = Loop.acts s ++ (executed c ∷ []) in
      let taken = Handlers.ack_command h ran c in
      record s {
        world = r.1;
        stats = count_ack taken (Loop.stats s);
        acts = ran ++ (acked (CommandOut.id c) (ExecutionResult.status r.0) taken ∷ []);
      }

  -- The loop over the commands, with `force_profile_pull`.
  unfoldable pub run_commands :
      List CommandOut → Bool → Loop World Action → Bool × Loop World Action
  unfolding run_command
  run_commands [] forced s = (forced, s)
  run_commands (c ∷ cs) forced s =
      run_commands cs (if is_update_rules c then true else forced) (run_command c s)

  unfoldable pub sync : ℕ → Bool → Loop World Action → Loop World Action
  sync current forced s =
      let r = Handlers.pull_one h (Loop.agent s) in
      if ltb (ProfileState.version (Agent.state (Loop.agent s))) current || forced
      then record s { agent = r.1; acts = Loop.acts s ++ (pulled r.0 ∷ []) }
      else s

  unfoldable pub checkin : ℕ → Loop World Action → Loop World Action
  checkin seconds s = if ltb 0 seconds then record s { interval = seconds } else s

  abbrev pub heartbeat_ok : Loop World Action → Loop World Action
  heartbeat_ok s = record s {
    stats = record (Loop.stats s) { heartbeats_ok = ControlStats.heartbeats_ok (Loop.stats s) + 1 };
  }

  abbrev heartbeat_failed : Loop World Action → Loop World Action
  heartbeat_failed s = record s {
    stats = record (Loop.stats s) {
      heartbeats_failed = ControlStats.heartbeats_failed (Loop.stats s) + 1;
    };
  }

  unfoldable pub answered : HeartbeatResponse Action → Loop World Action → Loop World Action
  unfolding run_commands sync checkin
  answered resp s =
      let r = run_commands (HeartbeatResponse.pending_commands resp) false (heartbeat_ok s) in
      checkin (HeartbeatResponse.next_checkin_seconds resp) (
        sync (HeartbeatResponse.current_profile_version resp) r.0
          (act (reconciled (HeartbeatResponse.pending_plugins resp)) r.1))

  -- One round: the request with the version in memory, its answer, the sleep.
  unfoldable pub beat : Option (HeartbeatResponse Action) → Loop World Action → Loop World Action
  unfolding answered
  beat resp s =
      let asked = act (requested (ProfileState.version (Agent.state (Loop.agent s)))) s in
      let t = elim resp as (λ x. Loop World Action) [
        | none ↦ heartbeat_failed asked
        | some r ↦ answered r asked
      ] in
      act (slept (Loop.interval t)) t

  -- The rounds until the shutdown.
  unfoldable pub run :
      List (Option (HeartbeatResponse Action)) → Loop World Action → Loop World Action
  unfolding beat
  run [] s = s
  run (r ∷ rs) s = run rs (beat r s)

-- The agent's handlers: the executor on an endpoint, the pull with what the server and the site answer.
abbrev pub handlers :
    {Firewall : Type 0} {File : Type 0} {Action : Type 0}
    → Os
    → (Netsh → Machine Firewall File → Bool × Machine Firewall File)
    → (List ℕ → Option (List ℕ))
    → Bool
    → (Chars → Parsed)
    → Site
    → Fetched (Option Metadata)
    → Fetched Template
    → (List (Act Action) → CommandOut → Bool)
    → Handlers (Endpoint Firewall File) Action
handlers os netsh resolve removable parse site meta template ack = record {
  execute_one = execute os netsh resolve removable;
  pull_one = pull parse site meta template;
  ack_command = ack;
}

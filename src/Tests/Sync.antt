-- ===== src/Tests/Sync.antt =====
-- Examples for the pull of a profile and the heartbeat: two rules that bring the same group, a command that asks for a pull.
use wazabi_edr_agent.Prelude.{ℕ, ◌≡◌, Bool, true, false, List, [], ◌∷◌, ◌++◌, Option, none, some}
use wazabi_edr_agent.Prelude.Bytes.{codes}
use wazabi_edr_agent.Prelude.Json.{null}
use wazabi_edr_agent.Control.Executor.Dispatch.{CommandOut, Endpoint}
use wazabi_edr_agent.Control.Isolation.{Netsh, Machine}
use wazabi_edr_agent.Control.Sync.{
  Chars, Parsed, groups, TemplateRuleView, TemplateParseOutcome, nothing_parsed, template_rules,
  Metadata, Template, Site, Agent, Fetched, fetched, pull,
}
use wazabi_edr_agent.Control.Sync.Accepted.{IsBundle, Settled, template_rules-IsBundle}
use wazabi_edr_agent.Control.Sync.Order.{Left, pull-Left}
use wazabi_edr_agent.Control.Heartbeat.{
  HeartbeatResponse, Act, reconciled, Loop, Handlers, handlers, answered,
}
use wazabi_edr_agent.Control.Heartbeat.Order.{Served, Pulls, answered-Served}
use wazabi_edr_agent.Tests.Executor.{os}

abbrev parse : Chars → Parsed
parse source = groups (codes "g" ∷ [])

abbrev rule : Chars → TemplateRuleView
rule name = record { name = name; is_enabled = true; waza_source = codes "x" }

abbrev rules : List TemplateRuleView
rules = rule (codes "a") ∷ rule (codes "b") ∷ []

template_rules-IsBundle_example :
    IsBundle parse (TemplateParseOutcome.accepted (template_rules parse rules nothing_parsed))
    × Settled parse rules
        (TemplateParseOutcome.accepted (template_rules parse rules nothing_parsed))
        (TemplateParseOutcome.errors (template_rules parse rules nothing_parsed))
template_rules-IsBundle_example = template_rules-IsBundle parse rules

abbrev site : Site
site = record {
  profile_written = true;
  template_written = true;
  overrides_written = true;
  rules_written = true;
  has_rules_path = true;
  reloads = some true;
}

abbrev meta : Fetched (Option Metadata)
meta =
    fetched
      (some (record { profile_id = codes "p"; version = 2; hash = []; modules_required = [] }))

abbrev template : Fetched Template
template = fetched (record { rules = some rules; agent_config = codes "{}"; body = codes "{}" })

abbrev agent : Agent
agent = record {
  profile_json = none;
  template_json = none;
  overrides_json = none;
  rules_file = none;
  state = record { version = 1; modules_loaded = []; rule_errors = [] };
  profile_syncs = 0;
  shutdown = false;
}

pull-Left_example : Left meta agent (pull parse site meta template agent)
pull-Left_example = pull-Left parse site meta template agent

abbrev netsh : Netsh → Machine ℕ ℕ → Bool × Machine ℕ ℕ
netsh call m = (true, m)

abbrev resolve : List ℕ → Option (List ℕ)
resolve host = none

abbrev takes : List (Act ℕ) → CommandOut → Bool
takes acts c = true

abbrev wired : Handlers (Endpoint ℕ ℕ) ℕ
wired = handlers os netsh resolve true parse site meta template takes

abbrev again : CommandOut
again = record { id = codes "1"; cmd_type = codes "update_rules"; payload = null }

abbrev response : HeartbeatResponse ℕ
response = record {
  current_profile_version = 1;
  pending_commands = again ∷ [];
  pending_plugins = 5 ∷ [];
  next_checkin_seconds = 60;
}

abbrev begin : Loop (Endpoint ℕ ℕ) ℕ
begin = record {
  world = record { machine = record { firewall = 0; backup = none }; calls = [] };
  agent = agent;
  stats = record { heartbeats_ok = 0; heartbeats_failed = 0; commands_acked = 0 };
  interval = 30;
  acts = [];
}

answered-Served_example :
    (acts pulls : List (Act ℕ)) × (Loop.acts (answered wired response begin)
      ≡ [] ++ (acts ++ (reconciled (5 ∷ []) ∷ pulls)))
    × Served wired (Loop.world begin) (again ∷ []) acts (Loop.world (answered wired response begin))
    × Pulls wired 1 1 (again ∷ []) pulls
answered-Served_example = answered-Served wired response begin

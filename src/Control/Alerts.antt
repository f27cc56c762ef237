-- ===== src/Control/Alerts.antt =====
-- src/control/alerts.rs: the thread that posts detection alerts in batches. The client's answer to a post is a
-- parameter; an alert that comes between two calls of the channel is one that comes before the later call.
pub mod Delivery
use wazabi_edr_agent.Prelude.{
  ℕ, zero, suc, ◌+◌, Bool, true, false, List, [], ◌∷◌, ◌++◌, Option, none, some, String,
  if◌then◌else◌, length, take, drop,
}
use wazabi_edr_agent.Prelude.Text.{contains, text_eq}

abbrev pub max_batch : ℕ
max_batch = 64

abbrev native_modules : List String
native_modules = "kernel_callback" ∷ "minifilter" ∷ "network" ∷ "hooking" ∷ "web" ∷ []

unfoldable pub server_module : String → String
server_module m =
    if contains native_modules m then m else if text_eq m "plugin" then m else "plugin"

pub record AgentAlert : Type 0 where
  pub ts : String
  pub rule_name : String
  pub alert_module : String
  pub action_taken : String
  pub evidence : String

pub record AlertOut : Type 0 where
  pub ts : String
  pub rule_id : String
  pub rule_name : String
  pub severity : String
  pub out_module : String
  pub action_taken : String
  pub evidence : String

unfoldable pub alert_out : AgentAlert → AlertOut
unfolding server_module
alert_out a = record {
  ts = AgentAlert.ts a;
  rule_id = AgentAlert.rule_name a;
  rule_name = AgentAlert.rule_name a;
  severity = "medium";
  out_module = server_module (AgentAlert.alert_module a);
  action_taken = AgentAlert.action_taken a;
  evidence = AgentAlert.evidence a;
}

unfoldable pub payload_of : List AgentAlert → List AlertOut
unfolding alert_out
payload_of [] = []
payload_of (a ∷ more) = alert_out a ∷ payload_of more

pub record AlertStats : Type 0 where
  pub alerts_sent : ℕ
  pub alerts_dropped : ℕ

-- `post_batch`: the client answers how many the server received, or fails.
unfoldable pub post_batch : (List AlertOut → Option ℕ) → List AgentAlert → AlertStats → AlertStats
unfolding payload_of
post_batch post batch s = elim (post (payload_of batch)) [
  | some received ↦ record s { alerts_sent = AlertStats.alerts_sent s + received }
  | none ↦ record s { alerts_dropped = AlertStats.alerts_dropped s + length batch }
]

unfoldable pub post_all :
    (List AlertOut → Option ℕ) → List (List AgentAlert) → AlertStats → AlertStats
post_all post [] s = s
post_all post (b ∷ bs) s = post_all post bs (post_batch post b s)

-- The final drain, in batches; a round of fuel per alert is enough, since a batch holds one at least.
drain_fuel : ℕ → List AgentAlert → List (List AgentAlert)
drain_fuel zero queue = []
drain_fuel (suc f) [] = []
drain_fuel (suc f) (a ∷ more) = take max_batch (a ∷ more) ∷ drain_fuel f (drop max_batch (a ∷ more))

unfoldable pub drain : List AgentAlert → List (List AgentAlert)
unfolding drain_fuel
drain queue = drain_fuel (length queue) queue

-- Alerts come into the channel, or the thread looks: it times out or takes what is there, up to a batch.
pub data AlertEvent : Type 0 where
  arrive : List AgentAlert → AlertEvent
  look : AlertEvent

-- `run`: the batches it posts, in order. The end of the list is the shutdown.
unfoldable pub run_alerts : List AlertEvent → List AgentAlert → List (List AgentAlert)
unfolding drain
run_alerts [] queue = drain queue
run_alerts (arrive more ∷ es) queue = run_alerts es (queue ++ more)
run_alerts (look ∷ es) [] = run_alerts es []
run_alerts (look ∷ es) (a ∷ more) =
    take max_batch (a ∷ more) ∷ run_alerts es (drop max_batch (a ∷ more))

-- ===== src/Control/Sync.antt =====
-- src/control/sync.rs: the pull of a profile. The rules of a template are parsed one by one, and those that are accepted
-- make the file that the detection loads. The parser of a rule is a parameter, as are the answers of the server, of the
-- file system and of the detection's reload. Texts are lists of code points; a profile's version is a number.
pub mod Accepted
pub mod Order
use wazabi_edr_agent.Prelude.{
  ℕ, ◌+◌, Bool, true, false, not, ◌&&◌, List, [], ◌∷◌, ◌++◌, Option, none, some, if◌then◌else◌, map,
  String,
}
use wazabi_edr_agent.Prelude.Bytes.{codes, bytes_eq, decimal, is_whitespace, trim_end}

abbrev pub Chars : Type 0
Chars = List ℕ

pub data Message : Type 0 where
  empty_rule : Message
  parse_error : Chars → Message
  collision : Chars → Message
  reload_failed : Message
  write_failed : Message

pub record RuleError : Type 0 where
  pub rule_name : Chars
  pub message : Message

pub record TemplateRuleView : Type 0 where
  pub name : Chars
  pub is_enabled : Bool
  pub waza_source : Chars

-- The names and sources of the accepted rules, the errors, and the names of groups that are taken, the last one first.
pub record TemplateParseOutcome : Type 0 where
  pub accepted : List (Chars × Chars)
  pub errors : List RuleError
  pub claimed : List Chars

-- The parser's answer: its message, or the names of the rule's groups.
pub data Parsed : Type 0 where
  refused : Chars → Parsed
  groups : List Chars → Parsed

abbrev pub nothing_parsed : TemplateParseOutcome
nothing_parsed = record { accepted = []; errors = []; claimed = [] }

unfoldable pub is_blank : Chars → Bool
unfolding is_whitespace
is_blank [] = true
is_blank (c ∷ s) = is_whitespace c && is_blank s

abbrev pub has : List Chars → Chars → Bool
has [] k = false
has (x ∷ xs) k = if bytes_eq x k then true else has xs k

-- The first group that is taken.
unfoldable pub taken : List Chars → List Chars → Option Chars
taken claimed [] = none
taken claimed (g ∷ gs) = if has claimed g then some g else taken claimed gs

abbrev pub reject : TemplateRuleView → Message → TemplateParseOutcome → TemplateParseOutcome
reject r m o = record o {
  errors =
      TemplateParseOutcome.errors o
      ++ (record { rule_name = TemplateRuleView.name r; message = m } ∷ []);
}

abbrev claim : List Chars → List Chars → List Chars
claim [] claimed = claimed
claim (g ∷ gs) claimed = claim gs (g ∷ claimed)

abbrev accept : TemplateRuleView → List Chars → TemplateParseOutcome → TemplateParseOutcome
accept r gs o = record {
  accepted =
      TemplateParseOutcome.accepted o
      ++ ((TemplateRuleView.name r, TemplateRuleView.waza_source r) ∷ []);
  errors = TemplateParseOutcome.errors o;
  claimed = claim gs (TemplateParseOutcome.claimed o);
}

unfoldable pub parsed_rule : TemplateRuleView → Parsed → TemplateParseOutcome → TemplateParseOutcome
unfolding taken
parsed_rule r (refused m) o = reject r (parse_error m) o
parsed_rule r (groups gs) o = elim (taken (TemplateParseOutcome.claimed o) gs) [
  | some name ↦ reject r (collision name) o
  | none ↦ accept r gs o
]

module _ (parse_source : Chars → Parsed) where
  unfoldable pub template_rule : TemplateRuleView → TemplateParseOutcome → TemplateParseOutcome
  unfolding parsed_rule is_blank
  template_rule r o =
      if TemplateRuleView.is_enabled r
      then (if is_blank (TemplateRuleView.waza_source r)
          then reject r empty_rule o
          else parsed_rule r (parse_source (TemplateRuleView.waza_source r)) o)
      else o

  unfoldable pub template_rules :
      List TemplateRuleView → TemplateParseOutcome → TemplateParseOutcome
  unfolding template_rule
  template_rules [] o = o
  template_rules (r ∷ rs) o = template_rules rs (template_rule r o)

-- The template as the agent reads it: the rules, where they decode; the body of its `agent_config`; its whole text.
pub record Template : Type 0 where
  pub rules : Option (List TemplateRuleView)
  pub agent_config : Chars
  pub body : Chars

pub record Metadata : Type 0 where
  pub profile_id : Chars
  pub version : ℕ
  pub hash : Chars
  pub modules_required : List (Chars × Chars)

pub record ProfileState : Type 0 where
  pub version : ℕ
  pub modules_loaded : List (Chars × Chars)
  pub rule_errors : List RuleError

-- The files of the state directory, the rules' file, and what the agent keeps in memory.
pub record Agent : Type 0 where
  pub profile_json : Option Metadata
  pub template_json : Option Chars
  pub overrides_json : Option Chars
  pub rules_file : Option Chars
  pub state : ProfileState
  pub profile_syncs : ℕ
  pub shutdown : Bool

-- The answers of the file system, of the reload, and whether there are a path for the rules and an engine.
pub record Site : Type 0 where
  pub profile_written : Bool
  pub template_written : Bool
  pub overrides_written : Bool
  pub rules_written : Bool
  pub has_rules_path : Bool
  pub reloads : Option Bool

-- `load_persisted`: a file that is missing or does not decode starts at version 0.
unfoldable pub load_persisted : Option Metadata → ProfileState
load_persisted none = record { version = 0; modules_loaded = []; rule_errors = [] }
load_persisted (some p) = record {
  version = Metadata.version p;
  modules_loaded = Metadata.modules_required p;
  rule_errors = [];
}

unfoldable pub same_text : Option Chars → Chars → Bool
same_text none t = false
same_text (some s) t = bytes_eq s t

-- What stands in the file, and whether it was changed: an error of the write counts as no change.
unfoldable pub write_agent_config_overrides : Bool → Chars → Agent → Bool × Agent
unfolding same_text
write_agent_config_overrides written new_body a =
    if same_text (Agent.overrides_json a) new_body
    then (false, a)
    else (if written then (true, record a { overrides_json = some new_body }) else (false, a))

rule_texts : List (Chars × Chars) → Chars
unfolding trim_end
rule_texts [] = []
rule_texts ((name, source) ∷ rs) =
    codes "# --- rule '"
    ++ (name ++ (codes "' ---" ++ (10 ∷ (trim_end source ++ (10 ∷ 10 ∷ rule_texts rs)))))

unfoldable pub rules_body : TemplateParseOutcome → ℕ → Chars
unfolding rule_texts
rules_body o version =
    codes "# Géré par l'agent WazabiEDR — NE PAS ÉDITER À LA MAIN."
    ++ (10
        ∷ (codes "# Toute modif sera écrasée au prochain heartbeat avec sync profil."
            ++ (10
                ∷ (codes "# Profil version : "
                    ++ (decimal version
                        ++ (10 ∷ 10 ∷ rule_texts (TemplateParseOutcome.accepted o)))))))

bundle_error : Message → TemplateParseOutcome → TemplateParseOutcome
bundle_error m o = record o {
  errors =
      TemplateParseOutcome.errors o
      ++ (record { rule_name = codes "__server_bundle__"; message = m } ∷ []);
}

reloaded : Option Bool → TemplateParseOutcome → TemplateParseOutcome
unfolding bundle_error
reloaded none o = o
reloaded (some true) o = o
reloaded (some false) o = bundle_error reload_failed o

-- The rules' file, where one is configured; an error goes to the errors of the profile.
unfoldable pub apply_rules : Site → ℕ → TemplateParseOutcome → Agent → TemplateParseOutcome × Agent
unfolding reloaded bundle_error rules_body
apply_rules site version o a =
    if Site.has_rules_path site
    then (if Site.rules_written site
        then (reloaded (Site.reloads site) o, record a { rules_file = some (rules_body o version) })
        else (bundle_error write_failed o, a))
    else (o, a)

-- The template's text and the overrides, and whether these changed.
unfoldable pub persist_template : Site → Template → Agent → Bool × Agent
unfolding write_agent_config_overrides
persist_template site template a =
    write_agent_config_overrides (Site.overrides_written site) (Template.agent_config template) (
      if Site.template_written site
      then record a { template_json = some (Template.body template) }
      else a)

-- The rules and the state in memory; a template that does not decode is an error.
unfoldable pub finish_pull :
    (Chars → Parsed)
    → Site
    → Metadata
    → Option (List TemplateRuleView)
    → Bool
    → Agent
    → Bool × Agent
unfolding template_rules apply_rules
finish_pull parse site meta none changed a = (false, a)
finish_pull parse site meta (some rules) changed a =
    let r =
      apply_rules site (Metadata.version meta) (template_rules parse rules nothing_parsed) a in
    (
      true,
      record r.1 {
        state = record {
          version = Metadata.version meta;
          modules_loaded = Metadata.modules_required meta;
          rule_errors = TemplateParseOutcome.errors r.0;
        };
        profile_syncs = Agent.profile_syncs r.1 + 1;
        shutdown = if changed then true else Agent.shutdown r.1;
      },
    )

-- What comes once `profile.json` is written.
unfoldable pub apply_template : (Chars → Parsed) → Site → Metadata → Template → Agent → Bool × Agent
unfolding persist_template finish_pull
apply_template parse site meta template a =
    let c = persist_template site template a in
    finish_pull parse site meta (Template.rules template) c.0 c.1

-- The answers of the server: a failed request, or the profile's metadata where one is assigned.
pub data Fetched (A : Type 0) : Type 0 where
  unreachable : Fetched A
  fetched : A → Fetched A

-- `pull`: the flag is false where it returns an error.
unfoldable pub pull :
    (Chars → Parsed) → Site → Fetched (Option Metadata) → Fetched Template → Agent → Bool × Agent
unfolding apply_template
pull parse site unreachable template a = (false, a)
pull parse site (fetched none) template a = (true, a)
pull parse site (fetched (some meta)) unreachable a = (false, a)
pull parse site (fetched (some meta)) (fetched template) a =
    if Site.profile_written site
    then apply_template parse site meta template (record a { profile_json = some meta })
    else (false, a)

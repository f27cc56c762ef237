-- ===== src/Control/Sync/Order.antt =====
-- What a pull leaves, on success and on each error.
use wazabi_edr_agent.Prelude.{
  ℕ, ◌+◌, ◌≡◌, ◌⊎◌, refl, inl, inr, Bool, true, false, List, Option, none, some, if◌then◌else◌,
  if-either, arith,
}
use wazabi_edr_agent.Control.Sync.{
  Chars, Parsed, Metadata, ProfileState, Agent, Site, Template, Fetched, unreachable, fetched, pull,
  load_persisted, TemplateRuleView, TemplateParseOutcome, template_rules, nothing_parsed, same_text,
  persist_template, finish_pull, apply_rules, write_agent_config_overrides, apply_template,
}

-- A pull that worked for a profile: memory and disk say the same.
pub record Synced (m : Metadata) (a b : Agent) : Type 0 where
  pub persisted : Agent.profile_json b ≡ some m
  pub version :
      ProfileState.version (Agent.state b)
      ≡ ProfileState.version (load_persisted (Agent.profile_json b))
  pub modules :
      ProfileState.modules_loaded (Agent.state b)
      ≡ ProfileState.modules_loaded (load_persisted (Agent.profile_json b))
  pub reported : ProfileState.version (Agent.state b) ≡ Metadata.version m
  pub counted : Agent.profile_syncs b ≡ Agent.profile_syncs a + 1

-- What an error leaves as it was.
pub record Kept (a b : Agent) : Type 0 where
  pub state : Agent.state b ≡ Agent.state a
  pub rules : Agent.rules_file b ≡ Agent.rules_file a
  pub syncs : Agent.profile_syncs b ≡ Agent.profile_syncs a
  pub running : Agent.shutdown b ≡ Agent.shutdown a

abbrev pub Left : Fetched (Option Metadata) → Agent → Bool × Agent → Type 0
Left meta a r =
    ((r.0 ≡ true) × (meta ≡ fetched none) × (r.1 ≡ a))
    ⊎ ((m : Metadata) × (r.0 ≡ true) × (meta ≡ fetched (some m)) × Synced m a r.1)
    ⊎ ((r.0 ≡ false) × Kept a r.1)

same_agent : (a : Agent) → Kept a a
same_agent a = record { state = refl; rules = refl; syncs = refl; running = refl }

-- The disk has the new profile, and the rest is as it was.
Written : Metadata → Agent → Agent → Type 0
Written m a b = (Agent.profile_json b ≡ some m) × Kept a b

persist_template-Written :
    (site : Site) (template : Template) (m : Metadata) (a b : Agent)
    → Written m a b
    → Written m a (persist_template site template b).1
unfolding persist_template write_agent_config_overrides Written
persist_template-Written site template m a b h =
    let P : Agent → Type 0 = λ c. (Agent.profile_json c ≡ some m) × Kept a c in
    let c =
      if Site.template_written site
      then record b { template_json = some (Template.body template) }
      else b in
    let k : P c = if-either P (Site.template_written site) (again b h) h in
    if-either (λ (r : Bool × Agent). P r.1)
      (same_text (Agent.overrides_json c) (Template.agent_config template)) k
      (if-either (λ (r : Bool × Agent). P r.1) (Site.overrides_written site) (again c k) k)
  where
    again :
        {t o : Option Chars} (c : Agent)
        → (Agent.profile_json c ≡ some m) × Kept a c
        → (Agent.profile_json (record c { template_json = t; overrides_json = o }) ≡ some m)
          × Kept a (record c { template_json = t; overrides_json = o })
    again c k = (
      k.0,
      record {
        state = Kept.state k.1;
        rules = Kept.rules k.1;
        syncs = Kept.syncs k.1;
        running = Kept.running k.1;
      },
    )

apply_rules-keeps :
    (site : Site) (v : ℕ) (o : TemplateParseOutcome) (b : Agent) (m : Metadata) (n : ℕ)
    → Agent.profile_json b ≡ some m
    → Agent.profile_syncs b ≡ n
    → (Agent.profile_json (apply_rules site v o b).1 ≡ some m)
      × (Agent.profile_syncs (apply_rules site v o b).1 ≡ n)
unfolding apply_rules
apply_rules-keeps site v o b m n h k =
    let P : TemplateParseOutcome × Agent → Type 0 =
      λ r. (Agent.profile_json r.1 ≡ some m) × (Agent.profile_syncs r.1 ≡ n) in
    if-either P (Site.has_rules_path site) (if-either P (Site.rules_written site) (h, k) (h, k))
      (h, k)

finish_pull-Left :
    (parse : Chars → Parsed) (site : Site) (m : Metadata) (rules : Option (List TemplateRuleView))
    (changed : Bool) (a b : Agent)
    → Written m a b
    → Left (fetched (some m)) a (finish_pull parse site m rules changed b)
unfolding finish_pull Written load_persisted apply_rules
finish_pull-Left parse site m none changed a b h = inr (inr (refl, h.1))
finish_pull-Left parse site m (some rules) changed a b h =
    let r = apply_rules site (Metadata.version m) (template_rules parse rules nothing_parsed) b in
    let p : (Agent.profile_json r.1 ≡ some m) × (Agent.profile_syncs r.1 ≡ Agent.profile_syncs a) =
      apply_rules-keeps site (Metadata.version m) (template_rules parse rules nothing_parsed) b m
        (Agent.profile_syncs a) h.0 (Kept.syncs h.1) in
    inr (
      inl (
        m,
        refl,
        refl,
        record {
          persisted = p.0;
          version = rw p.0 refl;
          modules = rw p.0 refl;
          reported = refl;
          counted = omega (arith, p.1);
        },
      ))

apply_template-Left :
    (parse : Chars → Parsed) (site : Site) (m : Metadata) (template : Template) (a : Agent)
    → Left
        (fetched (some m))
        a
        (apply_template parse site m template (record a { profile_json = some m }))
unfolding apply_template Written
apply_template-Left parse site m template a =
    let c = persist_template site template (record a { profile_json = some m }) in
    finish_pull-Left parse site m (Template.rules template) c.0 a c.1 (
      persist_template-Written site template m a (record a { profile_json = some m })
        (refl, record { state = refl; rules = refl; syncs = refl; running = refl }))

-- A pull does nothing where no profile is assigned; or it works, and then the version and the modules in memory are those
-- of the profile and those that a restart reads from the disk; or it fails, and then memory, the rules' file and the
-- running of the agent are as before.
pub pull-Left :
    (parse : Chars → Parsed) (site : Site) (meta : Fetched (Option Metadata))
    (template : Fetched Template) (a : Agent)
    → Left meta a (pull parse site meta template a)
unfolding pull
pull-Left parse site unreachable template a = inr (inr (refl, same_agent a))
pull-Left parse site (fetched none) template a = inl (refl, refl, refl)
pull-Left parse site (fetched (some m)) unreachable a = inr (inr (refl, same_agent a))
pull-Left parse site (fetched (some m)) (fetched template) a =
    if-either (Left (fetched (some m)) a) (Site.profile_written site)
      (apply_template-Left parse site m template a) (inr (inr (refl, same_agent a)))

-- A pull whose template does not decode returns an error with the version in memory as it was, but where `profile.json` was
-- written a restart reads the new version.
pub pull-undecoded :
    (parse : Chars → Parsed) (site : Site) (m : Metadata) (template : Template) (a : Agent)
    → Site.profile_written site ≡ true
    → Template.rules template ≡ none
    → ((pull parse site (fetched (some m)) (fetched template) a).0 ≡ false)
      × (ProfileState.version (
            load_persisted
              (Agent.profile_json (pull parse site (fetched (some m)) (fetched template) a).1))
          ≡ Metadata.version m)
unfolding pull apply_template load_persisted finish_pull Written
pull-undecoded parse site m template a w h =
    let b : Agent = record a { profile_json = some m } in
    let c =
      persist_template-Written site template m a b
        (refl, record { state = refl; rules = refl; syncs = refl; running = refl }) in
    rw w (rw h (refl, rw c.0 refl))

-- ===== src/Control/Heartbeat/Order.antt =====
-- What a heartbeat does with the answer of the server.
use wazabi_edr_agent.Prelude.{
  ℕ, ◌<◌, ◌≤◌, ◌≡◌, ◌↔◌, ◌⊎◌, inl, inr, refl, sym, ap, subst, ◌∙◌, Bool, true, false, ◌||◌, List,
  [], ◌∷◌, ◌++◌, if◌then◌else◌, ltb, append_assoc, append-nil, arith, Bool-cases, if-either,
}
use wazabi_edr_agent.Control.Executor.Files.{ExecutionResult}
use wazabi_edr_agent.Control.Executor.Dispatch.{CommandOut}
use wazabi_edr_agent.Control.Sync.{Agent, ProfileState}
use wazabi_edr_agent.Control.Heartbeat.{
  HeartbeatResponse, Act, executed, acked, reconciled, pulled, Handlers, Loop, is_update_rules, act,
  run_command, run_commands, sync, checkin, heartbeat_ok, answered,
}

-- A command of the list asks for the pull.
abbrev pub Asks : List CommandOut → Type 0
Asks [] = ⊥
Asks (c ∷ cs) = (is_update_rules c ≡ true) ⊎ Asks cs

true_is_not_false : ◌≡◌ {A = Bool} true false → ⊥
true_is_not_false e = cc

module _ {World : Type 0} {Action : Type 0} (h : Handlers World Action) where
  -- Each command, run and then acknowledged with its status, in the order of the list.
  pub data Served : World → List CommandOut → List (Act Action) → World → Type 0 where
    served_none : (w : World) → Served w [] [] w
    served_one :
        (w v : World) (c : CommandOut) (cs : List CommandOut) (acts : List (Act Action))
        (taken : Bool)
        → Served (Handlers.execute_one h c w).1 cs acts v
        → Served w
            (c ∷ cs)
            (executed c
              ∷ acked
                  (CommandOut.id c)
                  (ExecutionResult.status (Handlers.execute_one h c w).0)
                  taken
              ∷ acts)
            v

  forced-Asks :
      (cs : List CommandOut) (b : Bool) (s : Loop World Action)
      → ((run_commands h cs b s).0 ≡ true) ↔ ((b ≡ true) ⊎ Asks cs)
  unfolding run_commands
  forced-Asks [] b s = (λ e. inl e, λ x. elim x [ inl e ↦ e | inr e ↦ absurd e ])
  forced-Asks (c ∷ cs) b s =
      let x = forced-Asks cs (if is_update_rules c then true else b) (run_command h c s) in
      elim (Bool-cases (is_update_rules c)) [
        | inl e ↦ (λ y. inr (inl e), λ y. x.1 (inl (rw e refl)))
        | inr e ↦ (
          λ y. elim (x.0 y) [ inl z ↦ inl (rw e at z) | inr z ↦ inr (inr z) ],
          λ y. x.1 (elim y [
            | inl z ↦ inl (rw e z)
            | inr (inl z) ↦ absurd (true_is_not_false (sym z ∙ e))
            | inr (inr z) ↦ inr z
          ]),
        )
      ]

  run_commands-Served :
      (cs : List CommandOut) (b : Bool) (s : Loop World Action)
      → (acts : List (Act Action)) × (Loop.acts (run_commands h cs b s).1 ≡ Loop.acts s ++ acts)
        × Served (Loop.world s) cs acts (Loop.world (run_commands h cs b s).1)
        × (Loop.agent (run_commands h cs b s).1 ≡ Loop.agent s)
  unfolding run_commands run_command
  run_commands-Served [] b s = ([], sym (append-nil (Loop.acts s)), served_none _, refl)
  run_commands-Served (c ∷ cs) b s =
      let x = run_commands-Served cs (if is_update_rules c then true else b) (run_command h c s) in
      let taken = Handlers.ack_command h (Loop.acts s ++ (executed c ∷ [])) c in
      (
        executed c
            ∷ acked (CommandOut.id c)
                (ExecutionResult.status (Handlers.execute_one h c (Loop.world s)).0) taken
            ∷ x.0,
        x.1 ∙ simp append_assoc,
        served_one (Loop.world s) _ c cs x.0 taken x.2,
        x.3,
      )

  -- What follows the commands: the pull, exactly where the server's version is ahead or a command asks for it.
  abbrev pub Pulls : ℕ → ℕ → List CommandOut → List (Act Action) → Type 0
  Pulls local current cs acts =
      ((acts ≡ []) × (current ≤ local) × ¬ Asks cs)
      ⊎ ((ok : Bool) × (acts ≡ pulled ok ∷ []) × ((local < current) ⊎ Asks cs))

  sync-Pulls :
      (cs : List CommandOut) (current : ℕ) (forced : Bool) (s : Loop World Action)
      → ((forced ≡ true) ↔ Asks cs)
      → (acts : List (Act Action)) × (Loop.acts (sync h current forced s) ≡ Loop.acts s ++ acts)
        × (Loop.world (sync h current forced s) ≡ Loop.world s)
        × Pulls (ProfileState.version (Agent.state (Loop.agent s))) current cs acts
  unfolding sync
  sync-Pulls cs current forced s a =
      let v = ProfileState.version (Agent.state (Loop.agent s)) in
      elim (Bool-cases (ltb v current || forced)) [
        | inl e ↦
            let why : (v < current) ⊎ Asks cs = elim (Bool-cases forced) [
              | inl f ↦ inr (a.0 f)
              | inr f ↦ inl (ground arith)
            ] in
            rw e (
              pulled (Handlers.pull_one h (Loop.agent s)).0 ∷ [],
              refl,
              refl,
              inr ((Handlers.pull_one h (Loop.agent s)).0, refl, why),
            )
        | inr e ↦
            let f : forced ≡ false = ground arith in
            rw e (
              [],
              sym (append-nil (Loop.acts s)),
              refl,
              inl (refl, ground arith, λ x. true_is_not_false (sym (a.1 x) ∙ f)),
            )
      ]

  checkin-keeps :
      (n : ℕ) (s : Loop World Action)
      → (Loop.acts (checkin h n s) ≡ Loop.acts s) × (Loop.world (checkin h n s) ≡ Loop.world s)
  unfolding checkin
  checkin-keeps n s =
      if-either
        (λ (t : Loop World Action). (Loop.acts t ≡ Loop.acts s) × (Loop.world t ≡ Loop.world s))
        (ltb 0 n) (refl, refl) (refl, refl)

  -- For an answer of the server, the heartbeat runs each pending command once, in order, and acknowledges each right after,
  -- with the status that it gave; then it hands over the pending plugins, and then it pulls the profile, exactly where the
  -- server's version is ahead of the one in memory or a command asks for it.
  pub answered-Served :
      (resp : HeartbeatResponse Action) (s : Loop World Action)
      → (acts pulls : List (Act Action)) × (Loop.acts (answered h resp s)
          ≡ Loop.acts s ++ (acts ++ (reconciled (HeartbeatResponse.pending_plugins resp) ∷ pulls)))
        × Served
            (Loop.world s)
            (HeartbeatResponse.pending_commands resp)
            acts
            (Loop.world (answered h resp s))
        × Pulls
            (ProfileState.version (Agent.state (Loop.agent s)))
            (HeartbeatResponse.current_profile_version resp)
            (HeartbeatResponse.pending_commands resp)
            pulls
  unfolding answered
  answered-Served resp s =
      let cs = HeartbeatResponse.pending_commands resp in
      let current = HeartbeatResponse.current_profile_version resp in
      let r = run_commands h cs false (heartbeat_ok h s) in
      let x = run_commands-Served cs false (heartbeat_ok h s) in
      let a = forced-Asks cs false (heartbeat_ok h s) in
      let t : Loop World Action = act h (reconciled (HeartbeatResponse.pending_plugins resp)) r.1 in
      let y = sync-Pulls cs current r.0 t (
        λ e. elim (a.0 e) [ inl z ↦ absurd (true_is_not_false (sym z)) | inr z ↦ z ],
        λ z. a.1 (inr z),
      ) in
      let k = checkin-keeps (HeartbeatResponse.next_checkin_seconds resp) (sync h current r.0 t) in
      (
        x.0,
        y.0,
        k.0
            ∙ y.1
            ∙ ap (λ l. (l ++ (reconciled (HeartbeatResponse.pending_plugins resp) ∷ [])) ++ y.0) x.1
            ∙ simp append_assoc,
        subst (Served (Loop.world s) cs x.0) (sym (k.1 ∙ y.2)) x.2,
        subst (λ (g : Agent). Pulls (ProfileState.version (Agent.state g)) current cs y.0) x.3 y.3,
      )

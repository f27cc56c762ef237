-- ===== src/Plugin/Session/Attribution.antt =====
-- src/plugin/server.rs: what a connection can put into the spool.
use wazabi_edr_agent.Prelude.{
  ℕ, ◌≡◌, refl, sym, subst, ap, ◌∙◌, ◌⊎◌, inl, inr, Bool, true, false, List, [], ◌∷◌, ◌++◌, Option,
  none, some, String, All, All-append, append-nil, append_assoc, when, unless, Bool-cases,
}
use wazabi_edr_agent.Filter.{allows}
use wazabi_edr_agent.Plugin.Protocol.{
  Hello, Event, hello, event, heartbeat, goodbye, ok, err, hello_ack,
}
use wazabi_edr_agent.Plugin.Manifest.{PluginManifest, ManifestStore, get}
use wazabi_edr_agent.Plugin.Enrich.{Payload}
use wazabi_edr_agent.Plugin.Handshake.{
  ClientIdentity, Checks, Verdict, accept, reject, validate_handshake,
}
use wazabi_edr_agent.Plugin.Handshake.Accept.{Admissible, validate_handshake_iff}
use wazabi_edr_agent.Plugin.Session.{
  Attributed, Emitter, Session, Incoming, attribute, emit_event, serve, handle_session, hand_over,
  answer, count_received, reply,
}

module _ (emitter : Emitter) (identity : ClientIdentity) where
  abbrev pub Names : PluginManifest → String → Attributed → Type 0
  Names manifest session_id a =
      (Attributed.plugin_id a ≡ PluginManifest.plugin_id manifest)
      × (Attributed.plugin_name a ≡ PluginManifest.name manifest)
      × (Attributed.plugin_pid a ≡ ClientIdentity.pid identity)
      × (Attributed.session_id a ≡ session_id)

  -- A line that stands for an event of the given plugin, process and session.
  abbrev pub IsFrom : PluginManifest → String → List ℕ → Type 0
  IsFrom manifest session_id line =
      (a : Attributed) × (body : List ℕ) × (Emitter.to_vec emitter a ≡ some body)
      × (line ≡ body ++ (10 ∷ []))
      × Names manifest session_id a

  -- The lines of a session after others.
  abbrev pub Adds : PluginManifest → String → List (List ℕ) → List (List ℕ) → Type 0
  Adds manifest session_id before after =
      (extra : List (List ℕ)) × (after ≡ before ++ extra) × All (IsFrom manifest session_id) extra

  Adds-refl : (manifest : PluginManifest) (sid : String) (l : List (List ℕ)) → Adds manifest sid l l
  Adds-refl manifest sid l = ([], sym (append-nil l), tt)

  Adds-trans :
      (manifest : PluginManifest) (sid : String) (a b c : List (List ℕ))
      → Adds manifest sid a b
      → Adds manifest sid b c
      → Adds manifest sid a c
  Adds-trans manifest sid a b c (x, e, p) (y, f, q) = (
    x ++ y,
    f ∙ ap (λ t. t ++ y) e ∙ append_assoc a x y,
    All-append (IsFrom manifest sid) x y p q,
  )

  hand_over-Adds :
      (manifest : PluginManifest) (sid : String) (s : Session) (kind : String) (payload : Payload)
      (a : Attributed)
      → Names manifest sid a
      → (o : Option (List ℕ)) → Emitter.to_vec emitter a ≡ o
      → Adds manifest sid
          (Session.lines s)
          (Session.lines (hand_over emitter identity s kind payload o))
  unfolding hand_over
  hand_over-Adds manifest sid s kind payload a from none e =
      Adds-refl manifest sid (Session.lines s)
  hand_over-Adds manifest sid s kind payload a from (some body) e =
      ((body ++ (10 ∷ [])) ∷ [], refl, ((a, body, e, refl, from), tt))

  emit_event-Adds :
      (manifest : PluginManifest) (sid : String) (now : ℕ) (ev : Event Payload) (s : Session)
      → Adds manifest sid
          (Session.lines s)
          (Session.lines (emit_event emitter identity manifest sid now ev s))
  unfolding emit_event attribute
  emit_event-Adds manifest sid now ev s =
      elim (Bool-cases (allows (Emitter.filter emitter) "plugin" "plugin_event")) [
        | inr e ↦
            subst (λ (t : Session). Adds manifest sid (Session.lines s) (Session.lines t))
              (sym (unless e _ s)) (Adds-refl manifest sid (Session.lines s))
        | inl e ↦
            let a = attribute emitter manifest identity sid now ev in
            subst (λ (t : Session). Adds manifest sid (Session.lines s) (Session.lines t))
              (sym (when e _ _))
              (hand_over-Adds manifest sid s (Event.kind ev) (Event.payload ev) a
                (refl, refl, refl, refl) (Emitter.to_vec emitter a) refl)
      ]

  serve-Adds :
      (manifest : PluginManifest) (sid : String) (inc : List (Incoming)) (s : Session)
      → Adds manifest sid
          (Session.lines s)
          (Session.lines (serve emitter identity manifest sid inc s))
  unfolding serve
  serve-Adds manifest sid [] s = Adds-refl manifest sid (Session.lines s)
  serve-Adds manifest sid ((ok (some (event ev)), now) ∷ rest) s =
      let next = emit_event emitter identity manifest sid now ev (count_received s) in
      Adds-trans manifest sid (Session.lines s) (Session.lines next)
        (Session.lines (serve emitter identity manifest sid rest next))
        (emit_event-Adds manifest sid now ev (count_received s)) (serve-Adds manifest sid rest next)
  serve-Adds manifest sid ((ok (some (heartbeat t)), now) ∷ rest) s = serve-Adds manifest sid rest s
  serve-Adds manifest sid ((ok (some (hello h)), now) ∷ rest) s =
      Adds-refl manifest sid (Session.lines s)
  serve-Adds manifest sid ((ok (some goodbye), now) ∷ rest) s =
      Adds-refl manifest sid (Session.lines s)
  serve-Adds manifest sid ((ok none, now) ∷ rest) s = Adds-refl manifest sid (Session.lines s)
  serve-Adds manifest sid ((err e, now) ∷ rest) s = Adds-refl manifest sid (Session.lines s)

  -- The first frame of a connection is the `Hello`.
  abbrev pub Opens : Hello → List Incoming → Type 0
  Opens h inc = (now : ℕ) × (rest : List Incoming) × (inc ≡ ((ok (some (hello h)), now) ∷ rest))

  -- What the lines of a session come from: nothing was added, or they were for a plugin that the store holds, with the
  -- id that the first frame announced, and that passed every check of the handshake.
  abbrev pub Authorised :
      Checks → ManifestStore → String → List Incoming → List (List ℕ) → List (List ℕ) → Type 0
  Authorised checks store sid inc before after =
      (before ≡ after)
      ⊎ ((h : Hello) × (manifest : PluginManifest) × Opens h inc
          × (get store (Hello.plugin_id h) ≡ some manifest)
          × Admissible checks h (ClientIdentity.image_path identity) manifest
          × Adds manifest sid before after)

  answer-Authorised :
      (checks : Checks) (store : ManifestStore) (sid : String) (acked : Bool) (h : Hello) (now : ℕ)
      (rest : List (Incoming)) (s : Session) (v : Verdict)
      → validate_handshake checks h identity store ≡ v
      → Authorised checks store sid
          ((ok (some (hello h)), now) ∷ rest)
          (Session.lines s)
          (Session.lines (answer emitter identity sid acked rest s v))
  unfolding answer
  answer-Authorised checks store sid acked h now rest s (reject r) e = inl refl
  answer-Authorised checks store sid true h now rest s (accept manifest) e =
      let (held, cleared) = (validate_handshake_iff checks h identity store manifest).0 e in
      inr (
        h,
        manifest,
        (now, rest, refl),
        held,
        cleared,
        serve-Adds manifest sid rest (reply s (hello_ack sid)),
      )
  answer-Authorised checks store sid false h now rest s (accept manifest) e = inl refl

  -- Whatever a connection sends, what it adds to the spool is nothing, or lines of events that all carry the id and
  -- the name of one manifest of the store, the process id that the operating system gave and the id of the session.
  -- That manifest is the one of the id that the connection's first frame, a `Hello`, announced: of the schema of the
  -- agent, not revoked, for the path of the client's image, with the hash that the manifest names, and with a valid
  -- signature where it names a signer, whoever signed.
  pub handle_session-Authorised :
      (checks : Checks) (store : ManifestStore) (sid : String) (acked : Bool)
      (inc : List (Incoming)) (s : Session)
      → Authorised checks store sid inc
          (Session.lines s)
          (Session.lines (handle_session emitter identity checks store sid acked inc s))
  unfolding handle_session
  handle_session-Authorised checks store sid acked [] s = inl refl
  handle_session-Authorised checks store sid acked ((ok (some (hello h)), now) ∷ rest) s =
      answer-Authorised checks store sid acked h now rest s
        (validate_handshake checks h identity store) refl
  handle_session-Authorised checks store sid acked ((ok (some (event ev)), now) ∷ rest) s = inl refl
  handle_session-Authorised checks store sid acked ((ok (some (heartbeat t)), now) ∷ rest) s =
      inl refl
  handle_session-Authorised checks store sid acked ((ok (some goodbye), now) ∷ rest) s = inl refl
  handle_session-Authorised checks store sid acked ((ok none, now) ∷ rest) s = inl refl
  handle_session-Authorised checks store sid acked ((err e, now) ∷ rest) s = inl refl

-- ===== src/Plugin/Session.antt =====
-- src/plugin/server.rs, `handle_session` and `emit_event`: one plugin's connection. The pipe is the list of what
-- `read_frame` answers, each with the clock at that moment; when the list is over the pipe is closed. serde's
-- writer and the texts of the clock are parameters.
pub mod Attribution
use wazabi_edr_agent.Prelude.{
  ℕ, ◌+◌, Bool, true, false, List, [], ◌∷◌, ◌++◌, Option, none, some, String, if◌then◌else◌,
}
use wazabi_edr_agent.Filter.{Global, allows}
use wazabi_edr_agent.Plugin.Protocol.{
  Hello, Event, ClientFrame, hello, event, heartbeat, goodbye, bad_handshake, ServerFrame,
  hello_ack, refused, Result, ok, err,
}
use wazabi_edr_agent.Plugin.Manifest.{PluginManifest, ManifestStore}
use wazabi_edr_agent.Plugin.Enrich.{Payload, enrich_with_xml_data_fields}
use wazabi_edr_agent.Plugin.Handshake.{
  ClientIdentity, Checks, Verdict, accept, reject, validate_handshake,
}

pub record PluginStats : Type 0 where
  pub sessions_accepted : ℕ
  pub sessions_rejected : ℕ
  pub events_received : ℕ
  pub events_invalid : ℕ

-- The object that `emit_event` builds: `source`, `module` and `event_type` are constants of it.
pub record Attributed : Type 0 where
  pub ts : String
  pub ts_unix_ns : ℕ
  pub kind : String
  pub plugin_id : String
  pub plugin_name : String
  pub plugin_pid : ℕ
  pub session_id : String
  pub seq : ℕ
  pub plugin_ts_unix_ns : ℕ
  pub raw : Payload

-- What a session changes: the counters, the replies, the lines handed to the spool and the events handed to detection.
pub record Session : Type 0 where
  pub stats : PluginStats
  pub replies : List ServerFrame
  pub lines : List (List ℕ)
  pub logs : List (String × Payload)

abbrev pub Incoming : Type 0
Incoming = Result (Option (ClientFrame Payload)) × ℕ

pub record Emitter : Type 0 where
  pub filter : Global
  pub format_iso : ℕ → String
  pub to_vec : Attributed → Option (List ℕ)

unfoldable pub attribute :
    Emitter → PluginManifest → ClientIdentity → String → ℕ → Event Payload → Attributed
unfolding enrich_with_xml_data_fields
attribute emitter manifest identity session_id now ev = record {
  ts = Emitter.format_iso emitter now;
  ts_unix_ns = now;
  kind = Event.kind ev;
  plugin_id = PluginManifest.plugin_id manifest;
  plugin_name = PluginManifest.name manifest;
  plugin_pid = ClientIdentity.pid identity;
  session_id = session_id;
  seq = Event.seq ev;
  plugin_ts_unix_ns = Event.ts_unix_ns ev;
  raw = enrich_with_xml_data_fields (Event.payload ev);
}

abbrev pub count_rejected : Session → Session
count_rejected s = record s {
  stats = record (Session.stats s) {
    sessions_rejected = PluginStats.sessions_rejected (Session.stats s) + 1;
  };
}

abbrev pub count_received : Session → Session
count_received s = record s {
  stats = record (Session.stats s) {
    events_received = PluginStats.events_received (Session.stats s) + 1;
  };
}

abbrev pub count_invalid : Session → Session
count_invalid s = record s {
  stats = record (Session.stats s) {
    events_invalid = PluginStats.events_invalid (Session.stats s) + 1;
  };
}

abbrev pub reply : Session → ServerFrame → Session
reply s f = record s { replies = Session.replies s ++ (f ∷ []) }

module _ (emitter : Emitter) (identity : ClientIdentity) where
  unfoldable pub hand_over : Session → String → Payload → Option (List ℕ) → Session
  hand_over s kind payload none = s
  hand_over s kind payload (some body) = record s {
    lines = Session.lines s ++ ((body ++ (10 ∷ [])) ∷ []);
    logs = Session.logs s ++ ((kind, payload) ∷ []);
  }

  unfoldable pub emit_event : PluginManifest → String → ℕ → Event Payload → Session → Session
  unfolding hand_over
  emit_event manifest session_id now ev s =
      if allows (Emitter.filter emitter) "plugin" "plugin_event"
      then hand_over s (Event.kind ev) (Event.payload ev)
          (Emitter.to_vec emitter (attribute emitter manifest identity session_id now ev))
      else s

  -- The loop of the steady state.
  unfoldable pub serve : PluginManifest → String → List (Incoming) → Session → Session
  serve manifest session_id [] s = s
  serve manifest session_id ((ok (some (event ev)), now) ∷ rest) s =
      serve manifest session_id rest (emit_event manifest session_id now ev (count_received s))
  serve manifest session_id ((ok (some (heartbeat t)), now) ∷ rest) s =
      serve manifest session_id rest s
  serve manifest session_id ((ok (some (hello h)), now) ∷ rest) s = count_invalid s
  serve manifest session_id ((ok (some goodbye), now) ∷ rest) s = s
  serve manifest session_id ((ok none, now) ∷ rest) s = s
  serve manifest session_id ((err e, now) ∷ rest) s = count_invalid s

  -- After a `Hello`; `acked` says whether the reply could be written.
  unfoldable pub answer : String → Bool → List (Incoming) → Session → Verdict → Session
  unfolding serve
  answer session_id acked rest s (reject reason) = reply (count_rejected s) (refused reason)
  answer session_id true rest s (accept manifest) =
      serve manifest session_id rest (reply s (hello_ack session_id))
  answer session_id false rest s (accept manifest) = s

  unfoldable pub handle_session :
      Checks → ManifestStore → String → Bool → List (Incoming) → Session → Session
  unfolding answer
  handle_session checks store session_id acked ((ok (some (hello h)), now) ∷ rest) s =
      answer session_id acked rest s (validate_handshake checks h identity store)
  handle_session checks store session_id acked _ s =
      reply (count_rejected s) (refused bad_handshake)

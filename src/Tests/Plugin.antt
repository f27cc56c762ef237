-- ===== src/Tests/Plugin.antt =====
-- Examples for plugins: one enrolled plugin, its handshake and its frames.
use wazabi_edr_agent.Prelude.{
  ℕ, ◌≡◌, ◌↔◌, ◌⊎◌, refl, true, false, List, [], ◌∷◌, Option, none, some, String, arith, All,
}
use wazabi_edr_agent.Prelude.Bytes.{codes}
use wazabi_edr_agent.Filter.{Filter}
use wazabi_edr_agent.Plugin.Protocol.{
  Hello, hello, event, goodbye, ok, err, truncated, chunk, interrupted, Stream, parse_body,
  read_frame, write_frame, ServerFrame, hello_ack, refused,
}
use wazabi_edr_agent.Plugin.Protocol.Fill.{bytes_of, Clean}
use wazabi_edr_agent.Plugin.Protocol.Frames.{
  in_length, read_frame-body, read_frame-truncated, read_frame-write_frame,
}
use wazabi_edr_agent.Plugin.Manifest.{
  PluginManifest, DirEntry, entry, ManifestStore, get, load_dir, load_one, load_entries, keep_first,
}
use wazabi_edr_agent.Plugin.Manifest.Store.{first_named, load_dir-first_named}
use wazabi_edr_agent.Plugin.Handshake.{ClientIdentity, Checks, accept, validate_handshake}
use wazabi_edr_agent.Plugin.Handshake.Accept.{
  HasHash, Admissible, validate_handshake_iff, validate_handshake-HasIntegrity,
}
use wazabi_edr_agent.Plugin.Enrich.{
  Chars, Fields, object, text, field, enrich_with_xml_data_fields, scan_data_fields,
  decode_xml_entities,
}
use wazabi_edr_agent.Plugin.Enrich.Fields.{or_else, additions, enrich_with_xml_data_fields-field}
use wazabi_edr_agent.Plugin.Session.{Session, Emitter, Incoming, Attributed, handle_session}
use wazabi_edr_agent.Plugin.Session.Attribution.{Authorised, handle_session-Authorised}
use wazabi_edr_agent.Plugin.Supervisor.{
  Supervision, Cycle, Life, supervise_one, scan_and_spawn, thread_exits,
}
use wazabi_edr_agent.Plugin.Supervisor.Once.{Reserved}
use wazabi_edr_agent.Plugin.Supervisor.Reach.{boot, then_step, scan, exit, Reach-Reserved}
use wazabi_edr_agent.Plugin.Supervisor.Launches.{Known, InRange, supervise_one-Sound}
use wazabi_edr_agent.Plugin.Acceptor.{
  Acceptor, client, worker_refuses, worker_ends, accept_loop, Capped, accept_loop-Capped,
}

abbrev filter : Filter
filter = record { modules = "plugin" ∷ []; event_types = [] }

abbrev from_slice : List ℕ → Option ℕ
from_slice [] = none
from_slice (b ∷ bs) = some b

abbrev cut_stream : Stream
cut_stream = chunk (1 ∷ 0 ∷ []) ∷ interrupted ∷ chunk (0 ∷ 0 ∷ 7 ∷ 9 ∷ []) ∷ []

read_frame-body_example :
    (s' : Stream) × (read_frame from_slice cut_stream ≡ (parse_body from_slice (7 ∷ []), s'))
    × (bytes_of s' ≡ 9 ∷ [])
    × Clean s'
read_frame-body_example =
    read_frame-body from_slice (7 ∷ []) (9 ∷ []) cut_stream tt (omega arith) refl

abbrev large_stream : Stream
large_stream = chunk (0 ∷ 0 ∷ 0 ∷ 1 ∷ []) ∷ []

read_frame-truncated_example : read_frame from_slice (chunk (1 ∷ 0 ∷ []) ∷ []) ≡ (err truncated, [])
read_frame-truncated_example =
    read_frame-truncated from_slice (chunk (1 ∷ 0 ∷ []) ∷ []) tt
      (in_length 1 (0 ∷ []) (omega arith))

abbrev frame_bytes : ServerFrame → Option (List ℕ)
frame_bytes (hello_ack id) = some (7 ∷ [])
frame_bytes (refused reason) = none

written : write_frame frame_bytes true (hello_ack "s1") ≡ ok (1 ∷ 0 ∷ 0 ∷ 0 ∷ 7 ∷ [])
unfolding write_frame
written = refl

read_frame-write_frame_example :
    (body : List ℕ) × (frame_bytes (hello_ack "s1") ≡ some body)
    × (s' : Stream) × (read_frame (λ b. some b) cut_stream ≡ (ok (some body), s'))
    × (bytes_of s' ≡ 9 ∷ [])
    × Clean s'
read_frame-write_frame_example =
    read_frame-write_frame frame_bytes true (hello_ack "s1") (1 ∷ 0 ∷ 0 ∷ 0 ∷ 7 ∷ []) (9 ∷ [])
      cut_stream written tt refl

abbrev manifest : PluginManifest
manifest = record {
  plugin_id = "p1";
  name = "Plugin";
  vendor = "Acme";
  expected_path = "C:\\p.exe";
  expected_sha256 = some "ab";
  expected_signer = none;
  revoked = false;
  enrolled_at = none;
  auto_launch = true;
  env = [];
}

abbrev parse : List ℕ → Option PluginManifest
parse bytes = some manifest

abbrev listing : List DirEntry
listing =
    entry (record { stem = "other"; extension = "json"; bytes = some [] })
    ∷ entry (record { stem = "p1"; extension = "json"; bytes = some [] })
    ∷ []

abbrev store : ManifestStore
store = record { by_id = ("p1", manifest) ∷ []; fingerprint = 5 }

loads : load_dir parse 5 true (some listing) ≡ some store
unfolding load_dir load_entries load_one keep_first
loads = refl

load_dir-first_named_example : get store "p1" ≡ first_named parse "p1" listing
load_dir-first_named_example = load_dir-first_named parse 5 listing store loads "p1"

abbrev checks : Checks
checks = record {
  to_lowercase = λ s. s;
  to_ascii_lowercase = λ s. s;
  sha256_file_hex = λ path. some "ab";
  verify_authenticode = λ path. false;
}

abbrev greeting : Hello
greeting = record { plugin_id = "p1"; plugin_version = "1.0"; schema_version = 1 }

abbrev identity : ClientIdentity
identity = record { pid = 42; image_path = "C:\\p.exe" }

validate_handshake_iff_example :
    (validate_handshake checks greeting identity store ≡ accept manifest)
    ↔ ((get store "p1" ≡ some manifest) × Admissible checks greeting "C:\\p.exe" manifest)
validate_handshake_iff_example = validate_handshake_iff checks greeting identity store manifest

is_accepted : validate_handshake checks greeting identity store ≡ accept manifest
unfolding validate_handshake
is_accepted = refl

validate_handshake-HasIntegrity_example :
    ((expected : String) × (some "ab" ≡ some expected) × HasHash checks "C:\\p.exe" expected)
    ⊎ ((signer : String) × (none ≡ some signer) × (false ≡ true))
validate_handshake-HasIntegrity_example =
    validate_handshake-HasIntegrity checks greeting identity parse 5 true (some listing) store
      manifest loads is_accepted

abbrev emitter : Emitter
emitter = record {
  filter = none;
  format_iso = λ now. "now";
  to_vec = λ a. some (Attributed.seq a ∷ []);
}

abbrev payload : Fields
payload =
    (codes "severity_name", text (codes "low"))
    ∷ (
      codes "raw_xml",
      text (
          codes
            "<EventID>1116</EventID><Data Name='Severity Name'>High</Data><Data Name='Path'>a&amp;b</Data>"),
    )
    ∷ []

enrich_with_xml_data_fields-field_example :
    (obj' : Fields) × (enrich_with_xml_data_fields (object payload) ≡ object obj')
    × (field obj' (codes "path")
        ≡ or_else
            (field payload (codes "path"))
            (field (additions (field payload (codes "raw_xml"))) (codes "path")))
enrich_with_xml_data_fields-field_example = enrich_with_xml_data_fields-field payload (codes "path")

abbrev two_data : Chars
two_data = codes "<Data Name='A'>1</Data>"

-- The fields of an event of Defender, with the entity decoded; an entity that is escaped twice is decoded twice.
scans :
    scan_data_fields
      (codes "x<Data Name='Threat Name'> a&amp;b </Data><Data Name=\"FWLink\">&amp;lt;</Data>")
    ≡ (codes "threat_name", text (codes "a&b")) ∷ (codes "fwlink", text (codes "<")) ∷ []
unfolding scan_data_fields decode_xml_entities
scans = refl

abbrev incoming : List (Incoming)
incoming =
    (ok (some (hello greeting)), 1)
    ∷ (
      ok (
          some
            (event (record { seq = 3; ts_unix_ns = 9; kind = "login"; payload = object payload }))),
      2,
    )
    ∷ (ok (some goodbye), 3)
    ∷ []

abbrev session : Session
session = record {
  stats = record {
    sessions_accepted = 1;
    sessions_rejected = 0;
    events_received = 0;
    events_invalid = 0;
  };
  replies = [];
  lines = [];
  logs = [];
}

handle_session-Authorised_example :
    Authorised emitter identity checks store "s1" incoming
      (Session.lines session)
      (Session.lines (handle_session emitter identity checks store "s1" true incoming session))
handle_session-Authorised_example =
    handle_session-Authorised emitter identity checks store "s1" true incoming session

abbrev launched : Supervision
launched =
    (scan_and_spawn (load_dir parse 5 true (some listing))
      (record { supervised = []; threads = [] })).0

Reach-Reserved_example : Reserved (thread_exits "p1" launched)
Reach-Reserved_example = Reach-Reserved parse (thread_exits "p1" launched) (
    then_step launched (thread_exits "p1" launched)
      (then_step (record { supervised = []; threads = [] }) launched boot
        (scan (record { supervised = []; threads = [] }) 5 true (some listing)))
      (exit launched "p1"))

abbrev crash : Cycle
crash = record {
  shutdown = false;
  spawned = true;
  polls = record { exited = true; shutdown = false; manifest = none } ∷ [];
  alive = 10;
  shutdown_after = false;
  slept = true;
}

supervise_one-Sound_example :
    All
      (Known (crash ∷ crash ∷ []) manifest)
      (Life.launches (supervise_one (crash ∷ crash ∷ []) manifest 1000))
    × All InRange (Life.delays (supervise_one (crash ∷ crash ∷ []) manifest 1000))
supervise_one-Sound_example =
    supervise_one-Sound (crash ∷ crash ∷ []) manifest 1000 refl (omega arith, omega arith)

abbrev acceptor : Acceptor
acceptor = record {
  active_sessions = 64;
  workers = 64;
  sessions_accepted = 64;
  sessions_rejected = 0;
  unspawned = 0;
  finished = 0;
  refused = 0;
}

accept_loop-Capped_example :
    Capped (accept_loop (client true ∷ worker_refuses ∷ worker_ends ∷ client true ∷ []) acceptor)
accept_loop-Capped_example =
    accept_loop-Capped (client true ∷ worker_refuses ∷ worker_ends ∷ client true ∷ []) acceptor
      (refl, omega arith, refl)

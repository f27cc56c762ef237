-- ===== src/Polling/Envelope.antt =====
-- src/polling/envelope.rs, and the `emit` that services.rs and tasks.rs share word for word.
use wazabi_edr_agent.Prelude.{
  ℕ, ◌+◌, ◌≡◌, List, [], ◌∷◌, ◌++◌, Option, none, some, String, if◌then◌else◌, arith, length,
  length-append, Option-cases, inl, inr, refl,
}
use wazabi_edr_agent.Spool.{SpoolSubmitter, try_submit}

abbrev pub et_service_create : String
et_service_create = "service_create"

abbrev pub et_service_modify : String
et_service_modify = "service_modify"

abbrev pub et_service_delete : String
et_service_delete = "service_delete"

abbrev pub et_service_start : String
et_service_start = "service_start"

abbrev pub et_service_stop : String
et_service_stop = "service_stop"

abbrev pub et_task_create : String
et_task_create = "scheduled_task_create"

abbrev pub et_task_modify : String
et_task_modify = "scheduled_task_modify"

abbrev pub et_task_delete : String
et_task_delete = "scheduled_task_delete"

-- An event over the payload of its poller.
pub record PersistenceEvent (P : Type 0) : Type 0 where
  pub event_type : String
  pub kind : String
  pub event_version : ℕ
  pub payload : P

pub record Envelope (P : Type 0) : Type 0 where
  pub ts : String
  pub module_name : String
  pub event_type : String
  pub raw : P
  pub source : String
  pub kind : String
  pub event_version : ℕ

-- The counters of a poller and its end of the spool.
pub record Sink : Type 0 where
  pub submitter : SpoolSubmitter
  pub counter : ℕ
  pub dropped : ℕ

-- serde's writer, and the clock of one poll.
module _ {P : Type 0} (to_vec : Envelope P → Option (List ℕ)) (ts : String) where
  envelope : PersistenceEvent P → Envelope P
  envelope e = record {
    ts = ts;
    module_name = "persistence";
    event_type = e.event_type;
    raw = e.payload;
    source = "polling";
    kind = e.kind;
    event_version = e.event_version;
  }

  unfoldable pub into_ndjson_line : PersistenceEvent P → Option (List ℕ)
  unfolding envelope
  into_ndjson_line e = elim (to_vec (envelope e)) [
    | none ↦ none
    | some out ↦ some (out ++ (b'\n' ∷ []))
  ]

  unfoldable pub emit : Sink → PersistenceEvent P → Sink
  unfolding into_ndjson_line
  emit s e = elim (into_ndjson_line e) [
    | none ↦ s
    | some line ↦
        let (submitter, taken) = try_submit s.submitter line in
        record {
          submitter = submitter;
          counter = s.counter + 1;
          dropped = if taken then s.dropped else s.dropped + 1;
        }
  ]

  unfoldable pub emit_all : Sink → List (PersistenceEvent P) → Sink
  emit_all s [] = s
  emit_all s (e ∷ es) = emit_all (emit s e) es

  -- Every event counted is in the channel or counted as dropped.
  emit-accounts :
      (s : Sink) (e : PersistenceEvent P)
      → let s' = emit s e in
        s'.counter + s.dropped + length s.submitter.channel.queue
        ≡ s.counter + s'.dropped + length s'.submitter.channel.queue
  unfolding emit try_submit
  emit-accounts s e = elim (Option-cases (into_ndjson_line e)) [
    | inl p ↦ rw (p, emit)
    | inr (line, p) ↦
        rw (p, emit) (ground (arith, length-append s.submitter.channel.queue (line ∷ [])))
  ]

  -- Of the events of a poll, those counted and not dropped are exactly those that the channel took.
  pub emit_all-accounts :
      (s : Sink) (es : List (PersistenceEvent P))
      → let s' = emit_all s es in
        s'.counter + s.dropped + length s.submitter.channel.queue
        ≡ s.counter + s'.dropped + length s'.submitter.channel.queue
  unfolding emit_all
  emit_all-accounts s [] = refl
  emit_all-accounts s (e ∷ es) = omega (arith, emit-accounts s e, emit_all-accounts (emit s e) es)

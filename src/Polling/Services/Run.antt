-- ===== src/Polling/Services/Run.antt =====
-- src/polling/services.rs, `run`: the loop of polls.
use wazabi_edr_agent.Prelude.{
  ℕ, ◌+◌, ◌≤◌, ◌<◌, ◌≡◌, sym, Bool, true, false, ◌&&◌, List, [], ◌∷◌, ◌++◌, none, some, arith, leb,
  if◌then◌else◌, In, inl, inr, Bool-cases, Option-cases, All, length,
}
use wazabi_edr_agent.Prelude.Text.{Dict, Distinct}
use wazabi_edr_agent.Polling.Envelope.{PersistenceEvent}
use wazabi_edr_agent.Polling.Services.{ServiceSnapshot, Payload, compute_diff, events_of}
use wazabi_edr_agent.Polling.Services.Enumerate.{
  ScmIo, ServiceEntry, listed_entries, enumerate_services,
}
use wazabi_edr_agent.Polling.Services.Snapshot.{
  enumerate_services-listed, enumerate_services-Distinct,
}

-- The locals of `run`, and the events handed to `emit` so far, in order.
pub record PollState : Type 0 where
  pub prev : Dict ServiceSnapshot
  pub first : Bool
  pub cycles_since_full : ℕ
  pub reported : List (PersistenceEvent Payload)

abbrev pub full_rescan_every : ℕ
full_rescan_every = 10

unfoldable pub full_rescan : PollState → Bool
full_rescan s = leb full_rescan_every s.cycles_since_full

-- `diff_and_emit`: the events of the diff. What `emit` does with each is `Envelope.emit`.
unfoldable pub diff_events :
    Dict ServiceSnapshot → Dict ServiceSnapshot → List (PersistenceEvent Payload)
diff_events prev next = events_of prev next (compute_diff prev next)

-- One round: a failed snapshot changes nothing.
unfoldable pub poll : Bool → PollState → ScmIo → PollState
unfolding full_rescan
poll silent_first s io = elim (enumerate_services io s.prev (full_rescan s)) [
  | none ↦ s
  | some snapshot ↦
      let counted : PollState = record s {
        prev = snapshot;
        first = false;
        cycles_since_full = if full_rescan s then 0 else s.cycles_since_full + 1;
      } in
      if s.first && silent_first
      then counted
      else record counted { reported = s.reported ++ diff_events s.prev snapshot }
]

unfoldable pub polls : Bool → PollState → List ScmIo → PollState
polls silent_first s [] = s
polls silent_first s (io ∷ ios) = polls silent_first (poll silent_first s io) ios

unfoldable pub poll_start : PollState
poll_start = record { prev = []; first = true; cycles_since_full = 0; reported = [] }

-- The names of the last snapshot are distinct, and the rescan is never overdue.
pub record IsCurrent (s : PollState) : Type 0 where
  pub distinct : Distinct s.prev
  pub due : s.cycles_since_full ≤ full_rescan_every

-- Every poll keeps the invariant, whatever the service manager answers.
pub poll-IsCurrent :
    (silent : Bool) (s : PollState) (io : ScmIo) → IsCurrent s → IsCurrent (poll silent s io)
unfolding poll
poll-IsCurrent silent s io v = elim (Option-cases (enumerate_services io s.prev (full_rescan s))) [
  | inl e ↦ rw (e, poll) v
  | inr (next, e) ↦
      let d = enumerate_services-Distinct io s.prev (full_rescan s) next e in
      rw (e, poll) (ground (arith, d))
]

-- Whether each poll of a history asks for every configuration again.
unfoldable pub rescans : Bool → PollState → List ScmIo → List Bool
unfolding full_rescan
rescans silent s [] = []
rescans silent s (io ∷ ios) = full_rescan s ∷ rescans silent (poll silent s io) ios

-- The service manager lists the services.
abbrev pub Lists : ScmIo → Type 0
Lists io = (es : List ServiceEntry) × (listed_entries io ≡ some es)

poll_counts :
    (silent : Bool) (s : PollState) (io : ScmIo)
    → Lists io
    → full_rescan s ≡ false
    → (poll silent s io).cycles_since_full ≡ s.cycles_since_full + 1
unfolding poll
poll_counts silent s io (es, e) h =
    rw (enumerate_services-listed io s.prev (full_rescan s) es e, poll) (ground arith)

-- Of the polls that list the services, a full rescan comes at the latest ten after the last:
-- a configuration that changes under a running service is asked for again.
pub rescans_within :
    (silent : Bool) (s : PollState) (ios : List ScmIo)
    → IsCurrent s
    → All Lists ios
    → full_rescan_every < s.cycles_since_full + length ios
    → In true (rescans silent s ios)
unfolding rescans
rescans_within silent s [] v h enough = absurd (omega (arith, v.due))
rescans_within silent s (io ∷ ios) v h enough = elim (Bool-cases (full_rescan s)) [
  | inl e ↦ inl (sym e)
  | inr e ↦ inr (
      rescans_within silent (poll silent s io) ios (poll-IsCurrent silent s io v) h.1
        (omega (arith, poll_counts silent s io h.0 e)))
]

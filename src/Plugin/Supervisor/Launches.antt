-- ===== src/Plugin/Supervisor/Launches.antt =====
-- src/plugin/supervisor.rs: what a supervisor launches, and how long it waits.
use wazabi_edr_agent.Prelude.{
  ℕ, ◌≤◌, ◌≡◌, refl, sym, ap, ◌∙◌, inl, inr, ◌⊎◌, false, List, [], ◌∷◌, Option, none, some, arith,
  All, if-either, Bool-cases, leb,
}
use wazabi_edr_agent.Plugin.Manifest.{PluginManifest}
use wazabi_edr_agent.Plugin.Supervisor.{
  Poll, Cycle, Life, WaitOutcome, child_exited, revoked_outcome, shutdown_outcome, updated,
  ManifestState, changed, ManifestRead, parsed_as, not_found, unreadable, not_json, unchanged,
  revoked_state, missing, read_error, read_manifest, polled, wait_for_exit_or_change, supervise_one,
  after_wait, backoff_after, next_backoff, initial_backoff, max_backoff, same_binary, checked,
  or_continue, stable_threshold,
}

abbrev pub Live : PluginManifest → Type 0
Live m = PluginManifest.revoked m ≡ false

abbrev pub InRange : ℕ → Type 0
InRange d = (initial_backoff ≤ d) × (d ≤ max_backoff)

read_manifest-Live :
    (r : ManifestRead) (current m : PluginManifest) → read_manifest r current ≡ changed m → Live m
unfolding read_manifest
read_manifest-Live not_found current m h = cc h
read_manifest-Live unreadable current m h = cc h
read_manifest-Live not_json current m h = cc h
read_manifest-Live (parsed_as n) current m h = elim (Bool-cases (PluginManifest.revoked n)) [
  | inl e ↦ absurd (ground (arith, e, h))
  | inr e ↦ elim (Bool-cases (same_binary n current)) [
    | inl g ↦ absurd (ground (arith, e, g, h))
    | inr g ↦ let same : n ≡ m = ground (arith, e, g, h) in sym (ap PluginManifest.revoked same) ∙ e
  ]
]

-- A round of a wait read the manifest.
abbrev pub ReadIn : List Poll → PluginManifest → Type 0
ReadIn [] m = ⊥
ReadIn (p ∷ ps) m = (Poll.manifest p ≡ some (parsed_as m)) ⊎ ReadIn ps m

abbrev pub ReadBy : List Cycle → PluginManifest → Type 0
ReadBy [] m = ⊥
ReadBy (c ∷ cs) m = ReadIn (Cycle.polls c) m ⊎ ReadBy cs m

next_backoff-InRange : (d : ℕ) → InRange d → InRange (next_backoff d)
unfolding next_backoff
next_backoff-InRange d h = ground arith

changed-parsed :
    (r : ManifestRead) (current m : PluginManifest)
    → read_manifest r current ≡ changed m
    → r ≡ parsed_as m
unfolding read_manifest
changed-parsed not_found current m h = cc h
changed-parsed unreadable current m h = cc h
changed-parsed not_json current m h = cc h
changed-parsed (parsed_as n) current m h = elim (Bool-cases (PluginManifest.revoked n)) [
  | inl e ↦ absurd (ground (arith, e, h))
  | inr e ↦ elim (Bool-cases (same_binary n current)) [
    | inl g ↦ absurd (ground (arith, e, g, h))
    | inr g ↦ let same : n ≡ m = ground (arith, e, g, h) in ap parsed_as same
  ]
]

-- A property of the manifest at the start and of those that are read and not revoked is one of all that are launched.
module _ (Q : PluginManifest → Type 0) where
  abbrev Supplied : List Poll → Type 0
  Supplied ps = (m : PluginManifest) → ReadIn ps m → Live m → Q m

  -- The outcome of a wait may bring a new manifest only where it has the property.
  abbrev KnownOutcome : Option WaitOutcome → Type 0
  KnownOutcome none = Unit {0}
  KnownOutcome (some child_exited) = Unit {0}
  KnownOutcome (some revoked_outcome) = Unit {0}
  KnownOutcome (some shutdown_outcome) = Unit {0}
  KnownOutcome (some (updated m)) = Q m

  polled-KnownOutcome :
      (st : ManifestState)
      → ((m : PluginManifest) → st ≡ changed m → Q m)
      → KnownOutcome (polled (some st))
  unfolding polled
  polled-KnownOutcome unchanged h = tt
  polled-KnownOutcome revoked_state h = tt
  polled-KnownOutcome missing h = tt
  polled-KnownOutcome read_error h = tt
  polled-KnownOutcome (changed m) h = h m refl

  checked-KnownOutcome :
      (current : PluginManifest) (o : Option ManifestRead)
      → ((m : PluginManifest) → o ≡ some (parsed_as m) → Live m → Q m)
      → KnownOutcome (checked current o)
  unfolding checked
  checked-KnownOutcome current none h = tt
  checked-KnownOutcome current (some r) h =
      polled-KnownOutcome (read_manifest r current)
        (λ m e. h m (ap some (changed-parsed r current m e)) (read_manifest-Live r current m e))

  or_continue-KnownOutcome :
      (rest : Option WaitOutcome × List Poll) (ps : List Poll) (o : Option WaitOutcome)
      → KnownOutcome (rest.0)
      → KnownOutcome o
      → KnownOutcome ((or_continue rest ps o).0)
  or_continue-KnownOutcome rest ps none h k = h
  or_continue-KnownOutcome rest ps (some o) h k = k

  wait-KnownOutcome :
      (current : PluginManifest) (ps : List Poll)
      → Supplied ps
      → KnownOutcome ((wait_for_exit_or_change current ps).0)
  unfolding wait_for_exit_or_change
  wait-KnownOutcome current [] h = tt
  wait-KnownOutcome current (p ∷ ps) h =
      let P : Option WaitOutcome × List Poll → Type 0 = λ r. KnownOutcome (r.0) in
      if-either P (Poll.exited p) tt (
        if-either P (Poll.shutdown p) tt (
          or_continue-KnownOutcome (wait_for_exit_or_change current ps) ps
            (checked current (Poll.manifest p)) (wait-KnownOutcome current ps (λ m i. h m (inr i)))
            (checked-KnownOutcome current (Poll.manifest p) (λ m e. h m (inl e)))))

  abbrev Sound : Life → Type 0
  Sound l = All Q (Life.launches l) × All InRange (Life.delays l)

  after_wait-Sound :
      (next : PluginManifest → ℕ → Life)
      → ((m : PluginManifest) (b : ℕ) → Q m → InRange b → Sound (next m b))
      → (current : PluginManifest) (backoff : ℕ) (c : Cycle) (o : Option WaitOutcome) → Q current
      → InRange backoff
      → KnownOutcome o
      → Sound (after_wait next current backoff c o)
  unfolding after_wait next_backoff
  after_wait-Sound next ih current backoff c none l r lo = (tt, tt)
  after_wait-Sound next ih current backoff c (some revoked_outcome) l r lo = (tt, tt)
  after_wait-Sound next ih current backoff c (some shutdown_outcome) l r lo = (tt, tt)
  after_wait-Sound next ih current backoff c (some (updated m)) l r lo =
      ih m initial_backoff lo (omega arith)
  after_wait-Sound next ih current backoff c (some child_exited) l r lo =
      let d = backoff_after (Cycle.alive c) backoff in
      let within : InRange d =
        if-either InRange (leb stable_threshold (Cycle.alive c)) (omega arith) r in
      let rest =
        if-either Sound (Cycle.slept c)
          (ih current (next_backoff d) l (next_backoff-InRange d within)) (tt, tt) in
      if-either Sound (Cycle.shutdown_after c) (tt, tt) (rest.0, (within, rest.1))

  supervise_one-launches :
      (cs : List Cycle) (current : PluginManifest) (backoff : ℕ)
      → ((m : PluginManifest) → ReadBy cs m → Live m → Q m)
      → Q current
      → InRange backoff
      → Sound (supervise_one cs current backoff)
  unfolding supervise_one
  supervise_one-launches [] current backoff s l r = (tt, tt)
  supervise_one-launches (c ∷ cs) current backoff s l r =
      let later : (m : PluginManifest) → ReadBy cs m → Live m → Q m = λ m i. s m (inr i) in
      let waited =
        after_wait-Sound (λ m b. supervise_one cs m b)
          (λ m b x y. supervise_one-launches cs m b later x y) current backoff c
          ((wait_for_exit_or_change current (Cycle.polls c)).0) l r
          (wait-KnownOutcome current (Cycle.polls c) (λ m i. s m (inl i))) in
      let retried =
        if-either Sound (Cycle.slept c)
          (supervise_one-launches cs current (next_backoff backoff) later l
            (next_backoff-InRange backoff r))
          (tt, tt) in
      if-either Sound (Cycle.shutdown c) (tt, tt)
        (if-either Sound (Cycle.spawned c) ((l, waited.0), waited.1) (retried.0, (r, retried.1)))

-- The manifest is not revoked, and is that of the start or was read in a wait.
abbrev pub Known : List Cycle → PluginManifest → PluginManifest → Type 0
Known cs start m = Live m × ((m ≡ start) ⊎ ReadBy cs m)

-- A supervisor that starts from a manifest that is not revoked launches only this one and manifests that it read in a
-- wait and found not revoked, as it knows them: before a launch after a crash the file is not read again. And each
-- delay it sleeps is between 1 and 60 seconds.
pub supervise_one-Sound :
    (cs : List Cycle) (current : PluginManifest) (backoff : ℕ)
    → Live current
    → InRange backoff
    → All (Known cs current) (Life.launches (supervise_one cs current backoff))
      × All InRange (Life.delays (supervise_one cs current backoff))
supervise_one-Sound cs current backoff l r =
    supervise_one-launches (Known cs current) cs current backoff (λ m i k. (k, inr i)) (l, inl refl)
      r

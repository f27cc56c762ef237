-- ===== src/Shipper/Drain.antt =====
-- src/shipper/run.rs, `shipper_main`: while the server accepts, each round ships one batch.
use wazabi_edr_agent.Prelude.{
  ℕ, suc, ◌+◌, ◌≡◌, refl, sym, ap, subst, true, false, List, [], ◌∷◌, none, some, arith, length,
  length-append, if◌then◌else◌, Bool-cases, Option-cases, inl, inr, In, In-append, All, ◌≤◌,
}
use wazabi_edr_agent.Prelude.Bytes.{bytes_eq_iff}
use wazabi_edr_agent.Spool.File.{SpoolFile, is_batch}
use wazabi_edr_agent.Shipper.{Found, oldest_batch, ShipperConfig, ShipIo, sent, send_one}
use wazabi_edr_agent.Shipper.Oldest.{batches_in, candidates, IsOldest, oldest_batch-IsOldest}
use wazabi_edr_agent.Shipper.Round.{Shipping, round, rounds, remove_at, remove_name, same_name}

-- How many batches the directories hold.
abbrev pub waiting : List (List SpoolFile) → ℕ
waiting dirs = length (candidates (λ _. true) 0 dirs)

-- Every directory can be listed, every batch is accepted, every accepted batch can be removed.
abbrev pub Accepts : ShipperConfig → ShipIo → Type 0
Accepts cfg io =
    (io.listed ≡ (λ _. true)) × (io.removed ≡ true) × ((f : SpoolFile) → send_one cfg io f ≡ sent)

same_name_refl : (f : SpoolFile) → same_name f f ≡ true
unfolding same_name
same_name_refl f = ground (arith, bytes_eq_iff f.name f.name)

same_name-batch : (f g : SpoolFile) → same_name f g ≡ true → is_batch f ≡ is_batch g
unfolding same_name is_batch
same_name-batch f g h = ground (arith, bytes_eq_iff f.name g.name)

batches_in-found :
    (i : ℕ) (x : Found) (fs : List SpoolFile)
    → In x (batches_in i fs)
    → (x.dir ≡ i) × (is_batch x.file ≡ true)
batches_in-found i x [] h = absurd h
batches_in-found i x (f ∷ fs) h = elim (Bool-cases (is_batch f)) [
  | inl e ↦
      elim (subst
        (λ b. In x (if b then record { dir = i; file = f } ∷ batches_in i fs else batches_in i fs))
        e h) [ inl p ↦ rw p (refl, e) | inr later ↦ batches_in-found i x fs later ]
  | inr e ↦ batches_in-found i x fs (
      subst
        (λ b. In x (if b then record { dir = i; file = f } ∷ batches_in i fs else batches_in i fs))
        e h)
]

batches_in-later :
    (i : ℕ) (x : Found) (f : SpoolFile) (fs : List SpoolFile)
    → same_name f x.file ≡ false
    → In x (batches_in i (f ∷ fs))
    → In x (batches_in i fs)
batches_in-later i x f fs differs h = elim (Bool-cases (is_batch f)) [
  | inl e ↦
      elim (subst
        (λ b. In x (if b then record { dir = i; file = f } ∷ batches_in i fs else batches_in i fs))
        e h) [
          | inl p ↦ cc (same_name_refl f, ap (λ (y : Found). same_name f y.file) p)
          | inr later ↦ later
        ]
  | inr e ↦
      subst
        (λ b. In x (if b then record { dir = i; file = f } ∷ batches_in i fs else batches_in i fs))
        e h
]

remove_name-count :
    (i : ℕ) (x : Found) (fs : List SpoolFile)
    → In x (batches_in i fs)
    → (x.dir ≡ i) × (suc (length (batches_in i (remove_name x.file fs))) ≡ length (batches_in i fs))
unfolding remove_name
remove_name-count i x [] h = absurd h
remove_name-count i x (f ∷ fs) h = elim (Bool-cases (same_name f x.file)) [
  | inl e ↦ ground (arith, batches_in-found i x (f ∷ fs) h, same_name-batch f x.file e)
  | inr e ↦ ground (arith, remove_name-count i x fs (batches_in-later i x f fs e h))
]

remove_at-count :
    (i : ℕ) (x : Found) (ds : List (List SpoolFile))
    → In x (candidates (λ _. true) i ds)
    → (k : ℕ) × (x.dir ≡ i + k)
      × (suc (length (candidates (λ _. true) i (remove_at k x.file ds)))
          ≡ length (candidates (λ _. true) i ds))
unfolding remove_at
remove_at-count i x [] h = absurd h
remove_at-count i x (d ∷ ds) h = elim (In-append x (batches_in i d) _ h) [
  | inl here ↦ (
    0,
    omega (arith, remove_name-count i x d here),
    omega (
      arith,
      remove_name-count i x d here,
      length-append (batches_in i d) (candidates (λ _. true) (suc i) ds),
      length-append (batches_in i (remove_name x.file d)) (candidates (λ _. true) (suc i) ds),
    ),
  )
  | inr later ↦
      let (k, at, count) = remove_at-count (suc i) x ds later in
      (
        suc k,
        omega arith,
        omega (
          arith,
          length-append (batches_in i d) (candidates (λ _. true) (suc i) ds),
          length-append (batches_in i d) (candidates (λ _. true) (suc i) (remove_at k x.file ds)),
        ),
      )
]

-- A round on directories that hold a batch: one batch fewer, one more sent.
round-ships :
    (cfg : ShipperConfig) (io : ShipIo) (s : Shipping) (x : Found)
    → Accepts cfg io
    → oldest_batch (λ _. true) s.dirs ≡ some x
    → (suc (waiting (round cfg io s).0.dirs) ≡ waiting s.dirs)
      × ((round cfg io s).0.stats.batches_sent ≡ s.stats.batches_sent + 1)
round-ships cfg io s x (listed, removed, accepts) e = rw step (shorter, refl)
  where
    left : List (List SpoolFile)
    left = remove_at x.dir x.file s.dirs

    s' : Shipping
    s' = record {
      dirs = left;
      stats = record (s.stats) { batches_sent = s.stats.batches_sent + 1 };
      backoff = 0;
    }

    step : (round cfg io s).0 ≡ s'
    step = unfold round in rw (listed, round) (rw (e, round) (rw (accepts x.file, removed)))

    found : In x (candidates (λ _. true) 0 s.dirs)
    found =
        (subst (IsOldest (candidates (λ _. true) 0 s.dirs)) e
          (oldest_batch-IsOldest (λ _. true) s.dirs)).0

    shorter : suc (waiting left) ≡ waiting s.dirs
    shorter =
        let (k, at, count) = remove_at-count 0 x s.dirs found in
        let place : x.dir ≡ k = omega arith in
        subst (λ j. suc (waiting (remove_at j x.file s.dirs)) ≡ waiting s.dirs) (sym place) count

round_idle :
    (cfg : ShipperConfig) (io : ShipIo) (s : Shipping)
    → io.listed ≡ (λ _. true)
    → oldest_batch (λ _. true) s.dirs ≡ none
    → ((round cfg io s).0 ≡ s) × (waiting s.dirs ≡ 0)
unfolding round
round_idle cfg io s listed e = (
  rw (listed, round) (rw (e, round)),
  ap length (
      subst (IsOldest (candidates (λ _. true) 0 s.dirs)) e
        (oldest_batch-IsOldest (λ _. true) s.dirs)),
)

-- While the server accepts every batch, the rounds ship the waiting batches one by one: after as
-- many rounds as there are batches, or more, none is left and each has been counted once.
pub rounds_drain :
    (cfg : ShipperConfig) (s : Shipping) (ios : List ShipIo)
    → All (Accepts cfg) ios
    → waiting s.dirs ≤ length ios
    → (waiting (rounds cfg s ios).dirs ≡ 0)
      × ((rounds cfg s ios).stats.batches_sent ≡ s.stats.batches_sent + waiting s.dirs)
unfolding rounds
rounds_drain cfg s [] h enough = (omega arith, omega arith)
rounds_drain cfg s (io ∷ ios) h enough = elim (Option-cases (oldest_batch (λ _. true) s.dirs)) [
  | inl e ↦
      let (same, idle) = round_idle cfg io s h.0.0 e in
      rw (same, rounds) (rounds_drain cfg s ios h.1 (omega arith))
  | inr (x, e) ↦
      let (fewer, more) = round-ships cfg io s x h.0 e in
      let (empty, count) = rounds_drain cfg (round cfg io s).0 ios h.1 (omega arith) in
      (empty, omega arith)
]

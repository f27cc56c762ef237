-- ===== src/Spool/Writer/Conserve.antt =====
-- src/spool/writer.rs, `writer_main`: no byte is lost, doubled or reordered while the disk works.
use wazabi_edr_agent.Prelude.{
  ℕ, ◌≡◌, refl, sym, subst, ◌∙◌, true, List, [], ◌∷◌, ◌++◌, Option, none, some, arith, leb,
  if◌then◌else◌, length, append-nil, append_assoc, Bool-cases, Option-cases, inl, inr,
}
use wazabi_edr_agent.Prelude.Bytes.{bytes_eq, bytes_eq_iff}
use wazabi_edr_agent.Spool.{SpoolConfig, SpoolStats}
use wazabi_edr_agent.Spool.File.{
  ActiveFile, write_line, create, write_line-counts, SpoolFile, batch_name, batch_suffix,
  staging_suffix,
}
use wazabi_edr_agent.Spool.Writer.{
  Writer, Received, line_received, timed_out, disconnected, RotateIo, rotate, on_line, step, run,
  cons_batch, bump_written, found, put, without, plain, seal_active_file,
}
use wazabi_edr_agent.Spool.Writer.Accounts.{step-running, run_running, run_stopped}

-- The bytes that wait in the active file.
abbrev pub pending : Option ActiveFile → List ℕ
pending none = []
pending (some f) = f.contents

-- No call of a rotation fails, and zstd gives back what it compressed.
abbrev pub Works : (List ℕ → List ℕ) → RotateIo → Type 0
Works decompress io =
    (io.fault ≡ none)
    × (io.reopened ≡ true)
    × ((level : ℕ) (bs : List ℕ) → decompress (io.compress level bs) ≡ bs)

abbrev pub AllWork : (List ℕ → List ℕ) → List Received → Type 0
AllWork d [] = Unit {0}
AllWork d (line_received now line failed io ∷ rs) = (failed ≡ none) × Works d io × AllWork d rs
AllWork d (timed_out now io ∷ rs) = Works d io × AllWork d rs
AllWork d (disconnected io ∷ rs) = Works d io × AllWork d rs

-- What the batches hold, decompressed, one behind the other.
abbrev pub opened : (List ℕ → List ℕ) → List (List ℕ) → List ℕ
opened d [] = []
opened d (b ∷ bs) = d b ++ opened d bs

abbrev opened_one : (List ℕ → List ℕ) → Option (List ℕ) → List ℕ
opened_one d none = []
opened_one d (some b) = d b

opened-cons_batch :
    (d : List ℕ → List ℕ) (b : Option (List ℕ)) (l : List (List ℕ))
    → opened d (cons_batch b l) ≡ opened_one d b ++ opened d l
opened-cons_batch d none l = refl
opened-cons_batch d (some b) l = refl

-- A file that was put into a directory is found under its name.
found-without :
    (name contents : List ℕ) (fs : List SpoolFile)
    → found name (without name fs ++ (plain name contents ∷ [])) ≡ some contents
unfolding found without plain
found-without name contents [] = ground (arith, (bytes_eq_iff name name).1 refl)
found-without name contents (f ∷ fs) = elim (Bool-cases (bytes_eq f.name name)) [
  | inl e ↦ rw e (found-without name contents fs)
  | inr e ↦ rw e (rw e (found-without name contents fs))
]

found-put :
    (name contents : List ℕ) (fs : List SpoolFile)
    → found name (put (plain name contents) fs) ≡ some contents
unfolding put plain
found-put name contents fs = found-without name contents fs

-- The bytes that a history delivers before the channel is disconnected.
abbrev pub delivered_bytes : List Received → List ℕ
delivered_bytes [] = []
delivered_bytes (line_received now line failed io ∷ rs) = line ++ delivered_bytes rs
delivered_bytes (timed_out now io ∷ rs) = delivered_bytes rs
delivered_bytes (disconnected io ∷ rs) = []

-- The active file is open, and counts its bytes.
abbrev pub Counted : Option ActiveFile → Type 0
Counted none = ⊥
Counted (some f) = f.bytes_written ≡ length f.contents

sealed-Works :
    (d : List ℕ → List ℕ) (cfg : SpoolConfig) (io : RotateIo) (f : ActiveFile) (stats : SpoolStats)
    (files : List SpoolFile)
    → Works d io
    → opened_one d (seal_active_file cfg io f stats files).batch ≡ f.contents
unfolding seal_active_file
sealed-Works d cfg io f stats files h =
    let name = batch_name io.now_secs stats.batches_sealed batch_suffix in
    let bytes = io.compress cfg.zstd_level f.contents in
    let staging = plain (batch_name io.now_secs stats.batches_sealed staging_suffix) f.contents in
    rw
      (
        h.0,
        found-put name bytes
            (if io.staging_removed then without staging.name files else put staging files),
      )
      (h.2 cfg.zstd_level f.contents)

rotate-Works :
    (d : List ℕ → List ℕ) (cfg : SpoolConfig) (io : RotateIo) (w : Writer) (f : ActiveFile)
    → Works d io
    → w.active ≡ some f
    → (opened_one d (rotate cfg io w).1 ≡ f.contents) × ((rotate cfg io w).0.active ≡ some create)
unfolding rotate
rotate-Works d cfg io w f h a = (rw a (sealed-Works d cfg io f w.stats w.files h), ground arith)

on_line-conserves :
    (d : List ℕ → List ℕ) (cfg : SpoolConfig) (w : Writer) (now : ℕ) (line : List ℕ) (io : RotateIo)
    (f : ActiveFile)
    → Works d io
    → w.active ≡ some f
    → f.bytes_written ≡ length f.contents
    → let (w', b) = on_line cfg now line none io w f in
      (f.contents ++ line ≡ opened_one d b ++ pending w'.active) × Counted w'.active
unfolding on_line create
on_line-conserves d cfg w now line io f h a c =
    elim (Bool-cases (leb cfg.max_bytes_per_file (write_line f line).bytes_written)) [
      | inl e ↦ rw e (rw (turned.0, turned.1) (written ∙ sym (append-nil _), refl))
      | inr e ↦ rw e (written, write_line-counts f line c)
    ]
  where
    w' : Writer
    w' = record w { active = some (write_line f line); stats = bump_written w.stats }

    turned :
        (opened_one d (rotate cfg io w').1 ≡ (write_line f line).contents)
        × ((rotate cfg io w').0.active ≡ some create)
    turned = rotate-Works d cfg io w' (write_line f line) h refl

    written : f.contents ++ line ≡ (write_line f line).contents
    written = unfold write_line in refl

line-conserves :
    (d : List ℕ → List ℕ) (cfg : SpoolConfig) (w : Writer) (now : ℕ) (line : List ℕ) (io : RotateIo)
    → Works d io
    → Counted w.active
    → let (w', b) = step cfg w (line_received now line none io) in
      (pending w.active ++ line ≡ opened_one d b ++ pending w'.active) × Counted w'.active
unfolding step
line-conserves d cfg w now line io h c = elim (Option-cases w.active) [
  | inl e ↦ absurd (subst Counted e c)
  | inr (f, e) ↦ rw (e, step) (on_line-conserves d cfg w now line io f h e (subst Counted e c))
]

timeout-conserves :
    (d : List ℕ → List ℕ) (cfg : SpoolConfig) (w : Writer) (now : ℕ) (io : RotateIo)
    → Works d io
    → Counted w.active
    → let (w', b) = step cfg w (timed_out now io) in
      (pending w.active ≡ opened_one d b ++ pending w'.active) × Counted w'.active
unfolding step create
timeout-conserves d cfg w now io h c = elim (Option-cases w.active) [
  | inl e ↦ absurd (subst Counted e c)
  | inr (f, e) ↦ ground (arith, rotate-Works d cfg io w f h e, append-nil f.contents)
]

empty_of_length : (xs : List ℕ) → length xs ≡ 0 → xs ≡ []
empty_of_length [] h = refl
empty_of_length (x ∷ xs) h = absurd (omega arith)

disconnect-conserves :
    (d : List ℕ → List ℕ) (cfg : SpoolConfig) (w : Writer) (io : RotateIo)
    → Works d io
    → Counted w.active
    → let (w', b) = step cfg w (disconnected io) in
      (pending w.active ≡ opened_one d b) × (w'.active ≡ none)
unfolding step
disconnect-conserves d cfg w io h c = elim (Option-cases w.active) [
  | inl e ↦ absurd (subst Counted e c)
  | inr (f, e) ↦
      ground (arith, empty_of_length f.contents, sealed-Works d cfg io f w.stats w.files h)
]

chain_two :
    (d : List ℕ → List ℕ) (b : Option (List ℕ)) (later : List (List ℕ)) (A D P Q : List ℕ)
    → A ≡ opened_one d b ++ P
    → P ++ D ≡ opened d later ++ Q
    → A ++ D ≡ opened d (cons_batch b later) ++ Q
chain_two d b later A D P Q p q = simp (opened-cons_batch d b later, p, append_assoc, q)

-- While every write and every rotation works and zstd gives back what it compressed, the batches
-- that the directory holds when they are sealed, decompressed one behind the other, and the active
-- file hold exactly the bytes delivered, in their order. After a disconnection the active file is
-- closed, so the batches hold them all.
pub run-conserves :
    (d : List ℕ → List ℕ) (cfg : SpoolConfig) (w : Writer) (rs : List Received)
    → w.running ≡ true
    → Counted w.active
    → AllWork d rs
    → let (w', batches) = run cfg w rs in
      pending w.active ++ delivered_bytes rs ≡ opened d batches ++ pending w'.active
run-conserves d cfg w [] h c a = unfold run in append-nil _
run-conserves d cfg w (line_received now line failed io ∷ rs) h c a =
    rw (run_running cfg w _ rs h) (
      sym (append_assoc (pending w.active) line (delivered_bytes rs))
      ∙ chain_two d (step cfg w (line_received now line failed io)).1 _ (pending w.active ++ line)
          (delivered_bytes rs) _ _ here.0
          (run-conserves d cfg (step cfg w (line_received now line failed io)).0 rs
            ((step-running cfg w now line failed io).0 ∙ h) here.1 a.2))
  where
    here :
        let (w', b) = step cfg w (line_received now line failed io) in
        (pending w.active ++ line ≡ opened_one d b ++ pending w'.active) × Counted w'.active
    here = rw a.0 (line-conserves d cfg w now line io a.1 c)
run-conserves d cfg w (timed_out now io ∷ rs) h c a = rw (run_running cfg w _ rs h) (
    chain_two d (step cfg w (timed_out now io)).1 _ (pending w.active) (delivered_bytes rs) _ _
      (timeout-conserves d cfg w now io a.0 c).0
      (run-conserves d cfg (step cfg w (timed_out now io)).0 rs
        ((step-running cfg w now [] none io).1 ∙ h) (timeout-conserves d cfg w now io a.0 c).1 a.1))
run-conserves d cfg w (disconnected io ∷ rs) h c a = rw (run_running cfg w _ rs h) (
    rw (run_stopped cfg (step cfg w (disconnected io)).0 rs ((step-running cfg w 0 [] none io).2)) (
      chain_two d (step cfg w (disconnected io)).1 [] (pending w.active) [] [] _
        (here.0 ∙ sym (append-nil _)) (rw here.1)))
  where
    here :
        let (w', b) = step cfg w (disconnected io) in
        (pending w.active ≡ opened_one d b) × (w'.active ≡ none)
    here = disconnect-conserves d cfg w io a.0 c

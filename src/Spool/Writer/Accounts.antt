-- ===== src/Spool/Writer/Accounts.antt =====
-- src/spool/writer.rs, `writer_main`: the counters, and the size of the active file.
use wazabi_edr_agent.Prelude.{
  ℕ, suc, ◌+◌, ◌<◌, ◌≤◌, ◌≡◌, refl, ap, ◌∙◌, leb, Option-cases, true, false, List, [], ◌∷◌, Option,
  none, some, arith, length, if◌then◌else◌, Bool-cases, inl, inr,
}
use wazabi_edr_agent.Spool.{SpoolConfig, SpoolStats}
use wazabi_edr_agent.Spool.File.{
  ActiveFile, SpoolFile, write_line, write_part, write_line-bounds, write_part-counts,
}
use wazabi_edr_agent.Spool.Writer.{
  Writer, Received, line_received, timed_out, disconnected, RotateIo, seal_active_file, rotate,
  on_line, step, run, cons_batch, bump_written,
}

-- What both counters of lines add up to.
abbrev pub accounted : SpoolStats → ℕ
accounted s = s.events_written + s.events_dropped

seal-accounted :
    (cfg : SpoolConfig) (io : RotateIo) (f : ActiveFile) (s : SpoolStats) (files : List SpoolFile)
    → let r = seal_active_file cfg io f s files in
      (r.stats.events_written ≡ s.events_written) × (r.stats.events_dropped ≡ s.events_dropped)
unfolding seal_active_file
seal-accounted cfg io f s files = ground arith

-- The lines that a history of the channel delivers, up to its disconnection.
abbrev pub delivered : List Received → ℕ
delivered [] = 0
delivered (line_received now line failed io ∷ rs) = suc (delivered rs)
delivered (timed_out now io ∷ rs) = delivered rs
delivered (disconnected io ∷ rs) = 0

rotate-accounted :
    (cfg : SpoolConfig) (io : RotateIo) (w : Writer)
    → accounted (rotate cfg io w).0.stats ≡ accounted w.stats
unfolding rotate
rotate-accounted cfg io w =
    ground (arith, λ (f : ActiveFile). seal-accounted cfg io f w.stats w.files)

abbrev is_line : Received → ℕ
is_line (line_received now line failed io) = 1
is_line (timed_out now io) = 0
is_line (disconnected io) = 0

step-accounted :
    (cfg : SpoolConfig) (w : Writer) (r : Received)
    → accounted (step cfg w r).0.stats ≡ accounted w.stats + is_line r
unfolding step
step-accounted cfg w (line_received now line none io) = ground arith
step-accounted cfg w (line_received now line (some part) io) = ground arith
step-accounted cfg w (timed_out now io) = ground arith
step-accounted cfg w (disconnected io) = ground arith

pub step-running :
    (cfg : SpoolConfig) (w : Writer) (now : ℕ) (line : List ℕ) (failed : Option (List ℕ))
    (io : RotateIo)
    → ((step cfg w (line_received now line failed io)).0.running ≡ w.running)
      × ((step cfg w (timed_out now io)).0.running ≡ w.running)
      × ((step cfg w (disconnected io)).0.running ≡ false)
unfolding step
step-running cfg w now line none io = (ground arith, ground arith, ground arith)
step-running cfg w now line (some part) io = (ground arith, ground arith, ground arith)

pub run_stopped :
    (cfg : SpoolConfig) (w : Writer) (rs : List Received)
    → w.running ≡ false
    → run cfg w rs ≡ (w, [])
unfolding run
run_stopped cfg w [] h = refl
run_stopped cfg w (r ∷ rs) h = rw (h, run)

pub run_running :
    (cfg : SpoolConfig) (w : Writer) (r : Received) (rs : List Received)
    → w.running ≡ true
    → let next = run cfg (step cfg w r).0 rs in
      run cfg w (r ∷ rs) ≡ (next.0, cons_batch (step cfg w r).1 next.1)
unfolding run
run_running cfg w r rs h =
    ap (λ b. if b then (next.0, cons_batch (step cfg w r).1 next.1) else (w, [])) h
  where
    next : Writer × List (List ℕ)
    next = run cfg (step cfg w r).0 rs

-- Of a writer that runs, every delivered line is counted once, as written or as dropped, whatever
-- fails on the way: writes, seals, reopening the active file.
pub run-accounted :
    (cfg : SpoolConfig) (w : Writer) (rs : List Received)
    → w.running ≡ true
    → accounted (run cfg w rs).0.stats ≡ accounted w.stats + delivered rs
run-accounted cfg w [] h = unfold run in omega arith
run-accounted cfg w (line_received now line failed io ∷ rs) h = rw (run_running cfg w _ rs h) (
    omega (
      arith,
      step-accounted cfg w (line_received now line failed io),
      run-accounted cfg (step cfg w (line_received now line failed io)).0 rs
          ((step-running cfg w now line failed io).0 ∙ h),
    ))
run-accounted cfg w (timed_out now io ∷ rs) h = rw (run_running cfg w _ rs h) (
    omega (
      arith,
      step-accounted cfg w (timed_out now io),
      run-accounted cfg (step cfg w (timed_out now io)).0 rs
          ((step-running cfg w now [] none io).1 ∙ h),
    ))
run-accounted cfg w (disconnected io ∷ rs) h = rw (run_running cfg w _ rs h) (
    rw (run_stopped cfg (step cfg w (disconnected io)).0 rs ((step-running cfg w 0 [] none io).2))
      (omega (arith, step-accounted cfg w (disconnected io))))

-- Between two rounds the active file has counted no more bytes than it holds, and is below the limit.
abbrev pub Fits : SpoolConfig → Option ActiveFile → Type 0
Fits cfg none = Unit {0}
Fits cfg (some f) =
    (f.bytes_written ≤ length f.contents) × (f.bytes_written < cfg.max_bytes_per_file)

rotate-Fits :
    (cfg : SpoolConfig) (io : RotateIo) (w : Writer)
    → 0 < cfg.max_bytes_per_file
    → Fits cfg (rotate cfg io w).0.active
unfolding rotate
rotate-Fits cfg io w p = ground arith

on_line-Fits :
    (cfg : SpoolConfig) (now : ℕ) (line : List ℕ) (failed : Option (List ℕ)) (io : RotateIo)
    (w : Writer) (f : ActiveFile)
    → 0 < cfg.max_bytes_per_file
    → w.active ≡ some f
    → Fits cfg (some f)
    → Fits cfg (on_line cfg now line failed io w f).0.active
unfolding on_line write_part
on_line-Fits cfg now line none io w f p a h =
    elim (Bool-cases (leb cfg.max_bytes_per_file (write_line f line).bytes_written)) [
      | inl e ↦ rw e (
          rotate-Fits cfg io
            (record w { active = some (write_line f line); stats = bump_written w.stats }) p)
      | inr e ↦ rw e (write_line-bounds f line h.0, ground arith)
    ]
on_line-Fits cfg now line (some part) io w f p a h = (write_part-counts f part h.0, h.1)

-- Every round, also one whose write fails after a part of the line, keeps the active file's count within what the
-- file holds and below the limit, if the limit is not zero.
pub step-Fits :
    (cfg : SpoolConfig) (w : Writer) (r : Received)
    → 0 < cfg.max_bytes_per_file
    → Fits cfg w.active
    → Fits cfg (step cfg w r).0.active
unfolding step
step-Fits cfg w (line_received now line failed io) p h = elim (Option-cases w.active) [
  | inl e ↦ rw (e, step) h
  | inr (f, e) ↦ rw (e, step) (on_line-Fits cfg now line failed io w f p e (rw e at h))
]
step-Fits cfg w (timed_out now io) p h = ground (arith, rotate-Fits cfg io w p)
step-Fits cfg w (disconnected io) p h = ground arith

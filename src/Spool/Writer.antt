-- ===== src/Spool/Writer.antt =====
-- src/spool/writer.rs: the writer thread, one step for each answer of `recv_timeout`.
-- What the operating system and zstd answer comes with the step.
pub mod Accounts
pub mod Conserve
use wazabi_edr_agent.Prelude.{
  ℕ, ◌+◌, ◌-◌, ◌≡◌, Bool, true, false, List, [], ◌∷◌, ◌++◌, Option, none, some, leb, ltb, length,
  if◌then◌else◌, max,
}
use wazabi_edr_agent.Prelude.Bytes.{bytes_eq}
use wazabi_edr_agent.Spool.{SpoolConfig, SpoolStats}
use wazabi_edr_agent.Spool.File.{
  ActiveFile, SpoolFile, create, write_line, write_part, batch_name, batch_suffix, staging_suffix,
}
use wazabi_edr_agent.Spool.Cap.{enforce_total_size_cap}

-- The call of `seal_active_file` that fails, in the order of the calls.
pub data SealFault : Type 0 where
  finish_failed rename_failed open_failed create_failed : SealFault
  -- The encoder, the copy or its end fails, with these bytes already in the batch.
  compress_failed : List ℕ → SealFault

-- The environment of a rotation: zstd, the clock and the directory.
pub record RotateIo : Type 0 where
  pub fault : Option SealFault
  pub compress : ℕ → List ℕ → List ℕ
  pub now_secs : ℕ
  pub listed : Bool
  pub removes : SpoolFile → Bool
  pub staging_removed : Bool
  pub reopened : Bool

pub record Writer : Type 0 where
  pub active : Option ActiveFile
  pub active_started_at : ℕ
  pub stats : SpoolStats
  pub files : List SpoolFile
  pub running : Bool

-- What `seal_active_file` leaves: counters, directory, and, if it returned `Ok`, the bytes that stood
-- in the directory under the name of the new batch before the eviction.
pub record Sealed : Type 0 where
  pub stats : SpoolStats
  pub files : List SpoolFile
  pub batch : Option (List ℕ)

plain : List ℕ → List ℕ → SpoolFile
plain name contents = record {
  name = name;
  is_utf8 = true;
  has_metadata = true;
  contents = contents;
}

without : List ℕ → List SpoolFile → List SpoolFile
without name [] = []
without name (f ∷ fs) = if bytes_eq f.name name then without name fs else f ∷ without name fs

-- `fs::rename` and `File::create` replace what has the name.
unfoldable pub put : SpoolFile → List SpoolFile → List SpoolFile
unfolding without
put f fs = without f.name fs ++ (f ∷ [])

-- What the file of a name holds; of nothing there is no batch.
unfoldable pub found : List ℕ → List SpoolFile → Option (List ℕ)
found name [] = none
found name (f ∷ fs) = if bytes_eq f.name name then some f.contents else found name fs

length_of : List SpoolFile → ℕ
length_of fs = length fs

unfoldable pub seal_active_file :
    SpoolConfig → RotateIo → ActiveFile → SpoolStats → List SpoolFile → Sealed
unfolding plain length_of put found
seal_active_file cfg io f stats files =
    let seq = stats.batches_sealed in
    let bumped : SpoolStats = record stats { batches_sealed = seq + 1 } in
    let staging = plain (batch_name io.now_secs seq staging_suffix) f.contents in
    let final : List ℕ → SpoolFile = plain (batch_name io.now_secs seq batch_suffix) in
    let stored =
      put (final (io.compress cfg.zstd_level f.contents))
        (if io.staging_removed then without staging.name files else put staging files) in
    let capped = enforce_total_size_cap cfg.max_total_bytes io.listed io.removes stored in
    elim io.fault [
      | some finish_failed ↦ record { stats = stats; files = files; batch = none }
      | some rename_failed ↦ record { stats = bumped; files = files; batch = none }
      | some open_failed ↦ record { stats = bumped; files = put staging files; batch = none }
      | some create_failed ↦ record { stats = bumped; files = put staging files; batch = none }
      | some (compress_failed partial) ↦ record {
        stats = bumped;
        files = put (final partial) (put staging files);
        batch = none;
      }
      | none ↦ record {
        stats = record bumped { batches_evicted = stats.batches_evicted + length_of capped.1 };
        files = capped.0;
        batch = found (batch_name io.now_secs seq batch_suffix) stored;
      }
    ]

-- `rotate`: after a failed seal the active file is removed; then a new one is opened.
unfoldable pub rotate : SpoolConfig → RotateIo → Writer → Writer × Option (List ℕ)
unfolding seal_active_file create
rotate cfg io w =
    let fresh = if io.reopened then some create else none in
    elim w.active [
      | none ↦ (record w { active = fresh }, none)
      | some f ↦
          let sealed = seal_active_file cfg io f w.stats w.files in
          (record w { active = fresh; stats = sealed.stats; files = sealed.files }, sealed.batch)
    ]

-- The answers of `recv_timeout`, with the time at which they come (`Instant::now` afterwards); a line with the
-- part of it that was stored where its write fails, and nothing where the write works.
pub data Received : Type 0 where
  line_received : ℕ → List ℕ → Option (List ℕ) → RotateIo → Received
  timed_out : ℕ → RotateIo → Received
  disconnected : RotateIo → Received

bump_dropped : SpoolStats → SpoolStats
bump_dropped s = record s { events_dropped = s.events_dropped + 1 }

bump_written : SpoolStats → SpoolStats
bump_written s = record s { events_written = s.events_written + 1 }

-- The `Ok(line)` arm, where the active file is open.
on_line :
    SpoolConfig
    → ℕ
    → List ℕ
    → Option (List ℕ)
    → RotateIo
    → Writer
    → ActiveFile
    → Writer × Option (List ℕ)
unfolding rotate write_line write_part bump_dropped bump_written
on_line cfg now line none io w f =
    let f' = write_line f line in
    let w' : Writer = record w { active = some f'; stats = bump_written w.stats } in
    let turned = rotate cfg io w' in
    if leb cfg.max_bytes_per_file f'.bytes_written
    then (record (turned.0) { active_started_at = now }, turned.1)
    else (w', none)
on_line cfg now line (some part) io w f =
    (record w { active = some (write_part f part); stats = bump_dropped w.stats }, none)

-- The `Disconnected` arm.
on_disconnected : SpoolConfig → RotateIo → Writer → Writer × Option (List ℕ)
unfolding seal_active_file
on_disconnected cfg io w = elim w.active [
  | none ↦ (record w { running = false }, none)
  | some f ↦
      let sealed = seal_active_file cfg io f w.stats w.files in
      if ltb 0 f.bytes_written
      then (
        record w { active = none; running = false; stats = sealed.stats; files = sealed.files },
        sealed.batch,
      )
      else (record w { active = none; running = false }, none)
]

-- One round of the loop of `writer_main`. The second part is the batch that the round sealed.
unfoldable pub step : SpoolConfig → Writer → Received → Writer × Option (List ℕ)
unfolding on_line on_disconnected rotate bump_dropped
step cfg w (line_received now line failed io) = elim w.active [
  | none ↦ (record w { stats = bump_dropped w.stats }, none)
  | some f ↦ on_line cfg now line failed io w f
]
step cfg w (timed_out now io) = elim w.active [
  | none ↦ (record w { active_started_at = now }, none)
  | some f ↦
      let turned = rotate cfg io w in
      if ltb 0 f.bytes_written
      then (record (turned.0) { active_started_at = now }, turned.1)
      else (record w { active_started_at = now }, none)
]
step cfg w (disconnected io) = on_disconnected cfg io w

abbrev pub cons_batch : Option (List ℕ) → List (List ℕ) → List (List ℕ)
cons_batch none later = later
cons_batch (some b) later = b ∷ later

-- The loop, until the channel is disconnected; what its batches hold, in the order of sealing.
unfoldable pub run : SpoolConfig → Writer → List Received → Writer × List (List ℕ)
unfolding step
run cfg w [] = (w, [])
run cfg w (r ∷ rs) =
    let (w', batch) = step cfg w r in
    let (w'', later) = run cfg w' rs in if w.running then (w'', cons_batch batch later) else (w, [])

-- `writer_main` up to its loop: no thread without its directory and its active file.
unfoldable pub start : Bool → Bool → ℕ → List SpoolFile → Writer
unfolding create
start dir_created file_created now files = record {
  active = if dir_created then (if file_created then some create else none) else none;
  active_started_at = now;
  stats = record {
    events_written = 0;
    events_dropped = 0;
    batches_sealed = 0;
    batches_evicted = 0;
  };
  files = files;
  running = if dir_created then file_created else false;
}

-- Milliseconds: `MIN_RECV_TIMEOUT`, and the timeout of a round.
abbrev pub min_recv_timeout : ℕ
min_recv_timeout = 100

unfoldable pub recv_timeout : SpoolConfig → ℕ → ℕ → ℕ
recv_timeout cfg started now = max (cfg.max_age - (now - started)) min_recv_timeout

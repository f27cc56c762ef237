-- ===== src/Spool.antt =====
-- src/spool: the bounded channel into the writer thread, and the types of the spool.
pub mod File
pub mod Cap
pub mod Writer
use wazabi_edr_agent.Prelude.{
  ℕ, zero, suc, ◌+◌, ◌≤◌, ◌<◌, ◌≡◌, Bool, true, false, List, [], ◌∷◌, ◌++◌, Option, none, some,
  arith, ltb, length, if◌then◌else◌, ◌&&◌,
}

-- One NDJSON line, with its trailing newline.
abbrev pub Line : Type 0
Line = List ℕ

-- What `SpoolConfig` tunes; the directory itself is the `List SpoolFile` that the operations pass on.
pub record SpoolConfig : Type 0 where
  pub max_bytes_per_file : ℕ
  pub max_age : ℕ  -- milliseconds
  pub max_total_bytes : ℕ
  pub channel_capacity : ℕ
  pub zstd_level : ℕ

-- The counters are atomics of 64 bits, left unbounded.
pub record SpoolStats : Type 0 where
  pub events_written : ℕ
  pub events_dropped : ℕ
  pub batches_sealed : ℕ
  pub batches_evicted : ℕ

-- std's `sync_channel`: a queue of at most `capacity` lines, while its receiver lives.
pub record Channel : Type 0 where
  pub queue : List Line
  pub capacity : ℕ
  pub receiving : Bool

-- The producer's end: the channel and the shared counter of dropped events.
pub record SpoolSubmitter : Type 0 where
  pub channel : Channel
  pub events_dropped : ℕ

-- `SyncSender::try_send`: `none` stands for both `Full` and `Disconnected`.
unfoldable pub try_send : Channel → Line → Option Channel
try_send c line =
    if c.receiving && ltb (length c.queue) c.capacity
    then some (record c { queue = c.queue ++ (line ∷ []) })
    else none

unfoldable pub try_submit : SpoolSubmitter → Line → SpoolSubmitter × Bool
unfolding try_send
try_submit s line = elim (try_send s.channel line) [
  | some c ↦ (record s { channel = c }, true)
  | none ↦ (record s { events_dropped = s.events_dropped + 1 }, false)
]

unfoldable pub submit_all : SpoolSubmitter → List Line → SpoolSubmitter
submit_all s [] = s
submit_all s (line ∷ lines) = submit_all (try_submit s line).0 lines

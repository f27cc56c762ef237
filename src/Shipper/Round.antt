-- ===== src/Shipper/Round.antt =====
-- src/shipper/run.rs, `shipper_main`: one round of the loop, and what it does to the directories.
use wazabi_edr_agent.Prelude.{
  ℕ, zero, suc, ◌+◌, ◌≡◌, ◌≢◌, ◌≤◌, ◌<◌, Bool, true, false, ◌&&◌, List, [], ◌∷◌, none, some, arith,
  if◌then◌else◌,
}
use wazabi_edr_agent.Prelude.Bytes.{bytes_eq}
use wazabi_edr_agent.Spool.File.{SpoolFile}
use wazabi_edr_agent.Shipper.{
  Found, oldest_batch, ShipperConfig, ShipIo, Outcome, sent, rejected, retry, send_one, request,
  response, outcome_of,
}
use wazabi_edr_agent.Shipper.Backoff.{next_backoff}

pub record ShipperStats : Type 0 where
  pub batches_sent : ℕ
  pub batches_rejected : ℕ
  pub send_retries : ℕ

-- The locals of `shipper_main`, with the directories that it watches.
pub record Shipping : Type 0 where
  pub dirs : List (List SpoolFile)
  pub stats : ShipperStats
  pub backoff : ℕ

same_bool : Bool → Bool → Bool
same_bool true b = b
same_bool false true = false
same_bool false false = true

-- A file is removed by its name; whether a name is UTF-8 is part of it.
unfoldable pub same_name : SpoolFile → SpoolFile → Bool
unfolding same_bool
same_name f g = bytes_eq f.name g.name && same_bool f.is_utf8 g.is_utf8

unfoldable pub remove_name : SpoolFile → List SpoolFile → List SpoolFile
unfolding same_name
remove_name g [] = []
remove_name g (f ∷ fs) = if same_name f g then fs else f ∷ remove_name g fs

-- `fs::remove_file` of the path that `oldest_batch` returned.
unfoldable pub remove_at : ℕ → SpoolFile → List (List SpoolFile) → List (List SpoolFile)
remove_at i g [] = []
remove_at zero g (d ∷ ds) = remove_name g d ∷ ds
remove_at (suc i) g (d ∷ ds) = d ∷ remove_at i g ds

-- What a round does with an outcome; the second part is how long it sleeps.
apply_outcome : ShipperConfig → ShipIo → Shipping → Found → Outcome → Shipping × ℕ
unfolding remove_at
apply_outcome cfg io s x sent = (
  record s {
    dirs = if io.removed then remove_at x.dir x.file s.dirs else s.dirs;
    stats = record (s.stats) { batches_sent = s.stats.batches_sent + 1 };
    backoff = 0;
  },
  0,
)
apply_outcome cfg io s x (rejected status) = (
  record s { stats = record (s.stats) { batches_rejected = s.stats.batches_rejected + 1 } },
  cfg.poll_interval,
)
apply_outcome cfg io s x retry =
    let wait = next_backoff io.now_nanos s.backoff cfg.max_backoff in
    (
      record s {
        stats = record (s.stats) { send_retries = s.stats.send_retries + 1 };
        backoff = wait;
      },
      wait,
    )

unfoldable pub round : ShipperConfig → ShipIo → Shipping → Shipping × ℕ
unfolding apply_outcome
round cfg io s = elim (oldest_batch io.listed s.dirs) [
  | none ↦ (s, cfg.poll_interval)
  | some x ↦ apply_outcome cfg io s x (send_one cfg io x.file)
]

unfoldable pub rounds : ShipperConfig → Shipping → List ShipIo → Shipping
rounds cfg s [] = s
rounds cfg s (io ∷ ios) = rounds cfg (round cfg io s).0 ios

-- A round changes the directories only by removing the oldest batch, and only after that batch was
-- read and decompressed and the server answered the request that carries it with a status 2xx.
pub round_removes_acknowledged :
    (cfg : ShipperConfig) (io : ShipIo) (s : Shipping)
    → (round cfg io s).0.dirs ≢ s.dirs
    → (x : Found) × (raw body : List ℕ) × (status : ℕ) × (oldest_batch io.listed s.dirs ≡ some x)
      × (io.read x.file ≡ some raw)
      × (io.decode_all raw ≡ some body)
      × (io.post (request cfg body) ≡ response status)
      × (200 ≤ status)
      × (status < 300)
      × ((round cfg io s).0.dirs ≡ remove_at x.dir x.file s.dirs)
unfolding round send_one outcome_of
round_removes_acknowledged cfg io s changed = ground arith

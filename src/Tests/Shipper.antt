-- ===== src/Tests/Shipper.antt =====
-- Examples for the shipper: two batches in two directories.
use wazabi_edr_agent.Prelude.{
  ℕ, ◌+◌, ◌/◌, ◌≤◌, ◌<◌, ◌≡◌, ◌≢◌, refl, ap, min, true, List, [], ◌∷◌, none, some, String, arith,
  length,
}
use wazabi_edr_agent.Prelude.Bytes.{codes}
use wazabi_edr_agent.Spool.File.{SpoolFile, is_batch}
use wazabi_edr_agent.Shipper.{
  Found, oldest_batch, ShipperConfig, ShipIo, Answer, response, request, send_one, sent, outcome_of,
}
use wazabi_edr_agent.Shipper.Oldest.{candidates, IsOldest, oldest_batch-IsOldest}
use wazabi_edr_agent.Shipper.Backoff.{base_of, next_backoff, next_backoff_range}
use wazabi_edr_agent.Shipper.Round.{
  Shipping, round, rounds, remove_at, remove_name, round_removes_acknowledged,
}
use wazabi_edr_agent.Shipper.Drain.{waiting, rounds_drain}

abbrev cfg : ShipperConfig
cfg = record { token = "t"; tenant_id = none; tags = []; poll_interval = 5000; max_backoff = 60000 }

abbrev batch : String → SpoolFile
batch name = record { name = codes name; is_utf8 = true; has_metadata = true; contents = 1 ∷ [] }

abbrev shipping : Shipping
shipping = record {
  dirs = (batch "batch-2-0.zst" ∷ []) ∷ (batch "batch-1-0.zst" ∷ []) ∷ [];
  stats = record { batches_sent = 0; batches_rejected = 0; send_retries = 0 };
  backoff = 0;
}

abbrev answers : Answer → ShipIo
answers a = record {
  listed = λ i. true;
  read = λ f. some f.contents;
  decode_all = λ bs. some bs;
  post = λ r. a;
  removed = true;
  now_nanos = 12345;
}

abbrev first : Found
first = record { dir = 1; file = batch "batch-1-0.zst" }

oldest_batch-IsOldest_example :
    IsOldest (candidates (λ i. true) 0 shipping.dirs) (oldest_batch (λ i. true) shipping.dirs)
oldest_batch-IsOldest_example = oldest_batch-IsOldest (λ i. true) shipping.dirs

abbrev file_count : List (List SpoolFile) → ℕ
file_count [] = 0
file_count (d ∷ ds) = length d + file_count ds

round-removes_one : file_count ((round cfg (answers (response 200)) shipping).0.dirs) ≡ 1
unfolding round send_one outcome_of request oldest_batch is_batch remove_at remove_name
round-removes_one = refl

round-changes : (round cfg (answers (response 200)) shipping).0.dirs ≢ shipping.dirs
round-changes h = absurd (omega (arith, round-removes_one, ap file_count h))

round_removes_acknowledged_example :
    (x : Found) × (raw body : List ℕ) × (status : ℕ) × (oldest_batch (λ i. true) shipping.dirs
      ≡ some x)
    × (some x.file.contents ≡ some raw)
    × (some raw ≡ some body)
    × (response 200 ≡ response status)
    × (200 ≤ status)
    × (status < 300)
    × ((round cfg (answers (response 200)) shipping).0.dirs ≡ remove_at x.dir x.file shipping.dirs)
round_removes_acknowledged_example =
    round_removes_acknowledged cfg (answers (response 200)) shipping round-changes

accepted : (f : SpoolFile) → send_one cfg (answers (response 200)) f ≡ sent
unfolding send_one outcome_of
accepted f = refl

rounds_drain_example :
    let ios = answers (response 200) ∷ answers (response 200) ∷ [] in
    (waiting (rounds cfg shipping ios).dirs ≡ 0)
    × ((rounds cfg shipping ios).stats.batches_sent
        ≡ shipping.stats.batches_sent + waiting shipping.dirs)
unfolding is_batch
rounds_drain_example =
    rounds_drain cfg shipping (answers (response 200) ∷ answers (response 200) ∷ [])
      ((refl, refl, accepted), ((refl, refl, accepted), tt)) (omega arith)

next_backoff_range_example :
    let next = next_backoff 12345 2000 60000 in
    (1 ≤ next)
    × (next ≤ 60000)
    × (min (base_of 2000 60000) 60000 ≤ next + base_of 2000 60000 / 4)
    × (next ≤ base_of 2000 60000 + base_of 2000 60000 / 4)
next_backoff_range_example = next_backoff_range 12345 2000 60000 base (omega arith)
  where
    base : 4 ≤ base_of 2000 60000
    base = unfold base_of in omega arith

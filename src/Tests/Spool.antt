-- ===== src/Tests/Spool.antt =====
-- Examples for the spool: two lines, a rotation by size, a full budget.
use wazabi_edr_agent.Prelude.{
  ℕ, ◌+◌, ◌≤◌, ◌≡◌, refl, true, false, List, [], ◌∷◌, ◌++◌, none, some, String, arith, All,
}
use wazabi_edr_agent.Prelude.Bytes.{codes}
use wazabi_edr_agent.Prelude.Order.{total_by, lex_leb}
use wazabi_edr_agent.Spool.{SpoolConfig}
use wazabi_edr_agent.Spool.File.{SpoolFile, is_batch}
use wazabi_edr_agent.Spool.Cap.{size, batches, enforce_total_size_cap}
use wazabi_edr_agent.Spool.Cap.Budget.{bytes_of, HasLength, enforce_total_size_cap-fits}
use wazabi_edr_agent.Spool.Cap.Oldest.{LastNeeded, enforce_total_size_cap-oldest_first}
use wazabi_edr_agent.Spool.Writer.{
  RotateIo, Writer, Received, line_received, disconnected, finish_failed, step, run,
}
use wazabi_edr_agent.Spool.Writer.Accounts.{accounted, delivered, run-accounted, Fits, step-Fits}
use wazabi_edr_agent.Spool.Writer.Conserve.{pending, delivered_bytes, opened, Works, run-conserves}

abbrev cfg : SpoolConfig
cfg = record {
  max_bytes_per_file = 3;
  max_age = 60000;
  max_total_bytes = 4;
  channel_capacity = 8;
  zstd_level = 3;
}

abbrev works : ℕ → RotateIo
works now = record {
  fault = none;
  compress = λ level bs. 40 ∷ bs;
  now_secs = now;
  listed = true;
  removes = λ f. true;
  staging_removed = true;
  reopened = true;
}

abbrev unmarked : List ℕ → List ℕ
unmarked [] = []
unmarked (b ∷ bs) = bs

works-Works : (now : ℕ) → Works unmarked (works now)
works-Works now = (refl, refl, λ level bs. refl)

abbrev fails : RotateIo
fails = record (works 7) { fault = some finish_failed; reopened = false }

abbrev writer : Writer
writer = record {
  active = some (record { contents = []; bytes_written = 0 });
  active_started_at = 0;
  stats = record {
    events_written = 0;
    events_dropped = 0;
    batches_sealed = 0;
    batches_evicted = 0;
  };
  files = [];
  running = true;
}

abbrev history : List Received
history =
    line_received 1 (97 ∷ 10 ∷ []) none (works 1)
    ∷ line_received 2 (98 ∷ 10 ∷ []) none (works 2)
    ∷ line_received 3 (99 ∷ 10 ∷ []) none (works 3)
    ∷ disconnected (works 4)
    ∷ []

abbrev troubled : List Received
troubled =
    line_received 1 (97 ∷ 10 ∷ []) (some (97 ∷ [])) (works 1)
    ∷ line_received 2 (98 ∷ 99 ∷ 10 ∷ []) none fails
    ∷ line_received 3 (99 ∷ 10 ∷ []) none (works 3)
    ∷ []

run-conserves_example :
    let (w', batches) = run cfg writer history in
    pending writer.active ++ delivered_bytes history ≡ opened unmarked batches ++ pending w'.active
run-conserves_example =
    run-conserves unmarked cfg writer history refl refl
      (refl, works-Works 1, (refl, works-Works 2, (refl, works-Works 3, (works-Works 4, tt))))

run-accounted_example :
    accounted (run cfg writer troubled).0.stats ≡ accounted writer.stats + delivered troubled
run-accounted_example = run-accounted cfg writer troubled refl

step-Fits_example :
    Fits cfg (step cfg writer (line_received 1 (97 ∷ 98 ∷ 10 ∷ []) none (works 1))).0.active
step-Fits_example =
    step-Fits cfg writer (line_received 1 (97 ∷ 98 ∷ 10 ∷ []) none (works 1)) (omega arith)
      (omega arith, omega arith)

abbrev batch : String → List ℕ → SpoolFile
batch name contents = record {
  name = codes name;
  is_utf8 = true;
  has_metadata = true;
  contents = contents;
}

abbrev full_directory : List SpoolFile
full_directory = batch "batch-9-2.zst" (1 ∷ 2 ∷ []) ∷ batch "batch-9-1.zst" (3 ∷ 4 ∷ 5 ∷ []) ∷ []

full_directory-HasLength : All HasLength (batches full_directory)
unfolding batches is_batch
full_directory-HasLength = (refl, (refl, tt))

enforce_total_size_cap-fits_example :
    total_by bytes_of (batches (enforce_total_size_cap 4 true (λ f. true) full_directory).0) ≤ 4
enforce_total_size_cap-fits_example =
    enforce_total_size_cap-fits 4 (λ f. true) full_directory (λ f. refl) full_directory-HasLength

enforce_total_size_cap-oldest_first_example :
    let (after, gone) = enforce_total_size_cap 4 true (λ f. true) full_directory in
    All (λ f. All (λ g. lex_leb f.name g.name ≡ true) (batches after)) gone
    × LastNeeded 4 (total_by size (batches after)) gone
enforce_total_size_cap-oldest_first_example =
    enforce_total_size_cap-oldest_first 4 (λ f. true) full_directory (λ f. refl)

-- ===== src/Shipper.antt =====
-- src/shipper/run.rs: the thread that uploads sealed batches, oldest first.
-- HTTP, zstd and the file system answer through `ShipIo`; times are in milliseconds.
pub mod Oldest
pub mod Backoff
pub mod Round
pub mod Drain
use wazabi_edr_agent.Prelude.{
  ℕ, zero, suc, ◌+◌, ◌≡◌, Bool, true, false, List, [], ◌∷◌, ◌++◌, Option, none, some, leb, ltb,
  ◌==◌, ◌&&◌, ◌||◌, if◌then◌else◌, String,
}
use wazabi_edr_agent.Prelude.Bytes.{bytes_eq}
use wazabi_edr_agent.Prelude.Order.{lex_leb}
use wazabi_edr_agent.Spool.File.{SpoolFile, is_batch}

-- A batch with the index of its directory: the path that `oldest_batch` returns.
pub record Found : Type 0 where
  pub dir : ℕ
  pub file : SpoolFile

-- The `match &best` of `oldest_batch`: a tie keeps the one found first.
unfoldable pub consider : Option Found → Found → Option Found
consider none x = some x
consider (some b) x = if lex_leb b.file.name x.file.name then some b else some x

scan_dir : ℕ → Option Found → List SpoolFile → Option Found
unfolding consider
scan_dir i best [] = best
scan_dir i best (f ∷ fs) =
    scan_dir i (if is_batch f then consider best (record { dir = i; file = f }) else best) fs

-- `listed i` is whether `read_dir` of the directory `i` succeeds.
scan_dirs : (ℕ → Bool) → ℕ → Option Found → List (List SpoolFile) → Option Found
unfolding scan_dir
scan_dirs listed i best [] = best
scan_dirs listed i best (d ∷ ds) =
    scan_dirs listed (suc i) (if listed i then scan_dir i best d else best) ds

unfoldable pub oldest_batch : (ℕ → Bool) → List (List SpoolFile) → Option Found
unfolding scan_dirs
oldest_batch listed dirs = scan_dirs listed 0 none dirs

pub record ShipperConfig : Type 0 where
  pub token : String
  pub tenant_id : Option String
  pub tags : List (List ℕ × String)
  pub poll_interval : ℕ
  pub max_backoff : ℕ

-- The request of one upload: the headers that vary, and the body.
pub record Request : Type 0 where
  pub bearer : String
  pub tenant : Option String
  pub tags : List (List ℕ × String)
  pub body : List ℕ

-- What `ureq` answers: a response, an error status, or a transport error.
pub data Answer : Type 0 where
  response : ℕ → Answer
  status_error : ℕ → Answer
  transport_error : Answer

pub data Outcome : Type 0 where
  sent : Outcome
  rejected : ℕ → Outcome
  retry : Outcome

is_alphanumeric : ℕ → Bool
is_alphanumeric b =
    (leb b'0' b && leb b b'9') || ((leb b'A' b && leb b b'Z') || (leb b'a' b && leb b b'z'))

is_safe_key : List ℕ → Bool
unfolding is_alphanumeric
is_safe_key [] = true
is_safe_key (b ∷ k) = (is_alphanumeric b || (b == b'-' || b == b'_')) && is_safe_key k

-- A tag whose key is no safe header name is left out.
safe_tags : List (List ℕ × String) → List (List ℕ × String)
unfolding is_safe_key
safe_tags [] = []
safe_tags ((k, v) ∷ tags) = if is_safe_key k then (k, v) ∷ safe_tags tags else safe_tags tags

-- The environment of one round of the loop.
pub record ShipIo : Type 0 where
  pub listed : ℕ → Bool
  pub read : SpoolFile → Option (List ℕ)
  pub decode_all : List ℕ → Option (List ℕ)
  pub post : Request → Answer
  pub removed : Bool
  pub now_nanos : ℕ

unfoldable pub request : ShipperConfig → List ℕ → Request
unfolding safe_tags
request cfg body = record {
  bearer = cfg.token;
  tenant = cfg.tenant_id;
  tags = safe_tags cfg.tags;
  body = body;
}

unfoldable pub outcome_of : Answer → Outcome
outcome_of (response status) =
    if leb 200 status && ltb status 300
    then sent
    else if leb 400 status && ltb status 500
    then rejected status
    else retry
outcome_of (status_error status) =
    if leb 400 status && ltb status 500 then rejected status else retry
outcome_of transport_error = retry

-- A batch that cannot be read is tried again, one that is no zstd counts as rejected.
unfoldable pub send_one : ShipperConfig → ShipIo → SpoolFile → Outcome
unfolding request outcome_of
send_one cfg io f = elim (io.read f) [
  | none ↦ retry
  | some raw ↦ elim (io.decode_all raw) [
    | none ↦ rejected 0
    | some body ↦ outcome_of (io.post (request cfg body))
  ]
]

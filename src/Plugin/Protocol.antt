-- ===== src/Plugin/Protocol.antt =====
-- src/plugin/protocol.rs: frames of a length and a JSON document. serde is a parameter; the pipe
-- delivers chunks, interruptions and failures in the order of a list, and is closed at its end.
pub mod Fill
pub mod Frames
use wazabi_edr_agent.Prelude.{
  ℕ, zero, suc, ◌+◌, ◌-◌, ◌*◌, ◌≡◌, Bool, true, false, List, [], ◌∷◌, ◌++◌, Option, none, some,
  String, leb, ltb, ◌==◌, if◌then◌else◌, length, take, drop,
}
use wazabi_edr_agent.Prelude.Bytes.{u32_to_le_bytes, u32_from_le_bytes}

abbrev pub schema_version : ℕ
schema_version = 1

abbrev pub max_frame_bytes : ℕ
max_frame_bytes = 1048576

pub record Hello : Type 0 where
  pub plugin_id : String
  pub plugin_version : String
  pub schema_version : ℕ

-- `payload` is the document that the plugin sent, of a type of the reader's.
pub record Event (J : Type 0) : Type 0 where
  pub seq : ℕ
  pub ts_unix_ns : ℕ
  pub kind : String
  pub payload : J

pub data ClientFrame (J : Type 0) : Type 0 where
  hello : Hello → ClientFrame J
  event : Event J → ClientFrame J
  heartbeat : ℕ → ClientFrame J
  goodbye : ClientFrame J

pub data RejectReason : Type 0 where
  bad_handshake schema_mismatch unknown_plugin_id path_mismatch hash_mismatch : RejectReason
  signature_invalid revoked too_many_sessions : RejectReason

unfoldable pub as_str : RejectReason → String
as_str bad_handshake = "bad_handshake"
as_str schema_mismatch = "schema_mismatch"
as_str unknown_plugin_id = "unknown_plugin_id"
as_str path_mismatch = "path_mismatch"
as_str hash_mismatch = "hash_mismatch"
as_str signature_invalid = "signature_invalid"
as_str revoked = "revoked"
as_str too_many_sessions = "too_many_sessions"

pub data FrameError : Type 0 where
  io json truncated : FrameError
  too_large : ℕ → FrameError

pub data Result (A : Type 0) : Type 0 where
  ok : A → Result A
  err : FrameError → Result A

-- One delivery of the pipe. An empty chunk is an `Ok(0)`, as the end of the stream is.
pub data Delivery : Type 0 where
  chunk : List ℕ → Delivery
  interrupted failed : Delivery

abbrev pub Stream : Type 0
Stream = List Delivery

-- How a loop that fills a buffer ends: full, at the end of the stream, or on an error.
pub data Filled : Type 0 where
  full : List ℕ → Stream → Filled
  ended : List ℕ → Stream → Filled
  broken : Stream → Filled

-- The loop of `read_exact_or_truncated`, and that over the length in `read_frame`.
unfoldable pub fill : ℕ → List ℕ → Stream → Filled
fill zero got s = full got s
fill (suc k) got [] = ended got []
fill (suc k) got (interrupted ∷ s) = fill (suc k) got s
fill (suc k) got (failed ∷ s) = broken s
fill (suc k) got (chunk [] ∷ s) = ended got s
fill (suc k) got (chunk (b ∷ bs) ∷ s) =
    let more = fill (suc k - length (b ∷ bs)) (got ++ (b ∷ bs)) s in
    if leb (length (b ∷ bs)) (suc k)
    then more
    else full (got ++ take (suc k) (b ∷ bs)) (chunk (drop (suc k) (b ∷ bs)) ∷ s)

-- serde's reader of a body.
module _ {F : Type 0} (from_slice : List ℕ → Option F) where
  unfoldable pub parse_body : List ℕ → Result (Option F)
  parse_body body = elim (from_slice body) [ none ↦ err json | some f ↦ ok (some f) ]

  unfoldable pub read_body : Filled → Result (Option F) × Stream
  unfolding parse_body
  read_body (full body s) = (parse_body body, s)
  read_body (ended got s) = (err truncated, s)
  read_body (broken s) = (err io, s)

  unfoldable pub read_length : Filled → Result (Option F) × Stream
  unfolding read_body
  read_length (full len_buf s) =
      let len = u32_from_le_bytes len_buf in
      if ltb max_frame_bytes len then (err (too_large len), s) else read_body (fill len [] s)
  read_length (ended [] s) = (ok none, s)
  read_length (ended (b ∷ bs) s) = (err truncated, s)
  read_length (broken s) = (err io, s)

  unfoldable pub read_frame : Stream → Result (Option F) × Stream
  unfolding read_length
  read_frame s = read_length (fill 4 [] s)

-- What the agent sends to a plugin.
pub data ServerFrame : Type 0 where
  hello_ack : String → ServerFrame
  refused : RejectReason → ServerFrame

-- serde's writer, and whether the pipe takes what is written. A length beyond u32 is reported as `u32::MAX`.
module _ (to_vec : ServerFrame → Option (List ℕ)) (flushed : Bool) where
  sent : List ℕ → Result (List ℕ)
  sent bytes = if flushed then ok bytes else err io

  unfoldable pub write_frame : ServerFrame → Result (List ℕ)
  unfolding sent
  write_frame f = elim (to_vec f) [
    | none ↦ err json
    | some body ↦
        if ltb (length body) 4294967296
        then (if ltb max_frame_bytes (length body)
            then err (too_large (length body))
            else sent (u32_to_le_bytes (length body) ++ body))
        else err (too_large 4294967295)
  ]

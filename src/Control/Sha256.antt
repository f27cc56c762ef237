-- ===== src/Control/Sha256.antt =====
-- src/control/executor.rs: the SHA-256 that verifies files before they are quarantined or installed. Words are numbers
-- below 2 ^ 32; the buffer holds the `buf_len` bytes that are in use, since the code reads no other.
pub mod Compress
pub mod Blocks
pub mod Digest
use wazabi_edr_agent.Prelude.{
  ℕ, zero, suc, ◌+◌, ◌-◌, ◌*◌, ◌/◌, ◌%◌, ◌^◌, min, Bool, true, false, List, [], ◌∷◌, ◌++◌, ltb,
  ◌==◌, if◌then◌else◌, length, Option, none, some, take, drop,
}
use wazabi_edr_agent.Control.Sha256.Compress.{compress, initial}

-- `total_len` is a u64: it counts modulo 2 ^ 64 where the code is compiled without checks.
pub record Sha256 : Type 0 where
  pub state : List ℕ
  pub buf : List ℕ
  pub total_len : ℕ

unfoldable pub new : Sha256
unfolding initial
new = record { state = initial; buf = []; total_len = 0 }

-- One round of the loop of `update`, over the bytes that are left.
unfoldable pub fill_buf : Sha256 → List ℕ → Sha256
fill_buf s bytes =
    let buf = Sha256.buf s ++ bytes in
    if length buf == 64
    then record s { state = compress (Sha256.state s) buf; buf = [] }
    else record s { buf = buf }

-- The loop takes a byte at least in each round.
unfoldable pub update_fuel : ℕ → Sha256 → List ℕ → Sha256
unfolding fill_buf
update_fuel zero s bytes = s
update_fuel (suc f) s [] = s
update_fuel (suc f) s (d ∷ ds) =
    let n = min (64 - length (Sha256.buf s)) (length (d ∷ ds)) in
    update_fuel f (fill_buf s (take n (d ∷ ds))) (drop n (d ∷ ds))

unfoldable pub update : Sha256 → List ℕ → Sha256
unfolding update_fuel
update s bytes =
    update_fuel (length bytes)
      (record s { total_len = (Sha256.total_len s + length bytes) % 2 ^ 64 }) bytes

unfoldable pub zeros : ℕ → List ℕ
zeros zero = []
zeros (suc n) = 0 ∷ zeros n

-- `to_be_bytes` of a word of `w` bytes.
unfoldable pub be_bytes : ℕ → ℕ → List ℕ
be_bytes zero n = []
be_bytes (suc w) n = n / 256 ^ w % 256 ∷ be_bytes w n

unfoldable pub digest_bytes : List ℕ → List ℕ
unfolding be_bytes
digest_bytes [] = []
digest_bytes (w ∷ ws) = be_bytes 4 w ++ digest_bytes ws

-- The last block: zeros up to the length.
unfoldable pub last_block : List ℕ → ℕ → List ℕ → List ℕ
unfolding zeros be_bytes
last_block state bit_len buf =
    compress state (buf ++ (zeros (56 - length buf) ++ be_bytes 8 bit_len))

unfoldable pub finalize : Sha256 → List ℕ
unfolding last_block digest_bytes
finalize s =
    let bit_len = Sha256.total_len s * 8 % 2 ^ 64 in
    let buf = Sha256.buf s ++ (128 ∷ []) in
    digest_bytes (
      if ltb 56 (length buf)
      then last_block (compress (Sha256.state s) (buf ++ zeros (64 - length buf))) bit_len []
      else last_block (Sha256.state s) bit_len buf)

hex_digit : ℕ → ℕ
hex_digit d = if ltb d 10 then 48 + d else 87 + d

unfoldable pub hex : List ℕ → List ℕ
unfolding hex_digit
hex [] = []
hex (b ∷ bs) = hex_digit (b / 16) ∷ hex_digit (b % 16) ∷ hex bs

-- The reads of `sha256_file`: one that fails gives none, one of no bytes is the end of the file.
unfoldable pub update_all : Sha256 → List (Option (List ℕ)) → Option Sha256
update_all s [] = some s
update_all s (none ∷ rs) = none
update_all s (some [] ∷ rs) = some s
update_all s (some (b ∷ bs) ∷ rs) = update_all (update s (b ∷ bs)) rs

unfoldable pub hex_digest : Option Sha256 → Option (List ℕ)
unfolding finalize hex
hex_digest none = none
hex_digest (some s) = some (hex (finalize s))

unfoldable pub sha256_file : List (Option (List ℕ)) → Option (List ℕ)
unfolding update_all new hex_digest
sha256_file reads = hex_digest (update_all new reads)

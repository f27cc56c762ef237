-- ===== src/Shipper/Backoff.antt =====
-- src/shipper/run.rs, `next_backoff`: doubling with jitter, in milliseconds.
use Prim.Native.Nat.{bit_and, bit_or, bit_xor}
use native.Mathlib.Nat.{mod-lt}
use wazabi_edr_agent.Prelude.{
  ℕ, ◌+◌, ◌-◌, ◌*◌, ◌/◌, ◌%◌, ◌^◌, ◌≤◌, ◌<◌, arith, min, max, ltb, ◌==◌, if◌then◌else◌,
}

abbrev u64 : ℕ → ℕ
u64 n = n % 2 ^ 64

-- Three xorshift rounds over the clock, its last bit set.
xorshift : ℕ → ℕ
xorshift nanos =
    let a = bit_or (u64 nanos) 1 in
    let b = bit_xor a (u64 (a * 2 ^ 13)) in
    let c = bit_xor b (b / 2 ^ 7) in bit_xor c (u64 (c * 2 ^ 17))

unfoldable pub base_of : ℕ → ℕ → ℕ
base_of curr cap = if curr == 0 then 1000 else min (curr * 2) cap

-- The jitter takes `seed % (ms / 2)`, halves it, and adds or subtracts it by the seed's last bit.
jittered : ℕ → ℕ → ℕ
jittered seed ms =
    let jitter = seed % (ms / 2) in if bit_and seed 1 == 0 then ms + jitter / 2 else ms - jitter / 2

unfoldable pub next_backoff : ℕ → ℕ → ℕ → ℕ
unfolding base_of jittered xorshift
next_backoff nanos curr cap =
    let ms = base_of curr cap in
    if ltb ms 4 then ms else min (max (jittered (xorshift nanos) ms) 1) cap

-- The jitter stays within a quarter of its base.
jittered_range :
    (seed ms : ℕ) → 4 ≤ ms → (ms ≤ jittered seed ms + ms / 4) × (jittered seed ms ≤ ms + ms / 4)
unfolding jittered
jittered_range seed ms h = (ground (arith, small), ground (arith, small))
  where
    small : seed % (ms / 2) < ms / 2
    small = mod-lt _ (omega arith)

-- From a base of at least 4 ms, under a cap that is not zero, the next backoff is at least 1 ms, at most the cap, at
-- most a quarter above the base, and at most a quarter of the base below the smaller of base and cap, whatever the
-- clock reads.
pub next_backoff_range :
    (nanos curr cap : ℕ)
    → 4 ≤ base_of curr cap
    → 0 < cap
    → let base = base_of curr cap in
      let next = next_backoff nanos curr cap in
      (1 ≤ next) × (next ≤ cap) × (min base cap ≤ next + base / 4) × (next ≤ base + base / 4)
unfolding next_backoff base_of
next_backoff_range nanos curr cap h p =
    let range = jittered_range (xorshift nanos) (base_of curr cap) h in
    (ground arith, ground arith, ground (arith, range), ground (arith, range))

-- ===== src/Control/Sha256/Compress.antt =====
-- src/control/executor.rs, `Sha256::compress`: one block of 64 bytes.
use Prim.Native.Nat.{bit_and, bit_xor}
use wazabi_edr_agent.Prelude.{ℕ, zero, suc, ◌+◌, ◌-◌, ◌*◌, ◌/◌, ◌%◌, ◌^◌, List, [], ◌∷◌}

add : ℕ → ℕ → ℕ
add a b = (a + b) % 2 ^ 32

rotate_right : ℕ → ℕ → ℕ
rotate_right w n = w / 2 ^ n + w % 2 ^ n * 2 ^ (32 - n)

xor3 : ℕ → ℕ → ℕ → ℕ
xor3 a b c = bit_xor (bit_xor a b) c

nth : ℕ → List ℕ → ℕ
nth n [] = 0
nth zero (x ∷ xs) = x
nth (suc n) (x ∷ xs) = nth n xs

unfoldable pub initial : List ℕ
initial =
    0x6a09e667 ∷ 0xbb67ae85 ∷ 0x3c6ef372 ∷ 0xa54ff53a ∷ 0x510e527f ∷ 0x9b05688c ∷ 0x1f83d9ab
    ∷ 0x5be0cd19 ∷ []

round_constants : List ℕ
round_constants =
    0x428a2f98 ∷ 0x71374491 ∷ 0xb5c0fbcf ∷ 0xe9b5dba5 ∷ 0x3956c25b ∷ 0x59f111f1 ∷ 0x923f82a4
    ∷ 0xab1c5ed5 ∷ 0xd807aa98 ∷ 0x12835b01 ∷ 0x243185be ∷ 0x550c7dc3 ∷ 0x72be5d74 ∷ 0x80deb1fe
    ∷ 0x9bdc06a7 ∷ 0xc19bf174 ∷ 0xe49b69c1 ∷ 0xefbe4786 ∷ 0x0fc19dc6 ∷ 0x240ca1cc ∷ 0x2de92c6f
    ∷ 0x4a7484aa ∷ 0x5cb0a9dc ∷ 0x76f988da ∷ 0x983e5152 ∷ 0xa831c66d ∷ 0xb00327c8 ∷ 0xbf597fc7
    ∷ 0xc6e00bf3 ∷ 0xd5a79147 ∷ 0x06ca6351 ∷ 0x14292967 ∷ 0x27b70a85 ∷ 0x2e1b2138 ∷ 0x4d2c6dfc
    ∷ 0x53380d13 ∷ 0x650a7354 ∷ 0x766a0abb ∷ 0x81c2c92e ∷ 0x92722c85 ∷ 0xa2bfe8a1 ∷ 0xa81a664b
    ∷ 0xc24b8b70 ∷ 0xc76c51a3 ∷ 0xd192e819 ∷ 0xd6990624 ∷ 0xf40e3585 ∷ 0x106aa070 ∷ 0x19a4c116
    ∷ 0x1e376c08 ∷ 0x2748774c ∷ 0x34b0bcb5 ∷ 0x391c0cb3 ∷ 0x4ed8aa4a ∷ 0x5b9cca4f ∷ 0x682e6ff3
    ∷ 0x748f82ee ∷ 0x78a5636f ∷ 0x84c87814 ∷ 0x8cc70208 ∷ 0x90befffa ∷ 0xa4506ceb ∷ 0xbef9a3f7
    ∷ 0xc67178f2 ∷ []

-- The sixteen words of the block, the last one first.
words : List ℕ → List ℕ → List ℕ
words acc (a ∷ b ∷ c ∷ d ∷ bs) = words ((a * 16777216 + b * 65536 + c * 256 + d) ∷ acc) bs
words acc _ = acc

-- `w[i]` from the words before it, the last one first.
next_word : List ℕ → ℕ
unfolding add rotate_right xor3 nth
next_word w =
    let s0 = xor3 (rotate_right (nth 14 w) 7) (rotate_right (nth 14 w) 18) (nth 14 w / 2 ^ 3) in
    let s1 = xor3 (rotate_right (nth 1 w) 17) (rotate_right (nth 1 w) 19) (nth 1 w / 2 ^ 10) in
    add (add (add (nth 15 w) s0) (nth 6 w)) s1

schedule : ℕ → List ℕ → List ℕ
unfolding next_word
schedule zero w = w
schedule (suc n) w = schedule n (next_word w ∷ w)

reversed : List ℕ → List ℕ → List ℕ
reversed acc [] = acc
reversed acc (x ∷ xs) = reversed (x ∷ acc) xs

-- The working variables `a` to `h`.
pub record Working : Type 0 where
  pub a : ℕ
  pub b : ℕ
  pub c : ℕ
  pub d : ℕ
  pub e : ℕ
  pub f : ℕ
  pub g : ℕ
  pub h : ℕ

round : Working → ℕ → ℕ → Working
unfolding add rotate_right xor3
round v k w =
    let s1 =
      xor3 (rotate_right (Working.e v) 6) (rotate_right (Working.e v) 11)
        (rotate_right (Working.e v) 25) in
    let ch =
      bit_xor (bit_and (Working.e v) (Working.f v))
        (bit_and (2 ^ 32 - 1 - Working.e v) (Working.g v)) in
    let t1 = add (add (add (add (Working.h v) s1) ch) k) w in
    let s0 =
      xor3 (rotate_right (Working.a v) 2) (rotate_right (Working.a v) 13)
        (rotate_right (Working.a v) 22) in
    let mj =
      xor3 (bit_and (Working.a v) (Working.b v)) (bit_and (Working.a v) (Working.c v))
        (bit_and (Working.b v) (Working.c v)) in
    let t2 = add s0 mj in
    record {
      a = add t1 t2;
      b = Working.a v;
      c = Working.b v;
      d = Working.c v;
      e = add (Working.d v) t1;
      f = Working.e v;
      g = Working.f v;
      h = Working.g v;
    }

rounds : List ℕ → List ℕ → Working → Working
unfolding round
rounds (k ∷ ks) (w ∷ ws) v = rounds ks ws (round v k w)
rounds _ _ v = v

unfoldable pub compress : List ℕ → List ℕ → List ℕ
unfolding rounds round_constants schedule words reversed nth add
compress state block =
    let w = reversed [] (schedule 48 (words [] block)) in
    let v = rounds round_constants w (record {
      a = nth 0 state;
      b = nth 1 state;
      c = nth 2 state;
      d = nth 3 state;
      e = nth 4 state;
      f = nth 5 state;
      g = nth 6 state;
      h = nth 7 state;
    }) in
    add (nth 0 state) (Working.a v)
    ∷ add (nth 1 state) (Working.b v)
    ∷ add (nth 2 state) (Working.c v)
    ∷ add (nth 3 state) (Working.d v)
    ∷ add (nth 4 state) (Working.e v)
    ∷ add (nth 5 state) (Working.f v)
    ∷ add (nth 6 state) (Working.g v)
    ∷ add (nth 7 state) (Working.h v)
    ∷ []

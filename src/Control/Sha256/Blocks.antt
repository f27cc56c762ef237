-- ===== src/Control/Sha256/Blocks.antt =====
-- The blocks of 64 bytes of a message, and the fold of the compression over them.
use wazabi_edr_agent.Prelude.{
  ℕ, zero, suc, ◌-◌, ◌*◌, ◌/◌, ◌%◌, ◌≡◌, refl, ap, sym, List, [], ◌∷◌, ◌++◌, length, take, drop,
  length-append, take-append_length, drop-append_length, All, append_assoc, arith,
}
use wazabi_edr_agent.Control.Sha256.{zeros, be_bytes, digest_bytes}
use wazabi_edr_agent.Control.Sha256.Compress.{compress, initial}

unfoldable pub absorb : List ℕ → List (List ℕ) → List ℕ
absorb state [] = state
absorb state (b ∷ bs) = absorb (compress state b) bs

abbrev pub concat : List (List ℕ) → List ℕ
concat [] = []
concat (b ∷ bs) = b ++ concat bs

-- Each block has 64 bytes.
abbrev pub Whole : List (List ℕ) → Type 0
Whole bs = All (λ b. length b ≡ 64) bs

-- The first `n` blocks of a message.
abbrev pub blocks : ℕ → List ℕ → List (List ℕ)
blocks zero m = []
blocks (suc n) m = take 64 m ∷ blocks n (drop 64 m)

-- The padding of the standard: a bit 1, the fewest zeros after which 64 bits are missing from a whole block, and the
-- message's length in bits.
abbrev pub pad : List ℕ → List ℕ
pad m = m ++ (128 ∷ (zeros ((119 - length m % 64) % 64) ++ be_bytes 8 (8 * length m)))

-- The digest as the standard defines it, from the whole message.
unfoldable pub reference_digest : List ℕ → List ℕ
unfolding absorb
reference_digest m = digest_bytes (absorb initial (blocks (length (pad m) / 64) (pad m)))

pub absorb-append :
    (s : List ℕ) (xs bs : List (List ℕ)) → absorb s (xs ++ bs) ≡ absorb (absorb s xs) bs
unfolding absorb
absorb-append s [] bs = refl
absorb-append s (a ∷ xs) bs = absorb-append (compress s a) xs bs

pub concat-append : (xs bs : List (List ℕ)) → concat (xs ++ bs) ≡ concat xs ++ concat bs
concat-append [] bs = refl
concat-append (a ∷ xs) bs = rw (concat-append xs bs) (sym (append_assoc a (concat xs) (concat bs)))

pub length-concat : (bs : List (List ℕ)) → Whole bs → length (concat bs) ≡ 64 * length bs
length-concat [] h = refl
length-concat (b ∷ bs) h = omega (arith, length-append {0} b (concat bs), h.0, length-concat bs h.1)

pub blocks-concat : (bs : List (List ℕ)) → Whole bs → blocks (length bs) (concat bs) ≡ bs
blocks-concat [] h = refl
blocks-concat (b ∷ bs) h = rw (sym h.0) (
    rw (take-append_length b (concat bs))
      (rw (drop-append_length b (concat bs)) (ap (◌∷◌ b) (blocks-concat bs h.1))))

pub length-zeros : (n : ℕ) → length (zeros n) ≡ n
unfolding zeros
length-zeros zero = refl
length-zeros (suc n) = omega (arith, length-zeros n)

pub length-be_bytes : (w n : ℕ) → length (be_bytes w n) ≡ w
unfolding be_bytes
length-be_bytes zero n = refl
length-be_bytes (suc w) n = omega (arith, length-be_bytes w n)

-- A message whose padding is known as blocks has the digest of these.
pub reference_digest-blocks :
    (m : List ℕ) (bs : List (List ℕ))
    → Whole bs
    → pad m ≡ concat bs
    → reference_digest m ≡ digest_bytes (absorb initial bs)
unfolding reference_digest
reference_digest-blocks m bs h e =
    let n : length (pad m) / 64 ≡ length bs = omega (arith, ap length e, length-concat bs h) in
    rw n (rw e (rw (blocks-concat bs h) refl))

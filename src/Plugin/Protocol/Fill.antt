-- ===== src/Plugin/Protocol/Fill.antt =====
-- src/plugin/protocol.rs: how much the reading loops take, however the pipe cuts the bytes.
use wazabi_edr_agent.Prelude.{
  ℕ, zero, suc, ◌-◌, ◌≤◌, ◌<◌, ◌≡◌, refl, sym, ap, ◌∙◌, true, List, [], ◌∷◌, ◌++◌, arith, leb,
  length, take, drop, leb→le, le→leb, when, unless, Bool-cases, inl, inr, append_assoc, append-nil,
  length-append,
}
use wazabi_edr_agent.Plugin.Protocol.{chunk, interrupted, failed, Stream, full, ended, fill}

-- All the bytes that a stream delivers.
abbrev pub bytes_of : Stream → List ℕ
bytes_of [] = []
bytes_of (chunk bs ∷ s) = bs ++ bytes_of s
bytes_of (interrupted ∷ s) = bytes_of s
bytes_of (failed ∷ s) = bytes_of s

-- No failure and no empty chunk; interruptions may come anywhere.
abbrev pub Clean : Stream → Type 0
Clean [] = Unit {0}
Clean (chunk [] ∷ s) = ⊥
Clean (chunk (b ∷ bs) ∷ s) = Clean s
Clean (interrupted ∷ s) = Clean s
Clean (failed ∷ s) = ⊥

zero_sub : (n : ℕ) → n ≡ n - 0
zero_sub n = omega arith

take-append_short :
    (n : ℕ) (xs ys : List ℕ) → length xs ≤ n → take n (xs ++ ys) ≡ xs ++ take (n - length xs) ys
take-append_short n [] ys h = ap (λ k. take k ys) (zero_sub n)
take-append_short zero (x ∷ xs) ys h = absurd (omega arith)
take-append_short (suc n) (x ∷ xs) ys h =
    let e : n - length xs ≡ suc n - length (x ∷ xs) = omega arith in
    ap (◌∷◌ x) (take-append_short n xs ys (omega arith) ∙ ap (λ k. xs ++ take k ys) e)

drop-append_short :
    (n : ℕ) (xs ys : List ℕ) → length xs ≤ n → drop n (xs ++ ys) ≡ drop (n - length xs) ys
drop-append_short n [] ys h = ap (λ k. drop k ys) (zero_sub n)
drop-append_short zero (x ∷ xs) ys h = absurd (omega arith)
drop-append_short (suc n) (x ∷ xs) ys h =
    let e : n - length xs ≡ suc n - length (x ∷ xs) = omega arith in
    drop-append_short n xs ys (omega arith) ∙ ap (λ k. drop k ys) e

take-append_long : (n : ℕ) (xs ys : List ℕ) → n ≤ length xs → take n (xs ++ ys) ≡ take n xs
take-append_long zero xs ys h = refl
take-append_long (suc n) [] ys h = absurd (omega arith)
take-append_long (suc n) (x ∷ xs) ys h = ap (◌∷◌ x) (take-append_long n xs ys (omega arith))

drop-append_long : (n : ℕ) (xs ys : List ℕ) → n ≤ length xs → drop n (xs ++ ys) ≡ drop n xs ++ ys
drop-append_long zero xs ys h = refl
drop-append_long (suc n) [] ys h = absurd (omega arith)
drop-append_long (suc n) (x ∷ xs) ys h = drop-append_long n xs ys (omega arith)

drop-chunk-Clean :
    (n : ℕ) (xs : List ℕ) (s : Stream) → n < length xs → Clean s → Clean (chunk (drop n xs) ∷ s)
drop-chunk-Clean zero [] s h c = absurd (omega arith)
drop-chunk-Clean zero (x ∷ xs) s h c = c
drop-chunk-Clean (suc n) [] s h c = absurd (omega arith)
drop-chunk-Clean (suc n) (x ∷ xs) s h c = drop-chunk-Clean n xs s (omega arith) c

-- Enough bytes: the loop takes exactly `k` of them, and leaves the others for later reads.
pub fill-full :
    (k : ℕ) (got : List ℕ) (s : Stream)
    → Clean s
    → k ≤ length (bytes_of s)
    → (s' : Stream) × (fill k got s ≡ full (got ++ take k (bytes_of s)) s')
      × (bytes_of s' ≡ drop k (bytes_of s))
      × Clean s'
unfolding fill
fill-full zero got s c h = (s, ap (λ g. full g s) (sym (append-nil got)), refl, c)
fill-full (suc k) got [] c h = absurd (omega arith)
fill-full (suc k) got (interrupted ∷ s) c h = fill-full (suc k) got s c h
fill-full (suc k) got (failed ∷ s) c h = absurd c
fill-full (suc k) got (chunk [] ∷ s) c h = absurd c
fill-full (suc k) got (chunk (b ∷ bs) ∷ s) c h = elim (Bool-cases (leb (length (b ∷ bs)) (suc k))) [
  | inl e ↦
      let short : length (b ∷ bs) ≤ suc k = leb→le (length (b ∷ bs)) (suc k) e in
      let rest =
        fill-full (suc k - length (b ∷ bs)) (got ++ (b ∷ bs)) s c
          (omega (arith, length-append (b ∷ bs) (bytes_of s))) in
      (
        rest.0,
        when e _ _
            ∙ rest.1
            ∙ ap (λ g. full g rest.0)
                (append_assoc got (b ∷ bs) (take (suc k - length (b ∷ bs)) (bytes_of s))
                  ∙ ap (λ t. got ++ t)
                      (sym (take-append_short (suc k) (b ∷ bs) (bytes_of s) short))),
        rest.2 ∙ sym (drop-append_short (suc k) (b ∷ bs) (bytes_of s) short),
        rest.3,
      )
  | inr e ↦
      let long : suc k < length (b ∷ bs) = ground (arith, e) in
      (
        chunk (drop (suc k) (b ∷ bs)) ∷ s,
        unless e _ _
            ∙ ap (λ t. full (got ++ t) (chunk (drop (suc k) (b ∷ bs)) ∷ s))
                (sym (take-append_long (suc k) (b ∷ bs) (bytes_of s) (omega arith))),
        sym (drop-append_long (suc k) (b ∷ bs) (bytes_of s) (omega arith)),
        drop-chunk-Clean (suc k) (b ∷ bs) s long c,
      )
]

-- Too few bytes: the loop has taken them all when it meets the end.
pub fill-ended :
    (k : ℕ) (got : List ℕ) (s : Stream)
    → Clean s
    → length (bytes_of s) < k
    → fill k got s ≡ ended (got ++ bytes_of s) []
unfolding fill
fill-ended zero got s c h = absurd (omega arith)
fill-ended (suc k) got [] c h = ap (λ g. ended g []) (sym (append-nil got))
fill-ended (suc k) got (interrupted ∷ s) c h = fill-ended (suc k) got s c h
fill-ended (suc k) got (failed ∷ s) c h = absurd c
fill-ended (suc k) got (chunk [] ∷ s) c h = absurd c
fill-ended (suc k) got (chunk (b ∷ bs) ∷ s) c h =
    let size = length-append (b ∷ bs) (bytes_of s) in
    let e : leb (length (b ∷ bs)) (suc k) ≡ true =
      le→leb (length (b ∷ bs)) (suc k) (omega (arith, size)) in
    when e _ _
    ∙ fill-ended (suc k - length (b ∷ bs)) (got ++ (b ∷ bs)) s c (omega (arith, size))
    ∙ ap (λ g. ended g []) (append_assoc got (b ∷ bs) (bytes_of s))

-- ===== src/Control/Sha256/Digest.antt =====
-- The digest of src/control/executor.rs against the standard's, for any cut of the file into chunks.
use wazabi_edr_agent.Prelude.{
  map, some, ℕ, zero, suc, ◌+◌, ◌-◌, ◌*◌, ◌%◌, ◌^◌, ◌≡◌, ◌≤◌, ◌<◌, refl, ap, subst, ◌∙◌, sym, List,
  [], ◌∷◌, ◌++◌, length, take, drop, length-append, length-take, length-drop, take-append-drop, All,
  All-append, append_assoc, append-nil, arith, min, ltb, ◌==◌, Bool-cases, inl, inr,
}
use wazabi_edr_agent.Control.Sha256.{
  Sha256, new, fill_buf, update_fuel, update, zeros, be_bytes, last_block, finalize, hex,
  hex_digest, update_all, sha256_file,
}
use wazabi_edr_agent.Control.Sha256.Compress.{initial}
use wazabi_edr_agent.Control.Sha256.Blocks.{
  absorb, concat, Whole, pad, reference_digest, absorb-append, concat-append, length-concat,
  length-zeros, length-be_bytes, reference_digest-blocks,
}

-- The hasher has absorbed the whole blocks of a message and holds the rest.
pub record IsFed (s : Sha256) (m : List ℕ) : Type 0 where
  pub whole : List (List ℕ)
  pub sizes : Whole whole
  pub message : m ≡ concat whole ++ Sha256.buf s
  pub room : length (Sha256.buf s) < 64
  pub absorbed : Sha256.state s ≡ absorb initial whole

new-IsFed : IsFed new []
unfolding new absorb
new-IsFed = record { whole = []; sizes = tt; message = refl; room = omega arith; absorbed = refl }

fill_buf-IsFed :
    (s : Sha256) (m x : List ℕ)
    → IsFed s m
    → length (Sha256.buf s) + length x ≤ 64
    → IsFed (fill_buf s x) (m ++ x)
unfolding fill_buf absorb
fill_buf-IsFed s m x h l = elim (Bool-cases (length (Sha256.buf s ++ x) == 64)) [
  | inl e ↦ rw e record {
    whole = IsFed.whole h ++ ((Sha256.buf s ++ x) ∷ []);
    sizes = All-append _ (IsFed.whole h) _ (IsFed.sizes h) (ground (arith), tt);
    message = rw (IsFed.message h) (
        rw (concat-append (IsFed.whole h) ((Sha256.buf s ++ x) ∷ []))
          (simp (append_assoc, append-nil)));
    room = omega arith;
    absorbed =
        rw (absorb-append initial (IsFed.whole h) ((Sha256.buf s ++ x) ∷ []))
          (rw (IsFed.absorbed h) refl);
  }
  | inr e ↦ rw e record {
    whole = IsFed.whole h;
    sizes = IsFed.sizes h;
    message = rw (IsFed.message h) (append_assoc (concat (IsFed.whole h)) (Sha256.buf s) x);
    room = ground (arith, length-append (Sha256.buf s) x);
    absorbed = IsFed.absorbed h;
  }
]

update_fuel-IsFed :
    (f : ℕ) (s : Sha256) (m x : List ℕ)
    → length x ≤ f
    → IsFed s m
    → IsFed (update_fuel f s x) (m ++ x)
unfolding update_fuel
update_fuel-IsFed zero s m [] l h = rw (append-nil m) h
update_fuel-IsFed zero s m (x ∷ xs) l h = absurd (omega arith)
update_fuel-IsFed (suc f) s m [] l h = rw (append-nil m) h
update_fuel-IsFed (suc f) s m (x ∷ xs) l h =
    let n : ℕ = min (64 - length (Sha256.buf s)) (length (x ∷ xs)) in
    let part : IsFed (fill_buf s (take n (x ∷ xs))) (m ++ take n (x ∷ xs)) =
      fill_buf-IsFed s m (take n (x ∷ xs)) h
        (omega (arith, length-take {0} n (x ∷ xs), IsFed.room h)) in
    let rest : IsFed (update_fuel f (fill_buf s (take n (x ∷ xs))) (drop n (x ∷ xs)))
        ((m ++ take n (x ∷ xs)) ++ drop n (x ∷ xs)) =
      update_fuel-IsFed f (fill_buf s (take n (x ∷ xs))) (m ++ take n (x ∷ xs)) (drop n (x ∷ xs))
        (omega (arith, length-drop {0} n (x ∷ xs), IsFed.room h)) part in
    subst (IsFed (update_fuel f (fill_buf s (take n (x ∷ xs))) (drop n (x ∷ xs))))
      (append_assoc m (take n (x ∷ xs)) (drop n (x ∷ xs))
        ∙ ap (◌++◌ m) (take-append-drop n (x ∷ xs)))
      rest

total-update_fuel :
    (f : ℕ) (s : Sha256) (x : List ℕ) → Sha256.total_len (update_fuel f s x) ≡ Sha256.total_len s
unfolding update_fuel fill_buf
total-update_fuel zero s x = refl
total-update_fuel (suc f) s [] = refl
total-update_fuel (suc f) s (x ∷ xs) =
    let n : ℕ = min (64 - length (Sha256.buf s)) (length (x ∷ xs)) in
    ground (arith, total-update_fuel f (fill_buf s (take n (x ∷ xs))) (drop n (x ∷ xs)))

update-IsFed : (s : Sha256) (m x : List ℕ) → IsFed s m → IsFed (update s x) (m ++ x)
unfolding update
update-IsFed s m x h =
    update_fuel-IsFed (length x) (record s { total_len = (Sha256.total_len s + length x) % 2 ^ 64 })
      m x (omega arith)
      (record {
        whole = IsFed.whole h;
        sizes = IsFed.sizes h;
        message = IsFed.message h;
        room = IsFed.room h;
        absorbed = IsFed.absorbed h;
      })

total-update :
    (s : Sha256) (x : List ℕ)
    → Sha256.total_len (update s x) ≡ (Sha256.total_len s + length x) % 2 ^ 64
unfolding update
total-update s x =
    total-update_fuel (length x) (record s { total_len = (Sha256.total_len s + length x) % 2 ^ 64 })
      x

zeros-add : (a b : ℕ) → zeros (a + b) ≡ zeros a ++ zeros b
unfolding zeros
zeros-add zero b = let e : 0 + b ≡ b = omega arith in ap zeros e
zeros-add (suc a) b =
    let e : suc a + b ≡ suc (a + b) = omega arith in ap zeros e ∙ ap (◌∷◌ 0) (zeros-add a b)

length-fed : (s : Sha256) (m : List ℕ) (h : IsFed s m) → length m % 64 ≡ length (Sha256.buf s)
length-fed s m h = omega (
  arith,
  ap length (IsFed.message h),
  length-append {0} (concat (IsFed.whole h)) (Sha256.buf s),
  length-concat (IsFed.whole h) (IsFed.sizes h),
  IsFed.room h,
)

-- The padding in one block, where the length still fits behind the bytes that are left.
pad-one :
    (s : Sha256) (m : List ℕ) (h : IsFed s m)
    → length (Sha256.buf s) < 56
    → pad m
      ≡ concat (
          IsFed.whole h
          ++ (((Sha256.buf s ++ (128 ∷ []))
                ++ (zeros (56 - length (Sha256.buf s ++ (128 ∷ []))) ++ be_bytes 8 (8 * length m)))
              ∷ []))
pad-one s m h l =
    let b = Sha256.buf s in
    let n : (119 - length m % 64) % 64 ≡ 56 - length (b ++ (128 ∷ [])) =
      omega (arith, length-fed s m h, length-append {0} b (128 ∷ [])) in
    ap (λ t. m ++ (128 ∷ (zeros t ++ be_bytes 8 (8 * length m)))) n
    ∙ ap (λ t. t ++ (128 ∷ (zeros (56 - length (b ++ (128 ∷ []))) ++ be_bytes 8 (8 * length m))))
        (IsFed.message h)
    ∙ simp (concat-append, append_assoc, append-nil)

-- And in two.
pad-two :
    (s : Sha256) (m : List ℕ) (h : IsFed s m)
    → 56 ≤ length (Sha256.buf s)
    → pad m
      ≡ concat (
          IsFed.whole h
          ++ (((Sha256.buf s ++ (128 ∷ [])) ++ zeros (64 - length (Sha256.buf s ++ (128 ∷ []))))
              ∷ (zeros 56 ++ be_bytes 8 (8 * length m))
              ∷ []))
pad-two s m h l =
    let b = Sha256.buf s in
    let n : (119 - length m % 64) % 64 ≡ (64 - length (b ++ (128 ∷ []))) + 56 =
      omega (arith, length-fed s m h, length-append {0} b (128 ∷ []), IsFed.room h) in
    ap (λ t. m ++ (128 ∷ (zeros t ++ be_bytes 8 (8 * length m)))) n
    ∙ ap (λ t. m ++ (128 ∷ (t ++ be_bytes 8 (8 * length m))))
        (zeros-add (64 - length (b ++ (128 ∷ []))) 56)
    ∙ ap
        (λ t.
          t
          ++ (128
              ∷ ((zeros (64 - length (b ++ (128 ∷ []))) ++ zeros 56) ++ be_bytes 8 (8 * length m))))
        (IsFed.message h)
    ∙ simp (concat-append, append_assoc, append-nil)

two-Whole :
    (s : Sha256) (m : List ℕ) (h : IsFed s m)
    → Whole (
        IsFed.whole h
        ++ (((Sha256.buf s ++ (128 ∷ [])) ++ zeros (64 - length (Sha256.buf s ++ (128 ∷ []))))
            ∷ (zeros 56 ++ be_bytes 8 (8 * length m))
            ∷ []))
two-Whole s m h =
    let b = Sha256.buf s ++ (128 ∷ []) in
    All-append _ (IsFed.whole h) _ (IsFed.sizes h) (
      omega (
        arith,
        length-append {0} b (zeros (64 - length b)),
        length-append {0} (Sha256.buf s) (128 ∷ []),
        length-zeros (64 - length b),
        IsFed.room h,
      ),
      (
        omega (
          arith,
          length-append {0} (zeros 56) (be_bytes 8 (8 * length m)),
          length-zeros 56,
          length-be_bytes 8 (8 * length m),
        ),
        tt,
      ),
    )

one-Whole :
    (s : Sha256) (m : List ℕ) (h : IsFed s m)
    → length (Sha256.buf s) < 56
    → Whole (
        IsFed.whole h
        ++ (((Sha256.buf s ++ (128 ∷ []))
              ++ (zeros (56 - length (Sha256.buf s ++ (128 ∷ []))) ++ be_bytes 8 (8 * length m)))
            ∷ []))
one-Whole s m h l =
    let b = Sha256.buf s ++ (128 ∷ []) in
    let z = zeros (56 - length b) in
    All-append _ (IsFed.whole h) _ (IsFed.sizes h) (
      omega (
        arith,
        length-append {0} b (z ++ be_bytes 8 (8 * length m)),
        length-append {0} z (be_bytes 8 (8 * length m)),
        length-append {0} (Sha256.buf s) (128 ∷ []),
        length-zeros (56 - length b),
        length-be_bytes 8 (8 * length m),
      ),
      tt,
    )

new-total : Sha256.total_len new ≡ length {A = ℕ} []
unfolding new
new-total = refl

finalize-IsFed :
    (s : Sha256) (m : List ℕ)
    → IsFed s m
    → Sha256.total_len s ≡ length m
    → length m < 2 ^ 61
    → finalize s ≡ reference_digest m
unfolding finalize last_block absorb
finalize-IsFed s m h t l =
    let b = Sha256.buf s in
    let bits : Sha256.total_len s * 8 % 2 ^ 64 ≡ 8 * length m = omega (arith, t, l) in
    elim (Bool-cases (ltb 56 (length (b ++ (128 ∷ []))))) [
      | inl e ↦
          let w : List (List ℕ) =
            IsFed.whole h
            ++ (((b ++ (128 ∷ [])) ++ zeros (64 - length (b ++ (128 ∷ []))))
                ∷ (zeros 56 ++ be_bytes 8 (8 * length m))
                ∷ []) in
          let long : 56 ≤ length b = ground (arith, length-append b (128 ∷ [])) in
          rw (reference_digest-blocks m w (two-Whole s m h) (pad-two s m h long)) (
            rw
              (absorb-append initial (IsFed.whole h) (
                ((b ++ (128 ∷ [])) ++ zeros (64 - length (b ++ (128 ∷ []))))
                ∷ (zeros 56 ++ be_bytes 8 (8 * length m))
                ∷ []))
              (rw bits (rw (IsFed.absorbed h) (rw e refl))))
      | inr e ↦
          let short : length b < 56 = ground (arith, length-append b (128 ∷ [])) in
          rw (reference_digest-blocks m _ (one-Whole s m h short) (pad-one s m h short)) (
            rw (absorb-append initial (IsFed.whole h) _)
              (rw bits (rw (IsFed.absorbed h) (rw e refl))))
    ]

update_all-IsFed :
    (s : Sha256) (m : List ℕ) (cs : List (List ℕ))
    → All (λ c. 0 < length c) cs
    → IsFed s m
    → Sha256.total_len s ≡ length m
    → length (m ++ concat cs) < 2 ^ 61
    → (t : Sha256) × (update_all s (map some cs) ≡ some t)
      × IsFed t (m ++ concat cs)
      × (Sha256.total_len t ≡ length (m ++ concat cs))
unfolding update_all
update_all-IsFed s m [] k h t l = rw (append-nil m) (s, refl, h, t)
update_all-IsFed s m ([] ∷ cs) k h t l = absurd (omega (arith, k.0))
update_all-IsFed s m ((b ∷ bs) ∷ cs) k h t l =
    let e : (m ++ (b ∷ bs)) ++ concat cs ≡ m ++ ((b ∷ bs) ++ concat cs) =
      append_assoc m (b ∷ bs) (concat cs) in
    rw (sym e) (
      update_all-IsFed (update s (b ∷ bs)) (m ++ (b ∷ bs)) cs k.1 (update-IsFed s m (b ∷ bs) h)
        (omega (
          arith,
          total-update s (b ∷ bs),
          t,
          length-append {0} m (b ∷ bs),
          ap length e,
          l,
          length-append {0} (m ++ (b ∷ bs)) (concat cs),
        ))
        (omega (arith, ap length e, l)))

-- A file whose reads give the chunks, none of them empty, and whose length is below 2 ^ 61 bytes has the digest of the
-- standard for its whole contents, wherever the reads cut it.
pub sha256_file-reference :
    (cs : List (List ℕ))
    → All (λ c. 0 < length c) cs
    → length (concat cs) < 2 ^ 61
    → sha256_file (map some cs) ≡ some (hex (reference_digest (concat cs)))
unfolding sha256_file hex_digest
sha256_file-reference cs k l =
    let r = update_all-IsFed new [] cs k new-IsFed new-total l in
    rw r.1 (ap (λ d. some (hex d)) (finalize-IsFed r.0 (concat cs) r.2 r.3 l))

-- ===== src/Control/Executor/Output.antt =====
-- src/control/executor.rs, the wait of `execute_run_shell` for its child, and `read_capped`.
use wazabi_edr_agent.Prelude.{
  ℕ, zero, suc, ◌+◌, ◌-◌, ◌*◌, ◌≡◌, ◌≤◌, ◌<◌, refl, ap, subst, sym, ◌∙◌, List, [], ◌∷◌, ◌++◌,
  Option, none, some, Bool, true, false, ltb, leb, leb→le, ltb→lt, lt→ltb, if◌then◌else◌, length,
  take, length-append, Bool-cases, inl, inr, arith, append-nil, append_assoc,
}

-- What `try_wait` answers; where the child runs, with the milliseconds since its start.
pub data Poll : Type 0 where
  exited : Option ℕ → Poll
  running : ℕ → Poll
  wait_failed : Poll

-- How the loop ends. `no_fuel` is an artefact of the fuel.
pub data Waited : Type 0 where
  exit_code : Option ℕ → Waited
  timed_out : Waited
  wait_error : Waited
  no_fuel : Waited

-- From the poll `i` on.
unfoldable pub wait_child : ℕ → (ℕ → Poll) → ℕ → ℕ → Waited
wait_child zero poll timeout i = no_fuel
wait_child (suc f) poll timeout i =
    let rest = wait_child f poll timeout (i + 1) in
    elim (poll i) [
      | exited code ↦ exit_code code
      | running elapsed ↦ if leb timeout elapsed then timed_out else rest
      | wait_failed ↦ wait_error
    ]

-- The loop of `read_capped` with what it has read: a read of nothing or one that fails ends it.
unfoldable pub read_loop : ℕ → List ℕ → List (Option (List ℕ)) → List ℕ × Bool
read_loop cap buf [] = (buf, false)
read_loop cap buf (none ∷ rs) = (buf, false)
read_loop cap buf (some [] ∷ rs) = (buf, false)
read_loop cap buf (some (b ∷ bs) ∷ rs) =
    let rest = read_loop cap (buf ++ (b ∷ bs)) rs in
    if ltb cap (length buf + length (b ∷ bs))
    then (buf ++ take (cap - length buf) (b ∷ bs), true)
    else rest

unfoldable pub read_capped : (List ℕ → List ℕ) → List (Option (List ℕ)) → ℕ → List ℕ × Bool
unfolding read_loop
read_capped lossy reads cap = let r = read_loop cap [] reads in (lossy r.0, r.1)

-- What a pipe gives up to its end.
abbrev pub stream : List (Option (List ℕ)) → List ℕ
stream [] = []
stream (none ∷ rs) = []
stream (some [] ∷ rs) = []
stream (some (b ∷ bs) ∷ rs) = (b ∷ bs) ++ stream rs

take-append_all :
    (n : ℕ) (xs ys : List ℕ) → length xs ≤ n → take n (xs ++ ys) ≡ xs ++ take (n - length xs) ys
take-append_all n [] ys h = let e : n - 0 ≡ n = omega arith in ap (λ t. take t ys) (sym e)
take-append_all zero (x ∷ xs) ys h = absurd (omega arith)
take-append_all (suc n) (x ∷ xs) ys h =
    let e : suc n - suc (length xs) ≡ n - length xs = omega arith in
    ap (◌∷◌ x) (take-append_all n xs ys (omega arith)) ∙ ap (λ t. x ∷ (xs ++ take t ys)) (sym e)

take-append_part : (n : ℕ) (xs ys : List ℕ) → n ≤ length xs → take n (xs ++ ys) ≡ take n xs
take-append_part zero xs ys h = refl
take-append_part (suc n) [] ys h = absurd (omega arith)
take-append_part (suc n) (x ∷ xs) ys h = ap (◌∷◌ x) (take-append_part n xs ys (omega arith))

take-all : (n : ℕ) (xs : List ℕ) → length xs ≤ n → take n xs ≡ xs
take-all zero [] h = refl
take-all zero (x ∷ xs) h = absurd (omega arith)
take-all (suc n) [] h = refl
take-all (suc n) (x ∷ xs) h = ap (◌∷◌ x) (take-all n xs (omega arith))

ltb-false : (a b : ℕ) → b ≤ a → ltb a b ≡ false
ltb-false a b h = ground arith

-- The loop at the end of its reads.
end-stream :
    (cap : ℕ) (buf : List ℕ)
    → length buf ≤ cap
    → ◌≡◌ {A = List ℕ × Bool} (buf, false) (take cap (buf ++ []), ltb cap (length (buf ++ [])))
end-stream cap buf h =
    rw (append-nil buf) (λ i. (sym (take-all cap buf h) i, sym (ltb-false cap (length buf) h) i))

read_loop-stream :
    (cap : ℕ) (buf : List ℕ) (rs : List (Option (List ℕ)))
    → length buf ≤ cap
    → read_loop cap buf rs ≡ (take cap (buf ++ stream rs), ltb cap (length (buf ++ stream rs)))
unfolding read_loop
read_loop-stream cap buf [] h = end-stream cap buf h
read_loop-stream cap buf (none ∷ rs) h = end-stream cap buf h
read_loop-stream cap buf (some [] ∷ rs) h = end-stream cap buf h
read_loop-stream cap buf (some (b ∷ bs) ∷ rs) h =
    elim (Bool-cases (ltb cap (length buf + length (b ∷ bs)))) [
      | inl e ↦
          let over : cap < length buf + length (b ∷ bs) =
            ltb→lt cap (length buf + length (b ∷ bs)) e in
          let cut : take cap (buf ++ ((b ∷ bs) ++ stream rs))
              ≡ buf ++ take (cap - length buf) (b ∷ bs) =
            take-append_all cap buf ((b ∷ bs) ++ stream rs) h
            ∙ ap (◌++◌ buf)
                (take-append_part (cap - length buf) (b ∷ bs) (stream rs) (omega (arith, over))) in
          let more : ltb cap (length (buf ++ ((b ∷ bs) ++ stream rs))) ≡ true = lt→ltb _ _ (
            omega (
              arith,
              over,
              length-append {0} buf ((b ∷ bs) ++ stream rs),
              length-append {0} (b ∷ bs) (stream rs),
            )) in
          rw e (λ i. (sym cut i, sym more i))
      | inr e ↦
          let room : length (buf ++ (b ∷ bs)) ≤ cap = ground (arith, length-append buf (b ∷ bs)) in
          rw e (
            rw (sym (append_assoc buf (b ∷ bs) (stream rs)))
              (read_loop-stream cap (buf ++ (b ∷ bs)) rs room))
    ]

-- Whatever the sizes of the reads, `read_capped` gives the first `cap` bytes of what the pipe gives up to its end or its
-- first error, and says that it cut exactly where there was more.
pub read_capped-stream :
    (lossy : List ℕ → List ℕ) (reads : List (Option (List ℕ))) (cap : ℕ)
    → read_capped lossy reads cap
      ≡ (lossy (take cap (stream reads)), ltb cap (length (stream reads)))
unfolding read_capped
read_capped-stream lossy reads cap =
    let e = read_loop-stream cap [] reads (omega arith) in λ i. (lossy (e i).0, (e i).1)

-- The polls from `i` up to `j` found the child running, before the timeout.
abbrev Waits : (ℕ → Poll) → ℕ → ℕ → ℕ → Type 0
Waits poll timeout i j = (k : ℕ) → i ≤ k → k < j → (e : ℕ) × (poll k ≡ running e) × (e < timeout)

-- The loop ends as it says, at the first poll where it can.
abbrev pub EndsAt : (ℕ → Poll) → ℕ → ℕ → Waited → Type 0
EndsAt poll timeout i (exit_code c) =
    (j : ℕ) × (i ≤ j) × (poll j ≡ exited c) × Waits poll timeout i j
EndsAt poll timeout i timed_out =
    (j : ℕ) × (i ≤ j) × (e : ℕ) × (poll j ≡ running e) × (timeout ≤ e) × Waits poll timeout i j
EndsAt poll timeout i wait_error =
    (j : ℕ) × (i ≤ j) × (poll j ≡ wait_failed) × Waits poll timeout i j
EndsAt poll timeout i no_fuel = ⊥

Waits-none : (poll : ℕ → Poll) (timeout i : ℕ) → Waits poll timeout i i
Waits-none poll timeout i k a b = absurd (omega arith)

Waits-step :
    (poll : ℕ → Poll) (timeout i j e : ℕ)
    → poll i ≡ running e
    → e < timeout
    → Waits poll timeout (i + 1) j
    → Waits poll timeout i j
Waits-step poll timeout i j e p l h k a b = elim (Bool-cases (leb k i)) [
  | inl q ↦ let s : i ≡ k = ground arith in (e, ap poll (sym s) ∙ p, l)
  | inr q ↦ h k (ground arith) b
]

ends_step :
    (poll : ℕ → Poll) (timeout i e : ℕ) (w : Waited)
    → poll i ≡ running e
    → e < timeout
    → EndsAt poll timeout (i + 1) w
    → EndsAt poll timeout i w
ends_step poll timeout i e (exit_code c) p l h =
    (h.0, omega (arith, h.1), h.2, Waits-step poll timeout i h.0 e p l h.3)
ends_step poll timeout i e timed_out p l h =
    (h.0, omega (arith, h.1), h.2, h.3, h.4, Waits-step poll timeout i h.0 e p l h.5)
ends_step poll timeout i e wait_error p l h =
    (h.0, omega (arith, h.1), h.2, Waits-step poll timeout i h.0 e p l h.3)
ends_step poll timeout i e no_fuel p l h = h

-- One poll, with what it found.
wait-poll :
    (f : ℕ) (poll : ℕ → Poll) (timeout i : ℕ) (p : Poll)
    → poll i ≡ p
    → ((e : ℕ)
        → p ≡ running e
        → e < timeout
        → EndsAt poll timeout (i + 1) (wait_child f poll timeout (i + 1)))
    → EndsAt poll timeout i (wait_child (suc f) poll timeout i)
unfolding wait_child
wait-poll f poll timeout i (exited c) h next =
    let r : wait_child (suc f) poll timeout i ≡ exit_code c = rw (h, wait_child) refl in
    subst (EndsAt poll timeout i) (sym r) (i, omega arith, h, Waits-none poll timeout i)
wait-poll f poll timeout i wait_failed h next =
    let r : wait_child (suc f) poll timeout i ≡ wait_error = rw (h, wait_child) refl in
    subst (EndsAt poll timeout i) (sym r) (i, omega arith, h, Waits-none poll timeout i)
wait-poll f poll timeout i (running e) h next = elim (Bool-cases (leb timeout e)) [
  | inl q ↦
      let r : wait_child (suc f) poll timeout i ≡ timed_out = rw (h, wait_child) (rw q refl) in
      subst (EndsAt poll timeout i) (sym r)
        (i, omega arith, e, h, leb→le timeout e q, Waits-none poll timeout i)
  | inr q ↦
      let r : wait_child (suc f) poll timeout i ≡ wait_child f poll timeout (i + 1) =
        rw (h, wait_child) (rw q refl) in
      subst (EndsAt poll timeout i) (sym r)
        (ends_step poll timeout i e _ h (ground arith) (next e refl (ground arith)))
]

-- Where each poll of a running child comes at least 100 ms after the one before, a fuel of one more than the timeout's
-- tenths of a second is enough: the loop ends at the first poll that finds the child gone, or its wait failing, or the
-- timeout over, and it says which.
pub wait_child-EndsAt :
    (f : ℕ) (poll : ℕ → Poll) (timeout i : ℕ)
    → ((j e : ℕ) → poll j ≡ running e → 100 * j ≤ e)
    → timeout ≤ 100 * (f + i)
    → EndsAt poll timeout i (wait_child (suc f) poll timeout i)
wait_child-EndsAt zero poll timeout i h l =
    wait-poll zero poll timeout i (poll i) refl (λ e p k. absurd (omega (arith, h i e p)))
wait_child-EndsAt (suc f) poll timeout i h l =
    wait-poll (suc f) poll timeout i (poll i) refl
      (λ e p k. wait_child-EndsAt f poll timeout (i + 1) h (omega arith))

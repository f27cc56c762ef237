-- ===== src/Shipper/Oldest.antt =====
-- src/shipper/run.rs, `oldest_batch`: the least name among all batches in the listed directories.
use wazabi_edr_agent.Prelude.{
  ℕ, suc, ◌≡◌, refl, sym, ap, ◌∙◌, Bool, true, List, [], ◌∷◌, ◌++◌, Option, none, some,
  if◌then◌else◌, Bool-cases, ◌⊎◌, inl, inr, In, All,
}
use wazabi_edr_agent.Prelude.Order.{lex_leb, lex_leb_refl, lex_leb-total, lex_leb_trans}
use wazabi_edr_agent.Spool.File.{SpoolFile, is_batch}
use wazabi_edr_agent.Shipper.{Found, consider, scan_dir, scan_dirs, oldest_batch}

-- The batches of one directory, and of all listed ones, in the order of the scan.
abbrev pub batches_in : ℕ → List SpoolFile → List Found
batches_in i [] = []
batches_in i (f ∷ fs) =
    if is_batch f then record { dir = i; file = f } ∷ batches_in i fs else batches_in i fs

abbrev pub candidates : (ℕ → Bool) → ℕ → List (List SpoolFile) → List Found
candidates listed i [] = []
candidates listed i (d ∷ ds) =
    if listed i
    then batches_in i d ++ candidates listed (suc i) ds
    else candidates listed (suc i) ds

least_from : Option Found → List Found → Option Found
least_from best [] = best
least_from best (x ∷ xs) = least_from (consider best x) xs

least_from-append :
    (best : Option Found) (xs ys : List Found)
    → least_from best (xs ++ ys) ≡ least_from (least_from best xs) ys
unfolding least_from
least_from-append best [] ys = refl
least_from-append best (x ∷ xs) ys = least_from-append (consider best x) xs ys

scan_dir-least :
    (i : ℕ) (best : Option Found) (fs : List SpoolFile)
    → scan_dir i best fs ≡ least_from best (batches_in i fs)
unfolding scan_dir least_from
scan_dir-least i best [] = refl
scan_dir-least i best (f ∷ fs) = elim (Bool-cases (is_batch f)) [
  | inl e ↦ rw e (scan_dir-least i (consider best (record { dir = i; file = f })) fs)
  | inr e ↦ rw e (scan_dir-least i best fs)
]

scan_dirs-least :
    (listed : ℕ → Bool) (i : ℕ) (best : Option Found) (ds : List (List SpoolFile))
    → scan_dirs listed i best ds ≡ least_from best (candidates listed i ds)
unfolding scan_dirs
scan_dirs-least listed i best [] = unfold least_from in refl
scan_dirs-least listed i best (d ∷ ds) = elim (Bool-cases (listed i)) [
  | inl e ↦ rw e (
      scan_dirs-least listed (suc i) (scan_dir i best d) ds
      ∙ ap (λ b. least_from b (candidates listed (suc i) ds)) (scan_dir-least i best d)
      ∙ sym (least_from-append best (batches_in i d) (candidates listed (suc i) ds)))
  | inr e ↦ rw e (scan_dirs-least listed (suc i) best ds)
]

-- `x` comes no later than `y` by name.
abbrev pub Before : Found → Found → Type 0
Before x y = lex_leb x.file.name y.file.name ≡ true

Before-trans : (x y z : Found) → Before x y → Before y z → Before x z
Before-trans x y z = lex_leb_trans x.file.name y.file.name z.file.name

-- `r` is the least of `b` and `xs`.
abbrev IsLeast : Found → List Found → Found → Type 0
IsLeast b xs r = ((r ≡ b) ⊎ In r xs) × Before r b × All (Before r) xs

IsLeast-cons :
    (b x m r : Found) (xs : List Found)
    → (m ≡ b) ⊎ (m ≡ x)
    → Before m b
    → Before m x
    → IsLeast m xs r
    → IsLeast b (x ∷ xs) r
IsLeast-cons b x m r xs from mb mx (place, rm, all) = (
  elim place [
    | inl e ↦ elim from [ inl f ↦ inl (e ∙ f) | inr f ↦ inr (inl (e ∙ f)) ]
    | inr i ↦ inr (inr i)
  ],
  Before-trans r m b rm mb,
  (Before-trans r m x rm mx, all),
)

least_from-IsLeast :
    (b : Found) (xs : List Found) → (r : Found) × (least_from (some b) xs ≡ some r) × IsLeast b xs r
unfolding least_from consider
least_from-IsLeast b [] = (b, refl, (inl refl, lex_leb_refl b.file.name, tt))
least_from-IsLeast b (x ∷ xs) = elim (Bool-cases (lex_leb b.file.name x.file.name)) [
  | inl e ↦
      let (r, found, least) = least_from-IsLeast b xs in
      (r, rw e found, IsLeast-cons b x b r xs (inl refl) (lex_leb_refl b.file.name) e least)
  | inr e ↦
      let (r, found, least) = least_from-IsLeast x xs in
      (
        r,
        rw e found,
        IsLeast-cons b x x r xs (inr refl) (lex_leb-total b.file.name x.file.name e)
            (lex_leb_refl x.file.name) least,
      )
]

-- What the scan promises of the batches that it meets.
abbrev pub IsOldest : List Found → Option Found → Type 0
IsOldest xs none = xs ≡ []
IsOldest xs (some x) = In x xs × All (Before x) xs

IsOldest-least : (xs : List Found) → IsOldest xs (least_from none xs)
unfolding least_from consider
IsOldest-least [] = refl
IsOldest-least (x ∷ xs) =
    let (r, found, least) = least_from-IsLeast x xs in
    rw found (elim least.0 [ inl e ↦ inl e | inr i ↦ inr i ], (least.1, least.2))

-- The scan finds nothing only if no listed directory holds a batch; otherwise what it finds is one
-- of them, and its name is no later than that of any of them.
pub oldest_batch-IsOldest :
    (listed : ℕ → Bool) (dirs : List (List SpoolFile))
    → IsOldest (candidates listed 0 dirs) (oldest_batch listed dirs)
unfolding oldest_batch
oldest_batch-IsOldest listed dirs =
    rw (scan_dirs-least listed 0 none dirs) (IsOldest-least (candidates listed 0 dirs))

-- ===== src/Plugin/Assignment/Verified.antt =====
-- A downloaded file takes its final name only once its digest is the one of the header, where there is a header.
use wazabi_edr_agent.Prelude.{
  Bool, true, false, ◌≡◌, ◌⊎◌, inl, inr, refl, sym, ap, subst, ◌∙◌, List, [], ◌∷◌, ◌++◌, Option,
  some, map, All, Bool-cases, Option-cases, if-either, append_assoc, append-nil,
}
use wazabi_edr_agent.Prelude.Bytes.{bytes_eq_iff}
use wazabi_edr_agent.Control.Executor.Files.{ascii_lower, eq_ignore_ascii_case}
use wazabi_edr_agent.Plugin.Assignment.{
  Chars, Step, reported, asked_info, downloaded, removed_partial, removed_final, renamed, invoked,
  killed, removed_dir, Site, Result, ok, err, Run, next, ◌>>=◌, attempt, try, validate_filename,
  is_empty, verified, verify_sha, download, clear_final, place, place_final, download_and_verify,
}

-- The step gives a file its final name.
abbrev pub renames : Step → Bool
renames (renamed dir name) = true
renames (reported k p v i) = false
renames (asked_info k) = false
renames (downloaded k b d n) = false
renames (removed_partial d n) = false
renames (removed_final d n) = false
renames (invoked args) = false
renames (killed n) = false
renames (removed_dir d) = false

-- The digest that the header names, where it names one, is that of the file, but for the case of its letters.
abbrev pub Matches : Chars → Option Chars → Type 0
Matches expected actual =
    (expected ≡ [])
    ⊎ ((d : Chars) × (actual ≡ some d) × (map ascii_lower d ≡ map ascii_lower expected))

-- What a run adds to the steps.
abbrev pub Extends : {A : Type 0} → List Step → Result A × List Step → Type 0
Extends s r = (ext : List Step) × (r.1 ≡ s ++ ext)

eq_lower : (a b : Chars) → eq_ignore_ascii_case a b ≡ true → map ascii_lower a ≡ map ascii_lower b
unfolding eq_ignore_ascii_case
eq_lower a b h = (bytes_eq_iff (map ascii_lower a) (map ascii_lower b)).0 h

next-Extends :
    {A : Type 0} {B : Type 0} (f : A → Run B) (r : Result A) (s t : List Step)
    → Extends s (r, t)
    → ((a : A) (u : List Step) → Extends u (f a u))
    → Extends s (next f r t)
next-Extends f err s t h k = h
next-Extends f (ok a) s t h k =
    let x = k a t in (h.0 ++ x.0, x.1 ∙ ap (λ y. y ++ x.0) h.1 ∙ append_assoc s h.0 x.0)

bind-Extends :
    {A : Type 0} {B : Type 0} (m : Run A) (f : A → Run B) (s : List Step)
    → Extends s (m s)
    → ((a : A) (t : List Step) → Extends t (f a t))
    → Extends s ((m >>= f) s)
unfolding ◌>>=◌
bind-Extends m f s h k = next-Extends f (m s).0 s (m s).1 h k

module _ (site : Site) (pkg_id : Chars) where
  attempt-Extends : (x : Step) (s : List Step) → Extends s (attempt site x s)
  unfolding attempt
  attempt-Extends x s = (x ∷ [], refl)

  try-Extends : (x : Step) (s : List Step) → Extends s (try site x s)
  unfolding try
  try-Extends x s = (x ∷ [], refl)

  clear_final-Extends : (dir name : Chars) (s : List Step) → Extends s (clear_final site dir name s)
  unfolding clear_final
  clear_final-Extends dir name s =
      if-either (λ (r : Result (Unit {0}) × List Step). Extends s r) (Site.exists site s dir name)
        (attempt-Extends (removed_final dir name) s) ([], sym (append-nil s))

  place-Extends : (dir name : Chars) (s : List Step) → Extends s (place site dir name s)
  unfolding place ◌>>=◌ try
  place-Extends dir name s =
      if-either (λ (r : Result (Unit {0}) × List Step). Extends s r)
        (Site.done site s (renamed dir name)) (renamed dir name ∷ [], refl)
        (
          renamed dir name ∷ removed_partial dir name ∷ [],
          append_assoc s (renamed dir name ∷ []) (removed_partial dir name ∷ []),
        )

  place_final-Extends : (dir name : Chars) (s : List Step) → Extends s (place_final site dir name s)
  unfolding place_final
  place_final-Extends dir name s =
      bind-Extends (clear_final site dir name) _ s (clear_final-Extends dir name s) (λ a t.
        bind-Extends (place site dir name) _ t (place-Extends dir name t)
          (λ b u. ([], sym (append-nil u))))

  -- Nothing was renamed, and the run failed.
  abbrev pub Refused : List Step → Result Chars × List Step → Type 0
  Refused s r =
      (r.0 ≡ err) × (ext : List Step) × (r.1 ≡ s ++ ext) × All (λ x. renames x ≡ false) ext

  -- The file that was downloaded matches the header.
  abbrev pub Checked : List Step → Bool → Chars → Chars → Result Chars × List Step → Type 0
  Checked s primary dir name r =
      (expected : Chars) × (Site.expected_sha site s (downloaded pkg_id primary dir name)
        ≡ some expected)
      × Matches expected
          (Site.sha256_file_hex site (s ++ (downloaded pkg_id primary dir name ∷ [])))
      × Extends s r

  placed-Extends :
      (primary : Bool) (dir name : Chars) (s : List Step)
      → Extends s (place_final site dir name (s ++ (downloaded pkg_id primary dir name ∷ [])))
  placed-Extends primary dir name s =
      let x = place_final-Extends dir name (s ++ (downloaded pkg_id primary dir name ∷ [])) in
      (
        downloaded pkg_id primary dir name ∷ x.0,
        x.1 ∙ append_assoc s (downloaded pkg_id primary dir name ∷ []) x.0,
      )

  -- What comes after the download.
  abbrev rest_of : Bool → Chars → Chars → Chars → List Step → Result Chars × List Step
  rest_of primary dir name expected s =
      (verify_sha site dir name expected >>= λ _. place_final site dir name)
        (s ++ (downloaded pkg_id primary dir name ∷ []))

  Checked-rest :
      (primary : Bool) (dir name expected : Chars) (s : List Step)
      → Site.expected_sha site s (downloaded pkg_id primary dir name) ≡ some expected
      → Refused s (rest_of primary dir name expected s)
        ⊎ Checked s primary dir name (rest_of primary dir name expected s)
  unfolding ◌>>=◌ verify_sha verified try is_empty
  Checked-rest primary dir name [] s h = inr ([], h, inl refl, placed-Extends primary dir name s)
  Checked-rest primary dir name (c ∷ cs) s h =
      let dl = downloaded pkg_id primary dir name in
      let t = s ++ (dl ∷ []) in
      let P : Result Chars × List Step → Type 0 = λ r. Refused s r ⊎ Checked s primary dir name r in
      elim (Option-cases (Site.sha256_file_hex site t)) [
        | inl n ↦
            let q : rest_of primary dir name (c ∷ cs) s ≡ (err, t) = rw n refl in
            subst P (sym q) (inl (refl, dl ∷ [], refl, (refl, tt)))
        | inr (d, n) ↦ elim (Bool-cases (eq_ignore_ascii_case d (c ∷ cs))) [
          | inl e ↦
              let q : rest_of primary dir name (c ∷ cs) s ≡ place_final site dir name t =
                rw n (rw e refl) in
              subst P (sym q) (
                inr
                  (c ∷ cs, h, inr (d, n, eq_lower d (c ∷ cs) e), placed-Extends primary dir name s))
          | inr e ↦
              let q : rest_of primary dir name (c ∷ cs) s
                  ≡ (err, t ++ (removed_partial dir name ∷ [])) =
                rw n (rw e refl) in
              subst P (sym q) (
                inl (
                  refl,
                  dl ∷ removed_partial dir name ∷ [],
                  append_assoc s (dl ∷ []) (removed_partial dir name ∷ []),
                  (refl, (refl, tt)),
                ))
        ]
      ]

  -- However the download of a file goes, it fails and gives no file its final name, or the server answered it with a header
  -- and the file's digest is the header's, where this is not empty.
  pub download_and_verify-Checked :
      (primary : Bool) (dir name : Chars) (s : List Step)
      → Refused s (download_and_verify site pkg_id primary dir name s)
        ⊎ Checked s primary dir name (download_and_verify site pkg_id primary dir name s)
  unfolding download_and_verify download ◌>>=◌
  download_and_verify-Checked primary dir name s =
      let P : Result Chars × List Step → Type 0 = λ r. Refused s r ⊎ Checked s primary dir name r in
      elim (Bool-cases (validate_filename site name)) [
        | inr v ↦
            let q : download_and_verify site pkg_id primary dir name s ≡ (err, s) = rw v refl in
            subst P (sym q) (inl (refl, [], sym (append-nil s), tt))
        | inl v ↦
            elim (Option-cases (Site.expected_sha site s (downloaded pkg_id primary dir name))) [
              | inl n ↦
                  let q : download_and_verify site pkg_id primary dir name s
                      ≡ (err, s ++ (downloaded pkg_id primary dir name ∷ [])) =
                    rw v (rw n refl) in
                  subst P (sym q)
                    (inl (refl, downloaded pkg_id primary dir name ∷ [], refl, (refl, tt)))
              | inr (expected, n) ↦
                  let q : download_and_verify site pkg_id primary dir name s
                      ≡ rest_of primary dir name expected s =
                    rw v (rw n refl) in
                  subst P (sym q) (Checked-rest primary dir name expected s n)
            ]
      ]

-- ===== src/Control/Executor/Files/Verified.antt =====
-- No file is moved and no installer is started whose digest is not the one that the command names.
use wazabi_edr_agent.Prelude.{
  ℕ, ◌^◌, ◌<◌, ◌≡◌, ◌⊎◌, inl, inr, refl, false, List, ◌∷◌, some, length, map, All, Bool-cases,
  if-either, arith,
}
use wazabi_edr_agent.Prelude.Bytes.{codes, bytes_eq_iff}
use wazabi_edr_agent.Prelude.Json.{Json, get, as_str}
use wazabi_edr_agent.Control.Sha256.{sha256_file, hex}
use wazabi_edr_agent.Control.Sha256.Blocks.{concat, reference_digest}
use wazabi_edr_agent.Control.Sha256.Digest.{sha256_file-reference}
use wazabi_edr_agent.Control.Executor.{OsCall, spawn_installer, download_to_file, remove_file, Os}
use wazabi_edr_agent.Control.Executor.Files.{
  Outcome, nonempty, ascii_lower, eq_ignore_ascii_case, mismatch, quarantine_hashed,
  execute_quarantine_file, update_hashed, update_verified, execute_update_agent,
}

mismatch-false :
    (want actual : List ℕ)
    → mismatch (some want) actual ≡ false
    → map ascii_lower want ≡ map ascii_lower actual
unfolding mismatch eq_ignore_ascii_case
mismatch-false want actual h =
    (bytes_eq_iff (map ascii_lower want) (map ascii_lower actual)).0 (ground arith)

module _ (os : Os) where
  -- The reads of a file that give chunks of its contents, none of them empty.
  abbrev pub Holds : List OsCall → List ℕ → List (List ℕ) → Type 0
  Holds calls path cs =
      (Os.reads os calls path ≡ map some cs)
      × All (λ c. 0 < length c) cs
      × (length (concat cs) < 2 ^ 61)

  sha-Holds :
      (calls : List OsCall) (path : List ℕ) (cs : List (List ℕ))
      → Holds calls path cs
      → sha256_file (Os.reads os calls path) ≡ some (hex (reference_digest (concat cs)))
  sha-Holds calls path cs h = rw h.0 (sha256_file-reference cs h.1 h.2)

  quarantine_hashed-verified :
      (want src actual : List ℕ) (calls : List OsCall)
      → ((quarantine_hashed os (some want) src (some actual) calls).1 ≡ calls)
        ⊎ (map ascii_lower want ≡ map ascii_lower actual)
  unfolding quarantine_hashed
  quarantine_hashed-verified want src actual calls =
      elim (Bool-cases (mismatch (some want) actual)) [
        | inl e ↦ rw e (inl refl)
        | inr e ↦ inr (mismatch-false want actual e)
      ]

  -- Where the command names a digest and a file whose reads give its contents, the quarantine makes no call that changes
  -- anything, or the digest named is, but for the case of its letters, that of the standard for the contents.
  pub quarantine-verified :
      (payload : Json) (calls : List OsCall) (src want : List ℕ) (cs : List (List ℕ))
      → nonempty (as_str (get payload (codes "path"))) ≡ some src
      → as_str (get payload (codes "sha256")) ≡ some want
      → Holds calls src cs
      → ((execute_quarantine_file os payload calls).1 ≡ calls)
        ⊎ (map ascii_lower want ≡ map ascii_lower (hex (reference_digest (concat cs))))
  unfolding execute_quarantine_file
  quarantine-verified payload calls src want cs p w h =
      let P : Outcome → Type 0 = λ o.
        (o.1 ≡ calls)
        ⊎ (map ascii_lower want ≡ map ascii_lower (hex (reference_digest (concat cs)))) in
      rw (p, execute_quarantine_file)
        (rw (w, execute_quarantine_file)
          (rw (sha-Holds calls src cs h) (
            if-either P (Os.exists os calls src)
              (if-either P (Os.is_file os calls src)
                (quarantine_hashed-verified want src (hex (reference_digest (concat cs))) calls)
                (inl refl))
              (inl refl))))

  -- Where the command names a digest, and the reads of what was downloaded give its contents, an update stops at the
  -- download, or removes what it downloaded, or the digest named is, but for the case of its letters, that of the standard
  -- for the contents and the installer is started.
  pub update-verified :
      (payload : Json) (calls : List OsCall) (url want : List ℕ) (cs : List (List ℕ))
      → nonempty (as_str (get payload (codes "download_url"))) ≡ some url
      → as_str (get payload (codes "sha256")) ≡ some want
      → Holds (download_to_file url (Os.installer_path os) ∷ calls) (Os.installer_path os) cs
      → ((execute_update_agent os payload calls).1
          ≡ download_to_file url (Os.installer_path os) ∷ calls)
        ⊎ ((execute_update_agent os payload calls).1
            ≡ remove_file (Os.installer_path os)
              ∷ download_to_file url (Os.installer_path os)
              ∷ calls)
        ⊎ ((map ascii_lower want ≡ map ascii_lower (hex (reference_digest (concat cs))))
            × ((execute_update_agent os payload calls).1
                ≡ spawn_installer (Os.installer_path os)
                  ∷ download_to_file url (Os.installer_path os)
                  ∷ calls))
  unfolding execute_update_agent update_hashed update_verified
  update-verified payload calls url want cs p w h =
      let installer = Os.installer_path os in
      let got = download_to_file url installer ∷ calls in
      let actual = hex (reference_digest (concat cs)) in
      let P : Outcome → Type 0 = λ o.
        (o.1 ≡ got)
        ⊎ (o.1 ≡ remove_file installer ∷ got)
        ⊎ ((map ascii_lower want ≡ map ascii_lower actual)
            × (o.1 ≡ spawn_installer installer ∷ got)) in
      rw (p, execute_update_agent)
        (rw (w, execute_update_agent)
          (rw (sha-Holds got installer cs h) (
            if-either P (Os.answer os calls (download_to_file url installer))
              (elim (Bool-cases (mismatch (some want) actual)) [
                | inl e ↦ rw e (inr (inl refl))
                | inr e ↦
                    let m = mismatch-false want actual e in
                    rw e (
                      if-either P (Os.answer os got (spawn_installer installer))
                        (inr (inr (m, refl))) (inr (inr (m, refl))))
              ])
              (inl refl))))

-- ===== src/Plugin/Handshake/Accept.antt =====
-- src/plugin/server.rs, `validate_handshake`: a plugin is let in exactly when it passes every check.
use wazabi_edr_agent.Prelude.{
  ℕ, subst, when, unless, ◌≡◌, refl, sym, ap, ◌∙◌, Bool, true, false, Option, none, some, List,
  arith, ◌==◌, ==_iff, if◌then◌else◌, String, ◌↔◌, Option-cases, inl, inr, Bool-cases, ◌⊎◌,
}
use text.Mathlib.TextEquality.{eq_iff}
use wazabi_edr_agent.Prelude.Text.{text_eq-true}
use wazabi_edr_agent.Plugin.Protocol.{Hello, schema_version, unknown_plugin_id, schema_mismatch}
use wazabi_edr_agent.Plugin.Manifest.{
  PluginManifest, ManifestStore, DirEntry, get, load_dir, paths_match,
}
use wazabi_edr_agent.Plugin.Manifest.Store.{load_dir-HasIntegrity}
use wazabi_edr_agent.Plugin.Handshake.{
  ClientIdentity, Checks, accept, reject, validate_handshake, manifest_step, hash_step,
  signature_step, hash_matches,
}

-- The image has the hash, up to the case of its digits.
abbrev pub HasHash : Checks → String → String → Type 0
HasHash checks image expected =
    (actual : String) × (Checks.sha256_file_hex checks image ≡ some actual)
    × (Checks.to_ascii_lowercase checks actual ≡ Checks.to_ascii_lowercase checks expected)

-- A check that a manifest may ask for.
abbrev pub Passes : Option String → (String → Type 0) → Type 0
Passes o P = (o ≡ none) ⊎ ((s : String) × (o ≡ some s) × P s)

-- What is checked of the image of an accepted plugin: of a signature that it is valid, not whose it is.
abbrev pub Cleared : Checks → String → PluginManifest → Type 0
Cleared checks image m =
    (PluginManifest.revoked m ≡ false)
    × (paths_match (Checks.to_lowercase checks) image (PluginManifest.expected_path m) ≡ true)
    × Passes (PluginManifest.expected_sha256 m) (HasHash checks image)
    × Passes (PluginManifest.expected_signer m)
        (λ s. Checks.verify_authenticode checks image ≡ true)

abbrev pub Admissible : Checks → Hello → String → PluginManifest → Type 0
Admissible checks hello image m =
    (Hello.schema_version hello ≡ schema_version) × Cleared checks image m

module _ (checks : Checks) (hello : Hello) (identity : ClientIdentity) where
  abbrev image : String
  image = ClientIdentity.image_path identity

  signature_step-accept :
      (m m' : PluginManifest)
      → signature_step checks hello identity m ≡ accept m'
      → (m ≡ m')
        × Passes
            (PluginManifest.expected_signer m)
            (λ s. Checks.verify_authenticode checks image ≡ true)
  unfolding signature_step
  signature_step-accept m m' h = elim (Option-cases (PluginManifest.expected_signer m)) [
    | inl e ↦ (ground (arith, e, h), inl e)
    | inr (s, e) ↦ elim (Bool-cases (Checks.verify_authenticode checks image)) [
      | inl v ↦ (ground (arith, e, v, h), inr (s, e, v))
      | inr v ↦ absurd (ground (arith, e, v, h))
    ]
  ]

  accept-signature_step :
      (m : PluginManifest)
      → Passes
          (PluginManifest.expected_signer m)
          (λ s. Checks.verify_authenticode checks image ≡ true)
      → signature_step checks hello identity m ≡ accept m
  unfolding signature_step
  accept-signature_step m (inl e) = ground (arith, e)
  accept-signature_step m (inr (s, e, v)) = ground (arith, e, v)

  hash_matches_iff :
      (expected : String) (o : Option String)
      → (hash_matches checks hello identity expected o ≡ true) ↔ (
          (actual : String) × (o ≡ some actual)
          × (Checks.to_ascii_lowercase checks actual ≡ Checks.to_ascii_lowercase checks expected))
  unfolding hash_matches
  hash_matches_iff expected none = (λ h. cc h, λ (a, e, _). cc e)
  hash_matches_iff expected (some actual) = (
    λ h. (actual, refl, text_eq-true _ _ h),
    λ (a, e, g). ground (
      arith,
      eq_iff (Checks.to_ascii_lowercase checks actual) (Checks.to_ascii_lowercase checks expected),
      e,
      g,
    ),
  )

  hash_step-accept :
      (m m' : PluginManifest)
      → hash_step checks hello identity m ≡ accept m'
      → (m ≡ m')
        × Passes (PluginManifest.expected_sha256 m) (HasHash checks image)
        × Passes
            (PluginManifest.expected_signer m)
            (λ s. Checks.verify_authenticode checks image ≡ true)
  unfolding hash_step
  hash_step-accept m m' h = elim (Option-cases (PluginManifest.expected_sha256 m)) [
    | inl e ↦
        let rest = signature_step-accept m m' (ground (arith, e, h)) in (rest.0, inl e, rest.1)
    | inr (x, e) ↦
        elim (Bool-cases
          (hash_matches checks hello identity x (Checks.sha256_file_hex checks image))) [
            | inl v ↦
                let rest = signature_step-accept m m' (ground (arith, e, v, h)) in
                (
                  rest.0,
                  inr (x, e, (hash_matches_iff x (Checks.sha256_file_hex checks image)).0 v),
                  rest.1,
                )
            | inr v ↦ absurd (ground (arith, e, v, h))
          ]
  ]

  accept-hash_step :
      (m : PluginManifest)
      → Passes (PluginManifest.expected_sha256 m) (HasHash checks image)
      → Passes
          (PluginManifest.expected_signer m)
          (λ s. Checks.verify_authenticode checks image ≡ true)
      → hash_step checks hello identity m ≡ accept m
  unfolding hash_step
  accept-hash_step m (inl e) p = ground (arith, e, accept-signature_step m p)
  accept-hash_step m (inr (x, e, v)) p = ground (
    arith,
    e,
    (hash_matches_iff x (Checks.sha256_file_hex checks image)).1 v,
    accept-signature_step m p,
  )

  manifest_step-accept :
      (m m' : PluginManifest)
      → manifest_step checks hello identity m ≡ accept m'
      → (m ≡ m') × Cleared checks image m
  unfolding manifest_step
  manifest_step-accept m m' h = elim (Bool-cases (PluginManifest.revoked m)) [
    | inl r ↦ absurd (ground (arith, r, h))
    | inr r ↦
        elim (Bool-cases
          (paths_match (Checks.to_lowercase checks) image (PluginManifest.expected_path m))) [
            | inl e ↦
                let rest = hash_step-accept m m' (sym (unless r _ _ ∙ when e _ _) ∙ h) in
                (rest.0, (r, e, rest.1, rest.2))
            | inr e ↦ absurd (ground (arith, r, e, h))
          ]
  ]

  accepted :
      (store : ManifestStore) (m : PluginManifest)
      → validate_handshake checks hello identity store ≡ accept m
      → (get store (Hello.plugin_id hello) ≡ some m) × Admissible checks hello image m
  unfolding validate_handshake
  accepted store m h = elim (Bool-cases (Hello.schema_version hello == schema_version)) [
    | inr e ↦ absurd (ground (arith, e, h))
    | inl e ↦ elim (Option-cases (get store (Hello.plugin_id hello))) [
      | inl g ↦ absurd (ground (arith, e, g, h))
      | inr (m0, g) ↦
          let rest = manifest_step-accept m0 m (ground (arith, e, g, h)) in
          (
            g ∙ ap some (rest.0),
            (
              (==_iff (Hello.schema_version hello) schema_version).0 e,
              subst (Cleared checks image) (rest.0) (rest.1),
            ),
          )
    ]
  ]

  admitted :
      (store : ManifestStore) (m : PluginManifest)
      → (get store (Hello.plugin_id hello) ≡ some m) × Admissible checks hello image m
      → validate_handshake checks hello identity store ≡ accept m
  unfolding validate_handshake manifest_step
  admitted store m (g, (schema, (live, path, hash, signature))) =
      ap
        (λ b.
          if b
          then elim (get store (Hello.plugin_id hello)) [
            | none ↦ reject unknown_plugin_id
            | some n ↦ manifest_step checks hello identity n
          ]
          else reject schema_mismatch)
        ((==_iff (Hello.schema_version hello) schema_version).1 schema)
      ∙ ap
          (λ o. elim o [
            | none ↦ reject unknown_plugin_id
            | some n ↦ manifest_step checks hello identity n
          ])
          g
      ∙ unless live _ _
      ∙ when path _ _
      ∙ accept-hash_step m hash signature

  -- A plugin is accepted for a manifest exactly when that is the manifest the store holds under the id it announces,
  -- its schema version is the agent's, the manifest is not revoked, its image has the manifest's path up to case,
  -- the image has the hash that the manifest names, if any, up to case, and, if the manifest names a signer, the image has a
  -- valid signature, whoever signed.
  pub validate_handshake_iff :
      (store : ManifestStore) (m : PluginManifest)
      → (validate_handshake checks hello identity store ≡ accept m)
        ↔ ((get store (Hello.plugin_id hello) ≡ some m) × Admissible checks hello image m)
  validate_handshake_iff store m = (accepted store m, admitted store m)

-- A plugin that is accepted from a store read from a directory has shown the hash that its manifest names, up to case, or
-- its manifest names a signer and its image has a valid signature, whoever signed.
pub validate_handshake-HasIntegrity :
    (checks : Checks) (hello : Hello) (identity : ClientIdentity)
    (from_slice : List ℕ → Option PluginManifest) (fp : ℕ) (exists : Bool)
    (listing : Option (List DirEntry)) (store : ManifestStore) (m : PluginManifest)
    → load_dir from_slice fp exists listing ≡ some store
    → validate_handshake checks hello identity store ≡ accept m
    → ((expected : String) × (PluginManifest.expected_sha256 m ≡ some expected)
        × HasHash checks (ClientIdentity.image_path identity) expected)
      ⊎ ((signer : String) × (PluginManifest.expected_signer m ≡ some signer)
          × (Checks.verify_authenticode checks (ClientIdentity.image_path identity) ≡ true))
validate_handshake-HasIntegrity checks hello identity from_slice fp exists listing store m l h =
    let a = accepted checks hello identity store m h in
    let i =
      load_dir-HasIntegrity from_slice fp exists listing store l (Hello.plugin_id hello) m a.0 in
    checked (PluginManifest.expected_sha256 m) (PluginManifest.expected_signer m) i.1 a.1.1.2
      a.1.1.3
  where
    checked :
        {P : String → Type 0} {Q : Type 0} (o s : Option String)
        → ((x : String) × (o ≡ some x)) ⊎ ((x : String) × (s ≡ some x))
        → Passes o P
        → Passes s (λ x. Q)
        → ((x : String) × (o ≡ some x) × P x) ⊎ ((x : String) × (s ≡ some x) × Q)
    checked o s (inl (x, e)) (inl n) q = absurd (cc (e, n))
    checked o s (inl (x, e)) (inr (y, f, p)) q = inl (y, f, p)
    checked o s (inr (x, e)) p (inl n) = absurd (cc (e, n))
    checked o s (inr (x, e)) p (inr (y, f, q)) = inr (y, f, q)

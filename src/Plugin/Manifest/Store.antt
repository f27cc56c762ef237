-- ===== src/Plugin/Manifest/Store.antt =====
-- src/plugin/manifest.rs: which manifests a store that was read from a directory holds.
use wazabi_edr_agent.Prelude.{
  ℕ, ◌≡◌, ◌≢◌, refl, sym, ap, ◌∙◌, Bool, true, false, List, [], ◌∷◌, Option, none, some, String,
  arith, if◌then◌else◌, inl, inr, ◌⊎◌, Bool-cases, Option-cases, when, unless,
}
use wazabi_edr_agent.Prelude.Text.{
  text_eq, Dict, lookup, keys, text_eq-true, contains-In, In-contains, lookup-none, none-lookup,
  lookup-insert,
}
use wazabi_edr_agent.Plugin.Manifest.{
  PluginManifest, ManifestFile, DirEntry, entry, entry_failed, ManifestStore, get, load_one,
  validate, parsed, is_none, keep_first, load_entries, load_dir,
}

-- The manifest of a file that loads, if it is the one of a given plugin.
named : String → Option PluginManifest → Option PluginManifest
named k none = none
named k (some m) = if text_eq (PluginManifest.plugin_id m) k then some m else none

otherwise : Option PluginManifest → Option PluginManifest → Option PluginManifest
otherwise none later = later
otherwise (some m) later = some m

otherwise-none : (o : Option PluginManifest) → o ≡ otherwise o none
unfolding otherwise
otherwise-none none = refl
otherwise-none (some m) = refl

otherwise_assoc :
    (a b c : Option PluginManifest) → otherwise (otherwise a b) c ≡ otherwise a (otherwise b c)
unfolding otherwise
otherwise_assoc none b c = refl
otherwise_assoc (some m) b c = refl

none≢some : {A : Type 0} {a : A} → none ≢ some a
none≢some h = cc h

-- The first `.json` file of a listing whose valid manifest is that of plugin `k`.
unfoldable pub first_named :
    (List ℕ → Option PluginManifest) → String → List DirEntry → Option PluginManifest
unfolding named otherwise
first_named from_slice k [] = none
first_named from_slice k (entry_failed ∷ es) = first_named from_slice k es
first_named from_slice k (entry file ∷ es) =
    if text_eq (ManifestFile.extension file) "json"
    then otherwise (named k (load_one from_slice file)) (first_named from_slice k es)
    else first_named from_slice k es

-- A manifest with an integrity check.
abbrev pub HasIntegrity : PluginManifest → Type 0
HasIntegrity m =
    ((s : String) × (PluginManifest.expected_sha256 m ≡ some s))
    ⊎ ((s : String) × (PluginManifest.expected_signer m ≡ some s))

module _ (from_slice : List ℕ → Option PluginManifest) where
  validate-HasIntegrity :
      (stem : String) (m m' : PluginManifest)
      → validate from_slice stem m ≡ some m'
      → (m ≡ m') × (stem ≡ PluginManifest.plugin_id m') × HasIntegrity m'
  unfolding validate is_none
  validate-HasIntegrity stem m m' h =
      let a = PluginManifest.expected_sha256 m in
      let b = PluginManifest.expected_signer m in
      elim (Bool-cases (text_eq stem (PluginManifest.plugin_id m))) [
        | inr e ↦ absurd (none≢some (sym (unless e _ _) ∙ h))
        | inl e ↦ elim (Option-cases a) [
          | inr (x, ea) ↦
              let same : m ≡ m' = ground (arith, e, ea, h) in
              (
                same,
                text_eq-true stem _ e ∙ ap PluginManifest.plugin_id same,
                inl (x, sym (ap PluginManifest.expected_sha256 same) ∙ ea),
              )
          | inl ea ↦ elim (Option-cases b) [
            | inr (x, eb) ↦
                let same : m ≡ m' = ground (arith, e, ea, eb, h) in
                (
                  same,
                  text_eq-true stem _ e ∙ ap PluginManifest.plugin_id same,
                  inr (x, sym (ap PluginManifest.expected_signer same) ∙ eb),
                )
            | inl eb ↦ absurd (ground (arith, e, ea, eb, h))
          ]
        ]
      ]

  keep_first-lookup :
      (k : String) (by_id : Dict PluginManifest) (o : Option PluginManifest)
      → lookup (keep_first from_slice by_id o) k ≡ otherwise (lookup by_id k) (named k o)
  unfolding keep_first otherwise named
  keep_first-lookup k by_id none = otherwise-none (lookup by_id k)
  keep_first-lookup k by_id (some m) =
      let p = PluginManifest.plugin_id m in
      ground (
        arith,
        lookup-insert by_id p k m,
        contains-In (keys by_id) p,
        In-contains (keys by_id) p,
        none-lookup by_id k,
        lookup-none by_id k,
        text_eq-true p k,
      )

  load_entries-lookup :
      (k : String) (by_id by_id' : Dict PluginManifest) (es : List DirEntry)
      → load_entries from_slice by_id es ≡ some by_id'
      → lookup by_id' k ≡ otherwise (lookup by_id k) (first_named from_slice k es)
  unfolding load_entries first_named otherwise
  load_entries-lookup k by_id by_id' [] h = ground (arith, h, otherwise-none (lookup by_id k))
  load_entries-lookup k by_id by_id' (entry_failed ∷ es) h = absurd (cc (h))
  load_entries-lookup k by_id by_id' (entry file ∷ es) h =
      elim (Bool-cases (text_eq (ManifestFile.extension file) "json")) [
        | inr e ↦
            load_entries-lookup k by_id by_id' es (sym (unless e _ _) ∙ h)
            ∙ ap (otherwise (lookup by_id k)) (sym (unless e _ _))
        | inl e ↦
            let next = keep_first from_slice by_id (load_one from_slice file) in
            load_entries-lookup k next by_id' es (sym (when e _ _) ∙ h)
            ∙ ap (λ o. otherwise o (first_named from_slice k es))
                (keep_first-lookup k by_id (load_one from_slice file))
            ∙ otherwise_assoc (lookup by_id k) (named k (load_one from_slice file))
                (first_named from_slice k es)
            ∙ ap (otherwise (lookup by_id k)) (sym (when e _ _))
      ]

-- A store that was read from a listed directory holds, under an id, exactly the manifest of the first `.json` file of
-- the listing that is valid and of that plugin, and nothing where there is no such file.
pub load_dir-first_named :
    (from_slice : List ℕ → Option PluginManifest) (fp : ℕ) (es : List DirEntry)
    (store : ManifestStore)
    → load_dir from_slice fp true (some es) ≡ some store
    → (k : String) → get store k ≡ first_named from_slice k es
unfolding load_dir otherwise
load_dir-first_named from_slice fp es store h k =
    elim (Option-cases (load_entries from_slice [] es)) [
      | inl e ↦ absurd (ground (arith, e, h))
      | inr (by_id, e) ↦
          let same : by_id ≡ ManifestStore.by_id store = ground (arith, e, h) in
          ap (λ d. lookup d k) (sym same) ∙ load_entries-lookup from_slice k [] by_id es e
    ]

load_one-HasIntegrity :
    (from_slice : List ℕ → Option PluginManifest) (file : ManifestFile) (m : PluginManifest)
    → load_one from_slice file ≡ some m
    → HasIntegrity m
unfolding load_one parsed
load_one-HasIntegrity from_slice file m h = elim (Option-cases (ManifestFile.bytes file)) [
  | inl e ↦ absurd (ground (arith, e, h))
  | inr (b, e) ↦ elim (Option-cases (from_slice b)) [
    | inl e2 ↦ absurd (ground (arith, e, e2, h))
    | inr (m0, e2) ↦
        (validate-HasIntegrity from_slice (ManifestFile.stem file) m0 m
          (ground (arith, e, e2, h))).2
  ]
]

first_named-HasIntegrity :
    (from_slice : List ℕ → Option PluginManifest) (k : String) (es : List DirEntry)
    (m : PluginManifest)
    → first_named from_slice k es ≡ some m
    → (PluginManifest.plugin_id m ≡ k) × HasIntegrity m
unfolding first_named otherwise named
first_named-HasIntegrity from_slice k [] m h = absurd (cc h)
first_named-HasIntegrity from_slice k (entry_failed ∷ es) m h =
    first_named-HasIntegrity from_slice k es m h
first_named-HasIntegrity from_slice k (entry file ∷ es) m h =
    let later = first_named-HasIntegrity from_slice k es m in
    let o = load_one from_slice file in
    elim (Bool-cases (text_eq (ManifestFile.extension file) "json")) [
      | inr e ↦ later (sym (unless e _ _) ∙ h)
      | inl e ↦ elim (Option-cases o) [
        | inl e1 ↦ later (ground (arith, e, e1, h))
        | inr (m0, e1) ↦ elim (Bool-cases (text_eq (PluginManifest.plugin_id m0) k)) [
          | inr e2 ↦ later (ground (arith, e, e1, e2, h))
          | inl e2 ↦
              let same : m0 ≡ m = ground (arith, e, e1, e2, h) in
              (
                sym (ap PluginManifest.plugin_id same)
                    ∙ text_eq-true (PluginManifest.plugin_id m0) k e2,
                load_one-HasIntegrity from_slice file m (e1 ∙ ap some same),
              )
        ]
      ]
    ]

-- Every manifest of a store that was read from a directory, listed or missing, stands under its own id and declares a
-- hash or a signer.
pub load_dir-HasIntegrity :
    (from_slice : List ℕ → Option PluginManifest) (fp : ℕ) (exists : Bool)
    (listing : Option (List DirEntry)) (store : ManifestStore)
    → load_dir from_slice fp exists listing ≡ some store
    → (k : String) (m : PluginManifest) → get store k ≡ some m
    → (PluginManifest.plugin_id m ≡ k) × HasIntegrity m
unfolding load_dir
load_dir-HasIntegrity from_slice fp false listing store h k m g =
    let same : [] ≡ ManifestStore.by_id store = ground (arith, h) in
    absurd (none≢some (ap (λ d. lookup d k) same ∙ g))
load_dir-HasIntegrity from_slice fp true none store h k m g = absurd (cc h)
load_dir-HasIntegrity from_slice fp true (some es) store h k m g =
    first_named-HasIntegrity from_slice k es m
      (sym (load_dir-first_named from_slice fp es store h k) ∙ g)

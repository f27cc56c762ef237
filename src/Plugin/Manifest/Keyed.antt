-- ===== src/Plugin/Manifest/Keyed.antt =====
-- src/plugin/manifest.rs: a store that was read from a directory holds each manifest under its own id, and each id once.
use wazabi_edr_agent.Prelude.{
  ℕ, ◌≡◌, refl, sym, ◌∙◌, subst, Bool, true, false, List, [], ◌∷◌, Option, none, some, String,
  arith, All, if-either, inl, inr, Bool-cases, Option-cases, when, unless,
}
use wazabi_edr_agent.Prelude.Text.{
  text_eq, text_eq-true, Dict, insert, keys, contains, Distinct, Distinct-insert,
}
use wazabi_edr_agent.Plugin.Manifest.{
  PluginManifest, ManifestFile, DirEntry, entry, entry_failed, ManifestStore, load_one, keep_first,
  load_entries, load_dir,
}

some_injective : {a b : Dict PluginManifest} → some a ≡ some b → a ≡ b
some_injective h = cc h

-- Each manifest under its own id, and each id once.
abbrev pub Keyed : Dict PluginManifest → Type 0
Keyed by_id =
    All (λ (e : String × PluginManifest). PluginManifest.plugin_id (e.1) ≡ e.0) by_id
    × Distinct by_id

insert-keyed :
    (d : Dict PluginManifest) (m : PluginManifest)
    → All (λ (e : String × PluginManifest). PluginManifest.plugin_id (e.1) ≡ e.0) d
    → All
        (λ (e : String × PluginManifest). PluginManifest.plugin_id (e.1) ≡ e.0)
        (insert d (PluginManifest.plugin_id m) m)
insert-keyed [] m h = (refl, tt)
insert-keyed ((k, n) ∷ d) m (e, h) = elim (Bool-cases (text_eq k (PluginManifest.plugin_id m))) [
  | inl q ↦ rw q (sym (text_eq-true k (PluginManifest.plugin_id m) q), h)
  | inr q ↦ rw q (e, insert-keyed d m h)
]

module _ (from_slice : List ℕ → Option PluginManifest) where
  keep_first-Keyed :
      (d : Dict PluginManifest) (o : Option PluginManifest)
      → Keyed d
      → Keyed (keep_first from_slice d o)
  unfolding keep_first
  keep_first-Keyed d none h = h
  keep_first-Keyed d (some m) h =
      let k = PluginManifest.plugin_id m in
      if-either Keyed (contains (keys d) k) h (insert-keyed d m h.0, Distinct-insert d k m h.1)

  load_entries-Keyed :
      (es : List DirEntry) (d d' : Dict PluginManifest)
      → load_entries from_slice d es ≡ some d'
      → Keyed d
      → Keyed d'
  unfolding load_entries
  load_entries-Keyed [] d d' e h = subst Keyed (some_injective e) h
  load_entries-Keyed (entry_failed ∷ es) d d' e h = absurd (cc e)
  load_entries-Keyed (entry file ∷ es) d d' e h =
      elim (Bool-cases (text_eq (ManifestFile.extension file) "json")) [
        | inl q ↦
            load_entries-Keyed es (keep_first from_slice d (load_one from_slice file)) d'
              (sym (when q _ _) ∙ e) (keep_first-Keyed d (load_one from_slice file) h)
        | inr q ↦ load_entries-Keyed es d d' (sym (unless q _ _) ∙ e) h
      ]

  pub load_dir-Keyed :
      (fp : ℕ) (exists : Bool) (listing : Option (List DirEntry)) (store : ManifestStore)
      → load_dir from_slice fp exists listing ≡ some store
      → Keyed (ManifestStore.by_id store)
  unfolding load_dir
  load_dir-Keyed fp false listing store h =
      let same : [] ≡ ManifestStore.by_id store = ground (arith, h) in subst Keyed same (tt, tt)
  load_dir-Keyed fp true none store h = absurd (cc h)
  load_dir-Keyed fp true (some es) store h = elim (Option-cases (load_entries from_slice [] es)) [
    | inl e ↦ absurd (ground (arith, e, h))
    | inr (d, e) ↦
        let same : d ≡ ManifestStore.by_id store = ground (arith, e, h) in
        subst Keyed same (load_entries-Keyed es [] d e (tt, tt))
  ]

-- ===== src/Plugin/Manifest.antt =====
-- src/plugin/manifest.rs: the store of plugin manifests and its fingerprint. serde, the file system and the
-- lowercase of Unicode are parameters.
pub mod Store
pub mod Keyed
use wazabi_edr_agent.Prelude.{
  ℕ, zero, suc, ◌+◌, ◌*◌, ◌/◌, ◌%◌, ◌^◌, Bool, true, false, List, [], ◌∷◌, ◌++◌, Option, none, some,
  String, if◌then◌else◌, length,
}
use wazabi_edr_agent.Prelude.Text.{text_eq, Dict, lookup, insert, keys, contains}
use wazabi_edr_agent.Prelude.Bytes.{codes}
use wazabi_edr_agent.Prelude.Order.{sort_by, lex_leb}
use wazabi_edr_agent.Plugin.Fnv.{offset_basis, absorb, le_bytes}

pub record PluginManifest : Type 0 where
  pub plugin_id : String
  pub name : String
  pub vendor : String
  pub expected_path : String
  pub expected_sha256 : Option String
  pub expected_signer : Option String
  pub revoked : Bool
  pub enrolled_at : Option String
  pub auto_launch : Bool
  pub env : List (String × String)

-- A file of the directory: `file_stem`, `extension`, and what `fs::read` gives, if anything.
pub record ManifestFile : Type 0 where
  pub stem : String
  pub extension : String
  pub bytes : Option (List ℕ)

-- What `fs::read_dir` gives, entry by entry; an entry may fail.
pub data DirEntry : Type 0 where
  entry : ManifestFile → DirEntry
  entry_failed : DirEntry

pub record ManifestStore : Type 0 where
  pub by_id : Dict PluginManifest
  pub fingerprint : ℕ

abbrev pub empty : ManifestStore
empty = record { by_id = []; fingerprint = 0 }

abbrev pub get : ManifestStore → String → Option PluginManifest
get store plugin_id = lookup (ManifestStore.by_id store) plugin_id

unfoldable pub is_none : Option String → Bool
is_none none = true
is_none (some s) = false

-- serde's reader of a manifest.
module _ (from_slice : List ℕ → Option PluginManifest) where
  unfoldable pub validate : String → PluginManifest → Option PluginManifest
  unfolding is_none
  validate stem m =
      if text_eq stem (PluginManifest.plugin_id m)
      then (if is_none (PluginManifest.expected_sha256 m)
          then (if is_none (PluginManifest.expected_signer m) then none else some m)
          else some m)
      else none

  unfoldable pub parsed : String → Option PluginManifest → Option PluginManifest
  unfolding validate
  parsed stem none = none
  parsed stem (some m) = validate stem m

  -- `load_one` without the texts of its errors.
  unfoldable pub load_one : ManifestFile → Option PluginManifest
  unfolding parsed
  load_one file = elim (ManifestFile.bytes file) [
    | none ↦ none
    | some b ↦ parsed (ManifestFile.stem file) (from_slice b)
  ]

  unfoldable pub keep_first : Dict PluginManifest → Option PluginManifest → Dict PluginManifest
  keep_first by_id none = by_id
  keep_first by_id (some m) =
      if contains (keys by_id) (PluginManifest.plugin_id m)
      then by_id
      else insert by_id (PluginManifest.plugin_id m) m

  unfoldable pub load_entries : Dict PluginManifest → List DirEntry → Option (Dict PluginManifest)
  unfolding keep_first
  load_entries by_id [] = some by_id
  load_entries by_id (entry_failed ∷ es) = none
  load_entries by_id (entry file ∷ es) =
      if text_eq (ManifestFile.extension file) "json"
      then load_entries (keep_first by_id (load_one file)) es
      else load_entries by_id es

  -- A directory that is missing, that `read_dir` refuses, or that it lists.
  unfoldable pub load_dir : ℕ → Bool → Option (List DirEntry) → Option ManifestStore
  load_dir fingerprint exists listing =
      if exists
      then elim listing [
        | none ↦ none
        | some es ↦ elim (load_entries [] es) [
          | none ↦ none
          | some by_id ↦ some (record { by_id = by_id; fingerprint = fingerprint })
        ]
      ]
      else some (record { by_id = []; fingerprint = fingerprint })

-- What the fingerprint reads of a file: its name, `mtime` in nanoseconds, and its size.
pub record Stamp : Type 0 where
  pub file_name : List ℕ
  pub mtime_ns : ℕ
  pub size : ℕ

absorb_all : ℕ → List Stamp → ℕ
unfolding absorb le_bytes
absorb_all h [] = h
absorb_all h (t ∷ ts) =
    absorb_all
      (absorb (absorb (absorb h (Stamp.file_name t)) (le_bytes 16 (Stamp.mtime_ns t)))
        (le_bytes 8 (Stamp.size t)))
      ts

-- `none` when the directory cannot be read.
unfoldable pub directory_fingerprint : Option (List Stamp) → ℕ
unfolding absorb_all
directory_fingerprint none = 0
directory_fingerprint (some stamps) = absorb_all offset_basis (sort_by Stamp.file_name stamps)

abbrev pub paths_match : (String → String) → String → String → Bool
paths_match to_lowercase a b = text_eq (to_lowercase a) (to_lowercase b)

-- ===== src/Plugin/Handshake.antt =====
-- src/plugin/server.rs, `validate_handshake`: which plugins are let in. The hash of a file, the check of its
-- signature and the lowercase of Unicode are parameters.
pub mod Accept
use wazabi_edr_agent.Prelude.{
  ℕ, ◌≡◌, Bool, true, false, Option, none, some, List, arith, ◌==◌, if◌then◌else◌, String, ◌↔◌,
  refl, Option-cases, inl, inr, Bool-cases, ◌⊎◌,
}
use wazabi_edr_agent.Prelude.Text.{text_eq}
use wazabi_edr_agent.Plugin.Protocol.{
  Hello, RejectReason, schema_version, schema_mismatch, unknown_plugin_id, revoked, path_mismatch,
  hash_mismatch, signature_invalid,
}
use wazabi_edr_agent.Plugin.Manifest.{PluginManifest, ManifestStore, get, paths_match}

-- `identity.rs`: what the operating system says of the client.
pub record ClientIdentity : Type 0 where
  pub pid : ℕ
  pub image_path : String

pub record Checks : Type 0 where
  pub to_lowercase : String → String
  pub to_ascii_lowercase : String → String
  pub sha256_file_hex : String → Option String
  pub verify_authenticode : String → Bool

pub data Verdict : Type 0 where
  accept : PluginManifest → Verdict
  reject : RejectReason → Verdict

module _ (checks : Checks) (hello : Hello) (identity : ClientIdentity) where
  unfoldable pub signature_step : PluginManifest → Verdict
  signature_step m = elim (PluginManifest.expected_signer m) [
    | none ↦ accept m
    | some s ↦
        if Checks.verify_authenticode checks (ClientIdentity.image_path identity)
        then accept m
        else reject signature_invalid
  ]

  unfoldable pub hash_matches : String → Option String → Bool
  hash_matches expected none = false
  hash_matches expected (some actual) =
      text_eq (Checks.to_ascii_lowercase checks actual) (Checks.to_ascii_lowercase checks expected)

  unfoldable pub hash_step : PluginManifest → Verdict
  unfolding signature_step hash_matches
  hash_step m = elim (PluginManifest.expected_sha256 m) [
    | none ↦ signature_step m
    | some expected ↦
        if hash_matches expected
          (Checks.sha256_file_hex checks (ClientIdentity.image_path identity))
        then signature_step m
        else reject hash_mismatch
  ]

  unfoldable pub manifest_step : PluginManifest → Verdict
  unfolding hash_step
  manifest_step m =
      if PluginManifest.revoked m
      then reject revoked
      else if paths_match (Checks.to_lowercase checks) (ClientIdentity.image_path identity)
          (PluginManifest.expected_path m)
      then hash_step m
      else reject path_mismatch

  unfoldable pub validate_handshake : ManifestStore → Verdict
  unfolding manifest_step
  validate_handshake store =
      if Hello.schema_version hello == schema_version
      then elim (get store (Hello.plugin_id hello)) [
        | none ↦ reject unknown_plugin_id
        | some m ↦ manifest_step m
      ]
      else reject schema_mismatch

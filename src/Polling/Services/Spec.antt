-- ===== src/Polling/Services/Spec.antt =====
-- src/polling/services.rs: which change of the services each event of the diff stands for.
use wazabi_edr_agent.Prelude.{◌≡◌, Bool, true, false, ◌&&◌, ◌≢◌, ◌↔◌, none, some, String, arith}
use wazabi_edr_agent.Prelude.Text.{Dict, lookup}
use text.Mathlib.TextEquality.{eq_iff}
use wazabi_edr_agent.Polling.Services.{
  ServiceSnapshot, same_config, snapshot_eq, bool_eq, DiffEntry, create_entry, delete_entry,
  modify_entry, transition_entry,
}

-- All but the running state agree.
pub record SameConfig (a b : ServiceSnapshot) : Type 0 where
  pub binary_path : a.binary_path ≡ b.binary_path
  pub start_type : a.start_type ≡ b.start_type
  pub service_type : a.service_type ≡ b.service_type
  pub account : a.account ≡ b.account
  pub display_name : a.display_name ≡ b.display_name

-- The changes between two maps, each with the event that reports it.
pub data Change (prev next : Dict ServiceSnapshot) (e : DiffEntry) : Type 0 where
  created :
      (name : String) (snap : ServiceSnapshot)
      → lookup prev name ≡ none
      → lookup next name ≡ some snap
      → e ≡ create_entry name
      → Change prev next e
  deleted :
      (name : String) (old : ServiceSnapshot)
      → lookup prev name ≡ some old
      → lookup next name ≡ none
      → e ≡ delete_entry name
      → Change prev next e
  turned :
      (name : String) (old snap : ServiceSnapshot)
      → lookup prev name ≡ some old
      → lookup next name ≡ some snap
      → old.running ≢ snap.running
      → e ≡ transition_entry snap.running name
      → Change prev next e
  modified :
      (name : String) (old snap : ServiceSnapshot)
      → lookup prev name ≡ some old
      → lookup next name ≡ some snap
      → ¬ SameConfig old snap
      → e ≡ modify_entry name
      → Change prev next e

pub same_config_iff : (a b : ServiceSnapshot) → (same_config a b ≡ true) ↔ SameConfig a b
unfolding same_config
same_config_iff a b = (
  λ h. ground (
    arith,
    eq_iff a.binary_path b.binary_path,
    eq_iff a.account b.account,
    eq_iff a.display_name b.display_name,
  ),
  λ h. ground (
    arith,
    eq_iff a.binary_path b.binary_path,
    eq_iff a.account b.account,
    eq_iff a.display_name b.display_name,
  ),
)

pub bool_eq_iff : (a b : Bool) → (bool_eq a b ≡ true) ↔ (a ≡ b)
bool_eq_iff true b = (λ h. ground arith, λ h. ground arith)
bool_eq_iff false b = (λ h. ground arith, λ h. ground arith)

-- The derived equality splits into the two tests of `compute_diff`.
pub snapshot_eq-split :
    (a b : ServiceSnapshot) → snapshot_eq a b ≡ bool_eq a.running b.running && same_config a b
unfolding snapshot_eq same_config
snapshot_eq-split a b = ground arith

-- ===== src/Polling/Services/Snapshot.antt =====
-- src/polling/services.rs, `enumerate_services`: what a snapshot says of each service listed.
use wazabi_edr_agent.Prelude.{
  ◌≡◌, Bool, List, [], ◌∷◌, Option, none, some, inl, inr, Bool-cases, Option-cases, All, ◌≢◌, subst,
}
use wazabi_edr_agent.Prelude.Text.{text_eq, Dict, insert, Distinct, Distinct-insert}
use wazabi_edr_agent.Polling.Services.{ServiceSnapshot}
use wazabi_edr_agent.Polling.Services.Enumerate.{
  ServiceEntry, ServiceConfig, ScmIo, snapshot_of, collect, listed_entries, enumerate_services,
}

-- The configuration of a snapshot is what a query answered; a failed query leaves it empty.
abbrev pub Queried : Option ServiceConfig → ServiceSnapshot → Type 0
Queried none s = (s.binary_path ≡ "") × (s.start_type ≡ 0) × (s.service_type ≡ 0) × (s.account ≡ "")
Queried (some c) s =
    (s.binary_path ≡ c.binary_path)
    × (s.start_type ≡ c.start_type)
    × (s.service_type ≡ c.service_type)
    × (s.account ≡ c.account)

-- It is that of the snapshot before.
abbrev pub Reused : ServiceSnapshot → ServiceSnapshot → Type 0
Reused old s =
    (old.running ≡ s.running)
    × (old.binary_path ≢ "")
    × (s.binary_path ≡ old.binary_path)
    × (s.start_type ≡ old.start_type)
    × (s.service_type ≡ old.service_type)
    × (s.account ≡ old.account)

collect-Distinct :
    (snap : ServiceEntry → ServiceSnapshot) (es : List ServiceEntry) (map : Dict ServiceSnapshot)
    → Distinct map
    → Distinct (collect snap map es)
unfolding collect
collect-Distinct snap [] map d = d
collect-Distinct snap (e ∷ es) map d = elim (Bool-cases (text_eq e.name "")) [
  | inl p ↦ rw p (collect-Distinct snap es map d)
  | inr p ↦ rw p (
      collect-Distinct snap es (insert map e.name (snap e)) (Distinct-insert map e.name (snap e) d))
]

pub enumerate_services-listed :
    (io : ScmIo) (prev : Dict ServiceSnapshot) (full : Bool) (es : List ServiceEntry)
    → listed_entries io ≡ some es
    → enumerate_services io prev full
      ≡ some (collect (snapshot_of io.query_service_config prev full) [] es)
unfolding enumerate_services
enumerate_services-listed io prev full es h = rw (h, enumerate_services)

pub enumerate_services-unlisted :
    (io : ScmIo) (prev : Dict ServiceSnapshot) (full : Bool)
    → listed_entries io ≡ none
    → enumerate_services io prev full ≡ none
unfolding enumerate_services
enumerate_services-unlisted io prev full h = rw (h, enumerate_services)

-- A snapshot holds a name once.
pub enumerate_services-Distinct :
    (io : ScmIo) (prev : Dict ServiceSnapshot) (full : Bool) (next : Dict ServiceSnapshot)
    → enumerate_services io prev full ≡ some next
    → Distinct next
enumerate_services-Distinct io prev full next h = elim (Option-cases (listed_entries io)) [
  | inl e ↦ cc (h, enumerate_services-unlisted io prev full e)
  | inr (es, e) ↦
      let same : collect (snapshot_of io.query_service_config prev full) [] es ≡ next =
        cc (h, enumerate_services-listed io prev full es e) in
      subst Distinct same
        (collect-Distinct (snapshot_of io.query_service_config prev full) es [] tt)
]

-- The names of the entries are distinct and not empty.
abbrev pub Named : List ServiceEntry → Type 0
Named [] = Unit {0}
Named (e ∷ es) = (e.name ≢ "") × All (λ (f : ServiceEntry). f.name ≢ e.name) es × Named es

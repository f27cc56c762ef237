-- ===== src/Plugin/Supervisor/Reach.antt =====
-- src/plugin/supervisor.rs: the scans and the ends of threads in any order, from an empty supervisor.
use wazabi_edr_agent.Prelude.{
  ℕ, ◌≡◌, ◌≢◌, refl, sym, ◌∙◌, subst, inl, inr, Bool, List, [], ◌∷◌, Option, none, some, String, In,
  All, Bool-cases, when, unless,
}
use wazabi_edr_agent.Prelude.Text.{text_eq, text_eq-true, text_eq-false}
use wazabi_edr_agent.Plugin.Manifest.{PluginManifest, ManifestStore, DirEntry, load_dir}
use wazabi_edr_agent.Plugin.Manifest.Keyed.{Keyed, load_dir-Keyed}
use wazabi_edr_agent.Plugin.Supervisor.{
  Supervision, to_launch, scan_and_spawn, thread_exits, set_remove, remove_thread,
}
use wazabi_edr_agent.Plugin.Supervisor.Once.{
  id_of, OncePerId, Reserved, set_remove-In, All-map, to_launch-OncePerId, to_launch-unreserved,
  spawn_all-Reserved,
}

All-remove_thread :
    (P : PluginManifest → Type 0) (ms : List PluginManifest) (k : String)
    → All P ms
    → All P (remove_thread ms k)
unfolding remove_thread
All-remove_thread P [] k h = tt
All-remove_thread P (m ∷ ms) k (p, ps) =
    elim (Bool-cases (text_eq (PluginManifest.plugin_id m) k)) [
      | inl e ↦ subst (All P) (sym (when e ms (m ∷ remove_thread ms k))) ps
      | inr e ↦
          subst (All P) (sym (unless e ms (m ∷ remove_thread ms k)))
            (p, All-remove_thread P ms k ps)
    ]

OncePerId-remove_thread :
    (ms : List PluginManifest) (k : String) → OncePerId ms → OncePerId (remove_thread ms k)
unfolding remove_thread
OncePerId-remove_thread [] k h = tt
OncePerId-remove_thread (m ∷ ms) k (a, o) =
    elim (Bool-cases (text_eq (PluginManifest.plugin_id m) k)) [
      | inl e ↦ subst OncePerId (sym (when e ms (m ∷ remove_thread ms k))) o
      | inr e ↦
          subst OncePerId (sym (unless e ms (m ∷ remove_thread ms k)))
            (All-remove_thread (λ n. id_of m ≢ id_of n) ms k a, OncePerId-remove_thread ms k o)
    ]

-- After the thread of `k` is gone, no thread of `k` is left.
remove_thread-gone :
    (ms : List PluginManifest) (k : String)
    → OncePerId ms
    → All (λ m. id_of m ≢ k) (remove_thread ms k)
unfolding remove_thread
remove_thread-gone [] k o = tt
remove_thread-gone (m ∷ ms) k (a, o) = elim (Bool-cases (text_eq (PluginManifest.plugin_id m) k)) [
  | inl e ↦ subst (All (λ n. id_of n ≢ k)) (sym (when e ms (m ∷ remove_thread ms k))) (
      All-map (λ n. id_of m ≢ id_of n) (λ n. id_of n ≢ k) ms
        (λ n ne f. ne (text_eq-true (id_of m) k e ∙ sym f)) a)
  | inr e ↦
      subst (All (λ n. id_of n ≢ k)) (sym (unless e ms (m ∷ remove_thread ms k)))
        (text_eq-false (id_of m) k e, remove_thread-gone ms k o)
]

All-kept :
    (sup : List String) (k : String) (ms : List PluginManifest)
    → All (λ m. id_of m ≢ k) ms
    → All (λ m. In (id_of m) sup) ms
    → All (λ m. In (id_of m) (set_remove sup k)) ms
All-kept sup k [] h i = tt
All-kept sup k (m ∷ ms) (n, h) (j, i) = (set_remove-In sup k (id_of m) n j, All-kept sup k ms h i)

thread_exits-Reserved : (k : String) (s : Supervision) → Reserved s → Reserved (thread_exits k s)
unfolding thread_exits
thread_exits-Reserved k s (res, once) =
    let ms = Supervision.threads s in
    let sup = Supervision.supervised s in
    (
      All-kept sup k (remove_thread ms k) (remove_thread-gone ms k once)
          (All-remove_thread (λ m. In (id_of m) sup) ms k res),
      OncePerId-remove_thread ms k once,
    )

-- Scans at boot and by the watcher, of a directory that may change in between, and threads that end.
pub data Step (from_slice : List ℕ → Option PluginManifest)
    : Supervision → Supervision → Type 0 where
  scan :
      (s : Supervision) (fp : ℕ) (exists : Bool) (listing : Option (List DirEntry))
      → Step from_slice s ((scan_and_spawn (load_dir from_slice fp exists listing) s).0)
  exit : (s : Supervision) (k : String) → Step from_slice s (thread_exits k s)

pub data Reach (from_slice : List ℕ → Option PluginManifest) : Supervision → Type 0 where
  boot : Reach from_slice (record { supervised = []; threads = [] })
  then_step : (s t : Supervision) → Reach from_slice s → Step from_slice s t → Reach from_slice t

scan-Reserved :
    (o : Option ManifestStore)
    → ((store : ManifestStore) → o ≡ some store → Keyed (ManifestStore.by_id store))
    → (s : Supervision) → Reserved s
    → Reserved ((scan_and_spawn o s).0)
unfolding scan_and_spawn
scan-Reserved none keyed s r = r
scan-Reserved (some store) keyed s r =
    let sup = Supervision.supervised s in
    let by_id = ManifestStore.by_id store in
    spawn_all-Reserved (to_launch sup by_id) s (to_launch-OncePerId sup by_id (keyed store refl))
      (to_launch-unreserved sup by_id) r

-- In every state that scans and ends of threads lead to from boot, in any order and for any contents of the
-- directory, each running supervisor's plugin is reserved, and no plugin has two supervisors.
pub Reach-Reserved :
    (from_slice : List ℕ → Option PluginManifest) (s : Supervision)
    → Reach from_slice s
    → Reserved s
Reach-Reserved from_slice _ boot = (tt, tt)
Reach-Reserved from_slice _ (then_step _ _ r (scan s fp exists listing)) =
    scan-Reserved (load_dir from_slice fp exists listing)
      (load_dir-Keyed from_slice fp exists listing) s (Reach-Reserved from_slice s r)
Reach-Reserved from_slice _ (then_step _ _ r (exit s k)) =
    thread_exits-Reserved k s (Reach-Reserved from_slice s r)

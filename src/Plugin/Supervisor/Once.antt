-- ===== src/Plugin/Supervisor/Once.antt =====
-- src/plugin/supervisor.rs: a plugin never has two supervisors at once.
use wazabi_edr_agent.Prelude.{
  ◌≡◌, ◌≢◌, refl, sym, ◌∙◌, subst, inl, inr, ◌⊎◌, true, false, List, [], ◌∷◌, String, arith, In,
  All, Bool-cases, when, unless, if-either,
}
use wazabi_edr_agent.Prelude.Text.{
  text_eq, ne→text_eq, Dict, keys, contains, contains-In, In-contains,
}
use wazabi_edr_agent.Plugin.Manifest.{PluginManifest}
use wazabi_edr_agent.Plugin.Manifest.Keyed.{Keyed}
use wazabi_edr_agent.Plugin.Supervisor.{
  Supervision, to_launch, launchable, spawn_all, set_insert, set_remove,
}

abbrev pub id_of : PluginManifest → String
id_of m = PluginManifest.plugin_id m

-- No plugin id stands twice.
abbrev pub OncePerId : List PluginManifest → Type 0
OncePerId [] = Unit {0}
OncePerId (m ∷ ms) = All (λ n. id_of m ≢ id_of n) ms × OncePerId ms

-- Each thread's plugin is reserved, and no plugin has two threads.
abbrev pub Reserved : Supervision → Type 0
Reserved s =
    All (λ m. In (id_of m) (Supervision.supervised s)) (Supervision.threads s)
    × OncePerId (Supervision.threads s)

true≢false : true ≢ false
true≢false h = cc h

set_insert-In : (set : List String) (k j : String) → In j set → In j (set_insert set k)
unfolding set_insert
set_insert-In set k j h = if-either (λ s. In j s) (contains set k) h (inr h)

set_insert-own : (set : List String) (k : String) → In k (set_insert set k)
unfolding set_insert
set_insert-own set k = elim (Bool-cases (contains set k)) [
  | inl e ↦ subst (In k) (sym (when e set (k ∷ set))) (contains-In set k e)
  | inr e ↦ subst (In k) (sym (unless e set (k ∷ set))) (inl refl)
]

In-set_insert : (set : List String) (k j : String) → In j (set_insert set k) → (j ≡ k) ⊎ In j set
unfolding set_insert
In-set_insert set k j h = elim (Bool-cases (contains set k)) [
  | inl e ↦ inr (subst (In j) (when e set (k ∷ set)) h)
  | inr e ↦ subst (In j) (unless e set (k ∷ set)) h
]

pub set_remove-In : (set : List String) (k j : String) → j ≢ k → In j set → In j (set_remove set k)
unfolding set_remove
set_remove-In [] k j ne h = absurd h
set_remove-In (x ∷ xs) k j ne (inl e) =
    subst (In j)
      (sym (unless (ne→text_eq x k (λ f. ne (e ∙ f))) (set_remove xs k) (x ∷ set_remove xs k)))
      (inl e)
set_remove-In (x ∷ xs) k j ne (inr h) =
    if-either (In j) (text_eq x k) (set_remove-In xs k j ne h) (inr (set_remove-In xs k j ne h))

pub All-map :
    {A : Type 0} (P Q : A → Type 0) (xs : List A) → ((a : A) → P a → Q a) → All P xs → All Q xs
All-map P Q [] f h = tt
All-map P Q (x ∷ xs) f (p, ps) = (f x p, All-map P Q xs f ps)

All-both :
    {A : Type 0} (P Q R : A → Type 0) (xs : List A)
    → ((a : A) → P a → Q a → R a)
    → All P xs
    → All Q xs
    → All R xs
All-both P Q R [] f h k = tt
All-both P Q R (x ∷ xs) f (p, ps) (q, qs) = (f x p q, All-both P Q R xs f ps qs)

-- What a scan launches is of the store, and not reserved yet.
to_launch-new :
    (sup : List String) (by_id : Dict PluginManifest)
    → All (λ (e : String × PluginManifest). id_of (e.1) ≡ e.0) by_id
    → All (λ m. In (id_of m) (keys by_id)) (to_launch sup by_id)
unfolding to_launch
to_launch-new sup [] h = tt
to_launch-new sup ((k, m) ∷ by_id) (e, h) =
    let P : List PluginManifest → Type 0 = λ ms. All (λ n. In (id_of n) (k ∷ keys by_id)) ms in
    let rest : P (to_launch sup by_id) =
      All-map (λ n. In (id_of n) (keys by_id)) (λ n. In (id_of n) (k ∷ keys by_id))
        (to_launch sup by_id) (λ n i. inr i) (to_launch-new sup by_id h) in
    if-either P (launchable sup m) (inl e, rest) rest

pub to_launch-OncePerId :
    (sup : List String) (by_id : Dict PluginManifest)
    → Keyed by_id
    → OncePerId (to_launch sup by_id)
unfolding to_launch
to_launch-OncePerId sup [] h = tt
to_launch-OncePerId sup ((k, m) ∷ by_id) ((e, h), (d, ds)) =
    let rest = to_launch-OncePerId sup by_id (h, ds) in
    let apart =
      All-map (λ n. In (id_of n) (keys by_id)) (λ n. id_of m ≢ id_of n) (to_launch sup by_id)
        (λ n i f. d (subst (λ j. In j (keys by_id)) (sym f ∙ e) i)) (to_launch-new sup by_id h) in
    if-either OncePerId (launchable sup m) (apart, rest) rest

pub to_launch-unreserved :
    (sup : List String) (by_id : Dict PluginManifest)
    → All (λ m. ¬ In (id_of m) sup) (to_launch sup by_id)
unfolding to_launch launchable
to_launch-unreserved sup [] = tt
to_launch-unreserved sup ((k, m) ∷ by_id) =
    let rest = to_launch-unreserved sup by_id in
    let P : List PluginManifest → Type 0 = λ ms. All (λ n. ¬ In (id_of n) sup) ms in
    elim (Bool-cases (contains sup (id_of m))) [
      | inl e ↦
          subst P (sym (unless (ground (arith, e)) (m ∷ to_launch sup by_id) (to_launch sup by_id)))
            rest
      | inr e ↦
          if-either P (launchable sup m)
            ((λ i. true≢false (sym (In-contains sup (id_of m) i) ∙ e)), rest) rest
    ]

-- Starting threads for plugins that are not reserved, each once, keeps the invariant.
pub spawn_all-Reserved :
    (ms : List PluginManifest) (s : Supervision)
    → OncePerId ms
    → All (λ m. ¬ In (id_of m) (Supervision.supervised s)) ms
    → Reserved s
    → Reserved (spawn_all ms s)
unfolding spawn_all
spawn_all-Reserved [] s o n r = r
spawn_all-Reserved (m ∷ ms) s (apart, o) (n, ns) (res, once) =
    let sup = Supervision.supervised s in
    let k = id_of m in
    spawn_all-Reserved ms
      (record { supervised = set_insert sup k; threads = m ∷ Supervision.threads s }) o
      (All-both (λ a. ¬ In (id_of a) sup) (λ a. k ≢ id_of a)
        (λ a. ¬ In (id_of a) (set_insert sup k)) ms
        (λ a p q i. elim (In-set_insert sup k (id_of a) i) [ inl e ↦ q (sym e) | inr j ↦ p j ]) ns
        apart)
      (
        (
          set_insert-own sup k,
          All-map (λ a. In (id_of a) sup) (λ a. In (id_of a) (set_insert sup k))
              (Supervision.threads s) (λ a i. set_insert-In sup k (id_of a) i) res,
        ),
        (
          All-map (λ a. In (id_of a) sup) (λ a. k ≢ id_of a) (Supervision.threads s)
              (λ a i e. n (subst (λ j. In j sup) (sym e) i)) res,
          once,
        ),
      )

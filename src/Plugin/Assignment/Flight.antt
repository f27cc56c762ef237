-- ===== src/Plugin/Assignment/Flight.antt =====
-- The packages in flight: a batch never takes a package that another one is at, takes each once, and gives all back.
use wazabi_edr_agent.Prelude.{
  ◌≡◌, inl, inr, refl, sym, ap, subst, ◌∙◌, true, false, ◌&&◌, ◌||◌, List, [], ◌∷◌, if◌then◌else◌,
  map, All, Bool-cases, arith,
}
use wazabi_edr_agent.Prelude.Bytes.{bytes_eq, bytes_eq_iff}
use wazabi_edr_agent.Plugin.Assignment.{Chars, PendingPluginAction, Step, Site}
use wazabi_edr_agent.Plugin.Assignment.Handlers.{
  has, claim, remove, release, process_all, process_pending_plugins,
}

abbrev pub ids : List PendingPluginAction → List Chars
ids l = map PendingPluginAction.plugin_package_id l

-- No name twice.
abbrev pub Distinct : List Chars → Type 0
Distinct [] = Unit {0}
Distinct (x ∷ xs) = (has xs x ≡ false) × Distinct xs

abbrev pub Absent : List Chars → List Chars → Type 0
Absent set xs = All (λ x. has set x ≡ false) xs

bytes_eq_sym : (a b : Chars) → bytes_eq a b ≡ true → bytes_eq b a ≡ true
bytes_eq_sym a b h = (bytes_eq_iff b a).1 (sym ((bytes_eq_iff a b).0 h))

has-remove :
    (x k : Chars) (s : List Chars) → has (remove x s) k ≡ (if bytes_eq x k then false else has s k)
unfolding remove
has-remove x k [] = ground arith
has-remove x k (y ∷ ys) = elim (Bool-cases (bytes_eq y x)) [
  | inl e ↦
      let q : bytes_eq y k ≡ bytes_eq x k = ap (λ t. bytes_eq t k) ((bytes_eq_iff y x).0 e) in
      rw e (ground (arith, has-remove x k ys))
  | inr e ↦
      rw e (ground (arith, has-remove x k ys, bytes_eq_iff y k, bytes_eq_iff x k, bytes_eq_iff y x))
]

Absent-cons :
    (k : Chars) (set xs : List Chars) → Absent (k ∷ set) xs → Absent set xs × (has xs k ≡ false)
Absent-cons k set [] h = (tt, refl)
Absent-cons k set (x ∷ xs) h =
    let r = Absent-cons k set xs h.1 in
    let z : (has (k ∷ set) x ≡ false) = h.0 in
    ((ground arith, r.0), ground (arith, bytes_eq_iff k x, bytes_eq_iff x k))

claim-Absent : (l : List PendingPluginAction) (set : List Chars) → Absent set (ids (claim l set).0)
unfolding claim
claim-Absent [] set = tt
claim-Absent (a ∷ l) set = elim (Bool-cases (has set (PendingPluginAction.plugin_package_id a))) [
  | inl e ↦ rw e (claim-Absent l set)
  | inr e ↦
      let k = PendingPluginAction.plugin_package_id a in
      rw e (e, (Absent-cons k set (ids (claim l (k ∷ set)).0) (claim-Absent l (k ∷ set))).0)
]

claim-Distinct : (l : List PendingPluginAction) (set : List Chars) → Distinct (ids (claim l set).0)
unfolding claim
claim-Distinct [] set = tt
claim-Distinct (a ∷ l) set = elim (Bool-cases (has set (PendingPluginAction.plugin_package_id a))) [
  | inl e ↦ rw e (claim-Distinct l set)
  | inr e ↦
      let k = PendingPluginAction.plugin_package_id a in
      rw e (
        (Absent-cons k set (ids (claim l (k ∷ set)).0) (claim-Absent l (k ∷ set))).1,
        claim-Distinct l (k ∷ set),
      )
]

-- The set that a claim leaves.
has-claim :
    (l : List PendingPluginAction) (set : List Chars) (k : Chars)
    → has (claim l set).1 k ≡ (has (ids (claim l set).0) k || has set k)
unfolding claim
has-claim [] set k = refl
has-claim (a ∷ l) set k = elim (Bool-cases (has set (PendingPluginAction.plugin_package_id a))) [
  | inl e ↦ rw e (has-claim l set k)
  | inr e ↦ rw e (has-claim l (PendingPluginAction.plugin_package_id a ∷ set) k ∙ ground arith)
]

has-release :
    (l : List PendingPluginAction) (set : List Chars) (k : Chars)
    → has (release l set) k ≡ (if has (ids l) k then false else has set k)
unfolding release
has-release [] set k = refl
has-release (a ∷ l) set k =
    let x = PendingPluginAction.plugin_package_id a in
    has-release l (remove x set) k ∙ ground (arith, has-remove x k set)

Absent-at : (xs set : List Chars) (k : Chars) → Absent set xs → (has xs k && has set k) ≡ false
Absent-at [] set k h = refl
Absent-at (x ∷ xs) set k h = elim (Bool-cases (bytes_eq x k)) [
  | inl e ↦
      let q : has set k ≡ false = subst (λ t. has set t ≡ false) ((bytes_eq_iff x k).0 e) h.0 in
      rw e q
  | inr e ↦ rw e (Absent-at xs set k h.1)
]

-- The set after a batch is the set before, name by name.
flight-kept :
    (l : List PendingPluginAction) (set : List Chars) (k : Chars)
    → has (release (claim l set).0 (claim l set).1) k ≡ has set k
flight-kept l set k = ground (
  arith,
  has-release (claim l set).0 (claim l set).1 k,
  has-claim l set k,
  Absent-at (ids (claim l set).0) set k (claim-Absent l set),
)

claim-has :
    (l : List PendingPluginAction) (set : List Chars)
    → All (λ k. has (claim l set).1 k ≡ true) (ids l)
unfolding claim
claim-has [] set = tt
claim-has (a ∷ l) set =
    let x = PendingPluginAction.plugin_package_id a in
    elim (Bool-cases (has set x)) [
      | inl e ↦
          let q : (claim (a ∷ l) set).1 ≡ (claim l set).1 = rw e refl in
          subst (λ z. All (λ k. has z k ≡ true) (ids (a ∷ l))) (sym q)
            (ground (arith, has-claim l set x), claim-has l set)
      | inr e ↦
          let q : (claim (a ∷ l) set).1 ≡ (claim l (x ∷ set)).1 = rw e refl in
          subst (λ z. All (λ k. has z k ≡ true) (ids (a ∷ l))) (sym q)
            (ground (arith, has-claim l (x ∷ set) x, bytes_eq_iff x x), claim-has l (x ∷ set))
    ]

covered :
    (l : List PendingPluginAction) (set xs : List Chars)
    → All (λ k. has (claim l set).1 k ≡ true) xs
    → All (λ k. (has set k || has (ids (claim l set).0) k) ≡ true) xs
covered l set [] h = tt
covered l set (x ∷ xs) h = (ground (arith, has-claim l set x), covered l set xs h.1)

-- Each package of the answer was in flight before or is claimed.
claim-covers :
    (l : List PendingPluginAction) (set : List Chars)
    → All (λ k. (has set k || has (ids (claim l set).0) k) ≡ true) (ids l)
claim-covers l set = covered l set (ids l) (claim-has l set)

-- Actions of the answer, unchanged and in its order, some of them left out.
pub data Among : List PendingPluginAction → List PendingPluginAction → Type 0 where
  among_none : Among [] []
  among_left :
      (a : PendingPluginAction) (xs l : List PendingPluginAction) → Among xs l → Among xs (a ∷ l)
  among_taken :
      (a : PendingPluginAction) (xs l : List PendingPluginAction)
      → Among xs l
      → Among (a ∷ xs) (a ∷ l)

claim-Among : (l : List PendingPluginAction) (set : List Chars) → Among (claim l set).0 l
unfolding claim
claim-Among [] set = among_none
claim-Among (a ∷ l) set = elim (Bool-cases (has set (PendingPluginAction.plugin_package_id a))) [
  | inl e ↦ rw e (among_left a (claim l set).0 l (claim-Among l set))
  | inr e ↦
      let k = PendingPluginAction.plugin_package_id a in
      rw e (among_taken a (claim l (k ∷ set)).0 l (claim-Among l (k ∷ set)))
]

-- Whatever is in flight, a batch works on actions of the answer, in its order, which are of packages that were not in
-- flight, each package once, and every package of the answer that is not among them was in flight; after the batch the
-- packages in flight are those of before.
pub process_pending_plugins-flight :
    (site : Site) (l : List PendingPluginAction) (set : List Chars) (steps : List Step) (k : Chars)
    → (taken : List PendingPluginAction) × ((process_pending_plugins site l set steps).0
        ≡ process_all site taken steps)
      × Among taken l
      × Absent set (ids taken)
      × Distinct (ids taken)
      × All (λ x. (has set x || has (ids taken) x) ≡ true) (ids l)
      × (has (process_pending_plugins site l set steps).1 k ≡ has set k)
unfolding process_pending_plugins
process_pending_plugins-flight site l set steps k = (
  (claim l set).0,
  refl,
  claim-Among l set,
  claim-Absent l set,
  claim-Distinct l set,
  claim-covers l set,
  flight-kept l set k,
)

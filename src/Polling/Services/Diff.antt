-- ===== src/Polling/Services/Diff.antt =====
-- src/polling/services.rs, `compute_diff`: its events are the changes, each of them and no other.
use wazabi_edr_agent.Prelude.{
  ◌≡◌, refl, ap, subst, false, ◌↔◌, ◌⊎◌, inl, inr, [], ◌∷◌, ◌++◌, none, some, String, arith,
  if◌then◌else◌, Bool-cases, Option-cases, In, In-append, In-append_left, In-append_right,
}
use wazabi_edr_agent.Prelude.Text.{Dict, lookup, Distinct, lookup-In, In-lookup}
use wazabi_edr_agent.Polling.Services.{
  ServiceSnapshot, same_config, snapshot_eq, bool_eq, DiffEntry, create_entry, delete_entry,
  modify_entry, transition_entry, diff_one, diff_next, diff_gone, compute_diff,
}
use wazabi_edr_agent.Polling.Services.Spec.{
  Change, created, deleted, turned, modified, same_config_iff, bool_eq_iff, snapshot_eq-split,
}

In-diff_next :
    (prev : Dict ServiceSnapshot) (rest : Dict ServiceSnapshot) (e : DiffEntry)
    → In e (diff_next prev rest)
    → (name : String) × (snap : ServiceSnapshot) × In (name, snap) rest
      × In e (diff_one prev name snap)
unfolding diff_next
In-diff_next prev [] e h = absurd h
In-diff_next prev ((name, snap) ∷ rest) e h = elim (In-append e (diff_one prev name snap) _ h) [
  | inl i ↦ (name, snap, inl refl, i)
  | inr i ↦ let (n, s, m, j) = In-diff_next prev rest e i in (n, s, inr m, j)
]

diff_next-In :
    (prev : Dict ServiceSnapshot) (rest : Dict ServiceSnapshot) (e : DiffEntry) (name : String)
    (snap : ServiceSnapshot)
    → In (name, snap) rest
    → In e (diff_one prev name snap)
    → In e (diff_next prev rest)
unfolding diff_next
diff_next-In prev [] e name snap m h = absurd m
diff_next-In prev ((n, s) ∷ rest) e name snap (inl p) h =
    In-append_left e (diff_one prev n s) (diff_next prev rest)
      (subst (λ (q : String × ServiceSnapshot). In e (diff_one prev q.0 q.1)) p h)
diff_next-In prev ((n, s) ∷ rest) e name snap (inr m) h =
    In-append_right e (diff_one prev n s) (diff_next prev rest)
      (diff_next-In prev rest e name snap m h)

In-diff_gone :
    (next : Dict ServiceSnapshot) (rest : Dict ServiceSnapshot) (e : DiffEntry)
    → In e (diff_gone next rest)
    → (name : String) × (old : ServiceSnapshot) × In (name, old) rest
      × (lookup next name ≡ none)
      × (e ≡ delete_entry name)
unfolding diff_gone
In-diff_gone next [] e h = absurd h
In-diff_gone next ((name, old) ∷ rest) e h = elim (Option-cases (lookup next name)) [
  | inl p ↦ elim (rw (p, diff_gone) at h) [
    | inl q ↦ (name, old, inl refl, p, q)
    | inr i ↦ let (n, o, m, r, q') = In-diff_gone next rest e i in (n, o, inr m, r, q')
  ]
  | inr (s, p) ↦
      let (n, o, m, r, q') = In-diff_gone next rest e (rw (p, diff_gone) at h) in
      (n, o, inr m, r, q')
]

diff_gone-In :
    (next : Dict ServiceSnapshot) (rest : Dict ServiceSnapshot) (name : String)
    (old : ServiceSnapshot)
    → In (name, old) rest
    → lookup next name ≡ none
    → In (delete_entry name) (diff_gone next rest)
unfolding diff_gone
diff_gone-In next [] name old m p = absurd m
diff_gone-In next ((n, o) ∷ rest) name old m p = elim (Option-cases (lookup next n)) [
  | inl q ↦
      rw (q, diff_gone)
        (elim m [
          | inl r ↦ inl (ap delete_entry (ap (λ (x : String × ServiceSnapshot). x.0) r))
          | inr i ↦ inr (diff_gone-In next rest name old i p)
        ])
  | inr (s, q) ↦
      rw (q, diff_gone)
        (elim m [
          | inl r ↦ cc (ap (λ (x : String × ServiceSnapshot). lookup next x.0) r)
          | inr i ↦ diff_gone-In next rest name old i p
        ])
]

diff_one-Change :
    (prev next : Dict ServiceSnapshot) (name : String) (snap : ServiceSnapshot) (e : DiffEntry)
    → lookup next name ≡ some snap
    → In e (diff_one prev name snap)
    → Change prev next e
unfolding diff_one
diff_one-Change prev next name snap e n h = elim (Option-cases (lookup prev name)) [
  | inl p ↦ elim (rw (p, diff_one) at h) [ inl q ↦ created name snap p n q | inr i ↦ absurd i ]
  | inr (old, p) ↦ go old p (rw (p, diff_one) at h)
]
  where
    go :
        (old : ServiceSnapshot)
        → lookup prev name ≡ some old
        → In e (
            if snapshot_eq old snap
            then []
            else (if bool_eq old.running snap.running
                then []
                else transition_entry snap.running name ∷ [])
              ++ (if same_config old snap then [] else modify_entry name ∷ []))
        → Change prev next e
    go old p i = elim (Bool-cases (snapshot_eq old snap)) [
      | inl q ↦ absurd (rw q at i)
      | inr q ↦ elim (Bool-cases (bool_eq old.running snap.running)) [
        | inl b ↦ elim (Bool-cases (same_config old snap)) [
          | inl c ↦ absurd (rw (q, b, c) at i)
          | inr c ↦ elim (rw (q, b, c) at i) [
            | inl r ↦ modified name old snap p n (λ k. cc (c, (same_config_iff old snap).1 k)) r
            | inr j ↦ absurd j
          ]
        ]
        | inr b ↦ elim (rw (q, b) at i) [
          | inl r ↦
              turned name old snap p n (λ k. cc (b, (bool_eq_iff old.running snap.running).1 k)) r
          | inr j ↦ elim (Bool-cases (same_config old snap)) [
            | inl c ↦ absurd (rw c at j)
            | inr c ↦ elim (rw c at j) [
              | inl r ↦ modified name old snap p n (λ k. cc (c, (same_config_iff old snap).1 k)) r
              | inr l ↦ absurd l
            ]
          ]
        ]
      ]
    ]

-- The test of the derived equality fails where one of the two parts does.
differs :
    (a b : ServiceSnapshot)
    → (bool_eq a.running b.running ≡ false) ⊎ (same_config a b ≡ false)
    → snapshot_eq a b ≡ false
differs a b h = rw (snapshot_eq-split a b) (ground arith)

turned-In :
    (prev : Dict ServiceSnapshot) (name : String) (old snap : ServiceSnapshot)
    → lookup prev name ≡ some old
    → bool_eq old.running snap.running ≡ false
    → In (transition_entry snap.running name) (diff_one prev name snap)
unfolding diff_one
turned-In prev name old snap p b = rw (p, diff_one) (rw (differs old snap (inl b), b) (inl refl))

modified-In :
    (prev : Dict ServiceSnapshot) (name : String) (old snap : ServiceSnapshot)
    → lookup prev name ≡ some old
    → same_config old snap ≡ false
    → In (modify_entry name) (diff_one prev name snap)
unfolding diff_one
modified-In prev name old snap p c = elim (Bool-cases (bool_eq old.running snap.running)) [
  | inl b ↦ rw (p, diff_one) (rw (differs old snap (inr c), b, c) (inl refl))
  | inr b ↦ rw (p, diff_one) (rw (differs old snap (inr c), b, c) (inr (inl refl)))
]

created-In :
    (prev : Dict ServiceSnapshot) (name : String) (snap : ServiceSnapshot)
    → lookup prev name ≡ none
    → In (create_entry name) (diff_one prev name snap)
unfolding diff_one
created-In prev name snap p = rw (p, diff_one) (inl refl)

In-left :
    (prev next : Dict ServiceSnapshot) (e : DiffEntry) (name : String) (snap : ServiceSnapshot)
    → lookup next name ≡ some snap
    → In e (diff_one prev name snap)
    → In e (compute_diff prev next)
unfolding compute_diff
In-left prev next e name snap n h =
    In-append_left e (diff_next prev next) (diff_gone next prev)
      (diff_next-In prev next e name snap (lookup-In next name snap n) h)

In-right :
    (prev next : Dict ServiceSnapshot) (name : String) (old : ServiceSnapshot)
    → lookup prev name ≡ some old
    → lookup next name ≡ none
    → In (delete_entry name) (compute_diff prev next)
unfolding compute_diff
In-right prev next name old p n =
    In-append_right (delete_entry name) (diff_next prev next) (diff_gone next prev)
      (diff_gone-In next prev name old (lookup-In prev name old p) n)

Change-In :
    (prev next : Dict ServiceSnapshot) (e : DiffEntry)
    → Change prev next e
    → In e (compute_diff prev next)
Change-In prev next e (created name snap p n q) =
    rw q (In-left prev next (create_entry name) name snap n (created-In prev name snap p))
Change-In prev next e (deleted name old p n q) = rw q (In-right prev next name old p n)
Change-In prev next e (turned name old snap p n d q) = rw q (
    In-left prev next (transition_entry snap.running name) name snap n (
      turned-In prev name old snap p (elim (Bool-cases (bool_eq old.running snap.running)) [
        | inl c ↦ absurd (d ((bool_eq_iff old.running snap.running).0 c))
        | inr c ↦ c
      ])))
Change-In prev next e (modified name old snap p n d q) = rw q (
    In-left prev next (modify_entry name) name snap n (
      modified-In prev name old snap p (elim (Bool-cases (same_config old snap)) [
        | inl c ↦ absurd (d ((same_config_iff old snap).0 c))
        | inr c ↦ c
      ])))

In-Change :
    (prev next : Dict ServiceSnapshot) (e : DiffEntry)
    → Distinct prev
    → Distinct next
    → In e (compute_diff prev next)
    → Change prev next e
unfolding compute_diff
In-Change prev next e dp dn h = elim (In-append e (diff_next prev next) _ h) [
  | inl i ↦
      let (name, snap, m, j) = In-diff_next prev next e i in
      diff_one-Change prev next name snap e (In-lookup next name snap dn m) j
  | inr i ↦
      let (name, old, m, n, q) = In-diff_gone next prev e i in
      deleted name old (In-lookup prev name old dp m) n q
]

-- Of two snapshots, each holding a name once, the diff reports exactly the changes: a service new
-- or gone, a running state turned, a configuration or display name modified, and both of the last
-- two where both happen.
pub compute_diff_iff :
    (prev next : Dict ServiceSnapshot) (e : DiffEntry)
    → Distinct prev
    → Distinct next
    → In e (compute_diff prev next) ↔ Change prev next e
compute_diff_iff prev next e dp dn = (In-Change prev next e dp dn, Change-In prev next e)

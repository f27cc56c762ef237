-- ===== src/Polling/Tasks/Diff.antt =====
-- src/polling/tasks.rs, `diff_and_emit`: the events are the changes.
use wazabi_edr_agent.Prelude.{
  ◌≡◌, ◌≢◌, ◌↔◌, refl, ap, subst, inl, inr, true, false, [], ◌∷◌, ◌++◌, none, some, String, arith,
  In, In-append, In-append_left, In-append_right, Bool-cases, Option-cases,
}
use wazabi_edr_agent.Prelude.Text.{Dict, lookup, Distinct, In-lookup, lookup-In}
use wazabi_edr_agent.Polling.Envelope.{et_task_create, et_task_modify, et_task_delete}
use wazabi_edr_agent.Polling.Tasks.{
  TaskSnapshot, same_task, TaskEvent, task_event, task_one, tasks_next, task_gone, tasks_gone,
  task_diff,
}

-- The changes between two maps of tasks, each with its event.
pub data TaskChange (prev next : Dict TaskSnapshot) (e : TaskEvent) : Type 0 where
  task_created :
      (path : String) (snap : TaskSnapshot)
      → lookup prev path ≡ none
      → lookup next path ≡ some snap
      → e ≡ task_event et_task_create "ScheduledTaskCreate" path snap none
      → TaskChange prev next e
  task_modified :
      (path : String) (old snap : TaskSnapshot)
      → lookup prev path ≡ some old
      → lookup next path ≡ some snap
      → old ≢ snap
      → e ≡ task_event et_task_modify "ScheduledTaskModify" path snap (some old)
      → TaskChange prev next e
  task_deleted :
      (path : String) (old : TaskSnapshot)
      → lookup prev path ≡ some old
      → lookup next path ≡ none
      → e ≡ task_event et_task_delete "ScheduledTaskDelete" path old none
      → TaskChange prev next e

same_task-true : (a b : TaskSnapshot) → same_task a b ≡ true → a ≡ b
unfolding same_task
same_task-true a b h = ground (arith, h)

same_task_refl : (a : TaskSnapshot) → same_task a a ≡ true
unfolding same_task
same_task_refl a = ground arith

same_task-ne : (a b : TaskSnapshot) → same_task a b ≡ false → a ≢ b
same_task-ne a b h e = absurd (cc (h, ap (same_task a) e, same_task_refl a))

ne→same_task : (a b : TaskSnapshot) → a ≢ b → same_task a b ≡ false
ne→same_task a b h = elim (Bool-cases (same_task a b)) [
  | inl e ↦ absurd (h (same_task-true a b e))
  | inr e ↦ e
]

In-tasks_next :
    (prev m : Dict TaskSnapshot) (e : TaskEvent)
    → In e (tasks_next prev m) ↔ (
        (path : String) × (snap : TaskSnapshot) × In (path, snap) m
        × In e (task_one prev path snap))
unfolding tasks_next
In-tasks_next prev [] e = (λ h. absurd h, λ (p, s, i, j). absurd i)
In-tasks_next prev ((path, snap) ∷ rest) e = (
  λ h. elim (In-append e (task_one prev path snap) (tasks_next prev rest) h) [
    | inl i ↦ (path, snap, inl refl, i)
    | inr i ↦ let (p, s, j, k) = (In-tasks_next prev rest e).0 i in (p, s, inr j, k)
  ],
  λ (p, s, j, k). elim j [
    | inl q ↦
        In-append_left e (task_one prev path snap) (tasks_next prev rest)
          (subst (λ (x : String × TaskSnapshot). In e (task_one prev (x.0) (x.1))) q k)
    | inr i ↦
        In-append_right e (task_one prev path snap) (tasks_next prev rest)
          ((In-tasks_next prev rest e).1 (p, s, i, k))
  ],
)

In-tasks_gone :
    (next m : Dict TaskSnapshot) (e : TaskEvent)
    → In e (tasks_gone next m)
      ↔ ((path : String) × (old : TaskSnapshot) × In (path, old) m × In e (task_gone next path old))
unfolding tasks_gone
In-tasks_gone next [] e = (λ h. absurd h, λ (p, s, i, j). absurd i)
In-tasks_gone next ((path, old) ∷ rest) e = (
  λ h. elim (In-append e (task_gone next path old) (tasks_gone next rest) h) [
    | inl i ↦ (path, old, inl refl, i)
    | inr i ↦ let (p, s, j, k) = (In-tasks_gone next rest e).0 i in (p, s, inr j, k)
  ],
  λ (p, s, j, k). elim j [
    | inl q ↦
        In-append_left e (task_gone next path old) (tasks_gone next rest)
          (subst (λ (x : String × TaskSnapshot). In e (task_gone next (x.0) (x.1))) q k)
    | inr i ↦
        In-append_right e (task_gone next path old) (tasks_gone next rest)
          ((In-tasks_gone next rest e).1 (p, s, i, k))
  ],
)

task_one-TaskChange :
    (prev next : Dict TaskSnapshot) (path : String) (snap : TaskSnapshot) (e : TaskEvent)
    → lookup next path ≡ some snap
    → In e (task_one prev path snap)
    → TaskChange prev next e
unfolding task_one
task_one-TaskChange prev next path snap e n h = elim (Option-cases (lookup prev path)) [
  | inl p ↦ elim (rw (p, task_one) at h) [ inl q ↦ task_created path snap p n q | inr i ↦ absurd i ]
  | inr (old, p) ↦ elim (Bool-cases (same_task old snap)) [
    | inl same ↦ absurd (rw same at (rw (p, task_one) at h))
    | inr differs ↦ elim (rw differs at (rw (p, task_one) at h)) [
      | inl q ↦ task_modified path old snap p n (same_task-ne old snap differs) q
      | inr i ↦ absurd i
    ]
  ]
]

task_gone-TaskChange :
    (prev next : Dict TaskSnapshot) (path : String) (old : TaskSnapshot) (e : TaskEvent)
    → lookup prev path ≡ some old
    → In e (task_gone next path old)
    → TaskChange prev next e
unfolding task_gone
task_gone-TaskChange prev next path old e p h = elim (Option-cases (lookup next path)) [
  | inl n ↦ elim (rw (n, task_gone) at h) [ inl q ↦ task_deleted path old p n q | inr i ↦ absurd i ]
  | inr (snap, n) ↦ absurd (rw (n, task_gone) at h)
]

-- Of two snapshots, each holding a path once, the events are exactly the changes, each with its payload: a task new,
-- with what was found; one whose time, digest or size is another, with both; one gone, with what was known.
pub task_diff_iff :
    (prev next : Dict TaskSnapshot) (e : TaskEvent)
    → Distinct prev
    → Distinct next
    → In e (task_diff prev next) ↔ TaskChange prev next e
unfolding task_diff
task_diff_iff prev next e dp dn = (
  λ h. elim (In-append e (tasks_next prev next) (tasks_gone next prev) h) [
    | inl i ↦
        let (path, snap, j, k) = (In-tasks_next prev next e).0 i in
        task_one-TaskChange prev next path snap e (In-lookup next path snap dn j) k
    | inr i ↦
        let (path, old, j, k) = (In-tasks_gone next prev e).0 i in
        task_gone-TaskChange prev next path old e (In-lookup prev path old dp j) k
  ],
  λ c. reported c,
)
  where
    reported : TaskChange prev next e → In e (tasks_next prev next ++ tasks_gone next prev)
    reported (task_created path snap p n q) =
        In-append_left e (tasks_next prev next) (tasks_gone next prev) (
          (In-tasks_next prev next e).1
            (path, snap, lookup-In next path snap n, unfold task_one in rw (p, task_one) (inl q)))
    reported (task_modified path old snap p n d q) =
        In-append_left e (tasks_next prev next) (tasks_gone next prev) (
          (In-tasks_next prev next e).1 (
            path,
            snap,
            lookup-In next path snap n,
            unfold task_one in rw (p, task_one) (rw (ne→same_task old snap d) (inl q)),
          ))
    reported (task_deleted path old p n q) =
        In-append_right e (tasks_next prev next) (tasks_gone next prev) (
          (In-tasks_gone next prev e).1
            (path, old, lookup-In prev path old p, unfold task_gone in rw (n, task_gone) (inl q)))

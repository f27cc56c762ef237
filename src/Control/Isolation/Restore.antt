-- ===== src/Control/Isolation/Restore.antt =====
-- What an isolation keeps and its end restores.
use wazabi_edr_agent.Prelude.{
  ◌≡◌, ◌≢◌, refl, ◌∙◌, Bool, true, false, ◌&&◌, not, List, [], ◌∷◌, ℕ, Option, none, some,
  if◌then◌else◌, arith, All,
}
use wazabi_edr_agent.Prelude.Json.{Json}
use wazabi_edr_agent.Control.Isolation.{
  Netsh, export_backup, import_backup, success, failed, completed, Machine, present, invoke_all,
  isolate_calls, server_rules, execute_isolate, execute_unisolate, allowed_ips, allowed_hosts,
}

and-left : (a b : Bool) → (a && b) ≡ true → a ≡ true
and-left a b h = ground arith

succeeded : (b : Bool) → (if b then success else failed) ≡ success → b ≡ true
succeeded true h = refl
succeeded false h = cc

restored : (b : Bool) → (if b then success else completed) ≡ success → b ≡ true
restored true h = refl
restored false h = cc

firewall-removed :
    {Firewall : Type 0} {File : Type 0} (b : Bool) (m : Machine Firewall File)
    → Machine.firewall (if b then record m { backup = none } else m) ≡ Machine.firewall m
firewall-removed true m = refl
firewall-removed false m = refl

present-removed :
    {Firewall : Type 0} {File : Type 0} (b : Bool) (m : Machine Firewall File) (f : File)
    → Machine.backup m ≡ some f
    → present (Machine.backup (if b then record m { backup = none } else m)) ≡ not b
unfolding present
present-removed true m f h = refl
present-removed false m f h = rw h refl

module _ {Firewall : Type 0} {File : Type 0} (contents : File → Firewall)
    (netsh : Netsh → Machine Firewall File → Bool × Machine Firewall File) where
  -- What the documentation of `netsh advfirewall` says of its calls: an export that works writes a file from which the
  -- firewall as it is can be imported; an import that works leaves the firewall of the file; no call but the export
  -- writes the file.
  pub record IsNetsh : Type 0 where
    pub exports :
        (m : Machine Firewall File)
        → (netsh export_backup m).0 ≡ true
        → (f : File) × (Machine.backup (netsh export_backup m).1 ≡ some f)
          × (contents f ≡ Machine.firewall m)
    pub imports :
        (m : Machine Firewall File) (f : File)
        → Machine.backup m ≡ some f
        → (netsh import_backup m).0 ≡ true
        → Machine.firewall (netsh import_backup m).1 ≡ contents f
    pub keeps :
        (c : Netsh) (m : Machine Firewall File)
        → c ≢ export_backup
        → Machine.backup (netsh c m).1 ≡ Machine.backup m

  -- What happens to a machine between the first isolation and the end: another isolation, or any change of the firewall
  -- by others.
  pub data Event : Type 0 where
    isolate : Json → Event
    changed : Firewall → Event

  abbrev pub after :
      (List ℕ → Option (List ℕ)) → List Event → Machine Firewall File → Machine Firewall File
  after resolve [] m = m
  after resolve (isolate payload ∷ es) m =
      after resolve es (execute_isolate netsh resolve payload m).1
  after resolve (changed f ∷ es) m = after resolve es (record m { firewall = f })

  abbrev IsOther : Netsh → Type 0
  IsOther c = c ≢ export_backup

  others : (ips : List (List ℕ)) → All IsOther (isolate_calls ips)
  unfolding isolate_calls server_rules
  others [] =
      ((λ e. cc), ((λ e. cc), ((λ e. cc), ((λ e. cc), ((λ e. cc), ((λ e. cc), ((λ e. cc), tt)))))))
  others (ip ∷ ips) = (
    (λ e. cc),
    (
      (λ e. cc),
      ((λ e. cc), ((λ e. cc), ((λ e. cc), ((λ e. cc), ((λ e. cc), ((λ e. cc), ((λ e. cc), tt))))))),
    ),
  )

  module _ (laws : IsNetsh) where
    invoke_all-keeps :
        (cs : List Netsh) (m : Machine Firewall File)
        → All IsOther cs
        → Machine.backup (invoke_all netsh cs m).1 ≡ Machine.backup m
    unfolding invoke_all
    invoke_all-keeps [] m h = refl
    invoke_all-keeps (c ∷ cs) m h =
        invoke_all-keeps cs (netsh c m).1 h.1 ∙ IsNetsh.keeps laws c m h.0

    -- An isolation keeps the backup that it finds.
    pub isolate-keeps :
        (resolve : List ℕ → Option (List ℕ)) (payload : Json) (m : Machine Firewall File) (f : File)
        → Machine.backup m ≡ some f
        → Machine.backup (execute_isolate netsh resolve payload m).1 ≡ some f
    unfolding execute_isolate present
    isolate-keeps resolve payload m f h =
        let ips = allowed_ips resolve (allowed_hosts payload) in
        let e : present (Machine.backup m) ≡ true = rw h refl in
        rw e (invoke_all-keeps (isolate_calls ips) m (others ips) ∙ h)

    after-keeps :
        (resolve : List ℕ → Option (List ℕ)) (es : List Event) (m : Machine Firewall File)
        (f : File)
        → Machine.backup m ≡ some f
        → Machine.backup (after resolve es m) ≡ some f
    after-keeps resolve [] m f h = h
    after-keeps resolve (isolate payload ∷ es) m f h =
        after-keeps resolve es (execute_isolate netsh resolve payload m).1 f
          (isolate-keeps resolve payload m f h)
    after-keeps resolve (changed w ∷ es) m f h =
        after-keeps resolve es (record m { firewall = w }) f h

    first-saves :
        (resolve : List ℕ → Option (List ℕ)) (payload : Json) (m : Machine Firewall File)
        → Machine.backup m ≡ none
        → (execute_isolate netsh resolve payload m).0 ≡ success
        → (f : File) × (Machine.backup (execute_isolate netsh resolve payload m).1 ≡ some f)
          × (contents f ≡ Machine.firewall m)
    unfolding execute_isolate present invoke_all
    first-saves resolve payload m h s =
        let ips = allowed_ips resolve (allowed_hosts payload) in
        let e : present (Machine.backup m) ≡ false = rw h refl in
        let n = netsh export_backup m in
        let ok : n.0 ≡ true =
          and-left n.0 (invoke_all netsh (isolate_calls ips) n.1).0 (succeeded _ (rw e at s)) in
        let x = IsNetsh.exports laws m ok in
        (x.0, rw e (invoke_all-keeps (isolate_calls ips) n.1 (others ips) ∙ x.1), x.2)

    pub unisolate-restores :
        (resolve : List ℕ → Option (List ℕ)) (payload : Json) (es : List Event) (removable : Bool)
        (m : Machine Firewall File)
        → Machine.backup m ≡ none
        → (execute_isolate netsh resolve payload m).0 ≡ success
        → (execute_unisolate netsh removable (after resolve (isolate payload ∷ es) m)).0 ≡ success
        → (Machine.firewall
              (execute_unisolate netsh removable (after resolve (isolate payload ∷ es) m)).1
            ≡ Machine.firewall m)
          × (present (
                Machine.backup
                  (execute_unisolate netsh removable (after resolve (isolate payload ∷ es) m)).1)
              ≡ not removable)
    unfolding execute_unisolate present
    unisolate-restores resolve payload es removable m h s t =
        let x = first-saves resolve payload m h s in
        let l : Machine Firewall File = after resolve (isolate payload ∷ es) m in
        let k : Machine.backup l ≡ some x.0 =
          after-keeps resolve es (execute_isolate netsh resolve payload m).1 x.0 x.1 in
        let e : present (Machine.backup l) ≡ true = rw k refl in
        let ok : (netsh import_backup l).0 ≡ true = restored _ (rw e at t) in
        let r : Machine.firewall (netsh import_backup l).1 ≡ Machine.firewall m =
          IsNetsh.imports laws l x.0 k ok ∙ x.2 in
        rw e (
          firewall-removed removable _ ∙ r,
          present-removed removable (netsh import_backup l).1 x.0
              (IsNetsh.keeps laws import_backup l (λ z. cc) ∙ k),
        )

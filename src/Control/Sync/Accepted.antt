-- ===== src/Control/Sync/Accepted.antt =====
-- The rules that a profile's pull accepts: the file that they make has no two rules with a group of the same name.
use wazabi_edr_agent.Prelude.{
  ◌≡◌, refl, sym, ◌∙◌, ap, subst, inl, inr, true, false, List, [], ◌∷◌, ◌++◌, none, some, All,
  All-append, Bool-cases, if-either, if-cases, append-nil, append_assoc, ◌⊎◌, Option-cases, arith,
}
use wazabi_edr_agent.Prelude.Bytes.{bytes_eq, bytes_eq_iff}
use wazabi_edr_agent.Control.Sync.{
  Chars, TemplateRuleView, RuleError, TemplateParseOutcome, Parsed, refused, groups, Message,
  parse_error, collision, empty_rule, nothing_parsed, is_blank, has, taken, reject, claim, accept,
  parsed_rule, template_rule, template_rules,
}

-- The groups that the parser finds in a source.
abbrev pub found_groups : Parsed → List Chars
found_groups (refused m) = []
found_groups (groups gs) = gs

-- None of the second names is among the first.
abbrev pub NoCommon : List Chars → List Chars → Type 0
NoCommon xs ys = All (λ y. has xs y ≡ false) ys

abbrev Claimed : List Chars → List Chars → Type 0
Claimed claimed gs = All (λ g. has claimed g ≡ true) gs

has-cons : (x : Chars) (xs : List Chars) (k : Chars) → has xs k ≡ true → has (x ∷ xs) k ≡ true
has-cons x xs k h = ground arith

has_self : (x : Chars) (xs : List Chars) → has (x ∷ xs) x ≡ true
has_self x xs = ground (arith, (bytes_eq_iff x x).1 refl)

has-claim :
    (gs claimed : List Chars) (k : Chars) → has claimed k ≡ true → has (claim gs claimed) k ≡ true
has-claim [] claimed k h = h
has-claim (g ∷ gs) claimed k h = has-claim gs (g ∷ claimed) k (has-cons g claimed k h)

Claimed-claim_old :
    (gs claimed xs : List Chars) → Claimed claimed xs → Claimed (claim gs claimed) xs
Claimed-claim_old gs claimed [] h = tt
Claimed-claim_old gs claimed (x ∷ xs) h =
    (has-claim gs claimed x h.0, Claimed-claim_old gs claimed xs h.1)

Claimed-claim : (gs claimed : List Chars) → Claimed (claim gs claimed) gs
Claimed-claim [] claimed = tt
Claimed-claim (g ∷ gs) claimed =
    (has-claim gs (g ∷ claimed) g (has_self g claimed), Claimed-claim gs (g ∷ claimed))

-- A name that is not claimed is not among names that are.
has-unclaimed :
    (claimed xs : List Chars) (k : Chars)
    → Claimed claimed xs
    → has claimed k ≡ false
    → has xs k ≡ false
has-unclaimed claimed [] k h n = refl
has-unclaimed claimed (x ∷ xs) k h n = elim (Bool-cases (bytes_eq x k)) [
  | inl e ↦
      let s : x ≡ k = (bytes_eq_iff x k).0 e in
      let t : has claimed k ≡ true = subst (λ y. has claimed y ≡ true) s h.0 in cc
  | inr e ↦ rw e (has-unclaimed claimed xs k h.1 n)
]

NoCommon-unclaimed :
    (claimed xs ys : List Chars) → Claimed claimed xs → NoCommon claimed ys → NoCommon xs ys
NoCommon-unclaimed claimed xs [] h n = tt
NoCommon-unclaimed claimed xs (y ∷ ys) h n =
    (has-unclaimed claimed xs y h n.0, NoCommon-unclaimed claimed xs ys h n.1)

taken-none : (claimed gs : List Chars) → taken claimed gs ≡ none → NoCommon claimed gs
unfolding taken
taken-none claimed [] h = tt
taken-none claimed (g ∷ gs) h = elim (Bool-cases (has claimed g)) [
  | inl e ↦ let z : some g ≡ none = rw e at h in cc
  | inr e ↦ (e, taken-none claimed gs (rw e at h))
]

module _ (parse_source : Chars → Parsed) where
  -- Each rule parses, and no later one has a group of its.
  abbrev pub IsBundle : List (Chars × Chars) → Type 0
  IsBundle [] = Unit {0}
  IsBundle (a ∷ rest) =
      ((gs : List Chars) × (parse_source a.1 ≡ groups gs))
      × All (λ b. NoCommon (found_groups (parse_source a.1)) (found_groups (parse_source b.1))) rest
      × IsBundle rest

  abbrev AllClaimed : List Chars → List (Chars × Chars) → Type 0
  AllClaimed claimed l = All (λ a. Claimed claimed (found_groups (parse_source a.1))) l

  IsBundle-snoc :
      (l : List (Chars × Chars)) (claimed gs : List Chars) (a : Chars × Chars)
      → IsBundle l
      → AllClaimed claimed l
      → parse_source a.1 ≡ groups gs
      → NoCommon claimed gs
      → IsBundle (l ++ (a ∷ []))
  IsBundle-snoc [] claimed gs a h k p n = ((gs, p), tt, tt)
  IsBundle-snoc (b ∷ l) claimed gs a h k p n =
      let e : found_groups (parse_source a.1) ≡ gs = rw p refl in
      (
        h.0,
        All-append _ l (a ∷ []) h.1 (
          subst (NoCommon (found_groups (parse_source b.1))) (sym e)
              (NoCommon-unclaimed claimed (found_groups (parse_source b.1)) gs k.0 n),
          tt,
        ),
        IsBundle-snoc l claimed gs a h.2 k.1 p n,
      )

  AllClaimed-claim :
      (gs claimed : List Chars) (l : List (Chars × Chars))
      → AllClaimed claimed l
      → AllClaimed (claim gs claimed) l
  AllClaimed-claim gs claimed [] h = tt
  AllClaimed-claim gs claimed (a ∷ l) h = (
    Claimed-claim_old gs claimed (found_groups (parse_source a.1)) h.0,
    AllClaimed-claim gs claimed l h.1,
  )

  record IsOutcome (o : TemplateParseOutcome) : Type 0 where
    bundle : IsBundle (TemplateParseOutcome.accepted o)
    owned : AllClaimed (TemplateParseOutcome.claimed o) (TemplateParseOutcome.accepted o)

  reject-IsOutcome :
      (r : TemplateRuleView) (m : Message) (o : TemplateParseOutcome)
      → IsOutcome o
      → IsOutcome (reject r m o)
  reject-IsOutcome r m o h = record { bundle = IsOutcome.bundle h; owned = IsOutcome.owned h }

  parsed_rule-IsOutcome :
      (r : TemplateRuleView) (p : Parsed) (o : TemplateParseOutcome)
      → parse_source (TemplateRuleView.waza_source r) ≡ p
      → IsOutcome o
      → IsOutcome (parsed_rule r p o)
  unfolding parsed_rule
  parsed_rule-IsOutcome r (refused m) o e h = reject-IsOutcome r _ o h
  parsed_rule-IsOutcome r (groups gs) o e h =
      elim (Option-cases (taken (TemplateParseOutcome.claimed o) gs)) [
        | inl t ↦
            let c = TemplateParseOutcome.claimed o in
            let q : parsed_rule r (groups gs) o ≡ accept r gs o = rw (t, parsed_rule) refl in
            subst IsOutcome (sym q) (record {
              bundle =
                  IsBundle-snoc (TemplateParseOutcome.accepted o) c gs _ (IsOutcome.bundle h)
                    (IsOutcome.owned h) e (taken-none c gs t);
              owned =
                  All-append _ (TemplateParseOutcome.accepted o) _
                    (AllClaimed-claim gs c (TemplateParseOutcome.accepted o) (IsOutcome.owned h))
                    (
                      subst (λ x. Claimed (claim gs c) (found_groups x)) (sym e)
                          (Claimed-claim gs c),
                      tt,
                    );
            })
        | inr (name, t) ↦
            let q : parsed_rule r (groups gs) o ≡ reject r (collision name) o =
              rw (t, parsed_rule) refl in
            subst IsOutcome (sym q) (reject-IsOutcome r _ o h)
      ]

  template_rule-IsOutcome :
      (r : TemplateRuleView) (o : TemplateParseOutcome)
      → IsOutcome o
      → IsOutcome (template_rule parse_source r o)
  unfolding template_rule
  template_rule-IsOutcome r o h =
      if-either IsOutcome (TemplateRuleView.is_enabled r)
        (if-either IsOutcome (is_blank (TemplateRuleView.waza_source r)) (reject-IsOutcome r _ o h)
          (parsed_rule-IsOutcome r (parse_source (TemplateRuleView.waza_source r)) o refl h))
        h

  template_rules-IsOutcome :
      (rs : List TemplateRuleView) (o : TemplateParseOutcome)
      → IsOutcome o
      → IsOutcome (template_rules parse_source rs o)
  unfolding template_rules
  template_rules-IsOutcome [] o h = h
  template_rules-IsOutcome (r ∷ rs) o h =
      template_rules-IsOutcome rs (template_rule parse_source r o) (template_rule-IsOutcome r o h)

  -- Why a rule is refused: it has no source, the parser refuses it with this message, or it brings this group.
  abbrev pub Reason : TemplateRuleView → Message → Type 0
  Reason r m =
      ((is_blank (TemplateRuleView.waza_source r) ≡ true) × (m ≡ empty_rule))
      ⊎ (((p : Chars) × (parse_source (TemplateRuleView.waza_source r) ≡ refused p)
            × (m ≡ parse_error p))
          ⊎ ((gs : List Chars) × (name : Chars) × (parse_source (TemplateRuleView.waza_source r)
                ≡ groups gs)
              × (has gs name ≡ true)
              × (m ≡ collision name)))

  abbrev rule_of : TemplateRuleView → Chars × Chars
  rule_of r = (TemplateRuleView.name r, TemplateRuleView.waza_source r)

  abbrev pub error_of : TemplateRuleView → Message → RuleError
  error_of r m = record { rule_name = TemplateRuleView.name r; message = m }

  -- The rules in order: each that is enabled has its own place among the accepted ones or among the errors.
  pub data Settled : List TemplateRuleView → List (Chars × Chars) → List RuleError → Type 0 where
    settled_none : Settled [] [] []
    settled_disabled :
        (r : TemplateRuleView) (rs : List TemplateRuleView) (a : List (Chars × Chars))
        (e : List RuleError)
        → TemplateRuleView.is_enabled r ≡ false
        → Settled rs a e
        → Settled (r ∷ rs) a e
    settled_accepted :
        (r : TemplateRuleView) (rs : List TemplateRuleView) (a : List (Chars × Chars))
        (e : List RuleError)
        → TemplateRuleView.is_enabled r ≡ true
        → Settled rs a e
        → Settled (r ∷ rs) ((TemplateRuleView.name r, TemplateRuleView.waza_source r) ∷ a) e
    settled_error :
        (r : TemplateRuleView) (rs : List TemplateRuleView) (a : List (Chars × Chars))
        (e : List RuleError) (m : Message)
        → TemplateRuleView.is_enabled r ≡ true
        → Reason r m
        → Settled rs a e
        → Settled (r ∷ rs) a (error_of r m ∷ e)

  -- What a rule does to the outcome.
  data Does (r : TemplateRuleView) (o t : TemplateParseOutcome) : Type 0 where
    does_nothing : TemplateRuleView.is_enabled r ≡ false → t ≡ o → Does r o t
    does_accept :
        TemplateRuleView.is_enabled r ≡ true
        → TemplateParseOutcome.accepted t ≡ TemplateParseOutcome.accepted o ++ (rule_of r ∷ [])
        → TemplateParseOutcome.errors t ≡ TemplateParseOutcome.errors o
        → Does r o t
    does_reject :
        (m : Message)
        → TemplateRuleView.is_enabled r ≡ true
        → Reason r m
        → t ≡ reject r m o
        → Does r o t

  has-taken :
      (claimed gs : List Chars) (name : Chars) → taken claimed gs ≡ some name → has gs name ≡ true
  unfolding taken
  has-taken claimed [] name h = absurd (cc h)
  has-taken claimed (g ∷ gs) name h = elim (Bool-cases (has claimed g)) [
    | inl e ↦
        let z : some g ≡ some name = rw e at h in
        let q : g ≡ name = cc in subst (λ n. has (g ∷ gs) n ≡ true) q (has_self g gs)
    | inr e ↦ has-cons g gs name (has-taken claimed gs name (rw e at h))
  ]

  Does-parsed_rule :
      (r : TemplateRuleView) (p : Parsed) (o : TemplateParseOutcome)
      → TemplateRuleView.is_enabled r ≡ true
      → parse_source (TemplateRuleView.waza_source r) ≡ p
      → Does r o (parsed_rule r p o)
  unfolding parsed_rule
  Does-parsed_rule r (refused m) o on e =
      does_reject (parse_error m) on (inr (inl (m, e, refl))) refl
  Does-parsed_rule r (groups gs) o on e =
      elim (Option-cases (taken (TemplateParseOutcome.claimed o) gs)) [
        | inl t ↦
            let q : parsed_rule r (groups gs) o ≡ accept r gs o = rw (t, parsed_rule) refl in
            subst (Does r o) (sym q) (does_accept on refl refl)
        | inr (name, t) ↦
            let q : parsed_rule r (groups gs) o ≡ reject r (collision name) o =
              rw (t, parsed_rule) refl in
            subst (Does r o) (sym q) (
              does_reject (collision name) on
                (inr
                  (inr (gs, name, e, has-taken (TemplateParseOutcome.claimed o) gs name t, refl)))
                refl)
      ]

  Does-template_rule :
      (r : TemplateRuleView) (o : TemplateParseOutcome) → Does r o (template_rule parse_source r o)
  unfolding template_rule
  Does-template_rule r o =
      if-cases (Does r o) (TemplateRuleView.is_enabled r)
        (λ on.
          if-cases (Does r o) (is_blank (TemplateRuleView.waza_source r))
            (λ b. does_reject empty_rule on (inl (b, refl)) refl)
            (λ b. Does-parsed_rule r (parse_source (TemplateRuleView.waza_source r)) o on refl))
        (λ off. does_nothing off refl)

  -- What the rules add to an outcome.
  abbrev Adds : List TemplateRuleView → TemplateParseOutcome → TemplateParseOutcome → Type 0
  Adds rs o t =
      (a : List (Chars × Chars)) × (e : List RuleError) × Settled rs a e
      × (TemplateParseOutcome.accepted t ≡ TemplateParseOutcome.accepted o ++ a)
      × (TemplateParseOutcome.errors t ≡ TemplateParseOutcome.errors o ++ e)

  Adds-cons :
      (r : TemplateRuleView) (rs : List TemplateRuleView) (o m t : TemplateParseOutcome)
      → Does r o m
      → Adds rs m t
      → Adds (r ∷ rs) o t
  Adds-cons r rs o m t (does_nothing off q) (a, e, s, x, y) = (
    a,
    e,
    settled_disabled r rs a e off s,
    x ∙ ap (λ z. TemplateParseOutcome.accepted z ++ a) q,
    y ∙ ap (λ z. TemplateParseOutcome.errors z ++ e) q,
  )
  Adds-cons r rs o m t (does_accept on qa qe) (a, e, s, x, y) = (
    rule_of r ∷ a,
    e,
    settled_accepted r rs a e on s,
    x ∙ ap (λ z. z ++ a) qa ∙ append_assoc (TemplateParseOutcome.accepted o) (rule_of r ∷ []) a,
    y ∙ ap (λ z. z ++ e) qe,
  )
  Adds-cons r rs o m t (does_reject msg on why q) (a, e, s, x, y) = (
    a,
    error_of r msg ∷ e,
    settled_error r rs a e msg on why s,
    x ∙ ap (λ z. TemplateParseOutcome.accepted z ++ a) q,
    y
        ∙ ap (λ z. TemplateParseOutcome.errors z ++ e) q
        ∙ append_assoc (TemplateParseOutcome.errors o) (error_of r msg ∷ []) e,
  )

  template_rules-Adds :
      (rs : List TemplateRuleView) (o : TemplateParseOutcome)
      → Adds rs o (template_rules parse_source rs o)
  unfolding template_rules
  template_rules-Adds [] o = (
    [],
    [],
    settled_none,
    sym (append-nil (TemplateParseOutcome.accepted o)),
    sym (append-nil (TemplateParseOutcome.errors o)),
  )
  template_rules-Adds (r ∷ rs) o =
      Adds-cons r rs o (template_rule parse_source r o)
        (template_rules parse_source rs (template_rule parse_source r o)) (Does-template_rule r o)
        (template_rules-Adds rs (template_rule parse_source r o))

  -- The rules of a template, in order, each leave: nothing, where it is disabled; itself among the accepted rules; or one
  -- error under its name, with the reason, that its source is blank, that the parser refuses it, or that it brings the
  -- group that the error names. The accepted ones parse, and no two of them bring a group of the same name.
  pub template_rules-IsBundle :
      (rs : List TemplateRuleView)
      → IsBundle (TemplateParseOutcome.accepted (template_rules parse_source rs nothing_parsed))
        × Settled rs
            (TemplateParseOutcome.accepted (template_rules parse_source rs nothing_parsed))
            (TemplateParseOutcome.errors (template_rules parse_source rs nothing_parsed))
  template_rules-IsBundle rs =
      let x = template_rules-Adds rs nothing_parsed in
      (
        IsOutcome.bundle
            (template_rules-IsOutcome rs nothing_parsed (record { bundle = tt; owned = tt })),
        subst
            (λ a.
              Settled rs a
                (TemplateParseOutcome.errors (template_rules parse_source rs nothing_parsed)))
            (sym x.3) (subst (Settled rs x.0) (sym x.4) x.2),
      )

-- ===== src/Ipc/Named.antt =====
-- The user of a process in the line of its creation.
use wazabi_edr_agent.Prelude.{
  ℕ, ◌%◌, ◌^◌, ◌≡◌, refl, sym, subst, ap, ◌∙◌, false, ◌≢◌, List, [], ◌∷◌, Option, none, some, ◌==◌,
  if-either, if-cases, arith,
}
use wazabi_edr_agent.Prelude.Bytes.{codes, bytes_eq}
use wazabi_edr_agent.Prelude.Json.{Json, Members, no_member, member_of, get, as_str, as_u64}
use wazabi_edr_agent.Ipc.Wire.{FieldValue, value_at, units_at}
use wazabi_edr_agent.Ipc.Payloads.{
  Chars, Lookups, optional, number_or_none, boolean_or_none, text_or_none, parent_name, nonempty,
  full_name, user_of, user_members, integrity_members, decode_path, process_create_payload,
}
use wazabi_edr_agent.Ipc.Process.{ProcessSlim, text_of, or_else, slim, process_at, extract_process}

-- The user that is shown: the account where Windows knows one by a name that is not empty, else the identifier itself.
abbrev pub IsUser : Option (Chars × Chars) → Chars → Option Chars → Type 0
IsUser none sid u = u ≡ some sid
IsUser (some (account, domain)) sid u =
    (full_name account domain ≡ [] → u ≡ some sid)
    × ((full_name account domain ≢ []) → u ≡ some (full_name account domain))

optional-skip :
    (k : Chars) (o : Option Json) (ms : Members) (j : Chars)
    → bytes_eq k j ≡ false
    → member_of (optional k o ms) j ≡ member_of ms j
unfolding member_of optional
optional-skip k none ms j e = refl
optional-skip k (some v) ms j e = rw e

integrity-skip :
    (il : ℕ) (ms : Members)
    → member_of (integrity_members il ms) (codes "user_full") ≡ member_of ms (codes "user_full")
unfolding member_of integrity_members
integrity-skip il ms =
    if-either (λ (r : Members). member_of r (codes "user_full") ≡ member_of ms (codes "user_full"))
      (il == 0xFFFFFFFF) refl refl

or_else-chosen :
    (f s : Chars)
    → (f ≡ [] → or_else (nonempty (some f)) (some s) ≡ some s)
      × ((f ≢ []) → or_else (nonempty (some f)) (some s) ≡ some f)
unfolding or_else nonempty
or_else-chosen [] s = (λ e. refl, λ n. absurd (n refl))
or_else-chosen (c ∷ f) s = (λ e. cc, λ n. refl)

-- Behind the identifier's own members, with no user named in the rest.
user_members-IsUser :
    (r : Option (Chars × Chars)) (s : Chars) (ms : Members)
    → member_of ms (codes "user_full") ≡ none
    → IsUser r s
        (or_else (nonempty (as_str (member_of (user_members r ms) (codes "user_full")))) (some s))
unfolding member_of user_members as_str or_else nonempty
user_members-IsUser none s ms e = rw e
user_members-IsUser (some (a, d)) s ms e = or_else-chosen (full_name a d) s

process_at-some :
    (n : ℕ) (j : Json) → (n % 2 ^ 32 ≢ 0) → process_at (some n) j ≡ some (slim (n % 2 ^ 32) j)
unfolding process_at
process_at-some n j h =
    if-cases (λ o. o ≡ some (slim (n % 2 ^ 32) j)) (n % 2 ^ 32 == 0)
      (λ e. absurd (h (ground (arith, e)))) (λ e. refl)

three-skip :
    (a b d : Option Json) (ms : Members) (k : Chars)
    → bytes_eq (codes "command_line") k ≡ false
    → bytes_eq (codes "parent_image_path") k ≡ false
    → bytes_eq (codes "parent_image_name") k ≡ false
    → member_of
        (optional
          (codes "command_line")
          a
          (optional (codes "parent_image_path") b (optional (codes "parent_image_name") d ms)))
        k
      ≡ member_of ms k
three-skip a b d ms k h1 h2 h3 =
    optional-skip (codes "command_line") a
      (optional (codes "parent_image_path") b (optional (codes "parent_image_name") d ms)) k h1
    ∙ (optional-skip (codes "parent_image_path") b (optional (codes "parent_image_name") d ms) k h2
        ∙ optional-skip (codes "parent_image_name") d ms k h3)

module _ (look : Lookups) (vs : List FieldValue) where
  abbrev session : Option Json
  session = number_or_none (Lookups.session_id_for_pid look (value_at 6 vs))

  abbrev elevation : Option Json
  elevation = boolean_or_none (Lookups.is_elevated_for_pid look (value_at 6 vs))

  abbrev parent : Chars
  parent = decode_path look 512 (units_at 13 vs) (value_at 14 vs)

  abbrev sid : Chars
  sid = decode_path look 192 (units_at 15 vs) (value_at 16 vs)

  -- What follows the user.
  abbrev rest_of : Members
  rest_of =
      integrity_members (value_at 17 vs)
        (optional (codes "session_id") session (optional (codes "elevated") elevation no_member))

  rest_of-silent : member_of rest_of (codes "user_full") ≡ none
  unfolding member_of
  rest_of-silent =
      integrity-skip (value_at 17 vs)
        (optional (codes "session_id") session (optional (codes "elevated") elevation no_member))
      ∙ (optional-skip (codes "session_id") session
            (optional (codes "elevated") elevation no_member) (codes "user_full") refl
          ∙ optional-skip (codes "elevated") elevation no_member (codes "user_full") refl)

  abbrev Front : (k : Chars) → Type 0
  Front k = get (process_create_payload look vs) k ≡ member_of (user_of look sid rest_of) k

  get-user_sid : Front (codes "user_sid")
  unfolding get process_create_payload member_of
  get-user_sid =
      three-skip (text_or_none (decode_path look 4096 (units_at 11 vs) (value_at 12 vs)))
        (text_or_none parent) (text_or_none (parent_name look parent)) (user_of look sid rest_of)
        (codes "user_sid") refl refl refl

  get-user_full : Front (codes "user_full")
  unfolding get process_create_payload member_of
  get-user_full =
      three-skip (text_or_none (decode_path look 4096 (units_at 11 vs) (value_at 12 vs)))
        (text_or_none parent) (text_or_none (parent_name look parent)) (user_of look sid rest_of)
        (codes "user_full") refl refl refl

  module _ (c : ℕ) (s : Chars) (e : sid ≡ c ∷ s) where
    slim-sid : text_of (process_create_payload look vs) "user_sid" ≡ some (c ∷ s)
    unfolding text_of nonempty as_str member_of user_of
    slim-sid =
        ap (λ o. nonempty (as_str o))
          (get-user_sid ∙ ap (λ t. member_of (user_of look t rest_of) (codes "user_sid")) e)

    slim-full :
        text_of (process_create_payload look vs) "user_full"
        ≡ nonempty (
            as_str (
              member_of
                (user_members (Lookups.resolve_user look (c ∷ s)) rest_of)
                (codes "user_full")))
    unfolding text_of member_of user_of
    slim-full =
        ap (λ o. nonempty (as_str o))
          (get-user_full ∙ ap (λ t. member_of (user_of look t rest_of) (codes "user_full")) e)

    slim-user :
        (n : ℕ)
        → IsUser
            (Lookups.resolve_user look (c ∷ s))
            (c ∷ s)
            (ProcessSlim.user (slim n (process_create_payload look vs)))
    unfolding slim
    slim-user n =
        let r = Lookups.resolve_user look (c ∷ s) in
        let j = process_create_payload look vs in
        subst (λ o. IsUser r (c ∷ s) (or_else o (text_of j "user_sid"))) (sym slim-full)
          (subst
            (λ o. IsUser r (c ∷ s) (
              or_else (nonempty (as_str (member_of (user_members r rest_of) (codes "user_full"))))
                o))
            (sym slim-sid) (user_members-IsUser r (c ∷ s) rest_of rest_of-silent))

    -- Where the number of the created process is not 0 and its identifier is there, the line has its process, with this
    -- number, this identifier, and a user that is never left out: the account where Windows knows one by a name that is not
    -- empty, and the identifier itself otherwise.
    pub extract_process-IsUser :
        (value_at 6 vs % 2 ^ 32 ≢ 0)
        → (p : ProcessSlim) × (extract_process (process_create_payload look vs) ≡ some p)
          × (ProcessSlim.pid p ≡ value_at 6 vs % 2 ^ 32)
          × (ProcessSlim.user_sid p ≡ some (c ∷ s))
          × IsUser (Lookups.resolve_user look (c ∷ s)) (c ∷ s) (ProcessSlim.user p)
    unfolding extract_process process_create_payload get member_of as_u64 slim
    extract_process-IsUser h =
        let n = value_at 6 vs in
        let j = process_create_payload look vs in
        (slim (n % 2 ^ 32) j, process_at-some n j h, refl, slim-sid, slim-user (n % 2 ^ 32))

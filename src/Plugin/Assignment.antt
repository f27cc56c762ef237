-- ===== src/Plugin/Assignment.antt =====
-- src/plugin/assignment.rs: the plugins that the server assigns. What the agent does for an action is the list of its
-- steps, in order; the answers of the server, of the file system and of `wedr-plugin` may depend on the steps before.
-- Texts are lists of code points.
pub mod Handlers
pub mod Verified
pub mod Install
pub mod Flight
use wazabi_edr_agent.Prelude.{
  ℕ, Bool, true, false, not, ◌&&◌, ◌||◌, List, [], ◌∷◌, ◌++◌, Option, none, some, if◌then◌else◌,
  map, ◌==◌,
}
use wazabi_edr_agent.Prelude.Bytes.{codes, bytes_eq, starts_with, is_whitespace}
use wazabi_edr_agent.Control.Executor.Files.{eq_ignore_ascii_case}

abbrev pub Chars : Type 0
Chars = List ℕ

pub record PendingPluginAction : Type 0 where
  pub plugin_package_id : Chars
  pub version : Chars
  pub action : Chars
  pub plugin_id_local : Option Chars

pub record PluginInfoForAgent : Type 0 where
  pub name : Chars
  pub vendor : Chars
  pub version : Chars
  pub artifact_filename : Chars
  pub auto_launch : Bool
  pub extras : List Chars
  pub env : List (Chars × Chars)

pub data Phase : Type 0 where
  installing : Phase
  installed : Phase
  started : Phase
  revoked : Phase
  failed_install : Phase

-- The steps; what goes to the server goes with the id of the package. A file is named by its directory and name, and `partial` by the same.
pub data Step : Type 0 where
  reported : Chars → Phase → Chars → Option Chars → Step
  asked_info : Chars → Step
  downloaded : Chars → Bool → Chars → Chars → Step
  removed_partial : Chars → Chars → Step
  removed_final : Chars → Chars → Step
  renamed : Chars → Chars → Step
  invoked : List Chars → Step
  killed : Chars → Step
  removed_dir : Chars → Step

-- `report_ok`, `done` say whether a step works; `info` is the answer to the question; `expected_sha` what the
-- header of a download names, where it works; `sha256_file_hex` the digest of the partial file; `stdout` what an invocation prints where it works;
-- `manifest_path` the `expected_path` of a manifest, and `parent` and `join` those of the library.
pub record Site : Type 0 where
  pub done : List Step → Step → Bool
  pub info : List Step → Chars → Option PluginInfoForAgent
  pub expected_sha : List Step → Step → Option Chars
  pub sha256_file_hex : List Step → Option Chars
  pub exists : List Step → Chars → Chars → Bool
  pub stdout : List Step → List Chars → Option Chars
  pub manifest_path : Chars → Option Chars
  pub file_name : Chars → Option Chars
  pub parent : Chars → Option Chars
  pub join : Chars → Chars → Chars
  pub program_data : Chars

-- A result with the steps so far.
pub data Result (A : Type 0) : Type 0 where
  ok : A → Result A
  err : Result A

abbrev pub Run : Type 0 → Type 0
Run A = List Step → Result A × List Step

abbrev pub next : {A : Type 0} {B : Type 0} → (A → Run B) → Result A → Run B
next f (ok a) steps = f a steps
next f err steps = (err, steps)

infixl 10 ◌>>=◌
unfoldable pub ◌>>=◌ : {A : Type 0} {B : Type 0} → Run A → (A → Run B) → Run B
(m >>= f) steps = let r = m steps in next f r.0 r.1

abbrev pub pure : {A : Type 0} → A → Run A
pure a steps = (ok a, steps)

abbrev pub raise : {A : Type 0} → Run A
raise steps = (err, steps)

abbrev pub answer : {A : Type 0} → Option A → Run A
answer none steps = (err, steps)
answer (some a) steps = (ok a, steps)

abbrev pub guard : Bool → Run (Unit {0})
guard b steps = (if b then ok tt else err, steps)

has_char : ℕ → Chars → Bool
has_char k [] = false
has_char k (c ∷ s) = c == k || has_char k s

has_any : Chars → Chars → Bool
unfolding has_char
has_any [] s = false
has_any (k ∷ ks) s = has_char k s || has_any ks s

has_dots : Chars → Bool
has_dots [] = false
has_dots (c ∷ s) = starts_with (c ∷ s) (codes "..") || has_dots s

unfoldable pub is_empty : Chars → Bool
is_empty [] = true
is_empty (c ∷ s) = false

-- `/ \ : < > " | ? *`.
abbrev forbidden : Chars
forbidden = 47 ∷ 92 ∷ 58 ∷ 60 ∷ 62 ∷ 34 ∷ 124 ∷ 63 ∷ 42 ∷ []

unfoldable pub validate_segment : Chars → Bool
unfolding has_any has_dots is_empty
validate_segment s = not (is_empty s) && not (has_any forbidden s || has_dots s)

same_name : Option Chars → Chars → Bool
same_name none name = false
same_name (some n) name = bytes_eq n name

module _ (site : Site) where
  unfoldable pub validate_filename : Chars → Bool
  unfolding same_name is_empty
  validate_filename name =
      not (is_empty name)
      && (same_name (Site.file_name site name) name && not (starts_with name (codes ".")))

  -- A step that may fail.
  unfoldable pub attempt : Step → Run (Unit {0})
  attempt step steps = (if Site.done site steps step then ok tt else err, steps ++ (step ∷ []))

  -- A step whose failure is ignored.
  unfoldable pub try : Step → Run (Unit {0})
  try step steps = (ok tt, steps ++ (step ∷ []))

  unfoldable pub report : Chars → Phase → Chars → Option Chars → Run (Unit {0})
  unfolding attempt
  report pkg_id phase version id = attempt (reported pkg_id phase version id)

  unfoldable pub get_plugin_info : Chars → Run PluginInfoForAgent
  get_plugin_info pkg_id steps =
      answer (Site.info site steps pkg_id) (steps ++ (asked_info pkg_id ∷ []))

  unfoldable pub plugin_dir : PluginInfoForAgent → Run Chars
  unfolding ◌>>=◌ validate_segment
  plugin_dir info = guard (validate_segment (PluginInfoForAgent.name info)) >>= λ _.
      guard (validate_segment (PluginInfoForAgent.version info)) >>= λ _. pure (
        Site.join site
          (Site.join site (Site.join site (Site.program_data site) (codes "WazabiEDR\\plugin_bin"))
            (PluginInfoForAgent.name info))
          (PluginInfoForAgent.version info))

  unfoldable pub verified : Chars → Chars → Chars → Option Chars → Run (Unit {0})
  verified dir name expected none = raise
  verified dir name expected (some actual) =
      if eq_ignore_ascii_case actual expected
      then pure tt
      else try (removed_partial dir name) >>= λ _. raise

  -- No header, no check.
  unfoldable pub verify_sha : Chars → Chars → Chars → Run (Unit {0})
  unfolding verified ◌>>=◌ try eq_ignore_ascii_case is_empty
  verify_sha dir name expected steps =
      if is_empty expected
      then (ok tt, steps)
      else verified dir name expected (Site.sha256_file_hex site steps) steps

  unfoldable pub download : Chars → Bool → Chars → Chars → Run Chars
  download pkg_id primary dir name steps =
      answer (Site.expected_sha site steps (downloaded pkg_id primary dir name))
        (steps ++ (downloaded pkg_id primary dir name ∷ []))

  unfoldable pub clear_final : Chars → Chars → Run (Unit {0})
  unfolding attempt
  clear_final dir name steps =
      if Site.exists site steps dir name
      then attempt (removed_final dir name) steps
      else (ok tt, steps)

  unfoldable pub place : Chars → Chars → Run (Unit {0})
  unfolding ◌>>=◌ try
  place dir name steps =
      if Site.done site steps (renamed dir name)
      then (ok tt, steps ++ (renamed dir name ∷ []))
      else (try (removed_partial dir name) >>= λ _. raise) (steps ++ (renamed dir name ∷ []))

  unfoldable pub place_final : Chars → Chars → Run Chars
  unfolding ◌>>=◌ clear_final place
  place_final dir name =
      clear_final dir name >>= λ _. place dir name >>= λ _. pure (Site.join site dir name)

  unfoldable pub download_and_verify : Chars → Bool → Chars → Chars → Run Chars
  unfolding ◌>>=◌ validate_filename download verify_sha place_final
  download_and_verify pkg_id primary dir name = guard (validate_filename name) >>= λ _.
      download pkg_id primary dir name >>= λ expected.
      verify_sha dir name expected >>= λ _. place_final dir name

  unfoldable pub download_extras : Chars → Chars → List Chars → Run (Unit {0})
  unfolding ◌>>=◌ download_and_verify
  download_extras pkg_id dir [] = pure tt
  download_extras pkg_id dir (e ∷ es) =
      download_and_verify pkg_id false dir e >>= λ _. download_extras pkg_id dir es

  unfoldable pub invoke_wedr_plugin : List Chars → Run Chars
  invoke_wedr_plugin args steps =
      answer (Site.stdout site steps args) (steps ++ (invoked args ∷ []))

-- ===== src/Plugin/Assignment/Handlers.antt =====
-- src/plugin/assignment.rs: the handlers of an install, an update and a revocation, and the loop over the actions.
use wazabi_edr_agent.Prelude.{
  ℕ, Bool, true, false, List, [], ◌∷◌, ◌++◌, Option, none, some, if◌then◌else◌, ◌==◌,
}
use wazabi_edr_agent.Prelude.Bytes.{codes, bytes_eq, trim}
use wazabi_edr_agent.Plugin.Assignment.{
  Chars, PendingPluginAction, PluginInfoForAgent, installing, installed, started, revoked,
  failed_install, Step, killed, removed_dir, Site, Result, ok, err, Run, ◌>>=◌, pure, answer, try,
  report, get_plugin_info, plugin_dir, download_and_verify, download_extras, invoke_wedr_plugin,
}

-- `str::lines`: the text is cut at each line feed; a carriage return before it falls to the `trim`.
add_to_line : ℕ → List Chars → List Chars
add_to_line c [] = (c ∷ []) ∷ []
add_to_line c (l ∷ ls) = (c ∷ l) ∷ ls

lines : Chars → List Chars
unfolding add_to_line
lines [] = []
lines (c ∷ s) = if c == 10 then [] ∷ lines s else add_to_line c (lines s)

after_prefix : Chars → Chars → Option Chars
after_prefix [] s = some s
after_prefix (p ∷ ps) [] = none
after_prefix (p ∷ ps) (c ∷ s) = if c == p then after_prefix ps s else none

after_colon : Chars → Option Chars
after_colon [] = none
after_colon (c ∷ s) = if c == 58 then some s else after_colon s

nonempty : Option Chars → Option Chars
nonempty (some (c ∷ s)) = some (c ∷ s)
nonempty _ = none

trimmed : Option Chars → Option Chars
unfolding nonempty trim
trimmed none = none
trimmed (some s) = nonempty (some (trim s))

after_colon_of : Option Chars → Option Chars
unfolding after_colon
after_colon_of none = none
after_colon_of (some s) = after_colon s

line_id : Chars → Option Chars
unfolding after_prefix after_colon_of trimmed trim
line_id line = trimmed (after_colon_of (after_prefix (codes "plugin_id") (trim line)))

first_id : List Chars → Option Chars
unfolding line_id
first_id [] = none
first_id (l ∷ ls) = let rest = first_id ls in elim (line_id l) [ none ↦ rest | some id ↦ some id ]

-- The id in what `wedr-plugin enroll` prints.
unfoldable pub parse_plugin_id : Chars → Option Chars
unfolding first_id lines
parse_plugin_id stdout = first_id (lines stdout)

env_args : List (Chars × Chars) → List Chars
env_args [] = []
env_args ((k, v) ∷ kvs) = codes "--env" ∷ (k ++ (61 ∷ v)) ∷ env_args kvs

unfoldable pub enroll_args : Chars → PluginInfoForAgent → List Chars
unfolding env_args
enroll_args bin info =
    codes "enroll"
    ∷ bin
    ∷ codes "--name"
    ∷ PluginInfoForAgent.name info
    ∷ codes "--vendor"
    ∷ PluginInfoForAgent.vendor info
    ∷ codes "--allow-unsigned"
    ∷ ((if PluginInfoForAgent.auto_launch info then codes "--auto-launch" ∷ [] else [])
        ++ env_args (PluginInfoForAgent.env info))

module _ (site : Site) where
  unfoldable pub invoke_enroll : Chars → PluginInfoForAgent → Run Chars
  unfolding ◌>>=◌ invoke_wedr_plugin parse_plugin_id enroll_args
  invoke_enroll bin info =
      invoke_wedr_plugin site (enroll_args bin info) >>= λ stdout. answer (parse_plugin_id stdout)

  -- The end of an install: the enrolment and the last report.
  unfoldable pub enroll_then_report : Chars → PluginInfoForAgent → Chars → Run (Unit {0})
  unfolding ◌>>=◌ report invoke_enroll
  enroll_then_report pkg_id info bin = invoke_enroll bin info >>= λ id.
      report site pkg_id started (PluginInfoForAgent.version info) (some id)

  unfoldable pub report_installed : Chars → PluginInfoForAgent → Chars → Run (Unit {0})
  unfolding ◌>>=◌ report enroll_then_report
  report_installed pkg_id info bin =
      report site pkg_id installed (PluginInfoForAgent.version info) none >>= λ _.
      enroll_then_report pkg_id info bin

  unfoldable pub install_extras : Chars → PluginInfoForAgent → Chars → Chars → Run (Unit {0})
  unfolding ◌>>=◌ download_extras report_installed
  install_extras pkg_id info dir bin =
      download_extras site pkg_id dir (PluginInfoForAgent.extras info) >>= λ _.
      report_installed pkg_id info bin

  unfoldable pub install_files : Chars → PluginInfoForAgent → Chars → Run (Unit {0})
  unfolding ◌>>=◌ download_and_verify install_extras
  install_files pkg_id info dir =
      download_and_verify site pkg_id true dir (PluginInfoForAgent.artifact_filename info)
      >>= λ bin. install_extras pkg_id info dir bin

  unfoldable pub install_described : Chars → PluginInfoForAgent → Run (Unit {0})
  unfolding ◌>>=◌ plugin_dir install_files
  install_described pkg_id info = plugin_dir site info >>= λ dir. install_files pkg_id info dir

  unfoldable pub install_asked : Chars → Run (Unit {0})
  unfolding ◌>>=◌ get_plugin_info install_described
  install_asked pkg_id = get_plugin_info site pkg_id >>= λ info. install_described pkg_id info

  unfoldable pub handle_install : PendingPluginAction → Run (Unit {0})
  unfolding ◌>>=◌ report install_asked
  handle_install action =
      let pkg_id = PendingPluginAction.plugin_package_id action in
      report site pkg_id installing (PendingPluginAction.version action) none >>= λ _.
      install_asked pkg_id

  unfoldable pub handle_update : PendingPluginAction → Run (Unit {0})
  unfolding ◌>>=◌ report get_plugin_info plugin_dir download_and_verify download_extras
      invoke_wedr_plugin try
  handle_update action =
      let pkg_id = PendingPluginAction.plugin_package_id action in
      answer (PendingPluginAction.plugin_id_local action) >>= λ id.
      report site pkg_id installing (PendingPluginAction.version action) (some id) >>= λ _.
      get_plugin_info site pkg_id >>= λ info. plugin_dir site info >>= λ dir.
      download_and_verify site pkg_id true dir (PluginInfoForAgent.artifact_filename info)
      >>= λ bin. download_extras site pkg_id dir (PluginInfoForAgent.extras info) >>= λ _.
          invoke_wedr_plugin site (codes "update" ∷ id ∷ bin ∷ []) >>= λ _.
          try site (killed (PluginInfoForAgent.artifact_filename info)) >>= λ _.
          report site pkg_id started (PluginInfoForAgent.version info) (some id)

  parent_of : Option Chars → Option Chars
  parent_of none = none
  parent_of (some path) = Site.parent site path

  -- The directory of the version, where the manifest told it.
  clean_up : Option Chars → Run (Unit {0})
  unfolding try
  clean_up none = pure tt
  clean_up (some dir) = try site (removed_dir dir)

  unfoldable pub handle_revoke : PendingPluginAction → Run (Unit {0})
  unfolding ◌>>=◌ report invoke_wedr_plugin clean_up parent_of
  handle_revoke action =
      let pkg_id = PendingPluginAction.plugin_package_id action in
      answer (PendingPluginAction.plugin_id_local action) >>= λ id.
      invoke_wedr_plugin site (codes "revoke" ∷ id ∷ []) >>= λ _.
      invoke_wedr_plugin site (codes "remove" ∷ id ∷ []) >>= λ _.
      clean_up (parent_of (Site.manifest_path site id)) >>= λ _.
      report site pkg_id revoked (PendingPluginAction.version action) (some id)

  -- An error is reported once; what the server answers to that is ignored.
  on_error : PendingPluginAction → Result (Unit {0}) × List Step → List Step
  unfolding report
  on_error action (ok t, steps) = steps
  on_error action (err, steps) =
      let pkg_id = PendingPluginAction.plugin_package_id action in
      (report site pkg_id failed_install (PendingPluginAction.version action) none steps).1

  unfoldable pub process_action : PendingPluginAction → List Step → List Step
  unfolding on_error handle_install handle_update handle_revoke
  process_action action steps =
      let kind = PendingPluginAction.action action in
      if bytes_eq kind (codes "install")
      then on_error action (handle_install action steps)
      else if bytes_eq kind (codes "update")
      then on_error action (handle_update action steps)
      else if bytes_eq kind (codes "revoke")
      then on_error action (handle_revoke action steps)
      else steps

  unfoldable pub process_all : List PendingPluginAction → List Step → List Step
  unfolding process_action
  process_all [] steps = steps
  process_all (a ∷ acts) steps = process_all acts (process_action a steps)

-- `IN_FLIGHT`, a set of package ids.
abbrev pub has : List Chars → Chars → Bool
has [] k = false
has (x ∷ xs) k = if bytes_eq x k then true else has xs k

-- The actions that `set.insert` takes, with the set after.
unfoldable pub claim : List PendingPluginAction → List Chars → List PendingPluginAction × List Chars
claim [] set = ([], set)
claim (a ∷ acts) set =
    let k = PendingPluginAction.plugin_package_id a in
    let rest = claim acts (if has set k then set else k ∷ set) in
    (if has set k then rest.0 else a ∷ rest.0, rest.1)

unfoldable pub remove : Chars → List Chars → List Chars
remove k [] = []
remove k (x ∷ xs) = if bytes_eq x k then remove k xs else x ∷ remove k xs

-- The guard's drop.
unfoldable pub release : List PendingPluginAction → List Chars → List Chars
unfolding remove
release [] set = set
release (a ∷ acts) set = release acts (remove (PendingPluginAction.plugin_package_id a) set)

unfoldable pub process_pending_plugins :
    Site → List PendingPluginAction → List Chars → List Step → List Step × List Chars
unfolding claim process_all release
process_pending_plugins site actions set steps =
    let c = claim actions set in (process_all site c.0 steps, release c.0 c.1)

-- ===== src/Plugin/Supervisor.antt =====
-- src/plugin/supervisor.rs: which plugins are launched, and the life of one of them. The directory and the processes
-- answer by lists of what happens.
pub mod Once
pub mod Reach
pub mod Launches
use wazabi_edr_agent.Prelude.{
  ℕ, zero, suc, ◌+◌, ◌-◌, ◌*◌, min, Bool, true, false, not, ◌&&◌, List, [], ◌∷◌, ◌++◌, Option, none,
  some, String, ltb, leb, if◌then◌else◌, length, map,
}
use wazabi_edr_agent.Prelude.Text.{text_eq, Dict, contains}
use wazabi_edr_agent.Plugin.Manifest.{PluginManifest, ManifestStore}

-- Durations in milliseconds.
abbrev pub initial_backoff : ℕ
initial_backoff = 1000

abbrev pub max_backoff : ℕ
max_backoff = 60000

abbrev pub stable_threshold : ℕ
stable_threshold = 300000

unfoldable pub next_backoff : ℕ → ℕ
next_backoff prev = if ltb max_backoff (prev * 2) then max_backoff else prev * 2

-- `sleep_with_shutdown`: what the flag reads as before each slice and at the end. A fuel of one slice per millisecond
-- is enough, since a slice is not empty.
sleep_fuel : ℕ → (ℕ → Bool) → ℕ → ℕ → Bool
sleep_fuel zero shutdown now left = not (shutdown now)
sleep_fuel (suc f) shutdown now left =
    let rest = sleep_fuel f shutdown (now + min 250 left) (left - min 250 left) in
    if ltb 0 left then (if shutdown now then false else rest) else not (shutdown now)

unfoldable pub sleep_with_shutdown : (ℕ → Bool) → ℕ → ℕ → Bool
unfolding sleep_fuel
sleep_with_shutdown shutdown now dur = sleep_fuel dur shutdown now dur

-- `scan_and_spawn`: the manifests to launch, given the ids that are supervised.
unfoldable pub launchable : List String → PluginManifest → Bool
launchable supervised m =
    PluginManifest.auto_launch m
    && not (PluginManifest.revoked m)
    && not (contains supervised (PluginManifest.plugin_id m))

unfoldable pub to_launch : List String → Dict PluginManifest → List PluginManifest
unfolding launchable
to_launch supervised [] = []
to_launch supervised ((k, m) ∷ by_id) =
    if launchable supervised m then m ∷ to_launch supervised by_id else to_launch supervised by_id

-- The supervisor: the ids reserved in the shared set, and the threads that run, by the manifest each was started with.
pub record Supervision : Type 0 where
  pub supervised : List String
  pub threads : List PluginManifest

-- `HashSet::insert` and `HashSet::remove`.
unfoldable pub set_insert : List String → String → List String
set_insert set k = if contains set k then set else k ∷ set

unfoldable pub set_remove : List String → String → List String
set_remove [] k = []
set_remove (x ∷ xs) k = if text_eq x k then set_remove xs k else x ∷ set_remove xs k

unfoldable pub spawn_all : List PluginManifest → Supervision → Supervision
unfolding set_insert
spawn_all [] s = s
spawn_all (m ∷ ms) s = spawn_all ms (record {
  supervised = set_insert (Supervision.supervised s) (PluginManifest.plugin_id m);
  threads = m ∷ Supervision.threads s;
})

-- `none` when the directory cannot be read; else the number of threads that were started.
unfoldable pub scan_and_spawn : Option ManifestStore → Supervision → Supervision × ℕ
unfolding to_launch spawn_all
scan_and_spawn none s = (s, 0)
scan_and_spawn (some store) s =
    let launch = to_launch (Supervision.supervised s) (ManifestStore.by_id store) in
    (spawn_all launch s, length launch)

-- The end of the thread of a plugin: it has stopped, then it gives its reservation back.
unfoldable pub remove_thread : List PluginManifest → String → List PluginManifest
remove_thread [] k = []
remove_thread (m ∷ ms) k =
    if text_eq (PluginManifest.plugin_id m) k then ms else m ∷ remove_thread ms k

unfoldable pub thread_exits : String → Supervision → Supervision
unfolding remove_thread set_remove
thread_exits k s = record {
  supervised = set_remove (Supervision.supervised s) k;
  threads = remove_thread (Supervision.threads s) k;
}

-- What `fs::read` and serde give for the manifest of a running plugin.
pub data ManifestRead : Type 0 where
  not_found unreadable not_json : ManifestRead
  parsed_as : PluginManifest → ManifestRead

pub data ManifestState : Type 0 where
  unchanged revoked_state missing read_error : ManifestState
  changed : PluginManifest → ManifestState

unfoldable pub option_eq : Option String → Option String → Bool
option_eq none none = true
option_eq none (some t) = false
option_eq (some s) none = false
option_eq (some s) (some t) = text_eq s t

unfoldable pub same_binary : PluginManifest → PluginManifest → Bool
unfolding option_eq
same_binary m current =
    option_eq (PluginManifest.expected_sha256 m) (PluginManifest.expected_sha256 current)
    && text_eq (PluginManifest.expected_path m) (PluginManifest.expected_path current)

unfoldable pub read_manifest : ManifestRead → PluginManifest → ManifestState
unfolding same_binary
read_manifest not_found current = missing
read_manifest unreadable current = read_error
read_manifest not_json current = read_error
read_manifest (parsed_as m) current =
    if PluginManifest.revoked m
    then revoked_state
    else if same_binary m current
    then unchanged
    else changed m

pub data WaitOutcome : Type 0 where
  child_exited revoked_outcome shutdown_outcome : WaitOutcome
  updated : PluginManifest → WaitOutcome

-- What a round of `wait_for_exit_or_change` finds: whether the child has exited (or cannot be waited for), whether
-- shutdown is posted, and the manifest when it is time to read it. The grace period ends in an exit or in a kill.
pub record Poll : Type 0 where
  pub exited : Bool
  pub shutdown : Bool
  pub manifest : Option ManifestRead

unfoldable pub polled : Option ManifestState → Option WaitOutcome
polled none = none
polled (some missing) = some revoked_outcome
polled (some revoked_state) = some revoked_outcome
polled (some (changed m)) = some (updated m)
polled (some unchanged) = none
polled (some read_error) = none

unfoldable pub checked : PluginManifest → Option ManifestRead → Option WaitOutcome
unfolding polled read_manifest
checked current none = none
checked current (some r) = polled (some (read_manifest r current))

abbrev pub or_continue :
    Option WaitOutcome × List Poll → List Poll → Option WaitOutcome → Option WaitOutcome × List Poll
or_continue rest ps none = rest
or_continue rest ps (some o) = (some o, ps)

-- `none`: the list of rounds is over and the child still runs.
unfoldable pub wait_for_exit_or_change : PluginManifest → List Poll → Option WaitOutcome × List Poll
unfolding checked
wait_for_exit_or_change current [] = (none, [])
wait_for_exit_or_change current (p ∷ ps) =
    let rest = wait_for_exit_or_change current ps in
    if Poll.exited p
    then (some child_exited, ps)
    else if Poll.shutdown p
    then (some shutdown_outcome, ps)
    else or_continue rest ps (checked current (Poll.manifest p))

-- One round of `supervise_one`: the flag as the loop reads it, whether the process could be spawned, the rounds of the
-- wait, how long the process lived, the flag after its exit, and whether the sleep ran to its end.
pub record Cycle : Type 0 where
  pub shutdown : Bool
  pub spawned : Bool
  pub polls : List Poll
  pub alive : ℕ
  pub shutdown_after : Bool
  pub slept : Bool

-- What a supervisor did: the manifests it launched and the delays it slept, in order.
pub record Life : Type 0 where
  pub launches : List PluginManifest
  pub delays : List ℕ

abbrev pub over : Life
over = record { launches = []; delays = [] }

abbrev pub sleeping : ℕ → Life → Life
sleeping d l = record l { delays = d ∷ Life.delays l }

abbrev pub launching : PluginManifest → Life → Life
launching m l = record l { launches = m ∷ Life.launches l }

abbrev pub backoff_after : ℕ → ℕ → ℕ
backoff_after alive backoff = if leb stable_threshold alive then initial_backoff else backoff

unfoldable pub after_wait :
    (PluginManifest → ℕ → Life) → PluginManifest → ℕ → Cycle → Option WaitOutcome → Life
unfolding next_backoff
after_wait next current backoff c none = over
after_wait next current backoff c (some revoked_outcome) = over
after_wait next current backoff c (some shutdown_outcome) = over
after_wait next current backoff c (some (updated m)) = next m initial_backoff
after_wait next current backoff c (some child_exited) =
    let d = backoff_after (Cycle.alive c) backoff in
    if Cycle.shutdown_after c
    then over
    else sleeping d (if Cycle.slept c then next current (next_backoff d) else over)

unfoldable pub supervise_one : List Cycle → PluginManifest → ℕ → Life
unfolding next_backoff after_wait wait_for_exit_or_change
supervise_one [] current backoff = over
supervise_one (c ∷ cs) current backoff =
    let next : PluginManifest → ℕ → Life = λ m b. supervise_one cs m b in
    if Cycle.shutdown c
    then over
    else if Cycle.spawned c
    then launching current
        (after_wait next current backoff c (wait_for_exit_or_change current (Cycle.polls c)).0)
    else sleeping backoff (if Cycle.slept c then next current (next_backoff backoff) else over)

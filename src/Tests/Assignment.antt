-- ===== src/Tests/Assignment.antt =====
-- Examples for the plugin assignments: a site where all works, an answer with one package twice and one in flight.
use wazabi_edr_agent.Prelude.{◌≡◌, ◌⊎◌, true, false, ◌||◌, List, [], ◌∷◌, ◌++◌, none, some, All}
use wazabi_edr_agent.Prelude.Bytes.{codes}
use wazabi_edr_agent.Plugin.Assignment.{
  Chars, PendingPluginAction, PluginInfoForAgent, Step, Site, download_and_verify,
}
use wazabi_edr_agent.Plugin.Assignment.Handlers.{
  handle_install, has, process_all, process_pending_plugins,
}
use wazabi_edr_agent.Plugin.Assignment.Verified.{Checked, Refused, download_and_verify-Checked}
use wazabi_edr_agent.Plugin.Assignment.Flight.{
  ids, Among, Absent, Distinct, process_pending_plugins-flight,
}

abbrev info : PluginInfoForAgent
info = record {
  name = codes "n";
  vendor = codes "v";
  version = codes "1";
  artifact_filename = codes "n.exe";
  auto_launch = true;
  extras = codes "a.dll" ∷ [];
  env = [];
}

abbrev site : Site
site = record {
  done = λ steps step. true;
  info = λ steps id. some info;
  expected_sha = λ steps step. some (codes "AB");
  sha256_file_hex = λ steps. some (codes "ab");
  exists = λ steps dir name. false;
  stdout = λ steps args. some (codes "plugin_id : 7");
  manifest_path = λ id. none;
  file_name = λ name. some name;
  parent = λ path. none;
  join = λ dir name. dir ++ name;
  program_data = codes "P";
}

download_and_verify-Checked_example :
    Refused site
      (codes "k")
      []
      (download_and_verify site (codes "k") true (codes "d") (codes "n.exe") [])
    ⊎ Checked site
        (codes "k")
        []
        true
        (codes "d")
        (codes "n.exe")
        (download_and_verify site (codes "k") true (codes "d") (codes "n.exe") [])
download_and_verify-Checked_example =
    download_and_verify-Checked site (codes "k") true (codes "d") (codes "n.exe") []

abbrev assign : Chars → PendingPluginAction
assign id = record {
  plugin_package_id = id;
  version = codes "1";
  action = codes "install";
  plugin_id_local = none;
}

abbrev one : PendingPluginAction
one = assign (codes "k")

abbrev after_install : List Step
after_install = (handle_install site one []).1

abbrev assigned : List PendingPluginAction
assigned = one ∷ assign (codes "m") ∷ one ∷ []

abbrev flying : List Chars
flying = codes "m" ∷ []

process_pending_plugins-flight_example :
    (taken : List PendingPluginAction) × ((process_pending_plugins site assigned flying []).0
      ≡ process_all site taken [])
    × Among taken assigned
    × Absent flying (ids taken)
    × Distinct (ids taken)
    × All (λ x. (has flying x || has (ids taken) x) ≡ true) (ids assigned)
    × (has (process_pending_plugins site assigned flying []).1 (codes "k") ≡ has flying (codes "k"))
process_pending_plugins-flight_example =
    process_pending_plugins-flight site assigned flying [] (codes "k")

-- ===== src/Plugin/Assignment/Install.antt =====
-- What a plugin's install did where it says that it worked.
use wazabi_edr_agent.Prelude.{Bool, false, List, [], ◌∷◌}
use wazabi_edr_agent.Prelude.Bytes.{codes}
use wazabi_edr_agent.Plugin.Assignment.{Chars, PluginInfoForAgent, Step, Site, download_and_verify}
use wazabi_edr_agent.Plugin.Assignment.Verified.{Checked}

module _ (site : Site) where
  -- The directory of a version of a plugin.
  abbrev pub dir_of : PluginInfoForAgent → Chars
  dir_of info =
      Site.join site
        (Site.join site (Site.join site (Site.program_data site) (codes "WazabiEDR\\plugin_bin"))
          (PluginInfoForAgent.name info))
        (PluginInfoForAgent.version info)

module _ (site : Site) (pkg_id : Chars) where
  -- Files that got their final names one after the other, each downloaded and checked at the steps before it.
  pub data Placed : List Step → Bool → Chars → List Chars → List Step → Type 0 where
    placed_none : (s : List Step) (b : Bool) (dir : Chars) → Placed s b dir [] s
    placed_one :
        (s t : List Step) (b : Bool) (dir name : Chars) (names : List Chars)
        → Checked site pkg_id s b dir name (download_and_verify site pkg_id b dir name s)
        → Placed (download_and_verify site pkg_id b dir name s).1 false dir names t
        → Placed s b dir (name ∷ names) t

-- ===== src/Control/Executor.antt =====
-- src/control/executor.rs: what the agent does for a command of the server. The calls to the system that change
-- something are kept in order, the last one first; what the system answers may depend on all the calls before.
pub mod Output
pub mod Walk
pub mod Files
pub mod Dispatch
use wazabi_edr_agent.Prelude.{ℕ, Bool, List, Option}
use wazabi_edr_agent.Control.Executor.Output.{Poll}
use wazabi_edr_agent.Control.Executor.Walk.{Directory}

pub data OsCall : Type 0 where
  open_process : ℕ → OsCall
  terminate_process : ℕ → OsCall
  close_handle : OsCall
  spawn_shell : List ℕ → Option (List ℕ) → OsCall
  kill_child : OsCall
  create_dir_all : List ℕ → OsCall
  rename : List ℕ → List ℕ → OsCall
  copy : List ℕ → List ℕ → OsCall
  remove_file : List ℕ → OsCall
  download_to_file : List ℕ → List ℕ → OsCall
  spawn_installer : List ℕ → OsCall

-- The system: whether a call works, what is at a path, the reads of a file from its opening on, the polls of a child and
-- the reads of its two pipes; and the functions on paths that the code takes from the library.
pub record Os : Type 0 where
  pub answer : List OsCall → OsCall → Bool
  pub exists : List OsCall → List ℕ → Bool
  pub is_file : List OsCall → List ℕ → Bool
  pub reads : List OsCall → List ℕ → List (Option (List ℕ))
  pub try_wait : List OsCall → ℕ → Poll
  pub stdout : List OsCall → List (Option (List ℕ))
  pub stderr : List OsCall → List (Option (List ℕ))
  pub from_utf8_lossy : List ℕ → List ℕ
  pub file_name : List ℕ → Option (List ℕ)
  pub join : List ℕ → List ℕ → List ℕ
  pub quarantine_dir : List ℕ
  pub installer_path : List ℕ
  pub program_data : List ℕ
  pub tree : List OsCall → List ℕ → Directory
  pub late : List OsCall → ℕ → Bool

-- ===== src/Tests/Executor.antt =====
-- Examples for the executor: a command that names a digest, a small tree, the reads of a pipe, the polls of a child.
use wazabi_edr_agent.Prelude.{
  ℕ, ◌*◌, ◌≤◌, ◌≡◌, ◌⊎◌, refl, Bool, true, false, List, [], ◌∷◌, ◌++◌, Option, none, some, length,
  take, map, ltb, arith,
}
use wazabi_edr_agent.Prelude.Bytes.{codes}
use wazabi_edr_agent.Prelude.Json.{Json, object, member, no_member, text, get, as_str}
use wazabi_edr_agent.Control.Sha256.{hex}
use wazabi_edr_agent.Control.Sha256.Blocks.{concat, reference_digest}
use wazabi_edr_agent.Control.Executor.{remove_file, download_to_file, spawn_installer, Os}
use wazabi_edr_agent.Control.Executor.Output.{
  Poll, running, wait_child, EndsAt, wait_child-EndsAt, read_capped, stream, read_capped-stream,
}
use wazabi_edr_agent.Control.Executor.Files.{
  ascii_lower, nonempty, execute_quarantine_file, execute_update_agent,
}
use wazabi_edr_agent.Control.Executor.Files.Verified.{quarantine-verified, update-verified}
use wazabi_edr_agent.Control.Executor.Walk.{
  Directory, listing, unreadable, file, directory, no_entry, entry_error, Walked, walk,
  nothing_walked,
}
use wazabi_edr_agent.Control.Executor.Walk.Totals.{directory_totals, IsTotal, walk-totals}

abbrev pub contents : List (List ℕ)
contents = codes "ab" ∷ codes "c" ∷ []

abbrev pub polls : ℕ → Poll
polls n = running (100 * n)

abbrev pub os : Os
os = record {
  answer = λ calls call. true;
  exists = λ calls path. true;
  is_file = λ calls path. true;
  reads = λ calls path. map some contents;
  try_wait = λ calls. polls;
  stdout = λ calls. [];
  stderr = λ calls. [];
  from_utf8_lossy = λ bytes. bytes;
  file_name = λ path. some path;
  join = λ dir name. dir ++ name;
  quarantine_dir = codes "Q";
  installer_path = codes "setup";
  program_data = codes "P";
  tree = λ calls path. unreadable;
  late = λ calls n. false;
}

abbrev wanted : List ℕ
wanted = codes "BA7816BF"

abbrev quarantine : Json
quarantine =
    object (
      member (codes "path") (text (codes "x.exe"))
        (member (codes "sha256") (text wanted) no_member))

path_given : nonempty (as_str (get quarantine (codes "path"))) ≡ some (codes "x.exe")
unfolding nonempty as_str get
path_given = refl

sha_given : as_str (get quarantine (codes "sha256")) ≡ some wanted
unfolding as_str get
sha_given = refl

quarantine-verified_example :
    ((execute_quarantine_file os quarantine []).1 ≡ [])
    ⊎ (map ascii_lower wanted ≡ map ascii_lower (hex (reference_digest (concat contents))))
quarantine-verified_example =
    quarantine-verified os quarantine [] (codes "x.exe") wanted contents path_given sha_given
      (refl, (omega arith, (omega arith, tt)), omega arith)

abbrev update : Json
update = object (
    member (codes "download_url") (text (codes "https"))
      (member (codes "sha256") (text wanted) no_member))

url_given : nonempty (as_str (get update (codes "download_url"))) ≡ some (codes "https")
unfolding nonempty as_str get
url_given = refl

update_sha_given : as_str (get update (codes "sha256")) ≡ some wanted
unfolding as_str get
update_sha_given = refl

update-verified_example :
    ((execute_update_agent os update []).1 ≡ download_to_file (codes "https") (codes "setup") ∷ [])
    ⊎ ((execute_update_agent os update []).1
        ≡ remove_file (codes "setup") ∷ download_to_file (codes "https") (codes "setup") ∷ [])
    ⊎ ((map ascii_lower wanted ≡ map ascii_lower (hex (reference_digest (concat contents))))
        × ((execute_update_agent os update []).1
            ≡ spawn_installer (codes "setup")
              ∷ download_to_file (codes "https") (codes "setup")
              ∷ []))
update-verified_example =
    update-verified os update [] (codes "https") wanted contents url_given update_sha_given
      (refl, (omega arith, (omega arith, tt)), omega arith)

abbrev tree : Directory
tree = listing (file 10 (directory (listing (file 20 no_entry)) (entry_error no_entry)))

abbrev never : ℕ → Bool
never n = false

walk-totals_example :
    (Walked.files (walk never 100 3 (tree ∷ []) nothing_walked).0 ≤ 100)
    × (((walk never 100 3 (tree ∷ []) nothing_walked).1 ≡ true)
        ⊎ IsTotal (walk never 100 3 (tree ∷ []) nothing_walked).0 (directory_totals tree))
unfolding directory_totals
walk-totals_example = walk-totals never 100 tree 3 (omega arith)

abbrev pipe : List (Option (List ℕ))
pipe = some (codes "abc") ∷ some (codes "de") ∷ none ∷ []

abbrev as_is : List ℕ → List ℕ
as_is bytes = bytes

read_capped-stream_example :
    read_capped as_is pipe 4 ≡ (as_is (take 4 (stream pipe)), ltb 4 (length (stream pipe)))
read_capped-stream_example = read_capped-stream as_is pipe 4

running_code : (m n : ℕ) → running m ≡ running n → m ≡ n
running_code m n h = cc

polls-late : (j e : ℕ) → polls j ≡ running e → 100 * j ≤ e
polls-late j e h = let s : 100 * j ≡ e = running_code (100 * j) e h in omega arith

wait_child-EndsAt_example : EndsAt polls 300 0 (wait_child 4 polls 300 0)
wait_child-EndsAt_example = wait_child-EndsAt 3 polls 300 0 polls-late (omega arith)

-- ===== src/Spool/File.antt =====
-- src/spool/file.rs: the append-only active file, and the files of the spool directory.
use wazabi_edr_agent.Prelude.{
  ℕ, ◌+◌, ◌≡◌, ◌≤◌, Bool, List, [], ◌++◌, arith, length, length-append, ◌&&◌,
}
use wazabi_edr_agent.Prelude.Bytes.{codes, starts_with, ends_with, decimal}

-- `contents` is what went through the buffered writer.
pub record ActiveFile : Type 0 where
  pub contents : List ℕ
  pub bytes_written : ℕ

-- `ActiveFile::create` truncates.
unfoldable pub create : ActiveFile
create = record { contents = []; bytes_written = 0 }

-- `ActiveFile::write_line`, where the write succeeds.
unfoldable pub write_line : ActiveFile → List ℕ → ActiveFile
write_line f line = record {
  contents = f.contents ++ line;
  bytes_written = f.bytes_written + length line;
}

-- `ActiveFile::write_line`, where the write fails: what it stored of the line before is not counted.
unfoldable pub write_part : ActiveFile → List ℕ → ActiveFile
write_part f part = record f { contents = f.contents ++ part }

-- A file of the spool directory. Its metadata may be unreadable, its name no UTF-8.
pub record SpoolFile : Type 0 where
  pub name : List ℕ
  pub is_utf8 : Bool
  pub has_metadata : Bool
  pub contents : List ℕ

abbrev pub batch_prefix : List ℕ
batch_prefix = codes "batch-"

abbrev pub batch_suffix : List ℕ
batch_suffix = codes ".zst"

abbrev pub staging_suffix : List ℕ
staging_suffix = codes ".ndjson"

-- `name.starts_with("batch-") && name.ends_with(".zst")`, of a name that is UTF-8.
unfoldable pub is_batch : SpoolFile → Bool
is_batch f = f.is_utf8 && starts_with f.name batch_prefix && ends_with f.name batch_suffix

-- `format!("batch-{}-{}…", ts, seq)`.
unfoldable pub batch_name : ℕ → ℕ → List ℕ → List ℕ
batch_name ts seq suffix = batch_prefix ++ (decimal ts ++ (codes "-" ++ (decimal seq ++ suffix)))

-- `write_line` keeps the count of bytes equal to what the file holds.
pub write_line-counts :
    (f : ActiveFile) (line : List ℕ)
    → f.bytes_written ≡ length f.contents
    → (write_line f line).bytes_written ≡ length (write_line f line).contents
unfolding write_line
write_line-counts f line h = omega (arith, length-append f.contents line)

-- A line that was written only in part leaves the count below what the file holds.
pub write_part-counts :
    (f : ActiveFile) (part : List ℕ)
    → f.bytes_written ≤ length f.contents
    → (write_part f part).bytes_written ≤ length (write_part f part).contents
unfolding write_part
write_part-counts f part h = omega (arith, length-append f.contents part)

pub write_line-bounds :
    (f : ActiveFile) (line : List ℕ)
    → f.bytes_written ≤ length f.contents
    → (write_line f line).bytes_written ≤ length (write_line f line).contents
unfolding write_line
write_line-bounds f line h = omega (arith, length-append f.contents line)

-- ===== src/Logger/State.antt =====
-- logger/logger.go: the variables of the package, the files that it works on, and what the operating
-- system answers.
use ztna_lab_appliance.Common.{
  ℕ, ◌*◌, Bool, true, false, not, ◌&&◌, is_empty, [], ◌++◌, Option, none, some, Text, text, Map,
  lookup, length,
}

abbrev pub default_max_lines : ℕ
default_max_lines = 5000

abbrev pub default_max_bytes : ℕ
default_max_bytes = 10 * 1024 * 1024

abbrev pub min_max_lines : ℕ
min_max_lines = 100

abbrev pub max_tail_bytes : ℕ
max_tail_bytes = 8 * 1024 * 1024

-- The package variables, and beside them the files by path and what was printed. `file` says whether
-- the variable `file` is set: the handle is always that of the file at `cur_path`. The mutex is left
-- out: each operation runs under it as one step.
pub record Logger : Type 0 where
  pub file : Bool
  pub cur_path : Text
  pub written : ℕ
  pub line_cnt : ℕ
  pub max_lines : ℕ
  pub max_bytes : ℕ
  pub enabled : Map Bool
  pub files : Map Text
  pub stdout : Text

-- What the outside answers during one operation: the formatted time, the paths that can be opened
-- (their directory created), how many bytes of a write of a given length arrive, whether a file
-- can be removed and renamed, whether `Stat` and `countLines` succeed, the variables of the
-- environment, and the path `<tmpdir>/ztna_lab.log`.
pub record Os : Type 0 where
  pub now : Text
  pub opens : Text → Bool
  pub accepts : ℕ → ℕ
  pub removes : Bool
  pub renames : Bool
  pub stats : Bool
  pub counts : Bool
  pub env : Text → Text
  pub fallback : Text

abbrev pub content : Option Text → Text
content none = []
content (some bytes) = bytes

-- The bytes at a path, none if there is no file.
abbrev pub bytes_at : Text → Logger → Text
bytes_at path l = content (lookup path l.files)

abbrev pub size_at : Text → Logger → ℕ
size_at path l = length (bytes_at path l)

-- `<path>.1`
unfoldable pub backup_path : Text → Text
backup_path path = path ++ text ".1"

-- `Path`
unfoldable pub path : Logger → Text
path l = l.cur_path

-- `Stats`
pub record Stats : Type 0 where
  pub path : Text
  pub size : ℕ
  pub lines : ℕ
  pub max_lines : ℕ
  pub max_bytes : ℕ
  pub has_backup : Bool

-- `Stat`
unfoldable pub stat : Logger → Stats
stat l = record {
  path = l.cur_path;
  size = l.written;
  lines = l.line_cnt;
  max_lines = l.max_lines;
  max_bytes = l.max_bytes;
  has_backup =
      not (is_empty l.cur_path)
      && (elim (lookup (backup_path l.cur_path) l.files) [ none ↦ false | some bytes ↦ true ]);
}

-- ===== src/Logger/Write.antt =====
-- logger/logger.go: `openLog`, `rotate`, `writeLocked`, `Log` and `SetEnabled`.
pub mod Bounds
pub mod Effects
pub mod Switching
pub mod Disk
use ztna_lab_appliance.Common.{
  ℕ, ◌+◌, Bool, true, false, not, ◌&&◌, ◌||◌, List, [], ◌∷◌, ◌++◌, Option, none, some, Text, text,
  Map, lookup, insert, erase, length, take, min, leb, is_empty, if◌then◌else◌,
}
use ztna_lab_appliance.Logger.State.{Logger, Os, content, bytes_at, backup_path}
use ztna_lab_appliance.Logger.Switches.{norm_module}

-- `openLog` with `O_CREATE|O_APPEND`: the files after it, or an error.
unfoldable pub open_log : Os → Text → Map Text → Option (Map Text)
open_log os path files = elim (lookup path files) [
  | some bytes ↦ if os.opens path then some files else none
  | none ↦ if os.opens path then some (insert path [] files) else none
]

-- `os.Remove(backup)`
unfoldable pub remove_backup : Os → Text → Map Text → Map Text
unfolding backup_path
remove_backup os path files = if os.removes then erase (backup_path path) files else files

-- That, and `os.Rename(curPath, backup)`; the errors of both are ignored. A rename replaces the
-- backup, and fails if there is no file at the path.
unfoldable pub move_to_backup : Os → Text → Map Text → Map Text
unfolding remove_backup
move_to_backup os path files =
    let rest = remove_backup os path files in
    elim (lookup path rest) [
      | none ↦ rest
      | some bytes ↦ if os.renames then erase path (insert (backup_path path) bytes rest) else rest
    ]

-- `file.WriteString(s)` on the open file: the number of bytes written and the files after it.
unfoldable pub append_bytes : Os → Text → Text → Map Text → ℕ × Map Text
append_bytes os path s files =
    let n = min (os.accepts (length s)) (length s) in
    (n, insert path (content (lookup path files) ++ take n s) files)

unfoldable pub notice : Os → Text → Text
unfolding backup_path
notice os path =
    os.now
    ++ text "  [SYS ] log recycled (previous file saved as "
    ++ backup_path path
    ++ text ")\n"

-- `rotate`
unfoldable pub rotate : Os → Logger → Logger
unfolding open_log
rotate os l = elim (open_log os l.cur_path (move_to_backup os l.cur_path l.files)) [
  | none ↦ record l {
    file = false;
    written = 0;
    line_cnt = 0;
    files = move_to_backup os l.cur_path l.files;
  }
  | some files ↦
      let line = notice os l.cur_path in
      let (n, files') = append_bytes os l.cur_path line files in
      record l { file = true; written = n; line_cnt = 1; files = files'; stdout = l.stdout ++ line }
]

unfoldable pub format_line : Os → Text → Text → Text
format_line os module_name message =
    os.now ++ text "  [" ++ module_name ++ text "] " ++ message ++ text "\n"

-- The part of `writeLocked` after the line has been printed, on an open file.
unfoldable pub record_line : Os → Text → Logger → Logger
unfolding append_bytes
record_line os line l =
    let (n, files) = append_bytes os l.cur_path line l.files in
    let l' = record l { written = l.written + n; line_cnt = l.line_cnt + 1; files = files } in
    if leb l.max_lines l'.line_cnt || leb l.max_bytes l'.written then rotate os l' else l'

-- `writeLocked`
unfoldable pub write_locked : Os → Text → Text → Logger → Logger
write_locked os module_name message l =
    let line = format_line os module_name message in
    let printed = record l { stdout = l.stdout ++ line } in
    if l.file then record_line os line printed else printed

-- `Log`: the first use of a module registers it, switched on.
unfoldable pub log : Os → Text → Text → Logger → Logger
unfolding write_locked
log os module_name message l = elim (lookup (norm_module module_name) l.enabled) [
  | some on ↦ if on then write_locked os module_name message l else l
  | none ↦
      write_locked os module_name message
        (record l { enabled = insert (norm_module module_name) true l.enabled })
]

abbrev pub on_off : Bool → Text
on_off true = text "on"
on_off false = text "off"

abbrev same_switch : Bool → Option Bool → Bool
same_switch on none = false
same_switch on (some cur) = if on then cur else not cur

-- `SetEnabled`
unfoldable pub set_enabled : Os → Text → Bool → Logger → Logger
unfolding write_locked
set_enabled os module_name on l =
    let key = norm_module module_name in
    if is_empty key || same_switch on (lookup key l.enabled)
    then l
    else write_locked os (text "SYS ") (text "log module " ++ key ++ text " switched " ++ on_off on)
        (record l { enabled = insert key on l.enabled })

-- ===== src/Logger/Write/Effects.antt =====
-- logger/logger.go: what one call of `Log` or `SetEnabled` does.
use ztna_lab_appliance.Common.{
  ℕ, zero, suc, ◌+◌, ◌≤◌, true, [], ◌∷◌, ◌++◌, Text, ◌≡◌, ◌⊎◌, inl, inr, refl, arith, ap, sym, ◌∙◌,
  Map, length, take, Bool-cases, Option-cases, ◌||◌, leb, append-nil,
}
use ztna_lab_appliance.Logger.State.{Logger, Os, content, bytes_at, backup_path}
use ztna_lab_appliance.Logger.Write.{
  move_to_backup, rotate, notice, append_bytes, open_log, format_line, record_line, write_locked,
}
use ztna_lab_appliance.Logger.Write.Bounds.{append_bytes_lem, rotate_lem, backup_path-ne}
use ztna_lab_appliance.Logger.Write.Disk.{write_locked_open}

record_line-enabled :
    (os : Os) (line : Text) (l : Logger) → (record_line os line l).enabled ≡ l.enabled
unfolding record_line rotate
record_line-enabled os line l = ground arith

pub write_locked-enabled :
    (os : Os) (module_name message : Text) (l : Logger)
    → (write_locked os module_name message l).enabled ≡ l.enabled
unfolding write_locked
write_locked-enabled os module_name message l =
    let line = format_line os module_name message in
    ground (arith, record_line-enabled os line (record l { stdout = l.stdout ++ line }))

-- What was printed in front stays, and the line comes right after it.
abbrev pub Prints : Text → Logger → Logger → Type 0
Prints line l l' = (rest : Text) × (l'.stdout ≡ (l.stdout ++ line) ++ rest)

take_all : (n : ℕ) (s : Text) → length s ≤ n → take n s ≡ s
take_all zero [] h = refl
take_all (suc n) [] h = refl
take_all zero (c ∷ s) h = absurd (omega arith)
take_all (suc n) (c ∷ s) h = ap (λ r. c ∷ r) (take_all n s (omega arith))

rotate_prints : (os : Os) (l : Logger) → (rest : Text) × ((rotate os l).stdout ≡ l.stdout ++ rest)
unfolding rotate
rotate_prints os l =
    elim (Option-cases (open_log os l.cur_path (move_to_backup os l.cur_path l.files))) [
      | inl refused ↦ ([], ground (arith, append-nil l.stdout))
      | inr (files, opened) ↦ (notice os l.cur_path, ground arith)
    ]

record_line_prints :
    (os : Os) (line : Text) (l : Logger)
    → (rest : Text) × ((record_line os line l).stdout ≡ l.stdout ++ rest)
unfolding record_line
record_line_prints os line l =
    let (n, files) = append_bytes os l.cur_path line l.files in
    let l' : Logger = record l {
      written = l.written + n;
      line_cnt = l.line_cnt + 1;
      files = files;
    } in
    elim (Bool-cases (leb l.max_lines l'.line_cnt || leb l.max_bytes l'.written)) [
      | inl full ↦ let (rest, e) = rotate_prints os l' in (rest, rw full e)
      | inr room ↦ ([], rw room (sym (append-nil l.stdout)))
    ]

pub write_locked_prints :
    (os : Os) (module_name message : Text) (l : Logger)
    → Prints (format_line os module_name message) l (write_locked os module_name message l)
unfolding write_locked
write_locked_prints os module_name message l = elim (Bool-cases l.file) [
  | inl is_open ↦
      let line = format_line os module_name message in
      let (rest, e) = record_line_prints os line (record l { stdout = l.stdout ++ line }) in
      (rest, ap (λ (m : Logger). m.stdout) (write_locked_open os module_name message l is_open) ∙ e)
  | inr closed ↦ ([], ground (arith, append-nil (l.stdout ++ format_line os module_name message)))
]

written_all :
    (os : Os) (path line : Text) (files : Map Text)
    → length line ≤ os.accepts (length line)
    → length line ≤ (append_bytes os path line files).0
unfolding append_bytes
written_all os path line files takes = omega arith

recorded :
    (os : Os) (line : Text) (l : Logger)
    → os.renames ≡ true
    → length line ≤ os.accepts (length line)
    → let l' = record_line os line l in
      let whole = bytes_at l.cur_path l ++ line in
      ((bytes_at l.cur_path l' ≡ whole)
        × (bytes_at (backup_path l.cur_path) l' ≡ bytes_at (backup_path l.cur_path) l))
      ⊎ (bytes_at (backup_path l.cur_path) l' ≡ whole)
unfolding record_line
recorded os line l renames takes =
    let path = l.cur_path in
    let (n, files) = append_bytes os path line l.files in
    let (_, at_path, _, rest) = append_bytes_lem os path line l.files in
    let all : take n line ≡ line = take_all n line (written_all os path line l.files takes) in
    let l' : Logger = record l {
      written = l.written + n;
      line_cnt = l.line_cnt + 1;
      files = files;
    } in
    elim (Bool-cases (leb l.max_lines l'.line_cnt || leb l.max_bytes l'.written)) [
      | inl full ↦ rw full (
          inr (
            (rotate_lem os l' (bytes_at path l ++ take n line) renames at_path).backup
            ∙ ap (λ s. bytes_at path l ++ s) all))
      | inr room ↦ rw room (
          inl (
            ap content at_path ∙ ap (λ s. bytes_at path l ++ s) all,
            ap content (rest (backup_path path) (backup_path-ne path)),
          ))
    ]

-- On an open file that takes the whole line, with a rename that works: the line is appended to the
-- file, and if the call rotates the log, the file with the line becomes the backup.
pub write_locked_records :
    (os : Os) (module_name message : Text) (l : Logger)
    → l.file ≡ true
    → os.renames ≡ true
    → let line = format_line os module_name message in
      length line ≤ os.accepts (length line)
      → let l' = write_locked os module_name message l in
        let whole = bytes_at l.cur_path l ++ line in
        ((bytes_at l.cur_path l' ≡ whole)
          × (bytes_at (backup_path l.cur_path) l' ≡ bytes_at (backup_path l.cur_path) l))
        ⊎ (bytes_at (backup_path l.cur_path) l' ≡ whole)
write_locked_records os module_name message l is_open renames takes =
    rw (write_locked_open os module_name message l is_open) (
      recorded os (format_line os module_name message)
        (record l { stdout = l.stdout ++ format_line os module_name message }) renames takes)

-- ===== src/Logger/Write/Bounds.antt =====
-- logger/logger.go: the sizes of the log and its backup, whatever is logged.
use ztna_lab_appliance.Common.{
  ℕ, zero, suc, ◌+◌, ◌≤◌, ◌<◌, true, [], ◌∷◌, ◌++◌, none, some, Text, text, ◌≡◌, ◌≢◌, refl, arith,
  ap, sym, lookup, insert, lookup-insert, lookup-erase, text_eq_refl, text_eq_iff, length,
  length-append, take, min, Map, Bool-cases, Option-cases, inl, inr, leb, ◌||◌,
}
use ztna_lab_appliance.Logger.State.{Logger, Os, content, bytes_at, size_at, backup_path}
use ztna_lab_appliance.Logger.Write.{
  open_log, remove_backup, move_to_backup, append_bytes, notice, rotate, record_line,
}

pub backup_path-ne : (path : Text) → backup_path path ≢ path
unfolding backup_path text
backup_path-ne path e = absurd (omega (arith, ap length e, length-append path (text ".1")))

length-take-le : (n : ℕ) (s : Text) → length (take n s) ≤ n
length-take-le zero s = omega arith
length-take-le (suc n) [] = omega arith
length-take-le (suc n) (c ∷ s) = omega (arith, length-take-le n s)

length-take : (n : ℕ) (s : Text) → n ≤ length s → length (take n s) ≡ n
length-take zero s h = refl
length-take (suc n) [] h = absurd (omega arith)
length-take (suc n) (c ∷ s) h = ap suc (length-take n s (omega arith))

move_to_backup_lem :
    (os : Os) (path bytes : Text) (files : Map Text)
    → os.renames ≡ true
    → lookup path files ≡ some bytes
    → (lookup path (move_to_backup os path files) ≡ none)
      × (lookup (backup_path path) (move_to_backup os path files) ≡ some bytes)
unfolding move_to_backup
move_to_backup_lem os path bytes files renames found =
    let backup = backup_path path in
    let ne = backup_path-ne path in
    let rest = remove_backup os path files in
    let kept : lookup path rest ≡ some bytes =
      unfold remove_backup in
      ground (arith, lookup-erase backup path files, text_eq_iff backup path) in
    (
      ground (arith, lookup-erase path path (insert backup bytes rest), text_eq_refl path),
      ground (
        arith,
        lookup-erase path backup (insert backup bytes rest),
        lookup-insert backup backup bytes rest,
        text_eq_refl backup,
        text_eq_iff path backup,
      ),
    )

-- A write to the open file makes it grow by the number of bytes that it returns.
pub append_bytes_lem :
    (os : Os) (path line : Text) (files : Map Text)
    → let (n, files') = append_bytes os path line files in
      (n ≤ length line)
      × (lookup path files' ≡ some (content (lookup path files) ++ take n line))
      × (length (content (lookup path files')) ≡ length (content (lookup path files)) + n)
      × ((k : Text) → k ≢ path → lookup k files' ≡ lookup k files)
unfolding append_bytes
append_bytes_lem os path line files =
    let n = min (os.accepts (length line)) (length line) in
    let old = content (lookup path files) in
    let now = lookup-insert path path (old ++ take n line) files in
    (
      omega arith,
      ground (arith, now, text_eq_refl path),
      ground (
        arith,
        now,
        text_eq_refl path,
        length-append old (take n line),
        length-take n line (omega arith),
      ),
      λ k other.
          ground (arith, lookup-insert path k (old ++ take n line) files, text_eq_iff path k),
    )

open_log_lem :
    (os : Os) (path : Text) (files files' : Map Text)
    → open_log os path files ≡ some files'
    → (content (lookup path files') ≡ content (lookup path files))
      × ((k : Text) → k ≢ path → lookup k files' ≡ lookup k files)
unfolding open_log
open_log_lem os path files files' opened = (
  ground (arith, lookup-insert path path [] files, text_eq_refl path),
  λ k other. ground (arith, lookup-insert path k [] files, text_eq_iff path k),
)

-- A rotation in which the rename works: the backup holds what the file held, and the file is as long
-- as the counter says, which is at most the length of the notice.
pub record Rotated (os : Os) (l : Logger) (bytes : Text) : Type 0 where
  pub backup : bytes_at (backup_path l.cur_path) (rotate os l) ≡ bytes
  pub current : size_at l.cur_path (rotate os l) ≡ (rotate os l).written
  pub short : (rotate os l).written ≤ length (notice os l.cur_path)
  pub few : (rotate os l).line_cnt ≤ 1
  pub path : (rotate os l).cur_path ≡ l.cur_path
  pub max_bytes : (rotate os l).max_bytes ≡ l.max_bytes
  pub max_lines : (rotate os l).max_lines ≡ l.max_lines

pub rotate_lem :
    (os : Os) (l : Logger) (bytes : Text)
    → os.renames ≡ true
    → lookup l.cur_path l.files ≡ some bytes
    → Rotated os l bytes
unfolding rotate
rotate_lem os l bytes renames found =
    let path = l.cur_path in
    let backup = backup_path path in
    let line = notice os path in
    let ne = backup_path-ne path in
    let files = move_to_backup os path l.files in
    let (gone, moved) = move_to_backup_lem os path bytes l.files renames found in
    elim (Option-cases (open_log os path files)) [
      | inl refused ↦ record {
        backup = ground arith;
        current = ground arith;
        short = ground arith;
        few = ground arith;
        path = ground arith;
        max_bytes = ground arith;
        max_lines = ground arith;
      }
      | inr (files', opened) ↦
          let (same, others) = open_log_lem os path files files' opened in
          let (n, at_path, grows, rest) = append_bytes_lem os path line files' in
          record {
            backup = ground (arith, others backup ne, rest backup ne);
            current = ground arith;
            short = ground arith;
            few = ground arith;
            path = ground arith;
            max_bytes = ground arith;
            max_lines = ground arith;
          }
    ]

-- Between operations: the counter of bytes is the size of the open file, which is below its limit, the
-- counter of lines is below its own, and the backup exceeds the limit in bytes by less than one line
-- of at most `extra` bytes.
pub record IsBounded (extra : ℕ) (l : Logger) : Type 0 where
  pub accurate : l.file ≡ true → l.written ≡ size_at l.cur_path l
  pub small : size_at l.cur_path l < l.max_bytes
  pub few : l.file ≡ true → l.line_cnt < l.max_lines
  pub backup : size_at (backup_path l.cur_path) l < l.max_bytes + extra

-- A moment at which renaming works, the notice of a rotation fits the limit in bytes, and the limit
-- in lines is more than one.
pub record IsUsable (os : Os) (l : Logger) : Type 0 where
  pub renames : os.renames ≡ true
  pub notice_fits : length (notice os l.cur_path) < l.max_bytes
  pub lines_fit : 1 < l.max_lines

rotate-IsBounded :
    (extra : ℕ) (os : Os) (l : Logger) (bytes : Text)
    → IsUsable os l
    → lookup l.cur_path l.files ≡ some bytes
    → length bytes < l.max_bytes + extra
    → IsBounded extra (rotate os l)
rotate-IsBounded extra os l bytes u found size =
    let r = rotate_lem os l bytes u.renames found in
    record {
      accurate = λ is_open. rw r.path (sym r.current);
      small = rw (r.path, r.max_bytes) (omega (arith, r.current, r.short, u.notice_fits));
      few = λ is_open. rw r.max_lines (omega (arith, r.few, u.lines_fit));
      backup = rw (r.path, r.max_bytes) (omega (arith, ap length r.backup, size));
    }

pub record_line-IsBounded :
    (extra : ℕ) (os : Os) (line : Text) (l : Logger)
    → IsUsable os l
    → length line ≤ extra
    → l.file ≡ true
    → IsBounded extra l
    → IsBounded extra (record_line os line l)
unfolding record_line
record_line-IsBounded extra os line l u fits is_open b =
    let path = l.cur_path in
    let (n, files) = append_bytes os path line l.files in
    let (short, at_path, grows, rest) = append_bytes_lem os path line l.files in
    let l' : Logger = record l {
      written = l.written + n;
      line_cnt = l.line_cnt + 1;
      files = files;
    } in
    let size = b.accurate is_open in
    elim (Bool-cases (leb l.max_lines l'.line_cnt || leb l.max_bytes l'.written)) [
      | inl full ↦ rw full (
          rotate-IsBounded extra os l' (content (lookup path l.files) ++ take n line)
            (record { renames = u.renames; notice_fits = u.notice_fits; lines_fit = u.lines_fit })
            at_path
            (omega
              (arith, ap (λ o. length (content o)) at_path, grows, size, short, fits, b.small)))
      | inr room ↦ rw room (record {
        accurate = λ _. omega (arith, size, grows);
        small = ground (arith, size, grows);
        few = λ _. ground arith;
        backup = rw (rest (backup_path path) (backup_path-ne path)) b.backup;
      })
    ]

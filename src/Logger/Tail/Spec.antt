-- ===== src/Logger/Tail/Spec.antt =====
-- logger/logger.go: what `Tail` returns.
use ztna_lab_appliance.Common.{
  ℕ, zero, suc, ◌-◌, ◌≤◌, ◌<◌, Bool, false, List, [], ◌∷◌, ◌++◌, Text, ◌≡◌, ◌≢◌, refl, arith, ap,
  sym, ◌∙◌, length, drop, length-append, length-drop, Map, pos, ◌==◌, ltb, lt→ltb, Bool-cases, inl,
  inr, trim_suffix_byte,
}
use ztna_lab_appliance.Logger.State.{backup_path, max_tail_bytes}
use ztna_lab_appliance.Logger.Lines.{last_n, file_lines}
use ztna_lab_appliance.Logger.Tail.{
  Read, TailResult, chunk, read_file, tail_file, tail_file_with_lem, with_backup, tail, tail_lines,
}

module _ {ℓ} {A : Type ℓ} where
  drop-append_le : (k : ℕ) (xs ys : List A) → k ≤ length xs → drop k (xs ++ ys) ≡ drop k xs ++ ys
  drop-append_le zero xs ys h = refl
  drop-append_le (suc k) [] ys h = absurd (omega arith)
  drop-append_le (suc k) (x ∷ xs) ys h = drop-append_le k xs ys (omega arith)

  drop-append_ge :
      (k : ℕ) (xs ys : List A) → length xs ≤ k → drop k (xs ++ ys) ≡ drop (k - length xs) ys
  drop-append_ge k [] ys h = let e : k - 0 ≡ k = omega arith in rw e
  drop-append_ge zero (x ∷ xs) ys h = absurd (omega arith)
  drop-append_ge (suc k) (x ∷ xs) ys h =
      let e : suc k - suc (length xs) ≡ k - length xs = omega arith in
      rw e (drop-append_ge k xs ys (omega arith))

  -- The last `n` of two lists are those of the second, filled up from the end of the first.
  last_n-append_short :
      (n : ℕ) (xs ys : List A)
      → length ys < n
      → last_n n (xs ++ ys) ≡ last_n (n - length ys) xs ++ ys
  last_n-append_short n xs ys h =
      let e : length (xs ++ ys) - n ≡ length xs - (n - length ys) =
        omega (arith, length-append xs ys) in
      ap (λ k. drop k (xs ++ ys)) e
      ∙ drop-append_le (length xs - (n - length ys)) xs ys (omega arith)

  last_n-append_long : (n : ℕ) (xs ys : List A) → n ≤ length ys → last_n n (xs ++ ys) ≡ last_n n ys
  last_n-append_long n xs ys h =
      let e : length (xs ++ ys) - n - length xs ≡ length ys - n =
        omega (arith, length-append xs ys) in
      drop-append_ge (length (xs ++ ys) - n) xs ys (omega (arith, length-append xs ys))
      ∙ ap (λ k. drop k ys) e

-- The bytes that a reader gets, none if the file is missing or cannot be read.
abbrev pub bytes_read : Read → Text
bytes_read (Read.bytes b) = b
bytes_read _ = []

tail_file_lem :
    (n : ℕ) (b : Text) → 0 < n → length b ≤ max_tail_bytes → tail_file n b ≡ last_n n (file_lines b)
unfolding tail_file
tail_file_lem n b some_lines fits =
    tail_file_with_lem chunk max_tail_bytes n b (omega arith) some_lines fits

file_lines-nil : file_lines [] ≡ []
unfolding trim_suffix_byte
file_lines-nil = refl

last_n_all : (n : ℕ) (ys : List Text) → length ys ≤ n → last_n n ys ≡ ys
last_n_all n ys h = let e : length ys - n ≡ 0 = omega arith in rw e

with_backup_short :
    (n : ℕ) (backup : Read) (ys : List Text)
    → length ys < n
    → length (bytes_read backup) ≤ max_tail_bytes
    → with_backup n backup ys ≡ last_n n (file_lines (bytes_read backup) ++ ys)
unfolding with_backup
with_backup_short n (Read.bytes b) ys short fits = rw (lt→ltb (length ys) n short) (
    ap (λ xs. xs ++ ys) (tail_file_lem (n - length ys) b (omega arith) fits)
    ∙ sym (last_n-append_short n (file_lines b) ys short))
with_backup_short n Read.not_exist ys short fits =
    rw (lt→ltb (length ys) n short, file_lines-nil) (sym (last_n_all n ys (omega arith)))
with_backup_short n Read.read_error ys short fits =
    rw (lt→ltb (length ys) n short, file_lines-nil) (sym (last_n_all n ys (omega arith)))

with_backup_long :
    (n : ℕ) (backup : Read) (ys : List Text)
    → n ≤ length ys
    → with_backup n backup (last_n n ys) ≡ last_n n ys
unfolding with_backup
with_backup_long n backup ys long =
    let full : ltb (length (last_n n ys)) n ≡ false =
      ground (arith, length-drop (length ys - n) ys) in
    rw full

with_backup_lem :
    (n : ℕ) (backup : Read) (ys : List Text)
    → length (bytes_read backup) ≤ max_tail_bytes
    → with_backup n backup (last_n n ys) ≡ last_n n (file_lines (bytes_read backup) ++ ys)
with_backup_lem n backup ys fits = elim (Bool-cases (ltb (length ys) n)) [
  | inl short ↦
      ap (with_backup n backup) (last_n_all n ys (ground arith))
      ∙ with_backup_short n backup ys (ground arith) fits
  | inr long ↦
      with_backup_long n backup ys (ground arith)
      ∙ sym (last_n-append_long n (file_lines (bytes_read backup)) ys (ground arith))
]

tail_lines_lem :
    (n : ℕ) (current backup : Read)
    → 0 < n
    → current ≢ Read.read_error
    → length (bytes_read current) ≤ max_tail_bytes
    → length (bytes_read backup) ≤ max_tail_bytes
    → tail_lines n current backup
      ≡ TailResult.lines
          (last_n n (file_lines (bytes_read backup) ++ file_lines (bytes_read current)))
unfolding tail_lines
tail_lines_lem n Read.read_error backup some_lines readable fits fits' = absurd (readable refl)
tail_lines_lem n Read.not_exist backup some_lines readable fits fits' =
    ap TailResult.lines (rw file_lines-nil (with_backup_short n backup [] some_lines fits'))
tail_lines_lem n (Read.bytes b) backup some_lines readable fits fits' = ap TailResult.lines (
    ap (with_backup n backup) (tail_file_lem n b some_lines fits)
    ∙ with_backup_lem n backup (file_lines b) fits')

-- `Tail` of a positive number of lines, where a log file is in use, the current file can be read if
-- it exists, and neither file is larger than the limit of 8 MB: the result is the last lines of
-- the backup followed by the current file, where a file that is missing, or a backup that cannot be
-- read, counts as empty. The two files are those at the moments at which each is read.
pub tail_lem :
    (reads : Text → Bool) (n : ℕ) (path : Text) (files files' : Map Text)
    → 0 < n
    → path ≢ []
    → read_file reads path files ≢ Read.read_error
    → length (bytes_read (read_file reads path files)) ≤ max_tail_bytes
    → length (bytes_read (read_file reads (backup_path path) files')) ≤ max_tail_bytes
    → tail reads (pos n) path files files'
      ≡ TailResult.lines (
          last_n n (
            file_lines (bytes_read (read_file reads (backup_path path) files'))
            ++ file_lines (bytes_read (read_file reads path files))))
unfolding tail
tail_lem reads n [] files files' some_lines in_use readable fits fits' = absurd (in_use refl)
tail_lem reads zero (c ∷ path) files files' some_lines in_use readable fits fits' =
    absurd (omega arith)
tail_lem reads (suc k) (c ∷ path) files files' some_lines in_use readable fits fits' =
    let more : (suc k == 0) ≡ false = ground arith in
    rw more (
      tail_lines_lem (suc k) (read_file reads (c ∷ path) files)
        (read_file reads (backup_path (c ∷ path)) files') some_lines readable fits fits')

-- ===== src/Logger/Tail.antt =====
-- logger/logger.go: `tailFile` and `Tail`, against the last lines of the whole files.
pub mod Spec
use ztna_lab_appliance.Common.{
  ℕ, zero, suc, ◌+◌, ◌-◌, ◌*◌, ◌≤◌, ◌<◌, Bool, true, false, not, ◌||◌, List, [], ◌∷◌, ◌++◌, Option,
  none, some, Text, ◌≡◌, ◌≢◌, ◌⊎◌, inl, inr, refl, arith, ap, sym, ◌∙◌, length, take, drop,
  length-append, length-drop, append_assoc, take-append-drop, Map, lookup, ltb, leb, is_empty, ◌==◌,
  if◌then◌else◌, Bool-cases, ℤ, pos, negsuc, Option-cases, append-nil,
}
use ztna_lab_appliance.Logger.State.{content, backup_path, max_tail_bytes}
use ztna_lab_appliance.Logger.Lines.{count_newlines, last_n, file_lines, last_n-file_lines}

abbrev pub chunk : ℕ
chunk = 64 * 1024

-- The loop of `tailFile`, which reads backwards from `offset` in chunks until it has more than `n`
-- newlines or `limit` bytes. The position falls in every round, so the size of the file is enough
-- fuel.
unfoldable pub read_back : ℕ → ℕ → ℕ → ℕ → Text → ℕ → Text → Text
read_back zero size limit n bytes offset buf = buf
read_back (suc fuel) size limit n bytes offset buf =
    let read_size = if ltb offset size then offset else size in
    let offset' = offset - read_size in
    let buf' = take read_size (drop offset' bytes) ++ buf in
    let rest = read_back fuel size limit n bytes offset' buf' in
    if offset == 0
    then buf
    else if ltb n (count_newlines buf') || leb limit (length buf')
    then buf'
    else rest

unfoldable pub tail_file_with : ℕ → ℕ → ℕ → Text → List Text
unfolding read_back
tail_file_with size limit n bytes =
    last_n n (file_lines (read_back (length bytes) size limit n bytes (length bytes) []))

-- `tailFile` on a file that can be read.
unfoldable pub tail_file : ℕ → Text → List Text
unfolding tail_file_with
tail_file n bytes = tail_file_with chunk max_tail_bytes n bytes

-- What the loop has read when it stops: the end of the file from some position on, which is the
-- whole file, or holds more than `n` newlines, or is at least `limit` long.
record ReadEnd (limit n : ℕ) (bytes buf : Text) : Type 0 where
  front : Text
  splits : bytes ≡ front ++ buf
  enough : (front ≡ []) ⊎ (n < count_newlines buf) ⊎ (limit ≤ length buf)

drop-nil : (k : ℕ) → drop {A = ℕ} k [] ≡ []
drop-nil zero = refl
drop-nil (suc k) = refl

drop-drop : (k p : ℕ) (bytes : Text) → drop (p + k) bytes ≡ drop k (drop p bytes)
drop-drop k zero bytes = ap (λ i. drop i bytes) (let e : 0 + k ≡ k = omega arith in e)
drop-drop k (suc p) [] = rw (drop-nil (suc p + k), drop-nil k)
drop-drop k (suc p) (c ∷ bytes) =
    let e : suc p + k ≡ suc (p + k) = omega arith in rw e (drop-drop k p bytes)

take-drop_step :
    (k p : ℕ) (bytes : Text) → drop p bytes ≡ take k (drop p bytes) ++ drop (p + k) bytes
take-drop_step k p bytes = rw (drop-drop k p bytes) (sym (take-append-drop k (drop p bytes)))

at_offset :
    (limit n : ℕ) (bytes : Text) (offset : ℕ) (buf : Text)
    → drop offset bytes ≡ buf
    → (offset ≡ 0) ⊎ (n < count_newlines buf) ⊎ (limit ≤ length buf)
    → ReadEnd limit n bytes buf
at_offset limit n bytes offset buf e why = record {
  front = take offset bytes;
  splits = rw (← e) (sym (take-append-drop offset bytes));
  enough = reason why;
}
  where
    reason :
        (offset ≡ 0) ⊎ (n < count_newlines buf) ⊎ (limit ≤ length buf)
        → (take offset bytes ≡ []) ⊎ (n < count_newlines buf) ⊎ (limit ≤ length buf)
    reason (inl none_left) = inl (rw none_left)
    reason (inr other) = inr other

-- One round reads the bytes just before the ones it has.
read_step :
    (size : ℕ) (bytes : Text) (offset : ℕ) (buf : Text)
    → drop offset bytes ≡ buf
    → let read_size = if ltb offset size then offset else size in
      drop (offset - read_size) bytes ≡ take read_size (drop (offset - read_size) bytes) ++ buf
read_step size bytes offset buf e =
    let read_size = if ltb offset size then offset else size in
    let back : offset - read_size + read_size ≡ offset = ground arith in
    take-drop_step read_size (offset - read_size) bytes
    ∙ ap (λ rest. take read_size (drop (offset - read_size) bytes) ++ rest)
        (ap (λ i. drop i bytes) back ∙ e)

stop_reason :
    (limit n : ℕ) (buf : Text)
    → (ltb n (count_newlines buf) || leb limit (length buf)) ≡ true
    → (n < count_newlines buf) ⊎ (limit ≤ length buf)
stop_reason limit n buf h = ground arith

read_back-ReadEnd :
    (fuel size limit n : ℕ) (bytes : Text) (offset : ℕ) (buf : Text)
    → 0 < size
    → offset ≤ fuel
    → drop offset bytes ≡ buf
    → ReadEnd limit n bytes (read_back fuel size limit n bytes offset buf)
unfolding read_back
read_back-ReadEnd zero size limit n bytes offset buf s h e =
    at_offset limit n bytes offset buf e (inl (omega arith))
read_back-ReadEnd (suc fuel) size limit n bytes offset buf s h e =
    let read_size = if ltb offset size then offset else size in
    let offset' = offset - read_size in
    let buf' = take read_size (drop offset' bytes) ++ buf in
    let step : drop offset' bytes ≡ buf' = read_step size bytes offset buf e in
    elim (Bool-cases (offset == 0)) [
      | inl done ↦ rw done (at_offset limit n bytes offset buf e (inl (ground arith)))
      | inr more ↦ elim (Bool-cases (ltb n (count_newlines buf') || leb limit (length buf'))) [
        | inl stop ↦
            rw (more, stop)
              (at_offset limit n bytes offset' buf' step (inr (stop_reason limit n buf' stop)))
        | inr go ↦
            rw (more, go)
              (read_back-ReadEnd fuel size limit n bytes offset' buf' s (ground arith) step)
      ]
    ]

drop-length : (bytes : Text) → drop (length bytes) bytes ≡ []
drop-length [] = refl
drop-length (c ∷ bytes) = drop-length bytes

nothing_in_front :
    (front buf bytes : Text) (limit : ℕ)
    → bytes ≡ front ++ buf
    → length bytes ≤ limit
    → limit ≤ length buf
    → front ≡ []
nothing_in_front [] buf bytes limit e h k = refl
nothing_in_front (c ∷ front) buf bytes limit e h k =
    absurd (omega (arith, ap length e, length-append (c ∷ front) buf))

-- Reading backwards in chunks of any size gives the last `n` lines of the file, as long as the file
-- is no larger than the limit.
tail_file_with_lem :
    (size limit n : ℕ) (bytes : Text)
    → 0 < size
    → 0 < n
    → length bytes ≤ limit
    → tail_file_with size limit n bytes ≡ last_n n (file_lines bytes)
unfolding tail_file_with
tail_file_with_lem size limit n bytes s some_lines fits =
    let fuel = length bytes in
    let buf = read_back fuel size limit n bytes fuel [] in
    let r = read_back-ReadEnd fuel size limit n bytes fuel [] s (omega arith) (drop-length bytes) in
    sym
      (ap (λ b. last_n n (file_lines b)) r.splits ∙ rest r.front buf (ap length r.splits) r.enough)
  where
    all_read :
        (front buf : Text)
        → front ≡ []
        → last_n n (file_lines (front ++ buf)) ≡ last_n n (file_lines buf)
    all_read front buf e = rw e

    rest :
        (front buf : Text)
        → length bytes ≡ length (front ++ buf)
        → (front ≡ []) ⊎ (n < count_newlines buf) ⊎ (limit ≤ length buf)
        → last_n n (file_lines (front ++ buf)) ≡ last_n n (file_lines buf)
    rest front buf e (inl whole) = all_read front buf whole
    rest front buf e (inr (inl many)) = last_n-file_lines n front buf some_lines many
    rest [] buf e (inr (inr full)) = refl
    rest (c ∷ front) buf e (inr (inr full)) = absurd (omega (arith, length-append (c ∷ front) buf))

-- How a file answers a reader.
pub data Read : Type 0 where
  bytes : Text → Read
  not_exist read_error : Read

abbrev pub read_file : (Text → Bool) → Text → Map Text → Read
read_file reads path files = elim (lookup path files) [
  | none ↦ Read.not_exist
  | some b ↦ if reads path then Read.bytes b else Read.read_error
]

pub data TailResult : Type 0 where
  lines : List Text → TailResult
  unavailable failed : TailResult

-- The rest of `Tail` once the lines of the current file are known.
unfoldable pub with_backup : ℕ → Read → List Text → List Text
unfolding tail_file
with_backup n backup found =
    if ltb (length found) n
    then elim backup [ Read.bytes b ↦ tail_file (n - length found) b ++ found | _ ↦ found ]
    else found

unfoldable pub tail_lines : ℕ → Read → Read → TailResult
unfolding tail_file with_backup
tail_lines n current backup = elim current [
  | Read.read_error ↦ TailResult.failed
  | Read.not_exist ↦ TailResult.lines (with_backup n backup [])
  | Read.bytes b ↦ TailResult.lines (with_backup n backup (tail_file n b))
]

-- `Tail`, whose argument may be zero or negative. It holds the mutex only while it reads the path:
-- `files` are the files when the current one is read, `files'` when the backup is.
unfoldable pub tail : (Text → Bool) → ℤ → Text → Map Text → Map Text → TailResult
unfolding tail_lines backup_path
tail reads n path files files' = if is_empty path then TailResult.unavailable else elim n [
  | pos k ↦
      if k == 0
      then TailResult.lines []
      else tail_lines k (read_file reads path files) (read_file reads (backup_path path) files')
  | negsuc k ↦ TailResult.lines []
]

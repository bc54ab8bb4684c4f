-- ===== src/Logger/Init.antt =====
-- logger/logger.go: `envInt64` and `Init`.
use ztna_lab_appliance.Common.{
  ℕ, ◌*◌, ◌≤◌, ◌<◌, true, false, ◌&&◌, ◌||◌, [], Option, none, some, Text, text, ◌≡◌, refl, arith,
  sym, lookup, lookup-insert, text_eq_refl, length, leb, ltb, text_eq, is_empty, trim_space,
  parse_int64, ℤ, pos, negsuc, Map, if◌then◌else◌, Bool-cases, Option-cases, inl, inr,
}
use ztna_lab_appliance.Logger.State.{
  Logger, Os, content, size_at, default_max_lines, default_max_bytes, min_max_lines,
}
use ztna_lab_appliance.Logger.Switches.{apply_disabled_modules_env}
use ztna_lab_appliance.Logger.Lines.{count_newlines}
use ztna_lab_appliance.Logger.Write.{open_log, rotate, notice}
use ztna_lab_appliance.Logger.Write.Bounds.{rotate_lem}

-- The number that a variable of the environment stands for, if it is at least the minimum.
abbrev pub valid_setting : ℕ → Option ℤ → Option ℕ
valid_setting minimum none = none
valid_setting minimum (some (negsuc n)) = none
valid_setting minimum (some (pos n)) = if ltb n minimum then none else some n

-- `envInt64`, with the value of the variable; the notice on stderr is left out.
unfoldable pub env_int64 : Text → ℕ → ℕ → ℕ
env_int64 v def minimum =
    if is_empty v
    then def
    else elim (valid_setting minimum (parse_int64 (trim_space v))) [ none ↦ def | some n ↦ n ]

-- The limits and switches that `Init` reads first.
unfoldable pub read_settings : Os → Logger → Logger
unfolding env_int64
read_settings os l = record l {
  max_lines = env_int64 (os.env (text "ZTNA_LOG_MAX_LINES")) default_max_lines min_max_lines;
  max_bytes = env_int64 (os.env (text "ZTNA_LOG_MAX_BYTES")) default_max_bytes (64 * 1024);
  enabled = apply_disabled_modules_env (os.env (text "ZTNA_LOG_DISABLED_MODULES"));
}

-- The counters seeded from the file that was opened, and a rotation if it is over a limit.
unfoldable pub adopt : Os → Text → Map Text → Logger → Logger
adopt os path files l =
    let bytes = content (lookup path files) in
    let l' = record l {
      file = true;
      cur_path = path;
      files = files;
      written = if os.stats then length bytes else 0;
      line_cnt = if os.counts then count_newlines bytes else 0;
    } in
    if leb l'.max_bytes l'.written || leb l'.max_lines l'.line_cnt then rotate os l' else l'

-- The path, or else the fallback, or else no file.
unfoldable pub open_first : Os → Text → Logger → Logger
open_first os path l = elim (open_log os path l.files) [
  | some files ↦ adopt os path files l
  | none ↦ elim (open_log os os.fallback l.files) [
    | some files ↦ adopt os os.fallback files l
    | none ↦ record l { file = false; cur_path = [] }
  ]
]

-- `Init`
unfoldable pub init : Os → Text → Logger → Logger
unfolding read_settings
init os path l =
    let l' = read_settings os l in
    if l'.file && text_eq l'.cur_path path then l' else open_first os path l'

env_int64_lem : (v : Text) (def minimum : ℕ) → minimum ≤ def → minimum ≤ env_int64 v def minimum
unfolding env_int64
env_int64_lem v def minimum h = ground arith

-- An open file whose counter is its size, below both limits.
pub record IsReady (l : Logger) : Type 0 where
  pub is_open : l.file ≡ true
  pub accurate : l.written ≡ size_at l.cur_path l
  pub small : l.written < l.max_bytes
  pub few : l.line_cnt < l.max_lines

abbrev SameLimits : Logger → Logger → Type 0
SameLimits l m = (l.max_bytes ≡ m.max_bytes) × (l.max_lines ≡ m.max_lines)

rotate_opens : (os : Os) (l : Logger) → os.opens l.cur_path ≡ true → (rotate os l).file ≡ true
unfolding rotate open_log
rotate_opens os l opens = ground arith

adopt-IsReady :
    (os : Os) (path : Text) (files : Map Text) (bytes : Text) (l : Logger)
    → os.stats ≡ true
    → os.renames ≡ true
    → os.opens path ≡ true
    → lookup path files ≡ some bytes
    → length (notice os path) < l.max_bytes
    → 1 < l.max_lines
    → ((adopt os path files l).cur_path ≡ path)
      × IsReady (adopt os path files l)
      × SameLimits (adopt os path files l) l
unfolding adopt
adopt-IsReady os path files bytes l stats renames opens found fits lines =
    let seeded : Logger = record l {
      file = true;
      cur_path = path;
      files = files;
      written = if os.stats then length (content (lookup path files)) else 0;
      line_cnt = if os.counts then count_newlines (content (lookup path files)) else 0;
    } in
    elim (Bool-cases (leb l.max_bytes seeded.written || leb l.max_lines seeded.line_cnt)) [
      | inl full ↦
          let r = rotate_lem os seeded bytes renames found in
          rw full (
            r.path,
            record {
              is_open = rotate_opens os seeded opens;
              accurate = rw r.path (sym r.current);
              small = rw r.max_bytes (omega (arith, r.short, fits));
              few = rw r.max_lines (omega (arith, r.few, lines));
            },
            (r.max_bytes, r.max_lines),
          )
      | inr room ↦ rw room (
        refl,
        record {
          is_open = refl;
          accurate = ground arith;
          small = ground arith;
          few = ground arith;
        },
        (refl, refl),
      )
    ]

open_log_found :
    (os : Os) (path : Text) (files files' : Map Text)
    → open_log os path files ≡ some files'
    → (bytes : Text) × (lookup path files' ≡ some bytes) × (os.opens path ≡ true)
unfolding open_log
open_log_found os path files files' opened = elim (Option-cases (lookup path files)) [
  | inl missing ↦
      ([], ground (arith, lookup-insert path path [] files, text_eq_refl path), ground arith)
  | inr (bytes, found) ↦ (bytes, ground arith, ground arith)
]

-- The state in which `Init` leaves a logger that had no file open: on the path asked for if that can
-- be opened, else on the fallback, else with no file and an empty path.
abbrev pub Opened : Os → Text → Logger → Logger → Type 0
Opened os path l l' = elim (open_log os path l.files) [
  | some _ ↦ (l'.cur_path ≡ path) × IsReady l'
  | none ↦ elim (open_log os os.fallback l.files) [
    | some _ ↦ (l'.cur_path ≡ os.fallback) × IsReady l'
    | none ↦ (l'.cur_path ≡ []) × (l'.file ≡ false)
  ]
]

open_first_lem :
    (os : Os) (path : Text) (l : Logger)
    → os.stats ≡ true
    → os.renames ≡ true
    → length (notice os path) < l.max_bytes
    → length (notice os os.fallback) < l.max_bytes
    → 1 < l.max_lines
    → SameLimits (open_first os path l) l × Opened os path l (open_first os path l)
unfolding open_first
open_first_lem os path l stats renames fits fits' lines =
    elim (Option-cases (open_log os path l.files)) [
      | inr (files, opened) ↦
          let (bytes, found, opens) = open_log_found os path l.files files opened in
          let (at_path, ready, same) =
            adopt-IsReady os path files bytes l stats renames opens found fits lines in
          let e : open_first os path l ≡ adopt os path files l = ground arith in
          rw e (same, rw (opened, Opened) (at_path, ready))
      | inl refused ↦ elim (Option-cases (open_log os os.fallback l.files)) [
        | inr (files, opened) ↦
            let (bytes, found, opens) = open_log_found os os.fallback l.files files opened in
            let (at_path, ready, same) =
              adopt-IsReady os os.fallback files bytes l stats renames opens found fits' lines in
            let e : open_first os path l ≡ adopt os os.fallback files l = ground arith in
            rw e (same, rw (refused, Opened) (rw (opened, Opened) (at_path, ready)))
        | inl none_left ↦
            let left : Logger = record l { file = false; cur_path = [] } in
            let e : open_first os path l ≡ left = ground arith in
            rw e ((refl, refl), rw (refused, Opened) (rw (none_left, Opened) (refl, refl)))
      ]
    ]

settings_lem :
    (os : Os) (l : Logger)
    → (100 ≤ (read_settings os l).max_lines) × (65536 ≤ (read_settings os l).max_bytes)
unfolding read_settings
settings_lem os l = (
  env_int64_lem (os.env (text "ZTNA_LOG_MAX_LINES")) default_max_lines min_max_lines (omega arith),
  env_int64_lem (os.env (text "ZTNA_LOG_MAX_BYTES")) default_max_bytes (64 * 1024) (omega arith),
)

init_closed :
    (os : Os) (path : Text) (l : Logger)
    → l.file ≡ false
    → init os path l ≡ open_first os path (read_settings os l)
unfolding init
init_closed os path l closed = ground arith

-- With no file open before, where `Stat` and renames work and the notices of a rotation are shorter
-- than 64 KB, and whatever the environment says: `Init` sets a limit of at least 100 lines and one of at
-- least 64 KB, and opens the path, or else the fallback, or else leaves logging to stdout; after it the
-- file is open, its counter of bytes is its size, and both counters are below their limits.
pub init_lem :
    (os : Os) (path : Text) (l : Logger)
    → os.stats ≡ true
    → os.renames ≡ true
    → length (notice os path) < 65536
    → length (notice os os.fallback) < 65536
    → l.file ≡ false
    → let l' = init os path l in (100 ≤ l'.max_lines) × (65536 ≤ l'.max_bytes) × Opened os path l l'
unfolding read_settings
init_lem os path l stats renames fits fits' closed =
    let l' = read_settings os l in
    let (lines, bytes) = settings_lem os l in
    let ((same_bytes, same_lines), opened) =
      open_first_lem os path l' stats renames (omega (arith, bytes, fits))
        (omega (arith, bytes, fits')) (omega (arith, lines)) in
    rw (init_closed os path l closed)
      (omega (arith, same_lines, lines), omega (arith, same_bytes, bytes), opened)

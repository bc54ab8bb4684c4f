-- ===== src/Logger/Tests.antt =====
-- logger/logger.go: the theorems at a concrete logger.
use ztna_lab_appliance.Common.{
  ◌+◌, ◌*◌, ◌≤◌, ◌<◌, true, false, List, [], ◌∷◌, ◌++◌, none, some, Text, text, text_eq, lookup,
  ◌≡◌, ◌≢◌, ◌⊎◌, refl, arith, pos, to_upper, trim_space,
}
use ztna_lab_appliance.Logger.State.{Logger, Os, bytes_at, size_at, backup_path}
use ztna_lab_appliance.Logger.Switches.{norm_module, is_enabled, modules, known_modules}
use ztna_lab_appliance.Logger.Switches.Listing.{names, times, present, IsInOrder}
use ztna_lab_appliance.Logger.Switches.Laws.{state_of, modules_lem}
use ztna_lab_appliance.Logger.Write.{write_locked, format_line, notice, set_enabled, on_off, log}
use ztna_lab_appliance.Logger.Write.Bounds.{IsBounded}
use ztna_lab_appliance.Logger.Write.Disk.{Event, run_events, run_events-IsBounded}
use ztna_lab_appliance.Logger.Write.Effects.{Prints, write_locked_records}
use ztna_lab_appliance.Logger.Write.Switching.{IsSwitched, log_lem, set_enabled_lem}
use ztna_lab_appliance.Logger.Lines.{last_n, file_lines}
use ztna_lab_appliance.Logger.Tail.{TailResult, read_file, tail}
use ztna_lab_appliance.Logger.Tail.Spec.{bytes_read, tail_lem}
use ztna_lab_appliance.Logger.Init.{init, Opened, init_lem}

abbrev path : Text
path = text "/l"

abbrev os : Os
os = record {
  now = text "t";
  opens = λ p. true;
  accepts = λ n. n;
  removes = true;
  renames = true;
  stats = true;
  counts = true;
  env = λ name. [];
  fallback = text "/t";
}

abbrev closed : Logger
closed = record {
  file = false;
  cur_path = [];
  written = 0;
  line_cnt = 0;
  max_lines = 5000;
  max_bytes = 65536;
  enabled = (text "DNS", true) ∷ (text "HTTP", false) ∷ [];
  files = (path, text "one\ntwo\n") ∷ [];
  stdout = [];
}

-- The file at the limit of two lines: the next line rotates it.
abbrev full : Logger
full = record closed {
  file = true;
  cur_path = path;
  written = 8;
  line_cnt = 1;
  max_lines = 2;
  max_bytes = 1000;
}

abbrev events : List (Os × Event)
events = (os, Event.logged (text "DNS") (text "m")) ∷ (os, Event.switched (text "HTTP") true) ∷ []

run_events-IsBounded_example :
    let l' = run_events events full in
    IsBounded 100 l'
    × (size_at l'.cur_path l' + size_at (backup_path l'.cur_path) l' < 2 * l'.max_bytes + 100)
unfolding text lookup backup_path notice format_line norm_module to_upper trim_space text_eq
run_events-IsBounded_example =
    run_events-IsBounded 100 events full
      (
        record { renames = refl; notice_fits = omega arith; lines_fit = omega arith },
        omega arith,
        (
          record { renames = refl; notice_fits = omega arith; lines_fit = omega arith },
          omega arith,
          tt,
        ),
      )
      (record {
        accurate = λ e. refl;
        small = omega arith;
        few = λ e. omega arith;
        backup = omega arith;
      })

write_locked_records_example :
    let line = format_line os (text "DNS") (text "m") in
    let l' = write_locked os (text "DNS") (text "m") full in
    let whole = bytes_at path full ++ line in
    ((bytes_at path l' ≡ whole)
      × (bytes_at (backup_path path) l' ≡ bytes_at (backup_path path) full))
    ⊎ (bytes_at (backup_path path) l' ≡ whole)
write_locked_records_example =
    write_locked_records os (text "DNS") (text "m") full refl refl (omega arith)

modules_example :
    ((name : Text) → state_of name (modules closed.enabled) ≡ lookup name closed.enabled)
    × ((name : Text)
        → times name (names (modules closed.enabled))
          ≡ elim (lookup name closed.enabled) [ none ↦ 0 | some on ↦ 1 ])
    × ((others : List Text) × (names (modules closed.enabled)
          ≡ present known_modules closed.enabled ++ others)
        × IsInOrder others)
unfolding lookup text text_eq
modules_example = modules_lem closed.enabled (refl, (refl, tt))

set_enabled_example :
    let key = norm_module (text " http") in
    let l' = set_enabled os (text " http") true full in
    let line =
      format_line os
        (text "SYS ")
        (text "log module " ++ key ++ text " switched " ++ on_off true) in
    ((other : Text) → norm_module other ≡ key → is_enabled other l'.enabled ≡ true)
    × ((other : Text)
        → norm_module other ≢ key
        → is_enabled other l'.enabled ≡ is_enabled other full.enabled)
    × (lookup key full.enabled ≢ some true → Prints line full l')
    × (lookup key full.enabled ≡ some true → l' ≡ full)
unfolding norm_module text to_upper trim_space
set_enabled_example = set_enabled_lem os (text " http") true full refl

tail_example :
    tail (λ p. true) (pos 1) path full.files full.files
    ≡ TailResult.lines (
        last_n 1 (
          file_lines (bytes_read (read_file (λ p. true) (backup_path path) full.files))
          ++ file_lines (bytes_read (read_file (λ p. true) path full.files))))
unfolding text lookup backup_path text_eq
tail_example =
    tail_lem (λ p. true) 1 path full.files full.files (omega arith) (λ e. cc) (λ e. cc)
      (omega arith) (omega arith)

init_example :
    let l' = init os path closed in
    (100 ≤ l'.max_lines) × (65536 ≤ l'.max_bytes) × Opened os path closed l'
unfolding notice text backup_path
init_example = init_lem os path closed refl refl (omega arith) (omega arith) refl

log_example :
    let l' = log os (text "HTTP") (text "m") full in
    (is_enabled (text "HTTP") full.enabled ≡ false → l' ≡ full)
    × (is_enabled (text "HTTP") full.enabled ≡ true
        → Prints (format_line os (text "HTTP") (text "m")) full l'
          × IsSwitched (norm_module (text "HTTP")) true full.enabled l'.enabled)
log_example = log_lem os (text "HTTP") (text "m") full

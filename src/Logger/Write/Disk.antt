-- ===== src/Logger/Write/Disk.antt =====
-- logger/logger.go: what the log and its backup take on disk, through any sequence of calls.
use ztna_lab_appliance.Common.{
  ℕ, ◌+◌, ◌*◌, ◌≤◌, ◌<◌, Bool, true, false, List, [], ◌∷◌, ◌++◌, Text, text, ◌≡◌, refl, arith, Map,
  lookup, length, Bool-cases, Option-cases, inl, inr, is_empty, ◌||◌,
}
use ztna_lab_appliance.Logger.State.{Logger, Os, size_at, backup_path}
use ztna_lab_appliance.Logger.Switches.{norm_module}
use ztna_lab_appliance.Logger.Write.{
  rotate, format_line, record_line, write_locked, log, set_enabled, on_off, same_switch,
}
use ztna_lab_appliance.Logger.Write.Bounds.{IsBounded, IsUsable, record_line-IsBounded}

-- The settings that no write changes.
pub record SameSettings (l m : Logger) : Type 0 where
  pub path : l.cur_path ≡ m.cur_path
  pub max_bytes : l.max_bytes ≡ m.max_bytes
  pub max_lines : l.max_lines ≡ m.max_lines

record_line-SameSettings :
    (os : Os) (line : Text) (l : Logger) → SameSettings (record_line os line l) l
unfolding record_line rotate
record_line-SameSettings os line l = ground arith

pub write_locked_open :
    (os : Os) (module_name message : Text) (l : Logger)
    → l.file ≡ true
    → write_locked os module_name message l ≡ (
        let line = format_line os module_name message in
        record_line os line (record l { stdout = l.stdout ++ line }))
unfolding write_locked
write_locked_open os module_name message l is_open = ground arith

pub write_locked_closed :
    (os : Os) (module_name message : Text) (l : Logger)
    → l.file ≡ false
    → write_locked os module_name message l
      ≡ record l { stdout = l.stdout ++ format_line os module_name message }
unfolding write_locked
write_locked_closed os module_name message l closed = ground arith

pub write_locked-SameSettings :
    (os : Os) (module_name message : Text) (l : Logger)
    → SameSettings (write_locked os module_name message l) l
unfolding write_locked
write_locked-SameSettings os module_name message l =
    let line = format_line os module_name message in
    ground (arith, record_line-SameSettings os line (record l { stdout = l.stdout ++ line }))

write_locked-IsBounded :
    (extra : ℕ) (os : Os) (module_name message : Text) (l : Logger)
    → IsUsable os l
    → length (format_line os module_name message) ≤ extra
    → IsBounded extra l
    → IsBounded extra (write_locked os module_name message l)
write_locked-IsBounded extra os module_name message l u fits b =
    let line = format_line os module_name message in
    elim (Bool-cases l.file) [
      | inl is_open ↦ rw (write_locked_open os module_name message l is_open) (
          record_line-IsBounded extra os line (record l { stdout = l.stdout ++ line })
            (record { renames = u.renames; notice_fits = u.notice_fits; lines_fit = u.lines_fit })
            fits is_open
            (record { accurate = b.accurate; small = b.small; few = b.few; backup = b.backup }))
      | inr closed ↦
          rw (write_locked_closed os module_name message l closed)
            (record { accurate = b.accurate; small = b.small; few = b.few; backup = b.backup })
    ]

-- A call of `Log` or of `SetEnabled`.
pub data Event : Type 0 where
  logged : Text → Text → Event
  switched : Text → Bool → Event

abbrev pub perform : Os → Event → Logger → Logger
perform os (Event.logged module_name message) l = log os module_name message l
perform os (Event.switched module_name on) l = set_enabled os module_name on l

-- The line that the call writes, if it writes one.
abbrev pub event_line : Os → Event → Text
event_line os (Event.logged module_name message) = format_line os module_name message
event_line os (Event.switched module_name on) =
    format_line os (text "SYS ")
      (text "log module " ++ norm_module module_name ++ text " switched " ++ on_off on)

unfoldable pub run_events : List (Os × Event) → Logger → Logger
run_events [] l = l
run_events ((os, event) ∷ events) l = run_events events (perform os event l)

-- Every moment is usable, and no line is longer than `extra` bytes.
abbrev pub AllFit : ℕ → List (Os × Event) → Logger → Type 0
AllFit extra [] l = Unit
AllFit extra ((os, event) ∷ events) l =
    IsUsable os l × (length (event_line os event) ≤ extra) × AllFit extra events l

module _ (extra : ℕ) (os : Os) (l : Logger) (u : IsUsable os l) (b : IsBounded extra l) where
  abbrev Kept : Logger → Type 0
  Kept m = IsBounded extra m × SameSettings m l

  kept : Kept l
  kept = (b, record { path = refl; max_bytes = refl; max_lines = refl })

  written-Kept :
      (enabled : Map Bool) (module_name message : Text)
      → length (format_line os module_name message) ≤ extra
      → Kept (write_locked os module_name message (record l { enabled = enabled }))
  written-Kept enabled module_name message fits =
      let l' : Logger = record l { enabled = enabled } in
      let s = write_locked-SameSettings os module_name message l' in
      (
        write_locked-IsBounded extra os module_name message l'
            (record { renames = u.renames; notice_fits = u.notice_fits; lines_fit = u.lines_fit })
            fits
            (record { accurate = b.accurate; small = b.small; few = b.few; backup = b.backup }),
        record { path = s.path; max_bytes = s.max_bytes; max_lines = s.max_lines },
      )

  log-Kept :
      (module_name message : Text)
      → length (format_line os module_name message) ≤ extra
      → Kept (log os module_name message l)
  unfolding log
  log-Kept module_name message fits =
      elim (Option-cases (lookup (norm_module module_name) l.enabled)) [
        | inl unknown ↦ rw (unknown, log) (written-Kept _ module_name message fits)
        | inr (true, e) ↦ rw (e, log) (written-Kept l.enabled module_name message fits)
        | inr (false, e) ↦ rw (e, log) kept
      ]

  set_enabled-Kept :
      (module_name : Text) (on : Bool)
      → length (event_line os (Event.switched module_name on)) ≤ extra
      → Kept (set_enabled os module_name on l)
  unfolding set_enabled
  set_enabled-Kept module_name on fits =
      let key = norm_module module_name in
      elim (Bool-cases (is_empty key || same_switch on (lookup key l.enabled))) [
        | inl nothing ↦ rw nothing kept
        | inr change ↦ rw change (written-Kept _ (text "SYS ") _ fits)
      ]

  perform-Kept : (event : Event) → length (event_line os event) ≤ extra → Kept (perform os event l)
  perform-Kept (Event.logged module_name message) fits = log-Kept module_name message fits
  perform-Kept (Event.switched module_name on) fits = set_enabled-Kept module_name on fits

AllFit-SameSettings :
    (extra : ℕ) (events : List (Os × Event)) (l m : Logger)
    → SameSettings m l
    → AllFit extra events l
    → AllFit extra events m
AllFit-SameSettings extra [] l m same fits = tt
AllFit-SameSettings extra ((os, event) ∷ events) l m same (u, line, rest) = (
  record {
    renames = u.renames;
    notice_fits = rw (same.path, same.max_bytes) u.notice_fits;
    lines_fit = rw same.max_lines u.lines_fit;
  },
  line,
  AllFit-SameSettings extra events l m same rest,
)

-- Through any calls of `Log` and `SetEnabled`, whatever opens and writes fail, as long as renaming
-- works, the notice of a rotation fits the limit and no line is longer than `extra` bytes: while a file
-- is open, the counter of bytes stays its size and the counter of lines stays below the limit in lines; the
-- file stays below the limit in bytes, and the file and its backup together stay below twice the
-- limit in bytes plus `extra`. The counter of lines counts one for each message, also for one that
-- holds newlines, so the lines in the file may be more.
pub run_events-IsBounded :
    (extra : ℕ) (events : List (Os × Event)) (l : Logger)
    → AllFit extra events l
    → IsBounded extra l
    → let l' = run_events events l in
      IsBounded extra l'
      × (size_at l'.cur_path l' + size_at (backup_path l'.cur_path) l' < 2 * l'.max_bytes + extra)
unfolding run_events
run_events-IsBounded extra [] l fits b = (b, omega (arith, b.small, b.backup))
run_events-IsBounded extra ((os, event) ∷ events) l (u, line, rest) b =
    let (bounded, same) = perform-Kept extra os l u b event line in
    run_events-IsBounded extra events (perform os event l)
      (AllFit-SameSettings extra events l (perform os event l) same rest) bounded

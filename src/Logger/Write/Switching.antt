-- ===== src/Logger/Write/Switching.antt =====
-- logger/logger.go: which calls of `Log` write a line, and what `SetEnabled` changes.
use ztna_lab_appliance.Common.{
  Bool, true, false, ◌++◌, some, Text, text, ◌≡◌, ◌≢◌, refl, arith, ap, lookup, insert,
  lookup-insert, text_eq_refl, text_eq_iff, Bool-cases, Option-cases, inl, inr, is_empty, Map,
}
use ztna_lab_appliance.Logger.State.{Logger, Os}
use ztna_lab_appliance.Logger.Switches.{norm_module, is_enabled}
use ztna_lab_appliance.Logger.Write.{
  format_line, write_locked, log, set_enabled, on_off, same_switch,
}
use ztna_lab_appliance.Logger.Write.Effects.{Prints, write_locked_prints, write_locked-enabled}

written :
    (os : Os) (module_name message : Text) (l : Logger) (enabled : Map Bool)
    → let l' = write_locked os module_name message (record l { enabled = enabled }) in
      Prints (format_line os module_name message) l l' × (l'.enabled ≡ enabled)
written os module_name message l enabled =
    let l' : Logger = record l { enabled = enabled } in
    let (rest, e) = write_locked_prints os module_name message l' in
    ((rest, e), write_locked-enabled os module_name message l')

-- The registry after a switch of one module.
abbrev pub IsSwitched : Text → Bool → Map Bool → Map Bool → Type 0
IsSwitched key on old new =
    (lookup key new ≡ some on) × ((k : Text) → k ≢ key → lookup k new ≡ lookup k old)

insert-IsSwitched :
    (key : Text) (on : Bool) (old new : Map Bool)
    → new ≡ insert key on old
    → IsSwitched key on old new
insert-IsSwitched key on old new e = (
  ground (arith, lookup-insert key key on old, text_eq_refl key),
  λ k other. ground (arith, lookup-insert key k on old, text_eq_iff key k),
)

-- A call of `Log` for a module that is switched off changes nothing at all: neither the files nor
-- what is printed. For any other module it prints the line, leaves the module registered and on,
-- and changes no other module.
pub log_lem :
    (os : Os) (module_name message : Text) (l : Logger)
    → let l' = log os module_name message l in
      (is_enabled module_name l.enabled ≡ false → l' ≡ l)
      × (is_enabled module_name l.enabled ≡ true
          → Prints (format_line os module_name message) l l'
            × IsSwitched (norm_module module_name) true l.enabled l'.enabled)
unfolding log is_enabled
log_lem os module_name message l =
    let key = norm_module module_name in
    (
      λ off. ground arith,
      λ on. elim (Option-cases (lookup key l.enabled)) [
        | inl unknown ↦
            let (prints, e) = written os module_name message l (insert key true l.enabled) in
            rw (unknown, log) (prints, insert-IsSwitched key true l.enabled _ e)
        | inr (true, known) ↦
            let (prints, e) = written os module_name message l l.enabled in
            rw (known, log) (prints, (ground (arith, e), λ k other. ap (lookup k) e))
        | inr (false, known) ↦ ground arith
      ],
    )

module _ (os : Os) (module_name : Text) (on : Bool) (l : Logger)
    (named : is_empty (norm_module module_name) ≡ false) where
  change_line : Text
  change_line = text "log module " ++ norm_module module_name ++ text " switched " ++ on_off on

  set_enabled_same :
      lookup (norm_module module_name) l.enabled ≡ some on → set_enabled os module_name on l ≡ l
  unfolding set_enabled
  set_enabled_same e = ground arith

  set_enabled_change :
      same_switch on (lookup (norm_module module_name) l.enabled) ≡ false
      → Prints (format_line os (text "SYS ") change_line) l (set_enabled os module_name on l)
        × ((set_enabled os module_name on l).enabled
            ≡ insert (norm_module module_name) on l.enabled)
  unfolding set_enabled change_line
  set_enabled_change e =
      rw (named, e) (written os (text "SYS ") _ l (insert (norm_module module_name) on l.enabled))

-- `SetEnabled` for a module name that is not blank: afterwards every spelling of the name reports
-- the new state and all other modules their old one. If the module was not already registered in
-- that state, the change is printed, also for a module that is off; if it was, nothing changes.
pub set_enabled_lem :
    (os : Os) (module_name : Text) (on : Bool) (l : Logger)
    → is_empty (norm_module module_name) ≡ false
    → let key = norm_module module_name in
      let l' = set_enabled os module_name on l in
      let line =
        format_line os
          (text "SYS ")
          (text "log module " ++ key ++ text " switched " ++ on_off on) in
      ((other : Text) → norm_module other ≡ key → is_enabled other l'.enabled ≡ on)
      × ((other : Text)
          → norm_module other ≢ key
          → is_enabled other l'.enabled ≡ is_enabled other l.enabled)
      × (lookup key l.enabled ≢ some on → Prints line l l')
      × (lookup key l.enabled ≡ some on → l' ≡ l)
unfolding is_enabled set_enabled_change
set_enabled_lem os module_name on l named =
    let key = norm_module module_name in
    elim (Bool-cases (same_switch on (lookup key l.enabled))) [
      | inl same ↦
          let known : lookup key l.enabled ≡ some on = ground arith in
          rw (set_enabled_same os module_name on l named known) (
            λ other spelt. ground (arith, ap (λ k. lookup k l.enabled) spelt),
            λ other ne. refl,
            λ changed. absurd (changed known),
            λ _. refl,
          )
      | inr change ↦
          let (prints, e) = set_enabled_change os module_name on l named change in
          let (self, others) = insert-IsSwitched key on l.enabled _ e in
          (
            λ other spelt.
                ground (arith, ap (λ k. lookup k (set_enabled os module_name on l).enabled) spelt),
            λ other ne. ground (arith, others (norm_module other) ne),
            λ _. prints,
            λ same. ground arith,
          )
    ]

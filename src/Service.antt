-- ===== src/Service.antt =====
-- The contract of a service that is started and stopped at run time (dns/server.go,
-- httpd/server.go, sshd/server.go), as the Admin API and the CLI use it.
use ztna_lab_appliance.Common.{
  Bool, true, false, List, [], ◌∷◌, Option, none, some, Text, ◌≡◌, refl, arith, LogCall,
}

pub data Error : Type 0 where
  already_running not_running no_host_key : Error
  could_not_start shutdown_failed : Text → Error

-- A call returns its error, the new state and its log lines, or dereferences a nil pointer.
pub data Outcome (S : Type 0) : Type 0 where
  returns : Option Error → S → List LogCall → Outcome S
  panics : Outcome S

-- A call of a client, with what the outside answers to it: whatever a start asks for, and the error
-- of closing the listener, if there is one, at a stop.
pub data Call (E : Type 0) : Type 0 where
  start_call : E → Call E
  stop_call : Option Text → Call E

abbrev pub started : Option Error → Option Error × Bool
started none = (none, true)
started (some e) = (some e, false)

module _ {E : Type 0} (fails : E → Option Error) where
  -- What a client should see: a machine of one bit. A start is refused while running and a stop
  -- while stopped; otherwise the call fails as the outside says, and only a success moves.
  abbrev pub spec_step : Call E → Bool → Option Error × Bool
  spec_step (Call.start_call answers) true = (some Error.already_running, true)
  spec_step (Call.start_call answers) false = started (fails answers)
  spec_step (Call.stop_call failure) false = (some Error.not_running, false)
  spec_step (Call.stop_call none) true = (none, false)
  spec_step (Call.stop_call (some e)) true = (some (Error.shutdown_failed e), true)

  abbrev pub spec_run : List (Call E) → Bool → Bool × List (Option Error)
  spec_run [] up = (up, [])
  spec_run (c ∷ calls) up =
      let (e, up') = spec_step c up in
      let (final, errors) = spec_run calls up' in (final, e ∷ errors)

-- A call meets the specification at a state that runs or not: it returns the error that the machine
-- gives, in a state that is consistent and runs exactly if the machine does.
abbrev pub Meets :
    {S : Type 0} (running : S → Bool) (IsConsistent : S → Type 0) (result : Option Error × Bool)
    → Outcome S
    → Type 0
Meets running IsConsistent result (Outcome.returns e t _) =
    (e ≡ result.0) × (running t ≡ result.1) × IsConsistent t
Meets running IsConsistent result Outcome.panics = ⊥

-- A service: its calls, and the proof that each meets the specification.
pub record Service (S E : Type 0) : Type 1 where
  pub fails : E → Option Error
  pub perform : Call E → S → Outcome S
  pub running : S → Bool
  pub IsConsistent : S → Type 0
  pub meets :
      (c : Call E) (s : S)
      → IsConsistent s
      → Meets running IsConsistent (spec_step fails c (running s)) (perform c s)

module _ {S E : Type 0} (service : Service S E) where
  -- The state and the errors after a sequence of calls; `none` if one of them panicked.
  unfoldable pub run_calls : List (Call E) → S → Option (S × List (Option Error))
  run_calls [] s = some (s, [])
  run_calls (c ∷ calls) s = elim (service.perform c s) [
    | Outcome.panics ↦ none
    | Outcome.returns e s' _ ↦ elim (run_calls calls s') [
      | none ↦ none
      | some (t, errors) ↦ some (t, e ∷ errors)
    ]
  ]

  -- Through any sequence of calls the service follows the machine.
  pub run_calls_refines :
      (calls : List (Call E)) (s : S) (up : Bool)
      → service.IsConsistent s
      → service.running s ≡ up
      → (t : S) × (run_calls calls s ≡ some (t, (spec_run service.fails calls up).1))
        × (service.running t ≡ (spec_run service.fails calls up).0)
        × service.IsConsistent t
  unfolding run_calls
  run_calls_refines [] s up h e = (s, refl, e, h)
  run_calls_refines (c ∷ calls) s up h e =
      go (service.perform c s) refl (rw e at (service.meets c s h)) (run_calls_refines calls)
    where
      go :
          (o : Outcome S)
          → service.perform c s ≡ o
          → Meets service.running service.IsConsistent (spec_step service.fails c up) o
          → ((s' : S) (up' : Bool)
              → service.IsConsistent s'
              → service.running s' ≡ up'
              → (t : S) × (run_calls calls s' ≡ some (t, (spec_run service.fails calls up').1))
                × (service.running t ≡ (spec_run service.fails calls up').0)
                × service.IsConsistent t)
          → (t : S) × (run_calls (c ∷ calls) s
              ≡ some (t, (spec_run service.fails (c ∷ calls) up).1))
            × (service.running t ≡ (spec_run service.fails (c ∷ calls) up).0)
            × service.IsConsistent t
      go Outcome.panics performed m rest = absurd m
      go (Outcome.returns err s' log) performed m rest =
          let (t, ran, final, consistent) = rest s' (spec_step service.fails c up).1 m.2 m.1 in
          (t, ground (arith, m.0), final, consistent)

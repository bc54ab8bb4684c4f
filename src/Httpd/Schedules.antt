-- ===== src/Httpd/Schedules.antt =====
-- httpd/server.go: `Start` and `Stop` with the goroutine that `Start` leaves behind, which runs at any later time.
use ztna_lab_appliance.Common.{
  ℕ, zero, suc, Bool, true, false, List, [], ◌∷◌, Option, none, some, Text, ◌≡◌, refl, arith,
}
use ztna_lab_appliance.Service.{Error, Outcome, Call, spec_run}
use ztna_lab_appliance.Httpd.Lifecycle.{Server, start, stop, serve_next, is_running, listen_error}

-- What happens next: a call, or the goroutine of an earlier start comes to run.
pub data Event : Type 0 where
  called : Call (Option Text) → Event
  scheduled : Event

-- A call; the goroutine of a start stays pending.
unfoldable pub perform_call : Call (Option Text) → Server → Outcome Server
unfolding start stop
perform_call (Call.start_call failure) s = start failure s
perform_call (Call.stop_call failure) s = stop failure s

-- The state and the errors of the calls after a sequence of events; `none` if one panicked.
unfoldable pub run_events : List Event → Server → Option (Server × List (Option Error))
unfolding perform_call serve_next
run_events [] s = some (s, [])
run_events (Event.called c ∷ events) s = elim (perform_call c s) [
  | Outcome.panics ↦ none
  | Outcome.returns e t _ ↦ elim (run_events events t) [
    | none ↦ none
    | some (u, errors) ↦ some (u, e ∷ errors)
  ]
]
run_events (Event.scheduled ∷ events) s = elim (serve_next s) [
  | Outcome.panics ↦ none
  | Outcome.returns e t _ ↦ run_events events t
]

abbrev pub calls_of : List Event → List (Call (Option Text))
calls_of [] = []
calls_of (Event.called c ∷ events) = c ∷ calls_of events
calls_of (Event.scheduled ∷ events) = calls_of events

-- No stop succeeds while a goroutine is pending, of which there are so many at first, of a
-- server that runs or not.
abbrev pub IsPrompt : List Event → Bool → ℕ → Type 0
IsPrompt [] up n = Unit
IsPrompt (Event.scheduled ∷ events) up zero = IsPrompt events up zero
IsPrompt (Event.scheduled ∷ events) up (suc n) = IsPrompt events up n
IsPrompt (Event.called (Call.start_call none) ∷ events) false n = IsPrompt events true (suc n)
IsPrompt (Event.called (Call.start_call none) ∷ events) true n = IsPrompt events true n
IsPrompt (Event.called (Call.start_call (some e)) ∷ events) up n = IsPrompt events up n
IsPrompt (Event.called (Call.stop_call none) ∷ events) true n = (n ≡ 0) × IsPrompt events false n
IsPrompt (Event.called (Call.stop_call none) ∷ events) false n = IsPrompt events false n
IsPrompt (Event.called (Call.stop_call (some e)) ∷ events) up n = IsPrompt events up n

module _ (addr : Text) where
  -- The server with `n` pending goroutines, its pointer set exactly if it runs.
  abbrev at_rest : Bool → ℕ → Server
  at_rest up n = record { addr = addr; srv = up; running = up; pending = n }

  -- A run follows the one-bit machine and leaves a pointer that is set exactly if the server runs.
  abbrev pub Follows : List Event → Bool → Option (Server × List (Option Error)) → Type 0
  Follows events up result =
      (t : Server) × (result ≡ some (t, (spec_run (listen_error addr) (calls_of events) up).1))
      × (is_running t ≡ (spec_run (listen_error addr) (calls_of events) up).0)
      × (t.srv ≡ t.running)
      × (t.addr ≡ addr)

  run_events-Follows :
      (events : List Event) (up : Bool) (n : ℕ)
      → (up ≡ false → n ≡ 0)
      → IsPrompt events up n
      → Follows events up (run_events events (at_rest up n))
  unfolding run_events is_running
  run_events-Follows [] up n h prompt = (at_rest up n, refl, refl, refl, refl)
  run_events-Follows (Event.scheduled ∷ events) up zero h prompt =
      run_events-Follows events up zero h prompt
  run_events-Follows (Event.scheduled ∷ events) true (suc n) h prompt =
      run_events-Follows events true n (λ e. cc) prompt
  run_events-Follows (Event.scheduled ∷ events) false (suc n) h prompt =
      absurd (let e = h refl in cc)
  run_events-Follows (Event.called (Call.start_call none) ∷ events) false n h prompt =
      let (t, ran, last, kept, at) = run_events-Follows events true (suc n) (λ e. cc) prompt in
      (t, rw ran refl, last, kept, at)
  run_events-Follows (Event.called (Call.start_call none) ∷ events) true n h prompt =
      let (t, ran, last, kept, at) = run_events-Follows events true n h prompt in
      (t, rw ran refl, last, kept, at)
  run_events-Follows (Event.called (Call.start_call (some e)) ∷ events) false n h prompt =
      let (t, ran, last, kept, at) = run_events-Follows events false n h prompt in
      (t, rw ran refl, last, kept, at)
  run_events-Follows (Event.called (Call.start_call (some e)) ∷ events) true n h prompt =
      let (t, ran, last, kept, at) = run_events-Follows events true n h prompt in
      (t, rw ran refl, last, kept, at)
  run_events-Follows (Event.called (Call.stop_call none) ∷ events) true n h prompt =
      let (t, ran, last, kept, at) = run_events-Follows events false n (λ e. prompt.0) prompt.1 in
      (t, rw ran refl, last, kept, at)
  run_events-Follows (Event.called (Call.stop_call none) ∷ events) false n h prompt =
      let (t, ran, last, kept, at) = run_events-Follows events false n h prompt in
      (t, rw ran refl, last, kept, at)
  run_events-Follows (Event.called (Call.stop_call (some e)) ∷ events) true n h prompt =
      let (t, ran, last, kept, at) = run_events-Follows events true n h prompt in
      (t, rw ran refl, last, kept, at)
  run_events-Follows (Event.called (Call.stop_call (some e)) ∷ events) false n h prompt =
      let (t, ran, last, kept, at) = run_events-Follows events false n h prompt in
      (t, rw ran refl, last, kept, at)

-- A server with the pointer set exactly if it runs and no goroutine pending goes through starts, stops
-- and the goroutines of its starts, in any order in which no stop succeeds before the goroutine
-- of the start has run. Then nothing dereferences a nil pointer; every error and the final state are
-- those of the one-bit machine on the calls, the pointer is again set exactly if the server runs, and the
-- address is the same.
pub http_events_refine :
    (events : List Event) (s : Server)
    → s.srv ≡ s.running
    → s.pending ≡ 0
    → IsPrompt events s.running 0
    → Follows s.addr events s.running (run_events events s)
http_events_refine events s h none_pending prompt =
    let same : at_rest s.addr s.running 0 ≡ s = ground (arith, h, none_pending) in
    rw same at (run_events-Follows s.addr events s.running 0 (λ e. refl) prompt)

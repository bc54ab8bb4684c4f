-- ===== src/Sshd/Sessions.antt =====
-- sshd/server.go: the registry of sessions, as `handleConn` and `Sessions` use it. `nextID` is a
-- signed 64-bit counter; it is kept as its bits, of which the session's number is the value.
use ztna_lab_appliance.Common.{
  ℕ, suc, ◌+◌, ◌%◌, ◌^◌, ◌≤◌, ◌<◌, List, [], ◌∷◌, ◌++◌, Text, text, decimal, ◌≡◌, refl, arith, ◌==◌,
  ltb, ◌-◌, if◌then◌else◌, LogCall, length, Bool-cases, inl, inr,
}
use ztna_lab_appliance.Sshd.Lifecycle.{ssh_line}

-- `Session`; the time is printed as `printAllUsers` prints it.
pub record Session : Type 0 where
  pub id : ℕ
  pub user : Text
  pub ip : Text
  pub connected_at : Text

-- The fields `sessions` and `nextID` of the server. The map is the list of its values, each under
-- its own number, in the order of `range`.
pub record Registry : Type 0 where
  pub sessions : List Session
  pub next_id : ℕ

abbrev pub wrap : ℕ → ℕ
wrap n = n % 2 ^ 64

-- `%d` on the value of these bits.
abbrev pub decimal_int64 : ℕ → Text
decimal_int64 n = if ltb n (2 ^ 63) then decimal n else text "-" ++ decimal (2 ^ 64 - n)

-- `delete(s.sessions, sid)`
unfoldable pub delete : ℕ → List Session → List Session
delete sid [] = []
delete sid (s ∷ sessions) = let rest = delete sid sessions in if s.id == sid then rest else s ∷ rest

-- The part of `handleConn` from the end of the handshake to the first channel.
unfoldable pub open_session : Text → Text → Text → Registry → Session × Registry × List LogCall
unfolding delete
open_session user ip now r =
    let sid = wrap (r.next_id + 1) in
    let session : Session = record { id = sid; user = user; ip = ip; connected_at = now } in
    (
      session,
      record r { sessions = session ∷ delete sid r.sessions; next_id = sid },
      ssh_line (
            text "session opened id="
            ++ decimal_int64 sid
            ++ text " user="
            ++ user
            ++ text " from="
            ++ ip)
          ∷ [],
    )

-- The deferred end of `handleConn`.
unfoldable pub close_session : ℕ → Registry → Registry × List LogCall
unfolding delete
close_session sid r = (
  record r { sessions = delete sid r.sessions },
  ssh_line (text "session closed id=" ++ decimal_int64 sid) ∷ [],
)

-- `Sessions`
unfoldable pub sessions : Registry → List Session
sessions r = r.sessions

-- `NewServer`
abbrev pub empty_registry : Registry
empty_registry = record { sessions = []; next_id = 0 }

-- What connections do to the registry, in the order in which they get the mutex.
pub data Event : Type 0 where
  opened : Text → Text → Text → Event
  closed : ℕ → Event

abbrev pub perform : Event → Registry → Registry
perform (opened user ip now) r = (open_session user ip now r).1
perform (closed sid) r = (close_session sid r).0

abbrev pub run_events : List Event → Registry → Registry
run_events [] r = r
run_events (e ∷ events) r = run_events events (perform e r)

-- The connections that are open after the events, the last one first, when the connections are
-- numbered from `next` on and their numbers are never used again.
abbrev pub spec_events : List Event → ℕ → List Session → List Session
spec_events [] next live = live
spec_events (opened user ip now ∷ events) next live =
    spec_events events (suc next)
      (record { id = suc next; user = user; ip = ip; connected_at = now } ∷ live)
spec_events (closed sid ∷ events) next live = spec_events events next (delete sid live)

abbrev pub AllBelow : ℕ → List Session → Type 0
AllBelow n [] = Unit
AllBelow n (s ∷ sessions) = (s.id ≤ n) × AllBelow n sessions

abbrev pub IsDistinct : List Session → Type 0
IsDistinct [] = Unit
IsDistinct (s ∷ sessions) = (delete s.id sessions ≡ sessions) × IsDistinct sessions

AllBelow-delete :
    (n sid : ℕ) (sessions : List Session) → AllBelow n sessions → AllBelow n (delete sid sessions)
unfolding delete
AllBelow-delete n sid [] h = tt
AllBelow-delete n sid (s ∷ sessions) h = ground (arith, AllBelow-delete n sid sessions h.1)

AllBelow-suc : (n : ℕ) (sessions : List Session) → AllBelow n sessions → AllBelow (suc n) sessions
AllBelow-suc n [] h = tt
AllBelow-suc n (s ∷ sessions) h = (omega arith, AllBelow-suc n sessions h.1)

delete-new :
    (n : ℕ) (sessions : List Session) → AllBelow n sessions → delete (suc n) sessions ≡ sessions
unfolding delete
delete-new n [] h = refl
delete-new n (s ∷ sessions) h = ground (arith, delete-new n sessions h.1)

delete_comm :
    (a b : ℕ) (sessions : List Session)
    → delete a (delete b sessions) ≡ delete b (delete a sessions)
unfolding delete
delete_comm a b [] = refl
delete_comm a b (s ∷ sessions) = ground (arith, delete_comm a b sessions)

IsDistinct-delete :
    (sid : ℕ) (sessions : List Session) → IsDistinct sessions → IsDistinct (delete sid sessions)
unfolding delete
IsDistinct-delete sid [] h = tt
IsDistinct-delete sid (s ∷ sessions) h =
    let rest = IsDistinct-delete sid sessions h.1 in
    elim (Bool-cases (s.id == sid)) [
      | inl same ↦ rw same rest
      | inr other ↦ rw other (ground (arith, delete_comm s.id sid sessions), rest)
    ]

run_events-from :
    (events : List Event) (next : ℕ) (live : List Session)
    → next + length events < 2 ^ 64
    → AllBelow next live
    → IsDistinct live
    → ((run_events events (record { sessions = live; next_id = next })).sessions
        ≡ spec_events events next live)
      × IsDistinct (run_events events (record { sessions = live; next_id = next })).sessions
unfolding open_session close_session
run_events-from [] next live h below distinct = (refl, distinct)
run_events-from (opened user ip now ∷ events) next live h below distinct =
    let number : wrap (next + 1) ≡ suc next = omega arith in
    let fresh = delete-new next live below in
    let session : Session = record { id = suc next; user = user; ip = ip; connected_at = now } in
    let step : perform (opened user ip now) (record { sessions = live; next_id = next })
        ≡ record { sessions = session ∷ live; next_id = suc next } =
      rw (number, fresh) refl in
    rw (step, run_events)
      (run_events-from events (suc next)
        (record { id = suc next; user = user; ip = ip; connected_at = now } ∷ live) (omega arith)
        (omega arith, AllBelow-suc next live below) (fresh, distinct))
run_events-from (closed sid ∷ events) next live h below distinct =
    run_events-from events next (delete sid live) (omega arith)
      (AllBelow-delete next sid live below) (IsDistinct-delete sid live distinct)

-- From an empty registry, with fewer than 2^64 connections and closings, the sessions are exactly
-- the connections that are open, each under a number of its own.
pub run_events-sessions :
    (events : List Event)
    → length events < 2 ^ 64
    → ((run_events events empty_registry).sessions ≡ spec_events events 0 [])
      × IsDistinct (run_events events empty_registry).sessions
run_events-sessions events h = run_events-from events 0 [] (omega arith) tt tt

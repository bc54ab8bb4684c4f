-- ===== src/Sshd/Shell.antt =====
-- sshd/server.go: the shell of a session, `handleShell`, `printAllUsers` and `truncate`, byte by
-- byte. Padding counts bytes, as it does for ASCII names. A channel that fails ends the bytes.
pub mod Line
use ztna_lab_appliance.Common.{
  ℕ, zero, suc, ◌+◌, ◌-◌, ◌≤◌, ◌<◌, Bool, true, false, not, ◌&&◌, ◌||◌, List, [], ◌∷◌, ◌++◌, Text,
  text, text_eq, decimal, ◌≡◌, ◌≢◌, refl, arith, ◌==◌, leb, if◌then◌else◌, length, take,
  append_assoc, append-nil, Bool-cases, inl, inr, is_empty, ap, sym,
}
use ztna_lab_appliance.Sshd.Sessions.{Session, decimal_int64}

-- `truncate`
unfoldable pub truncate : Text → ℕ → Text
truncate s max = if leb (length s) max then s else take (max - 1) s ++ text ">"

abbrev spaces : ℕ → Text
spaces zero = []
spaces (suc n) = 32 ∷ spaces n

abbrev dashes : ℕ → Text
dashes zero = []
dashes (suc n) = b'-' ∷ dashes n

-- `%-5d` and `%-16s`
unfoldable pub pad : ℕ → Text → Text
pad width s = s ++ spaces (width - length s)

abbrev pub crlf : Text
crlf = 13 ∷ 10 ∷ []

unfoldable insert_by_id : Session → List Session → List Session
insert_by_id s [] = s ∷ []
insert_by_id s (t ∷ ts) = if leb s.id t.id then s ∷ t ∷ ts else t ∷ insert_by_id s ts

-- `sort.Slice` by number; no two are equal.
unfoldable pub sort_by_id : List Session → List Session
unfolding insert_by_id
sort_by_id [] = []
sort_by_id (s ∷ sessions) = insert_by_id s (sort_by_id sessions)

abbrev user_row : Session → Text
user_row s =
    pad 5 (decimal_int64 s.id)
    ++ text "  "
    ++ pad 16 (truncate s.user 16)
    ++ text "  "
    ++ pad 15 (truncate s.ip 15)
    ++ text "  "
    ++ s.connected_at
    ++ crlf

abbrev user_rows : List Session → Text
user_rows [] = []
user_rows (s ∷ sessions) = user_row s ++ user_rows sessions

-- `printAllUsers`
unfoldable pub all_users : List Session → Text
unfolding sort_by_id truncate pad
all_users sessions =
    crlf
    ++ pad 5 (text "ID")
    ++ text "  "
    ++ pad 16 (text "USER")
    ++ text "  "
    ++ pad 15 (text "IP")
    ++ text "  CONNECTED"
    ++ crlf
    ++ dashes 62
    ++ crlf
    ++ user_rows (sort_by_id sessions)
    ++ (if length sessions == 0 then text "(no active sessions)" ++ crlf else [])
    ++ crlf

-- The shell between two bytes: the line typed so far, what has been sent, and whether it is open.
pub record Shell : Type 0 where
  pub buf : Text
  pub sent : Text
  pub is_open : Bool

abbrev pub identity : Session → Text
identity s = text "user=" ++ s.user ++ text "  ip=" ++ s.ip

unfoldable pub prompt : Session → Text
prompt s = s.user ++ text "@ztna-lab$ "

abbrev banner : Text
banner =
    crlf ++ text "*** ZTNA Lab " ++ (226 ∷ 128 ∷ 148 ∷ []) ++ text " SSH mock target ***" ++ crlf

-- The shell after the greeting and the first prompt.
unfoldable pub greet : Session → Shell
unfolding prompt
greet s = record {
  buf = [];
  sent =
      banner
      ++ identity s
      ++ text "  session="
      ++ decimal_int64 s.id
      ++ crlf
      ++ text "Commands: whoami, all-users, exit. Anything else is echoed."
      ++ crlf
      ++ crlf
      ++ prompt s;
  is_open = true;
}

unfoldable pub is_exit : Text → Bool
is_exit line =
    text_eq line (text "exit") || text_eq line (text "quit") || text_eq line (text "logout")

-- What a line prints, given all sessions at that time.
unfoldable pub reply : Session → List Session → Text → Text
unfolding is_exit all_users
reply s sessions line =
    if is_empty line
    then []
    else if text_eq line (text "whoami")
    then identity s ++ crlf
    else if text_eq line (text "all-users")
    then all_users sessions
    else if is_exit line
    then text "bye." ++ crlf
    else line ++ crlf

-- All but the last byte: `buf[:len(buf)-1]`.
unfoldable pub drop_last : Text → Text
drop_last line = take (length line - 1) line

-- A byte of the channel, with the sessions registered when it is read.
pub record Key : Type 0 where
  pub byte : ℕ
  pub sessions : List Session

abbrev send : Text → Shell → Shell
send out sh = record sh { sent = sh.sent ++ out }

-- One round of the loop, once a byte has been read.
unfoldable pub press : Session → Key → Shell → Shell
unfolding reply is_exit prompt drop_last
press s key sh =
    let c = key.byte in
    if not sh.is_open
    then sh
    else if c == 13 || c == 10
    then (let answered = send (crlf ++ reply s key.sessions sh.buf) (record sh { buf = [] }) in
        if is_exit sh.buf then record answered { is_open = false } else send (prompt s) answered)
    else if c == 127 || c == 8
    then (if is_empty sh.buf
        then sh
        else send (8 ∷ 32 ∷ 8 ∷ []) (record sh { buf = drop_last sh.buf }))
    else if c == 3 || c == 4
    then record sh { sent = sh.sent ++ crlf ++ text "bye." ++ crlf; is_open = false }
    else record sh { buf = sh.buf ++ c ∷ []; sent = sh.sent ++ c ∷ [] }

-- `handleShell`, from a state of the shell.
unfoldable pub handle_shell : Session → List Key → Shell → Shell
handle_shell s [] sh = sh
handle_shell s (key ∷ keys) sh = handle_shell s keys (press s key sh)

-- ===== src/Sshd/Shell/Line.antt =====
-- sshd/server.go: a whole line of the shell, from its first byte to its end.
use ztna_lab_appliance.Common.{
  ℕ, ◌-◌, Bool, true, false, not, ◌||◌, List, [], ◌∷◌, ◌++◌, Text, ◌∙◌, ◌≡◌, ◌≢◌, ◌⊎◌, refl, arith,
  ◌==◌, if◌then◌else◌, length, take, append_assoc, append-nil, Bool-cases, inl, inr, is_empty, ap,
  length-append,
}
use ztna_lab_appliance.Sshd.Sessions.{Session}
use ztna_lab_appliance.Sshd.Shell.{
  Key, Shell, press, handle_shell, reply, prompt, is_exit, drop_last, crlf,
}

-- A byte that edits the line: neither the end of the line nor ctrl-c or ctrl-d.
abbrev pub IsEditing : Key → Type 0
IsEditing key = (key.byte ≢ 13) × (key.byte ≢ 10) × (key.byte ≢ 3) × (key.byte ≢ 4)

abbrev pub AllEditing : List Key → Type 0
AllEditing [] = Unit
AllEditing (key ∷ keys) = IsEditing key × AllEditing keys

abbrev erases : Key → Bool
erases key = key.byte == 127 || key.byte == 8

-- The line as a stack of bytes, the last one on top: a backspace pops, any other byte is pushed.
abbrev pub typed : List Key → List ℕ → List ℕ
typed [] stack = stack
typed (key ∷ keys) stack =
    typed keys (if erases key then elim stack [ [] ↦ [] | c ∷ cs ↦ cs ] else key.byte ∷ stack)

-- What is echoed while the line is typed.
abbrev pub echoes : List Key → List ℕ → Text
echoes [] stack = []
echoes (key ∷ keys) stack =
    if erases key
    then elim stack [ [] ↦ echoes keys [] | c ∷ cs ↦ 8 ∷ 32 ∷ 8 ∷ echoes keys cs ]
    else key.byte ∷ echoes keys (key.byte ∷ stack)

-- The text of a stack.
abbrev pub line_of : List ℕ → Text
line_of [] = []
line_of (c ∷ stack) = line_of stack ++ c ∷ []

take-snoc : (line : Text) (c : ℕ) → take (length line) (line ++ c ∷ []) ≡ line
take-snoc [] c = refl
take-snoc (b ∷ line) c = ap (λ rest. b ∷ rest) (take-snoc line c)

length-snoc : (line : Text) (c : ℕ) → length (line ++ c ∷ []) - 1 ≡ length line
length-snoc line c = omega (arith, length-append line (c ∷ []))

is_empty-snoc : (line : Text) (c : ℕ) → is_empty (line ++ c ∷ []) ≡ false
is_empty-snoc [] c = refl
is_empty-snoc (b ∷ line) c = refl

drop_last-snoc : (line : Text) (c : ℕ) → drop_last (line ++ c ∷ []) ≡ line
unfolding drop_last
drop_last-snoc line c = rw (length-snoc line c) (take-snoc line c)

abbrev pub typing : List ℕ → Text → Shell
typing stack sent = record { buf = line_of stack; sent = sent; is_open = true }

press-push :
    (s : Session) (key : Key) (stack : List ℕ) (sent : Text)
    → IsEditing key
    → erases key ≡ false
    → press s key (typing stack sent) ≡ typing (key.byte ∷ stack) (sent ++ key.byte ∷ [])
unfolding press
press-push s key stack sent edits plain = ground arith

press-pop :
    (s : Session) (key : Key) (c : ℕ) (stack : List ℕ) (sent : Text)
    → IsEditing key
    → erases key ≡ true
    → press s key (typing (c ∷ stack) sent) ≡ typing stack (sent ++ 8 ∷ 32 ∷ 8 ∷ [])
unfolding press
press-pop s key c stack sent edits back =
    ground (arith, drop_last-snoc (line_of stack) c, is_empty-snoc (line_of stack) c)

press-nothing :
    (s : Session) (key : Key) (sent : Text)
    → IsEditing key
    → erases key ≡ true
    → press s key (typing [] sent) ≡ typing [] sent
unfolding press
press-nothing s key sent edits back = ground arith

-- The bytes echoed so far come first.
echoed_first :
    (stack : List ℕ) (sent out rest : Text)
    → typing stack ((sent ++ out) ++ rest) ≡ typing stack (sent ++ (out ++ rest))
echoed_first stack sent out rest = ap (typing stack) (append_assoc sent out rest)

handle_shell-typing :
    (s : Session) (keys : List Key) (stack : List ℕ) (sent : Text)
    → AllEditing keys
    → handle_shell s keys (typing stack sent)
      ≡ typing (typed keys stack) (sent ++ echoes keys stack)
unfolding handle_shell
handle_shell-typing s [] stack sent edits = rw (append-nil sent) refl
handle_shell-typing s (key ∷ keys) stack sent edits =
    go stack (Bool-cases (erases key))
      (λ stack' sent'. handle_shell-typing s keys stack' sent' edits.1)
  where
    go :
        (stack : List ℕ)
        → (erases key ≡ true) ⊎ (erases key ≡ false)
        → ((stack' : List ℕ) (sent' : Text)
            → handle_shell s keys (typing stack' sent')
              ≡ typing (typed keys stack') (sent' ++ echoes keys stack'))
        → handle_shell s keys (press s key (typing stack sent))
          ≡ typing (typed (key ∷ keys) stack) (sent ++ echoes (key ∷ keys) stack)
    go stack (inr plain) rest =
        rw (plain, press-push s key stack sent edits.0 plain)
          (rest (key.byte ∷ stack) (sent ++ key.byte ∷ [])
            ∙ echoed_first (typed keys (key.byte ∷ stack)) sent (key.byte ∷ [])
                (echoes keys (key.byte ∷ stack)))
    go [] (inl back) rest = rw (back, press-nothing s key sent edits.0 back) (rest [] sent)
    go (c ∷ stack) (inl back) rest =
        rw (back, press-pop s key c stack sent edits.0 back)
          (rest stack (sent ++ 8 ∷ 32 ∷ 8 ∷ [])
            ∙ echoed_first (typed keys stack) sent (8 ∷ 32 ∷ 8 ∷ []) (echoes keys stack))

-- The end of a line.
press-enter :
    (s : Session) (key : Key) (stack : List ℕ) (sent : Text)
    → (key.byte ≡ 13) ⊎ (key.byte ≡ 10)
    → let line = line_of stack in
      press s key (typing stack sent) ≡ record {
        buf = [];
        sent =
            sent ++ (crlf ++ reply s key.sessions line) ++ (if is_exit line then [] else prompt s);
        is_open = not (is_exit line);
      }
unfolding press
press-enter s key stack sent ends =
    ground (arith, append-nil (sent ++ (crlf ++ reply s key.sessions (line_of stack))))

handle_shell-append :
    (s : Session) (keys more : List Key) (sh : Shell)
    → handle_shell s (keys ++ more) sh ≡ handle_shell s more (handle_shell s keys sh)
unfolding handle_shell
handle_shell-append s [] more sh = refl
handle_shell-append s (key ∷ keys) more sh = handle_shell-append s keys more (press s key sh)

-- From an empty line, any sequence of editing bytes and then the end of the line: each byte is
-- echoed, a backspace erases the last byte that is left, the line that this leaves is answered from
-- the sessions at that time, and the line is empty again. After exit, quit or logout the session is
-- closed, and otherwise the prompt follows.
pub handle_shell_line :
    (s : Session) (keys : List Key) (enter : Key) (sent : Text)
    → AllEditing keys
    → (enter.byte ≡ 13) ⊎ (enter.byte ≡ 10)
    → let line = line_of (typed keys []) in
      handle_shell s (keys ++ enter ∷ []) (typing [] sent) ≡ record {
        buf = [];
        sent =
            sent
            ++ echoes keys []
            ++ (crlf ++ reply s enter.sessions line)
            ++ (if is_exit line then [] else prompt s);
        is_open = not (is_exit line);
      }
unfolding handle_shell
handle_shell_line s keys enter sent edits ends =
    rw
      (
        handle_shell-append s keys (enter ∷ []) (typing [] sent),
        handle_shell-typing s keys [] sent edits,
      )
      (press-enter s enter (typed keys []) (sent ++ echoes keys []) ends)

-- A closed shell sends nothing more and stays closed.
pub handle_shell-closed :
    (s : Session) (keys : List Key) (sh : Shell) → sh.is_open ≡ false → handle_shell s keys sh ≡ sh
unfolding handle_shell press
handle_shell-closed s [] sh h = refl
handle_shell-closed s (key ∷ keys) sh h =
    let still : press s key sh ≡ sh = ground arith in rw still (handle_shell-closed s keys sh h)

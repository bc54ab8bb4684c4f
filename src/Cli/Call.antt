-- ===== src/Cli/Call.antt =====
-- cli_client.go: `call`, and what is printed of its answers. The JSON of a request body
-- is read back as what was written, which holds for valid UTF-8. `elsewhere` is what becomes of a URL
-- that net/http escapes, cuts, cleans or refuses.
use ztna_lab_appliance.Common.{
  ℕ, Bool, true, not, ◌&&◌, ◌||◌, [], ◌∷◌, ◌++◌, Option, none, some, Text, text, text_eq, is_empty,
  leb, ◌==◌, if◌then◌else◌,
}
use ztna_lab_appliance.Admin.{Plane, Outside, Request, Response, Decoded, Body, Error}
use ztna_lab_appliance.Admin.Handlers.{serve}
use ztna_lab_appliance.Cli.{Out, Done}

-- A byte that a URL carries as it is.
unfoldable pub is_plain_byte : ℕ → Bool
is_plain_byte c =
    (leb b'0' c && leb c b'9')
    || (leb b'A' c && leb c b'Z')
    || (leb b'a' c && leb c b'z')
    || c == b'-'
    || c == b'_'
    || c == b'.'

unfoldable pub all_plain : Text → Bool
unfolding is_plain_byte
all_plain [] = true
all_plain (c ∷ s) = is_plain_byte c && all_plain s

-- A segment of a path that the mux leaves alone.
unfoldable pub is_plain_segment : Text → Bool
unfolding all_plain
is_plain_segment s =
    all_plain s && not (is_empty s) && not (text_eq s (text ".")) && not (text_eq s (text ".."))

-- The outcome of a call: no answer from the daemon, or a response.
pub data Answer : Type 0 where
  no_answer : Answer
  answered : Response → Answer

-- Where a call goes: the daemon with its token, or nowhere.
pub record Daemon : Type 0 where
  pub token : Text
  pub reachable : Bool
  pub outside : Outside
  -- What happens for a URL that is not plain.
  pub elsewhere : Request → Plane → Option (Answer × Plane)

-- The header that `call` sets, "" where it sets none.
unfoldable pub authorization_header : Text → Text
authorization_header token = if is_empty token then [] else text "Bearer " ++ token

-- What the client gets of a handler: net/http recovers a panic and closes the connection.
abbrev pub answer_of : Plane → Option (Response × Plane) → Option (Answer × Plane)
answer_of p none = some (Answer.no_answer, p)
answer_of p (some (response, q)) = some (Answer.answered response, q)

-- `call`, with the last segment of the path apart; `token` is that of the client. `n` is the
-- query, "" where there is none.
unfoldable pub call :
    Daemon → Text → Text → Text → Text → Text → Decoded → Plane → Option (Answer × Plane)
unfolding authorization_header is_plain_segment
call d token verb prefix segment n decoded p =
    let r : Request = record {
      verb = verb;
      path = prefix ++ segment;
      authorization = authorization_header token;
      query_n = n;
      decoded = decoded;
    } in
    if not d.reachable
    then some (Answer.no_answer, p)
    else if is_plain_segment segment && all_plain n
    then answer_of p (serve d.token d.outside r p)
    else d.elsewhere r p

abbrev pub no_body : Decoded
no_body = record { as_record = none; as_debug = none; as_module = none; as_latency = none }

-- The map that `call` decodes: an array is no map, and the error is ignored.
abbrev pub as_map : Body → Option Body
as_map (Body.sessions_body sessions) = none
as_map body = some body

abbrev named_error : Body → Option Error
named_error (Body.error_body e) = some e
named_error body = none

-- What is printed for a response: the error of `call`, or the map.
unfoldable pub print_response : Response → Out
print_response r =
    if leb 400 r.status then Out.refused r.status (named_error r.body) else Out.json (as_map r.body)

-- `printJSON`, `printDNSList`, `printRemoteModules` and `printLog`: all print an error alike.
abbrev pub print_answer : Option (Answer × Plane) → Done
print_answer none = none
print_answer (some (Answer.no_answer, p)) = some (Out.unreachable, p)
print_answer (some (Answer.answered response, p)) = some (print_response response, p)

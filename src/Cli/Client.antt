-- ===== src/Cli/Client.antt =====
-- cli_client.go: `newAPIClient` and `runCLIClient`. The terminal and the text on the screen are left out.
use ztna_lab_appliance.Common.{
  ℕ, Bool, true, false, ◌||◌, List, [], ◌∷◌, Option, none, some, Text, text, text_eq, is_empty,
  trim_space, leb, if◌then◌else◌, ◌==◌,
}
use ztna_lab_appliance.Admin.{Plane}
use ztna_lab_appliance.Cli.{Out}
use ztna_lab_appliance.Cli.Call.{Answer, Daemon, call, no_body}
use ztna_lab_appliance.Cli.Remote.{dispatch_remote}

-- `apiClient`, less the client of net/http.
pub record ApiClient : Type 0 where
  pub base : Text
  pub token : Text

-- `strings.TrimRight(s, "/")`
trim_slashes : Text → Text
trim_slashes [] = []
trim_slashes (c ∷ s) =
    let rest = trim_slashes s in
    if c == b'/' then (if is_empty rest then [] else c ∷ rest) else c ∷ rest

-- `newAPIClient`
unfoldable pub new_api_client : (Text → Text) → ApiClient
unfolding trim_slashes
new_api_client vars =
    let url = vars (text "ZTNA_ADMIN_URL") in
    record {
      base = trim_slashes (if is_empty url then text "http://127.0.0.1:9000" else url);
      token = vars (text "ZTNA_ADMIN_TOKEN");
    }

-- Whether `call` returns no error.
abbrev pub is_good : Answer → Bool
is_good Answer.no_answer = false
is_good (Answer.answered response) = if leb 400 response.status then false else true

-- How the client ends: it exits with a status, or its session is over.
pub data Ended : Type 0 where
  exited : ℕ → Ended
  closed : List Out → Ended

-- The loop over the lines, each with the daemon as it is reached then.
unfoldable pub read_remote : Text → List (Daemon × Text) → Plane → Option (List Out × Plane)
read_remote token [] p = some ([], p)
read_remote token ((d, raw) ∷ inputs) p =
    let line = trim_space raw in
    let skipped = read_remote token inputs p in
    let handled : Option (List Out × Plane) = elim (dispatch_remote d token line p) [
      | none ↦ none
      | some (out, q) ↦ elim (read_remote token inputs q) [
        | none ↦ none
        | some (outs, r) ↦ some (out ∷ outs, r)
      ]
    ] in
    if is_empty line
    then skipped
    else if text_eq line (text "exit") || text_eq line (text "quit")
    then some ([], p)
    else handled

abbrev is_health_check : List Text → Bool
is_health_check (cmd ∷ flag ∷ args) = text_eq flag (text "--health-check")
is_health_check _ = false

-- `runCLIClient`, on the arguments after the program's name; `first` is the daemon when the client asks
-- for its health.
unfoldable pub run_cli_client :
    ApiClient → List Text → Daemon → List (Daemon × Text) → Plane → Option (Ended × Plane)
unfolding call read_remote
run_cli_client c args first inputs p =
    let session : Plane → Option (Ended × Plane) = λ q. elim (read_remote c.token inputs q) [
      | none ↦ none
      | some (outs, r) ↦ some (Ended.closed outs, r)
    ] in
    elim (call first c.token (text "GET") (text "/api/") (text "health") [] no_body p) [
      | none ↦ none
      | some (answer, q) ↦
          if is_health_check args
          then some (Ended.exited (if is_good answer then 0 else 1), q)
          else if is_good answer
          then session q
          else some (Ended.exited 1, q)
    ]

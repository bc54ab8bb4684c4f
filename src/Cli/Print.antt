-- ===== src/Cli/Print.antt =====
-- main.go: `upDown`, `report`, `printModules` and `printRecords`, and the text of `dispatchLocal` for a status and for
-- the sessions. The order in which `range` visits a map is that of the list. `%-40s` counts runes; names and
-- addresses are taken to be ASCII.
use ztna_lab_appliance.Common.{
  ℕ, zero, suc, Bool, List, [], ◌∷◌, ◌++◌, Option, none, some, Text, text, Map, if◌then◌else◌,
}
use ztna_lab_appliance.Sshd.Sessions.{Session, decimal_int64}
use ztna_lab_appliance.Sshd.Shell.{pad}
use ztna_lab_appliance.Logger.Switches.{ModuleState}

-- The end of `fmt.Println`.
abbrev pub println : Text → Text
println s = s ++ 10 ∷ []

-- `upDown`
unfoldable pub up_down : Bool → Text
up_down b = if b then text "UP" else text "down"

-- The bytes of "✗ " and "✓ ok".
abbrev cross : Text
cross = 226 ∷ 156 ∷ 151 ∷ text " "

abbrev ok : Text
ok = 226 ∷ 156 ∷ 147 ∷ text " ok"

-- `report`, on the text of the error.
unfoldable pub report : Option Text → Text
report none = println ok
report (some e) = println (cross ++ e)

-- The case `status` of `dispatchLocal`.
unfoldable pub status_lines : Bool → Bool → Bool → Text
unfolding up_down
status_lines dns http ssh =
    println (text "  DNS  : " ++ up_down dns)
    ++ println (text "  HTTP : " ++ up_down http)
    ++ println (text "  SSH  : " ++ up_down ssh)

-- The subcommand `who` of `dispatchLocal`.
unfoldable pub session_lines : List Session → Text
session_lines [] = []
session_lines (s ∷ sessions) =
    println (
      text "  #"
      ++ decimal_int64 s.id
      ++ text "  user="
      ++ s.user
      ++ text "  ip="
      ++ s.ip
      ++ text "  conn="
      ++ s.connected_at)
    ++ session_lines sessions

module_lines : List ModuleState → Text
module_lines [] = []
module_lines (m ∷ mods) =
    println (text "  " ++ pad 6 m.name ++ text " " ++ (if m.on then text "on" else text "off"))
    ++ module_lines mods

-- `printModules`
unfoldable pub print_modules : List ModuleState → Text
unfolding module_lines
print_modules mods = println [] ++ module_lines mods ++ println []

abbrev record_row : Text → Text → Text → Text
record_row kind name value =
    text "  " ++ pad 7 kind ++ text " " ++ pad 40 name ++ text " " ++ value ++ 10 ∷ []

record_lines : Text → Map Text → Text
record_lines kind [] = []
record_lines kind ((name, value) ∷ m) = record_row kind name value ++ record_lines kind m

-- The bytes of "─", repeated.
rule : ℕ → Text
rule zero = []
rule (suc n) = 226 ∷ 148 ∷ 128 ∷ rule n

-- `printRecords`
unfoldable pub print_records : Map Text → Map Text → Text
unfolding record_lines rule
print_records a c =
    10 ∷ record_row (text "TYPE") (text "NAME") (text "VALUE")
    ++ println (text "   " ++ rule 78)
    ++ record_lines (text "A") a
    ++ record_lines (text "CNAME") c
    ++ println []

-- cli_client.go: `printLog`, on the array `lines` of the response.
unfoldable pub print_log : List Text → Text
print_log [] = []
print_log (l ∷ lines) = println l ++ print_log lines

abbrev dns_row : Text → Text → Text → Text
dns_row kind name value = pad 7 kind ++ text " " ++ pad 40 name ++ text " " ++ value ++ 10 ∷ []

dns_rows : Text → Map Text → Text
dns_rows kind [] = []
dns_rows kind ((name, value) ∷ m) = dns_row kind name value ++ dns_rows kind m

-- cli_client.go: `printDNSList`, on the objects `a` and `cname` of the response, each if it is there.
unfoldable pub print_dns_list : Option (Map Text) → Option (Map Text) → Text
unfolding dns_rows rule
print_dns_list a cname =
    10 ∷ dns_row (text "TYPE") (text "NAME") (text "VALUE")
    ++ println (rule 80)
    ++ (elim a [ none ↦ [] | some m ↦ dns_rows (text "A") m ])
    ++ (elim cname [ none ↦ [] | some m ↦ dns_rows (text "CNAME") m ])
    ++ println []

-- cli_client.go: an element of the array `modules`: not an object, or an object with the name and the
-- switch, off if that is no Boolean.
pub data RemoteModule : Type 0 where
  not_object : RemoteModule
  remote_module : Text → Bool → RemoteModule

remote_module_lines : List RemoteModule → Text
remote_module_lines [] = []
remote_module_lines (RemoteModule.not_object ∷ mods) = remote_module_lines mods
remote_module_lines (RemoteModule.remote_module name on ∷ mods) =
    println (text "  " ++ pad 6 name ++ text " " ++ (if on then text "on" else text "off"))
    ++ remote_module_lines mods

-- cli_client.go: `printRemoteModules`
unfoldable pub print_remote_modules : List RemoteModule → Text
unfolding remote_module_lines
print_remote_modules mods = println [] ++ remote_module_lines mods ++ println []

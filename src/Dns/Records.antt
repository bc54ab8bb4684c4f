-- ===== src/Dns/Records.antt =====
-- dns/records.go: the store of A and CNAME records, its persistence and the local resolution.
-- A file is represented by what `json.Unmarshal` reads from it, and the order of an association
-- list is the order in which Go's `range` happens to visit the map.
pub mod Invariant
pub mod Lookup
pub mod Disk
pub mod Restart
pub mod Requests
use ztna_lab_appliance.Common.{
  ℕ, zero, suc, Bool, true, false, not, ◌&&◌, ◌||◌, List, [], ◌∷◌, ◌++◌, Option, none, some, Text,
  text, text_eq, is_empty, to_lower, trim_suffix_byte, Map, lookup, insert, erase, if◌then◌else◌,
  length, LogCall, decimal,
}
use ztna_lab_appliance.Net.{parse_ip}

-- `recordStore`, its mutex left out: each operation below runs under it as one step.
pub record Store : Type 0 where
  pub a : Map Text
  pub cname : Map Text
  pub path : Text
  pub loaded : Bool

-- What a file holds: the two maps of the JSON object (`none` where the key is missing or null), or
-- something that does not parse.
pub data File : Type 0 where
  json : Option (Map Text) → Option (Map Text) → File
  not_json : File

-- The store, the files on disk and the log lines written so far.
pub record World : Type 0 where
  pub store : Store
  pub disk : Map File
  pub log : List LogCall

pub data Error : Type 0 where
  name_required alias_and_target_required same_alias_and_target : Error
  invalid_ip not_found : Text → Error
  read_failed parse_failed write_failed rename_failed : Error

-- How the operating system answers a call of `os.WriteFile`: done, refused with nothing written,
-- or broken off with something left in the file.
pub data Write : Type 0 where
  written refused : Write
  torn : File → Write

-- The answers of the operating system during one operation.
pub record Os : Type 0 where
  pub readable : Bool
  pub write : Write
  pub renames : Bool

-- `strings.ToLower(strings.TrimSuffix(name, "."))`
unfoldable pub normalize : Text → Text
normalize name = to_lower (trim_suffix_byte b'.' name)

abbrev dns_log : Text → World → World
dns_log message w = record w {
  log = w.log ++ record { module_name = text "DNS "; message = message } ∷ [];
}

unfoldable pub tmp_path : Text → Text
tmp_path path = path ++ text ".tmp"

abbrev write_tmp : Write → Text → File → Map File → Map File
write_tmp Write.written path content disk = insert (tmp_path path) content disk
write_tmp Write.refused path content disk = disk
write_tmp (Write.torn left) path content disk = insert (tmp_path path) left disk

-- `os.Rename(tmpFile, store.path)`
abbrev rename_tmp : Text → File → Map File → Map File
rename_tmp path content disk = erase (tmp_path path) (insert path content disk)

-- `saveLocked`
unfoldable pub save_locked : Os → World → Option Error × World
save_locked os w =
    let content = File.json (some w.store.a) (some w.store.cname) in
    let w' = record w { disk = write_tmp os.write w.store.path content w.disk } in
    if is_empty w.store.path then (none, w) else elim os.write [
      | Write.written ↦
          if os.renames
          then (none, record w' { disk = rename_tmp w.store.path content w'.disk })
          else (some Error.rename_failed, w')
      | _ ↦ (some Error.write_failed, w')
    ]

-- `lower`
unfoldable pub lower : Map Text → Map Text
lower [] = []
lower ((k, v) ∷ m) = insert (to_lower k) v (lower m)

abbrev lower_or : Option (Map Text) → Map Text → Map Text
lower_or none old = old
lower_or (some m) old = lower m

abbrev loaded_message : Store → Text
loaded_message s =
    text "loaded "
    ++ decimal (length s.a)
    ++ text " A and "
    ++ decimal (length s.cname)
    ++ text " CNAME records from "
    ++ s.path

-- The part of `LoadRecords` after the file has been read.
load_file : File → World → Option Error × World
load_file File.not_json w = (some Error.parse_failed, w)
load_file (File.json a cname) w =
    let s = record w.store {
      a = lower_or a w.store.a;
      cname = lower_or cname w.store.cname;
      loaded = true;
    } in
    (none, dns_log (loaded_message s) (record w { store = s }))

-- `LoadRecords`
unfoldable pub load_records : Os → Text → World → Option Error × World
unfolding load_file
load_records os path w =
    let w' = record w { store = record w.store { path = path } } in
    if not os.readable then (some Error.read_failed, w') else elim (lookup path w.disk) [
      | none ↦ (none, record w' { store = record w'.store { loaded = true } })
      | some file ↦ load_file file w'
    ]

-- The end of every mutation: save, and log only if that succeeded.
unfoldable pub commit : Os → Text → World → Option Error × World
unfolding save_locked
commit os message w =
    let (failure, w') = save_locked os w in
    elim failure [ some e ↦ (some e, w') | none ↦ (none, dns_log message w') ]

-- `AddA`
unfoldable pub add_a : Os → Text → Text → World → Option Error × World
unfolding normalize commit
add_a os name ip w =
    let key = normalize name in
    let s = record w.store { a = insert key ip w.store.a; cname = erase key w.store.cname } in
    if is_empty key then (some Error.name_required, w) else elim (parse_ip ip) [
      | none ↦ (some (Error.invalid_ip ip), w)
      | some _ ↦
          commit os (text "record added: " ++ key ++ text " A " ++ ip) (record w { store = s })
    ]

-- `AddCNAME`
unfoldable pub add_cname : Os → Text → Text → World → Option Error × World
unfolding normalize commit
add_cname os alias target w =
    let key = normalize alias in
    let value = normalize target in
    let s = record w.store { cname = insert key value w.store.cname; a = erase key w.store.a } in
    if is_empty key || is_empty value
    then (some Error.alias_and_target_required, w)
    else if text_eq key value
    then (some Error.same_alias_and_target, w)
    else commit os (text "record added: " ++ key ++ text " CNAME " ++ value)
        (record w { store = s })

abbrev pub contains : Text → Map Text → Bool
contains k m = elim (lookup k m) [ none ↦ false | some _ ↦ true ]

-- `Remove`
unfoldable pub remove : Os → Text → World → Option Error × World
unfolding normalize commit
remove os name w =
    let key = normalize name in
    let s = record w.store { a = erase key w.store.a; cname = erase key w.store.cname } in
    if not (contains key w.store.a) && not (contains key w.store.cname)
    then (some (Error.not_found key), w)
    else commit os (text "record removed: " ++ key) (record w { store = s })

-- `ListRecords`: copies of the two maps.
unfoldable pub list_records : Store → Map Text × Map Text
list_records s = (s.a, s.cname)

-- `name+" -> "+next`
unfoldable pub hop : Text → Text → Text
hop name next = name ++ text " -> " ++ next

-- The result `(ip, cnameChain, ok)` of `lookupA`.
pub record Local : Type 0 where
  pub ip : Text
  pub chain : List Text
  pub ok : Bool

-- The loop of `lookupA`: the rounds left, the current name and the chain so far.
unfoldable pub follow : ℕ → Store → Text → List Text → Local
unfolding hop
follow zero s name chain = record { ip = []; chain = chain; ok = false }
follow (suc rounds) s name chain = elim (lookup name s.a) [
  | some ip ↦ record { ip = ip; chain = chain; ok = true }
  | none ↦ elim (lookup name s.cname) [
    | none ↦ record { ip = []; chain = chain; ok = false }
    | some next ↦ follow rounds s next (chain ++ hop name next ∷ [])
  ]
]

abbrev pub max_hops : ℕ
max_hops = 8

-- `lookupA`
unfoldable pub lookup_a : Store → Text → Local
unfolding normalize follow
lookup_a s name = follow max_hops s (normalize name) []

-- ===== src/Dns/Records/Disk.antt =====
-- dns/records.go: what `saveLocked` leaves on disk, and what a restart reads back.
use ztna_lab_appliance.Common.{
  [], Option, none, some, Text, text, ◌≡◌, ◌≢◌, refl, arith, ap, lookup, insert, length,
  length-append, text_eq, text_eq_iff, text_eq_refl, sym, lookup-insert, lookup-erase, Map,
  if◌then◌else◌,
}
use ztna_lab_appliance.Dns.Records.{
  Store, World, Os, Write, Error, File, tmp_path, save_locked, rename_tmp, write_tmp,
}

tmp_path-ne : (path : Text) → tmp_path path ≢ path
unfolding tmp_path text
tmp_path-ne path e =
    let sizes = ap length e in absurd (omega (arith, sizes, length-append path (text ".tmp")))

-- The two maps of a store as a file holds them.
abbrev pub saved : Store → File
saved s = File.json (some s.a) (some s.cname)

-- The error of a save, by the answers of the operating system.
abbrev pub save_error : Os → Option Error
save_error os = elim os.write [
  | Write.written ↦ (if os.renames then none else some Error.rename_failed)
  | _ ↦ some Error.write_failed
]

-- The file after a save: the new records if it succeeded, and what was there before if not.
abbrev pub saved_or_old : Option Error → Store → Option File → Option File
saved_or_old none s old = some (saved s)
saved_or_old (some e) s old = old

module _ (path k : Text) (c : File) (d : Map File) (other : k ≢ tmp_path path) where
  lookup-write_tmp : (write : Write) → lookup k (write_tmp write path c d) ≡ lookup k d
  lookup-write_tmp Write.written =
      ground (arith, lookup-insert (tmp_path path) k c d, text_eq_iff (tmp_path path) k)
  lookup-write_tmp Write.refused = refl
  lookup-write_tmp (Write.torn left) =
      ground (arith, lookup-insert (tmp_path path) k left d, text_eq_iff (tmp_path path) k)

  lookup-rename_tmp :
      lookup k (rename_tmp path c d) ≡ (if text_eq path k then some c else lookup k d)
  lookup-rename_tmp = ground (
    arith,
    lookup-erase (tmp_path path) k (insert path c d),
    lookup-insert path k c d,
    text_eq_iff (tmp_path path) k,
  )

-- A save of records that have a path fails exactly as the operating system says, and is atomic:
-- afterwards the records file holds the whole new contents if the save succeeded, and its old contents if the write was
-- refused, broke off in the middle, or the rename failed. No file but it and its temporary file
-- is touched.
pub save_locked_atomic :
    (os : Os) (w : World) (k : Text)
    → w.store.path ≢ []
    → let (failure, w') = save_locked os w in
      (failure ≡ save_error os)
      × (lookup w.store.path w'.disk
          ≡ saved_or_old (save_error os) w.store (lookup w.store.path w.disk))
      × (k ≢ w.store.path → k ≢ tmp_path w.store.path → lookup k w'.disk ≡ lookup k w.disk)
unfolding save_locked
save_locked_atomic os w k h =
    let path = w.store.path in
    let c = saved w.store in
    let d = write_tmp os.write path c w.disk in
    let own : path ≢ tmp_path path = λ e. tmp_path-ne path (sym e) in
    (
      ground arith,
      ground (
        arith,
        lookup-write_tmp path path c w.disk own os.write,
        lookup-rename_tmp path path c d own,
        text_eq_refl path,
      ),
      λ not_path other. ground (
        arith,
        lookup-write_tmp path k c w.disk other os.write,
        lookup-rename_tmp path k c d other,
        text_eq_iff path k,
      ),
    )

-- ===== src/Sshd/HostKeys.antt =====
-- sshd/server.go: the host keys, `loadOrGenerateRSAKey`, `loadOrGenerateEd25519Key` and `persistKey`.
-- Generating, encoding and parsing a key are the work of crypto and of golang.org/x/crypto/ssh, and are
-- parameters; so are the answers of the disk.
use ztna_lab_appliance.Common.{
  Bool, true, false, List, [], ◌∷◌, ◌++◌, Option, none, some, Text, text, is_empty, Map, lookup,
  insert, lookup-insert, text_eq_refl, LogCall, ◌≡◌, refl, arith, if◌then◌else◌, Option-cases,
  Bool-cases, inl, inr,
}
use ztna_lab_appliance.Sshd.Lifecycle.{ssh_line}

-- How `os.WriteFile` answers: done, or an error with what is left of the file, if anything was written.
pub data Write : Type 0 where
  written : Write
  failed : Text → Option Text → Write

-- The answers of the disk while a key is loaded.
pub record Disk : Type 0 where
  pub readable : Bool
  pub write : Write

-- `os.ReadFile`
abbrev pub read_file : Disk → Text → Map Text → Option Text
read_file os path files = if os.readable then lookup path files else none

abbrev left_behind : Option Text → Text → Map Text → Map Text
left_behind none path files = files
left_behind (some rest) path files = insert path rest files

-- `persistKey`
unfoldable pub persist_key : Disk → Text → Text → Text → Map Text → Map Text × List LogCall
persist_key os path data_ key_type files = if is_empty path then (files, []) else elim os.write [
  | Write.written ↦ (
    insert path data_ files,
    ssh_line (text "generated new " ++ key_type ++ text " host key at " ++ path) ∷ [],
  )
  | Write.failed e rest ↦ (
    left_behind rest path files,
    ssh_line (
          text "warning: could not persist "
          ++ key_type
          ++ text " host key to "
          ++ path
          ++ text ": "
          ++ e)
        ∷ [],
  )
]

abbrev unreadable : Text → Text → List LogCall
unreadable key_type path =
    ssh_line (key_type ++ text " host key at " ++ path ++ text " unreadable, regenerating") ∷ []

-- Loading a key returns the signer, or an error; the files after it; and the log lines.
abbrev pub Loaded : Type 0 → Type 0
Loaded Signer = Option Signer × Map Text × List LogCall

module _ {Signer : Type 0} (parse : Text → Option Signer) where
  -- The end of both functions: the encoded key is persisted and parsed.
  unfoldable pub store_key : Disk → Text → Text → Text → Map Text → List LogCall → Loaded Signer
  unfolding persist_key
  store_key os path key_type pem files logged =
      let (files', lines) = persist_key os path pem key_type files in
      (parse pem, files', logged ++ lines)

  -- The rest of a function once no key could be loaded; `generated` is the encoded key, and `none`
  -- an error of generating or encoding it.
  unfoldable pub generate :
      Disk → Text → Text → Option Text → Map Text → List LogCall → Loaded Signer
  unfolding store_key
  generate os path key_type none files logged = (none, files, logged)
  generate os path key_type (some pem) files logged = store_key os path key_type pem files logged

  -- The functions on what `os.ReadFile` gives.
  unfoldable pub load_from :
      Disk → Text → Text → Option Text → Map Text → Option Text → Loaded Signer
  unfolding generate
  load_from os path key_type generated files none = generate os path key_type generated files []
  load_from os path key_type generated files (some bytes) = elim (parse bytes) [
    | some signer ↦ (some signer, files, [])
    | none ↦ generate os path key_type generated files (unreadable key_type path)
  ]

  unfoldable pub load_or_generate : Disk → Text → Text → Option Text → Map Text → Loaded Signer
  unfolding load_from
  load_or_generate os path key_type generated files =
      load_from os path key_type generated files (read_file os path files)

  -- `loadOrGenerateRSAKey`: `generated` is the PEM block of the new key.
  unfoldable pub load_or_generate_rsa_key : Disk → Text → Option Text → Map Text → Loaded Signer
  unfolding load_or_generate
  load_or_generate_rsa_key os path generated files =
      load_or_generate os path (text "RSA") generated files

  -- `loadOrGenerateEd25519Key`
  unfoldable pub load_or_generate_ed25519_key : Disk → Text → Option Text → Map Text → Loaded Signer
  unfolding load_or_generate
  load_or_generate_ed25519_key os path generated files =
      load_or_generate os path (text "Ed25519") generated files

  -- A later start with a file that can be read finds the signer, changes nothing and logs nothing.
  abbrev pub Reloads : (Disk → Option Text → Map Text → Loaded Signer) → Loaded Signer → Type 0
  Reloads load (signer, files, lines) =
      (later : Disk) (generated : Option Text)
      → later.readable ≡ true
      → load later generated files ≡ (signer, files, [])

  reload :
      (later : Disk) (path key_type bytes : Text) (generated : Option Text) (files : Map Text)
      (signer : Signer)
      → later.readable ≡ true
      → lookup path files ≡ some bytes
      → parse bytes ≡ some signer
      → load_or_generate later path key_type generated files ≡ (some signer, files, [])
  unfolding load_or_generate load_from
  reload later path key_type bytes generated files signer readable present parsed =
      ground (arith, readable, present, parsed)

  abbrev load_at : Text → Text → Disk → Option Text → Map Text → Loaded Signer
  load_at path key_type os generated files = load_or_generate os path key_type generated files

  found :
      (os : Disk) (path : Text) (files : Map Text) {bytes : Text}
      → read_file os path files ≡ some bytes
      → lookup path files ≡ some bytes
  found os path files e = elim (Bool-cases os.readable) [
    | inl readable ↦ rw readable at e
    | inr broken ↦ ground (arith, e, broken)
  ]

  module _ (os : Disk) (path key_type pem : Text) (fresh : Signer) (named : is_empty path ≡ false)
      (parsed : parse pem ≡ some fresh) (written : os.write ≡ Write.written) where
    generate_lem :
        (files : Map Text) (logged : List LogCall)
        → let result = generate os path key_type (some pem) files logged in
          (result.0 ≡ some fresh) × Reloads (load_at path key_type) result
    unfolding generate store_key persist_key
    generate_lem files logged =
        let files' = insert path pem files in
        let present : lookup path files' ≡ some pem =
          ground (arith, lookup-insert path path pem files, text_eq_refl path) in
        rw (named, written, parsed)
          (
            refl,
            λ later generated readable.
                reload later path key_type pem generated files' fresh readable present parsed,
          )

    load_from_lem :
        (files : Map Text) (contents : Option Text)
        → read_file os path files ≡ contents
        → let result = load_from os path key_type (some pem) files contents in
          (signer : Signer) × (result.0 ≡ some signer) × Reloads (load_at path key_type) result
    unfolding load_from
    load_from_lem files none missing = let (e, again) = generate_lem files [] in (fresh, e, again)
    load_from_lem files (some bytes) present = elim (Option-cases (parse bytes)) [
      | inl bad ↦
          rw (load_from, bad)
            (let (e, again) = generate_lem files (unreadable key_type path) in (fresh, e, again))
      | inr (signer, good) ↦
          rw (load_from, good)
            (
              signer,
              refl,
              λ later generated readable.
                  reload later path key_type bytes generated files signer readable
                    (found os path files present) good,
            )
    ]

  -- If the key that is generated can be parsed once it is encoded, and the file can be written,
  -- loading either host key gives a signer, whether the file was missing, could not be read, held no key or
  -- held one. Every later start that can read the file then finds this same signer, leaves the files
  -- alone and logs nothing, whatever it would generate.
  pub host_key_persists :
      (os : Disk) (path pem : Text) (fresh : Signer) (files : Map Text)
      → is_empty path ≡ false
      → parse pem ≡ some fresh
      → os.write ≡ Write.written
      → let rsa = load_or_generate_rsa_key os path (some pem) files in
        let ed25519 = load_or_generate_ed25519_key os path (some pem) files in
        ((signer : Signer) × (rsa.0 ≡ some signer)
          × Reloads (λ later g fs. load_or_generate_rsa_key later path g fs) rsa)
        × ((signer : Signer) × (ed25519.0 ≡ some signer)
            × Reloads (λ later g fs. load_or_generate_ed25519_key later path g fs) ed25519)
  unfolding load_or_generate_rsa_key load_or_generate_ed25519_key load_or_generate
  host_key_persists os path pem fresh files named parsed saved = (
    load_from_lem os path (text "RSA") pem fresh named parsed saved files _ refl,
    load_from_lem os path (text "Ed25519") pem fresh named parsed saved files _ refl,
  )

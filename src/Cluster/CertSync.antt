-- ===== src/Cluster/CertSync.antt =====
-- engine/internal/cluster/cluster_certsync.go, with the file names of cluster.go: the exchange of pairing
-- records. A folder maps the name of a file to its content and time, in nanoseconds; a record that
-- travels carries milliseconds, 0 for none, and its content as base64 decodes it. The outcomes of file
-- operations are arguments. On Unix filepath.IsLocal adds nothing to the other tests of a name.
pub mod Newest
use maps_main.Shared.{
  ℕ, ◌*◌, ◌/◌, Text, runes, text_eq, Bool, true, false, not, ◌&&◌, ◌||◌, Option, none, some,
  is_some, List, [], ◌∷◌, length, ltb, leb, ◌==◌, if◌then◌else◌,
}
use maps_main.Auth.Store.{is_empty}
use maps_main.Cluster.Model.{Manager, Role, MasterRef, master, slave, node}

pub record File : Type 0 where
  pub content : Text
  pub mod_time : ℕ

-- `plistFile`
pub record PlistFile : Type 0 where
  pub name : Text
  pub content : Option Text
  pub mod_time : ℕ

abbrev pub Folder : Type 0
Folder = Text → Option File

-- The fields of `Manager` that the exchange keeps, and the Lockdown folder, if there is one.
pub record Certs : Type 0 where
  pub folder : Option Folder
  pub cert_mtimes : Text → Option ℕ

abbrev pub millisecond : ℕ
millisecond = 1000000

abbrev has_separator : Text → Bool
has_separator [] = false
has_separator (c ∷ cs) = c == 47 || c == 92 || has_separator cs

-- `sanitizeFileName`, which also decides `lockdownFilePath`.
unfoldable pub sanitize_file_name : Text → Option Text
sanitize_file_name name =
    if is_empty name || text_eq name (runes ".") || text_eq name (runes "..") || has_separator name
    then none
    else some name

abbrev pub put_file : {A : Type 0} → Text → A → (Text → Option A) → Text → Option A
put_file name x f n = if text_eq n name then some x else f n

-- Whether what is there is as new as what comes, where that has a time.
abbrev pub is_current : Option File → ℕ → Bool
is_current none ms = false
is_current (some f) ms = ltb 0 ms && leb (ms * millisecond) f.mod_time

-- The writing itself, at the time `now`: `dated` says whether Chtimes succeeds.
abbrev pub written : Bool → ℕ → Text → Text → ℕ → Folder → Certs → Certs
written dated now name content ms d s =
    let stamp = if ltb 0 ms && dated then ms * millisecond else now in
    record s {
      folder = some (put_file name (record { content = content; mod_time = stamp }) d);
      cert_mtimes =
          if ltb 0 ms then put_file name (ms * millisecond) s.cert_mtimes else s.cert_mtimes;
    }

abbrev pub write_checked : Bool → Bool → ℕ → Option Text → PlistFile → Option Folder → Certs → Certs
write_checked writable dated now none f d s = s
write_checked writable dated now (some name) f none s = s
write_checked writable dated now (some name) f (some d) s =
    if is_current (d name) f.mod_time then s else elim (f.content) [
      | none ↦ s
      | some content ↦ if writable then written dated now name content f.mod_time d s else s
    ]

-- `writeLocalPlist`
unfoldable pub write_local_plist : Bool → Bool → ℕ → PlistFile → Certs → Certs
write_local_plist writable dated now f s =
    write_checked writable dated now (sanitize_file_name f.name) f s.folder s

-- `pullCertsFromMaster`: `none` stands for an answer that is not had or does not decode.
abbrev pub write_all : Bool → Bool → ℕ → List PlistFile → Certs → Certs
unfolding write_local_plist
write_all writable dated now [] s = s
write_all writable dated now (f ∷ fs) s =
    write_all writable dated now fs (write_local_plist writable dated now f s)

unfoldable pull_certs_from_master :
    Bool → Bool → ℕ → Option (List PlistFile) → Manager → Certs → Manager × Certs
unfolding write_all
pull_certs_from_master writable dated now none m s = (m, s)
pull_certs_from_master writable dated now (some files) m s =
    (record m { initial_synced = true }, write_all writable dated now files s)

-- `handleSyncPlist`: its answer, and what is written.
unfoldable pub handle_sync_plist :
    Bool → Bool → ℕ → Option PlistFile → Manager → Certs → Bool × Certs
unfolding write_local_plist
handle_sync_plist writable dated now none m s = (false, s)
handle_sync_plist writable dated now (some f) m s =
    if m.sync_certs then (true, write_local_plist writable dated now f s) else (false, s)

-- Whether a file is to be pushed: it is newer than when it was last seen.
abbrev is_changed : Option ℕ → ℕ → Bool
is_changed none t = true
is_changed (some last) t = ltb last t

abbrev plist_of : Text → File → PlistFile
plist_of name f = record {
  name = name;
  content = some f.content;
  mod_time = f.mod_time / millisecond;
}

abbrev remembered : Text → ℕ → Certs → Certs
remembered name t s = record s { cert_mtimes = put_file name t s.cert_mtimes }

abbrev pub push_file : Text → Option File → Certs → Option PlistFile × Certs
push_file name none s = (none, s)
push_file name (some f) s =
    if is_changed (s.cert_mtimes name) f.mod_time
    then (some (plist_of name f), remembered name f.mod_time s)
    else (none, s)

abbrev pub push_named : Option Text → Option Folder → Certs → Option PlistFile × Certs
push_named none d s = (none, s)
push_named (some name) none s = (none, s)
push_named (some name) (some d) s = push_file name (d name) s

-- One entry of the loop of `pushChangedCerts`: the record to push, if any. What is listed can be read.
unfoldable pub push_entry : Text → Certs → Option PlistFile × Certs
push_entry entry s = push_named (sanitize_file_name entry) s.folder s

abbrev add_some : Option PlistFile → List PlistFile → List PlistFile
add_some none fs = fs
add_some (some f) fs = f ∷ fs

-- `pushChangedCerts` over the entries of the folder: what is pushed to every peer.
abbrev push_entries : List Text → Certs → List PlistFile × Certs
unfolding push_entry
push_entries [] s = ([], s)
push_entries (e ∷ es) s =
    let one = push_entry e s in let rest = push_entries es one.1 in (add_some one.0 rest.0, rest.1)

unfoldable push_changed_certs : Bool → List Text → Certs → List PlistFile × Certs
unfolding push_entries
push_changed_certs has_peers entries s = if has_peers then push_entries entries s else ([], s)

-- `handlePlists`: the records that a node gives away, over the entries of its folder.
abbrev pub listed : Text → Option File → List PlistFile → List PlistFile
listed name none rest = rest
listed name (some f) rest = plist_of name f ∷ rest

abbrev listed_as : Option Text → Folder → List PlistFile → List PlistFile
listed_as none d rest = rest
listed_as (some name) d rest = listed name (d name) rest

abbrev plists_of : List Text → Folder → List PlistFile
plists_of [] d = []
plists_of (e ∷ es) d = listed_as (sanitize_file_name e) d (plists_of es d)

abbrev plists_in : List Text → Option Folder → List PlistFile
plists_in es none = []
plists_in es (some d) = plists_of es d

unfoldable pub handle_plists : List Text → Manager → Certs → List PlistFile
handle_plists entries m s = if m.sync_certs then plists_in entries s.folder else []

-- The tests of `runCertSync`.
abbrev pulls : Role → MasterRef → Bool → Bool
pulls slave (node key) synced = not synced
pulls r c synced = false

abbrev pub pushes : Role → Bool
pushes master = true
pushes r = false

abbrev has_peers : Manager → Bool
has_peers m = ltb 0 (length m.peers)

-- `runCertSync`: what is pushed to every peer, and the state. `answer` is the master's.
unfoldable pub run_cert_sync :
    Bool
    → Bool
    → ℕ
    → Option (List PlistFile)
    → List Text
    → Manager
    → Certs
    → List PlistFile × Manager × Certs
unfolding pull_certs_from_master push_changed_certs
run_cert_sync writable dated now answer entries m s =
    let pulled = pull_certs_from_master writable dated now answer m s in
    let pushed = push_changed_certs (has_peers m) entries s in
    if not m.sync_certs
    then ([], m, s)
    else if pulls m.role m.current_master m.initial_synced
    then ([], pulled.0, pulled.1)
    else if pushes m.role
    then (pushed.0, m, pushed.1)
    else ([], m, s)

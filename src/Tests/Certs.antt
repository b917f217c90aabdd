-- ===== src/Tests/Certs.antt =====
-- The theorems on the exchange of pairing records at a folder with one file.
use maps_main.Shared.{
  ◌≡◌, refl, Text, runes, text_eq, true, none, some, [], ◌∷◌, arith, if◌then◌else◌,
}
use maps_main.Cluster.CertSync.{PlistFile, Folder, Certs, write_all, sanitize_file_name}
use maps_main.Cluster.CertSync.Newest.{version, latest, version-write_all}

abbrev udid : Text
udid = runes "a.plist"

abbrev folder : Folder
folder n = if text_eq n udid then some (record { content = []; mod_time = 5000000 }) else none

abbrev certs : Certs
certs = record { folder = some folder; cert_mtimes = λ n. none }

abbrev older : PlistFile
older = record { name = udid; content = some (runes "old"); mod_time = 4 }

abbrev newer : PlistFile
newer = record { name = udid; content = some (runes "new"); mod_time = 9 }

version-write_all_example :
    version udid (write_all true true 77 (newer ∷ older ∷ []) certs)
    ≡ latest udid (newer ∷ older ∷ []) (version udid certs)
unfolding sanitize_file_name
version-write_all_example =
    version-write_all 77 (newer ∷ older ∷ []) certs udid
      ((refl, refl, omega arith), ((refl, refl, omega arith), tt)) refl

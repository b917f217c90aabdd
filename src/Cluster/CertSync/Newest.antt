-- ===== src/Cluster/CertSync/Newest.antt =====
-- The exchange of pairing records of cluster_certsync.go: the newest wins, and is not sent back.
use maps_main.Shared.{
  ℕ, ◌*◌, ◌<◌, ◌≡◌, ◌∙◌, sym, refl, ap, Text, text_eq, text_eq_self, text_eq_iff, Bool, true, false,
  ◌&&◌, Option, none, some, is_some, List, [], ◌∷◌, All, arith, ltb, if◌then◌else◌, Bool-cases,
  Option-cases, inl, inr,
}
use maps_main.Cluster.Model.{Manager}
use maps_main.Cluster.CertSync.{
  run_cert_sync, handle_sync_plist, handle_plists, File, PlistFile, Folder, Certs, millisecond,
  sanitize_file_name, put_file, is_current, written, write_checked, write_local_plist, write_all,
  push_entry, push_named, push_file,
}

-- The time of a file, 0 for none.
abbrev time_of : Option File → ℕ
time_of none = 0
time_of (some f) = f.mod_time

abbrev pub version : Text → Certs → ℕ
version n s = elim (s.folder) [ none ↦ 0 | some d ↦ time_of (d n) ]

-- A record that can be written: a safe name, content, a time.
abbrev IsProper : PlistFile → Type 0
IsProper f =
    (sanitize_file_name f.name ≡ some f.name) × (is_some f.content ≡ true) × (0 < f.mod_time)

abbrev later_of : ℕ → ℕ → ℕ
later_of a b = if ltb a b then b else a

-- The latest of the times of the records of one name, and of the file that was there.
abbrev pub latest : Text → List PlistFile → ℕ → ℕ
latest n [] v = v
latest n (f ∷ fs) v =
    if text_eq n f.name then latest n fs (later_of v (f.mod_time * millisecond)) else latest n fs v

later_if_current :
    (o : Option File) (ms : ℕ)
    → 0 < ms
    → is_current o ms ≡ true
    → later_of (time_of o) (ms * millisecond) ≡ time_of o
later_if_current none ms dated h = ground arith
later_if_current (some f) ms dated h = ground arith

later_if_stale :
    (o : Option File) (ms : ℕ)
    → 0 < ms
    → is_current o ms ≡ false
    → later_of (time_of o) (ms * millisecond) ≡ ms * millisecond
later_if_stale none ms dated h = ground arith
later_if_stale (some f) ms dated h = ground arith

kept_as_is :
    (name : Text) (ms : ℕ) (d : Folder) (n : Text)
    → 0 < ms
    → is_current (d name) ms ≡ true
    → time_of (d n)
      ≡ (if text_eq n name then later_of (time_of (d n)) (ms * millisecond) else time_of (d n))
kept_as_is name ms d n dated current = elim (Bool-cases (text_eq n name)) [
  | inl same ↦
      let e : name ≡ n = sym ((text_eq_iff n name).0 same) in
      let here : is_current (d n) ms ≡ true = ap (λ k. is_current (d k) ms) (sym e) ∙ current in
      rw same (sym (later_if_current (d n) ms dated here))
  | inr other ↦ rw other refl
]

replaced :
    (now : ℕ) (name c : Text) (ms : ℕ) (d : Folder) (n : Text)
    → 0 < ms
    → is_current (d name) ms ≡ false
    → time_of (
        put_file name
          (record { content = c; mod_time = if ltb 0 ms && true then ms * millisecond else now })
          d
          n)
      ≡ (if text_eq n name then later_of (time_of (d n)) (ms * millisecond) else time_of (d n))
replaced now name c ms d n dated stale = elim (Bool-cases (text_eq n name)) [
  | inl same ↦
      let e : n ≡ name = (text_eq_iff n name).0 same in
      let here : is_current (d n) ms ≡ false = ap (λ k. is_current (d k) ms) e ∙ stale in
      let later = later_if_stale (d n) ms dated here in rw (same, later) (ground arith)
  | inr other ↦ rw other refl
]

abbrev IsWritten : Text → ℕ → Folder → Certs → Certs → Type 0
IsWritten name ms d s s' =
    (is_some s'.folder ≡ true)
    × ((n : Text)
        → version n s'
          ≡ (if text_eq n name then later_of (time_of (d n)) (ms * millisecond) else time_of (d n)))

write_checked-IsWritten :
    (now : ℕ) (name : Text) (content : Option Text) (ms : ℕ) (d : Folder) (s : Certs)
    → is_some content ≡ true
    → 0 < ms
    → s.folder ≡ some d
    → IsWritten name ms d s (
        write_checked true true now
          (some name)
          (record { name = name; content = content; mod_time = ms })
          (some d)
          s)
write_checked-IsWritten now name none ms d s has dated at = ground arith
write_checked-IsWritten now name (some c) ms d s has dated at =
    elim (Bool-cases (is_current (d name) ms)) [
      | inl current ↦ rw current (rw at refl, (λ n. rw at (kept_as_is name ms d n dated current)))
      | inr stale ↦ rw stale (refl, (λ n. replaced now name c ms d n dated stale))
    ]

version-write :
    (now : ℕ) (f : PlistFile) (s : Certs) (d : Folder)
    → IsProper f
    → s.folder ≡ some d
    → IsWritten f.name f.mod_time d s (write_local_plist true true now f s)
unfolding write_local_plist
version-write now f s d proper at =
    simp (proper.0, at)
      (write_checked-IsWritten now f.name f.content f.mod_time d s proper.1 proper.2 at)

latest_if :
    (n : Text) (fs : List PlistFile) (b : Bool) (x y : ℕ)
    → latest n fs (if b then x else y) ≡ (if b then latest n fs x else latest n fs y)
latest_if n fs true x y = refl
latest_if n fs false x y = refl

-- Where there is a Lockdown folder and its files can be written and dated, and every record received has
-- a safe name, content that decodes and a time: each file ends up at the latest of the times that it had
-- and that were received for it. An older record never replaces a newer one.
pub version-write_all :
    (now : ℕ) (fs : List PlistFile) (s : Certs) (n : Text)
    → All IsProper fs
    → is_some s.folder ≡ true
    → version n (write_all true true now fs s) ≡ latest n fs (version n s)
unfolding write_all
version-write_all now [] s n proper there = refl
version-write_all now (f ∷ fs) s n proper there = elim (Option-cases s.folder) [
  | inl nowhere ↦ absurd (ground arith)
  | inr (d, at) ↦
      let s' = write_local_plist true true now f s in
      let one = version-write now f s d proper.0 at in
      let here : version n s ≡ time_of (d n) = rw at refl in
      let step : version n s' ≡ (
          if text_eq n f.name
          then later_of (version n s) (f.mod_time * millisecond)
          else version n s) =
        one.1 n
        ∙ ap (λ v. if text_eq n f.name then later_of v (f.mod_time * millisecond) else v)
            (sym here) in
      version-write_all now fs s' n proper.1 one.0
      ∙ ap (latest n fs) step
      ∙ latest_if n fs (text_eq n f.name) _ _
]

ltb_self : (t : ℕ) → ltb t t ≡ false
ltb_self t = ground arith

push_entry_seen :
    (name : Text) (d : Folder) (x : File) (s : Certs)
    → sanitize_file_name name ≡ some name
    → s.folder ≡ some d
    → d name ≡ some x
    → s.cert_mtimes name ≡ some x.mod_time
    → (push_entry name s).0 ≡ none
unfolding push_entry
push_entry_seen name d x s safe at file seen =
    let same = ltb_self x.mod_time in
    ap (λ o. (push_named o s.folder s).0) safe
    ∙ ap (λ o. (push_named (some name) o s).0) at
    ∙ ap (λ o. (push_file name o s).0) file
    ∙ rw (seen, same) refl

push_entry-written :
    (now : ℕ) (name c : Text) (ms : ℕ) (d : Folder) (s : Certs)
    → sanitize_file_name name ≡ some name
    → 0 < ms
    → (push_entry name (written true now name c ms d s)).0 ≡ none
push_entry-written now name c ms d s safe dated =
    let x : File = record { content = c; mod_time = ms * millisecond } in
    let self = text_eq_self name in
    let on : ltb 0 ms ≡ true = ground arith in
    push_entry_seen name (put_file name x d) x (written true now name c ms d s) safe (rw on refl)
      (rw self refl) (rw (on, self) refl)

-- A record with a safe name, content and a time that replaces an older file or none, and is written and
-- dated, is not pushed back to the other nodes: its file has the time under which it was last seen.
push_entry-write_local_plist :
    (now : ℕ) (f : PlistFile) (s : Certs) (d : Folder)
    → IsProper f
    → s.folder ≡ some d
    → is_current (d f.name) f.mod_time ≡ false
    → (push_entry f.name (write_local_plist true true now f s)).0 ≡ none
unfolding write_local_plist
push_entry-write_local_plist now f s d proper at stale = elim (Option-cases f.content) [
  | inl without ↦ let has = proper.1 in absurd (ground arith)
  | inr (c, is) ↦
      let done : write_local_plist true true now f s ≡ written true now f.name c f.mod_time d s =
        simp (proper.0, at, stale, is) in
      ap (λ t. (push_entry f.name t).0) done
      ∙ push_entry-written now f.name c f.mod_time d s proper.0 proper.2
]

-- A node whose option is off neither gives records away, nor takes any, nor sends any.
sync_off :
    (writable dated : Bool) (now : ℕ) (answer : Option (List PlistFile)) (f : Option PlistFile)
    (entries : List Text) (m : Manager) (s : Certs)
    → m.sync_certs ≡ false
    → (run_cert_sync writable dated now answer entries m s ≡ ([], m, s))
      × (handle_sync_plist writable dated now f m s ≡ (false, s))
      × (handle_plists entries m s ≡ [])
unfolding run_cert_sync handle_sync_plist handle_plists
sync_off writable dated now answer none entries m s off = (simp off, refl, simp off)
sync_off writable dated now answer (some f) entries m s off = (simp off, simp off, simp off)

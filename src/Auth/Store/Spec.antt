-- ===== src/Auth/Store/Spec.antt =====
-- The store of store.go against what it promises: a vault that keeps a hash for each device.
use mathlib.Core.Path.{fun_ext}
use maps_main.Shared.{
  ◌∙◌, ap, cut, sym, text_eq_comm, ℕ, ◌≡◌, refl, Text, text_eq, text_eq_sound, Bool, true, false,
  not, Option, none, some, List, [], ◌∷◌, ◌&&◌, arith, if◌then◌else◌, inl, inr, Bool-cases, is_some,
}
use maps_main.Auth.Store.{
  Row, Store, find_row, delete_rows, touch_rows, ensure_seed, regenerate_seed, revoke, pair,
  verify_token, id_part, dot,
}

abbrev pub Vault : Type 0
Vault = Text → Option Text

abbrev pub hash_in : Option Row → Option Text
hash_in none = none
hash_in (some r) = some r.token_hash

-- What a store stands for: the hash of each device.
abbrev pub view : Store → Vault
view s i = hash_in (find_row i s.devices)

hash_in-delete_rows :
    (i j : Text) (rows : List Row)
    → hash_in (find_row j (delete_rows i rows))
      ≡ (if text_eq j i then none else hash_in (find_row j rows))
hash_in-delete_rows i j [] = ground arith
hash_in-delete_rows i j (r ∷ rows) =
    let rest = hash_in-delete_rows i j rows in
    elim (Bool-cases (text_eq i r.id)) [
      | inl same ↦ let e = text_eq_sound i r.id same in rw same (rest ∙ rw e (ground arith))
      | inr other ↦
          let comm = text_eq_comm i j in
          let apart : text_eq j r.id ≡ true → text_eq j i ≡ false =
            λ h. sym comm ∙ rw (text_eq_sound j r.id h) other in
          rw other (ground (arith, rest, apart))
    ]

hash_in-touch_rows :
    (i j : Text) (now : ℕ) (rows : List Row)
    → hash_in (find_row j (touch_rows i now rows)) ≡ hash_in (find_row j rows)
hash_in-touch_rows i j now [] = refl
hash_in-touch_rows i j now (r ∷ rows) = ground (arith, hash_in-touch_rows i j now rows)

abbrev issue : Text → Text → Vault → Vault
issue i h v j = if text_eq j i then some h else v j

abbrev withdraw : Text → Vault → Vault
withdraw i v j = if text_eq j i then none else v j

-- A call of the store, with what it draws and whether its statements are carried out.
pub data Call : Type 0 where
  seeded : (db : Bool) (raw : Text) → Call
  reseeded : (db : Bool) (raw : Text) → Call
  paired : (db : Bool) (i : Text) (secret : Text) (label : Text) (now : ℕ) → Call
  verified : (read : Bool) (wrote : Bool) (token : Text) (now : ℕ) → Call
  withdrawn : (db : Bool) (i : Text) → Call

module _ (hash_secret : Text → Text) where
  pub after : Call → Store → Store
  after (seeded db raw) s = (ensure_seed db raw s).1
  after (reseeded db raw) s = (regenerate_seed db raw s).1
  after (paired db i secret label now) s = (pair hash_secret db i secret label now s).1
  after (verified read wrote token now) s = (verify_token hash_secret read wrote token now s).1
  after (withdrawn db i) s = (revoke db i s).1

  abbrev pub after_all : List Call → Store → Store
  after_all [] s = s
  after_all (c ∷ calls) s = after_all calls (after c s)

  -- What each call means for the vault.
  abbrev pub meaning : Call → Vault → Vault
  meaning (seeded db raw) v = v
  meaning (reseeded db raw) v = v
  meaning (paired db i secret label now) v =
      if db && not (is_some (v i)) then issue i (hash_secret secret) v else v
  meaning (verified read wrote token now) v = v
  meaning (withdrawn db i) v = if db then withdraw i v else v

  abbrev pub meaning_all : List Call → Vault → Vault
  meaning_all [] v = v
  meaning_all (c ∷ calls) v = meaning_all calls (meaning c v)

  view-pair :
      (db : Bool) (i secret label : Text) (now : ℕ) (s : Store) (j : Text)
      → view (pair hash_secret db i secret label now s).1 j
        ≡ meaning (paired db i secret label now) (view s) j
  unfolding pair
  view-pair db i secret label now s j = ground arith

  view-verify_token :
      (read wrote : Bool) (token : Text) (now : ℕ) (s : Store) (j : Text)
      → view (verify_token hash_secret read wrote token now s).1 j ≡ view s j
  unfolding verify_token
  view-verify_token read wrote token now s j =
      let parts = cut dot token in
      let kept = hash_in-touch_rows (id_part parts) j now s.devices in ground (arith, kept)

  -- Deleting a device that is not there changes nothing, which is why no case of `revoke` is special.
  pub view-revoke :
      (db : Bool) (i : Text) (s : Store) (j : Text)
      → view (revoke db i s).1 j ≡ meaning (withdrawn db i) (view s) j
  unfolding revoke
  view-revoke db i s j =
      let gone = hash_in-delete_rows i j s.devices in
      let same : text_eq j i ≡ true → find_row j s.devices ≡ find_row i s.devices =
        λ h. rw (text_eq_sound j i h) refl in
      ground (arith, gone, same)

  view-after : (c : Call) (s : Store) (j : Text) → view (after c s) j ≡ meaning c (view s) j
  unfolding after ensure_seed regenerate_seed
  view-after (seeded db raw) s j = ground arith
  view-after (reseeded db raw) s j = refl
  view-after (paired db i secret label now) s j = view-pair db i secret label now s j
  view-after (verified read wrote token now) s j = view-verify_token read wrote token now s j
  view-after (withdrawn db i) s j = view-revoke db i s j

  -- The calls of a store, in any order, with any of their statements failing, do to the hashes it keeps
  -- what their meanings do to a vault: pairing a new id issues its hash, revoking an id withdraws it,
  -- and checking a token or drawing a seed changes nothing.
  pub after_all-refines :
      (calls : List Call) (s : Store) → view (after_all calls s) ≡ meaning_all calls (view s)
  after_all-refines [] s = refl
  after_all-refines (c ∷ calls) s =
      after_all-refines calls (after c s) ∙ ap (meaning_all calls) (fun_ext (view-after c s))

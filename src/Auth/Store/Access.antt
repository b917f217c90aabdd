-- ===== src/Auth/Store/Access.antt =====
-- Who is let in by store.go: the devices that are paired and not revoked.
use maps_main.Shared.{
  ℕ, ◌≡◌, ◌≢◌, ◌↔◌, ◌∙◌, sym, refl, ap, Text, text_eq, text_eq_iff, text_eq_self, cut, cut-append,
  All, Bool, true, false, not, Option, none, some, List, [], ◌∷◌, arith, Bool-cases, inl, inr,
}
use maps_main.Auth.Store.{
  Row, Store, Device, find_row, revoke, pair, verify_token, is_empty, dot, token_of, secret_matches,
  credential_matches,
}
use maps_main.Auth.Store.Spec.{
  Vault, Call, seeded, reseeded, paired, verified, withdrawn, view, hash_in, after_all, meaning,
  meaning_all, after_all-refines, view-revoke,
}

-- A call that does not revoke the device, and one that does not pair its id.
abbrev spares : Text → Call → Bool
spares i (withdrawn db j) = not (text_eq i j)
spares i (seeded db raw) = true
spares i (reseeded db raw) = true
spares i (paired db j secret label now) = true
spares i (verified read wrote token now) = true

abbrev pub pairs_not : Text → Call → Bool
pairs_not i (withdrawn db j) = true
pairs_not i (seeded db raw) = true
pairs_not i (reseeded db raw) = true
pairs_not i (paired db j secret label now) = not (text_eq i j)
pairs_not i (verified read wrote token now) = true

module _ (hash_secret : Text → Text) where
  -- What a token must be for a store.
  abbrev Opens : Text → Store → Type 0
  Opens token s =
      (i : Text) × (secret : Text) × (cut dot token ≡ some (i, secret))
      × (is_empty i ≡ false)
      × (is_empty secret ≡ false)
      × (view s i ≡ some (hash_secret secret))

  some_inj : {a b : Text} → ◌≡◌ {A = Option Text} (some a) (some b) → a ≡ b
  some_inj h = ground arith

  some_pair_inj :
      {a b c d : Text}
      → ◌≡◌ {A = Option (Text × Text)} (some (a, b)) (some (c, d))
      → (a ≡ c) × (b ≡ d)
  some_pair_inj h = ground arith

  not_both : {a : Text} → ¬ (◌≡◌ {A = Option Text} none (some a))
  not_both h = ground arith

  matches_iff :
      (secret : Text) (o : Option Row)
      → (secret_matches hash_secret secret o ≡ true) ↔ (hash_in o ≡ some (hash_secret secret))
  matches_iff secret none = ground arith
  matches_iff secret (some r) =
      let same = text_eq_iff r.token_hash (hash_secret secret) in
      ((λ h. ap some (same.0 h)), (λ h. same.1 (some_inj h)))

  opens_of :
      (parts : Option (Text × Text)) (s : Store)
      → credential_matches hash_secret parts s.devices ≡ true
      → (i : Text) × (secret : Text) × (parts ≡ some (i, secret))
        × (is_empty i ≡ false)
        × (is_empty secret ≡ false)
        × (view s i ≡ some (hash_secret secret))
  opens_of none s h = ground arith
  opens_of (some (i, secret)) s h =
      let e : is_empty i ≡ false = ground arith in
      let f : is_empty secret ≡ false = ground arith in
      let m : secret_matches hash_secret secret (find_row i s.devices) ≡ true = ground arith in
      (i, secret, refl, e, f, (matches_iff secret (find_row i s.devices)).0 m)

  -- A token is accepted, SQLite permitting, exactly if it is an id and a secret about its first dot,
  -- neither of them empty, and the hash of the secret is the one that is kept for the id.
  verify_token_iff :
      (wrote : Bool) (token : Text) (now : ℕ) (s : Store)
      → ((verify_token hash_secret true wrote token now s).0 ≡ true) ↔ Opens token s
  unfolding verify_token
  verify_token_iff wrote token now s = (
    opens_of (cut dot token) s,
    (λ (i, secret, parts, ne, nes, is).
        rw (parts, ne, nes) ((matches_iff secret (find_row i s.devices)).1 is)),
  )

  kept_by :
      (c : Call) (v : Vault) (i h : Text)
      → spares i c ≡ true
      → v i ≡ some h
      → meaning hash_secret c v i ≡ some h
  kept_by (seeded db raw) v i h ok is = is
  kept_by (reseeded db raw) v i h ok is = is
  kept_by (verified read wrote token now) v i h ok is = is
  kept_by (paired db j secret label now) v i h ok is =
      let same : text_eq i j ≡ true → v j ≡ v i = λ e. rw ((text_eq_iff i j).0 e) refl in
      ground (arith, same)
  kept_by (withdrawn db j) v i h ok is = ground arith

  shut_by :
      (c : Call) (v : Vault) (i : Text)
      → pairs_not i c ≡ true
      → v i ≡ none
      → meaning hash_secret c v i ≡ none
  shut_by (seeded db raw) v i ok is = is
  shut_by (reseeded db raw) v i ok is = is
  shut_by (verified read wrote token now) v i ok is = is
  shut_by (paired db j secret label now) v i ok is = ground arith
  shut_by (withdrawn db j) v i ok is = ground arith

  kept_through :
      (calls : List Call) (v : Vault) (i h : Text)
      → All (λ c. spares i c ≡ true) calls
      → v i ≡ some h
      → meaning_all hash_secret calls v i ≡ some h
  kept_through [] v i h ok is = is
  kept_through (c ∷ calls) v i h ok is =
      kept_through calls (meaning hash_secret c v) i h ok.1 (kept_by c v i h ok.0 is)

  shut_through :
      (calls : List Call) (v : Vault) (i : Text)
      → All (λ c. pairs_not i c ≡ true) calls
      → v i ≡ none
      → meaning_all hash_secret calls v i ≡ none
  shut_through [] v i ok is = is
  shut_through (c ∷ calls) v i ok is =
      shut_through calls (meaning hash_secret c v) i ok.1 (shut_by c v i ok.0 is)

  pair-issues :
      (i secret label : Text) (now : ℕ) (s : Store) (token : Text) (dev : Device)
      → (pair hash_secret true i secret label now s).0 ≡ some (token, dev)
      → (token ≡ token_of i secret)
        × (view (pair hash_secret true i secret label now s).1 i ≡ some (hash_secret secret))
  unfolding pair
  pair-issues i secret label now s token dev h = ground (arith, text_eq_self i)

  -- A device that has been paired is let in with the token it was given, now and after any further
  -- calls that do not revoke it: other pairings and revocations, checks of tokens, a new seed. The id
  -- that was drawn has no dot, and neither it nor the secret is empty.
  pub verify_token-pair :
      (i secret label : Text) (now : ℕ) (s : Store) (token : Text) (dev : Device)
      (calls : List Call) (wrote : Bool) (later : ℕ)
      → (pair hash_secret true i secret label now s).0 ≡ some (token, dev)
      → All (λ c. c ≢ dot) i
      → is_empty i ≡ false
      → is_empty secret ≡ false
      → All (λ c. spares i c ≡ true) calls
      → (verify_token hash_secret true wrote token later
          (after_all hash_secret calls (pair hash_secret true i secret label now s).1)).0
        ≡ true
  verify_token-pair i secret label now s token dev calls wrote later h plain ne nes ok =
      let paired_store = (pair hash_secret true i secret label now s).1 in
      let issued = pair-issues i secret label now s token dev h in
      let kept = kept_through calls (view paired_store) i (hash_secret secret) ok issued.1 in
      let seen = ap (λ v. v i) (after_all-refines hash_secret calls paired_store) ∙ kept in
      let parts : cut dot token ≡ some (i, secret) =
        rw (issued.0) (cut-append dot i secret plain) in
      (verify_token_iff wrote token later (after_all hash_secret calls paired_store)).1
        (i, secret, parts, ne, nes, seen)

  refused :
      (token i secret : Text) (s : Store)
      → cut dot token ≡ some (i, secret)
      → view s i ≡ none
      → ¬ (Opens token s)
  refused token i secret s parts shut (j, secret', parts', ne, nes, is) =
      let both : (i ≡ j) × (secret ≡ secret') = some_pair_inj (sym parts ∙ parts') in
      let is' : view s i ≡ some (hash_secret secret') = rw both.0 is in not_both (sym shut ∙ is')

  -- Once a device is revoked no token that names its id is accepted, whatever its secret, until the
  -- same id is paired again.
  pub verify_token-revoke :
      (i secret : Text) (s : Store) (token : Text) (calls : List Call) (wrote : Bool) (later : ℕ)
      → cut dot token ≡ some (i, secret)
      → All (λ c. pairs_not i c ≡ true) calls
      → (verify_token hash_secret true wrote token later
          (after_all hash_secret calls (revoke true i s).1)).0
        ≡ false
  verify_token-revoke i secret s token calls wrote later parts ok =
      let end = after_all hash_secret calls (revoke true i s).1 in
      let gone : view (revoke true i s).1 i ≡ none =
        view-revoke hash_secret true i s i ∙ rw (text_eq_self i) refl in
      let shut = shut_through calls (view (revoke true i s).1) i ok gone in
      let seen = ap (λ v. v i) (after_all-refines hash_secret calls (revoke true i s).1) ∙ shut in
      elim (Bool-cases (verify_token hash_secret true wrote token later end).0) [
        | inr shut_out ↦ shut_out
        | inl let_in ↦ absurd (
            refused token i secret end parts seen
              ((verify_token_iff wrote token later end).0 let_in))
      ]

-- ===== src/Logging/Recent.antt =====
-- The buffer of service.go holds the latest entries, all of them with a known level.
use maps_main.Shared.{
  ℕ, zero, suc, length-drop, ◌+◌, ◌-◌, ◌≤◌, ◌≡◌, refl, ◌∙◌, sym, ap, String, List, [], ◌∷◌, ◌++◌,
  length, drop, All, ltb, arith, ◌⊎◌, inl, inr, Bool-cases, str_eq_iff, length-append,
}
use maps_main.Logging.{
  LogEntry, Service, new_service, normalize_level, entry_of, keep_last, add, get,
}

abbrev pub add_all : List LogEntry → Service → Service
add_all [] s = s
add_all (e ∷ es) s = add_all es (add e s).1

-- The specification: everything that was ever logged.
abbrev pub entries_of : List LogEntry → List LogEntry
entries_of [] = []
entries_of (e ∷ es) = entry_of e ∷ entries_of es

drop-append :
    {A : Type 0} (n : ℕ) (xs ys : List A) → n ≤ length xs → drop n (xs ++ ys) ≡ drop n xs ++ ys
drop-append zero xs ys h = refl
drop-append (suc n) [] ys h = ground arith
drop-append (suc n) (x ∷ xs) ys h = drop-append n xs ys (omega (arith, h))

drop_nil : {A : Type 0} (n : ℕ) → drop {A = A} n [] ≡ []
drop_nil zero = refl
drop_nil (suc n) = refl

drop-drop : {A : Type 0} (n m k : ℕ) (xs : List A) → m + n ≡ k → drop n (drop m xs) ≡ drop k xs
drop-drop n zero k xs h = let e : n ≡ k = omega (arith, h) in ap (λ i. drop i xs) e
drop-drop n (suc m) k [] h = drop_nil n ∙ sym (drop_nil k)
drop-drop n (suc m) zero (x ∷ xs) h = absurd (omega (arith, h))
drop-drop n (suc m) (suc k) (x ∷ xs) h = drop-drop n m k xs (omega (arith, h))

append_nil : {A : Type 0} (xs : List A) → xs ++ [] ≡ xs
append_nil [] = refl
append_nil (x ∷ xs) = ap (λ l. x ∷ l) (append_nil xs)

append_assoc : {A : Type 0} (xs ys zs : List A) → (xs ++ ys) ++ zs ≡ xs ++ (ys ++ zs)
append_assoc [] ys zs = refl
append_assoc (x ∷ xs) ys zs = ap (λ l. x ∷ l) (append_assoc xs ys zs)

keep_last-drop : (n : ℕ) (xs : List LogEntry) → keep_last n xs ≡ drop (length xs - n) xs
keep_last-drop n xs = elim (Bool-cases (ltb n (length xs))) [
  | inl longer ↦ rw longer refl
  | inr short ↦ let none_over : length xs - n ≡ 0 = ground arith in rw (short, none_over) refl
]

-- Trimming before an entry is added makes no difference to the trim after it.
keep_last-append :
    (n : ℕ) (xs ys : List LogEntry) → keep_last n (keep_last n xs ++ ys) ≡ keep_last n (xs ++ ys)
keep_last-append n xs ys =
    let k = length xs - n in
    let joined : keep_last n xs ++ ys ≡ drop k (xs ++ ys) =
      ap (λ l. l ++ ys) (keep_last-drop n xs) ∙ sym (drop-append k xs ys (omega arith)) in
    let sizes = length-append xs ys in
    let size = length-drop k (xs ++ ys) in
    let total : k + (length (drop k (xs ++ ys)) - n) ≡ length (xs ++ ys) - n =
      omega (arith, sizes, size) in
    ap (keep_last n) joined
    ∙ keep_last-drop n (drop k (xs ++ ys))
    ∙ drop-drop (length (drop k (xs ++ ys)) - n) k (length (xs ++ ys) - n) (xs ++ ys) total
    ∙ sym (keep_last-drop n (xs ++ ys))

length-keep_last : (n : ℕ) (xs : List LogEntry) → length (keep_last n xs) ≤ n
length-keep_last n xs =
    let size = length-drop (length xs - n) xs in rw (keep_last-drop n xs) (omega (arith, size))

logs-add_all :
    (es : List LogEntry) (s : Service) (all : List LogEntry)
    → s.logs ≡ keep_last s.max_logs all
    → (add_all es s).logs ≡ keep_last s.max_logs (all ++ entries_of es)
unfolding add
logs-add_all [] s all h = h ∙ ap (keep_last s.max_logs) (sym (append_nil all))
logs-add_all (e ∷ es) s all h =
    let one = entry_of e ∷ [] in
    let trimmed : (add e s).1.logs ≡ keep_last s.max_logs (all ++ one) =
      ap (λ l. keep_last s.max_logs (l ++ one)) h ∙ keep_last-append s.max_logs all one in
    logs-add_all es (add e s).1 (all ++ one) trimmed
    ∙ ap (keep_last s.max_logs) (append_assoc all one (entries_of es))

abbrev pub IsLevel : String → Type 0
IsLevel l = (l ≡ "warn") ⊎ (l ≡ "error") ⊎ (l ≡ "debug") ⊎ (l ≡ "console") ⊎ (l ≡ "info")

normalize_level-IsLevel : (l : String) → IsLevel (normalize_level l)
unfolding normalize_level
normalize_level-IsLevel l =
    ground (
      arith,
      str_eq_iff l "warn",
      str_eq_iff l "error",
      str_eq_iff l "debug",
      str_eq_iff l "console",
    )

entries_of-IsLevel : (es : List LogEntry) → All (λ e. IsLevel e.level) (entries_of es)
unfolding entry_of
entries_of-IsLevel [] = tt
entries_of-IsLevel (e ∷ es) = (normalize_level-IsLevel e.level, entries_of-IsLevel es)

drop-All : {A : Type 0} (P : A → Type 0) (n : ℕ) (xs : List A) → All P xs → All P (drop n xs)
drop-All P zero xs h = h
drop-All P (suc n) [] h = h
drop-All P (suc n) (x ∷ xs) h = drop-All P n xs h.1

-- Whatever is logged, the buffer shows exactly the latest entries of all that were added, as many as it
-- is made for at most, and each has one of the five known levels.
pub get-add_all :
    (n : ℕ) (es : List LogEntry)
    → let shown = get (add_all es (new_service n)) in
      (shown ≡ keep_last n (entries_of es)) × (length shown ≤ n) × All (λ e. IsLevel e.level) shown
unfolding new_service
get-add_all n es =
    let same = logs-add_all es (new_service n) [] (sym (keep_last-drop n [] ∙ drop_nil (0 - n))) in
    let kept = keep_last-drop n (entries_of es) in
    let known = drop-All _ (length (entries_of es) - n) (entries_of es) (entries_of-IsLevel es) in
    (same, rw same (length-keep_last n (entries_of es)), rw (same, kept) known)

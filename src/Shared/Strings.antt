-- ===== src/Shared/Strings.antt =====
-- Go's strings xs the runes they decode to, and the functions of package strings that are used.
use Prim.Native.Nat.{ℕ, ◌+◌}
use Prim.Native.Char.{code}
use Prim.Native.String.{String}
use mathlib.Core.Path.{◌≡◌, refl}
use mathlib.Core.Logic.{◌↔◌, ◌≢◌}
use mathlib.Core.Bool.{Bool, true, false, ◌&&◌, ◌||◌}
use mathlib.Core.Option.{Option, none, some}
use mathlib.Core.List.{List, [], ◌∷◌, ◌++◌}
use native.Mathlib.Omega.{arith}
use maps_main.Shared.Tests.{ltb, leb, ◌==◌, if◌then◌else◌}
use maps_main.Shared.Lists.{All}

abbrev pub Text : Type 0
Text = List ℕ

-- The runes of a literal.
abbrev pub runes : String → Text
runes String.[] = []
runes (String.◌∷◌ c s) = code c ∷ runes s

abbrev pub text_eq : Text → Text → Bool
text_eq [] [] = true
text_eq [] (b ∷ ys) = false
text_eq (a ∷ xs) [] = false
text_eq (a ∷ xs) (b ∷ ys) = a == b && text_eq xs ys

pub text_eq_self : (s : Text) → text_eq s s ≡ true
text_eq_self [] = refl
text_eq_self (a ∷ xs) = ground (arith, text_eq_self xs)

pub text_eq_sound : (s t : Text) → text_eq s t ≡ true → s ≡ t
text_eq_sound [] [] h = refl
text_eq_sound [] (b ∷ ys) h = ground arith
text_eq_sound (a ∷ xs) [] h = ground arith
text_eq_sound (a ∷ xs) (b ∷ ys) h =
    let both : (a ≡ b) × (text_eq xs ys ≡ true) = ground arith in
    rw (both.0, text_eq_sound xs ys both.1) refl

pub text_eq_iff : (s t : Text) → (text_eq s t ≡ true) ↔ (s ≡ t)
text_eq_iff s t = (text_eq_sound s t, (λ e. rw e (text_eq_self t)))

pub text_eq_comm : (s t : Text) → text_eq s t ≡ text_eq t s
text_eq_comm [] [] = refl
text_eq_comm [] (b ∷ t) = refl
text_eq_comm (a ∷ s) [] = refl
text_eq_comm (a ∷ s) (b ∷ t) = ground (arith, text_eq_comm s t)

-- `len`: the bytes of the UTF-8 encoding.
abbrev pub utf8_width : ℕ → ℕ
utf8_width c = if ltb c 128 then 1 else if ltb c 2048 then 2 else if ltb c 65536 then 3 else 4

abbrev pub byte_length : Text → ℕ
byte_length [] = 0
byte_length (c ∷ cs) = utf8_width c + byte_length cs

-- `unicode.IsSpace`
abbrev pub is_space : ℕ → Bool
is_space c =
    c == 32
    || (leb 9 c && leb c 13)
    || c == 133
    || c == 160
    || c == 5760
    || (leb 8192 c && leb c 8202)
    || c == 8232
    || c == 8233
    || c == 8239
    || c == 8287
    || c == 12288

-- `strings.TrimSpace`, by its two ends.
abbrev pub trim_left : Text → Text
trim_left [] = []
trim_left (c ∷ cs) = if is_space c then trim_left cs else c ∷ cs

abbrev pub trim_right : Text → Text
trim_right [] = []
trim_right (c ∷ cs) =
    let rest = trim_right cs in
    elim rest [ [] ↦ if is_space c then [] else c ∷ [] | d ∷ ds ↦ c ∷ d ∷ ds ]

abbrev pub trim_space : Text → Text
trim_space s = trim_right (trim_left s)

-- `strings.Cut` at one separator: what stands before and after its first occurrence.
abbrev pub cut : ℕ → Text → Option (Text × Text)
cut sep [] = none
cut sep (c ∷ cs) =
    let rest = cut sep cs in
    if c == sep
    then some ([], cs)
    else elim rest [ none ↦ none | some (before, after) ↦ some (c ∷ before, after) ]

pub cut-append :
    (sep : ℕ) (s t : Text) → All (λ c. c ≢ sep) s → cut sep (s ++ sep ∷ t) ≡ some (s, t)
cut-append sep [] t h = ground arith
cut-append sep (c ∷ cs) t h = let rest = cut-append sep cs t h.1 in rw rest (ground (arith, h.0))

-- `strings.HasPrefix` with `strings.TrimPrefix`: what follows the prefix, where there is one.
abbrev pub after_prefix : Text → Text → Option Text
after_prefix [] s = some s
after_prefix (p ∷ ps) [] = none
after_prefix (p ∷ ps) (c ∷ cs) = let rest = after_prefix ps cs in if p == c then rest else none

-- `strings.HasSuffix` and `strings.TrimSuffix`
abbrev pub has_suffix : Text → Text → Bool
has_suffix [] e = text_eq [] e
has_suffix (c ∷ cs) e = text_eq (c ∷ cs) e || has_suffix cs e

abbrev pub trim_suffix : Text → Text → Text
trim_suffix e [] = []
trim_suffix e (c ∷ cs) = if text_eq (c ∷ cs) e then [] else c ∷ trim_suffix e cs

-- `strings.ToLower` and `strings.EqualFold`, on the letters of ASCII.
abbrev pub lower_rune : ℕ → ℕ
lower_rune c = if leb 65 c && leb c 90 then c + 32 else c

abbrev pub lower : Text → Text
lower [] = []
lower (c ∷ cs) = lower_rune c ∷ lower cs

abbrev pub equal_fold : Text → Text → Bool
equal_fold s t = text_eq (lower s) (lower t)

-- `strings.Split` at one rune.
abbrev pub grow_head : ℕ → List Text → List Text
grow_head c [] = (c ∷ []) ∷ []
grow_head c (s ∷ ss) = (c ∷ s) ∷ ss

abbrev pub split : ℕ → Text → List Text
split sep [] = [] ∷ []
split sep (c ∷ cs) = if c == sep then [] ∷ split sep cs else grow_head c (split sep cs)

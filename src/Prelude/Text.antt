-- ===== src/Prelude/Text.antt =====
-- Texts that the program walks through, as lists of code points.
use Prim.Native.Nat.{ℕ}
use Prim.Native.Char.{code}
use Prim.Native.String.{String}
use mathlib.Core.Path.{◌≡◌, refl}
use mathlib.Core.Bool.{Bool, true, false, ◌&&◌, ◌||◌}
use mathlib.Core.Option.{Option, none, some}
use mathlib.Core.List.{List, [], ◌∷◌, ◌++◌}
use native.Mathlib.Omega.{arith}
use chipatelier.Prelude.Tests.{◌==◌, leb, if◌then◌else◌}

abbrev pub Text : Type 0
Text = List ℕ

-- `if text:`
abbrev pub is_truthy : Text → Bool
is_truthy [] = false
is_truthy (c ∷ cs) = true

abbrev pub codes : String → Text
codes String.[] = []
codes (String.◌∷◌ c s) = code c ∷ codes s

unfoldable pub eq_text : Text → Text → Bool
eq_text [] [] = true
eq_text (x ∷ xs) (y ∷ ys) = x == y && eq_text xs ys
eq_text _ _ = false

pub eq_text_sound : (xs ys : Text) → eq_text xs ys ≡ true → xs ≡ ys
unfolding eq_text
eq_text_sound [] [] h = refl
eq_text_sound [] (y ∷ ys) h = cc
eq_text_sound (x ∷ xs) [] h = cc
eq_text_sound (x ∷ xs) (y ∷ ys) h = ground (arith, eq_text_sound xs ys)

pub eq_text_refl : (xs : Text) → eq_text xs xs ≡ true
unfolding eq_text
eq_text_refl [] = refl
eq_text_refl (x ∷ xs) = ground (arith, eq_text_refl xs)

-- `text.startswith(prefix)`: the rest of the text behind the prefix.
unfoldable pub strip_prefix : Text → Text → Option Text
strip_prefix [] ys = some ys
strip_prefix (x ∷ xs) [] = none
strip_prefix (x ∷ xs) (y ∷ ys) = if x == y then strip_prefix xs ys else none

pub strip_prefix-append : (xs ys : Text) → strip_prefix xs (xs ++ ys) ≡ some ys
unfolding strip_prefix
strip_prefix-append [] ys = refl
strip_prefix-append (x ∷ xs) ys = ground (arith, strip_prefix-append xs ys)

-- `\s`: the whitespace of Python's `str` patterns
unfoldable pub is_space : ℕ → Bool
is_space c =
    (leb 9 c && leb c 13)
    || (leb 28 c && leb c 32)
    || c == 133
    || c == 160
    || c == 5760
    || (leb 8192 c && leb c 8202)
    || c == 8232
    || c == 8233
    || c == 8239
    || c == 8287
    || c == 12288

-- `\S*`, greedily: the token, and the rest.
unfoldable pub take_token : Text → Text × Text
take_token [] = ([], [])
take_token (c ∷ cs) =
    let (token, rest) = take_token cs in if is_space c then ([], c ∷ cs) else (c ∷ token, rest)

unfoldable pub skip_spaces : Text → Text
skip_spaces [] = []
skip_spaces (c ∷ cs) = if is_space c then skip_spaces cs else c ∷ cs

abbrev pub NoSpaces : Text → Type 0
NoSpaces [] = Unit {0}
NoSpaces (c ∷ cs) = (is_space c ≡ false) × NoSpaces cs

-- A token in front of a space, or at the end, is taken whole.
pub take_token-append :
    (token : Text) (c : ℕ) (rest : Text)
    → NoSpaces token
    → is_space c ≡ true
    → take_token (token ++ c ∷ rest) ≡ (token, c ∷ rest)
unfolding take_token
take_token-append [] c rest h sp = rw sp
take_token-append (t ∷ ts) c rest (ht, h) sp = rw (take_token-append ts c rest h sp) (rw ht)

pub take_token_all : (token : Text) → NoSpaces token → take_token token ≡ (token, [])
unfolding take_token
take_token_all [] h = refl
take_token_all (t ∷ ts) (ht, h) = rw (take_token_all ts h) (rw ht)

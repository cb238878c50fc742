-- ===== src/Prelude/Text.antt =====
-- Python's `str`: emptiness, `strip`, comparison by code points, and the decimal print of a number.
use Prim.Native.Nat.{ℕ, zero, suc, ◌/◌, ◌%◌}
use Prim.Native.Char.{Char, code}
use Prim.Native.String.{String, ◌++◌ as append}
use mathlib.Core.Path.{◌≡◌, refl}
use mathlib.Core.Bool.{Bool, true, false, ◌&&◌, ◌||◌}
use mathlib.Core.Option.{Option, none, some}
use mathlib.Core.List.{List, [], ◌∷◌}
use secure_ssi_platform.Prelude.Tests.{if◌then◌else◌, ltb, leb, nat_eq}

abbrev pub codes : String → List ℕ
codes String.[] = []
codes (String.◌∷◌ c s) = code c ∷ codes s

-- `not s`
abbrev pub is_empty : String → Bool
is_empty String.[] = true
is_empty (String.◌∷◌ c s) = false

-- `len(s)`
unfoldable pub text_length : String → ℕ
text_length String.[] = 0
text_length (String.◌∷◌ c s) = suc (text_length s)

-- `c.isspace()` on a code point
unfoldable pub is_space : ℕ → Bool
is_space c =
    (leb 9 c && leb c 13)
    || (leb 28 c && leb c 32)
    || nat_eq c 133
    || nat_eq c 160
    || nat_eq c 5760
    || (leb 8192 c && leb c 8202)
    || nat_eq c 8232
    || nat_eq c 8233
    || nat_eq c 8239
    || nat_eq c 8287
    || nat_eq c 12288

unfoldable pub lstrip : String → String
unfolding is_space
lstrip String.[] = String.[]
lstrip (String.◌∷◌ c s) = let rest = lstrip s in if is_space (code c) then rest else String.◌∷◌ c s

-- A character in front of a text that is stripped on the right.
unfoldable pub rstrip_cons : Char → String → String
unfolding is_space
rstrip_cons c String.[] = if is_space (code c) then String.[] else String.◌∷◌ c String.[]
rstrip_cons c (String.◌∷◌ d s) = String.◌∷◌ c (String.◌∷◌ d s)

unfoldable pub rstrip : String → String
unfolding rstrip_cons
rstrip String.[] = String.[]
rstrip (String.◌∷◌ c s) = rstrip_cons c (rstrip s)

-- `s.strip()`
unfoldable pub strip : String → String
unfolding lstrip rstrip
strip s = rstrip (lstrip s)

-- `s <= t`, by code points
abbrev pub codes_le : List ℕ → List ℕ → Bool
codes_le [] ys = true
codes_le (x ∷ xs) [] = false
codes_le (x ∷ xs) (y ∷ ys) = ltb x y || (nat_eq x y && codes_le xs ys)

unfoldable pub text_le : String → String → Bool
text_le s t = codes_le (codes s) (codes t)

-- f-strings: the parts one after another
unfoldable pub concat : List String → String
concat [] = String.[]
concat (s ∷ r) = append s (concat r)

abbrev digit : ℕ → String
digit zero = "0"
digit (suc zero) = "1"
digit (suc (suc zero)) = "2"
digit (suc (suc (suc zero))) = "3"
digit (suc (suc (suc (suc zero)))) = "4"
digit (suc (suc (suc (suc (suc zero))))) = "5"
digit (suc (suc (suc (suc (suc (suc zero)))))) = "6"
digit (suc (suc (suc (suc (suc (suc (suc zero))))))) = "7"
digit (suc (suc (suc (suc (suc (suc (suc (suc zero)))))))) = "8"
digit _ = "9"

-- The decimal digits of a number in front of a text; the first argument is fuel.
print_digits : ℕ → ℕ → String → String
print_digits zero n rest = rest
print_digits (suc f) n rest =
    let here = append (digit (n % 10)) rest in
    elim (ltb n 10) [ true ↦ here | false ↦ print_digits f (n / 10) here ]

-- `str(n)`; a number has at most `n + 1` digits
unfoldable pub print_nat : ℕ → String
unfolding print_digits
print_nat n = print_digits (suc n) n String.[]

print_nat_1205 : print_nat 1205 ≡ "1205"
unfolding print_nat
print_nat_1205 = refl

strip_padded : strip "  a b \n" ≡ "a b"
unfolding strip
strip_padded = refl

-- `s[:n]`
unfoldable pub text_take : ℕ → String → String
text_take zero s = String.[]
text_take (suc n) String.[] = String.[]
text_take (suc n) (String.◌∷◌ c s) = String.◌∷◌ c (text_take n s)

-- `s.startswith(p)`
unfoldable pub has_prefix : String → String → Bool
has_prefix s String.[] = true
has_prefix String.[] (String.◌∷◌ d p) = false
has_prefix (String.◌∷◌ c s) (String.◌∷◌ d p) = nat_eq (code c) (code d) && has_prefix s p

-- The text up to the first colon.
unfoldable pub up_to_colon : String → String
up_to_colon String.[] = String.[]
up_to_colon (String.◌∷◌ c s) =
    let rest = up_to_colon s in if nat_eq (code c) 58 then String.[] else String.◌∷◌ c rest

-- `s.split(":", 2)[1]`, or the `IndexError` of a text with no colon
unfoldable pub second_part : String → Option String
unfolding up_to_colon
second_part String.[] = none
second_part (String.◌∷◌ c s) =
    let rest = second_part s in if nat_eq (code c) 58 then some (up_to_colon s) else rest

second_part_did : second_part "did:key:z6Mk" ≡ some "key"
unfolding second_part
second_part_did = refl

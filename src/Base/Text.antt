-- ===== src/Base/Text.antt =====
-- The methods of Python's `str` that the program calls, on native texts.
use Prim.Native.Char.{Char, code}
use deepswe_eval_lab.Base.{
  ℕ, ◌+◌, ◌≡◌, refl, Bool, true, false, ◌&&◌, ◌||◌, List, [], ◌∷◌, leb, eqb, if◌then◌else◌, Option,
  none, some, ◌==◌,
}
use Prim.Native.String.{String}

-- The characters that `str.strip` removes.
unfoldable pub is_space : ℕ → Bool
is_space c =
    (leb 9 c && leb c 13)
    || (leb 28 c && leb c 32)
    || eqb c 0x85
    || eqb c 0xa0
    || eqb c 0x1680
    || (leb 0x2000 c && leb c 0x200a)
    || eqb c 0x2028
    || eqb c 0x2029
    || eqb c 0x202f
    || eqb c 0x205f
    || eqb c 0x3000

-- The characters at which `str.splitlines` ends a line.
pub is_line_break : ℕ → Bool
is_line_break c =
    (leb 10 c && leb c 13) || (leb 28 c && leb c 30) || eqb c 0x85 || eqb c 0x2028 || eqb c 0x2029

unfoldable pub lstrip : String → String
unfolding is_space
lstrip String.[] = ""
lstrip (String.◌∷◌ c s) = let rest = lstrip s in if is_space (code c) then rest else String.◌∷◌ c s

unfoldable pub rstrip : String → String
unfolding is_space
rstrip String.[] = ""
rstrip (String.◌∷◌ c s) =
    let rest = rstrip s in if is_space (code c) && rest == "" then "" else String.◌∷◌ c rest

-- `s.strip()`
unfoldable pub strip : String → String
unfolding lstrip rstrip
strip s = rstrip (lstrip s)

-- The lower case of the letters A to Z, and of the Kelvin sign, which is `k`. No other character has
-- an ASCII letter alone as its lower case, and the program compares the result with ASCII words only.
pub lower_code : ℕ → ℕ
lower_code c = if leb b'A' c && leb c b'Z' then c + 32 else if eqb c 0x212a then b'k' else c

-- `s.lower() == word`, for an ASCII word in lower case.
unfoldable pub lower_is : String → String → Bool
unfolding lower_code
lower_is String.[] String.[] = true
lower_is String.[] (String.◌∷◌ d t) = false
lower_is (String.◌∷◌ c s) String.[] = false
lower_is (String.◌∷◌ c s) (String.◌∷◌ d t) = eqb (lower_code (code c)) (code d) && lower_is s t

-- `s[len(p):]` where `s` starts with `p`, and nothing where it does not.
unfoldable pub remove_prefix : String → String → Option String
remove_prefix String.[] s = some s
remove_prefix (String.◌∷◌ c p) String.[] = none
remove_prefix (String.◌∷◌ c p) (String.◌∷◌ d s) =
    if eqb (code c) (code d) then remove_prefix p s else none

-- The text after the last occurrence of a character, `s.rsplit(c, 1)[-1]`.
unfoldable pub after_last : ℕ → String → String → String
after_last c whole String.[] = whole
after_last c whole (String.◌∷◌ d s) = after_last c (if eqb (code d) c then s else whole) s

-- A line that goes on with one more character.
abbrev pub extend : Char → List String → List String
extend c [] = String.◌∷◌ c "" ∷ []
extend c (l ∷ ls) = String.◌∷◌ c l ∷ ls

-- `after_cr` says that the character before was a carriage return, whose line feed ends no line.
pub lines_from : Bool → String → List String
unfolding is_line_break
lines_from after_cr String.[] = []
lines_from after_cr (String.◌∷◌ c s) =
    let rest = lines_from (eqb (code c) 13) s in
    if after_cr && eqb (code c) 10
    then rest
    else if is_line_break (code c)
    then "" ∷ rest
    else extend c rest

-- `s.splitlines()`
unfoldable pub splitlines : String → List String
unfolding lines_from
splitlines s = lines_from false s

splitlines_test : splitlines "a\r\n\nbc" ≡ "a" ∷ "" ∷ "bc" ∷ []
unfolding splitlines
splitlines_test = refl

strip_test : strip "  a b\t" ≡ "a b"
unfolding strip
strip_test = refl

lower_is_test : lower_is "PaSSed" "passed" ≡ true
unfolding lower_is
lower_is_test = refl

after_last_test : after_last b'}' "{ns}failure" "{ns}failure" ≡ "failure"
unfolding after_last
after_last_test = refl

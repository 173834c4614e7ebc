-- ===== src/Common/Text.antt =====
-- Rust's `str` as the list of its characters' numbers, with the methods that the router calls.
pub mod Equality
use Prim.Native.Char.{code}
use Prim.Native.String.{String}
use maestro_llamacpp.Common.Tests.{ltb, leb, ◌==◌, if◌then◌else◌}
use maestro_llamacpp.Common.Lists.{length, any}
use Prim.Native.Nat.{ℕ, zero, suc, ◌+◌, ◌-◌, ◌*◌, ◌/◌, ◌%◌, ◌^◌}
use mathlib.Core.Bool.{Bool, true, false, not, ◌&&◌, ◌||◌}
use mathlib.Core.Option.{Option, none, some}
use mathlib.Core.List.{List, [], ◌∷◌, ◌++◌, map, reverse}

abbrev pub Text : Type 0
Text = List ℕ

-- The characters of a literal. It is shut, so a message stays one term in a proof.
unfoldable pub codes : String → Text
codes String.[] = []
codes (String.◌∷◌ c s) = code c ∷ codes s

unfoldable pub text_eq : Text → Text → Bool
text_eq [] [] = true
text_eq [] (d ∷ t) = false
text_eq (c ∷ s) [] = false
text_eq (c ∷ s) (d ∷ t) = c == d && text_eq s t

-- `contains` of a list of texts
unfoldable pub mem_text : Text → List Text → Bool
unfolding any text_eq
mem_text t = any (text_eq t)

-- The characters of Unicode's White_Space.
unfoldable pub is_whitespace : ℕ → Bool
is_whitespace c =
    (leb 9 c && leb c 13)
    || c == 32
    || c == 0x85
    || c == 0xa0
    || c == 0x1680
    || (leb 0x2000 c && leb c 0x200a)
    || c == 0x2028
    || c == 0x2029
    || c == 0x202f
    || c == 0x205f
    || c == 0x3000

unfoldable pub is_digit : ℕ → Bool
is_digit c = leb b'0' c && leb c b'9'

unfoldable pub is_ascii_alphabetic : ℕ → Bool
is_ascii_alphabetic c = (leb b'a' c && leb c b'z') || (leb b'A' c && leb c b'Z')

unfoldable pub is_ascii_lowercase : ℕ → Bool
is_ascii_lowercase c = leb b'a' c && leb c b'z'

unfoldable pub to_ascii_lowercase : ℕ → ℕ
to_ascii_lowercase c = if leb b'A' c && leb c b'Z' then c + 32 else c

unfoldable pub lowercase : Text → Text
unfolding to_ascii_lowercase
lowercase = map to_ascii_lowercase

-- `trim_start_matches`, `trim_end_matches` and `trim_matches` by a test of characters
unfoldable pub trim_start_by : (ℕ → Bool) → Text → Text
trim_start_by p [] = []
trim_start_by p (c ∷ s) = let rest = trim_start_by p s in if p c then rest else c ∷ s

unfoldable pub trim_end_by : (ℕ → Bool) → Text → Text
unfolding trim_start_by
trim_end_by p s = reverse (trim_start_by p (reverse s))

unfoldable pub trim : Text → Text
unfolding trim_end_by trim_start_by is_whitespace
trim s = trim_end_by is_whitespace (trim_start_by is_whitespace s)

unfoldable pub starts_with : Text → Text → Bool
starts_with s [] = true
starts_with [] (d ∷ t) = false
starts_with (c ∷ s) (d ∷ t) = c == d && starts_with s t

-- `strip_prefix`
unfoldable pub strip_prefix : Text → Text → Option Text
strip_prefix s [] = some s
strip_prefix [] (d ∷ t) = none
strip_prefix (c ∷ s) (d ∷ t) = let rest = strip_prefix s t in if c == d then rest else none

unfoldable pub ends_with : Text → Text → Bool
unfolding starts_with
ends_with s t = starts_with (reverse s) (reverse t)

-- `contains` of a text in a text
unfoldable pub contains_text : Text → Text → Bool
unfolding starts_with
contains_text [] t = starts_with [] t
contains_text (c ∷ s) t = starts_with (c ∷ s) t || contains_text s t

-- `split_once` at a character
unfoldable pub split_once : ℕ → Text → Option (Text × Text)
split_once d [] = none
split_once d (c ∷ s) =
    let rest = split_once d s in
    if c == d then some ([], s) else elim rest [ none ↦ none | some (a, b) ↦ some (c ∷ a, b) ]

-- `rsplit_once` at a character
unfoldable pub rsplit_once : ℕ → Text → Option (Text × Text)
rsplit_once d [] = none
rsplit_once d (c ∷ s) =
    let rest = rsplit_once d s in
    elim rest [ some (a, b) ↦ some (c ∷ a, b) | none ↦ if c == d then some ([], s) else none ]

-- `split_once` at a text
unfoldable pub split_once_text : Text → Text → Option (Text × Text)
split_once_text d [] = elim (strip_prefix [] d) [ none ↦ none | some t ↦ some ([], t) ]
split_once_text d (c ∷ s) =
    let rest = split_once_text d s in
    elim (strip_prefix (c ∷ s) d) [
      | some t ↦ some ([], t)
      | none ↦ elim rest [ none ↦ none | some (a, b) ↦ some (c ∷ a, b) ]
    ]

-- `rsplit_once` at a text
unfoldable pub rsplit_once_text : Text → Text → Option (Text × Text)
rsplit_once_text d [] = elim (strip_prefix [] d) [ none ↦ none | some t ↦ some ([], t) ]
rsplit_once_text d (c ∷ s) =
    let rest = rsplit_once_text d s in
    elim rest [
      | some (a, b) ↦ some (c ∷ a, b)
      | none ↦ elim (strip_prefix (c ∷ s) d) [ none ↦ none | some t ↦ some ([], t) ]
    ]

-- The parts between characters that pass a test, `split` of Rust.
unfoldable pub split_by : (ℕ → Bool) → Text → List Text
split_by p [] = [] ∷ []
split_by p (c ∷ s) =
    let rest = split_by p s in
    if p c then [] ∷ rest else elim rest [ [] ↦ (c ∷ []) ∷ [] | w ∷ ws ↦ (c ∷ w) ∷ ws ]

-- `join`
unfoldable pub join : Text → List Text → Text
join sep [] = []
join sep (x ∷ xs) = let rest = join sep xs in elim xs [ [] ↦ x | y ∷ ys ↦ x ++ sep ++ rest ]

-- The decimal print of a number; the fuel is one more than the number.
unfoldable pub digits_of : ℕ → ℕ → Text
digits_of zero n = []
digits_of (suc f) n =
    let front = digits_of f (n / 10) in
    if ltb n 10 then (b'0' + n) ∷ [] else front ++ (b'0' + n % 10) ∷ []

unfoldable pub show : ℕ → Text
unfolding digits_of
show n = digits_of (suc n) n

-- `parse` of an unsigned integer of `bits` bits: an optional plus sign, then one or more digits,
-- with a value in range.
parse_digits : ℕ → Text → ℕ → Option ℕ
unfolding is_digit
parse_digits bits [] n = some n
parse_digits bits (c ∷ s) n =
    let m = n * 10 + (c - b'0') in
    let rest = parse_digits bits s m in
    if is_digit c then (if ltb m (2 ^ bits) then rest else none) else none

unfoldable pub parse_unsigned : ℕ → Text → Option ℕ
unfolding parse_digits
parse_unsigned bits [] = none
parse_unsigned bits (c ∷ []) = if is_digit c then parse_digits bits (c ∷ []) 0 else none
parse_unsigned bits (c ∷ d ∷ s) =
    if c == b'+' then parse_digits bits (d ∷ s) 0 else parse_digits bits (c ∷ d ∷ s) 0

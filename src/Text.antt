-- ===== src/Text.antt =====
-- The operations of Rust's `str` that the validators use. A text is a sequence of Unicode scalar
-- values; `bytes` is its UTF-8 encoding, which is what `len` and `bytes` of the source see.
pub mod Order
pub mod Decimal
pub mod Prefix
use Prim.Native.Char.{Char, code}
use Prim.Native.Nat.{Ordering, compare as compare_ℕ}
use Prim.Native.String.{[], ◌∷◌, ◌++◌}
use mathlib.Core.Option.{get_or}
use mathlib.Core.List.{List, [], ◌∷◌}
use canonical_company_audito.Prelude.{
  ℕ, zero, suc, ℤ, pos, negsuc, ◌+◌, ◌/◌, ◌%◌, String, Bool, true, false, ◌&&◌, ◌||◌, Option, none,
  some, ltb, leb, eqb, if◌then◌else◌, length, all, any, flat_map, get_elem?,
}

-- The UTF-8 encoding of one scalar value.
utf8 : ℕ → List ℕ
utf8 c =
    if ltb c 0x80
    then c ∷ []
    else if ltb c 0x800
    then (0xC0 + c / 64) ∷ (0x80 + c % 64) ∷ []
    else if ltb c 0x10000
    then (0xE0 + c / 4096) ∷ (0x80 + c / 64 % 64) ∷ (0x80 + c % 64) ∷ []
    else (0xF0 + c / 262144) ∷ (0x80 + c / 4096 % 64) ∷ (0x80 + c / 64 % 64) ∷ (0x80 + c % 64) ∷ []

-- `chars`, as numbers
abbrev pub codes : String → List ℕ
codes [] = []
codes (c ∷ s) = code c ∷ codes s

unfoldable pub bytes : String → List ℕ
unfolding utf8
bytes s = flat_map utf8 (codes s)

-- `len`, in bytes
unfoldable pub len : String → ℕ
unfolding bytes
len s = length (bytes s)

abbrev pub is_blank : String → Bool
is_blank [] = true
is_blank (c ∷ s) = false

-- `char::is_control`: the general category Cc
abbrev pub is_control : ℕ → Bool
is_control c = ltb c 32 || leb 127 c && leb c 159

-- `char::is_whitespace`: the property White_Space
abbrev pub is_whitespace : ℕ → Bool
is_whitespace c =
    leb 9 c && leb c 13
    || eqb c 32
    || eqb c 0x85
    || eqb c 0xA0
    || eqb c 0x1680
    || leb 0x2000 c && leb c 0x200A
    || eqb c 0x2028
    || eqb c 0x2029
    || eqb c 0x202F
    || eqb c 0x205F
    || eqb c 0x3000

-- `is_ascii_alphanumeric`
abbrev pub is_ascii_alphanumeric : ℕ → Bool
is_ascii_alphanumeric b =
    leb b'0' b && leb b b'9' || leb b'A' b && leb b b'Z' || leb b'a' b && leb b b'z'

unfoldable pub trim_start : String → String
trim_start [] = []
trim_start (c ∷ s) = if is_whitespace (code c) then trim_start s else c ∷ s

-- One more character in front of what is left of the rest.
abbrev pub trim_step : Char → String → String
trim_step c [] = if is_whitespace (code c) then [] else c ∷ []
trim_step c (d ∷ s) = c ∷ d ∷ s

unfoldable pub trim_end : String → String
trim_end [] = []
trim_end (c ∷ s) = trim_step c (trim_end s)

unfoldable pub trim : String → String
unfolding trim_start trim_end
trim s = trim_end (trim_start s)

-- `starts_with('/')` and `ends_with('/')`
unfoldable pub starts_with : ℕ → String → Bool
starts_with k [] = false
starts_with k (c ∷ s) = eqb (code c) k

unfoldable pub ends_with : ℕ → String → Bool
ends_with k [] = false
ends_with k (c ∷ []) = eqb (code c) k
ends_with k (c ∷ d ∷ s) = ends_with k (d ∷ s)

-- `value.strip_prefix(prefix)`, the prefix first
unfoldable pub strip_prefix : String → String → Option String
strip_prefix [] s = some s
strip_prefix (c ∷ p) [] = none
strip_prefix (c ∷ p) (d ∷ s) = if eqb (code c) (code d) then strip_prefix p s else none

abbrev pub cons_head : Char → List String → List String
cons_head c [] = (c ∷ []) ∷ []
cons_head c (p ∷ ps) = (c ∷ p) ∷ ps

-- `split('/')`: always at least one piece
unfoldable pub split : ℕ → String → List String
split k [] = [] ∷ []
split k (c ∷ s) = let rest = split k s in if eqb (code c) k then [] ∷ rest else cons_head c rest

-- Rust orders texts by their bytes, which is the order of their scalar values.
unfoldable pub compare : String → String → Ordering
compare [] [] = Ordering.eq
compare [] (d ∷ t) = Ordering.lt
compare (c ∷ s) [] = Ordering.gt
compare (c ∷ s) (d ∷ t) = elim (compare_ℕ (code c) (code d)) [
  | Ordering.lt ↦ Ordering.lt
  | Ordering.eq ↦ compare s t
  | Ordering.gt ↦ Ordering.gt
]

abbrev pub is_lt : Ordering → Bool
is_lt Ordering.lt = true
is_lt _ = false

abbrev pub is_le : Ordering → Bool
is_le Ordering.gt = false
is_le _ = true

unfoldable pub lt : String → String → Bool
unfolding compare
lt s t = is_lt (compare s t)

-- `key(left).cmp(&key(right))` is not greater
unfoldable pub le : String → String → Bool
unfolding compare
le s t = is_le (compare s t)

digit : ℕ → String
digit n = get_or (get_elem? ("0" ∷ "1" ∷ "2" ∷ "3" ∷ "4" ∷ "5" ∷ "6" ∷ "7" ∷ "8" ∷ "9" ∷ []) n) ""

decimal_fuel : ℕ → ℕ → String
decimal_fuel zero n = ""
decimal_fuel (suc f) n =
    let front = decimal_fuel f (n / 10) in if ltb n 10 then digit n else front ++ digit (n % 10)

-- `{number}` in a format string; a 64-bit number has at most 20 digits.
unfoldable pub decimal : ℕ → String
unfolding decimal_fuel digit
decimal n = decimal_fuel 20 n

-- `{number}` of a signed number
abbrev pub decimal_ℤ : ℤ → String
decimal_ℤ (pos n) = decimal n
decimal_ℤ (negsuc n) = "-" ++ decimal (suc n)

-- The pieces of a format string, or of an output that is written piece by piece.
abbrev pub concat : List String → String
concat [] = ""
concat (s ∷ ss) = s ++ concat ss

-- `join`
abbrev pub join : String → List String → String
join separator [] = ""
join separator (s ∷ []) = s
join separator (s ∷ t ∷ ss) = s ++ (separator ++ join separator (t ∷ ss))

-- `value.replace(character, to)`
unfoldable pub replace : ℕ → String → String → String
replace k to [] = []
replace k to (c ∷ s) = let rest = replace k to s in if eqb (code c) k then to ++ rest else c ∷ rest

abbrev pub cons_first : Char → Option (String × String) → Option (String × String)
cons_first c none = none
cons_first c (some (first, rest)) = some (c ∷ first, rest)

-- `split_once`
unfoldable pub split_once : ℕ → String → Option (String × String)
split_once k [] = none
split_once k (c ∷ s) =
    let later = split_once k s in if eqb (code c) k then some ([], s) else cons_first c later

-- `strip_suffix('\r')` of a line that a line feed ends, and `str::lines`
abbrev pub strip_return : String → String
strip_return [] = []
strip_return (c ∷ []) = if eqb (code c) 13 then [] else c ∷ []
strip_return (c ∷ d ∷ s) = c ∷ strip_return (d ∷ s)

abbrev pub last_line : String → List String
last_line [] = []
last_line (c ∷ s) = (c ∷ s) ∷ []

abbrev pub lines_of : List String → List String
lines_of [] = []
lines_of (s ∷ []) = last_line s
lines_of (s ∷ t ∷ ss) = strip_return s ∷ lines_of (t ∷ ss)

unfoldable pub lines : String → List String
unfolding split
lines value = lines_of (split 10 value)

-- ===== src/Bytes.antt =====
-- What the program uses of the standard library on bytes: comparison without regard to ASCII case,
-- numbers from and to text. A buffer is a list of bytes.
pub mod Decimal
use Prim.Native.Char.{code}
use Prim.Native.String
use kode_bridge.Base.{
  ℕ, zero, suc, ◌+◌, ◌-◌, ◌*◌, ◌/◌, ◌%◌, ◌^◌, Bool, true, false, ◌&&◌, Option, none, some, List, [],
  ◌∷◌, ◌++◌, String, ltb, leb, ◌==◌, if◌then◌else◌,
}

abbrev pub Bytes : Type 0
Bytes = List ℕ

-- The bytes of an ASCII text.
abbrev pub bytes : String → Bytes
bytes String.[] = []
bytes (String.◌∷◌ c s) = code c ∷ bytes s

abbrev pub crlf : Bytes
crlf = 13 ∷ 10 ∷ []

unfoldable pub to_lower : ℕ → ℕ
to_lower c = if leb 65 c && leb c 90 then c + 32 else c

unfoldable pub eq_ignore_ascii_case : Bytes → Bytes → Bool
eq_ignore_ascii_case [] [] = true
eq_ignore_ascii_case [] (y ∷ ys) = false
eq_ignore_ascii_case (x ∷ xs) [] = false
eq_ignore_ascii_case (x ∷ xs) (y ∷ ys) = to_lower x == to_lower y && eq_ignore_ascii_case xs ys

-- `char::to_digit`, for a radix of 10 or 16.
unfoldable pub to_digit : ℕ → ℕ → Option ℕ
to_digit radix c =
    let value =
      if leb 48 c && leb c 57
      then c - 48
      else if leb 97 c && leb c 122
      then c - 87
      else if leb 65 c && leb c 90
      then c - 55
      else radix in
    if ltb value radix then some value else none

unfoldable pub parse_digits : ℕ → ℕ → Bytes → Option ℕ
parse_digits radix acc [] = some acc
parse_digits radix acc (c ∷ cs) = elim (to_digit radix c) [
  | none ↦ none
  | some d ↦
      let next = acc * radix + d in
      let rest = parse_digits radix next cs in if ltb next (2 ^ 64) then rest else none
]

-- `usize::from_str_radix`: one `+` may stand before at least one digit.
unfoldable pub from_str_radix : ℕ → Bytes → Option ℕ
from_str_radix radix [] = none
from_str_radix radix (c ∷ []) = parse_digits radix 0 (c ∷ [])
from_str_radix radix (c ∷ d ∷ cs) =
    if c == b'+' then parse_digits radix 0 (d ∷ cs) else parse_digits radix 0 (c ∷ d ∷ cs)

abbrev pub parse_usize : Bytes → Option ℕ
parse_usize = from_str_radix 10

-- The decimal digits of a number below 10 ^ fuel, in front of `rest`.
unfoldable pub decimal : ℕ → ℕ → Bytes → Bytes
decimal zero n rest = rest
decimal (suc fuel) n rest =
    let more = decimal fuel (n / 10) ((48 + n % 10) ∷ rest) in
    if n / 10 == 0 then (48 + n % 10) ∷ rest else more

-- `to_string` of a `usize`, which has at most twenty digits.
unfoldable pub to_decimal : ℕ → Bytes
to_decimal n = decimal 20 n []

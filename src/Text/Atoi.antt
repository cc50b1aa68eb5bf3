-- ===== src/Text/Atoi.antt =====
-- strconv.Atoi, with what it returns beside an error: 0 for a malformed numeral, and the nearest
-- int64 for one that is out of range.
use sukumad.Prelude.{
  ltb, leb, ◌==◌, if◌then◌else◌, ℤ, pos, negsuc, negate, ℕ, ◌+◌, ◌-◌, ◌*◌, Bool, true, false, not,
  ◌&&◌, [], ◌∷◌,
}
use sukumad.Text.{Bytes, is_empty}

pub data Parsed : Type 0 where
  number : ℕ → Parsed
  syntax_error : Parsed
  range_error : Parsed

abbrev is_digit : ℕ → Bool
is_digit c = leb b'0' c && leb c b'9'

-- The loop of ParseUint: the overflow is found before the bytes that follow are read.
parse_digits : ℕ → Bytes → Parsed
parse_digits n [] = number n
parse_digits n (c ∷ s) =
    let n' = n * 10 + (c - b'0') in
    let rest = parse_digits n' s in
    if not (is_digit c)
    then syntax_error
    else if leb 1844674407370955162 n
    then range_error
    else if ltb 18446744073709551615 n'
    then range_error
    else rest

unfoldable pub parse_uint : Bytes → Parsed
unfolding parse_digits
parse_uint s = if is_empty s then syntax_error else parse_digits 0 s

-- The value, and whether the error is nil.
signed : Bool → Parsed → ℤ × Bool
signed neg syntax_error = (pos 0, false)
signed true range_error = (negsuc 9223372036854775807, false)
signed false range_error = (pos 9223372036854775807, false)
signed false (number n) =
    if ltb n 9223372036854775808 then (pos n, true) else (pos 9223372036854775807, false)
signed true (number n) =
    if leb n 9223372036854775808 then (negate n, true) else (negsuc 9223372036854775807, false)

unfoldable pub atoi : Bytes → ℤ × Bool
unfolding signed parse_uint
atoi [] = (pos 0, false)
atoi (c ∷ s) =
    if c == b'-'
    then signed true (parse_uint s)
    else if c == b'+'
    then signed false (parse_uint s)
    else signed false (parse_uint (c ∷ s))

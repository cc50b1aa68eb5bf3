-- ===== src/Text.antt =====
-- Go's strings as byte sequences, with the functions of `strings` and `strconv` that the code
-- calls. Letters and spaces are those of ASCII: a byte above 127 is neither.
pub mod Atoi
pub mod Laws
pub mod Maps
pub mod Parts
use Prim.Native.Char.{code}
use Prim.Native.String
use sukumad.Prelude.{
  leb, ◌==◌, if◌then◌else◌, ℕ, ◌+◌, ◌-◌, String, Bool, true, false, ◌&&◌, ◌||◌, List, [], ◌∷◌, ◌++◌,
  map,
}
use mathlib.Core.List.{reverse}

abbrev pub Bytes : Type 0
Bytes = List ℕ

-- The bytes of a literal, which is ASCII.
unfoldable pub str : String → Bytes
str String.[] = []
str (String.◌∷◌ c s) = code c ∷ str s

unfoldable pub text_eq : Bytes → Bytes → Bool
text_eq [] [] = true
text_eq [] (_ ∷ _) = false
text_eq (_ ∷ _) [] = false
text_eq (a ∷ s) (b ∷ t) = a == b && text_eq s t

abbrev pub is_empty : Bytes → Bool
is_empty [] = true
is_empty (_ ∷ _) = false

abbrev pub lower_byte : ℕ → ℕ
lower_byte c = if leb b'A' c && leb c b'Z' then c + 32 else c

abbrev pub upper_byte : ℕ → ℕ
upper_byte c = if leb b'a' c && leb c b'z' then c - 32 else c

unfoldable pub to_lower : Bytes → Bytes
to_lower s = map lower_byte s

unfoldable pub to_upper : Bytes → Bytes
to_upper s = map upper_byte s

-- strings.EqualFold
unfoldable pub equal_fold : Bytes → Bytes → Bool
unfolding to_lower text_eq
equal_fold s t = text_eq (to_lower s) (to_lower t)

-- Tab, newline, vertical tab, form feed, carriage return and space.
abbrev pub is_space : ℕ → Bool
is_space c = c == 32 || leb 9 c && leb c 13

unfoldable pub trim_left : Bytes → Bytes
trim_left [] = []
trim_left (c ∷ s) = let rest = trim_left s in if is_space c then rest else c ∷ s

unfoldable pub trim_right_space : Bytes → Bytes
unfolding trim_left
trim_right_space s = reverse (trim_left (reverse s))

unfoldable pub trim_space : Bytes → Bytes
unfolding trim_left trim_right_space
trim_space s = trim_right_space (trim_left s)

-- strings.HasPrefix
unfoldable pub has_prefix : Bytes → Bytes → Bool
has_prefix s [] = true
has_prefix [] (_ ∷ _) = false
has_prefix (a ∷ s) (b ∷ p) = a == b && has_prefix s p

unfoldable pub drop_byte : ℕ → Bytes → Bytes
drop_byte c [] = []
drop_byte c (a ∷ s) = let rest = drop_byte c s in if a == c then rest else a ∷ s

-- strings.TrimRight with a cutset of one byte
unfoldable pub trim_right : ℕ → Bytes → Bytes
unfolding drop_byte
trim_right c s = reverse (drop_byte c (reverse s))

abbrev push_front : ℕ → List Bytes → List Bytes
push_front a [] = (a ∷ []) ∷ []
push_front a (part ∷ parts) = (a ∷ part) ∷ parts

-- strings.Split with a separator of one byte: never an empty list.
unfoldable pub split : ℕ → Bytes → List Bytes
split c [] = [] ∷ []
split c (a ∷ s) = let parts = split c s in if a == c then [] ∷ parts else push_front a parts

-- strings.Join
unfoldable pub join : Bytes → List Bytes → Bytes
join sep [] = []
join sep (s ∷ []) = s
join sep (s ∷ (t ∷ ts)) = s ++ (sep ++ join sep (t ∷ ts))

-- The word in progress and the words that follow it.
fields_from : Bytes → Bytes → List Bytes
fields_from cur [] = if is_empty cur then [] else reverse cur ∷ []
fields_from cur (c ∷ s) =
    let grown = fields_from (c ∷ cur) s in
    let closed = fields_from [] s in
    if is_space c then if is_empty cur then closed else reverse cur ∷ closed else grown

-- strings.Fields
unfoldable pub fields : Bytes → List Bytes
unfolding fields_from
fields s = fields_from [] s

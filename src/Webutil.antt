-- ===== src/Webutil.antt =====
-- webutil.cpp: the URL codec of the network library. A C string is the list of the characters before
-- its terminator.
pub mod Codec
mod Tests
use c64iec.Base.{
  ℕ, ◌+◌, ◌-◌, ◌*◌, ◌/◌, ◌%◌, Bool, ◌&&◌, ◌||◌, Option, none, some, List, [], ◌∷◌, ltb, leb, ◌==◌,
  if◌then◌else◌, u8,
}
use mathlib.Core.Option

-- The value of a hexadecimal digit, and 0 for any other character.
pub h2int : ℕ → ℕ
h2int c =
    if leb b'0' c && leb c b'9'
    then c - b'0'
    else if leb b'a' c && leb c b'f'
    then c - b'a' + 10
    else if leb b'A' c && leb c b'F'
    then c - b'A' + 10
    else 0

-- The byte of two digits. The shift leaves the low four bits free, so | adds.
abbrev pub hex_byte : ℕ → ℕ → ℕ
hex_byte a b = u8 (h2int a * 16 + h2int b)

-- The result is none where the pointer passes the terminator, after a percent sign that is the last
-- character or the last but one.
unfoldable pub url_decode : List ℕ → Option (List ℕ)
url_decode [] = some []
url_decode (c ∷ []) = if c == b'%' then none else some ((if c == b'+' then b' ' else c) ∷ [])
url_decode (c ∷ a ∷ []) =
    if c == b'%'
    then none
    else Option.map (λ cs. (if c == b'+' then b' ' else c) ∷ cs) (url_decode (a ∷ []))
url_decode (c ∷ a ∷ b ∷ cs) =
    let escaped = Option.map (λ ds. hex_byte a b ∷ ds) (url_decode cs) in
    let plain = Option.map (λ ds. (if c == b'+' then b' ' else c) ∷ ds) (url_decode (a ∷ b ∷ cs)) in
    if c == b'%' then escaped else plain

-- int2h: the two characters that it writes for a byte, high digit first.
pub int2h : ℕ → ℕ × ℕ
int2h c = (
  if ltb 9 (c / 16 % 16) then c / 16 % 16 - 10 + b'a' else c / 16 % 16 + b'0',
  if ltb 9 (c % 16) then c % 16 - 10 + b'a' else c % 16 + b'0',
)

-- isalnum of the C library is a parameter.
module _ (isalnum : ℕ → Bool) where
  pub url_encode : List ℕ → List ℕ
  unfolding int2h
  url_encode [] = []
  url_encode (c ∷ cs) =
      if c == b' ' || isalnum c
      then (if c == b' ' then b'+' else c) ∷ url_encode cs
      else (let (h, l) = int2h c in b'%' ∷ h ∷ l ∷ url_encode cs)

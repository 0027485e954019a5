-- ===== src/Crypto/Hex.antt =====
-- `to_hex` and `from_hex` of crypto/crypto.cpp. A byte is a number below 256.
use vacps.Prelude.{
  ℕ, ◌+◌, ◌-◌, ◌*◌, ◌/◌, ◌%◌, [], ◌∷◌, ◌&&◌, Option, none, some, leb, ◌==◌, not, if◌then◌else◌,
  length, get_elem?,
}
use vacps.Process.State.{Bytes}

pub data HexResult : Type 0 where
  bytes : Bytes → HexResult
  length_must_be_even invalid_hex_character : HexResult

-- `kHex`.
abbrev pub k_hex : Bytes
k_hex =
    b'0' ∷ b'1' ∷ b'2' ∷ b'3' ∷ b'4' ∷ b'5' ∷ b'6' ∷ b'7' ∷ b'8' ∷ b'9' ∷ b'a' ∷ b'b' ∷ b'c' ∷ b'd'
    ∷ b'e' ∷ b'f' ∷ []

abbrev pub or_zero : Option ℕ → ℕ
or_zero none = 0
or_zero (some c) = c

abbrev pub hex_digit : ℕ → ℕ
hex_digit n = or_zero (get_elem? k_hex n)

unfoldable pub to_hex : Bytes → Bytes
to_hex [] = []
to_hex (b ∷ rest) = hex_digit (b / 16) ∷ hex_digit (b % 16) ∷ to_hex rest

abbrev pub nibble : ℕ → Option ℕ
nibble c =
    if leb b'0' c && leb c b'9'
    then some (c - b'0')
    else if leb b'a' c && leb c b'f'
    then some (c - b'a' + 10)
    else if leb b'A' c && leb c b'F'
    then some (c - b'A' + 10)
    else none

-- `(hi << 4) | lo` of two nibbles, in front of the bytes behind.
abbrev pub join : Option ℕ → Option ℕ → Option Bytes → Option Bytes
join (some hi) (some lo) (some rest) = some ((hi * 16 + lo) ∷ rest)
join _ _ _ = none

-- The loop over the pairs; `none` is a character that is no hexadecimal digit.
unfoldable pub from_pairs : Bytes → Option Bytes
from_pairs [] = some []
from_pairs (a ∷ []) = some []
from_pairs (a ∷ b ∷ rest) = join (nibble a) (nibble b) (from_pairs rest)

abbrev pub checked : Option Bytes → HexResult
checked none = invalid_hex_character
checked (some bs) = bytes bs

unfoldable pub from_hex : Bytes → HexResult
from_hex hex = if not (length hex % 2 == 0) then length_must_be_even else checked (from_pairs hex)

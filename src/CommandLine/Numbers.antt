-- ===== src/CommandLine/Numbers.antt =====
-- The numbers of the command line: `std::from_chars` in base 10 for an unsigned type, and the
-- parsers over it.
use vacps.Prelude.{ℕ, ◌+◌, ◌-◌, ◌*◌, [], ◌∷◌, Bool, ◌&&◌, ltb, leb, if◌then◌else◌}
use vacps.Process.State.{Bytes}
use vacps.CommandLine.{
  Expected, value, out_of_range, invalid_syntax, exceeds_milliseconds, invalid, empty, fails,
  ◌then_do◌,
}

abbrev pub is_digit : ℕ → Bool
is_digit c = leb 48 c && leb c 57

-- The value of the digits in front, and the rest.
unfoldable pub scan : ℕ → Bytes → ℕ × Bytes
scan acc [] = (acc, [])
scan acc (c ∷ cs) =
    let more = scan (acc * 10 + (c - 48)) cs in if is_digit c then more else (acc, c ∷ cs)

-- What `std::from_chars` answers: the value and the place behind it, or an error code.
pub data FromChars : Type 0 where
  parsed : ℕ → Bytes → FromChars
  result_out_of_range invalid_argument : FromChars

unfoldable pub from_chars : ℕ → Bytes → FromChars
from_chars max [] = invalid_argument
from_chars max (c ∷ cs) =
    let read = scan 0 (c ∷ cs) in
    if is_digit c
    then if leb read.0 max then parsed read.0 read.1 else result_out_of_range
    else invalid_argument

abbrev pub check_parsed : Bytes → Bytes → FromChars → Expected ℕ
check_parsed option raw (parsed n []) = value n
check_parsed option raw (parsed n (c ∷ rest)) = fails (invalid option raw invalid_syntax) option
check_parsed option raw result_out_of_range = fails (invalid option raw out_of_range) option
check_parsed option raw invalid_argument = fails (invalid option raw invalid_syntax) option

-- The type's largest value is `max`.
unfoldable pub parse_unsigned_full : ℕ → Bytes → Bytes → Expected ℕ
parse_unsigned_full max option [] = fails (empty option) option
parse_unsigned_full max option (c ∷ cs) = check_parsed option (c ∷ cs) (from_chars max (c ∷ cs))

-- The largest values of `unsigned long long` and `std::size_t`, and of the count of milliseconds.
abbrev pub u64_max : ℕ
u64_max = 18446744073709551615

abbrev pub milliseconds_max : ℕ
milliseconds_max = 9223372036854775807

unfoldable pub parse_milliseconds : Bytes → Bytes → Expected ℕ
parse_milliseconds option raw = parse_unsigned_full u64_max option raw then_do λ (n : ℕ).
    if ltb milliseconds_max n
    then fails (invalid option raw exceeds_milliseconds) option
    else value n

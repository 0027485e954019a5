-- ===== src/TextDecoder.antt =====
-- text/decoder.hpp and the labels of text/decoder.cpp: the data of a decoder, and what is used of
-- simdutf, which is a parameter.
use vacps.Prelude.{
  ℕ, ◌+◌, ◌-◌, List, [], ◌∷◌, Bool, true, false, ◌&&◌, ◌||◌, Option, none, some, leb, ◌==◌, map,
  if◌then◌else◌,
}
use vacps.Process.State.{Bytes}
use vacps.CommandLine.Names.{same_bytes}
pub mod Convert
pub mod Decode
pub mod Repair
pub mod Kept
pub mod Streamed
pub mod Labels
pub mod Ascii
mod Examples

pub data Encoding : Type 0 where
  utf8 utf16le utf16be : Encoding

pub record DecoderOptions : Type 0 where
  pub fatal : Bool
  pub ignore_bom : Bool

pub record Decoder : Type 0 where
  pub encoding : Encoding
  pub fatal : Bool
  pub ignore_bom : Bool
  pub bom_seen : Bool
  pub remainder : Bytes

-- What `decode` gives: a text, or one of its errors. `unfinished` is a loop cut short.
pub data Outcome : Type 0 where
  text : Bytes → Outcome
  not_valid odd_length unfinished : Outcome

abbrev pub Units : Type 0
Units = List ℕ

-- `convert_utf8_to_utf16le_with_errors`: the units, or where the first error is.
pub data Conversion : Type 0 where
  converted : Units → Conversion
  error_at : ℕ → Conversion

-- `validate_utf8_with_errors`: an error has the place where it is.
pub data Validation : Type 0 where
  success : Validation
  too_short : ℕ → Validation
  other_error : Validation

-- The functions of simdutf. The first argument of those on UTF-16 says whether it is little-endian;
-- its units are given as bytes in memory. `check_bom` is `none` for any other encoding and for no
-- byte order mark.
pub record Simdutf : Type 0 where
  pub validate_utf8 : Bytes → Bool
  pub validate_utf8_with_errors : Bytes → Validation
  pub convert_utf8_to_utf16_with_errors : Bytes → Conversion
  pub convert_utf8_to_utf16 : Bytes → Units
  pub convert_units_to_utf8 : Units → Bytes
  pub trim_partial_utf8 : Bytes → ℕ
  pub validate_utf16 : Bool → Bytes → Bool
  pub convert_utf16_to_utf8 : Bool → Bytes → Bytes
  pub convert_utf16_with_replacement : Bool → Bytes → Bytes
  pub trim_partial_utf16 : Bool → Bytes → ℕ
  pub check_bom : Bytes → Option Encoding
  pub bom_byte_size : Encoding → ℕ

abbrev pub is_blank : ℕ → Bool
is_blank c = c == b' ' || (c == 9 || (c == 10 || (c == 13 || c == 12)))

abbrev pub to_lower : ℕ → ℕ
to_lower c = if leb b'A' c && leb c b'Z' then c - b'A' + b'a' else c

unfoldable pub trim_front : Bytes → Bytes
trim_front [] = []
trim_front (c ∷ cs) = let rest = trim_front cs in if is_blank c then rest else c ∷ cs

abbrev pub put_front : ℕ → Bytes → Bytes
put_front c [] = if is_blank c then [] else c ∷ []
put_front c (d ∷ ds) = c ∷ d ∷ ds

unfoldable pub trim_back : Bytes → Bytes
trim_back [] = []
trim_back (c ∷ cs) = put_front c (trim_back cs)

unfoldable pub ascii_lower_trim : Bytes → Bytes
ascii_lower_trim s = map to_lower (trim_back (trim_front s))

abbrev pub utf_8 : Bytes
utf_8 = b'u' ∷ b't' ∷ b'f' ∷ b'-' ∷ b'8' ∷ []

abbrev pub utf_16 : Bytes
utf_16 = b'u' ∷ b't' ∷ b'f' ∷ b'-' ∷ b'1' ∷ b'6' ∷ []

abbrev pub utf_16le : Bytes
utf_16le = b'u' ∷ b't' ∷ b'f' ∷ b'-' ∷ b'1' ∷ b'6' ∷ b'l' ∷ b'e' ∷ []

abbrev pub utf_16be : Bytes
utf_16be = b'u' ∷ b't' ∷ b'f' ∷ b'-' ∷ b'1' ∷ b'6' ∷ b'b' ∷ b'e' ∷ []

abbrev pub unicode_1_1_utf_8 : Bytes
unicode_1_1_utf_8 =
    b'u' ∷ b'n' ∷ b'i' ∷ b'c' ∷ b'o' ∷ b'd' ∷ b'e' ∷ b'-' ∷ b'1' ∷ b'-' ∷ b'1' ∷ b'-' ∷ utf_8

unfoldable pub parse_encoding_label : Bytes → Option Encoding
parse_encoding_label label =
    let lower = ascii_lower_trim label in
    if same_bytes lower utf_8
      || (same_bytes lower (b'u' ∷ b't' ∷ b'f' ∷ b'8' ∷ []) || same_bytes lower unicode_1_1_utf_8)
    then some utf8
    else if same_bytes lower utf_16le || same_bytes lower utf_16
    then some utf16le
    else if same_bytes lower utf_16be
    then some utf16be
    else none

abbrev pub new_decoder : Encoding → DecoderOptions → Decoder
new_decoder encoding options = record {
  encoding = encoding;
  fatal = options.fatal;
  ignore_bom = options.ignore_bom;
  bom_seen = false;
  remainder = [];
}

-- `Decoder::create`; `none` is an unsupported label.
unfoldable pub create : Bytes → DecoderOptions → Option Decoder
create label options = elim (parse_encoding_label label) [
  | none ↦ none
  | some encoding ↦ some (new_decoder encoding options)
]

-- `Decoder::encoding`.
abbrev pub encoding_name : Encoding → Bytes
encoding_name utf8 = utf_8
encoding_name utf16le = utf_16le
encoding_name utf16be = utf_16be

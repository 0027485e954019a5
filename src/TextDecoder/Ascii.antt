-- ===== src/TextDecoder/Ascii.antt =====
-- Functions of ASCII that do what simdutf documents: an instance of the parameters.
use vacps.Prelude.{
  ℕ, suc, ◌/◌, ◌≤◌, ◌<◌, arith, [], ◌∷◌, Bool, true, false, Option, none, some, ltb, ◌==◌, ◌&&◌,
  if◌then◌else◌, if-split, subst, length, length-take,
}
use vacps.Process.State.{Bytes}
use vacps.TextDecoder.{
  Encoding, utf8, utf16le, utf16be, Units, Conversion, converted, error_at, Validation, success,
  other_error, Simdutf,
}
use vacps.TextDecoder.Repair.{IsDocumented}

abbrev one_later : Conversion → ℕ → Conversion
one_later (converted us) c = converted (c ∷ us)
one_later (error_at k) c = error_at (suc k)

abbrev convert_ascii : Bytes → Conversion
convert_ascii [] = converted []
convert_ascii (c ∷ cs) = if ltb c 128 then one_later (convert_ascii cs) c else error_at 0

abbrev is_ascii : Conversion → Bool
is_ascii (converted us) = true
is_ascii (error_at k) = false

abbrev validation : Conversion → Validation
validation (converted us) = success
validation (error_at k) = other_error

-- U+FFFD in UTF-8 for a unit that is not ASCII.
abbrev units_to_utf8 : Units → Bytes
units_to_utf8 [] = []
units_to_utf8 (u ∷ us) =
    let rest = units_to_utf8 us in if ltb u 128 then u ∷ rest else 239 ∷ 191 ∷ 189 ∷ rest

abbrev low_bytes : Bool → Bytes → Bytes
low_bytes true (a ∷ b ∷ rest) = a ∷ low_bytes true rest
low_bytes false (a ∷ b ∷ rest) = b ∷ low_bytes false rest
low_bytes _ _ = []

abbrev starts_with : Bytes → Bytes → Bool
starts_with [] cs = true
starts_with (m ∷ ms) [] = false
starts_with (m ∷ ms) (c ∷ cs) = m == c && starts_with ms cs

abbrev check_mark : Bytes → Option Encoding
check_mark chunk =
    if starts_with (239 ∷ 187 ∷ 191 ∷ []) chunk
    then some utf8
    else if starts_with (255 ∷ 254 ∷ []) chunk
    then some utf16le
    else if starts_with (254 ∷ 255 ∷ []) chunk
    then some utf16be
    else none

abbrev pub ascii : Simdutf
ascii = record {
  validate_utf8 = λ chunk. is_ascii (convert_ascii chunk);
  validate_utf8_with_errors = λ chunk. validation (convert_ascii chunk);
  convert_utf8_to_utf16_with_errors = convert_ascii;
  convert_utf8_to_utf16 = λ chunk. chunk;
  convert_units_to_utf8 = units_to_utf8;
  trim_partial_utf8 = λ chunk. length chunk;
  validate_utf16 = λ little_endian bytes. true;
  convert_utf16_to_utf8 = low_bytes;
  convert_utf16_with_replacement = low_bytes;
  trim_partial_utf16 = λ little_endian bytes. length bytes / 2;
  check_bom = check_mark;
  bom_byte_size = λ e. elim e [ utf8 ↦ 3 | _ ↦ 2 ];
}

-- What is documented of a conversion.
abbrev Fits : Bytes → Conversion → Type 0
Fits chunk (converted us) = length us ≤ length chunk
Fits chunk (error_at k) = k < length chunk

convert_ascii-Fits : (chunk : Bytes) → Fits chunk (convert_ascii chunk)
convert_ascii-Fits [] = omega arith
convert_ascii-Fits (c ∷ cs) =
    if-split (λ (v : Conversion). Fits (c ∷ cs) v) (ltb c 128) _ _
      (λ h. later (convert_ascii cs) (convert_ascii-Fits cs)) (λ h. omega arith)
  where
    later : (v : Conversion) → Fits cs v → Fits (c ∷ cs) (one_later v c)
    later (converted us) h = omega arith
    later (error_at k) h = omega arith

pub ascii-IsDocumented : IsDocumented ascii
ascii-IsDocumented = record {
  error_inside = λ chunk k e. subst (Fits chunk) e (convert_ascii-Fits chunk);
  units_fit = λ chunk us e. subst (Fits chunk) e (convert_ascii-Fits chunk);
  prefix_fit = λ chunk k e. omega (arith, length-take k chunk);
}

-- ===== src/TextDecoder/Convert.antt =====
-- `utf8_to_well_formed` and `utf16_bytes_to_utf8` of text/decoder.cpp.
use vacps.Prelude.{
  ℕ, zero, suc, ◌%◌, [], ◌∷◌, ◌++◌, Bool, not, Option, none, some, ltb, ◌==◌, if◌then◌else◌, length,
  take, drop,
}
use vacps.Process.State.{Bytes}
use vacps.TextDecoder.{
  Outcome, text, not_valid, odd_length, unfinished, Units, converted, error_at, Simdutf,
}

-- U+FFFD.
abbrev pub replacement : ℕ
replacement = 65533

abbrev pub prepend : Units → Option Units → Option Units
prepend us none = none
prepend us (some vs) = some (us ++ vs)

module _ (s : Simdutf) where
  -- The units in front of the error.
  abbrev pub good_part : ℕ → Bytes → Units
  good_part err_at chunk = if ltb 0 err_at then s.convert_utf8_to_utf16 (take err_at chunk) else []

  -- The loop on the bytes that are left; no result is a loop that is cut short.
  unfoldable pub replace_loop : ℕ → Bytes → Option Units
  replace_loop n [] = some []
  replace_loop zero (c ∷ cs) = none
  replace_loop (suc n) (c ∷ cs) = elim (s.convert_utf8_to_utf16_with_errors (c ∷ cs)) [
    | converted us ↦ some us
    | error_at k ↦
        prepend (good_part k (c ∷ cs) ++ replacement ∷ []) (replace_loop n (drop (suc k) (c ∷ cs)))
  ]

  abbrev pub from_units : Option Units → Outcome
  from_units none = unfinished
  from_units (some us) = text (s.convert_units_to_utf8 us)

  unfoldable pub utf8_to_well_formed : Bytes → Bool → Outcome
  utf8_to_well_formed input fatal =
      if length input == 0
      then text []
      else if s.validate_utf8 input
      then text input
      else if fatal
      then not_valid
      else from_units (replace_loop (length input) input)

  unfoldable pub utf16_bytes_to_utf8 : Bool → Bytes → Bool → Outcome
  utf16_bytes_to_utf8 little_endian bytes fatal =
      if length bytes == 0
      then text []
      else if not (length bytes % 2 == 0)
      then odd_length
      else if s.validate_utf16 little_endian bytes
      then text (s.convert_utf16_to_utf8 little_endian bytes)
      else if fatal
      then not_valid
      else text (s.convert_utf16_with_replacement little_endian bytes)

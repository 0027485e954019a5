-- ===== src/TextDecoder/Examples.antt =====
-- Tests of the model of the text decoder, and the theorems at concrete inputs.
use vacps.Prelude.{◌≡◌, refl, [], ◌∷◌, true, false, none, some, none_left, also}
use vacps.Process.State.{Bytes}
use vacps.CommandLine.Names.{same_bytes}
use vacps.TextDecoder.{
  utf8, utf16le, DecoderOptions, Decoder, text, not_valid, trim_front, trim_back, ascii_lower_trim,
  parse_encoding_label, new_decoder, create,
}
use vacps.TextDecoder.Convert.{replace_loop, utf8_to_well_formed, utf16_bytes_to_utf8}
use vacps.TextDecoder.Decode.{
  keep_utf8, keep_utf16, skip_bom_if, utf8_body, utf16_body, decode_data, decode, decode_all,
}
use vacps.TextDecoder.Repair.{IsWellFormed, utf8_to_well_formed-IsWellFormed}
use vacps.TextDecoder.Streamed.{IsStreamed, decode_all-IsStreamed}
use vacps.TextDecoder.Labels.{create-encoding_name}
use vacps.TextDecoder.Ascii.{ascii, ascii-IsDocumented}

abbrev lenient : DecoderOptions
lenient = record { fatal = false; ignore_bom = false }

abbrev utf8_decoder : Decoder
utf8_decoder = new_decoder utf8 lenient

abbrev bad_text : Bytes
bad_text = b'a' ∷ 200 ∷ b'b' ∷ []

abbrev utf8_mark : Bytes
utf8_mark = 239 ∷ 187 ∷ 191 ∷ []

bad_replaced : utf8_to_well_formed ascii bad_text false ≡ text (b'a' ∷ 239 ∷ 191 ∷ 189 ∷ b'b' ∷ [])
unfolding utf8_to_well_formed replace_loop
bad_replaced = refl

bad_refused : utf8_to_well_formed ascii bad_text true ≡ not_valid
unfolding utf8_to_well_formed
bad_refused = refl

-- A mark that is cut over two chunks is dropped.
cut_mark :
    decode_all ascii utf8_decoder ((239 ∷ 187 ∷ []) ∷ []) (191 ∷ b'a' ∷ [])
    ≡ text [] ∷ text (b'a' ∷ []) ∷ []
unfolding decode_all decode decode_data utf8_body keep_utf8 skip_bom_if utf8_to_well_formed
cut_mark = refl

-- Two whole texts in a row: the mark of the second is not dropped.
second_mark :
    (decode ascii ((decode ascii utf8_decoder utf8_mark false).decoder) utf8_mark false).result
    ≡ text (239 ∷ 191 ∷ 189 ∷ 239 ∷ 191 ∷ 189 ∷ 239 ∷ 191 ∷ 189 ∷ [])
unfolding decode decode_data utf8_body keep_utf8 skip_bom_if utf8_to_well_formed replace_loop
second_mark = refl

odd_end :
    decode_all ascii (new_decoder utf16le lenient) ((b'a' ∷ 0 ∷ b'b' ∷ []) ∷ []) (0 ∷ b'c' ∷ [])
    ≡ text (b'a' ∷ []) ∷ text (b'b' ∷ 239 ∷ 191 ∷ 189 ∷ []) ∷ []
unfolding decode_all decode decode_data utf16_body keep_utf16 skip_bom_if utf16_bytes_to_utf8
odd_end = refl

no_label : parse_encoding_label (b'x' ∷ []) ≡ none
unfolding parse_encoding_label ascii_lower_trim trim_front trim_back same_bytes
no_label = refl

utf8_to_well_formed-IsWellFormed_example :
    IsWellFormed ascii bad_text false (utf8_to_well_formed ascii bad_text false)
utf8_to_well_formed-IsWellFormed_example =
    utf8_to_well_formed-IsWellFormed ascii ascii-IsDocumented bad_text false

decode_all-IsStreamed_example :
    IsStreamed ascii utf8_decoder
      ((239 ∷ 187 ∷ []) ∷ (191 ∷ b'a' ∷ []) ∷ [])
      (b'b' ∷ [])
      (decode_all ascii utf8_decoder ((239 ∷ 187 ∷ []) ∷ (191 ∷ b'a' ∷ []) ∷ []) (b'b' ∷ []))
decode_all-IsStreamed_example =
    decode_all-IsStreamed ascii utf8_decoder ((239 ∷ 187 ∷ []) ∷ (191 ∷ b'a' ∷ []) ∷ []) (b'b' ∷ [])

create-encoding_name_example :
    create (b' ' ∷ b'U' ∷ b'T' ∷ b'F' ∷ b'-' ∷ b'8' ∷ 10 ∷ []) lenient ≡ some utf8_decoder
create-encoding_name_example =
    create-encoding_name utf8 (b' ' ∷ []) (b'U' ∷ b'T' ∷ b'F' ∷ b'-' ∷ b'8' ∷ []) (10 ∷ []) lenient
      (also refl none_left) (also refl none_left) refl

-- ===== src/TextDecoder/Decode.antt =====
-- `Decoder::decode` of text/decoder.cpp with what it holds back between the calls.
use vacps.Prelude.{
  ℕ, zero, suc, ◌+◌, ◌-◌, ◌*◌, ◌/◌, ◌%◌, List, [], ◌∷◌, ◌++◌, Bool, true, false, not, ◌&&◌, ◌||◌,
  Option, some, ltb, leb, ◌==◌, if◌then◌else◌, length, take, drop,
}
use vacps.Process.State.{Bytes}
use vacps.TextDecoder.{
  Encoding, utf8, utf16le, utf16be, Decoder, Outcome, text, not_valid, Validation, too_short,
  other_error, Simdutf,
}
use vacps.TextDecoder.Convert.{replacement, utf8_to_well_formed, utf16_bytes_to_utf8}

-- The result of a call and the decoder behind it.
pub record Turn : Type 0 where
  pub result : Outcome
  pub decoder : Decoder

abbrev pub is_expected : Encoding → Option Encoding → Bool
is_expected utf8 (some utf8) = true
is_expected utf16le (some utf16le) = true
is_expected utf16be (some utf16be) = true
is_expected _ _ = false

abbrev pub is_incomplete : Validation → Bool
is_incomplete (too_short n) = n == 0
is_incomplete _ = false

abbrev pub little : Encoding → Bool
little utf16be = false
little _ = true

-- The body of a UTF-16 chunk without its odd last byte, and this byte.
abbrev pub even_part : Bytes → Bytes
even_part body = if length body % 2 == 1 then take (length body - 1) body else body

abbrev pub odd_part : Bytes → Bytes
odd_part body = if length body % 2 == 1 then drop (length body - 1) body else []

module _ (s : Simdutf) where
  -- The loop over the last bytes for an incomplete suffix.
  unfoldable pub suffix_start : ℕ → ℕ → Bytes → ℕ
  suffix_start zero start chunk = length chunk
  suffix_start (suc n) start chunk =
      let later = suffix_start n (start + 1) chunk in
      if not (ltb start (length chunk))
      then length chunk
      else if is_incomplete (s.validate_utf8_with_errors (drop start chunk))
      then start
      else later

  abbrev pub keep_of : Validation → Bytes → ℕ
  keep_of other_error chunk =
      suffix_start 3 (if ltb 3 (length chunk) then length chunk - 3 else 0) chunk
  keep_of _ chunk = s.trim_partial_utf8 chunk

  -- `peel_utf8_stream_remainder`: how many bytes are not held back.
  unfoldable pub keep_utf8 : Bytes → ℕ
  keep_utf8 chunk =
      if length chunk == 0 then 0 else keep_of (s.validate_utf8_with_errors chunk) chunk

  -- `peel_utf16_stream_remainder`, whose branches all trim.
  unfoldable pub keep_utf16 : Bool → Bytes → ℕ
  keep_utf16 little_endian bytes =
      let keep_units = s.trim_partial_utf16 little_endian bytes in
      if leb 2 (length bytes) && ltb keep_units (length bytes / 2)
      then keep_units * 2
      else length bytes

  abbrev pub bom_size : Encoding → Bytes → ℕ
  bom_size expected chunk =
      if is_expected expected (s.check_bom chunk) then s.bom_byte_size expected else 0

  unfoldable pub skip_bom_if : Decoder → Bytes → ℕ
  skip_bom_if d chunk =
      if d.bom_seen
      then 0
      else if d.ignore_bom || length chunk == 0
      then 0
      else bom_size d.encoding chunk

  -- Too few bytes for a byte order mark, before one was looked for.
  abbrev pub awaits_bom : Decoder → Bytes → Bool
  awaits_bom d chunk = not d.bom_seen && ltb (length chunk) (s.bom_byte_size d.encoding)

  unfoldable pub utf8_body : Decoder → Bytes → Bool → Turn
  utf8_body d body stream =
      if stream && ltb 0 (length body)
      then record {
        result = utf8_to_well_formed s (take (keep_utf8 body) body) d.fatal;
        decoder = record d { remainder = drop (keep_utf8 body) body };
      }
      else record { result = utf8_to_well_formed s body d.fatal; decoder = d }

  abbrev pub append_replacement : Outcome → Outcome
  append_replacement (text t) = text (t ++ s.convert_units_to_utf8 (replacement ∷ []))
  append_replacement o = o

  -- The last call of a stream, with a byte that no unit has.
  abbrev pub odd_flush : Decoder → Bytes → Outcome
  odd_flush d body =
      if d.fatal
      then not_valid
      else append_replacement (utf16_bytes_to_utf8 s (little d.encoding) (even_part body) d.fatal)

  abbrev pub utf16_flush : Decoder → Bytes → Outcome
  utf16_flush d body =
      if length body % 2 == 1
      then odd_flush d body
      else utf16_bytes_to_utf8 s (little d.encoding) body d.fatal

  unfoldable pub utf16_body : Decoder → Bytes → Bool → Turn
  utf16_body d body stream =
      let bytes = even_part body in
      let keep = keep_utf16 (little d.encoding) bytes in
      if stream
      then record {
        result = utf16_bytes_to_utf8 s (little d.encoding) (take keep bytes) d.fatal;
        decoder = record d { remainder = drop keep bytes ++ odd_part body };
      }
      else record { result = utf16_flush d body; decoder = d }

  abbrev pub body_of : Decoder → Bytes → Bool → Turn
  body_of d body stream = elim d.encoding [
    | utf8 ↦ utf8_body d body stream
    | _ ↦ utf16_body d body stream
  ]

  -- `decode_utf8` and `decode_utf16` share what they do about the byte order mark.
  unfoldable pub decode_data : Decoder → Bytes → Bool → Turn
  decode_data d chunk stream =
      let seen = record d { bom_seen = true } in
      if awaits_bom d chunk
      then if stream
        then record { result = text []; decoder = record d { remainder = chunk } }
        else body_of seen chunk stream
      else body_of seen (drop (skip_bom_if d chunk) chunk) stream

  unfoldable pub decode : Decoder → Bytes → Bool → Turn
  decode d input stream = decode_data (record d { remainder = [] }) (d.remainder ++ input) stream

  -- The results of calls with `stream` set, one for each chunk, and of a last call that flushes.
  unfoldable pub decode_all : Decoder → List Bytes → Bytes → List Outcome
  decode_all d [] last = (decode d last false).result ∷ []
  decode_all d (chunk ∷ rest) last =
      let turn = decode d chunk true in turn.result ∷ decode_all turn.decoder rest last

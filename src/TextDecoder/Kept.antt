-- ===== src/TextDecoder/Kept.antt =====
-- One call of `Decoder::decode` loses no byte: what it drops, converts and holds back.
use vacps.Prelude.{
  ℕ, ◌-◌, ◌%◌, ◌≡◌, ◌⊎◌, inl, inr, refl, sym, ap, ◌∙◌, arith, [], ◌++◌, append-nil, append_assoc,
  Bool, true, false, not, ◌&&◌, ◌||◌, ltb, ◌==◌, if◌then◌else◌, if-split, length, take, drop,
  take-append-drop,
}
use vacps.Process.State.{Bytes}
use vacps.TextDecoder.{Encoding, utf8, utf16le, utf16be, Decoder, Outcome, text, Simdutf}
use vacps.TextDecoder.Convert.{utf8_to_well_formed, utf16_bytes_to_utf8}
use vacps.TextDecoder.Decode.{
  Turn, is_expected, little, even_part, odd_part, keep_utf8, keep_utf16, skip_bom_if, awaits_bom,
  utf8_body, utf16_flush, utf16_body, body_of, decode_data, decode,
}

-- The options of a decoder, which no call changes.
pub record SameOptions (d e : Decoder) : Type 0 where
  pub same_encoding : e.encoding ≡ d.encoding
  pub same_fatal : e.fatal ≡ d.fatal
  pub same_ignore_bom : e.ignore_bom ≡ d.ignore_bom

module _ (s : Simdutf) where
  -- What a segment is converted to, in a call with `stream` set and in one that flushes.
  unfoldable pub outcome_of : Decoder → Bool → Bytes → Outcome
  outcome_of d stream segment = elim d.encoding [
    | utf8 ↦ utf8_to_well_formed s segment d.fatal
    | _ ↦
        if stream
        then utf16_bytes_to_utf8 s (little d.encoding) segment d.fatal
        else utf16_flush s d segment
  ]

  -- Nothing, or the byte order mark of the decoder's encoding, by a decoder that looks for it.
  pub data BomOnly (d : Decoder) : Bytes → Type 0 where
    no_bom : BomOnly d []
    bom :
        (input : Bytes)
        → d.bom_seen ≡ false
        → d.ignore_bom ≡ false
        → is_expected d.encoding (s.check_bom input) ≡ true
        → BomOnly d (take (s.bom_byte_size d.encoding) input)

  -- A body without its byte order mark is converted and held back.
  record IsBodyKept (d : Decoder) (body : Bytes) (stream : Bool) (t : Turn) : Type 0 where
    segment : Bytes
    order : segment ++ t.decoder.remainder ≡ body
    answer : t.result ≡ outcome_of d stream segment
    options : SameOptions d t.decoder
    seen : t.decoder.bom_seen ≡ d.bom_seen
    flushed : stream ≡ false → t.decoder.remainder ≡ []

  -- The bytes of a call are in order those that it drops, converts and holds back.
  pub record IsKept (d : Decoder) (input : Bytes) (stream : Bool) (t : Turn) : Type 0 where
    pub dropped : Bytes
    pub segment : Bytes
    pub order : dropped ++ (segment ++ t.decoder.remainder) ≡ input
    pub answer : t.result ≡ outcome_of d stream segment
    pub options : SameOptions d t.decoder
    pub bom_only : BomOnly d dropped
    pub seen : d.bom_seen ≡ true → t.decoder.bom_seen ≡ true
    pub quiet : t.decoder.bom_seen ≡ false → (dropped ≡ []) × (segment ≡ [])
    pub flushed : stream ≡ false → t.decoder.remainder ≡ []

  same : (d : Decoder) → SameOptions d d
  same d = record { same_encoding = refl; same_fatal = refl; same_ignore_bom = refl }

  utf8_body-IsBodyKept :
      (d : Decoder) (body : Bytes) (stream : Bool)
      → d.encoding ≡ utf8
      → d.remainder ≡ []
      → IsBodyKept d body stream (utf8_body s d body stream)
  unfolding utf8_body outcome_of
  utf8_body-IsBodyKept d body stream e r =
      if-split (IsBodyKept d body stream) (stream && ltb 0 (length body)) _ _
        (λ h. record {
          segment = take (keep_utf8 s body) body;
          order = take-append-drop (keep_utf8 s body) body;
          answer = answers (take (keep_utf8 s body) body);
          options = record { same_encoding = refl; same_fatal = refl; same_ignore_bom = refl };
          seen = refl;
          flushed = λ f. absurd (streams stream (ltb 0 (length body)) h f);
        })
        (λ h. record {
          segment = body;
          order = ap (λ (m : Bytes). body ++ m) r ∙ append-nil body;
          answer = answers body;
          options = same d;
          seen = refl;
          flushed = λ f. r;
        })
    where
      answers :
          (segment : Bytes)
          → utf8_to_well_formed s segment d.fatal ≡ (elim d.encoding [
            | utf8 ↦ utf8_to_well_formed s segment d.fatal
            | _ ↦
                if stream
                then utf16_bytes_to_utf8 s (little d.encoding) segment d.fatal
                else utf16_flush s d segment
          ])
      answers segment = rw e refl

      streams : (a b : Bool) → (a && b) ≡ true → a ≡ false → ⊥
      streams a b h f = ground arith

  even-odd :
      (b : Bool) (n : ℕ) (body : Bytes)
      → (if b then take n body else body) ++ (if b then drop n body else []) ≡ body
  even-odd true n body = take-append-drop n body
  even-odd false n body = append-nil body

  abbrev IsUtf16 : Encoding → Type 0
  IsUtf16 e = (e ≡ utf16le) ⊎ (e ≡ utf16be)

  utf16_answers :
      (d : Decoder) (stream : Bool) (segment : Bytes)
      → IsUtf16 d.encoding
      → (if stream
          then utf16_bytes_to_utf8 s (little d.encoding) segment d.fatal
          else utf16_flush s d segment)
        ≡ outcome_of d stream segment
  unfolding outcome_of
  utf16_answers d stream segment (inl e) = rw e refl
  utf16_answers d stream segment (inr e) = rw e refl

  utf16_body-IsBodyKept :
      (d : Decoder) (body : Bytes) (stream : Bool)
      → IsUtf16 d.encoding
      → d.remainder ≡ []
      → IsBodyKept d body stream (utf16_body s d body stream)
  unfolding utf16_body
  utf16_body-IsBodyKept d body true e r =
      let keep = keep_utf16 s (little d.encoding) (even_part body) in
      record {
        segment = take keep (even_part body);
        order =
            sym (
              append_assoc (take keep (even_part body)) (drop keep (even_part body))
                (odd_part body))
            ∙ (ap (λ (p : Bytes). p ++ odd_part body) (take-append-drop keep (even_part body))
                ∙ even-odd (length body % 2 == 1) (length body - 1) body);
        answer = utf16_answers d true (take keep (even_part body)) e;
        options = record { same_encoding = refl; same_fatal = refl; same_ignore_bom = refl };
        seen = refl;
        flushed = λ f. absurd (cc);
      }
  utf16_body-IsBodyKept d body false e r = record {
    segment = body;
    order = ap (λ (m : Bytes). body ++ m) r ∙ append-nil body;
    answer = utf16_answers d false body e;
    options = same d;
    seen = refl;
    flushed = λ f. r;
  }

  body_of-IsBodyKept :
      (d : Decoder) (body : Bytes) (stream : Bool)
      → d.remainder ≡ []
      → IsBodyKept d body stream (body_of s d body stream)
  body_of-IsBodyKept d body stream r = by_encoding d.encoding refl
    where
      by_encoding :
          (e : Encoding)
          → d.encoding ≡ e
          → IsBodyKept d body stream
              (elim e [ utf8 ↦ utf8_body s d body stream | _ ↦ utf16_body s d body stream ])
      by_encoding utf8 h = utf8_body-IsBodyKept d body stream h r
      by_encoding utf16le h = utf16_body-IsBodyKept d body stream (inl h) r
      by_encoding utf16be h = utf16_body-IsBodyKept d body stream (inr h) r

  -- What the mark is in front of the body.
  skip_bom_if-BomOnly :
      (d : Decoder) (input : Bytes) → BomOnly d (take (skip_bom_if s d input) input)
  unfolding skip_bom_if
  skip_bom_if-BomOnly d input =
      if-split P d.bom_seen _ _ (λ h. no_bom)
        (λ h.
          if-split P (d.ignore_bom || length input == 0) _ _ (λ g. no_bom)
            (λ g.
              if-split P (is_expected d.encoding (s.check_bom input)) _ _
                (λ e. bom input h (looks d.ignore_bom (length input == 0) g) e) (λ e. no_bom)))
    where
      P : ℕ → Type 0
      P n = BomOnly d (take n input)

      looks : (a b : Bool) → (a || b) ≡ false → a ≡ false
      looks a b g = ground arith

  behind_bom :
      (d : Decoder) (input : Bytes) (n : ℕ) (stream : Bool)
      → d.remainder ≡ []
      → BomOnly d (take n input)
      → IsKept d input stream (body_of s (record d { bom_seen = true }) (drop n input) stream)
  behind_bom d input n stream r b =
      let seen : Decoder = record d { bom_seen = true } in
      let k = body_of-IsBodyKept seen (drop n input) stream r in
      record {
        dropped = take n input;
        segment = k.segment;
        order = ap (λ (m : Bytes). take n input ++ m) k.order ∙ take-append-drop n input;
        answer = unfold outcome_of in k.answer;
        options = record {
          same_encoding = k.options.same_encoding;
          same_fatal = k.options.same_fatal;
          same_ignore_bom = k.options.same_ignore_bom;
        };
        bom_only = b;
        seen = λ h. k.seen;
        quiet = λ h. absurd (clash (k.seen) h);
        flushed = k.flushed;
      }
    where
      clash : {b : Bool} → b ≡ true → b ≡ false → ⊥
      clash h g = cc

  held_back :
      (d : Decoder) (input : Bytes)
      → d.bom_seen ≡ false
      → IsKept d input true (record { result = text []; decoder = record d { remainder = input } })
  unfolding outcome_of utf8_to_well_formed utf16_bytes_to_utf8
  held_back d input h = record {
    dropped = [];
    segment = [];
    order = refl;
    answer = silent d.encoding refl;
    options = record { same_encoding = refl; same_fatal = refl; same_ignore_bom = refl };
    bom_only = no_bom;
    seen = λ g. absurd (cc);
    quiet = λ g. (refl, refl);
    flushed = λ f. absurd (cc);
  }
    where
      silent : (e : Encoding) → d.encoding ≡ e → text [] ≡ outcome_of d true []
      silent utf8 e = unfold outcome_of utf8_to_well_formed in rw e refl
      silent utf16le e = unfold outcome_of utf16_bytes_to_utf8 in rw e refl
      silent utf16be e = unfold outcome_of utf16_bytes_to_utf8 in rw e refl

  awaiting :
      (d : Decoder) (input : Bytes) (stream : Bool)
      → d.remainder ≡ []
      → d.bom_seen ≡ false
      → IsKept d input stream (
          if stream
          then record { result = text []; decoder = record d { remainder = input } }
          else body_of s (record d { bom_seen = true }) input stream)
  awaiting d input true r h = held_back d input h
  awaiting d input false r h = behind_bom d input 0 false r no_bom

  decode_data-IsKept :
      (d : Decoder) (input : Bytes) (stream : Bool)
      → d.remainder ≡ []
      → IsKept d input stream (decode_data s d input stream)
  unfolding decode_data
  decode_data-IsKept d input stream r =
      if-split (IsKept d input stream) (awaits_bom s d input) _ _
        (λ h. awaiting d input stream r (not_seen d.bom_seen (ltb (length input) _) h))
        (λ h. behind_bom d input (skip_bom_if s d input) stream r (skip_bom_if-BomOnly d input))
    where
      not_seen : (a b : Bool) → (not a && b) ≡ true → a ≡ false
      not_seen a b h = ground arith

  pub decode-IsKept :
      (d : Decoder) (input : Bytes) (stream : Bool)
      → IsKept (record d { remainder = [] }) (d.remainder ++ input) stream (decode s d input stream)
  unfolding decode
  decode-IsKept d input stream =
      decode_data-IsKept (record d { remainder = [] }) (d.remainder ++ input) stream refl

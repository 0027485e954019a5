-- ===== src/TextDecoder/Streamed.antt =====
-- A stream of calls of `Decoder::decode` with a last call that flushes.
use vacps.Prelude.{
  ℕ, suc, ◌≡◌, ◌⊎◌, inl, inr, refl, sym, ap, subst, ◌∙◌, List, [], ◌∷◌, ◌++◌, append-nil,
  append_assoc, map, Bool, true, false, Bool-cases, length, take,
}
use vacps.Process.State.{Bytes}
use vacps.TextDecoder.{Decoder, Outcome, Simdutf}
use vacps.TextDecoder.Decode.{Turn, is_expected, decode, decode_all}
use vacps.TextDecoder.Kept.{SameOptions, outcome_of, BomOnly, no_bom, bom, IsKept, decode-IsKept}

unfoldable pub concat : List Bytes → Bytes
concat [] = []
concat (xs ∷ rest) = xs ++ concat rest

-- The bytes held back so far, of all chunks and of the last call are, in order, at most a byte
-- order mark, a segment for each chunk and a last segment, and the results are what these
-- segments are converted to.
pub record IsStreamed (s : Simdutf) (d : Decoder) (chunks : List Bytes) (last : Bytes)
    (results : List Outcome) : Type 0 where
  pub dropped : Bytes
  pub segments : List Bytes
  pub final : Bytes
  pub order : dropped ++ (concat segments ++ final) ≡ d.remainder ++ (concat chunks ++ last)
  pub answers : results ≡ map (outcome_of s d true) segments ++ outcome_of s d false final ∷ []
  pub one_each : length segments ≡ length chunks
  pub bom_only : BomOnly s d dropped

in_order :
    (a b m r k c f c' l : Bytes)
    → a ++ (b ++ m) ≡ r ++ k
    → c ++ f ≡ m ++ (c' ++ l)
    → a ++ ((b ++ c) ++ f) ≡ r ++ ((k ++ c') ++ l)
in_order a b m r k c f c' l h g =
    ap (λ (x : Bytes). a ++ x) (append_assoc b c f ∙ ap (λ (x : Bytes). b ++ x) g)
    ∙ (ap (λ (x : Bytes). a ++ x) (sym (append_assoc b m (c' ++ l)))
        ∙ (sym (append_assoc a (b ++ m) (c' ++ l))
            ∙ (ap (λ (x : Bytes). x ++ (c' ++ l)) h
                ∙ (append_assoc r k (c' ++ l)
                    ∙ ap (λ (x : Bytes). r ++ x) (sym (append_assoc k c' l))))))

module _ (s : Simdutf) where
  outcome_of-SameOptions :
      (d e : Decoder)
      → SameOptions d e
      → (stream : Bool) → outcome_of s e stream ≡ outcome_of s d stream
  unfolding outcome_of
  outcome_of-SameOptions d e o stream = λ i segment.
      outcome_of s (record d { encoding = o.same_encoding i; fatal = o.same_fatal i }) stream
        segment

  BomOnly-SameOptions :
      (d e : Decoder) (p : Bytes)
      → SameOptions d e
      → (d.bom_seen ≡ true → e.bom_seen ≡ true)
      → BomOnly s e p
      → BomOnly s d p
  BomOnly-SameOptions d e _ o seen no_bom = no_bom
  BomOnly-SameOptions d e _ o seen (bom input g h b) =
      subst (λ (n : ℕ). BomOnly s d (take n input)) (ap s.bom_byte_size (sym o.same_encoding))
        (bom input (unseen (Bool-cases d.bom_seen)) (sym o.same_ignore_bom ∙ h)
          (ap (λ x. is_expected x (s.check_bom input)) (sym o.same_encoding) ∙ b))
    where
      unseen : (d.bom_seen ≡ true) ⊎ (d.bom_seen ≡ false) → d.bom_seen ≡ false
      unseen (inl t) = absurd (cc (seen t))
      unseen (inr f) = f

  seen-BomOnly : (d : Decoder) (p : Bytes) → d.bom_seen ≡ true → BomOnly s d p → p ≡ []
  seen-BomOnly d _ h no_bom = refl
  seen-BomOnly d _ h (bom input g i b) = absurd (cc)

  -- The results of the calls behind a turn are read with the options of the decoder before it.
  later_answers :
      (d e : Decoder) (segments : List Bytes) (final : Bytes) (results : List Outcome)
      → SameOptions d e
      → results ≡ map (outcome_of s e true) segments ++ outcome_of s e false final ∷ []
      → results ≡ map (outcome_of s d true) segments ++ outcome_of s d false final ∷ []
  later_answers d e segments final results o h = h ∙ (λ i.
      map (outcome_of-SameOptions d e o true i) segments
      ++ outcome_of-SameOptions d e o false i final ∷ [])

  module _ (d : Decoder) (chunk : Bytes) (rest : List Bytes) (last : Bytes) (t : Turn)
      (results : List Outcome)
      (k : IsKept s (record d { remainder = [] }) (d.remainder ++ chunk) true t)
      (i : IsStreamed s t.decoder rest last results) where
    options : SameOptions d t.decoder
    options = record {
      same_encoding = k.options.same_encoding;
      same_fatal = k.options.same_fatal;
      same_ignore_bom = k.options.same_ignore_bom;
    }

    all_answers :
        t.result ∷ results
        ≡ map (outcome_of s d true) (k.segment ∷ i.segments) ++ outcome_of s d false i.final ∷ []
    unfolding outcome_of
    all_answers =
        λ j. k.answer j ∷ later_answers d t.decoder i.segments i.final results options i.answers j

    -- The mark was looked for in this turn or before it.
    behind_mark :
        t.decoder.bom_seen ≡ true → IsStreamed s d (chunk ∷ rest) last (t.result ∷ results)
    unfolding concat
    behind_mark h = record {
      dropped = k.dropped;
      segments = k.segment ∷ i.segments;
      final = i.final;
      order =
          in_order k.dropped k.segment t.decoder.remainder d.remainder chunk (concat i.segments)
            i.final (concat rest) last k.order
            (ap (λ (x : Bytes). x ++ (concat i.segments ++ i.final))
                (sym (seen-BomOnly t.decoder i.dropped h i.bom_only))
              ∙ i.order);
      answers = all_answers;
      one_each = ap suc i.one_each;
      bom_only =
          BomOnly-SameOptions d (record d { remainder = [] }) k.dropped
            (record { same_encoding = refl; same_fatal = refl; same_ignore_bom = refl }) (λ g. g)
            k.bom_only;
    }

    -- Everything is held back.
    before_mark :
        t.decoder.bom_seen ≡ false → IsStreamed s d (chunk ∷ rest) last (t.result ∷ results)
    unfolding concat
    before_mark h =
        let (no_drop, no_segment) = k.quiet h in
        let held : t.decoder.remainder ≡ d.remainder ++ chunk =
          (λ j. sym no_drop j ++ (sym no_segment j ++ t.decoder.remainder)) ∙ k.order in
        record {
          dropped = i.dropped;
          segments = k.segment ∷ i.segments;
          final = i.final;
          order =
              ap (λ (x : Bytes). i.dropped ++ ((x ++ concat i.segments) ++ i.final)) no_segment
              ∙ (i.order
                  ∙ (ap (λ (x : Bytes). x ++ (concat rest ++ last)) held
                      ∙ (append_assoc d.remainder chunk (concat rest ++ last)
                          ∙ ap (λ (x : Bytes). d.remainder ++ x)
                              (sym (append_assoc chunk (concat rest) last)))));
          answers = all_answers;
          one_each = ap suc i.one_each;
          bom_only = BomOnly-SameOptions d t.decoder i.dropped options k.seen i.bom_only;
        }

    next_turn : IsStreamed s d (chunk ∷ rest) last (t.result ∷ results)
    next_turn = by_mark (Bool-cases t.decoder.bom_seen)
      where
        by_mark :
            (t.decoder.bom_seen ≡ true) ⊎ (t.decoder.bom_seen ≡ false)
            → IsStreamed s d (chunk ∷ rest) last (t.result ∷ results)
        by_mark (inl h) = behind_mark h
        by_mark (inr h) = before_mark h

  last_turn :
      (d : Decoder) (last : Bytes) (t : Turn)
      → IsKept s (record d { remainder = [] }) (d.remainder ++ last) false t
      → IsStreamed s d [] last (t.result ∷ [])
  unfolding concat outcome_of
  last_turn d last t k = record {
    dropped = k.dropped;
    segments = [];
    final = k.segment;
    order =
        ap (λ (x : Bytes). k.dropped ++ x)
          (sym (append-nil k.segment) ∙ ap (λ (x : Bytes). k.segment ++ x) (sym (k.flushed refl)))
        ∙ k.order;
    answers = ap (λ (x : Outcome). x ∷ []) k.answer;
    one_each = refl;
    bom_only =
        BomOnly-SameOptions d (record d { remainder = [] }) k.dropped
          (record { same_encoding = refl; same_fatal = refl; same_ignore_bom = refl }) (λ g. g)
          k.bom_only;
  }

  -- However the bytes of a text are cut into the chunks of calls with `stream` set and of a last
  -- call that flushes, none is lost, doubled or reordered: the decoder's remainder and all the
  -- chunks are, in order, at most a byte order mark that it looks for, one segment for each call,
  -- and the results are what these segments are converted to.
  pub decode_all-IsStreamed :
      (d : Decoder) (chunks : List Bytes) (last : Bytes)
      → IsStreamed s d chunks last (decode_all s d chunks last)
  unfolding decode_all
  decode_all-IsStreamed d [] last =
      last_turn d last (decode s d last false) (decode-IsKept s d last false)
  decode_all-IsStreamed d (chunk ∷ rest) last =
      let t = decode s d chunk true in
      next_turn d chunk rest last t (decode_all s t.decoder rest last)
        (decode-IsKept s d chunk true) (decode_all-IsStreamed t.decoder rest last)

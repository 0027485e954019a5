-- ===== src/Process/Reading/Parts.antt =====
-- A round of `collect` that passes a chunk, and one that copies from it.
use vacps.Prelude.{
  ℕ, ◌+◌, ◌-◌, ◌≤◌, ◌<◌, ◌≡◌, inl, inr, refl, ap, ◌∙◌, sym, List, [], ◌∷◌, ◌++◌, append_assoc,
  append-nil, min, arith, length, take, drop, length-take, length-drop, length-append, lt→ltb,
  le→ltb, dec_lt,
}
use vacps.Process.State.{ChunkRef, Capture}
use vacps.Process.Capture.{acc_of}
use vacps.Process.Reading.{OutputCursor, ReadResult, start_of, cursor_after}
use vacps.Process.Reading.Log.{
  Log, tag, chunk_log, remaining, delivered, AreChunks, AreChunks-le, StandsBefore,
  delivered-append, length-tag, remaining-before,
}
use vacps.Process.Reading.Steps.{
  Reads, Passes, part, chunk_log-split, length-chunk_log, remaining-at,
}

chunk_log-done : (c : Capture) (k : ChunkRef) (i : ℕ) → k.size ≤ i → chunk_log c i k ≡ []
unfolding chunk_log
chunk_log-done c k i h =
    ap (λ (n : ℕ). tag k.stream (take n (drop (k.stream_offset + i) (acc_of k.stream c))))
      {x = k.size - i} {y = 0} (omega arith)

-- A chunk of a well-formed list, and a cursor that is not behind it.
module _ (c : Capture) (max_bytes first next : ℕ) (k : ChunkRef) (ks : List ChunkRef)
    (r : ReadResult) (h : AreChunks c first next (k ∷ ks))
    (before : r.next_cursor.sequence ≤ k.sequence) (fits : r.returned_bytes ≤ max_bytes) where
  abbrev pub at : ℕ
  at = start_of r.next_cursor k

  abbrev pub taken : ℕ
  taken = min (k.size - at) (max_bytes - r.returned_bytes)

  abbrev pub text : List ℕ
  text = take taken (drop (k.stream_offset + at) (acc_of k.stream c))

  abbrev pub result : ReadResult
  result = part c max_bytes k ks r

  remaining-rest :
      (cursor : OutputCursor)
      → StandsBefore cursor (first + 1)
      → remaining c cursor ks ≡ remaining c r.next_cursor ks
  remaining-rest cursor s =
      remaining-before c cursor r.next_cursor (first + 1) next ks h.3 s (inl (omega arith))

  first_le : first + 1 ≤ next
  first_le = AreChunks-le c (first + 1) next ks h.3

  after_placed : StandsBefore (cursor_after k) next
  after_placed = elim (dec_lt (first + 1) next) [
    | yes p ↦ inl (omega arith)
    | no p ↦ inr (omega (arith, first_le), refl)
  ]

  after_chunk : remaining c (cursor_after k) ks ≡ remaining c r.next_cursor ks
  after_chunk = remaining-rest (cursor_after k) (inr (omega arith, refl))

  pub Passes-pass :
      k.size ≤ at → Passes c max_bytes next k ks r (record r { next_cursor = cursor_after k })
  Passes-pass e = record {
    joined = ap (◌++◌ (delivered r.chunks)) (
        after_chunk
        ∙ sym (
            remaining-at c r.next_cursor k ks before
            ∙ ap (λ l. l ++ remaining c r.next_cursor ks) (chunk_log-done c k at e)));
    grown = refl;
    more = omega arith;
    fits = fits;
    past = omega arith;
    forward = omega arith;
    same_exit = refl;
    placed = λ _. after_placed;
  }

  length-text : at ≤ k.size → length text ≡ taken
  length-text e = omega (
    arith,
    length-take taken (drop (k.stream_offset + at) (acc_of k.stream c)),
    length-drop (k.stream_offset + at) (acc_of k.stream c),
  )

  delivered-result : delivered result.chunks ≡ delivered r.chunks ++ tag k.stream text
  delivered-result =
      delivered-append r.chunks _
      ∙ ap (◌++◌ (delivered r.chunks)) (unfold delivered in append-nil (tag k.stream text))

  grown-result :
      at ≤ k.size
      → length (delivered result.chunks) + r.returned_bytes
        ≡ length (delivered r.chunks) + result.returned_bytes
  grown-result e = omega (
    arith,
    ap length delivered-result,
    length-append (delivered r.chunks) (tag k.stream text),
    length-tag k.stream text,
    length-text e,
  )

  -- What was copied, and the chunk from there on, are the chunk from the cursor on.
  rejoined :
      at ≤ k.size
      → (rest : Log) → rest ≡ remaining c r.next_cursor ks
      → delivered result.chunks ++ (chunk_log c (at + taken) k ++ rest)
        ≡ delivered r.chunks ++ remaining c r.next_cursor (k ∷ ks)
  rejoined e rest p =
      let cut : tag k.stream text ++ chunk_log c (at + taken) k ≡ chunk_log c at k =
        chunk_log-split c k at taken (omega arith) in
      ap (λ l. l ++ (chunk_log c (at + taken) k ++ rest)) delivered-result
      ∙ append_assoc (delivered r.chunks) (tag k.stream text) _
      ∙ ap (◌++◌ (delivered r.chunks)) (
          sym (append_assoc (tag k.stream text) (chunk_log c (at + taken) k) rest)
          ∙ ap (λ l. l ++ rest) cut
          ∙ ap (◌++◌ (chunk_log c at k)) p
          ∙ sym (remaining-at c r.next_cursor k ks before))

  pub Passes-part : at < k.size → k.size ≤ at + taken → Passes c max_bytes next k ks r result
  Passes-part e all =
      let behind : result.next_cursor ≡ cursor_after k = rw (le→ltb (at + taken) k.size all) in
      record {
        joined = rw behind (
            ap (◌++◌ (delivered result.chunks)) (
              sym (
                ap (λ l. l ++ remaining c (cursor_after k) ks)
                  (chunk_log-done c k (at + taken) all)))
            ∙ rejoined (omega arith) (remaining c (cursor_after k) ks) after_chunk);
        grown = grown-result (omega arith);
        more = omega arith;
        fits = omega arith;
        past = rw behind (omega arith);
        forward = rw behind (omega arith);
        same_exit = refl;
        placed = λ _. rw behind after_placed;
      }

  pub Reads-part : at < k.size → at + taken < k.size → Reads c max_bytes next (k ∷ ks) r result
  Reads-part e inside =
      let here : OutputCursor = record { sequence = k.sequence; byte_offset = at + taken } in
      let behind : result.next_cursor ≡ here = rw (lt→ltb (at + taken) k.size inside) in
      let place : remaining c here (k ∷ ks) ≡ chunk_log c (at + taken) k ++ remaining c here ks =
        remaining-at c here k ks (omega arith)
        ∙ ap (λ (i : ℕ). chunk_log c i k ++ remaining c here ks) {x = start_of here k}
            (ground arith) in
      let long : length (remaining c r.next_cursor (k ∷ ks))
          ≡ k.size - at + length (remaining c r.next_cursor ks) =
        ap length (remaining-at c r.next_cursor k ks before)
        ∙ length-append (chunk_log c at k) (remaining c r.next_cursor ks)
        ∙ ap (λ (n : ℕ). n + length (remaining c r.next_cursor ks)) (length-chunk_log c k at h.2) in
      record {
        kept = rw behind (
            ap (◌++◌ (delivered result.chunks)) place
            ∙ rejoined (omega arith) (remaining c here ks)
                (remaining-rest here (inl (omega arith))));
        counted = omega (arith, long);
        sized = grown-result (omega arith);
        forward = rw behind (omega arith);
        same_exit = refl;
        placed = λ _. rw behind (inl (omega (arith, first_le)));
      }

-- ===== src/Process/Reading/Exact.antt =====
-- `collect` returns the next bytes of the log, as many as fit, and the cursor behind them.
use mathlib.Core.Option
use vacps.Prelude.{
  ℕ, ◌+◌, ◌≤◌, ◌≡◌, refl, ap, ◌∙◌, sym, List, [], ◌∷◌, ◌++◌, min, arith, ltb, leb, if◌then◌else◌,
  length, length-append, some, le→leb, lt→leb, not, ◌&&◌, dec_lt, dec_le,
}
use vacps.Process.State.{ChunkRef, Capture, World}
use vacps.Process.Reading.{
  OutputCursor, ReadResult, ReadOptions, start_of, collect_loop, collect, start_reading, has_unread,
}
use vacps.Process.Reading.Log.{chunk_log, remaining, delivered, AreChunks, StandsBefore}
use vacps.Process.Reading.Steps.{
  Reads, Passes, part, remaining-past, length-chunk_log, Reads-stop, Reads-passed, loop-skip,
  loop-pass, loop-full, loop-part,
}
use vacps.Process.Reading.Parts.{Passes-pass, Passes-part, Reads-part, taken}

abbrev Outcome : Capture → ℕ → ℕ → List ChunkRef → ReadResult → Type 0
Outcome c max_bytes next ks r =
    (r' : ReadResult) × (collect_loop c max_bytes ks r ≡ some r') × Reads c max_bytes next ks r r'

-- From a round that passes a chunk, and the run over the rest.
Outcome-passed :
    (c : Capture) (max_bytes next : ℕ) (k : ChunkRef) (ks : List ChunkRef) (r s : ReadResult)
    → collect_loop c max_bytes (k ∷ ks) r ≡ collect_loop c max_bytes ks s
    → Passes c max_bytes next k ks r s
    → Outcome c max_bytes next ks s
    → Outcome c max_bytes next (k ∷ ks) r
Outcome-passed c max_bytes next k ks r s e p (t, f, q) =
    (t, e ∙ f, Reads-passed c max_bytes next k ks r s t p q)

-- From a cursor that is not behind the first chunk.
Outcome-here :
    (c : Capture) (max_bytes first next : ℕ) (k : ChunkRef) (ks : List ChunkRef) (r : ReadResult)
    → AreChunks c first next (k ∷ ks)
    → r.next_cursor.sequence ≤ k.sequence
    → r.returned_bytes ≤ max_bytes
    → ((s : ReadResult) → s.returned_bytes ≤ max_bytes → Outcome c max_bytes next ks s)
    → Outcome c max_bytes next (k ∷ ks) r
Outcome-here c max_bytes first next k ks r h before fits rest =
    elim (dec_le k.size (start_of r.next_cursor k)) [
      | yes done ↦
          Outcome-passed c max_bytes next k ks r _ (loop-pass c max_bytes k ks r before done)
            (Passes-pass c max_bytes first next k ks r h before fits done) (rest _ fits)
      | no left ↦ elim (dec_le max_bytes r.returned_bytes) [
        | yes full ↦ (
          r,
          loop-full c max_bytes k ks r before (omega arith) full,
          Reads-stop c max_bytes next (k ∷ ks) r full,
        )
        | no room ↦
            let result : ReadResult = part c max_bytes k ks r in
            let step : collect_loop c max_bytes (k ∷ ks) r ≡ (
                if leb max_bytes result.returned_bytes
                then some result
                else collect_loop c max_bytes ks result) =
              loop-part c max_bytes k ks r before (omega arith) (omega arith) h.2 in
            elim (dec_le k.size
              (start_of r.next_cursor k + taken c max_bytes first next k ks r h before fits)) [
                | yes all ↦
                    let passed : Passes c max_bytes next k ks r result =
                      Passes-part c max_bytes first next k ks r h before fits (omega arith) all in
                    elim (dec_le max_bytes result.returned_bytes) [
                      | yes enough ↦ (
                        result,
                        step ∙ rw (le→leb _ _ enough),
                        Reads-passed c max_bytes next k ks r result result passed
                            (Reads-stop c max_bytes next ks result enough),
                      )
                      | no more ↦
                          Outcome-passed c max_bytes next k ks r result
                            (step ∙ rw (lt→leb max_bytes result.returned_bytes (omega arith)))
                            passed (rest result passed.fits)
                    ]
                | no inside ↦ (
                  result,
                  step ∙ rw (le→leb max_bytes result.returned_bytes (omega arith)),
                  Reads-part c max_bytes first next k ks r h before fits (omega arith)
                      (omega arith),
                )
              ]
      ]
    ]

loop-Outcome :
    (c : Capture) (max_bytes first next : ℕ) (ks : List ChunkRef) (r : ReadResult)
    → AreChunks c first next ks
    → r.returned_bytes ≤ max_bytes
    → Outcome c max_bytes next ks r
loop-Outcome c max_bytes first next [] r h fits = (
  r,
  unfold collect_loop in refl,
  record {
    kept = refl;
    counted = unfold remaining in omega arith;
    sized = refl;
    forward = omega arith;
    same_exit = refl;
    placed = λ p. p;
  },
)
loop-Outcome c max_bytes first next (k ∷ ks) r h fits =
    let rest = loop-Outcome c max_bytes (first + 1) next ks in
    elim (dec_lt k.sequence r.next_cursor.sequence) [
      | yes behind ↦
          Outcome-passed c max_bytes next k ks r r (loop-skip c max_bytes k ks r behind)
            (record {
              joined =
                  ap (◌++◌ (delivered r.chunks)) (sym (remaining-past c r.next_cursor k ks behind));
              grown = refl;
              more = omega arith;
              fits = fits;
              past = behind;
              forward = omega arith;
              same_exit = refl;
              placed = λ p. p;
            })
            (rest r h.3 fits)
      | no ahead ↦
          Outcome-here c max_bytes first next k ks r h (omega arith) fits (λ s p. rest s h.3 p)
    ]

-- `has_unread` tells whether the log goes on behind the cursor.
has_unread_lem :
    (c : Capture) (cursor : OutputCursor) (first next : ℕ) (ks : List ChunkRef)
    → AreChunks c first next ks
    → has_unread cursor ks ≡ ltb 0 (length (remaining c cursor ks))
unfolding has_unread remaining
has_unread_lem c cursor first next [] h = refl
has_unread_lem c cursor first next (k ∷ ks) h = ground (
  arith,
  has_unread_lem c cursor (first + 1) next ks h.3,
  length-chunk_log c k (start_of cursor k) h.2,
  length-append (chunk_log c (start_of cursor k) k) (remaining c cursor ks),
)

-- The chunks of a capture are numbered up to `next_sequence` and lie inside its buffers.
pub record IsStored (c : Capture) : Type 0 where
  pub first : ℕ
  pub stored : AreChunks c first c.next_sequence c.chunks

-- What one call of `collect` tells of the log behind the caller's cursor.
pub record Collected (w : World) (options : ReadOptions) (r : ReadResult) : Type 0 where
  pub kept :
      delivered r.chunks ++ remaining w.capture r.next_cursor w.chunks
      ≡ remaining w.capture options.cursor w.chunks
  pub counted :
      r.returned_bytes
      ≡ min options.max_bytes (length (remaining w.capture options.cursor w.chunks))
  pub sized : length (delivered r.chunks) ≡ r.returned_bytes
  pub at_end :
      r.eof ≡ (w.finished && not (ltb 0 (length (remaining w.capture r.next_cursor w.chunks))))
  pub placed :
      StandsBefore options.cursor w.next_sequence → StandsBefore r.next_cursor w.next_sequence
  pub forward : options.cursor.sequence ≤ r.next_cursor.sequence

-- On a stored capture `collect` throws nothing, for any cursor and any limit: it returns the next
-- bytes of the log behind the cursor in order, as many as the limit allows, with a cursor for the
-- rest, and reports the end exactly when the process is finished and no byte is left.
pub collect-exact :
    (w : World) (options : ReadOptions)
    → IsStored w.capture
    → (r : ReadResult) × (collect w options ≡ some r) × Collected w options r
unfolding collect
collect-exact w options s =
    let c : Capture = w.capture in
    let (r, e, q) =
      loop-Outcome c options.max_bytes s.first c.next_sequence c.chunks (start_reading w options)
        s.stored (unfold start_reading in omega arith) in
    (
      record r { eof = w.finished && not (has_unread r.next_cursor w.chunks) },
      ap
          (Option.map (λ (x : ReadResult). record x {
            eof = w.finished && not (has_unread x.next_cursor w.chunks);
          }))
          e,
      record {
        kept = unfold start_reading delivered in q.kept;
        counted = unfold start_reading in omega (arith, q.counted);
        sized = unfold start_reading delivered in omega (arith, q.sized);
        at_end = rw (has_unread_lem c r.next_cursor s.first c.next_sequence w.chunks s.stored);
        placed = unfold start_reading in q.placed;
        forward = unfold start_reading in q.forward;
      },
    )

-- ===== src/Process/Reading/Growth.antt =====
-- The log when a buffer grows and a chunk is added behind the others.
use vacps.Prelude.{
  ℕ, ◌+◌, ◌-◌, ◌≤◌, ◌<◌, ◌≡◌, inl, inr, refl, ap, ◌∙◌, sym, List, [], ◌∷◌, ◌++◌, append_assoc,
  append-nil, arith, ltb, ltb→lt, ltb→le, Bool-cases, length, take, drop, length-append,
  drop-append_le, take-append_le, drop-length, take_all, length-drop,
}
use vacps.Process.Budget.{u64_mod}
use vacps.Process.State.{ProcessStream, ChunkRef, Capture}
use vacps.Process.Capture.{acc_of}
use vacps.Process.Reading.{OutputCursor, start_of}
use vacps.Process.Reading.Log.{tag, chunk_log, remaining, AreChunks, StandsBefore}

-- The buffers of `c'` are those of `c` with bytes added behind.
abbrev pub Extends : Capture → Capture → Type 0
Extends c c' = (s : ProcessStream) → (more : List ℕ) × (acc_of s c' ≡ acc_of s c ++ more)

module _ (c c' : Capture) (grows : Extends c c') where
  pub AreChunks-extend :
      (first next : ℕ) (ks : List ChunkRef) → AreChunks c first next ks → AreChunks c' first next ks
  AreChunks-extend first next [] h = h
  AreChunks-extend first next (k ∷ ks) h =
      let (more, e) = grows k.stream in
      (
        h.0,
        h.1,
        omega (arith, h.2, ap length e, length-append (acc_of k.stream c) more),
        AreChunks-extend (first + 1) next ks h.3,
      )

  chunk_log-extend :
      (k : ChunkRef) (start : ℕ)
      → k.stream_offset + k.size ≤ length (acc_of k.stream c)
      → start ≤ k.size
      → chunk_log c' start k ≡ chunk_log c start k
  unfolding chunk_log
  chunk_log-extend k start h e =
      let (more, p) = grows k.stream in
      ap (tag k.stream) (
        ap (λ xs. take (k.size - start) (drop (k.stream_offset + start) xs)) p
        ∙ ap (take (k.size - start))
            (drop-append_le (k.stream_offset + start) (acc_of k.stream c) more (omega arith))
        ∙ take-append_le (k.size - start) (drop (k.stream_offset + start) (acc_of k.stream c)) more
            (omega (arith, length-drop (k.stream_offset + start) (acc_of k.stream c))))

  -- Also past the chunk's end, where there is nothing.
  chunk_log-extend_any :
      (k : ChunkRef) (start : ℕ)
      → k.stream_offset + k.size ≤ length (acc_of k.stream c)
      → chunk_log c' start k ≡ chunk_log c start k
  chunk_log-extend_any k start h = elim (Bool-cases (ltb k.size start)) [
    | inl past ↦
        let none_left : k.size - start ≡ 0 = omega (arith, ltb→lt _ _ past) in
        unfold chunk_log in rw none_left
    | inr inside ↦ chunk_log-extend k start h (ltb→le k.size start inside)
  ]

  pub remaining-extend :
      (cursor : OutputCursor) (first next : ℕ) (ks : List ChunkRef)
      → AreChunks c first next ks
      → remaining c' cursor ks ≡ remaining c cursor ks
  unfolding remaining
  remaining-extend cursor first next [] h = refl
  remaining-extend cursor first next (k ∷ ks) h = rw (
    chunk_log-extend_any k (start_of cursor k) h.2,
    remaining-extend cursor (first + 1) next ks h.3,
  )

pub AreChunks-snoc :
    (c : Capture) (first next : ℕ) (ks : List ChunkRef) (k : ChunkRef)
    → AreChunks c first next ks
    → k.sequence ≡ next
    → next + 1 < u64_mod
    → k.stream_offset + k.size ≤ length (acc_of k.stream c)
    → AreChunks c first (next + 1) (ks ++ k ∷ [])
AreChunks-snoc c first next [] k h e b i = (omega arith, omega arith, i, omega arith)
AreChunks-snoc c first next (x ∷ xs) k h e b i =
    (h.0, h.1, h.2, AreChunks-snoc c (first + 1) next xs k h.3 e b i)

pub remaining-append :
    (c : Capture) (cursor : OutputCursor) (ks ls : List ChunkRef)
    → remaining c cursor (ks ++ ls) ≡ remaining c cursor ks ++ remaining c cursor ls
unfolding remaining
remaining-append c cursor [] ls = refl
remaining-append c cursor (k ∷ ks) ls =
    rw (remaining-append c cursor ks ls)
      (sym (append_assoc _ (remaining c cursor ks) (remaining c cursor ls)))

-- A chunk that a cursor stands before is read whole.
pub remaining-whole :
    (c : Capture) (cursor : OutputCursor) (k : ChunkRef)
    → StandsBefore cursor k.sequence
    → remaining c cursor (k ∷ []) ≡ chunk_log c 0 k
unfolding remaining
remaining-whole c cursor k h = ground (arith, append-nil (chunk_log c 0 k))

-- The new chunk holds the bytes that were put at the end of its buffer.
pub chunk_log-new :
    (c : Capture) (k : ChunkRef) (old taken : List ℕ)
    → acc_of k.stream c ≡ old ++ taken
    → k.stream_offset ≡ length old
    → k.size ≡ length taken
    → chunk_log c 0 k ≡ tag k.stream taken
unfolding chunk_log
chunk_log-new c k old taken e o n = ap (tag k.stream) (
    ap (λ xs. take (k.size - 0) (drop (k.stream_offset + 0) xs)) e
    ∙ ap (λ (i : ℕ). take (k.size - 0) (drop i (old ++ taken))) {x = k.stream_offset + 0}
        (omega arith)
    ∙ ap (take (k.size - 0)) (drop-length old taken)
    ∙ take_all (k.size - 0) taken (omega arith))

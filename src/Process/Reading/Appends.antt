-- ===== src/Process/Reading/Appends.antt =====
-- How a capture may grow: the log gets the bytes that were kept, at its end.
use mathlib.Core.Path.{subst₂}
use vacps.Prelude.{
  ℕ, ◌+◌, ◌≤◌, ◌<◌, ◌≡◌, refl, ap, ◌∙◌, sym, subst, List, [], ◌∷◌, ◌++◌, append-nil, arith, length,
  length-append,
}
use vacps.Process.Budget.{u64_mod}
use vacps.Process.State.{ProcessStream, stdout, stderr, ChunkRef, Capture, World}
use vacps.Process.Capture.{acc_of, retain}
use vacps.Process.Reading.{OutputCursor}
use vacps.Process.Reading.Log.{tag, chunk_log, remaining, AreChunks, StandsBefore}
use vacps.Process.Reading.Exact.{IsStored}
use vacps.Process.Reading.Growth.{
  Extends, AreChunks-extend, AreChunks-snoc, remaining-extend, remaining-append, remaining-whole,
  chunk_log-new,
}

-- The part of what the stream `s` got that belongs to the stream `t`.
abbrev pub of_stream : ProcessStream → ProcessStream → List ℕ → List ℕ
of_stream stdout stdout xs = xs
of_stream stderr stderr xs = xs
of_stream _ _ xs = []

-- From `c` to `c'` the stream `s` got the bytes `taken`, and nothing else was kept.
pub record Grew (c c' : Capture) (s : ProcessStream) (taken : List ℕ) : Type 0 where
  pub accs : (t : ProcessStream) → acc_of t c' ≡ acc_of t c ++ of_stream t s taken
  pub stored : IsStored c → IsStored c'
  pub log :
      IsStored c
      → (cursor : OutputCursor) → StandsBefore cursor c.next_sequence
      → remaining c' cursor c'.chunks ≡ remaining c cursor c.chunks ++ tag s taken
  pub next : (c.next_sequence ≤ c'.next_sequence) × (c'.next_sequence ≤ c.next_sequence + 1)

of_stream-nil : (t s : ProcessStream) → of_stream t s [] ≡ []
of_stream-nil stdout stdout = refl
of_stream-nil stderr stderr = refl
of_stream-nil stdout stderr = refl
of_stream-nil stderr stdout = refl

-- Two captures with the same buffers, chunks and next number.
pub record Same (c c' : Capture) : Type 0 where
  pub accs : (t : ProcessStream) → acc_of t c' ≡ acc_of t c
  pub chunks : c'.chunks ≡ c.chunks
  pub next : c'.next_sequence ≡ c.next_sequence

module _ (c c' : Capture) (same : Same c c') where
  remaining-same :
      (cursor : OutputCursor) (ks : List ChunkRef) → remaining c' cursor ks ≡ remaining c cursor ks
  unfolding remaining chunk_log
  remaining-same cursor [] = refl
  remaining-same cursor (k ∷ ks) = rw (remaining-same cursor ks, same.accs k.stream)

  pub log-same :
      (cursor : OutputCursor) → remaining c' cursor c'.chunks ≡ remaining c cursor c.chunks
  log-same cursor = ap (remaining c' cursor) same.chunks ∙ remaining-same cursor c.chunks

  AreChunks-same :
      (first next : ℕ) (ks : List ChunkRef) → AreChunks c first next ks → AreChunks c' first next ks
  AreChunks-same = AreChunks-extend c c' (λ t. ([], same.accs t ∙ sym (append-nil (acc_of t c))))

  pub IsStored-same : IsStored c → IsStored c'
  IsStored-same h = record {
    first = h.first;
    stored =
        subst₂ (AreChunks c' h.first) (sym same.next) (sym same.chunks)
          (AreChunks-same h.first c.next_sequence c.chunks h.stored);
  }

pub Grew-nothing : (c c' : Capture) (s : ProcessStream) → Same c c' → Grew c c' s []
Grew-nothing c c' s same = record {
  accs = λ t.
      same.accs t
      ∙ sym (append-nil (acc_of t c))
      ∙ ap (◌++◌ (acc_of t c)) (sym (of_stream-nil t s));
  stored = IsStored-same c c' same;
  log = λ h cursor b. log-same c c' same cursor ∙ sym (append-nil (remaining c cursor c.chunks));
  next = (omega (arith, same.next), omega (arith, same.next));
}

module _ (a b c : Capture) (s : ProcessStream) (xs : List ℕ) where
  pub Grew-Same_left : Same a b → Grew b c s xs → Grew a c s xs
  Grew-Same_left p q = record {
    accs = λ t. q.accs t ∙ ap (λ ys. ys ++ of_stream t s xs) (p.accs t);
    stored = λ h. q.stored (IsStored-same a b p h);
    log = λ h cursor before.
        q.log (IsStored-same a b p h) cursor (subst (StandsBefore cursor) (sym p.next) before)
        ∙ ap (λ l. l ++ tag s xs) (log-same a b p cursor);
    next = (omega (arith, p.next, q.next), omega (arith, p.next, q.next));
  }

  pub Grew-Same_right : Grew a b s xs → Same b c → Grew a c s xs
  Grew-Same_right p q = record {
    accs = λ t. q.accs t ∙ p.accs t;
    stored = λ h. IsStored-same b c q (p.stored h);
    log = λ h cursor before. log-same b c q cursor ∙ p.log h cursor before;
    next = (omega (arith, p.next, q.next), omega (arith, p.next, q.next));
  }

accs-retain :
    (s t : ProcessStream) (taken : List ℕ) (now : ℕ) (w : World)
    → acc_of t (retain s taken now w).capture ≡ acc_of t w.capture ++ of_stream t s taken
unfolding retain
accs-retain stdout stdout taken now w = refl
accs-retain stdout stderr taken now w = sym (append-nil w.stderr_acc)
accs-retain stderr stdout taken now w = sym (append-nil w.stdout_acc)
accs-retain stderr stderr taken now w = refl

abbrev new_chunk : ProcessStream → List ℕ → ℕ → Capture → ChunkRef
new_chunk s taken now c = record {
  sequence = c.next_sequence;
  stream = s;
  stream_offset = length (acc_of s c);
  size = length taken;
  observed_at_ms = now;
}

chunks-retain :
    (s : ProcessStream) (taken : List ℕ) (now : ℕ) (w : World)
    → (retain s taken now w).chunks ≡ w.chunks ++ new_chunk s taken now w.capture ∷ []
unfolding retain
chunks-retain s taken now w = refl

next_sequence-retain :
    (s : ProcessStream) (taken : List ℕ) (now : ℕ) (w : World)
    → w.next_sequence + 1 < u64_mod
    → (retain s taken now w).next_sequence ≡ w.next_sequence + 1
unfolding retain
next_sequence-retain s taken now w h = omega arith

pub of_stream_self : (s : ProcessStream) (xs : List ℕ) → of_stream s s xs ≡ xs
of_stream_self stdout xs = refl
of_stream_self stderr xs = refl

pub retain-Grew :
    (s : ProcessStream) (taken : List ℕ) (now : ℕ) (w : World)
    → w.next_sequence + 1 < u64_mod
    → Grew w.capture (retain s taken now w).capture s taken
retain-Grew s taken now w h =
    let c : Capture = w.capture in
    let c' : Capture = (retain s taken now w).capture in
    let k : ChunkRef = new_chunk s taken now c in
    let own : acc_of s c' ≡ acc_of s c ++ taken =
      accs-retain s s taken now w ∙ ap (◌++◌ (acc_of s c)) (of_stream_self s taken) in
    let extends : Extends c c' = λ t. (of_stream t s taken, accs-retain s t taken now w) in
    record {
      accs = λ t. accs-retain s t taken now w;
      stored = λ g. record {
        first = g.first;
        stored =
            subst₂ (AreChunks c' g.first) (sym (next_sequence-retain s taken now w h))
              (sym (chunks-retain s taken now w))
              (AreChunks-snoc c' g.first c.next_sequence c.chunks k
                (AreChunks-extend c c' extends g.first c.next_sequence c.chunks g.stored) refl h
                (omega (arith, ap length own, length-append (acc_of s c) taken)));
      };
      log = λ g cursor before.
          ap (remaining c' cursor) (chunks-retain s taken now w)
          ∙ remaining-append c' cursor c.chunks (k ∷ [])
          ∙ ap (λ l. l ++ remaining c' cursor (k ∷ []))
              (remaining-extend c c' extends cursor g.first c.next_sequence c.chunks g.stored)
          ∙ ap (◌++◌ (remaining c cursor c.chunks)) (
              remaining-whole c' cursor k before
              ∙ chunk_log-new c' k (acc_of s c) taken own refl refl);
      next = (
        omega (arith, next_sequence-retain s taken now w h),
        omega (arith, next_sequence-retain s taken now w h),
      );
    }

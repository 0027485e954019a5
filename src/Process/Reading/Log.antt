-- ===== src/Process/Reading/Log.antt =====
-- What `collect` promises: the captured output is one log of bytes, each with its stream, and a
-- cursor is a place in it.
use vacps.Prelude.{
  ℕ, ◌+◌, ◌-◌, ◌≤◌, ◌<◌, ◌≡◌, ◌⊎◌, refl, ap, sym, List, [], ◌∷◌, ◌++◌, map, append_assoc, arith,
  ltb, if◌then◌else◌, length, take, drop,
}
use vacps.Process.Budget.{u64_mod}
use vacps.Process.State.{ProcessStream, ChunkRef, Capture}
use vacps.Process.Capture.{acc_of}
use vacps.Process.Reading.{OutputCursor, OutputChunk, start_of}

abbrev pub Log : Type 0
Log = List (ProcessStream × ℕ)

abbrev pub tag : ProcessStream → List ℕ → Log
tag s = map (λ b. (s, b))

-- The bytes of a chunk from `start` on.
unfoldable pub chunk_log : Capture → ℕ → ChunkRef → Log
chunk_log c start k =
    tag k.stream (take (k.size - start) (drop (k.stream_offset + start) (acc_of k.stream c)))

-- The log from a cursor on: chunks before it are left out, and of its own chunk the first bytes.
unfoldable pub remaining : Capture → OutputCursor → List ChunkRef → Log
remaining c cursor [] = []
remaining c cursor (k ∷ ks) =
    (if ltb k.sequence cursor.sequence then [] else chunk_log c (start_of cursor k) k)
    ++ remaining c cursor ks

-- What a reader is handed.
unfoldable pub delivered : List OutputChunk → Log
delivered [] = []
delivered (o ∷ os) = tag o.stream o.text ++ delivered os

-- The chunks have consecutive numbers from `first` up to `next`, and lie inside the buffers.
abbrev pub AreChunks : Capture → ℕ → ℕ → List ChunkRef → Type 0
AreChunks c first next [] = first ≡ next
AreChunks c first next (k ∷ ks) =
    (k.sequence ≡ first)
    × (first + 1 < u64_mod)
    × (k.stream_offset + k.size ≤ length (acc_of k.stream c))
    × AreChunks c (first + 1) next ks

-- A cursor that stands before everything from `first` on.
abbrev pub StandsBefore : OutputCursor → ℕ → Type 0
StandsBefore cursor first =
    (cursor.sequence < first) ⊎ ((cursor.sequence ≡ first) × (cursor.byte_offset ≡ 0))

pub delivered-append :
    (os : List OutputChunk) (ps : List OutputChunk)
    → delivered (os ++ ps) ≡ delivered os ++ delivered ps
unfolding delivered
delivered-append [] ps = refl
delivered-append (o ∷ os) ps =
    rw (delivered-append os ps) (sym (append_assoc (tag o.stream o.text) (delivered os) _))

pub length-tag : (s : ProcessStream) (bs : List ℕ) → length (tag s bs) ≡ length bs
length-tag s [] = refl
length-tag s (b ∷ bs) = omega (arith, length-tag s bs)

pub tag-append : (s : ProcessStream) (xs ys : List ℕ) → tag s (xs ++ ys) ≡ tag s xs ++ tag s ys
tag-append s [] ys = refl
tag-append s (x ∷ xs) ys = ap (◌∷◌ (s, x)) (tag-append s xs ys)

-- Cursors that stand before the rest of the chunks read the same rest.
pub remaining-before :
    (c : Capture) (a b : OutputCursor) (first next : ℕ) (ks : List ChunkRef)
    → AreChunks c first next ks
    → StandsBefore a first
    → StandsBefore b first
    → remaining c a ks ≡ remaining c b ks
unfolding remaining
remaining-before c a b first next [] h p q = refl
remaining-before c a b first next (k ∷ ks) h p q =
    let rest : remaining c a ks ≡ remaining c b ks =
      remaining-before c a b (first + 1) next ks h.3 (ground arith) (ground arith) in
    rw rest (ground (arith, h.0))

pub AreChunks-le :
    (c : Capture) (first next : ℕ) (ks : List ChunkRef) → AreChunks c first next ks → first ≤ next
AreChunks-le c first next [] h = omega arith
AreChunks-le c first next (k ∷ ks) h = omega (arith, AreChunks-le c (first + 1) next ks h.3)

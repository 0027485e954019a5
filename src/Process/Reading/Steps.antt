-- ===== src/Process/Reading/Steps.antt =====
-- One round of the loop of `collect`, and what a run of rounds does to the log.
use vacps.Prelude.{
  ℕ, ◌+◌, ◌-◌, ◌≤◌, ◌<◌, ◌≡◌, refl, ap, ◌∙◌, sym, List, ◌∷◌, ◌++◌, min, arith, leb, if◌then◌else◌,
  length, take, drop, length-take, length-drop, length-append, some, take-split, drop-drop, lt→ltb,
  le→ltb, le→leb, lt→leb,
}
use vacps.Process.State.{ChunkRef, Capture}
use vacps.Process.Capture.{acc_of}
use vacps.Process.Reading.{
  OutputCursor, ReadResult, start_of, collect_loop, cursor_after, with_part, substr,
}
use vacps.Process.Reading.Log.{
  tag, chunk_log, remaining, delivered, StandsBefore, length-tag, tag-append,
}

-- A chunk's bytes from `start` on are `n` bytes and those from `start + n` on.
pub chunk_log-split :
    (c : Capture) (k : ChunkRef) (start n : ℕ)
    → start + n ≤ k.size
    → tag k.stream (take n (drop (k.stream_offset + start) (acc_of k.stream c)))
        ++ chunk_log c (start + n) k
      ≡ chunk_log c start k
unfolding chunk_log
chunk_log-split c k start n h =
    let xs : List ℕ = drop (k.stream_offset + start) (acc_of k.stream c) in
    let there : drop n xs ≡ drop (k.stream_offset + (start + n)) (acc_of k.stream c) =
      drop-drop n (k.stream_offset + start) (acc_of k.stream c)
      ∙ ap (λ (i : ℕ). drop i (acc_of k.stream c)) {x = k.stream_offset + start + n}
          (omega arith) in
    let joined : take n xs ++ take (k.size - (start + n)) (drop n xs) ≡ take (k.size - start) xs =
      take-split n (k.size - (start + n)) xs
      ∙ ap (λ (i : ℕ). take i xs) {x = n + (k.size - (start + n))} (omega arith) in
    sym (tag-append k.stream (take n xs) _)
    ∙ ap (tag k.stream)
        (ap (λ ys. take n xs ++ take (k.size - (start + n)) ys) (sym there) ∙ joined)

pub length-chunk_log :
    (c : Capture) (k : ChunkRef) (start : ℕ)
    → k.stream_offset + k.size ≤ length (acc_of k.stream c)
    → length (chunk_log c start k) ≡ k.size - start
unfolding chunk_log
length-chunk_log c k start h = omega (
  arith,
  length-tag k.stream (take (k.size - start) (drop (k.stream_offset + start) (acc_of k.stream c))),
  length-take (k.size - start) (drop (k.stream_offset + start) (acc_of k.stream c)),
  length-drop (k.stream_offset + start) (acc_of k.stream c),
)

-- What the loop does from the result `r` to the result `r'`.
pub record Reads (c : Capture) (max_bytes next : ℕ) (ks : List ChunkRef) (r r' : ReadResult)
    : Type 0 where
  pub kept :
      delivered r'.chunks ++ remaining c r'.next_cursor ks
      ≡ delivered r.chunks ++ remaining c r.next_cursor ks
  pub counted :
      r'.returned_bytes
      ≡ r.returned_bytes
        + min (max_bytes - r.returned_bytes) (length (remaining c r.next_cursor ks))
  pub sized :
      length (delivered r'.chunks) + r.returned_bytes
      ≡ length (delivered r.chunks) + r'.returned_bytes
  pub forward : r.next_cursor.sequence ≤ r'.next_cursor.sequence
  pub same_exit : r'.exit ≡ r.exit
  pub placed : StandsBefore r.next_cursor next → StandsBefore r'.next_cursor next

-- One chunk is passed: what is left of the log is what is left of the chunks behind it.
pub record Passes (c : Capture) (max_bytes next : ℕ) (k : ChunkRef) (ks : List ChunkRef)
    (r r' : ReadResult) : Type 0 where
  pub joined :
      delivered r'.chunks ++ remaining c r'.next_cursor ks
      ≡ delivered r.chunks ++ remaining c r.next_cursor (k ∷ ks)
  pub grown :
      length (delivered r'.chunks) + r.returned_bytes
      ≡ length (delivered r.chunks) + r'.returned_bytes
  pub more : r.returned_bytes ≤ r'.returned_bytes
  pub fits : r'.returned_bytes ≤ max_bytes
  pub past : k.sequence < r'.next_cursor.sequence
  pub forward : r.next_cursor.sequence ≤ r'.next_cursor.sequence
  pub same_exit : r'.exit ≡ r.exit
  pub placed : StandsBefore r.next_cursor next → StandsBefore r'.next_cursor next

pub remaining-past :
    (c : Capture) (cursor : OutputCursor) (k : ChunkRef) (ks : List ChunkRef)
    → k.sequence < cursor.sequence
    → remaining c cursor (k ∷ ks) ≡ remaining c cursor ks
unfolding remaining
remaining-past c cursor k ks h = ground arith

pub remaining-at :
    (c : Capture) (cursor : OutputCursor) (k : ChunkRef) (ks : List ChunkRef)
    → cursor.sequence ≤ k.sequence
    → remaining c cursor (k ∷ ks) ≡ chunk_log c (start_of cursor k) k ++ remaining c cursor ks
unfolding remaining
remaining-at c cursor k ks h = ground arith

pub Reads-stop :
    (c : Capture) (max_bytes next : ℕ) (ks : List ChunkRef) (r : ReadResult)
    → max_bytes ≤ r.returned_bytes
    → Reads c max_bytes next ks r r
Reads-stop c max_bytes next ks r h = record {
  kept = refl;
  counted = omega arith;
  sized = refl;
  forward = omega arith;
  same_exit = refl;
  placed = λ p. p;
}

-- A passed chunk and then a run over the rest.
pub Reads-passed :
    (c : Capture) (max_bytes next : ℕ) (k : ChunkRef) (ks : List ChunkRef) (r s t : ReadResult)
    → Passes c max_bytes next k ks r s
    → Reads c max_bytes next ks s t
    → Reads c max_bytes next (k ∷ ks) r t
Reads-passed c max_bytes next k ks r s t p q = record {
  kept =
      rw (remaining-past c t.next_cursor k ks (omega (arith, p.past, q.forward)))
        (q.kept ∙ p.joined);
  counted =
      let e : length (delivered s.chunks) + length (remaining c s.next_cursor ks)
          ≡ length (delivered r.chunks) + length (remaining c r.next_cursor (k ∷ ks)) =
        sym (length-append (delivered s.chunks) _)
        ∙ ap length p.joined
        ∙ length-append (delivered r.chunks) _ in
      omega (arith, e, q.counted, p.grown, p.more, p.fits);
  sized = omega (arith, p.grown, q.sized);
  forward = omega (arith, p.forward, q.forward);
  same_exit = q.same_exit ∙ p.same_exit;
  placed = λ b. q.placed (p.placed b);
}

-- The four ways through the loop body.
module _ (c : Capture) (max_bytes : ℕ) (k : ChunkRef) (ks : List ChunkRef) (r : ReadResult) where
  abbrev pub start : ℕ
  start = start_of r.next_cursor k

  abbrev pub amount : ℕ
  amount = min (k.size - start) (max_bytes - r.returned_bytes)

  abbrev pub part : ReadResult
  part =
      with_part k start amount r (take amount (drop (k.stream_offset + start) (acc_of k.stream c)))

  pub loop-skip :
      k.sequence < r.next_cursor.sequence
      → collect_loop c max_bytes (k ∷ ks) r ≡ collect_loop c max_bytes ks r
  unfolding collect_loop
  loop-skip h = rw (lt→ltb _ _ h)

  pub loop-pass :
      r.next_cursor.sequence ≤ k.sequence
      → k.size ≤ start
      → collect_loop c max_bytes (k ∷ ks) r
        ≡ collect_loop c max_bytes ks (record r { next_cursor = cursor_after k })
  unfolding collect_loop
  loop-pass h e = rw (le→ltb _ _ h, le→leb _ _ e)

  pub loop-full :
      r.next_cursor.sequence ≤ k.sequence
      → start < k.size
      → max_bytes ≤ r.returned_bytes
      → collect_loop c max_bytes (k ∷ ks) r ≡ some r
  unfolding collect_loop
  loop-full h e f = rw (le→ltb _ _ h, lt→leb _ _ e, le→leb _ _ f)

  pub loop-part :
      r.next_cursor.sequence ≤ k.sequence
      → start < k.size
      → r.returned_bytes < max_bytes
      → k.stream_offset + k.size ≤ length (acc_of k.stream c)
      → collect_loop c max_bytes (k ∷ ks) r ≡ (
          if leb max_bytes part.returned_bytes then some part else collect_loop c max_bytes ks part)
  unfolding collect_loop substr
  loop-part h e f inside = rw (
    le→ltb _ _ h,
    lt→leb _ _ e,
    lt→leb _ _ f,
    le→ltb (length (acc_of k.stream c)) (k.stream_offset + start) (omega arith),
  )

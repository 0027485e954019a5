-- ===== src/File/Reads.antt =====
-- What the reads of fs/file.cpp give.
use vacps.Prelude.{
  ℕ, zero, suc, ◌+◌, ◌-◌, ◌%◌, ◌≤◌, ◌<◌, ◌≡◌, ◌≢◌, refl, sym, ap, ◌∙◌, arith, min, List, [], Bool,
  true, false, not, Option, none, some, ltb, leb, ◌==◌, if◌then◌else◌, if_false, length,
  length-take, length-drop, take, drop, get_elem?,
}
use vacps.Process.State.{Bytes}
use vacps.Process.Budget.{u64_mod}
use vacps.File.Ranges.{
  off_max, Checked, fine, out_of_range, overflow, offset_add_ok, check_range, check_range-exact,
  offset_add_ok-exact,
}
use vacps.File.Reading.{
  Life, open_life, closing_life, closed_life, File, Answer, failed, ReadResult, bytes_read,
  file_is_closed, over_hard_limit, waiting, bad_range, io_error, resolve_read_max, read_loop,
  in_range, if_open, read_range, read_bytes, advanced, moved, read,
}
use vacps.File.ReadLoop.{giving, IsLoopEnd, complete, stopped, waits, read_loop-IsLoopEnd}

-- What a read leaves and gives: the bytes from the cursor on, all that there are or as many as the
-- limit allows, and the cursor behind them; or an error that has its cause, or no answer because
-- pread has given bytes no more often than the limit has bytes, and the cursor where it was.
pub data IsRead (f : File) (max_bytes : ℕ) (content : Bytes) (answers : List Answer)
    : File × ReadResult → Type 0 where
  gives :
      (lim : ℕ) (g : File) (buf : Bytes)
      → resolve_read_max max_bytes ≡ some lim
      → f.life ≡ open_life
      → buf ≡ take lim (drop f.cursor content)
      → g ≡ record f { cursor = f.cursor + length buf }
      → IsRead f max_bytes content answers (g, bytes_read buf)
  closed : f.life ≢ open_life → IsRead f max_bytes content answers (f, file_is_closed)
  no_descriptor : f.control ≡ none → IsRead f max_bytes content answers (f, file_is_closed)
  over_limit :
      resolve_read_max max_bytes ≡ none → IsRead f max_bytes content answers (f, over_hard_limit)
  ranged :
      (lim : ℕ) (c : Checked)
      → resolve_read_max max_bytes ≡ some lim
      → check_range f.cursor lim ≡ c
      → c ≢ fine
      → IsRead f max_bytes content answers (f, bad_range c)
  failing :
      (errno i : ℕ)
      → get_elem? answers i ≡ some (failed errno)
      → IsRead f max_bytes content answers (f, io_error errno)
  unanswered :
      (lim : ℕ)
      → resolve_read_max max_bytes ≡ some lim
      → giving answers ≤ lim
      → IsRead f max_bytes content answers (f, waiting)

limit_small : (max_bytes lim : ℕ) → resolve_read_max max_bytes ≡ some lim → lim ≤ 67108864
unfolding resolve_read_max
limit_small max_bytes lim e = ground arith

range_fits :
    (at lim : ℕ)
    → at ≤ off_max
    → lim ≤ 67108864
    → (lim == 0) ≡ false
    → check_range at lim ≡ fine
    → at + lim ≤ off_max + 1
range_fits at lim h k z e =
    let exact = sym (check_range-exact at lim (omega arith) (omega arith)) ∙ e in
    by_fit (leb (at + lim) (off_max + 1)) refl exact
  where
    by_fit :
        (b : Bool)
        → leb (at + lim) (off_max + 1) ≡ b
        → (if ltb off_max at
            then out_of_range
            else if b
            then fine
            else if lim == 0
            then fine
            else overflow)
          ≡ fine
        → at + lim ≤ off_max + 1
    by_fit true g exact = ground arith
    by_fit false g exact = absurd (ground arith)

module _ (f : File) (max_bytes : ℕ) (content : Bytes) (answers : List Answer)
    (at_ok : f.cursor ≤ off_max) (size_ok : length content ≤ off_max) where
  abbrev Read : File × ReadResult → Type 0
  Read = IsRead f max_bytes content answers

  advanced-IsRead :
      (lim : ℕ) (r : ReadResult)
      → resolve_read_max max_bytes ≡ some lim
      → f.life ≡ open_life
      → IsLoopEnd content f.cursor lim 0 answers r
      → Read (advanced f r)
  advanced-IsRead lim _ e l (complete buf h) =
      let size : f.cursor + length buf ≤ off_max =
        inside f.cursor (ap length h) (length-take lim (drop f.cursor content))
          (length-drop f.cursor content) at_ok in
      if_false Read (not (offset_add_ok f.cursor (length buf))) _ _
        (sums f.cursor (length buf) at_ok size)
        (gives lim _ buf e l h
          (ap (λ (c : ℕ). record f { cursor = c }) (wraps_not (f.cursor + length buf) size)))
    where
      inside :
          (at : ℕ) {k m n : ℕ}
          → k ≡ m
          → m ≡ min lim n
          → n ≡ length content - at
          → at ≤ off_max
          → at + k ≤ off_max
      inside at g h i o = omega (arith, size_ok)

      sums : (at k : ℕ) → at ≤ off_max → at + k ≤ off_max → not (offset_add_ok at k) ≡ false
      sums at k o g =
          ap not (offset_add_ok-exact at k (omega arith))
          ∙ ap not {x = leb (at + k) off_max} {y = true} (ground arith)

      wraps_not : (n : ℕ) → n ≤ off_max → n % u64_mod ≡ n
      wraps_not n h = omega arith
  advanced-IsRead lim _ e l (stopped errno i g) = failing errno i g
  advanced-IsRead lim _ e l (waits h) = unanswered lim e (omega arith)

  in_range-IsRead :
      (lim : ℕ) (c : Checked)
      → resolve_read_max max_bytes ≡ some lim
      → (lim == 0) ≡ false
      → f.life ≡ open_life
      → check_range f.cursor lim ≡ c
      → Read (
          advanced f
            (in_range c (read_range (offset_add_ok f.cursor) f f.cursor lim content answers)))
  in_range-IsRead lim fine e z l h = by_control f.control refl
    where
      fits : f.cursor + lim ≤ off_max + 1
      fits = range_fits f.cursor lim at_ok (limit_small max_bytes lim e) z h

      passes :
          (at got : ℕ)
          → at ≤ off_max
          → at + lim ≤ off_max + 1
          → got < lim
          → offset_add_ok at got ≡ true
      passes at got o g k = offset_add_ok-exact at got (omega arith) ∙ ground arith

      by_control :
          (o : Option ℕ)
          → f.control ≡ o
          → Read (
              advanced f (elim o [
                | none ↦ file_is_closed
                | some fd ↦ read_loop (offset_add_ok f.cursor) content f.cursor lim answers []
              ]))
      by_control none g = no_descriptor g
      by_control (some fd) g = advanced-IsRead lim _ e l (
          read_loop-IsLoopEnd (offset_add_ok f.cursor) content f.cursor lim
            (λ got k. passes f.cursor got at_ok fits k) fits answers [] (omega arith) refl)
  in_range-IsRead lim out_of_range e z l h = ranged lim out_of_range e h (λ p. cc)
  in_range-IsRead lim overflow e z l h = ranged lim overflow e h (λ p. cc)

  by_life :
      (l : Life) (lim : ℕ)
      → f.life ≡ l
      → (r : ReadResult) → (f.life ≡ open_life → Read (advanced f r))
      → Read (advanced f (if_open l r))
  by_life open_life lim e r h = h e
  by_life closing_life lim e r h = closed (λ p. absurd (cc))
  by_life closed_life lim e r h = closed (λ p. absurd (cc))

  nothing_wanted :
      (l : Life)
      → resolve_read_max max_bytes ≡ some 0
      → f.life ≡ l
      → Read (f, if_open l (bytes_read []))
  nothing_wanted open_life e h =
      gives 0 f [] e h refl
        (ap (λ (c : ℕ). record f { cursor = c }) {x = f.cursor} {y = f.cursor + 0} (omega arith))
  nothing_wanted closing_life e h = closed (λ p. absurd (cc))
  nothing_wanted closed_life e h = closed (λ p. absurd (cc))

  -- For a cursor and a size of `off_t`: a read gives the bytes from the cursor on, all that there
  -- are or as many as the limit allows, and moves the cursor behind them, however pread divides and
  -- interrupts them; or it gives an error that has its cause, or waits, which it does only while
  -- pread has given bytes no more often than the limit has bytes, and leaves the cursor.
  pub read-IsRead : Read (read f max_bytes content answers)
  unfolding read read_bytes
  read-IsRead = by_limit (resolve_read_max max_bytes) refl
    where
      behind : ℕ → ReadResult
      behind lim = if_open f.life (
          if lim == 0
          then bytes_read []
          else in_range (check_range f.cursor lim)
              (read_range (offset_add_ok f.cursor) f f.cursor lim content answers))

      by_limit :
          (o : Option ℕ)
          → resolve_read_max max_bytes ≡ o
          → Read (moved o f (elim o [ none ↦ over_hard_limit | some lim ↦ behind lim ]))
      by_limit none e = over_limit e
      by_limit (some zero) e = nothing_wanted f.life e refl
      by_limit (some (suc k)) e = if_false Read (suc k == 0) _ _ (ground arith) (
          by_life f.life (suc k) refl _ (λ h.
            if_false (λ (r : ReadResult). Read (advanced f r)) (suc k == 0) _ _ (ground arith)
              (in_range-IsRead (suc k) (check_range f.cursor (suc k)) e (ground arith) h refl)))

-- ===== src/File/ReadLoop.antt =====
-- The loop of the reads of fs/file.cpp gives the bytes from the offset on.
use vacps.Prelude.{
  ℕ, zero, suc, ◌+◌, ◌-◌, ◌%◌, ◌≤◌, ◌<◌, ◌≡◌, refl, sym, ap, ◌∙◌, arith, min, List, [], ◌∷◌, ◌++◌,
  Bool, true, false, not, some, ltb, ◌==◌, if◌then◌else◌, if-split, if_false, length, length-append,
  length-take, length-drop, take, drop, take_all, drop-drop, take-split, get_elem?,
}
use vacps.Process.State.{Bytes}
use vacps.Process.Budget.{u64_mod}
use vacps.File.Ranges.{off_max}
use vacps.File.Reading.{
  Answer, interrupted, failed, up_to, ReadResult, bytes_read, waiting, io_error, k_chunk, pread,
  read_loop,
}

-- How many answers give bytes.
abbrev pub giving : List Answer → ℕ
giving [] = 0
giving (interrupted ∷ rest) = giving rest
giving (failed errno ∷ rest) = giving rest
giving (up_to n ∷ rest) = suc (giving rest)

-- What the loop gives from `got` bytes on.
pub data IsLoopEnd (content : Bytes) (at lim got : ℕ) (answers : List Answer)
    : ReadResult → Type 0 where
  complete :
      (buf : Bytes)
      → buf ≡ take lim (drop at content)
      → IsLoopEnd content at lim got answers (bytes_read buf)
  stopped :
      (errno i : ℕ)
      → get_elem? answers i ≡ some (failed errno)
      → IsLoopEnd content at lim got answers (io_error errno)
  waits : giving answers + got ≤ lim → IsLoopEnd content at lim got answers waiting

take-length-take : (n : ℕ) (xs : Bytes) → take n xs ≡ take (length (take n xs)) xs
take-length-take zero xs = refl
take-length-take (suc n) [] = refl
take-length-take (suc n) (x ∷ xs) = ap (◌∷◌ x) (take-length-take n xs)

-- An end of a later round is one of this round.
later :
    (content : Bytes) (at lim got got₁ : ℕ) (answer : Answer) (rest : List Answer) (r : ReadResult)
    → (giving rest + got₁ ≤ lim → giving (answer ∷ rest) + got ≤ lim)
    → IsLoopEnd content at lim got₁ rest r
    → IsLoopEnd content at lim got (answer ∷ rest) r
later content at lim got got₁ answer rest _ w (complete buf e) = complete buf e
later content at lim got got₁ answer rest _ w (stopped errno i e) = stopped errno (suc i) e
later content at lim got got₁ answer rest _ w (waits h) = waits (w h)

module _ (test : ℕ → Bool) (content : Bytes) (at lim : ℕ)
    (passes : (got : ℕ) → got < lim → test got ≡ true) (fits : at + lim ≤ off_max + 1) where
  -- The first bytes from the offset.
  abbrev IsFirst : Bytes → Type 0
  IsFirst buf = buf ≡ take (length buf) (drop at content)

  abbrev part_of : Bytes → ℕ → Bytes
  part_of buf n = pread content ((at + length buf) % u64_mod) (min k_chunk (lim - length buf)) n

  part_of-pread :
      (buf : Bytes) (n : ℕ)
      → length buf ≤ lim
      → part_of buf n
        ≡ take (min (suc n) (min k_chunk (lim - length buf))) (drop (length buf) (drop at content))
  part_of-pread buf n h =
      ap (λ (k : ℕ). take (min (suc n) (min k_chunk (lim - length buf))) (drop k content))
        {x = (at + length buf) % u64_mod} {y = at + length buf} (omega arith)
      ∙ ap (take (min (suc n) (min k_chunk (lim - length buf))))
          (sym (drop-drop (length buf) at content))

  IsFirst-part_of :
      (buf : Bytes) (n : ℕ) → length buf ≤ lim → IsFirst buf → IsFirst (buf ++ part_of buf n)
  IsFirst-part_of buf n h f =
      let m = min (suc n) (min k_chunk (lim - length buf)) in
      let joined : buf ++ part_of buf n ≡ take (length buf + m) (drop at content) =
        (λ i. f i ++ part_of-pread buf n h i) ∙ take-split (length buf) m (drop at content) in
      joined
      ∙ (take-length-take (length buf + m) (drop at content)
          ∙ ap (λ (b : Bytes). take (length b) (drop at content)) (sym joined))

  -- No byte is left.
  at_end :
      (buf : Bytes) (n : ℕ)
      → length buf < lim
      → IsFirst buf
      → length (part_of buf n) ≡ 0
      → buf ≡ take lim (drop at content)
  at_end buf n h f e =
      let m = min (suc n) (min k_chunk (lim - length buf)) in
      let rest : length (drop at content) ≤ length buf = omega (
        arith,
        e,
        ap length (part_of-pread buf n (omega arith)),
        length-take m (drop (length buf) (drop at content)),
        length-drop (length buf) (drop at content),
      ) in
      f
      ∙ (take_all (length buf) (drop at content) rest
          ∙ sym (take_all lim (drop at content) (omega arith)))

  length-part_of : (buf : Bytes) (n : ℕ) → length (part_of buf n) ≤ lim - length buf
  length-part_of buf n = omega (
    arith,
    length-take (min (suc n) (min k_chunk (lim - length buf)))
        (drop ((at + length buf) % u64_mod) content),
  )

  all_read :
      (buf : Bytes)
      → length buf ≤ lim
      → ltb (length buf) lim ≡ false
      → IsFirst buf
      → buf ≡ take lim (drop at content)
  all_read buf h g f =
      f ∙ ap (λ (k : ℕ). take k (drop at content)) {x = length buf} {y = lim} (ground arith)

  by_answer :
      (answer : Answer) (rest : List Answer) (buf : Bytes) (loop : Bytes → ReadResult)
      → length buf < lim
      → IsFirst buf
      → IsLoopEnd content at lim (length buf) rest (loop buf)
      → ((n : ℕ)
          → IsLoopEnd content at lim
              (length (buf ++ part_of buf n))
              rest
              (loop (buf ++ part_of buf n)))
      → IsLoopEnd content at lim (length buf) (answer ∷ rest) (elim answer [
        | interrupted ↦ loop buf
        | failed errno ↦ io_error errno
        | up_to n ↦
            if length (part_of buf n) == 0 then bytes_read buf else loop (buf ++ part_of buf n)
      ])
  by_answer interrupted rest buf loop h f again more =
      later content at lim (length buf) (length buf) interrupted rest (loop buf) (λ w. w) again
  by_answer (failed errno) rest buf loop h f again more = stopped errno 0 refl
  by_answer (up_to n) rest buf loop h f again more =
      if-split (IsLoopEnd content at lim (length buf) (up_to n ∷ rest))
        (length (part_of buf n) == 0) _ _
        (λ e. complete buf (at_end buf n h f (zero_length (length (part_of buf n)) e)))
        (λ e.
          later content at lim (length buf) (length (buf ++ part_of buf n)) (up_to n) rest
            (loop (buf ++ part_of buf n))
            (counted _ (length buf) (length (part_of buf n)) (giving rest)
              (length-append buf (part_of buf n)) e)
            (more n))
    where
      zero_length : (k : ℕ) → (k == 0) ≡ true → k ≡ 0
      zero_length k e = ground arith

      counted : (j k l m : ℕ) → j ≡ k + l → (l == 0) ≡ false → m + j ≤ lim → suc m + k ≤ lim
      counted j k l m e g w = ground arith

  pub read_loop-IsLoopEnd :
      (answers : List Answer) (buf : Bytes)
      → length buf ≤ lim
      → IsFirst buf
      → IsLoopEnd content at lim (length buf) answers (read_loop test content at lim answers buf)
  unfolding read_loop
  read_loop-IsLoopEnd [] buf h f =
      if-split (IsLoopEnd content at lim (length buf) []) (not (ltb (length buf) lim)) _ _
        (λ g. complete buf (all_read buf h (ground arith) f))
        (λ g.
          if_false (IsLoopEnd content at lim (length buf) []) (not (test (length buf))) _ _
            (ap not (passes (length buf) (ground arith))) (waits (omega arith)))
  read_loop-IsLoopEnd (answer ∷ rest) buf h f =
      if-split P (not (ltb (length buf) lim)) _ _
        (λ g. complete buf (all_read buf h (ground arith) f))
        (λ g.
          if_false P (not (test (length buf))) _ _ (ap not (passes (length buf) (ground arith))) (
            by_answer answer rest buf (λ b. read_loop test content at lim rest b) (ground arith) f
              (read_loop-IsLoopEnd rest buf h f)
              (λ n.
                read_loop-IsLoopEnd rest (buf ++ part_of buf n)
                  (omega (arith, length-append buf (part_of buf n), length-part_of buf n))
                  (IsFirst-part_of buf n h f))))
    where
      P : ReadResult → Type 0
      P = IsLoopEnd content at lim (length buf) (answer ∷ rest)

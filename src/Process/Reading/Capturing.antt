-- ===== src/Process/Reading/Capturing.antt =====
-- `append_capture`: what it keeps of a read, and how it counts the rest.
use vacps.Prelude.{
  ℕ, ◌+◌, ◌-◌, ◌%◌, ◌≤◌, ◌<◌, ◌≡◌, refl, sym, ap, subst, take_all, ◌∙◌, true, ◌||◌, min, arith, ltb,
  ltb→le, Bool-cases, if◌then◌else◌, length, take, length-take, length-append, inl, inr,
}
use vacps.Process.Budget.{u64_mod, ProcessBudget, global_buffer_room, add_buffered}
use vacps.Process.State.{Bytes, ProcessStream, stdout, stderr, Capture, World}
use vacps.Process.Capture.{
  acc_of, max_of, produced_of, truncated_of, add_produced, set_truncated, capture_room, retain,
  append_capture, count_produced, mark_truncated,
}
use vacps.Process.Reading.Appends.{
  Grew, Same, Grew-nothing, Grew-Same_left, Grew-Same_right, retain-Grew,
}

-- What `append_capture` keeps of the bytes that were read.
abbrev pub kept_of : ProcessStream → Bytes → World → Bytes
kept_of s bytes w = take (min (length bytes) (capture_room s (length bytes) w)) bytes

add_produced-Same : (s : ProcessStream) (n : ℕ) (c : Capture) → Same c (add_produced s n c)
add_produced-Same stdout n c = record {
  accs = elim [ stdout ↦ refl | stderr ↦ refl ];
  chunks = refl;
  next = refl;
}
add_produced-Same stderr n c = record {
  accs = elim [ stdout ↦ refl | stderr ↦ refl ];
  chunks = refl;
  next = refl;
}

set_truncated-Same : (s : ProcessStream) (c : Capture) → Same c (set_truncated s c)
set_truncated-Same stdout c = record {
  accs = elim [ stdout ↦ refl | stderr ↦ refl ];
  chunks = refl;
  next = refl;
}
set_truncated-Same stderr c = record {
  accs = elim [ stdout ↦ refl | stderr ↦ refl ];
  chunks = refl;
  next = refl;
}

module _ (s : ProcessStream) (bytes : Bytes) (now : ℕ) (w : World) where
  abbrev room : ℕ
  room = capture_room s (length bytes) w

  -- The world after `produced += n`, and after the bytes that fit were kept.
  abbrev counted : World
  counted = record w { st = record w.st { capture = add_produced s (length bytes) w.capture } }

  abbrev filled : World
  filled = if ltb 0 room then retain s (kept_of s bytes w) now counted else counted

  filled-Grew : w.next_sequence + 1 < u64_mod → Grew w.capture filled.capture s (kept_of s bytes w)
  filled-Grew h =
      let begun : Same w.capture counted.capture = add_produced-Same s (length bytes) w.capture in
      elim (Bool-cases (ltb 0 room)) [
        | inl some_room ↦ rw some_room (
            Grew-Same_left w.capture counted.capture _ s (kept_of s bytes w) begun
              (retain-Grew s (kept_of s bytes w) now counted (omega (arith, begun.next))))
        | inr no_room ↦
            let nothing : min (length bytes) room ≡ 0 = omega (arith, ltb→le 0 room no_room) in
            rw (no_room, nothing) (Grew-nothing w.capture counted.capture s begun)
      ]

-- The bytes that the code takes are kept.
pub append_capture-Grew_kept :
    (s : ProcessStream) (bytes : Bytes) (now : ℕ) (w : World)
    → w.next_sequence + 1 < u64_mod
    → Grew w.capture (append_capture s bytes now w).capture s (kept_of s bytes w)
unfolding append_capture count_produced mark_truncated
append_capture-Grew_kept s bytes now w h =
    elim (Bool-cases (ltb (room s bytes now w) (length bytes))) [
      | inl lost ↦ rw lost (
          Grew-Same_right w.capture (filled s bytes now w).capture _ s (kept_of s bytes w)
            (filled-Grew s bytes now w h) (set_truncated-Same s (filled s bytes now w).capture))
      | inr whole ↦ rw whole (filled-Grew s bytes now w h)
    ]

-- The bytes that fit: the first ones, as many as the stream's cap leaves and, with a budget, as
-- many as the shared limit leaves.
abbrev pub fitting : ProcessStream → Bytes → World → Bytes
fitting s bytes w =
    let own = max_of s w.capture - length (acc_of s w.capture) in
    let shared = w.budget.max_total_buffer_bytes - w.budget.buffered in
    take (if w.has_budget then min own shared else own) bytes

take_same : (m n : ℕ) (xs : Bytes) → m ≡ min (length xs) n → take m xs ≡ take n xs
take_same m n xs h = elim (Bool-cases (ltb (length xs) n)) [
  | inl over ↦ take_all m xs (ground arith) ∙ sym (take_all n xs (ground arith))
  | inr within ↦ ap (λ (k : ℕ). take k xs) {x = m} {y = n} (ground arith)
]

kept_of-fitting :
    (s : ProcessStream) (bytes : Bytes) (w : World) → kept_of s bytes w ≡ fitting s bytes w
unfolding capture_room global_buffer_room
kept_of-fitting s bytes w = take_same _ _ bytes (ground arith)

-- After any read of a stream the buffers hold the bytes that fit the stream's cap and, with a
-- budget, the shared limit, behind what they held, the other stream is as it was, and the log of
-- every reader that has not passed the end grows by exactly these bytes (while the 64-bit chunk
-- number does not wrap).
pub append_capture-Grew :
    (s : ProcessStream) (bytes : Bytes) (now : ℕ) (w : World)
    → w.next_sequence + 1 < u64_mod
    → Grew w.capture (append_capture s bytes now w).capture s (fitting s bytes w)
append_capture-Grew s bytes now w h =
    subst (Grew w.capture (append_capture s bytes now w).capture s) (kept_of-fitting s bytes w)
      (append_capture-Grew_kept s bytes now w h)

-- How `append_capture` counts.
pub record Counted (s : ProcessStream) (bytes : Bytes) (w w' : World) : Type 0 where
  pub within :
      length (acc_of s w.capture) ≤ max_of s w.capture
      → length (acc_of s w'.capture) ≤ max_of s w'.capture
  pub produced : produced_of s w'.capture ≡ (produced_of s w.capture + length bytes) % u64_mod
  pub truncated :
      truncated_of s w'.capture
      ≡ (truncated_of s w.capture || ltb (length (kept_of s bytes w)) (length bytes))
  pub charged :
      w.has_budget ≡ true
      → w.budget.buffered ≤ w.budget.max_total_buffer_bytes
      → w.budget.max_total_buffer_bytes < u64_mod
      → (w'.budget.buffered ≡ w.budget.buffered + length (kept_of s bytes w))
        × (w'.budget.buffered ≤ w'.budget.max_total_buffer_bytes)

pub length-kept_of :
    (s : ProcessStream) (bytes : Bytes) (w : World)
    → length (kept_of s bytes w) ≡ min (length bytes) (capture_room s (length bytes) w)
length-kept_of s bytes w =
    omega (arith, length-take (min (length bytes) (capture_room s (length bytes) w)) bytes)

pub budget-append_capture :
    (s : ProcessStream) (bytes : Bytes) (now : ℕ) (w : World)
    → w.has_budget ≡ true
    → (append_capture s bytes now w).budget ≡ (
        if ltb 0 (capture_room s (length bytes) w)
        then add_buffered (length (kept_of s bytes w)) w.budget
        else w.budget)
unfolding append_capture count_produced mark_truncated retain
budget-append_capture s bytes now w has = ground arith

pub capture_room-le :
    (s : ProcessStream) (n : ℕ) (w : World)
    → w.has_budget ≡ true
    → capture_room s n w ≤ global_buffer_room w.budget
unfolding capture_room
capture_room-le s n w h = rw h (omega arith)

-- Bytes within the global room do not overflow the counter.
add_buffered-room :
    (n : ℕ) (b : ProcessBudget)
    → n ≤ global_buffer_room b
    → b.buffered ≤ b.max_total_buffer_bytes
    → b.max_total_buffer_bytes < u64_mod
    → ((add_buffered n b).buffered ≡ b.buffered + n)
      × ((add_buffered n b).buffered ≤ (add_buffered n b).max_total_buffer_bytes)
unfolding add_buffered global_buffer_room
add_buffered-room n b h le lt = (ground arith, ground arith)

pub append_capture-charged :
    (s : ProcessStream) (bytes : Bytes) (now : ℕ) (w : World)
    → w.has_budget ≡ true
    → w.budget.buffered ≤ w.budget.max_total_buffer_bytes
    → w.budget.max_total_buffer_bytes < u64_mod
    → let b = (append_capture s bytes now w).budget in
      (b.buffered ≡ w.budget.buffered + length (kept_of s bytes w))
      × (b.buffered ≤ b.max_total_buffer_bytes)
append_capture-charged s bytes now w has le lt =
    rw (budget-append_capture s bytes now w has)
      (elim (Bool-cases (ltb 0 (capture_room s (length bytes) w))) [
        | inl e ↦ rw e (
            add_buffered-room (length (kept_of s bytes w)) w.budget
              (omega (arith, length-kept_of s bytes w, capture_room-le s (length bytes) w has)) le
              lt)
        | inr e ↦ rw e (omega (arith, length-kept_of s bytes w, ltb→le _ _ e), le)
      ])

-- For any read: the buffer stays within its cap, every byte is counted as produced, the stream is
-- marked truncated exactly when a byte of it was dropped, now or before, and with a budget the
-- shared counter goes up by what was kept and stays within its limit, if it was within it.
pub append_capture-Counted :
    (s : ProcessStream) (bytes : Bytes) (now : ℕ) (w : World)
    → Counted s bytes w (append_capture s bytes now w)
unfolding append_capture count_produced mark_truncated retain capture_room
append_capture-Counted stdout bytes now w = record {
  within = λ h.
      ground
        (arith, length-append w.stdout_acc (kept_of stdout bytes w), length-kept_of stdout bytes w);
  produced = ground arith;
  truncated = ground (arith, length-kept_of stdout bytes w);
  charged = append_capture-charged stdout bytes now w;
}
append_capture-Counted stderr bytes now w = record {
  within = λ h.
      ground
        (arith, length-append w.stderr_acc (kept_of stderr bytes w), length-kept_of stderr bytes w);
  produced = ground arith;
  truncated = ground (arith, length-kept_of stderr bytes w);
  charged = append_capture-charged stderr bytes now w;
}

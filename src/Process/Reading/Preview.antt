-- ===== src/Process/Reading/Preview.antt =====
-- `utf8_prefix_size` and `Process::snapshot` of process.cpp, and the values that `Process::wait`
-- copies.
use Prim.Native.Nat.{bit_and}
use vacps.Prelude.{
  ℕ, zero, suc, ◌≤◌, ◌<◌, ◌≡◌, ◌⊎◌, inl, inr, refl, Bool, true, false, not, ◌&&◌, ◌||◌, [], ◌∷◌,
  min, arith, ltb, ◌==◌, if◌then◌else◌, length, take, take_all, length-take, Bool-cases, ltb→le,
  ltb→lt, ℕ_discrete, le→ltb,
}
use vacps.Process.State.{Bytes, World}
use vacps.Process.Reading.{ExitResult, exit_result}

-- The byte at an index below the length.
abbrev pub byte_at : Bytes → ℕ → ℕ
byte_at [] i = 0
byte_at (b ∷ bs) zero = b
byte_at (b ∷ bs) (suc i) = byte_at bs i

unfoldable pub is_continuation : ℕ → Bool
is_continuation b = bit_and b 0xc0 == 0x80

-- The loop: `end` falls while the byte at it continues a character.
unfoldable pub prefix_loop : Bytes → ℕ → ℕ
prefix_loop value zero = zero
prefix_loop value (suc end) =
    let rest = prefix_loop value end in
    if ltb (suc end) (length value) && is_continuation (byte_at value (suc end))
    then rest
    else suc end

unfoldable pub utf8_prefix_size : Bytes → ℕ → ℕ
utf8_prefix_size value max_bytes = prefix_loop value (min (length value) max_bytes)

pub record ProcessSnapshot : Type 0 where
  pub exit : ExitResult
  pub stdin_available : Bool
  pub stdout_str : Bytes
  pub stderr_str : Bytes
  pub stdout_bytes : ℕ
  pub stderr_bytes : ℕ
  pub stdout_truncated : Bool
  pub stderr_truncated : Bool

-- `substr(0, n)` does not throw.
unfoldable pub snapshot : World → ℕ → ℕ → ProcessSnapshot
snapshot w stdout_preview_bytes stderr_preview_bytes = record {
  exit = exit_result w;
  stdin_available = w.stdin_open && not w.finished;
  stdout_str = take (utf8_prefix_size w.stdout_acc stdout_preview_bytes) w.stdout_acc;
  stderr_str = take (utf8_prefix_size w.stderr_acc stderr_preview_bytes) w.stderr_acc;
  stdout_bytes = w.produced_out;
  stderr_bytes = w.produced_err;
  stdout_truncated = w.stdout_truncated || ltb stdout_preview_bytes (length w.stdout_acc);
  stderr_truncated = w.stderr_truncated || ltb stderr_preview_bytes (length w.stderr_acc);
}

-- What the loop leaves out: from the result on, each byte up to the first end continues.
pub record IsCut (value : Bytes) (end cut : ℕ) : Type 0 where
  pub below : cut ≤ end
  pub boundary : (cut ≡ 0) ⊎ ((length value ≤ cut) ⊎ (is_continuation (byte_at value cut) ≡ false))
  pub skipped :
      (i : ℕ) → cut < i → i ≤ end → (i < length value) × (is_continuation (byte_at value i) ≡ true)

prefix_loop-IsCut : (value : Bytes) (end : ℕ) → IsCut value end (prefix_loop value end)
unfolding prefix_loop
prefix_loop-IsCut value zero = record {
  below = omega arith;
  boundary = inl refl;
  skipped = λ i h k. absurd (omega arith);
}
prefix_loop-IsCut value (suc end) = elim (Bool-cases (ltb (suc end) (length value))) [
  | inr outside ↦ rw outside (record {
    below = omega arith;
    boundary = inr (inl (ltb→le _ _ outside));
    skipped = λ i h k. absurd (omega arith);
  })
  | inl inside ↦ elim (Bool-cases (is_continuation (byte_at value (suc end)))) [
    | inr first ↦
        rw (inside, first)
          (record {
            below = omega arith;
            boundary = inr (inr first);
            skipped = λ i h k. absurd (omega arith);
          })
    | inl more ↦
        let rest : IsCut value end (prefix_loop value end) = prefix_loop-IsCut value end in
        rw (inside, more)
          (record {
            below = omega (arith, rest.below);
            boundary = rest.boundary;
            skipped = λ i h k. elim (ℕ_discrete i (suc end)) [
              | yes e ↦ rw e (ltb→lt _ _ inside, more)
              | no e ↦ rest.skipped i h (omega arith)
            ];
          })
  ]
]

-- The size of a preview: at most the limit and the length; a place where a character starts, or
-- one of the two ends of the text; and every byte between it and the smaller of limit and length
-- continues a character, so that no shorter cut was needed.
pub utf8_prefix_size-IsCut :
    (value : Bytes) (max_bytes : ℕ)
    → IsCut value (min (length value) max_bytes) (utf8_prefix_size value max_bytes)
unfolding utf8_prefix_size
utf8_prefix_size-IsCut value max_bytes = prefix_loop-IsCut value (min (length value) max_bytes)

-- A text that fits is not cut.
utf8_prefix_size-fits :
    (value : Bytes) (max_bytes : ℕ)
    → length value ≤ max_bytes
    → utf8_prefix_size value max_bytes ≡ length value
unfolding utf8_prefix_size prefix_loop
utf8_prefix_size-fits value max_bytes h =
    let e : min (length value) max_bytes ≡ length value = omega arith in
    rw e (whole (length value) refl)
  where
    whole : (n : ℕ) → length value ≡ n → prefix_loop value n ≡ n
    whole zero p = refl
    whole (suc n) p = rw (le→ltb (suc n) (length value) (omega arith))

take-utf8_prefix_size :
    (value : Bytes) (max_bytes : ℕ)
    → ltb max_bytes (length value) ≡ false
    → take (utf8_prefix_size value max_bytes) value ≡ value
take-utf8_prefix_size value max_bytes h =
    rw (utf8_prefix_size-fits value max_bytes (ltb→le _ _ h))
      (take_all (length value) value (omega arith))

length-preview :
    (value : Bytes) (max_bytes : ℕ)
    → length (take (utf8_prefix_size value max_bytes) value) ≤ max_bytes
length-preview value max_bytes = omega (
  arith,
  length-take (utf8_prefix_size value max_bytes) value,
  (utf8_prefix_size-IsCut value max_bytes).below,
)

-- Of any world: a preview is not longer than its limit, and a stream that the snapshot does not
-- mark truncated is previewed whole and had lost nothing when it was captured.
pub snapshot-honest :
    (w : World) (out_limit err_limit : ℕ)
    → let r = snapshot w out_limit err_limit in
      (length r.stdout_str ≤ out_limit)
      × (length r.stderr_str ≤ err_limit)
      × (r.stdout_truncated ≡ false
          → (r.stdout_str ≡ w.stdout_acc) × (w.st.stdout_truncated ≡ false))
      × (r.stderr_truncated ≡ false
          → (r.stderr_str ≡ w.stderr_acc) × (w.st.stderr_truncated ≡ false))
unfolding snapshot
snapshot-honest w out_limit err_limit = (
  length-preview w.stdout_acc out_limit,
  length-preview w.stderr_acc err_limit,
  λ h. (take-utf8_prefix_size w.stdout_acc out_limit (ground arith), ground arith),
  λ h. (take-utf8_prefix_size w.stderr_acc err_limit (ground arith), ground arith),
)

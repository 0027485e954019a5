-- ===== src/File/Ranges.antt =====
-- The arithmetic of offsets in fs/file.cpp. An error is the `errno` that it carries.
use vacps.Prelude.{
  ℕ, ◌+◌, ◌-◌, ◌%◌, ◌≤◌, ◌≡◌, refl, arith, Bool, false, Option, none, some, ltb, leb, ◌==◌,
  if◌then◌else◌, inl, inr, not, ap, Bool-cases,
}
use vacps.Process.Budget.{u64_mod}

-- The largest `off_t` and the largest `std::uint64_t`, which `std::size_t` has too.
abbrev pub off_max : ℕ
off_max = 9223372036854775807

abbrev pub uint64_max : ℕ
uint64_max = 18446744073709551615

pub data Checked : Type 0 where
  fine out_of_range overflow : Checked

unfoldable pub offset_ok : ℕ → Bool
offset_ok offset = leb offset off_max

unfoldable pub offset_add_ok : ℕ → ℕ → Bool
offset_add_ok base delta =
    if ltb (uint64_max - base) delta then false else offset_ok ((base + delta) % u64_mod)

unfoldable pub check_range : ℕ → ℕ → Checked
check_range offset length =
    if not (offset_ok offset)
    then out_of_range
    else if length == 0
    then fine
    else if not (offset_add_ok offset (length - 1))
    then overflow
    else fine

-- The field `offset_`; `none` is the error `EOVERFLOW`, which leaves it.
unfoldable pub advance_cursor : ℕ → ℕ → Option ℕ
advance_cursor offset delta =
    if not (offset_add_ok offset delta) then none else some ((offset + delta) % u64_mod)

pub offset_add_ok-exact :
    (base delta : ℕ) → base ≤ uint64_max → offset_add_ok base delta ≡ leb (base + delta) off_max
unfolding offset_add_ok offset_ok
offset_add_ok-exact base delta h = ground arith

-- For an offset and a length of 64 bits, the range is fine exactly if every byte of it has an
-- offset that fits `off_t`, and an empty range if its offset does.
pub check_range-exact :
    (offset length : ℕ)
    → offset ≤ uint64_max
    → length ≤ uint64_max
    → check_range offset length ≡ (
        if ltb off_max offset
        then out_of_range
        else if leb (offset + length) (off_max + 1)
        then fine
        else if length == 0
        then fine
        else overflow)
unfolding check_range offset_ok
check_range-exact offset length h k = rw (offset_add_ok-exact offset (length - 1) h) (ground arith)

small : (n : ℕ) → n ≤ off_max → n % u64_mod ≡ n
small n h = omega arith

-- An advance from an offset of `off_t` gives the sum where that fits `off_t`, and fails else.
pub advance_cursor-exact :
    (offset delta : ℕ)
    → offset ≤ off_max
    → advance_cursor offset delta
      ≡ (if leb (offset + delta) off_max then some (offset + delta) else none)
unfolding advance_cursor
advance_cursor-exact offset delta h =
    let exact = offset_add_ok-exact offset delta (omega arith) in
    elim (Bool-cases (leb (offset + delta) off_max)) [
      | inl f ↦ rw (exact, f) (ap some (small (offset + delta) (ground arith)))
      | inr f ↦ rw (exact, f) refl
    ]

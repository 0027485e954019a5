-- ===== src/File/Reading.antt =====
-- `File::read` and `File::read_at` of fs/file.cpp. What pread(2) answers to the calls in turn, and
-- the bytes of the file, are arguments: it is interrupted, it fails, or it gives bytes, at least one
-- where there is one and one is wanted.
use vacps.Prelude.{
  ℕ, suc, ◌+◌, ◌-◌, ◌%◌, min, List, [], ◌∷◌, ◌++◌, Bool, true, not, Option, none, some, ltb, ◌==◌,
  if◌then◌else◌, length, take, drop,
}
use vacps.Process.State.{Bytes}
use vacps.Process.Budget.{u64_mod}
use vacps.File.Ranges.{uint64_max, Checked, fine, offset_add_ok, check_range}

pub data Life : Type 0 where
  open_life closing_life closed_life : Life

-- `control` is the descriptor of `control_fd`, if there is one.
pub record File : Type 0 where
  pub life : Life
  pub cursor : ℕ
  pub control : Option ℕ

-- `up_to n` gives at most `n + 1` bytes.
pub data Answer : Type 0 where
  interrupted : Answer
  failed : ℕ → Answer
  up_to : ℕ → Answer

-- What a read gives; `waiting` is a call that pread has not answered.
pub data ReadResult : Type 0 where
  bytes_read : Bytes → ReadResult
  file_is_closed over_hard_limit cursor_overflow waiting : ReadResult
  bad_range : Checked → ReadResult
  io_error : ℕ → ReadResult

abbrev pub k_default_max_read_bytes : ℕ
k_default_max_read_bytes = 16777216

abbrev pub k_hard_max_read_bytes : ℕ
k_hard_max_read_bytes = 67108864

abbrev pub k_chunk : ℕ
k_chunk = 65536

-- `none` is the error of a limit above the hard one.
unfoldable pub resolve_read_max : ℕ → Option ℕ
resolve_read_max max_bytes =
    if max_bytes == uint64_max
    then some k_default_max_read_bytes
    else if ltb k_hard_max_read_bytes max_bytes
    then none
    else some max_bytes

abbrev pub pread : Bytes → ℕ → ℕ → ℕ → Bytes
pread content at want n = take (min (suc n) want) (drop at content)

-- The loop with the bytes so far, whose number is `got`; `read` tests the offset in each round.
unfoldable pub read_loop : (ℕ → Bool) → Bytes → ℕ → ℕ → List Answer → Bytes → ReadResult
read_loop test content at max_bytes [] buf =
    if not (ltb (length buf) max_bytes)
    then bytes_read buf
    else if not (test (length buf))
    then cursor_overflow
    else waiting
read_loop test content at max_bytes (answer ∷ rest) buf =
    let want = min k_chunk (max_bytes - length buf) in
    if not (ltb (length buf) max_bytes)
    then bytes_read buf
    else if not (test (length buf))
    then cursor_overflow
    else elim answer [
      | interrupted ↦ read_loop test content at max_bytes rest buf
      | failed errno ↦ io_error errno
      | up_to n ↦
          let part = pread content ((at + length buf) % u64_mod) want n in
          let more = read_loop test content at max_bytes rest (buf ++ part) in
          if length part == 0 then bytes_read buf else more
    ]

-- Behind `ensure_open` and the range check.
abbrev pub read_range : (ℕ → Bool) → File → ℕ → ℕ → Bytes → List Answer → ReadResult
read_range test f at lim content answers = elim f.control [
  | none ↦ file_is_closed
  | some fd ↦ read_loop test content at lim answers []
]

abbrev pub in_range : Checked → ReadResult → ReadResult
in_range fine r = r
in_range c r = bad_range c

abbrev pub if_open : Life → ReadResult → ReadResult
if_open open_life r = r
if_open l r = file_is_closed

unfoldable pub read_bytes : (ℕ → Bool) → File → ℕ → ℕ → Bytes → List Answer → ReadResult
read_bytes test f at max_bytes content answers = elim (resolve_read_max max_bytes) [
  | none ↦ over_hard_limit
  | some lim ↦ if_open f.life (
      if lim == 0
      then bytes_read []
      else in_range (check_range at lim) (read_range test f at lim content answers))
]

unfoldable pub read_at : File → ℕ → ℕ → Bytes → List Answer → ReadResult
read_at f offset max_bytes content answers =
    read_bytes (λ got. true) f offset max_bytes content answers

-- The cursor behind the bytes.
abbrev pub advanced : File → ReadResult → File × ReadResult
advanced f (bytes_read buf) =
    if not (offset_add_ok f.cursor (length buf))
    then (f, cursor_overflow)
    else (record f { cursor = (f.cursor + length buf) % u64_mod }, bytes_read buf)
advanced f r = (f, r)

-- With a limit of no bytes `read` returns before the cursor is set.
abbrev pub moved : Option ℕ → File → ReadResult → File × ReadResult
moved none f r = (f, r)
moved (some lim) f r = if lim == 0 then (f, r) else advanced f r

unfoldable pub read : File → ℕ → Bytes → List Answer → File × ReadResult
read f max_bytes content answers =
    moved (resolve_read_max max_bytes) f
      (read_bytes (offset_add_ok f.cursor) f f.cursor max_bytes content answers)

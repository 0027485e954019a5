-- ===== src/Process/Reading.antt =====
-- `exit_result`, `has_unread` and `collect` of `Process::State`, and `utf8_prefix_size`,
-- `Process::snapshot` and the values that `Process::wait` copies, of process.cpp.
pub mod Log
pub mod Steps
pub mod Parts
pub mod Exact
pub mod Growth
pub mod Appends
pub mod Capturing
pub mod Session
pub mod Preview
use mathlib.Core.Option
use vacps.Prelude.{
  ℕ, zero, suc, ◌+◌, ◌-◌, ◌%◌, ℤ, min, List, [], ◌∷◌, ◌++◌, Bool, true, false, not, ◌&&◌, ◌||◌,
  Option, none, some, ◌>>=◌, ltb, leb, ◌==◌, if◌then◌else◌, length, take, drop,
}
use vacps.Process.Budget.{u64_mod}
use vacps.Process.State.{Bytes, ProcessStatus, exited, ProcessStream, ChunkRef, Capture, World}
use vacps.Process.Capture.{acc_of}

pub record ExitResult : Type 0 where
  pub status : ProcessStatus
  pub exit_code : Option ℤ
  pub signal : Option ℕ
  pub timed_out : Bool

pub record OutputCursor : Type 0 where
  pub sequence : ℕ
  pub byte_offset : ℕ

-- `wait` is in milliseconds.
pub record ReadOptions : Type 0 where
  pub cursor : OutputCursor
  pub max_bytes : ℕ
  pub wait : ℕ

-- `text` is the field `data`.
pub record OutputChunk : Type 0 where
  pub sequence : ℕ
  pub stream : ProcessStream
  pub text : Bytes
  pub observed_at_ms : ℕ
  pub offset_start : ℕ
  pub offset_end : ℕ

pub record ReadResult : Type 0 where
  pub exit : ExitResult
  pub chunks : List OutputChunk
  pub next_cursor : OutputCursor
  pub eof : Bool
  pub returned_bytes : ℕ

is_exited : ProcessStatus → Bool
is_exited exited = true
is_exited _ = false

unfoldable pub exit_result : World → ExitResult
unfolding is_exited
exit_result w = record {
  status = w.status;
  exit_code = if is_exited w.status then some w.exit_code else none;
  signal = if w.exit_signal == 0 then none else some w.exit_signal;
  timed_out = w.timed_out;
}

abbrev pub start_of : OutputCursor → ChunkRef → ℕ
start_of cursor chunk = if chunk.sequence == cursor.sequence then cursor.byte_offset else 0

unfoldable pub has_unread : OutputCursor → List ChunkRef → Bool
has_unread cursor [] = false
has_unread cursor (chunk ∷ rest) =
    let later = has_unread cursor rest in
    if ltb chunk.sequence cursor.sequence
    then later
    else if ltb (start_of cursor chunk) chunk.size
    then true
    else later

-- `std::string::substr`; `none` is `std::out_of_range`.
unfoldable pub substr : Bytes → ℕ → ℕ → Option Bytes
substr s at n = if ltb (length s) at then none else some (take n (drop at s))

abbrev pub cursor_after : ChunkRef → OutputCursor
cursor_after chunk = record { sequence = (chunk.sequence + 1) % u64_mod; byte_offset = 0 }

abbrev pub part_cursor : ChunkRef → ℕ → OutputCursor
part_cursor chunk end =
    if ltb end chunk.size
    then record { sequence = chunk.sequence; byte_offset = end }
    else cursor_after chunk

abbrev pub with_part : ChunkRef → ℕ → ℕ → ReadResult → Bytes → ReadResult
with_part chunk start n r text = record r {
  chunks =
      r.chunks
      ++ record {
        sequence = chunk.sequence;
        stream = chunk.stream;
        text = text;
        observed_at_ms = chunk.observed_at_ms;
        offset_start = start;
        offset_end = start + n;
      }
        ∷ [];
  returned_bytes = r.returned_bytes + n;
  next_cursor = part_cursor chunk (start + n);
}

-- The part of the loop body that copies the chunk from `start` on.
abbrev pub emit : Capture → ℕ → ChunkRef → ℕ → ReadResult → Option ReadResult
emit c max_bytes chunk start r =
    let n = min (chunk.size - start) (max_bytes - r.returned_bytes) in
    Option.map (with_part chunk start n r)
      (substr (acc_of chunk.stream c) (chunk.stream_offset + start) n)

unfoldable pub collect_loop : Capture → ℕ → List ChunkRef → ReadResult → Option ReadResult
collect_loop c max_bytes [] r = some r
collect_loop c max_bytes (chunk ∷ rest) r =
    let skipped = collect_loop c max_bytes rest r in
    let passed = collect_loop c max_bytes rest (record r { next_cursor = cursor_after chunk }) in
    let go_on = λ (r' : ReadResult).
      let more = collect_loop c max_bytes rest r' in
      if leb max_bytes r'.returned_bytes then some r' else more in
    if ltb chunk.sequence r.next_cursor.sequence
    then skipped
    else if leb chunk.size (start_of r.next_cursor chunk)
    then passed
    else if leb max_bytes r.returned_bytes
    then some r
    else emit c max_bytes chunk (start_of r.next_cursor chunk) r >>= go_on

unfoldable pub start_reading : World → ReadOptions → ReadResult
start_reading w options = record {
  exit = exit_result w;
  chunks = [];
  next_cursor = options.cursor;
  eof = false;
  returned_bytes = 0;
}

-- `none` is the exception of `substr`.
unfoldable pub collect : World → ReadOptions → Option ReadResult
unfolding start_reading
collect w options =
    Option.map
      (λ (r : ReadResult). record r { eof = w.finished && not (has_unread r.next_cursor w.chunks) })
      (collect_loop w.capture options.max_bytes w.chunks (start_reading w options))

-- ===== src/Process/Capture.antt =====
-- `append_capture` and `clear_buffers` of `Process::State`.
use vacps.Prelude.{
  ℕ, ◌+◌, ◌-◌, ◌%◌, min, [], ◌∷◌, ◌++◌, map, Bool, true, ltb, if◌then◌else◌, length, take,
}
use vacps.Process.Budget.{u64_mod, global_buffer_room, add_buffered, sub_buffered}
use vacps.Process.State.{Bytes, ProcessStream, stdout, stderr, Capture, World, wake}

unfoldable pub notify_read_waiters : World → World
notify_read_waiters w = record w {
  st = record w.st { read_waiters = [] };
  effects = w.effects ++ map wake w.read_waiters;
}

abbrev pub acc_of : ProcessStream → Capture → Bytes
acc_of stdout c = c.stdout_acc
acc_of stderr c = c.stderr_acc

abbrev pub max_of : ProcessStream → Capture → ℕ
max_of stdout c = c.max_out
max_of stderr c = c.max_err

abbrev pub produced_of : ProcessStream → Capture → ℕ
produced_of stdout c = c.produced_out
produced_of stderr c = c.produced_err

abbrev pub truncated_of : ProcessStream → Capture → Bool
truncated_of stdout c = c.stdout_truncated
truncated_of stderr c = c.stderr_truncated

-- The assignments through the references `produced`, `acc` and `truncated`.
abbrev pub add_produced : ProcessStream → ℕ → Capture → Capture
add_produced stdout n c = record c { produced_out = (c.produced_out + n) % u64_mod }
add_produced stderr n c = record c { produced_err = (c.produced_err + n) % u64_mod }

abbrev pub set_acc : ProcessStream → Bytes → Capture → Capture
set_acc stdout bs c = record c { stdout_acc = bs }
set_acc stderr bs c = record c { stderr_acc = bs }

abbrev pub set_truncated : ProcessStream → Capture → Capture
set_truncated stdout c = record c { stdout_truncated = true }
set_truncated stderr c = record c { stderr_truncated = true }

-- `std::min(entry_room, global_room)` for a read of `n` bytes.
unfoldable pub capture_room : ProcessStream → ℕ → World → ℕ
capture_room s n w =
    let global_room = if w.has_budget then global_buffer_room w.budget else n in
    let used = length (acc_of s w.capture) in
    let cap = max_of s w.capture in
    let entry_room : ℕ = if ltb used cap then cap - used else 0 in min entry_room global_room

-- The body of `if (room > 0)` for `taken` bytes, at the time `now`.
unfoldable pub retain : ProcessStream → Bytes → ℕ → World → World
unfolding notify_read_waiters
retain s taken now w = notify_read_waiters (record w {
  st = record w.st {
    capture = record (set_acc s (acc_of s w.capture ++ taken) w.capture) {
      chunks =
          w.chunks
          ++ record {
            sequence = w.next_sequence;
            stream = s;
            stream_offset = length (acc_of s w.capture);
            size = length taken;
            observed_at_ms = now;
          }
            ∷ [];
      next_sequence = (w.next_sequence + 1) % u64_mod;
    };
  };
  budget = if w.has_budget then add_buffered (length taken) w.budget else w.budget;
})

unfoldable pub count_produced : ProcessStream → ℕ → World → World
count_produced s n w = record w { st = record w.st { capture = add_produced s n w.capture } }

unfoldable pub mark_truncated : ProcessStream → World → World
mark_truncated s w = record w { st = record w.st { capture = set_truncated s w.capture } }

unfoldable pub append_capture : ProcessStream → Bytes → ℕ → World → World
append_capture s bytes now w =
    let n = length bytes in
    let room = capture_room s n w in
    let w₁ = count_produced s n w in
    let w₂ = if ltb 0 room then retain s (take (min n room) bytes) now w₁ else w₁ in
    if ltb room n then mark_truncated s w₂ else w₂

unfoldable pub clear_buffers : World → World
clear_buffers w = record w {
  st = record w.st { capture = record w.capture { stdout_acc = []; stderr_acc = []; chunks = [] } };
  budget =
      if w.has_budget
      then sub_buffered [] (length w.stdout_acc + length w.stderr_acc) w.budget
      else w.budget;
}

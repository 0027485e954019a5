-- ===== src/File/Examples.antt =====
-- Tests of the model of files, and the theorems at concrete inputs.
use vacps.Prelude.{◌+◌, ◌≡◌, refl, arith, [], ◌∷◌, some, none, ltb, leb, ◌==◌, if◌then◌else◌}
use vacps.File.Modes.{
  open_mode_to_string, open_mode_creates, open_mode_appends, posix_open_flags, any_flag, is_creat,
  is_append, open_mode_from_string, append_read, posix_open_flags-agree,
}
use vacps.File.Ranges.{
  off_max, fine, out_of_range, overflow, check_range, check_range-exact, advance_cursor,
  advance_cursor-exact, offset_ok, offset_add_ok,
}
use vacps.Process.State.{Bytes}
use vacps.File.Reading.{
  open_life, File, interrupted, up_to, bytes_read, resolve_read_max, read_loop, read_bytes, read_at,
  read,
}
use vacps.File.Reads.{IsRead, read-IsRead}

last_byte : check_range off_max 1 ≡ fine
unfolding check_range offset_ok offset_add_ok
last_byte = refl

past_the_end : check_range off_max 2 ≡ overflow
unfolding check_range offset_ok offset_add_ok
past_the_end = refl

posix_open_flags-agree_example :
    (any_flag is_creat (posix_open_flags append_read) ≡ open_mode_creates append_read)
    × ((any_flag is_append (posix_open_flags append_read) ≡ open_mode_appends append_read)
        × (open_mode_from_string (open_mode_to_string append_read) ≡ some append_read))
posix_open_flags-agree_example = posix_open_flags-agree append_read

check_range-exact_example : check_range 10 20 ≡ (
    if ltb off_max 10
    then out_of_range
    else if leb (10 + 20) (off_max + 1)
    then fine
    else if 20 == 0
    then fine
    else overflow)
check_range-exact_example = check_range-exact 10 20 (omega arith) (omega arith)

advance_cursor-exact_example :
    advance_cursor 10 20 ≡ (if leb (10 + 20) off_max then some (10 + 20) else none)
advance_cursor-exact_example = advance_cursor-exact 10 20 (omega arith)

abbrev open_file : File
open_file = record { life = open_life; cursor = 1; control = some 3 }

abbrev five_bytes : Bytes
five_bytes = b'a' ∷ b'b' ∷ b'c' ∷ b'd' ∷ b'e' ∷ []

short_reads : read open_file 3 five_bytes (up_to 0 ∷ interrupted ∷ up_to 9 ∷ []) ≡ (
  record { life = open_life; cursor = 4; control = some 3 },
  bytes_read (b'b' ∷ b'c' ∷ b'd' ∷ []),
)
unfolding read read_bytes read_loop resolve_read_max check_range offset_ok offset_add_ok
short_reads = refl

end_of_file : read_at open_file 4 10 five_bytes (up_to 9 ∷ up_to 9 ∷ []) ≡ bytes_read (b'e' ∷ [])
unfolding read_at read_bytes read_loop resolve_read_max check_range offset_ok offset_add_ok
end_of_file = refl

read-IsRead_example :
    IsRead open_file 3 five_bytes
      (up_to 0 ∷ interrupted ∷ up_to 9 ∷ [])
      (read open_file 3 five_bytes (up_to 0 ∷ interrupted ∷ up_to 9 ∷ []))
read-IsRead_example =
    read-IsRead open_file 3 five_bytes (up_to 0 ∷ interrupted ∷ up_to 9 ∷ []) (omega arith)
      (omega arith)

-- ===== src/CommandLine/Names.antt =====
-- The literals that host/command_line.cpp compares arguments with, and the comparison.
use vacps.Prelude.{[], ◌∷◌, Bool, true, false, ◌&&◌, ◌==◌}
use vacps.Process.State.{Bytes}

unfoldable pub same_bytes : Bytes → Bytes → Bool
same_bytes [] [] = true
same_bytes [] (d ∷ ds) = false
same_bytes (c ∷ cs) [] = false
same_bytes (c ∷ cs) (d ∷ ds) = c == d && same_bytes cs ds

abbrev pub opt_script : Bytes
opt_script = b'-' ∷ b'-' ∷ b's' ∷ b'c' ∷ b'r' ∷ b'i' ∷ b'p' ∷ b't' ∷ []

abbrev pub opt_data_dir : Bytes
opt_data_dir = b'-' ∷ b'-' ∷ b'd' ∷ b'a' ∷ b't' ∷ b'a' ∷ b'-' ∷ b'd' ∷ b'i' ∷ b'r' ∷ []

abbrev pub opt_log_level : Bytes
opt_log_level = b'-' ∷ b'-' ∷ b'l' ∷ b'o' ∷ b'g' ∷ b'-' ∷ b'l' ∷ b'e' ∷ b'v' ∷ b'e' ∷ b'l' ∷ []

abbrev pub opt_ca_bundle : Bytes
opt_ca_bundle = b'-' ∷ b'-' ∷ b'c' ∷ b'a' ∷ b'-' ∷ b'b' ∷ b'u' ∷ b'n' ∷ b'd' ∷ b'l' ∷ b'e' ∷ []

abbrev pub opt_js_heap : Bytes
opt_js_heap =
    b'-' ∷ b'-' ∷ b'j' ∷ b's' ∷ b'-' ∷ b'h' ∷ b'e' ∷ b'a' ∷ b'p' ∷ b'-' ∷ b'l' ∷ b'i' ∷ b'm' ∷ b'i'
    ∷ b't' ∷ b'-' ∷ b'b' ∷ b'y' ∷ b't' ∷ b'e' ∷ b's' ∷ []

abbrev pub opt_js_stack : Bytes
opt_js_stack =
    b'-' ∷ b'-' ∷ b'j' ∷ b's' ∷ b'-' ∷ b's' ∷ b't' ∷ b'a' ∷ b'c' ∷ b'k' ∷ b'-' ∷ b'l' ∷ b'i' ∷ b'm'
    ∷ b'i' ∷ b't' ∷ b'-' ∷ b'b' ∷ b'y' ∷ b't' ∷ b'e' ∷ b's' ∷ []

abbrev pub opt_js_time : Bytes
opt_js_time =
    b'-' ∷ b'-' ∷ b'j' ∷ b's' ∷ b'-' ∷ b't' ∷ b'i' ∷ b'm' ∷ b'e' ∷ b'-' ∷ b'b' ∷ b'u' ∷ b'd' ∷ b'g'
    ∷ b'e' ∷ b't' ∷ b'-' ∷ b'm' ∷ b's' ∷ []

abbrev pub opt_lifecycle : Bytes
opt_lifecycle =
    b'-' ∷ b'-' ∷ b'l' ∷ b'i' ∷ b'f' ∷ b'e' ∷ b'c' ∷ b'y' ∷ b'c' ∷ b'l' ∷ b'e' ∷ b'-' ∷ b't' ∷ b'i'
    ∷ b'm' ∷ b'e' ∷ b'o' ∷ b'u' ∷ b't' ∷ b'-' ∷ b'm' ∷ b's' ∷ []

abbrev pub opt_help : Bytes
opt_help = b'-' ∷ b'-' ∷ b'h' ∷ b'e' ∷ b'l' ∷ b'p' ∷ []

abbrev pub opt_h : Bytes
opt_h = b'-' ∷ b'h' ∷ []

abbrev pub opt_version : Bytes
opt_version = b'-' ∷ b'-' ∷ b'v' ∷ b'e' ∷ b'r' ∷ b's' ∷ b'i' ∷ b'o' ∷ b'n' ∷ []

abbrev pub opt_v : Bytes
opt_v = b'-' ∷ b'V' ∷ []

abbrev pub level_trace : Bytes
level_trace = b't' ∷ b'r' ∷ b'a' ∷ b'c' ∷ b'e' ∷ []

abbrev pub level_debug : Bytes
level_debug = b'd' ∷ b'e' ∷ b'b' ∷ b'u' ∷ b'g' ∷ []

abbrev pub level_info : Bytes
level_info = b'i' ∷ b'n' ∷ b'f' ∷ b'o' ∷ []

abbrev pub level_warn : Bytes
level_warn = b'w' ∷ b'a' ∷ b'r' ∷ b'n' ∷ []

abbrev pub level_error : Bytes
level_error = b'e' ∷ b'r' ∷ b'r' ∷ b'o' ∷ b'r' ∷ []

abbrev pub level_critical : Bytes
level_critical = b'c' ∷ b'r' ∷ b'i' ∷ b't' ∷ b'i' ∷ b'c' ∷ b'a' ∷ b'l' ∷ []

abbrev pub level_off : Bytes
level_off = b'o' ∷ b'f' ∷ b'f' ∷ []

abbrev pub default_data_dir : Bytes
default_data_dir = b'd' ∷ b'a' ∷ b't' ∷ b'a' ∷ []

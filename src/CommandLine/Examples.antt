-- ===== src/CommandLine/Examples.antt =====
-- Tests of the model of the command line, and the theorems at concrete inputs.
use vacps.Prelude.{◌≡◌, refl, arith, [], ◌∷◌, not, ◌&&◌, some, none, leb, if◌then◌else◌}
use vacps.Process.State.{Bytes}
use vacps.CommandLine.{
  value, run_action, help_action, default_options, fails, duplicate, help_not_alone,
}
use vacps.CommandLine.Names.{same_bytes, opt_h, opt_script, opt_help, opt_js_heap, level_debug}
use vacps.CommandLine.Numbers.{parse_unsigned_full, u64_max}
use vacps.CommandLine.Parser.{
  parse_command_line, parse_loop, handle, contains_equals, set_option, set_script, see_help,
  require_value, choose_action, is_canonical_log_level,
}
use vacps.CommandLine.Exact.{accepted, is_empty, all_digits, decimal, parse_unsigned_full-exact}
use vacps.CommandLine.Valid.{Holds}
use vacps.CommandLine.Sound.{IsAccepted, parse_command_line-Holds}
use vacps.CommandLine.Complete.{
  Values, IsInRange, arguments_of, options_of, parse_command_line-arguments_of,
}

abbrev program : Bytes
program = b'a' ∷ []

abbrev main_script : Bytes
main_script = b'm' ∷ b'.' ∷ b'j' ∷ b's' ∷ []

abbrev sample : Values
sample = record {
  script = main_script;
  data_dir = b'd' ∷ [];
  log_level = level_debug;
  ca_bundle = b'c' ∷ [];
  heap = b'6' ∷ b'4' ∷ [];
  stack = b'3' ∷ b'2' ∷ [];
  budget = b'0' ∷ [];
  timeout = b'1' ∷ b'0' ∷ [];
}

help_alone :
    parse_command_line (program ∷ opt_h ∷ [])
    ≡ value (record { action = help_action; options = default_options })
unfolding parse_command_line parse_loop handle contains_equals see_help choose_action same_bytes
help_alone = refl

script_twice :
    parse_command_line (program ∷ opt_script ∷ main_script ∷ opt_script ∷ main_script ∷ [])
    ≡ fails (duplicate opt_script) opt_script
unfolding parse_command_line parse_loop handle contains_equals set_option set_script require_value
    same_bytes
script_twice = refl

help_with_script :
    parse_command_line (program ∷ opt_help ∷ opt_script ∷ main_script ∷ [])
    ≡ fails help_not_alone opt_help
unfolding parse_command_line parse_loop handle contains_equals set_option set_script require_value
    same_bytes see_help choose_action
help_with_script = refl

parse_unsigned_full-exact_example :
    accepted (parse_unsigned_full u64_max opt_js_heap sample.heap) ≡ (
      if not (is_empty sample.heap) && (all_digits sample.heap && leb (decimal sample.heap) u64_max)
      then some (decimal sample.heap)
      else none)
parse_unsigned_full-exact_example = parse_unsigned_full-exact u64_max opt_js_heap sample.heap

parse_command_line-Holds_example :
    Holds IsAccepted (parse_command_line (program ∷ arguments_of sample))
parse_command_line-Holds_example = parse_command_line-Holds (program ∷ arguments_of sample)

sample-IsInRange : IsInRange sample
unfolding same_bytes is_canonical_log_level all_digits decimal
sample-IsInRange = record {
  script = record { given = refl; no_dash = refl };
  data_dir = record { given = refl; no_dash = refl };
  log_level = (record { given = refl; no_dash = refl }, refl);
  ca_bundle = record { given = refl; no_dash = refl };
  heap = (
    record {
      argument = record { given = refl; no_dash = refl };
      digits = refl;
      fits = omega arith;
    },
    refl,
  );
  stack = (
    record {
      argument = record { given = refl; no_dash = refl };
      digits = refl;
      fits = omega arith;
    },
    refl,
  );
  budget = record {
    argument = record { given = refl; no_dash = refl };
    digits = refl;
    fits = omega arith;
  };
  timeout = (
    record {
      argument = record { given = refl; no_dash = refl };
      digits = refl;
      fits = omega arith;
    },
    refl,
  );
}

parse_command_line-arguments_of_example :
    parse_command_line (program ∷ arguments_of sample)
    ≡ value (record { action = run_action; options = options_of sample })
parse_command_line-arguments_of_example =
    parse_command_line-arguments_of program sample sample-IsInRange

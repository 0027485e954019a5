-- ===== src/CommandLine/Parser.antt =====
-- `parse_command_line` and the helpers that it calls.
use vacps.Prelude.{ℕ, List, [], ◌∷◌, Bool, true, false, not, ◌&&◌, ◌||◌, ◌==◌, if◌then◌else◌}
use vacps.Process.State.{Bytes}
use vacps.CommandLine.{
  Expected, value, fails, ◌then_do◌, Options, default_options, SeenFlags, nothing_seen,
  ParsedCommandLine, run_action, help_action, version_action, empty_argv, empty_argument,
  help_and_version, help_not_alone, version_not_alone, unknown, missing, empty, duplicate,
  positional, invalid, unknown_level, not_positive,
}
use vacps.CommandLine.Names.{
  same_bytes, opt_script, opt_data_dir, opt_log_level, opt_ca_bundle, opt_js_heap, opt_js_stack,
  opt_js_time, opt_lifecycle, opt_help, opt_h, opt_version, opt_v, level_trace, level_debug,
  level_info, level_warn, level_error, level_critical, level_off,
}
use vacps.CommandLine.Numbers.{parse_unsigned_full, parse_milliseconds, u64_max}

-- `starts_with('-')` and `contains('=')`.
abbrev pub starts_with_dash : Bytes → Bool
starts_with_dash [] = false
starts_with_dash (c ∷ cs) = c == b'-'

unfoldable pub contains_equals : Bytes → Bool
contains_equals [] = false
contains_equals (c ∷ cs) = c == b'=' || contains_equals cs

unfoldable pub is_canonical_log_level : Bytes → Bool
is_canonical_log_level level =
    same_bytes level level_trace
    || (same_bytes level level_debug
        || (same_bytes level level_info
            || (same_bytes level level_warn
                || (same_bytes level level_error
                    || (same_bytes level level_critical || same_bytes level level_off)))))

-- The local variables of the loop.
pub record Progress : Type 0 where
  pub options : Options
  pub seen : SeenFlags

-- The value of an option, given the arguments behind it.
unfoldable pub require_value : Bytes → List Bytes → Expected Bytes
require_value option [] = fails (missing option) option
require_value option (v ∷ rest) =
    if same_bytes v []
    then fails (empty option) option
    else if starts_with_dash v
    then fails (missing option) option
    else value v

unfoldable pub set_script : Bytes → List Bytes → Progress → Expected Progress
set_script arg rest p =
    if p.seen.script
    then fails (duplicate arg) arg
    else require_value arg rest then_do λ (v : Bytes). value (record {
      options = record p.options { script_path = v };
      seen = record p.seen { script = true };
    })

unfoldable pub set_data_dir : Bytes → List Bytes → Progress → Expected Progress
set_data_dir arg rest p =
    if p.seen.seen_data_dir
    then fails (duplicate arg) arg
    else require_value arg rest then_do λ (v : Bytes). value (record {
      options = record p.options { data_dir = v };
      seen = record p.seen { seen_data_dir = true };
    })

unfoldable pub set_log_level : Bytes → List Bytes → Progress → Expected Progress
set_log_level arg rest p =
    if p.seen.seen_log_level
    then fails (duplicate arg) arg
    else require_value arg rest then_do λ (v : Bytes).
        if is_canonical_log_level v
        then value (record {
          options = record p.options { log_level = v };
          seen = record p.seen { seen_log_level = true };
        })
        else fails (invalid arg v unknown_level) arg

unfoldable pub set_ca_bundle : Bytes → List Bytes → Progress → Expected Progress
set_ca_bundle arg rest p =
    if p.seen.seen_ca_bundle
    then fails (duplicate arg) arg
    else require_value arg rest then_do λ (v : Bytes). value (record {
      options = record p.options { ca_bundle = v };
      seen = record p.seen { seen_ca_bundle = true };
    })

unfoldable pub set_heap_limit : Bytes → List Bytes → Progress → Expected Progress
set_heap_limit arg rest p =
    if p.seen.js_heap
    then fails (duplicate arg) arg
    else require_value arg rest then_do λ (v : Bytes).
        parse_unsigned_full u64_max arg v then_do λ (n : ℕ).
        if n == 0
        then fails (invalid arg v not_positive) arg
        else value (record {
          options = record p.options { heap_limit_bytes = n };
          seen = record p.seen { js_heap = true };
        })

unfoldable pub set_stack_limit : Bytes → List Bytes → Progress → Expected Progress
set_stack_limit arg rest p =
    if p.seen.js_stack
    then fails (duplicate arg) arg
    else require_value arg rest then_do λ (v : Bytes).
        parse_unsigned_full u64_max arg v then_do λ (n : ℕ).
        if n == 0
        then fails (invalid arg v not_positive) arg
        else value (record {
          options = record p.options { stack_limit_bytes = n };
          seen = record p.seen { js_stack = true };
        })

unfoldable pub set_time_budget : Bytes → List Bytes → Progress → Expected Progress
set_time_budget arg rest p =
    if p.seen.js_time
    then fails (duplicate arg) arg
    else require_value arg rest then_do λ (v : Bytes). parse_milliseconds arg v then_do λ (n : ℕ).
        value (record {
          options = record p.options { js_time_budget = n };
          seen = record p.seen { js_time = true };
        })

unfoldable pub set_lifecycle_timeout : Bytes → List Bytes → Progress → Expected Progress
set_lifecycle_timeout arg rest p =
    if p.seen.lifecycle
    then fails (duplicate arg) arg
    else require_value arg rest then_do λ (v : Bytes). parse_milliseconds arg v then_do λ (n : ℕ).
        if n == 0
        then fails (invalid arg v not_positive) arg
        else value (record {
          options = record p.options { lifecycle_timeout = n };
          seen = record p.seen { lifecycle = true };
        })

unfoldable pub see_help : Bytes → Progress → Expected Progress
see_help arg p =
    if p.seen.help
    then fails (duplicate arg) arg
    else value (record p { seen = record p.seen { help = true } })

unfoldable pub see_version : Bytes → Progress → Expected Progress
see_version arg p =
    if p.seen.version
    then fails (duplicate arg) arg
    else value (record p { seen = record p.seen { version = true } })

-- Whether the argument behind was taken as a value.
abbrev pub taking : Bool → Expected Progress → Expected (Progress × Bool)
taking took result = result then_do λ (p : Progress). value (p, took)

unfoldable pub set_option : Bytes → List Bytes → Progress → Expected Progress
set_option arg rest p =
    if same_bytes arg opt_script
    then set_script arg rest p
    else if same_bytes arg opt_data_dir
    then set_data_dir arg rest p
    else if same_bytes arg opt_log_level
    then set_log_level arg rest p
    else if same_bytes arg opt_ca_bundle
    then set_ca_bundle arg rest p
    else if same_bytes arg opt_js_heap
    then set_heap_limit arg rest p
    else if same_bytes arg opt_js_stack
    then set_stack_limit arg rest p
    else if same_bytes arg opt_js_time
    then set_time_budget arg rest p
    else if same_bytes arg opt_lifecycle
    then set_lifecycle_timeout arg rest p
    else if starts_with_dash arg
    then fails (unknown arg) arg
    else fails (positional arg) []

-- The body of the loop, given the arguments behind.
unfoldable pub handle : Bytes → List Bytes → Progress → Expected (Progress × Bool)
handle arg rest p =
    if same_bytes arg []
    then fails empty_argument []
    else if starts_with_dash arg && contains_equals arg
    then fails (unknown arg) arg
    else if same_bytes arg opt_help || same_bytes arg opt_h
    then taking false (see_help arg p)
    else if same_bytes arg opt_version || same_bytes arg opt_v
    then taking false (see_version arg p)
    else taking true (set_option arg rest p)

-- The loop; `skip` is whether the next argument was taken as a value.
unfoldable pub parse_loop : List Bytes → Bool → Progress → Expected Progress
parse_loop [] skip p = value p
parse_loop (arg ∷ rest) skip p =
    let skipped = parse_loop rest false p in
    let go_on = λ (next : Progress × Bool). parse_loop rest next.1 next.0 in
    if skip then skipped else handle arg rest p then_do go_on

abbrev pub any_value_option : SeenFlags → Bool
any_value_option seen =
    seen.script
    || (seen.seen_data_dir
        || (seen.seen_log_level
            || (seen.seen_ca_bundle
                || (seen.js_heap || (seen.js_stack || (seen.js_time || seen.lifecycle))))))

unfoldable pub choose_action : Progress → Expected ParsedCommandLine
choose_action p =
    let alone = not (any_value_option p.seen) in
    if p.seen.help && p.seen.version
    then fails help_and_version opt_help
    else if p.seen.help
    then if alone
      then value (record { action = help_action; options = p.options })
      else fails help_not_alone opt_help
    else if p.seen.version
    then if alone
      then value (record { action = version_action; options = p.options })
      else fails version_not_alone opt_version
    else value (record { action = run_action; options = p.options })

unfoldable pub parse_command_line : List Bytes → Expected ParsedCommandLine
parse_command_line [] = fails empty_argv []
parse_command_line (program ∷ args) =
    parse_loop args false (record { options = default_options; seen = nothing_seen })
    then_do choose_action

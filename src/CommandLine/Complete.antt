-- ===== src/CommandLine/Complete.antt =====
-- Which command lines are accepted: every option once, with a value in its range.
use vacps.Prelude.{
  ltb, ℕ, ◌≤◌, ◌≡◌, refl, ap, ◌∙◌, arith, List, [], ◌∷◌, true, false, some, leb, ◌==◌,
}
use vacps.Process.State.{Bytes}
use vacps.CommandLine.{Expected, value, unexpected, ◌then_do◌, Options, run_action}
use vacps.CommandLine.Names.{
  same_bytes, opt_script, opt_data_dir, opt_log_level, opt_ca_bundle, opt_js_heap, opt_js_stack,
  opt_js_time, opt_lifecycle,
}
use vacps.CommandLine.Numbers.{parse_unsigned_full, parse_milliseconds, u64_max, milliseconds_max}
use vacps.CommandLine.Exact.{all_digits, decimal, accepted, is_empty, parse_unsigned_full-exact}
use vacps.CommandLine.Valid.{IsArgument}
use vacps.CommandLine.Parser.{
  contains_equals, is_canonical_log_level, Progress, require_value, set_script, set_data_dir,
  set_log_level, set_ca_bundle, set_heap_limit, set_stack_limit, set_time_budget,
  set_lifecycle_timeout, set_option, handle, parse_loop, choose_action, parse_command_line,
}

-- A numeral of a number up to the largest.
pub record IsNumeral (max : ℕ) (v : Bytes) : Type 0 where
  pub argument : IsArgument v
  pub digits : all_digits v ≡ true
  pub fits : decimal v ≤ max

require_value_lem :
    (option v : Bytes) (rest : List Bytes)
    → IsArgument v
    → require_value option (v ∷ rest) ≡ value v
unfolding require_value
require_value_lem option v rest a = rw (a.given, a.no_dash) refl

accepted-value : (r : Expected ℕ) (n : ℕ) → accepted r ≡ some n → r ≡ value n
accepted-value (value m) n h = cc
accepted-value (unexpected e) n h = absurd (cc)

not_empty : (v : Bytes) → same_bytes v [] ≡ false → is_empty v ≡ false
unfolding same_bytes
not_empty [] h = ground arith
not_empty (c ∷ cs) h = refl

numeral-accepted :
    (max : ℕ) (option v : Bytes)
    → IsNumeral max v
    → parse_unsigned_full max option v ≡ value (decimal v)
numeral-accepted max option v h =
    let fits : leb (decimal v) max ≡ true = let k = h.fits in ground arith in
    accepted-value (parse_unsigned_full max option v) (decimal v) (
      parse_unsigned_full-exact max option v
      ∙ (rw (not_empty v h.argument.given, h.digits, fits) refl))

parse_milliseconds_lem :
    (option v : Bytes)
    → IsNumeral milliseconds_max v
    → parse_milliseconds option v ≡ value (decimal v)
unfolding parse_milliseconds
parse_milliseconds_lem option v h =
    let wide : decimal v ≤ u64_max = let k = h.fits in omega arith in
    let fits : ltb milliseconds_max (decimal v) ≡ false = let k = h.fits in ground arith in
    let read =
      numeral-accepted u64_max option v
        (record { argument = h.argument; digits = h.digits; fits = wide }) in
    rw read (rw fits refl)

-- One round of the loop for each option, where the option is new and its value fits.
module _ (v : Bytes) (rest : List Bytes) (p : Progress) where
  script-step :
      p.seen.script ≡ false
      → IsArgument v
      → parse_loop (opt_script ∷ v ∷ rest) false p
        ≡ parse_loop rest false (record {
          options = record p.options { script_path = v };
          seen = record p.seen { script = true };
        })
  unfolding parse_loop handle contains_equals same_bytes set_option set_script
  script-step h a = rw (h, require_value_lem opt_script v rest a) refl

  data_dir-step :
      p.seen.seen_data_dir ≡ false
      → IsArgument v
      → parse_loop (opt_data_dir ∷ v ∷ rest) false p
        ≡ parse_loop rest false (record {
          options = record p.options { data_dir = v };
          seen = record p.seen { seen_data_dir = true };
        })
  unfolding parse_loop handle contains_equals same_bytes set_option set_data_dir
  data_dir-step h a = rw (h, require_value_lem opt_data_dir v rest a) refl

  ca_bundle-step :
      p.seen.seen_ca_bundle ≡ false
      → IsArgument v
      → parse_loop (opt_ca_bundle ∷ v ∷ rest) false p
        ≡ parse_loop rest false (record {
          options = record p.options { ca_bundle = v };
          seen = record p.seen { seen_ca_bundle = true };
        })
  unfolding parse_loop handle contains_equals same_bytes set_option set_ca_bundle
  ca_bundle-step h a = rw (h, require_value_lem opt_ca_bundle v rest a) refl

  log_level-step :
      p.seen.seen_log_level ≡ false
      → IsArgument v
      → is_canonical_log_level v ≡ true
      → parse_loop (opt_log_level ∷ v ∷ rest) false p
        ≡ parse_loop rest false (record {
          options = record p.options { log_level = v };
          seen = record p.seen { seen_log_level = true };
        })
  unfolding parse_loop handle contains_equals same_bytes set_option set_log_level
  log_level-step h a k = rw (h, require_value_lem opt_log_level v rest a) (rw k refl)

  heap_limit-step :
      p.seen.js_heap ≡ false
      → IsNumeral u64_max v
      → (decimal v == 0) ≡ false
      → parse_loop (opt_js_heap ∷ v ∷ rest) false p
        ≡ parse_loop rest false (record {
          options = record p.options { heap_limit_bytes = decimal v };
          seen = record p.seen { js_heap = true };
        })
  unfolding parse_loop handle contains_equals same_bytes set_option set_heap_limit
  heap_limit-step h a z =
      rw (h, require_value_lem opt_js_heap v rest a.argument)
        (rw (numeral-accepted u64_max opt_js_heap v a) (rw z refl))

  stack_limit-step :
      p.seen.js_stack ≡ false
      → IsNumeral u64_max v
      → (decimal v == 0) ≡ false
      → parse_loop (opt_js_stack ∷ v ∷ rest) false p
        ≡ parse_loop rest false (record {
          options = record p.options { stack_limit_bytes = decimal v };
          seen = record p.seen { js_stack = true };
        })
  unfolding parse_loop handle contains_equals same_bytes set_option set_stack_limit
  stack_limit-step h a z =
      rw (h, require_value_lem opt_js_stack v rest a.argument)
        (rw (numeral-accepted u64_max opt_js_stack v a) (rw z refl))

  time_budget-step :
      p.seen.js_time ≡ false
      → IsNumeral milliseconds_max v
      → parse_loop (opt_js_time ∷ v ∷ rest) false p
        ≡ parse_loop rest false (record {
          options = record p.options { js_time_budget = decimal v };
          seen = record p.seen { js_time = true };
        })
  unfolding parse_loop handle contains_equals same_bytes set_option set_time_budget
  time_budget-step h a =
      rw (h, require_value_lem opt_js_time v rest a.argument)
        (rw (parse_milliseconds_lem opt_js_time v a) refl)

  timeout-step :
      p.seen.lifecycle ≡ false
      → IsNumeral milliseconds_max v
      → (decimal v == 0) ≡ false
      → parse_loop (opt_lifecycle ∷ v ∷ rest) false p
        ≡ parse_loop rest false (record {
          options = record p.options { lifecycle_timeout = decimal v };
          seen = record p.seen { lifecycle = true };
        })
  unfolding parse_loop handle contains_equals same_bytes set_option set_lifecycle_timeout
  timeout-step h a z =
      rw (h, require_value_lem opt_lifecycle v rest a.argument)
        (rw (parse_milliseconds_lem opt_lifecycle v a) (rw z refl))

-- The texts of the values of all options.
pub record Values : Type 0 where
  pub script : Bytes
  pub data_dir : Bytes
  pub log_level : Bytes
  pub ca_bundle : Bytes
  pub heap : Bytes
  pub stack : Bytes
  pub budget : Bytes
  pub timeout : Bytes

pub record IsInRange (v : Values) : Type 0 where
  pub script : IsArgument v.script
  pub data_dir : IsArgument v.data_dir
  pub log_level : IsArgument v.log_level × (is_canonical_log_level v.log_level ≡ true)
  pub ca_bundle : IsArgument v.ca_bundle
  pub heap : IsNumeral u64_max v.heap × ((decimal v.heap == 0) ≡ false)
  pub stack : IsNumeral u64_max v.stack × ((decimal v.stack == 0) ≡ false)
  pub budget : IsNumeral milliseconds_max v.budget
  pub timeout : IsNumeral milliseconds_max v.timeout × ((decimal v.timeout == 0) ≡ false)

abbrev pub arguments_of : Values → List Bytes
arguments_of v =
    opt_script ∷ v.script ∷ opt_data_dir ∷ v.data_dir ∷ opt_log_level ∷ v.log_level ∷ opt_ca_bundle
    ∷ v.ca_bundle ∷ opt_js_heap ∷ v.heap ∷ opt_js_stack ∷ v.stack ∷ opt_js_time ∷ v.budget
    ∷ opt_lifecycle ∷ v.timeout ∷ []

abbrev pub options_of : Values → Options
options_of v = record {
  script_path = v.script;
  data_dir = v.data_dir;
  log_level = v.log_level;
  ca_bundle = v.ca_bundle;
  heap_limit_bytes = decimal v.heap;
  stack_limit_bytes = decimal v.stack;
  js_time_budget = decimal v.budget;
  lifecycle_timeout = decimal v.timeout;
}

ends : (p : Progress) → parse_loop [] false p ≡ value p
unfolding parse_loop
ends p = refl

-- All options together, with values in their ranges, are accepted and give the options that the
-- values denote.
pub parse_command_line-arguments_of :
    (program : Bytes) (v : Values)
    → IsInRange v
    → parse_command_line (program ∷ arguments_of v)
      ≡ value (record { action = run_action; options = options_of v })
unfolding parse_command_line choose_action
parse_command_line-arguments_of program v h =
    ap (λ (r : Expected Progress). r then_do choose_action)
      (script-step v.script _ _ refl h.script
        ∙ (data_dir-step v.data_dir _ _ refl h.data_dir
            ∙ (log_level-step v.log_level _ _ refl h.log_level.0 h.log_level.1
                ∙ (ca_bundle-step v.ca_bundle _ _ refl h.ca_bundle
                    ∙ (heap_limit-step v.heap _ _ refl h.heap.0 h.heap.1
                        ∙ (stack_limit-step v.stack _ _ refl h.stack.0 h.stack.1
                            ∙ (time_budget-step v.budget _ _ refl h.budget
                                ∙ (timeout-step v.timeout _ _ refl h.timeout.0 h.timeout.1
                                    ∙ ends _))))))))

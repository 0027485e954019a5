-- ===== src/CommandLine/Sound.antt =====
-- Every handler of the loop keeps the options sound, and so does the parser.
use vacps.Prelude.{
  ℕ, ◌≤◌, ◌≡◌, ◌⊎◌, inl, inr, refl, arith, List, [], ◌∷◌, Bool, true, false, not, ◌&&◌, ◌||◌, ◌==◌,
  if-split, if-keeps,
}
use vacps.Process.State.{Bytes}
use vacps.CommandLine.{Expected, default_options, ParsedCommandLine, run_action}
use vacps.CommandLine.Names.{
  same_bytes, opt_script, opt_data_dir, opt_log_level, opt_ca_bundle, opt_js_heap, opt_js_stack,
  opt_js_time, opt_lifecycle, opt_help, opt_h, opt_version, opt_v,
}
use vacps.CommandLine.Numbers.{parse_unsigned_full, parse_milliseconds, u64_max, milliseconds_max}
use vacps.CommandLine.Parser.{
  starts_with_dash, contains_equals, is_canonical_log_level, Progress, require_value, set_script,
  set_data_dir, set_log_level, set_ca_bundle, set_heap_limit, set_stack_limit, set_time_budget,
  set_lifecycle_timeout, see_help, see_version, taking, set_option, handle, parse_loop,
  any_value_option, choose_action, parse_command_line,
}
use vacps.CommandLine.Valid.{
  Holds, then-Holds, IsArgument, require_value-Holds, parse_unsigned_full-Holds,
  parse_milliseconds-Holds, IsUsable, IsSound, default_options-IsUsable, with_script, with_data_dir,
  with_ca_bundle, with_log_level, with_heap_limit, with_stack_limit, with_time_budget,
  with_lifecycle_timeout,
}

module _ (arg : Bytes) (rest : List Bytes) (p : Progress) (s : IsSound p) where
  set_script-Holds : Holds IsSound (set_script arg rest p)
  unfolding set_script
  set_script-Holds = if-keeps (Holds IsSound) p.seen.script _ _ tt (
      then-Holds IsArgument IsSound (require_value arg rest) _ (require_value-Holds arg rest)
        (λ v h. record {
          usable = with_script p.options s.usable v h;
          untouched = λ e. absurd (ground arith);
        }))

  set_data_dir-Holds : Holds IsSound (set_data_dir arg rest p)
  unfolding set_data_dir
  set_data_dir-Holds = if-keeps (Holds IsSound) p.seen.seen_data_dir _ _ tt (
      then-Holds IsArgument IsSound (require_value arg rest) _ (require_value-Holds arg rest)
        (λ v h. record {
          usable = with_data_dir p.options s.usable v h;
          untouched = λ e. absurd (ground arith);
        }))

  set_log_level-Holds : Holds IsSound (set_log_level arg rest p)
  unfolding set_log_level
  set_log_level-Holds = if-keeps (Holds IsSound) p.seen.seen_log_level _ _ tt (
      then-Holds IsArgument IsSound (require_value arg rest) _ (require_value-Holds arg rest)
        (λ v _.
          if-split (Holds IsSound) (is_canonical_log_level v) _ _
            (λ h. record {
              usable = with_log_level p.options s.usable v h;
              untouched = λ e. absurd (ground arith);
            })
            (λ _. tt)))

  set_ca_bundle-Holds : Holds IsSound (set_ca_bundle arg rest p)
  unfolding set_ca_bundle
  set_ca_bundle-Holds = if-keeps (Holds IsSound) p.seen.seen_ca_bundle _ _ tt (
      then-Holds IsArgument IsSound (require_value arg rest) _ (require_value-Holds arg rest)
        (λ v h. record {
          usable = with_ca_bundle p.options s.usable v h;
          untouched = λ e. absurd (ground arith);
        }))

  set_heap_limit-Holds : Holds IsSound (set_heap_limit arg rest p)
  unfolding set_heap_limit
  set_heap_limit-Holds = if-keeps (Holds IsSound) p.seen.js_heap _ _ tt (
      then-Holds IsArgument IsSound (require_value arg rest) _ (require_value-Holds arg rest)
        (λ v _.
          then-Holds (λ (n : ℕ). n ≤ u64_max) IsSound (parse_unsigned_full u64_max arg v) _
            (parse_unsigned_full-Holds u64_max arg v)
            (λ n k.
              if-split (Holds IsSound) (n == 0) _ _ (λ _. tt)
                (λ z. record {
                  usable = with_heap_limit p.options s.usable n (ground arith, k);
                  untouched = λ e. absurd (ground arith);
                }))))

  set_stack_limit-Holds : Holds IsSound (set_stack_limit arg rest p)
  unfolding set_stack_limit
  set_stack_limit-Holds = if-keeps (Holds IsSound) p.seen.js_stack _ _ tt (
      then-Holds IsArgument IsSound (require_value arg rest) _ (require_value-Holds arg rest)
        (λ v _.
          then-Holds (λ (n : ℕ). n ≤ u64_max) IsSound (parse_unsigned_full u64_max arg v) _
            (parse_unsigned_full-Holds u64_max arg v)
            (λ n k.
              if-split (Holds IsSound) (n == 0) _ _ (λ _. tt)
                (λ z. record {
                  usable = with_stack_limit p.options s.usable n (ground arith, k);
                  untouched = λ e. absurd (ground arith);
                }))))

  set_time_budget-Holds : Holds IsSound (set_time_budget arg rest p)
  unfolding set_time_budget
  set_time_budget-Holds = if-keeps (Holds IsSound) p.seen.js_time _ _ tt (
      then-Holds IsArgument IsSound (require_value arg rest) _ (require_value-Holds arg rest)
        (λ v _.
          then-Holds (λ (n : ℕ). n ≤ milliseconds_max) IsSound (parse_milliseconds arg v) _
            (parse_milliseconds-Holds arg v)
            (λ n k. record {
              usable = with_time_budget p.options s.usable n k;
              untouched = λ e. absurd (ground arith);
            })))

  set_lifecycle_timeout-Holds : Holds IsSound (set_lifecycle_timeout arg rest p)
  unfolding set_lifecycle_timeout
  set_lifecycle_timeout-Holds = if-keeps (Holds IsSound) p.seen.lifecycle _ _ tt (
      then-Holds IsArgument IsSound (require_value arg rest) _ (require_value-Holds arg rest)
        (λ v _.
          then-Holds (λ (n : ℕ). n ≤ milliseconds_max) IsSound (parse_milliseconds arg v) _
            (parse_milliseconds-Holds arg v)
            (λ n k.
              if-split (Holds IsSound) (n == 0) _ _ (λ _. tt)
                (λ z. record {
                  usable = with_lifecycle_timeout p.options s.usable n (ground arith, k);
                  untouched = λ e. absurd (ground arith);
                }))))

  see_help-Holds : Holds IsSound (see_help arg p)
  unfolding see_help
  see_help-Holds =
      if-keeps (Holds IsSound) p.seen.help _ _ tt
        (record { usable = s.usable; untouched = s.untouched })

  see_version-Holds : Holds IsSound (see_version arg p)
  unfolding see_version
  see_version-Holds =
      if-keeps (Holds IsSound) p.seen.version _ _ tt
        (record { usable = s.usable; untouched = s.untouched })

  set_option-Holds : Holds IsSound (set_option arg rest p)
  unfolding set_option
  set_option-Holds =
      let P = Holds IsSound in
      if-keeps P (same_bytes arg opt_script) _ _ set_script-Holds (
        if-keeps P (same_bytes arg opt_data_dir) _ _ set_data_dir-Holds (
          if-keeps P (same_bytes arg opt_log_level) _ _ set_log_level-Holds (
            if-keeps P (same_bytes arg opt_ca_bundle) _ _ set_ca_bundle-Holds (
              if-keeps P (same_bytes arg opt_js_heap) _ _ set_heap_limit-Holds (
                if-keeps P (same_bytes arg opt_js_stack) _ _ set_stack_limit-Holds (
                  if-keeps P (same_bytes arg opt_js_time) _ _ set_time_budget-Holds (
                    if-keeps P (same_bytes arg opt_lifecycle) _ _ set_lifecycle_timeout-Holds
                      (if-keeps P (starts_with_dash arg) _ _ tt tt))))))))

abbrev Next : Progress × Bool → Type 0
Next n = IsSound n.0

taking-Holds : (took : Bool) (r : Expected Progress) → Holds IsSound r → Holds Next (taking took r)
taking-Holds took r h = then-Holds IsSound Next r _ h (λ p s. s)

handle-Holds :
    (arg : Bytes) (rest : List Bytes) (p : Progress) → IsSound p → Holds Next (handle arg rest p)
unfolding handle
handle-Holds arg rest p s =
    let P = Holds Next in
    if-keeps P (same_bytes arg []) _ _ tt (
      if-keeps P (starts_with_dash arg && contains_equals arg) _ _ tt (
        if-keeps P (same_bytes arg opt_help || same_bytes arg opt_h) _ _
          (taking-Holds false _ (see_help-Holds arg rest p s))
          (if-keeps P (same_bytes arg opt_version || same_bytes arg opt_v) _ _
            (taking-Holds false _ (see_version-Holds arg rest p s))
            (taking-Holds true _ (set_option-Holds arg rest p s)))))

parse_loop-Holds :
    (args : List Bytes) (skip : Bool) (p : Progress)
    → IsSound p
    → Holds IsSound (parse_loop args skip p)
unfolding parse_loop
parse_loop-Holds [] skip p s = s
parse_loop-Holds (arg ∷ rest) skip p s =
    if-keeps (Holds IsSound) skip _ _ (parse_loop-Holds rest false p s) (
      then-Holds Next IsSound (handle arg rest p) _ (handle-Holds arg rest p s)
        (λ n h. parse_loop-Holds rest n.1 n.0 h))

-- What the parser promises of its result.
pub record IsAccepted (r : ParsedCommandLine) : Type 0 where
  pub usable : IsUsable r.options
  pub alone : (r.action ≡ run_action) ⊎ (r.options ≡ default_options)

choose_action-Holds : (p : Progress) → IsSound p → Holds IsAccepted (choose_action p)
unfolding choose_action
choose_action-Holds p s =
    let P = Holds IsAccepted in
    if-keeps P (p.seen.help && p.seen.version) _ _ tt (
      if-keeps P p.seen.help _ _
        (if-split P (not (any_value_option p.seen)) _ _
          (λ h. record { usable = s.usable; alone = inr (s.untouched (ground arith)) }) (λ _. tt))
        (if-keeps P p.seen.version _ _
          (if-split P (not (any_value_option p.seen)) _ _
            (λ h. record { usable = s.usable; alone = inr (s.untouched (ground arith)) }) (λ _. tt))
          (record { usable = s.usable; alone = inl refl })))

-- Every command line that is accepted gives usable options, with a known log level and numbers in
-- their ranges, and help and version leave the options at their defaults.
pub parse_command_line-Holds : (argv : List Bytes) → Holds IsAccepted (parse_command_line argv)
unfolding parse_command_line
parse_command_line-Holds [] = tt
parse_command_line-Holds (program ∷ args) =
    then-Holds IsSound IsAccepted _ choose_action
      (parse_loop-Holds args false _
        (record { usable = default_options-IsUsable; untouched = λ _. refl }))
      choose_action-Holds

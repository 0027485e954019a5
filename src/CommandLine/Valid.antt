-- ===== src/CommandLine/Valid.antt =====
-- What holds of every command line that is accepted.
use vacps.Prelude.{
  ℕ, ◌≤◌, ◌<◌, ◌≡◌, refl, arith, List, [], ◌∷◌, true, false, ltb, leb, if-split, if-keeps,
}
use vacps.Process.State.{Bytes}
use vacps.CommandLine.{Expected, value, unexpected, ◌then_do◌, Options, default_options}
use vacps.CommandLine.Names.{same_bytes}
use vacps.CommandLine.Numbers.{
  is_digit, scan, from_chars, FromChars, parsed, result_out_of_range, invalid_argument,
  check_parsed, parse_unsigned_full, parse_milliseconds, u64_max, milliseconds_max,
}
use vacps.CommandLine.Parser.{
  starts_with_dash, is_canonical_log_level, Progress, require_value, any_value_option,
}

-- A property of the result, if there is one.
abbrev pub Holds {ℓ κ} : {A : Type ℓ} → (A → Type κ) → Expected A → Type κ
Holds P (value a) = P a
Holds P (unexpected e) = Unit

pub then-Holds {ℓ κ μ ν} :
    {A : Type ℓ} {B : Type κ} (P : A → Type μ) (Q : B → Type ν) (r : Expected A)
    (f : A → Expected B)
    → Holds P r
    → ((a : A) → P a → Holds Q (f a))
    → Holds Q (r then_do f)
then-Holds P Q (value a) f h k = k a h
then-Holds P Q (unexpected e) f h k = tt

-- A text that may be the value of an option.
pub record IsArgument (v : Bytes) : Type 0 where
  pub given : same_bytes v [] ≡ false
  pub no_dash : starts_with_dash v ≡ false

pub require_value-Holds :
    (option : Bytes) (rest : List Bytes) → Holds IsArgument (require_value option rest)
unfolding require_value
require_value-Holds option [] = tt
require_value-Holds option (v ∷ rest) =
    if-split (Holds IsArgument) (same_bytes v []) _ _ (λ _. tt)
      (λ h.
        if-split (Holds IsArgument) (starts_with_dash v) _ _ (λ _. tt)
          (λ d. record { given = h; no_dash = d }))

abbrev Fits : ℕ → FromChars → Type 0
Fits max (parsed n rest) = n ≤ max
Fits max result_out_of_range = Unit
Fits max invalid_argument = Unit

from_chars-Fits : (max : ℕ) (s : Bytes) → Fits max (from_chars max s)
unfolding from_chars
from_chars-Fits max [] = tt
from_chars-Fits max (c ∷ cs) =
    if-keeps (Fits max) (is_digit c) _ _
      (if-split (Fits max) (leb (scan 0 (c ∷ cs)).0 max) _ _ (λ h. ground arith) (λ _. tt)) tt

check_parsed-Holds :
    (max : ℕ) (option raw : Bytes) (r : FromChars)
    → Fits max r
    → Holds (λ (n : ℕ). n ≤ max) (check_parsed option raw r)
check_parsed-Holds max option raw (parsed n []) h = h
check_parsed-Holds max option raw (parsed n (c ∷ rest)) h = tt
check_parsed-Holds max option raw result_out_of_range h = tt
check_parsed-Holds max option raw invalid_argument h = tt

pub parse_unsigned_full-Holds :
    (max : ℕ) (option raw : Bytes) → Holds (λ (n : ℕ). n ≤ max) (parse_unsigned_full max option raw)
unfolding parse_unsigned_full
parse_unsigned_full-Holds max option [] = tt
parse_unsigned_full-Holds max option (c ∷ cs) =
    check_parsed-Holds max option (c ∷ cs) _ (from_chars-Fits max (c ∷ cs))

pub parse_milliseconds-Holds :
    (option raw : Bytes) → Holds (λ (n : ℕ). n ≤ milliseconds_max) (parse_milliseconds option raw)
unfolding parse_milliseconds
parse_milliseconds-Holds option raw =
    then-Holds (λ (n : ℕ). n ≤ u64_max) (λ (n : ℕ). n ≤ milliseconds_max)
      (parse_unsigned_full u64_max option raw) _ (parse_unsigned_full-Holds u64_max option raw)
      (λ n _.
        if-split (Holds (λ (m : ℕ). m ≤ milliseconds_max)) (ltb milliseconds_max n) _ _ (λ _. tt)
          (λ h. ground arith))

-- The options that the agent can run with.
pub record IsUsable (o : Options) : Type 0 where
  pub script : starts_with_dash o.script_path ≡ false
  pub directory : IsArgument o.data_dir
  pub bundle : starts_with_dash o.ca_bundle ≡ false
  pub level : is_canonical_log_level o.log_level ≡ true
  pub heap : (0 < o.heap_limit_bytes) × (o.heap_limit_bytes ≤ u64_max)
  pub stack : (0 < o.stack_limit_bytes) × (o.stack_limit_bytes ≤ u64_max)
  pub budget : o.js_time_budget ≤ milliseconds_max
  pub timeout : (0 < o.lifecycle_timeout) × (o.lifecycle_timeout ≤ milliseconds_max)

-- The options are usable, and those of the start where no value option was seen.
pub record IsSound (p : Progress) : Type 0 where
  pub usable : IsUsable p.options
  pub untouched : any_value_option p.seen ≡ false → p.options ≡ default_options

pub default_options-IsUsable : IsUsable default_options
unfolding is_canonical_log_level same_bytes
default_options-IsUsable = record {
  script = refl;
  directory = record { given = refl; no_dash = refl };
  bundle = refl;
  level = refl;
  heap = (omega arith, omega arith);
  stack = (omega arith, omega arith);
  budget = omega arith;
  timeout = (omega arith, omega arith);
}

-- Usable options, from those before and what holds of the field that changed.
module _ (o : Options) (u : IsUsable o) where
  pub with_script : (v : Bytes) → IsArgument v → IsUsable (record o { script_path = v })
  with_script v h = record {
    script = h.no_dash;
    directory = u.directory;
    bundle = u.bundle;
    level = u.level;
    heap = u.heap;
    stack = u.stack;
    budget = u.budget;
    timeout = u.timeout;
  }

  pub with_data_dir : (v : Bytes) → IsArgument v → IsUsable (record o { data_dir = v })
  with_data_dir v h = record {
    script = u.script;
    directory = h;
    bundle = u.bundle;
    level = u.level;
    heap = u.heap;
    stack = u.stack;
    budget = u.budget;
    timeout = u.timeout;
  }

  pub with_ca_bundle : (v : Bytes) → IsArgument v → IsUsable (record o { ca_bundle = v })
  with_ca_bundle v h = record {
    script = u.script;
    directory = u.directory;
    bundle = h.no_dash;
    level = u.level;
    heap = u.heap;
    stack = u.stack;
    budget = u.budget;
    timeout = u.timeout;
  }

  pub with_log_level :
      (v : Bytes) → is_canonical_log_level v ≡ true → IsUsable (record o { log_level = v })
  with_log_level v h = record {
    script = u.script;
    directory = u.directory;
    bundle = u.bundle;
    level = h;
    heap = u.heap;
    stack = u.stack;
    budget = u.budget;
    timeout = u.timeout;
  }

  pub with_heap_limit :
      (v : ℕ) → (0 < v) × (v ≤ u64_max) → IsUsable (record o { heap_limit_bytes = v })
  with_heap_limit v h = record {
    script = u.script;
    directory = u.directory;
    bundle = u.bundle;
    level = u.level;
    heap = h;
    stack = u.stack;
    budget = u.budget;
    timeout = u.timeout;
  }

  pub with_stack_limit :
      (v : ℕ) → (0 < v) × (v ≤ u64_max) → IsUsable (record o { stack_limit_bytes = v })
  with_stack_limit v h = record {
    script = u.script;
    directory = u.directory;
    bundle = u.bundle;
    level = u.level;
    heap = u.heap;
    stack = h;
    budget = u.budget;
    timeout = u.timeout;
  }

  pub with_time_budget : (v : ℕ) → v ≤ milliseconds_max → IsUsable (record o { js_time_budget = v })
  with_time_budget v h = record {
    script = u.script;
    directory = u.directory;
    bundle = u.bundle;
    level = u.level;
    heap = u.heap;
    stack = u.stack;
    budget = h;
    timeout = u.timeout;
  }

  pub with_lifecycle_timeout :
      (v : ℕ) → (0 < v) × (v ≤ milliseconds_max) → IsUsable (record o { lifecycle_timeout = v })
  with_lifecycle_timeout v h = record {
    script = u.script;
    directory = u.directory;
    bundle = u.bundle;
    level = u.level;
    heap = u.heap;
    stack = u.stack;
    budget = u.budget;
    timeout = h;
  }

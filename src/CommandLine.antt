-- ===== src/CommandLine.antt =====
-- host/command_line.cpp and host/command_line.hpp: the parser of the agent's arguments. The
-- options that the parser sets are those of Application::Options and its runtime's engine.
pub mod Names
pub mod Numbers
pub mod Parser
pub mod Exact
pub mod Valid
pub mod Sound
pub mod Complete
mod Examples
use vacps.Prelude.{ℕ, ◌*◌, List, [], ◌∷◌, Bool, true, false}
use vacps.Process.State.{Bytes}
use vacps.CommandLine.Names.{level_info, default_data_dir}

pub data Reason : Type 0 where
  out_of_range invalid_syntax exceeds_milliseconds unknown_level not_positive : Reason

-- One constructor for each message of the source, with what is formatted into it.
pub data Message : Type 0 where
  empty_argv empty_argument help_and_version help_not_alone version_not_alone : Message
  unknown missing empty duplicate positional : Bytes → Message
  invalid : Bytes → Bytes → Reason → Message

pub record CommandLineError : Type 0 where
  pub message : Message
  pub option : Bytes

pub data Expected {ℓ} (A : Type ℓ) : Type ℓ where
  value : A → Expected A
  unexpected : CommandLineError → Expected A

infixl 5 ◌then_do◌
abbrev pub ◌then_do◌ {ℓ κ} : {A : Type ℓ} {B : Type κ} → Expected A → (A → Expected B) → Expected B
value a then_do f = f a
unexpected e then_do f = unexpected e

pub data CommandLineAction : Type 0 where
  run_action help_action version_action : CommandLineAction

pub record Options : Type 0 where
  pub script_path : Bytes
  pub data_dir : Bytes
  pub log_level : Bytes
  pub ca_bundle : Bytes
  pub heap_limit_bytes : ℕ
  pub stack_limit_bytes : ℕ
  pub js_time_budget : ℕ
  pub lifecycle_timeout : ℕ

abbrev pub default_options : Options
default_options = record {
  script_path = [];
  data_dir = default_data_dir;
  log_level = level_info;
  ca_bundle = [];
  heap_limit_bytes = 64 * 1024 * 1024;
  stack_limit_bytes = 1 * 1024 * 1024;
  js_time_budget = 30000;
  lifecycle_timeout = 30 * 1000;
}

pub record ParsedCommandLine : Type 0 where
  pub action : CommandLineAction
  pub options : Options

pub record SeenFlags : Type 0 where
  pub script : Bool
  pub seen_data_dir : Bool
  pub seen_log_level : Bool
  pub seen_ca_bundle : Bool
  pub js_heap : Bool
  pub js_stack : Bool
  pub js_time : Bool
  pub lifecycle : Bool
  pub help : Bool
  pub version : Bool

abbrev pub nothing_seen : SeenFlags
nothing_seen = record {
  script = false;
  seen_data_dir = false;
  seen_log_level = false;
  seen_ca_bundle = false;
  js_heap = false;
  js_stack = false;
  js_time = false;
  lifecycle = false;
  help = false;
  version = false;
}

-- The error of an option.
abbrev pub fails {ℓ} : {A : Type ℓ} → Message → Bytes → Expected A
fails message option = unexpected (record { message = message; option = option })

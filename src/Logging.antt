-- ===== src/Logging.antt =====
-- logger: the configuration of the logs, and what the three adapters give to their logging
-- libraries. The libraries themselves, and lumberjack, which rotates a log file, are not modelled.
pub mod Adapters
pub mod Agreement
use vmware_go_kcl_v2_test.Prelude.{String, Bool, if◌then◌else◌}
use vmware_go_kcl_v2_test.Prelude.Int.{ℤ, pos, ltb_ℤ, leb_ℤ}

-- The levels of the libraries. The configuration names the five in the middle.
pub data LogLevel : Type 0 where
  trace_level debug_level info_level warn_level error_level fatal_level panic_level : LogLevel

-- logger.go: Configuration
pub record LoggerConfiguration : Type 0 where
  pub enable_console : Bool
  pub console_json_format : Bool
  pub console_level : String
  pub enable_file : Bool
  pub file_json_format : Bool
  pub file_level : String
  pub filename : String
  pub max_size_mb : ℤ
  pub max_age_days : ℤ
  pub max_backups : ℤ
  pub local_time : Bool

abbrev pub or_default : Bool → ℤ → ℤ → ℤ
or_default unset default n = if unset then default else n

-- logger.go, and the same function again in zerolog.go.
unfoldable pub normalize_config : LoggerConfiguration → LoggerConfiguration
normalize_config config = record config {
  max_size_mb = or_default (leb_ℤ config.max_size_mb (pos 0)) (pos 100) config.max_size_mb;
  max_age_days = or_default (leb_ℤ config.max_age_days (pos 0)) (pos 7) config.max_age_days;
  max_backups = or_default (ltb_ℤ config.max_backups (pos 0)) (pos 0) config.max_backups;
}

-- lumberjack.Logger
pub record LogFile : Type 0 where
  pub filename : String
  pub max_size : ℤ
  pub compress : Bool
  pub max_age : ℤ
  pub max_backups : ℤ
  pub local_time : Bool

-- The console handler of zerolog may be a nil pointer.
pub data Destination : Type 0 where
  console no_console : Destination
  file : LogFile → Destination

-- What a logger writes to, in which format, and from which level on.
pub record Sink : Type 0 where
  pub destination : Destination
  pub json : Bool
  pub level : LogLevel

-- The methods of Logger that write.
pub data LogMethod : Type 0 where
  debugf infof warnf errorf fatalf panicf : LogMethod

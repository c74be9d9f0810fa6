-- ===== src/Tests/Logs.antt =====
-- The theorem on the loggers at a concrete configuration.
use vmware_go_kcl_v2_test.Prelude.{
  ◌≡◌, refl, inl, inr, String, true, Option, none, some, str_eq, if◌then◌else◌,
}
use vmware_go_kcl_v2_test.Prelude.Int.{pos}
use vmware_go_kcl_v2_test.Logging.{
  LogLevel, trace_level, debug_level, info_level, warn_level, error_level, fatal_level, panic_level,
  LoggerConfiguration, normalize_config,
}
use vmware_go_kcl_v2_test.Logging.Adapters.{logrus_sinks, zap_sinks, zero_sinks, zap_level}
use vmware_go_kcl_v2_test.Logging.Agreement.{
  ParsesLevels, targets, console_and_file, console_loggers,
}

abbrev parse_level : String → Option LogLevel
parse_level text =
    if str_eq text "trace"
    then some trace_level
    else if str_eq text "debug"
    then some debug_level
    else if str_eq text "info"
    then some info_level
    else if str_eq text "warn"
    then some warn_level
    else if str_eq text "error"
    then some error_level
    else if str_eq text "fatal"
    then some fatal_level
    else if str_eq text "panic"
    then some panic_level
    else none

parse_level-ParsesLevels : ParsesLevels parse_level
parse_level-ParsesLevels = record {
  info = refl;
  warn = refl;
  debug = refl;
  error = refl;
  fatal = refl;
}

-- Warnings on the console, and all in a file.
abbrev both : LoggerConfiguration
both = record {
  enable_console = true;
  console_json_format = true;
  console_level = "warn";
  enable_file = true;
  file_json_format = true;
  file_level = "debug";
  filename = "kcl.log";
  max_size_mb = pos 0;
  max_age_days = pos 0;
  max_backups = pos 3;
  local_time = true;
}

console_loggers_example :
    (targets (logrus_sinks parse_level both)
      ≡ console_and_file warn_level warn_level (normalize_config both))
    × (targets (zero_sinks both) ≡ console_and_file warn_level warn_level (normalize_config both))
    × (targets (zap_sinks both) ≡ console_and_file warn_level debug_level both)
unfolding zap_level
console_loggers_example =
    console_loggers parse_level both parse_level-ParsesLevels (inr (inl refl)) refl

-- ===== src/Logging/Adapters.antt =====
-- logger/logrus.go, logger/zap/zap.go and logger/zerolog/zerolog.go: the loggers that are made from
-- a configuration, and the library's level that each method logs at.
use vmware_go_kcl_v2_test.Prelude.{
  String, Bool, true, false, ◌&&◌, Option, none, some, List, [], ◌∷◌, ◌++◌, str_eq, if◌then◌else◌,
}
use vmware_go_kcl_v2_test.Prelude.Int.{pos}
use vmware_go_kcl_v2_test.Logging.{
  LogLevel, info_level, warn_level, debug_level, error_level, fatal_level, panic_level,
  LoggerConfiguration, normalize_config, Destination, console, no_console, file, Sink, LogMethod,
  debugf, infof, warnf, errorf, fatalf, panicf,
}

-- The rotated file of a configuration.
abbrev pub log_file : LoggerConfiguration → Destination
log_file config = file (record {
  filename = config.filename;
  max_size = config.max_size_mb;
  compress = true;
  max_age = config.max_age_days;
  max_backups = config.max_backups;
  local_time = config.local_time;
})

abbrev pub sink : Destination → Bool → LogLevel → Sink
sink destination json level = record { destination = destination; json = json; level = level }

-- The level of a text that logrus.ParseLevel has parsed, or not.
abbrev pub or_info : Option LogLevel → LogLevel
or_info none = info_level
or_info (some level) = level

-- `parse` is logrus.ParseLevel, which fails with none.
unfoldable pub logrus_level : (String → Option LogLevel) → LoggerConfiguration → LogLevel
logrus_level parse config =
    or_info
      (parse (if str_eq config.console_level "" then config.file_level else config.console_level))

-- The two writers of logrus share the formatter.
unfoldable pub logrus_sinks : (String → Option LogLevel) → LoggerConfiguration → List Sink
unfolding logrus_level normalize_config
logrus_sinks parse config =
    let level = logrus_level parse config in
    let normal = normalize_config config in
    if normal.enable_console && normal.enable_file
    then sink console normal.console_json_format level
      ∷ sink (log_file normal) normal.console_json_format level
      ∷ []
    else if normal.enable_file
    then sink (log_file normal) normal.file_json_format level ∷ []
    else sink console normal.console_json_format level ∷ []

-- getZapLevel
unfoldable pub zap_level : String → LogLevel
zap_level level =
    if str_eq level "info"
    then info_level
    else if str_eq level "warn"
    then warn_level
    else if str_eq level "debug"
    then debug_level
    else if str_eq level "error"
    then error_level
    else if str_eq level "fatal"
    then fatal_level
    else info_level

-- The configuration is not normalised.
unfoldable pub zap_sinks : LoggerConfiguration → List Sink
unfolding zap_level
zap_sinks config =
    (if config.enable_console
      then sink console config.console_json_format (zap_level config.console_level) ∷ []
      else [])
    ++ (if config.enable_file
        then sink (log_file config) config.file_json_format (zap_level config.file_level) ∷ []
        else [])

-- getZeroLogLevel
unfoldable pub zero_log_level : String → LogLevel
zero_log_level level =
    if str_eq level "info"
    then info_level
    else if str_eq level "warn"
    then warn_level
    else if str_eq level "debug"
    then debug_level
    else if str_eq level "error"
    then error_level
    else if str_eq level "fatal"
    then fatal_level
    else info_level

-- A console writer formats for people, and a file is given the JSON that zerolog writes.
unfoldable pub zero_sinks : LoggerConfiguration → List Sink
unfolding zero_log_level normalize_config
zero_sinks config =
    let normal = normalize_config config in
    let handler = if normal.enable_console then console else no_console in
    if normal.enable_console && normal.enable_file
    then sink handler false (zero_log_level normal.console_level)
      ∷ sink (log_file normal) true (zero_log_level normal.console_level)
      ∷ []
    else if normal.enable_file
    then sink (log_file normal) true (zero_log_level normal.file_level) ∷ []
    else sink handler false (zero_log_level normal.console_level) ∷ []

unfoldable pub default_zerolog_configuration : LoggerConfiguration
default_zerolog_configuration = record {
  enable_console = true;
  console_json_format = true;
  console_level = "info";
  enable_file = false;
  file_json_format = false;
  file_level = "info";
  filename = "";
  max_size_mb = pos 0;
  max_age_days = pos 0;
  max_backups = pos 0;
  local_time = true;
}

-- Panicf of these two calls Fatalf.
unfoldable pub logrus_method : LogMethod → LogLevel
logrus_method debugf = debug_level
logrus_method infof = info_level
logrus_method warnf = warn_level
logrus_method errorf = error_level
logrus_method fatalf = fatal_level
logrus_method panicf = fatal_level

unfoldable pub zap_method : LogMethod → LogLevel
zap_method debugf = debug_level
zap_method infof = info_level
zap_method warnf = warn_level
zap_method errorf = error_level
zap_method fatalf = fatal_level
zap_method panicf = fatal_level

unfoldable pub zero_method : LogMethod → LogLevel
zero_method debugf = debug_level
zero_method infof = info_level
zero_method warnf = warn_level
zero_method errorf = error_level
zero_method fatalf = fatal_level
zero_method panicf = panic_level

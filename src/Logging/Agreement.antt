-- ===== src/Logging/Agreement.antt =====
-- logger: where the three adapters do the same with a configuration.
use vmware_go_kcl_v2_test.Prelude.{
  ◌≡◌, ◌≢◌, ◌⊎◌, inl, inr, refl, String, true, Option, some, List, [], ◌∷◌, Bool-cases,
  if◌then◌else◌,
}
use vmware_go_kcl_v2_test.Logging.{
  LogLevel, info_level, warn_level, debug_level, error_level, fatal_level, LoggerConfiguration,
  normalize_config, Destination, console, Sink, LogMethod, debugf, infof, warnf, errorf, fatalf,
  panicf,
}
use vmware_go_kcl_v2_test.Logging.Adapters.{
  log_file, logrus_level, logrus_sinks, zap_level, zap_sinks, zero_log_level, zero_sinks,
  logrus_method, zap_method, zero_method,
}

-- What logrus.ParseLevel documents of the levels that the configuration names.
pub record ParsesLevels (parse : String → Option LogLevel) : Type 0 where
  pub info : parse "info" ≡ some info_level
  pub warn : parse "warn" ≡ some warn_level
  pub debug : parse "debug" ≡ some debug_level
  pub error : parse "error" ≡ some error_level
  pub fatal : parse "fatal" ≡ some fatal_level

abbrev pub IsNamed : String → Type 0
IsNamed text =
    (text ≡ "info") ⊎ (text ≡ "warn") ⊎ (text ≡ "debug") ⊎ (text ≡ "error") ⊎ (text ≡ "fatal")

-- Where the messages go, and from which level on.
abbrev pub targets : List Sink → List (Destination × LogLevel)
targets [] = []
targets (s ∷ ss) = (s.destination, s.level) ∷ targets ss

-- The console, and the file where there is one.
abbrev pub console_and_file :
    LogLevel → LogLevel → LoggerConfiguration → List (Destination × LogLevel)
console_and_file at_console at_file config =
    (console, at_console) ∷ (if config.enable_file then (log_file config, at_file) ∷ [] else [])

zero_log_level_lem : (text : String) → zero_log_level text ≡ zap_level text
unfolding zero_log_level zap_level
zero_log_level_lem text = refl

logrus_level_lem :
    (parse : String → Option LogLevel) (config : LoggerConfiguration)
    → ParsesLevels parse
    → IsNamed config.console_level
    → logrus_level parse config ≡ zap_level config.console_level
unfolding logrus_level zap_level
logrus_level_lem parse config ps (inl e) = rw (e, ps.info) refl
logrus_level_lem parse config ps (inr (inl e)) = rw (e, ps.warn) refl
logrus_level_lem parse config ps (inr (inr (inl e))) = rw (e, ps.debug) refl
logrus_level_lem parse config ps (inr (inr (inr (inl e)))) = rw (e, ps.error) refl
logrus_level_lem parse config ps (inr (inr (inr (inr e)))) = rw (e, ps.fatal) refl

-- With the console on and one of the five levels for it, the three adapters write to the console
-- from that level on. Logrus and zerolog have one level for their writers: they write to the
-- file, where there is one, from the level of the console on, and their file is that of the
-- normalised configuration. Zap writes to the file of the configuration as it is, from the level of the file on. (ParseLevel of
-- logrus knows the five levels.)
pub console_loggers :
    (parse : String → Option LogLevel) (config : LoggerConfiguration)
    → ParsesLevels parse
    → IsNamed config.console_level
    → config.enable_console ≡ true
    → let level = zap_level config.console_level in
      (targets (logrus_sinks parse config) ≡ console_and_file level level (normalize_config config))
      × (targets (zero_sinks config) ≡ console_and_file level level (normalize_config config))
      × (targets (zap_sinks config) ≡ console_and_file level (zap_level config.file_level) config)
unfolding logrus_sinks zero_sinks zap_sinks normalize_config
console_loggers parse config ps named on = elim (Bool-cases config.enable_file) [
  | inl with_file ↦ (
    rw (on, with_file, logrus_level_lem parse config ps named) refl,
    rw (on, with_file, zero_log_level_lem config.console_level) refl,
    rw (on, with_file) refl,
  )
  | inr console_only ↦ (
    rw (on, console_only, logrus_level_lem parse config ps named) refl,
    rw (on, console_only, zero_log_level_lem config.console_level) refl,
    rw (on, console_only) refl,
  )
]

-- Every method but Panicf logs at one level with the three.
methods_agree :
    (m : LogMethod)
    → m ≢ panicf
    → (logrus_method m ≡ zero_method m) × (zap_method m ≡ zero_method m)
unfolding logrus_method zap_method zero_method
methods_agree debugf h = (refl, refl)
methods_agree infof h = (refl, refl)
methods_agree warnf h = (refl, refl)
methods_agree errorf h = (refl, refl)
methods_agree fatalf h = (refl, refl)
methods_agree panicf h = absurd (h refl)

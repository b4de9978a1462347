-- ===== src/Log/Level.antt =====
-- platform/ara-log/include/ara/log/log_level.h, and the names that records give the levels
-- (LevelName of platform/ara-log/src/console_record_formatter.cpp).
use adaptive_pi.Prelude.{ℕ, ◌≤◌, ◌≢◌, Bytes, codes, ◌==◌, if◌then◌else◌, arith, [], length}

-- The underlying type is `std::uint8_t`, and a cast can give any byte, so a level is a number.
abbrev pub LogLevel : Type 0
LogLevel = ℕ

abbrev pub k_off : LogLevel
k_off = 0x00

abbrev pub k_fatal : LogLevel
k_fatal = 0x01

abbrev pub k_error : LogLevel
k_error = 0x02

abbrev pub k_warn : LogLevel
k_warn = 0x03

abbrev pub k_info : LogLevel
k_info = 0x04

abbrev pub k_debug : LogLevel
k_debug = 0x05

abbrev pub k_verbose : LogLevel
k_verbose = 0x06

unfoldable pub level_name : LogLevel → Bytes
level_name level =
    if level == k_fatal
    then codes "FATAL"
    else if level == k_error
    then codes "ERROR"
    else if level == k_warn
    then codes "WARN"
    else if level == k_info
    then codes "INFO"
    else if level == k_debug
    then codes "DEBUG"
    else if level == k_verbose
    then codes "VERBOSE"
    else []

-- The severities that a record can have.
pub record IsSeverity (level : LogLevel) : Type 0 where
  pub above : k_fatal ≤ level
  pub below : level ≤ k_verbose

pub level_name-ne-nil : (level : LogLevel) → IsSeverity level → level_name level ≢ []
unfolding level_name
level_name-ne-nil level s = ground arith

pub level_name-nil : (level : LogLevel) → level_name level ≢ [] → IsSeverity level
unfolding level_name
level_name-nil level h = ground arith

pub length-level_name : (level : LogLevel) → length (level_name level) ≤ 7
unfolding level_name
length-level_name level = ground arith

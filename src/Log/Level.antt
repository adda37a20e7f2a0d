-- ===== src/Log/Level.antt =====
-- v2/internallog/internal/internal.go, and `New` of v2/internallog/internallog.go. The environment,
-- the time format and the handlers of package slog are parameters.
pub mod Laws
use gax_go.Prelude.{ℕ, List, [], ◌∷◌, Option, none, some, Bool, true, false, if◌then◌else◌, map}
use gax_go.Prelude.Int.{ℤ, pos, negsuc, leb_ℤ}
use gax_go.Prelude.Text.{Text, codes, text_eq, lower}

abbrev pub logging_level_env_var : Text
logging_level_env_var = codes "GOOGLE_SDK_GO_LOGGING_LEVEL"

abbrev goog_lvl_key : Text
goog_lvl_key = codes "severity"

abbrev goog_msg_key : Text
goog_msg_key = codes "message"

abbrev goog_source_key : Text
goog_source_key = codes "sourceLocation"

abbrev goog_time_key : Text
goog_time_key = codes "timestamp"

-- The levels of package slog that the program uses.
pub data Level : Type 0 where
  level_debug level_info level_warn level_error : Level

-- `value` is os.Getenv(LoggingLevelEnvVar); `none` where logging is not enabled.
unfoldable pub check_logging_level : Text → Option Level
check_logging_level value =
    let s_level = map lower value in
    if text_eq s_level (codes "debug")
    then some level_debug
    else if text_eq s_level (codes "info")
    then some level_info
    else if text_eq s_level (codes "warn")
    then some level_warn
    else if text_eq s_level (codes "error")
    then some level_error
    else none

-- slog.Attr, whose value is a time, a text or something else.
pub data AttrValue (Time Other : Type 0) : Type 0 where
  time_value : Time → AttrValue Time Other
  string_value : Text → AttrValue Time Other
  other_value : Other → AttrValue Time Other

pub record Attr (Time Other : Type 0) : Type 0 where
  pub key : Text
  pub value : AttrValue Time Other

module _ {Time Other : Type 0} (format_rfc3339 : Time → Text) where
  -- The value of the time, as a text if it is a time.
  unfoldable pub format_time : AttrValue Time Other → AttrValue Time Other
  format_time (time_value t) = string_value (format_rfc3339 t)
  format_time v = v

  -- The branches for the four keys of package slog.
  unfoldable pub replace_top : Attr Time Other → Attr Time Other
  unfolding format_time
  replace_top a =
      if text_eq a.key (codes "level")
      then record a { key = goog_lvl_key }
      else if text_eq a.key (codes "msg")
      then record a { key = goog_msg_key }
      else if text_eq a.key (codes "source")
      then record a { key = goog_source_key }
      else if text_eq a.key (codes "time")
      then record a { key = goog_time_key; value = format_time a.value }
      else a

  -- `none` is a nil slice of groups.
  unfoldable pub replace_attr : Option (List Text) → Attr Time Other → Attr Time Other
  unfolding replace_top
  replace_attr none a = replace_top a
  replace_attr (some groups) a = a

-- The handlers: the JSON handler of package slog at a level, and the one that does nothing.
pub data Handler : Type 0 where
  gcp_handler : Level → Handler
  no_op_handler : Handler

-- A logger over its handler, or the caller's own.
pub data Logger (Own : Type 0) : Type 0 where
  own : Own → Logger Own
  over : Handler → Logger Own

module _ {Own : Type 0} where
  unfoldable pub new_logger_with_writer : Text → Logger Own
  unfolding check_logging_level
  new_logger_with_writer value = elim (check_logging_level value) [
    | none ↦ over no_op_handler
    | some lvl ↦ over (gcp_handler lvl)
  ]

  unfoldable pub new : Text → Option Own → Logger Own
  unfolding new_logger_with_writer
  new value none = new_logger_with_writer value
  new value (some l) = own l

-- The numbers that package slog gives the levels.
unfoldable pub severity : Level → ℤ
severity level_debug = negsuc 3
severity level_info = pos 0
severity level_warn = pos 4
severity level_error = pos 8

-- `Enabled` of the two handlers: that of package slog enables the levels from its own on.
unfoldable pub enabled : Handler → Level → Bool
unfolding severity
enabled (gcp_handler lvl) l = leb_ℤ (severity lvl) (severity l)
enabled no_op_handler l = false

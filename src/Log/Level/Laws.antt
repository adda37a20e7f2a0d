-- ===== src/Log/Level/Laws.antt =====
-- Which levels a new logger enables, and what is renamed.
use gax_go.Prelude.{◌≡◌, ◌≢◌, ◌↔◌, refl, List, none, some, true, arith, map, Option-cases, inl, inr}
use gax_go.Prelude.Int.{◌≤ℤ◌}
use gax_go.Prelude.Text.{Text, codes, text_eq, text_eq_iff, lower}
use gax_go.Log.Level.{
  Level, check_logging_level, new_logger_with_writer, over, own, new, Handler, enabled, severity,
  Attr, replace_attr,
}

-- The name of a level.
abbrev pub name : Level → Text
name Level.level_debug = codes "debug"
name Level.level_info = codes "info"
name Level.level_warn = codes "warn"
name Level.level_error = codes "error"

-- The comparisons of the switch.
level_tests :
    (value : Text)
    → ((text_eq (map lower value) (codes "debug") ≡ true) ↔ (map lower value ≡ codes "debug"))
      × ((text_eq (map lower value) (codes "info") ≡ true) ↔ (map lower value ≡ codes "info"))
      × ((text_eq (map lower value) (codes "warn") ≡ true) ↔ (map lower value ≡ codes "warn"))
      × ((text_eq (map lower value) (codes "error") ≡ true) ↔ (map lower value ≡ codes "error"))
level_tests value = (
  text_eq_iff (map lower value) (codes "debug"),
  text_eq_iff (map lower value) (codes "info"),
  text_eq_iff (map lower value) (codes "warn"),
  text_eq_iff (map lower value) (codes "error"),
)

check_logging_level_iff :
    (value : Text) (lvl : Level)
    → (check_logging_level value ≡ some lvl) ↔ (map lower value ≡ name lvl)
unfolding check_logging_level
check_logging_level_iff value Level.level_debug = ground (arith, level_tests value)
check_logging_level_iff value Level.level_info = ground (arith, level_tests value)
check_logging_level_iff value Level.level_warn = ground (arith, level_tests value)
check_logging_level_iff value Level.level_error = ground (arith, level_tests value)

-- A logger that the caller gives is kept. Otherwise the logger enables a level exactly if the variable
-- names, in upper or lower case, a level that is at most as severe; so it enables nothing if the
-- variable names none.
pub new_lem :
    {Own : Type 0} (value : Text) (l : Own) (at_ : Level)
    → (new value (some l) ≡ own l)
      × ((h : Handler) × (new {Own = Own} value none ≡ over h)
          × ((enabled h at_ ≡ true)
              ↔ ((lvl : Level) × (map lower value ≡ name lvl) × (severity lvl ≤ℤ severity at_))))
unfolding new enabled
new_lem {Own} value l at_ = elim (Option-cases (check_logging_level value)) [
  | inl e ↦ (
    refl,
    (
      Handler.no_op_handler,
      rw (e, new_logger_with_writer) refl,
      (λ p. cc, λ (lvl, n, _). ground (arith, check_logging_level_iff value lvl)),
    ),
  )
  | inr (lvl, e) ↦ (
    refl,
    (
      Handler.gcp_handler lvl,
      rw (e, new_logger_with_writer) refl,
      (
        λ p. (lvl, (check_logging_level_iff value lvl).0 e, ground arith),
        λ (lvl', n, le). ground (arith, check_logging_level_iff value lvl'),
      ),
    ),
  )
]

module _ {Time Other : Type 0} (format_rfc3339 : Time → Text) where
  -- Within a group nothing is renamed. At the top level none of the four keys of package slog is
  -- left, and every attribute with another key is kept as it is.
  pub replace_attr_lem :
      (groups : List Text) (a : Attr Time Other)
      → let b = replace_attr format_rfc3339 none a in
        (replace_attr format_rfc3339 (some groups) a ≡ a)
        × (b.key ≢ codes "level")
        × (b.key ≢ codes "msg")
        × (b.key ≢ codes "source")
        × (b.key ≢ codes "time")
        × (a.key ≢ codes "level"
            → a.key ≢ codes "msg"
            → a.key ≢ codes "source"
            → a.key ≢ codes "time"
            → b ≡ a)
  unfolding replace_attr
  replace_attr_lem groups a = ground (
    arith,
    text_eq_iff a.key (codes "level"),
    text_eq_iff a.key (codes "msg"),
    text_eq_iff a.key (codes "source"),
    text_eq_iff a.key (codes "time"),
  )

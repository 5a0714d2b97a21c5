-- ===== src/Logging.antt =====
-- internal/logging/logging.go: the logger, by its format and its lowest level. What is written to
-- it is not modelled.
pub mod Formats
use tx_firewall.Base.{
  ◌>>=◌, String, [], ◌∷◌, Result, ok, err, plain, wrap, concat, str_eq, if◌then◌else◌,
}
use tx_firewall.Base.Int.{ℤ}
use tx_firewall.Base.Exec.{remap}

-- tint's handler and the two of slog.
pub data Handler : Type 0 where
  pretty_handler text_handler json_handler : Handler

pub record Logger : Type 0 where
  pub handler : Handler
  pub level : ℤ

-- What is called of other packages.
pub record Slog : Type 0 where
  -- slog.Level.UnmarshalText
  pub unmarshal_level : String → Result ℤ
  -- the verb %q
  pub quote : String → String

module _ (l : Slog) where
  open l use {unmarshal_level, quote}

  -- The `switch` on the format.
  unfoldable pub handler_of : String → Result Handler
  handler_of format =
      if str_eq format "pretty"
      then ok pretty_handler
      else if str_eq format "text"
      then ok text_handler
      else if str_eq format "json"
      then ok json_handler
      else err (
          plain
            (concat ("invalid log format " ∷ quote format ∷ " (want pretty, text or json)" ∷ [])))

  -- New
  unfoldable pub new_logger : String → String → Result Logger
  unfolding handler_of
  new_logger format level = do
    lvl ← remap (wrap (concat ("invalid log level " ∷ quote level ∷ []))) (unmarshal_level level)
    h ← handler_of format
    ok (record { handler = h; level = lvl })

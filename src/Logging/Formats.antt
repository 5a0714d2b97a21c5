-- ===== src/Logging/Formats.antt =====
-- Which loggers New of internal/logging/logging.go gives.
use mathlib.Core.Path.{subst}
use tx_firewall.Base.{
  String, ◌≡◌, refl, ok, ok-injective, err-ne-ok, >>=-then, str_eq, eq_iff, Bool-cases, inl, inr,
}
use tx_firewall.Base.Exec.{remap, remap-inv}
use tx_firewall.Logging.{
  Handler, pretty_handler, text_handler, json_handler, Logger, Slog, handler_of, new_logger,
}

-- The name of a log format.
abbrev pub IsFormat : String → Handler → Type 0
IsFormat s pretty_handler = s ≡ "pretty"
IsFormat s text_handler = s ≡ "text"
IsFormat s json_handler = s ≡ "json"

module _ (l : Slog) where
  handler_of-IsFormat : (s : String) (h : Handler) → handler_of l s ≡ ok h → IsFormat s h
  unfolding handler_of
  handler_of-IsFormat s h e = elim (Bool-cases (str_eq s "pretty")) [
    | inl pretty ↦ subst (IsFormat s) (ok-injective (rw pretty at e)) ((eq_iff s "pretty").0 pretty)
    | inr not_pretty ↦ elim (Bool-cases (str_eq s "text")) [
      | inl text ↦
          subst (IsFormat s) (ok-injective (rw (not_pretty, text) at e)) ((eq_iff s "text").0 text)
      | inr not_text ↦ elim (Bool-cases (str_eq s "json")) [
        | inl json ↦
            subst (IsFormat s) (ok-injective (rw (not_pretty, not_text, json) at e))
              ((eq_iff s "json").0 json)
        | inr not_json ↦ absurd (err-ne-ok (rw (not_pretty, not_text, not_json) at e))
      ]
    ]
  ]

  IsFormat-handler_of : (s : String) (h : Handler) → IsFormat s h → handler_of l s ≡ ok h
  unfolding handler_of
  IsFormat-handler_of s pretty_handler e = rw e refl
  IsFormat-handler_of s text_handler e = rw e refl
  IsFormat-handler_of s json_handler e = rw e refl

  -- A logger of that format and level.
  abbrev pub IsLogger : String → String → Logger → Type 0
  IsLogger format level logger =
      IsFormat format logger.handler × (l.unmarshal_level level ≡ ok logger.level)

  pub new_logger-IsLogger :
      (format level : String) (logger : Logger)
      → new_logger l format level ≡ ok logger
      → IsLogger format level logger
  unfolding new_logger
  new_logger-IsLogger format level logger h =
      >>=-then (remap _ (l.unmarshal_level level)) _ h λ lvl read h₁.
        >>=-then (handler_of l format) _ h₁ λ handler known made.
          subst (IsLogger format level) (ok-injective made)
            (handler_of-IsFormat format handler known, remap-inv _ (l.unmarshal_level level) read)

  pub IsLogger-new_logger :
      (format level : String) (logger : Logger)
      → IsLogger format level logger
      → new_logger l format level ≡ ok logger
  unfolding new_logger
  IsLogger-new_logger format level logger (known, read) =
      rw (read, IsFormat-handler_of format logger.handler known)

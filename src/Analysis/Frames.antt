-- ===== src/Analysis/Frames.antt =====
-- internal/analysis/analysis.go: Frame, one call of the trace.
use tx_firewall.Base.{ℕ, String, Bool, Option, str_eq, ◌||◌}
use tx_firewall.Geth.{Address}

pub record Frame : Type 0 where
  pub type : String
  pub from : Address
  pub to : Address
  pub value : Option ℕ
  pub depth : ℕ

unfoldable pub is_call : Frame → Bool
is_call f =
    str_eq f.type "CALL"
    || str_eq f.type "STATICCALL"
    || str_eq f.type "DELEGATECALL"
    || str_eq f.type "CALLCODE"

unfoldable pub is_create : Frame → Bool
is_create f = str_eq f.type "CREATE" || str_eq f.type "CREATE2"

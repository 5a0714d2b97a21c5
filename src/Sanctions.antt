-- ===== src/Sanctions.antt =====
-- internal/sanctions: is one address sanctioned? A Checker's IsSanctioned is a function of this
-- type, over the state `W` of whatever it asks.
pub mod Listed
pub mod Any
pub mod Cache
pub mod Oracle
use tx_firewall.Base.{Bool}
use tx_firewall.Base.Exec.{Exec}
use tx_firewall.Geth.{Address}

abbrev pub Checker : Type 0 → Type 0
Checker W = Address → Exec W Bool

-- ===== src/Rules/Sanctioned.antt =====
-- internal/rules/sanctioned.go.
pub mod Hits
use tx_firewall.Base.{String, true, List, [], ◌∷◌, ◌++◌, wrap, concat, if◌then◌else◌}
use tx_firewall.Base.Exec.{Exec, ◌>>=◌, pure, on_error}
use tx_firewall.Geth.{Geth, Address}
use tx_firewall.Sanctions.{Checker}
use tx_firewall.Rules.{Finding, Rule}

abbrev pub name : String
name = "sanctioned-address"

module _ (g : Geth) where
  open g use {address_hex}

  unfoldable pub finding_for : Address → Finding
  finding_for addr = record {
    rule = name;
    hard_block = true;
    weight = 0;
    reason = concat ("sanctioned address " ∷ address_hex addr ∷ []);
  }

  module _ {W : Type 0} (checker : Checker W) where
    -- The loop of Evaluate.
    unfoldable pub check_all : List Finding → List Address → Exec W (List Finding)
    check_all findings [] = pure findings
    check_all findings (addr ∷ addrs) =
        on_error (wrap (concat ("check " ∷ address_hex addr ∷ []))) (checker addr) >>= λ hit.
        check_all (if hit then findings ++ finding_for addr ∷ [] else findings) addrs

    unfoldable pub rule : Rule W
    unfolding check_all finding_for
    rule = record { name = name; evaluate = λ a. check_all [] a.addresses }

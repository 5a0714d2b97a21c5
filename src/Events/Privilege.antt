-- ===== src/Events/Privilege.antt =====
-- internal/events/events.go: events that change who controls a contract.
pub mod Placement
use tx_firewall.Base.{
  ℕ, String, Bytes, List, [], ◌∷◌, Option, none, some, length, not, if◌then◌else◌, ◌==◌, bytes_eq,
  get_elem?,
}
use tx_firewall.Geth.{Geth, Address, Hash, zero_address, zero_hash}
use tx_firewall.Events.{address_arg, event_args}

-- PrivilegeKind, a string type, and its constants.
abbrev pub PrivilegeKind : Type 0
PrivilegeKind = String

abbrev pub ownership_transferred : PrivilegeKind
ownership_transferred = "OwnershipTransferred"

abbrev pub upgraded : PrivilegeKind
upgraded = "Upgraded"

abbrev pub admin_changed : PrivilegeKind
admin_changed = "AdminChanged"

abbrev pub role_granted : PrivilegeKind
role_granted = "RoleGranted"

pub record PrivilegeChange : Type 0 where
  pub kind : PrivilegeKind
  pub contract : Address
  pub subject : Address
  pub previous : Address
  pub role : Hash

pub record PrivilegeEvent : Type 0 where
  pub kind : PrivilegeKind
  pub nargs : ℕ
  pub build : List Hash → PrivilegeChange

-- PrivilegeChange{}
abbrev pub no_change : PrivilegeChange
no_change = record {
  kind = "";
  contract = zero_address;
  subject = zero_address;
  previous = zero_address;
  role = zero_hash;
}

-- `a[i]`; a `build` is called only with as many arguments as it reads.
abbrev pub arg : List Hash → ℕ → Hash
arg a i = elim (get_elem? a i) [ none ↦ zero_hash | some word ↦ word ]

module _ {ℓ} {V : Type ℓ} where
  -- `m[topic]` on a map that is keyed by hashes.
  unfoldable pub lookup_topic : Hash → List (Hash × V) → Option V
  lookup_topic topic [] = none
  lookup_topic topic ((key, v) ∷ m) = if bytes_eq key topic then some v else lookup_topic topic m

module _ (g : Geth) where
  open g use {keccak256}

  unfoldable pub build_previous_subject : List Hash → PrivilegeChange
  build_previous_subject a = record no_change {
    previous = address_arg g (arg a 0);
    subject = address_arg g (arg a 1);
  }

  unfoldable pub build_subject : List Hash → PrivilegeChange
  build_subject a = record no_change { subject = address_arg g (arg a 0) }

  unfoldable pub build_role : List Hash → PrivilegeChange
  build_role a = record no_change { role = arg a 0; subject = address_arg g (arg a 1) }

  unfoldable pub privilege_events : List (Hash × PrivilegeEvent)
  privilege_events =
      (
        keccak256 "OwnershipTransferred(address,address)",
        record { kind = ownership_transferred; nargs = 2; build = build_previous_subject },
      )
      ∷ (
        keccak256 "Upgraded(address)",
        record { kind = upgraded; nargs = 1; build = build_subject },
      )
      ∷ (
        keccak256 "AdminChanged(address,address)",
        record { kind = admin_changed; nargs = 2; build = build_previous_subject },
      )
      ∷ (
        keccak256 "RoleGranted(bytes32,address,address)",
        record { kind = role_granted; nargs = 3; build = build_role },
      )
      ∷ []

  -- The end of DecodePrivilegeChange, once the event is known and its arguments are read.
  unfoldable pub privilege_of_args :
      Address → PrivilegeEvent → Option (List Hash) → Option PrivilegeChange
  privilege_of_args contract ev none = none
  privilege_of_args contract ev (some args) =
      if not (length args == ev.nargs)
      then none
      else some (record (ev.build args) { kind = ev.kind; contract = contract })

  unfoldable pub decode_privilege_change : Address → List Hash → Bytes → Option PrivilegeChange
  decode_privilege_change contract [] bs = none
  decode_privilege_change contract (topic ∷ indexed) bs =
      elim (lookup_topic topic privilege_events) [
        | none ↦ none
        | some ev ↦ privilege_of_args contract ev (event_args g indexed bs)
      ]

-- ===== src/Events/Transfer/Layouts.antt =====
-- Which logs are transfers, by the layouts of the two standards.
use tx_firewall.Base.{Bytes, none, some, List, [], ◌∷◌, ◌≡◌, length, set_bytes}
use tx_firewall.Geth.{Geth, Address, Hash}
use tx_firewall.Events.{address_arg}
use tx_firewall.Events.Transfer.{Transfer, erc20, erc721, transfer_topic}

module _ (g : Geth) (token : Address) where
  -- Sender and recipient in the topics, the amount as the only word of the data.
  abbrev pub IsErc20 : List Hash → Bytes → Transfer → Type 0
  IsErc20 topics bs t =
      (from : Hash) × (to : Hash) × (topics ≡ transfer_topic g ∷ from ∷ to ∷ [])
      × (length bs ≡ 32)
      × (t ≡ record {
        standard = erc20;
        token = token;
        from = address_arg g from;
        to = address_arg g to;
        amount = some (set_bytes bs);
        token_id = none;
      })

  -- Sender, recipient and token in the topics, and no data.
  abbrev pub IsErc721 : List Hash → Bytes → Transfer → Type 0
  IsErc721 topics bs t =
      (from : Hash) × (to : Hash) × (id : Hash) × (topics ≡ transfer_topic g ∷ from ∷ to ∷ id ∷ [])
      × (bs ≡ [])
      × (t ≡ record {
        standard = erc721;
        token = token;
        from = address_arg g from;
        to = address_arg g to;
        amount = none;
        token_id = some (g.hash_big id);
      })

-- ===== src/Events/Privilege/Placement.antt =====
-- Indexed and unindexed arguments of the privilege events (internal/events).
use tx_firewall.Base.{
  ℕ, zero, suc, ◌*◌, ◌%◌, ◌≤◌, Bytes, true, Option, none, some, List, [], ◌∷◌, ◌++◌, ◌≡◌, refl, ◌∙◌,
  ap, length, take-append, drop-append, length-append, All, arith, ◌==◌,
}
use tx_firewall.Geth.{Geth, IsGeth, Address, Hash}
use tx_firewall.Events.{words, event_args}
use tx_firewall.Events.Privilege.{
  lookup_topic, privilege_events, privilege_of_args, decode_privilege_change,
}

abbrev pub IsWord : Hash → Type 0
IsWord w = length w ≡ 32

-- The data of an event whose arguments outside the topics are these.
unfoldable pub encode : List Hash → Bytes
encode [] = []
encode (w ∷ ws) = w ++ encode ws

length-encode : (ws : List Hash) → All IsWord ws → length (encode ws) ≡ 32 * length ws
unfolding encode
length-encode [] h = refl
length-encode (w ∷ ws) (p, h) = omega (arith, length-append w (encode ws), length-encode ws h)

module _ (g : Geth) (law : IsGeth g) where
  words-cons :
      (fuel : ℕ) (w : Hash) (rest : Bytes)
      → IsWord w
      → words g (suc fuel) (w ++ rest) ≡ w ∷ words g fuel rest
  unfolding words
  words-cons fuel [] rest p = absurd (omega arith)
  words-cons fuel (b ∷ bs) rest p =
      rw (take-append (b ∷ bs) rest p, drop-append (b ∷ bs) rest p, law.word_to_hash (b ∷ bs) p)

  words-encode :
      (ws : List Hash) (fuel : ℕ)
      → All IsWord ws
      → length (encode ws) ≤ fuel
      → words g fuel (encode ws) ≡ ws
  unfolding encode words
  words-encode [] zero h l = refl
  words-encode [] (suc fuel) h l = refl
  words-encode (w ∷ ws) zero (p, h) l = absurd (omega (arith, length-append w (encode ws)))
  words-encode (w ∷ ws) (suc fuel) (p, h) l =
      words-cons fuel w (encode ws) p
      ∙ ap (◌∷◌ w) (words-encode ws fuel h (omega (arith, length-append w (encode ws))))

  -- If go-ethereum copies 32 bytes as they are, reading the arguments of an event, which are words
  -- of 32 bytes where they are in the data, undoes their encoding.
  pub event_args-encode :
      (indexed ws : List Hash)
      → All IsWord ws
      → event_args g indexed (encode ws) ≡ some (indexed ++ ws)
  unfolding event_args
  event_args-encode indexed ws h =
      let whole : (length (encode ws) % 32 == 0) ≡ true = ground (arith, length-encode ws h) in
      rw (whole, words-encode ws (length (encode ws)) h (omega arith))

  -- If go-ethereum copies 32 bytes as they are, a log decodes to the same privilege change, or to
  -- none, however its arguments, words of 32 bytes where they are in the data, are divided between
  -- the topics and the data.
  pub decode_privilege_change-placement :
      (contract : Address) (topic : Hash) (indexed indexed' ws ws' : List Hash)
      → All IsWord ws
      → All IsWord ws'
      → indexed ++ ws ≡ indexed' ++ ws'
      → decode_privilege_change g contract (topic ∷ indexed) (encode ws)
        ≡ decode_privilege_change g contract (topic ∷ indexed') (encode ws')
  unfolding decode_privilege_change
  decode_privilege_change-placement contract topic indexed indexed' ws ws' h h' same =
      let read : event_args g indexed (encode ws) ≡ event_args g indexed' (encode ws') =
        rw (event_args-encode indexed ws h, event_args-encode indexed' ws' h', same) in
      ap {A = Option (List Hash)}
        (λ args. elim (lookup_topic topic (privilege_events g)) [
          | none ↦ none
          | some ev ↦ privilege_of_args g contract ev args
        ])
        read

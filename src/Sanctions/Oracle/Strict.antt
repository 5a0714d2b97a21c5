-- ===== src/Sanctions/Oracle/Strict.antt =====
-- The reading of the oracle's answer (internal/sanctions).
use Prim.Native.Nat.{min}
use tx_firewall.Base.{
  err-ne-ok, ℕ, Bool, true, false, Bytes, [], ◌∷◌, ◌++◌, ◌≡◌, refl, ◌∙◌, sym, ap, ◌↔◌, inl, inr, ok,
  arith, length, take, drop, replicate, any, not, ◌==◌, if◌then◌else◌, Bool-cases, take-append-drop,
  length-take, length-drop, ◌-◌,
}
use tx_firewall.Sanctions.Oracle.{not_a_bool, decode_last, decode_bool}

-- The ABI encoding of a bool: a 32-byte word.
unfoldable pub encode_bool : Bool → Bytes
encode_bool false = replicate 32 0
encode_bool true = replicate 31 0 ++ 1 ∷ []

decode_bool-encode_bool : (b : Bool) → decode_bool (encode_bool b) ≡ ok b
unfolding decode_bool decode_last encode_bool
decode_bool-encode_bool false = refl
decode_bool-encode_bool true = refl

zeros : (bs : Bytes) → any (λ b. not (b == 0)) bs ≡ false → bs ≡ replicate (length bs) 0
zeros [] h = refl
zeros (b ∷ bs) h = ground (arith, zeros bs)

decode_last-inv :
    (bs : Bytes) (b : Bool) → length bs ≡ 1 → decode_last bs ≡ ok b → bs ≡ (if b then 1 else 0) ∷ []
unfolding decode_last not_a_bool
decode_last-inv [] b l h = absurd (omega arith)
decode_last-inv (x ∷ []) b l h = ground arith
decode_last-inv (x ∷ y ∷ bs) b l h = absurd (omega arith)

encode_bool_lem : (b : Bool) → encode_bool b ≡ replicate 31 0 ++ (if b then 1 else 0) ∷ []
unfolding encode_bool
encode_bool_lem true = refl
encode_bool_lem false = refl

decode_bool-inv : (out : Bytes) (b : Bool) → decode_bool out ≡ ok b → out ≡ encode_bool b
unfolding decode_bool not_a_bool
decode_bool-inv out b h = elim (Bool-cases (length out == 32)) [
  | inl fits ↦ elim (Bool-cases (any (λ x. not (x == 0)) (take 31 out))) [
    | inl dirty ↦ absurd (err-ne-ok (rw (fits, dirty) at h))
    | inr clean ↦
        let size : length out ≡ 32 = ground arith in
        let front : take 31 out ≡ replicate 31 0 =
          zeros (take 31 out) clean
          ∙ ap (λ (n : ℕ). replicate n 0) (length-take 31 out ∙ ap (λ (n : ℕ). min 31 n) size) in
        let back : drop 31 out ≡ (if b then 1 else 0) ∷ [] =
          decode_last-inv (drop 31 out) b (length-drop 31 out ∙ ap (λ (n : ℕ). n - 31) size)
            (rw (fits, clean) at h) in
        sym (take-append-drop 31 out) ∙ (rw (front, back) (sym (encode_bool_lem b)))
  ]
  | inr other ↦ absurd (err-ne-ok (rw other at h))
]

-- An answer is read as `b` exactly if it is the 32-byte ABI encoding of `b`: anything else, such
-- as the empty answer of an address without code, is an error.
pub decode_bool_iff : (out : Bytes) (b : Bool) → (decode_bool out ≡ ok b) ↔ (out ≡ encode_bool b)
decode_bool_iff out b = (decode_bool-inv out b, λ e. rw e (decode_bool-encode_bool b))

-- ===== src/Wallet/Ids/Collisions.antt =====
-- Rows of two columns, such as the address of a key on a chain, share an id only if the hash
-- collides.
use sealvault.Prelude.{
  ◌≡◌, ◌≢◌, refl, arith, ℕ, ◌≤◌, Text, [], ◌∷◌, ◌++◌, ◌⊎◌, inl, inr, ap, sym, ◌∙◌, text_eq,
  text_eq_refl, text_eq→≡, length, take, drop, take-append, drop-append, Bool-cases, length-append,
}
use mathlib.Core.Bool.{true≢false}
use sealvault.Prelude.Result.{ok}
use sealvault.Ethereum.{EthImpl}
use sealvault.Wallet.Ids.{
  EntityName, qualified_entity_name, column_bytes, hash_input, parse_id, deterministic_id,
}

-- Texts of one length are the parts of equal concatenations.
append-cancel :
    (p a b c d : Text) → length a ≡ length c → (p ++ a) ++ b ≡ (p ++ c) ++ d → (a ≡ c) × (b ≡ d)
append-cancel p a b c d n h =
    let len : length (p ++ a) ≡ length (p ++ c) =
      omega (arith, length-append p a, length-append p c) in
    let front : p ++ a ≡ p ++ c =
      sym (take-append (p ++ a) b)
      ∙ (ap (λ (t : Text). take (length (p ++ a)) t) h
          ∙ (ap (λ (k : ℕ). take k ((p ++ c) ++ d)) len ∙ take-append (p ++ c) d)) in
    let back : b ≡ d =
      sym (drop-append (p ++ a) b)
      ∙ (ap (λ (t : Text). drop (length (p ++ a)) t) h
          ∙ (ap (λ (k : ℕ). drop k ((p ++ c) ++ d)) len ∙ drop-append (p ++ c) d)) in
    (sym (drop-append p a) ∙ (ap (λ (t : Text). drop (length p) t) front ∙ drop-append p c), back)

module _ ⦃eth : EthImpl⦄ where
  -- Two inputs of the hash that differ and have one id
  abbrev pub Collision : Type 0
  Collision =
      (x : Text) × (y : Text) × (x ≢ y)
      × (eth.base32_nopad (eth.blake3 x) ≡ eth.base32_nopad (eth.blake3 y))

  column_bytes-id : (a : Text) → 1 ≤ length a → column_bytes a ≡ a
  unfolding column_bytes
  column_bytes-id [] h = absurd (omega arith)
  column_bytes-id (c ∷ cs) h = refl

  -- An id that is derived has hashed the two columns, one behind the other.
  deterministic_id-columns :
      (e : EntityName) (a b : Text) {id : Text}
      → 1 ≤ length a
      → 1 ≤ length b
      → deterministic_id e (a ∷ (b ∷ [])) ≡ ok id
      → id ≡ eth.base32_nopad (eth.blake3 ((qualified_entity_name e ++ a) ++ b))
  unfolding deterministic_id hash_input parse_id
  deterministic_id-columns e a b m n h =
      let one = column_bytes-id a m in let two = column_bytes-id b n in ground arith

  -- Two rows of an entity with two columns that have the same id are the same row, or else the hash
  -- collides, if their first columns have one length and no column is empty.
  pub deterministic_id-injective :
      (e : EntityName) (a b c d id : Text)
      → 1 ≤ length a
      → length a ≡ length c
      → 1 ≤ length b
      → 1 ≤ length d
      → deterministic_id e (a ∷ (b ∷ [])) ≡ ok id
      → deterministic_id e (c ∷ (d ∷ [])) ≡ ok id
      → ((a ≡ c) × (b ≡ d)) ⊎ Collision
  deterministic_id-injective e a b c d id m same n o h k =
      let p : Text = qualified_entity_name e in
      let x : Text = (p ++ a) ++ b in
      let y : Text = (p ++ c) ++ d in
      let hx = deterministic_id-columns e a b m n h in
      let hy = deterministic_id-columns e c d (omega (arith, same)) o k in
      elim (Bool-cases (text_eq x y)) [
        | inl equal ↦ inl (append-cancel p a b c d same (text_eq→≡ x y equal))
        | inr differ ↦ inr (
          x,
          y,
          λ eq.
              true≢false (sym (ap (λ (t : Text). text_eq x t) (sym eq) ∙ text_eq_refl x) ∙ differ),
          sym hx ∙ hy,
        )
      ]

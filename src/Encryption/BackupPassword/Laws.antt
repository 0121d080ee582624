-- ===== src/Encryption/BackupPassword/Laws.antt =====
-- What the password parser accepts, and the round trip from the display to the parser.
use sealvault.Prelude.{
  ℕ, zero, suc, ◌+◌, ◌-◌, ◌*◌, ◌<◌, ◌≤◌, Text, ◌≡◌, refl, ◌∙◌, ap, sym, subst, Bool, true, false,
  ◌&&◌, Option, none, some, [], ◌∷◌, ◌++◌, ◌==◌, ltb, leb, length, take, drop, if◌then◌else◌, arith,
  All, elem-lt, every_below, every_below-lt, length-append, Bool-cases, Option-cases, inl, inr,
  All-take, All-drop, take_add, drop_add, take-length,
}
use mathlib.Core.List.{append_assoc, append-nil}
use sealvault.Prelude.Result.{Result, ok, err}
use sealvault.Error.{Error}
use sealvault.Encryption.KeyMaterial
use sealvault.Encryption.KeyMaterial.{all_zero}
use sealvault.Encryption.BackupPassword.{
  password_length, alphabet, is_symbol, decode_upper, decode_symbol, parse_loop, from_str,
  display_loop, display_to_user,
}

-- A password: 20 symbols of the alphabet.
pub record IsPassword (password : Text) : Type 0 where
  pub len : length password ≡ password_length
  pub symbols : All (λ c. is_symbol c ≡ true) password

is_symbol-lt : (s : ℕ) → is_symbol s ≡ true → s < 91
unfolding is_symbol
is_symbol-lt s h = elem-lt 91 s alphabet (omega arith) h

digits_are_symbols : (is_symbol b'0' ≡ true) × (is_symbol b'1' ≡ true) × (is_symbol 0 ≡ false)
unfolding is_symbol
digits_are_symbols = (refl, refl, refl)

decode_upper-is_symbol : (c s : ℕ) → decode_upper c ≡ some s → is_symbol s ≡ true
unfolding decode_upper
decode_upper-is_symbol c s h = ground (arith, digits_are_symbols)

-- The symbols of `s`, in their order.
pub decoded : (ℕ → Option ℕ) → Text → Text
decoded up [] = []
decoded up (c ∷ s) = elim (decode_symbol up c) [ none ↦ decoded up s | some x ↦ x ∷ decoded up s ]

-- What becomes of a list of symbols, by its length alone.
abbrev pub outcome : Text → Result Error Text
outcome symbols =
    if ltb password_length (length symbols)
    then err (Error.user "Password too long")
    else if ltb (length symbols) password_length
    then err (Error.user "Password too short")
    else ok symbols

abbrev Symbols : Text → Type 0
Symbols = All (λ c. is_symbol c ≡ true)

new-Symbols : (s : Text) → Symbols s → 0 < length s → KeyMaterial.new s ≡ ok s
unfolding KeyMaterial.new
new-Symbols [] v h = absurd (omega arith)
new-Symbols (c ∷ s) v h = ground (arith, v.0, digits_are_symbols)

Symbols-append : (s : Text) (c : ℕ) → Symbols s → is_symbol c ≡ true → Symbols (s ++ (c ∷ []))
Symbols-append [] c v h = (h, tt)
Symbols-append (a ∷ s) c v h = (v.0, Symbols-append s c v.1 h)

module _ (up : ℕ → Option ℕ) where
  decode_symbol-is_symbol : (c s : ℕ) → decode_symbol up c ≡ some s → is_symbol s ≡ true
  unfolding decode_symbol
  decode_symbol-is_symbol c s h = elim (Option-cases (up c)) [
    | inl e ↦ absurd (cc (e, h))
    | inr (u, e) ↦ decode_upper-is_symbol u s (rw (e, decode_symbol) at h)
  ]

  parse_loop-eq-outcome :
      (password s : Text)
      → Symbols password
      → length password ≤ password_length
      → parse_loop up password s ≡ outcome (password ++ decoded up s)
  unfolding parse_loop decoded
  parse_loop-eq-outcome password [] v h =
      rw append-nil (elim (Bool-cases (ltb (length password) password_length)) [
        | inl short ↦ ground arith
        | inr full ↦ ground (arith, new-Symbols password v (ground arith))
      ])
  parse_loop-eq-outcome password (c ∷ s) v h = elim (Option-cases (decode_symbol up c)) [
    | inl e ↦ rw (e, parse_loop, decoded) (parse_loop-eq-outcome password s v h)
    | inr (x, e) ↦
        let symbol = decode_symbol-is_symbol c x e in
        let longer = password ++ (x ∷ []) in
        let len : length longer ≡ length password + 1 = length-append password (x ∷ []) in
        elim (Bool-cases (leb password_length (length password))) [
          | inl full ↦
              rw (e, parse_loop, decoded)
                (ground (arith, length-append password (x ∷ decoded up s)))
          | inr room ↦
              rw (e, parse_loop, decoded)
                (ground (
                  arith,
                  is_symbol-lt x symbol,
                  append_assoc password (x ∷ []) (decoded up s),
                  parse_loop-eq-outcome longer s (Symbols-append password x v symbol)
                      (ground arith),
                ))
        ]
  ]

  -- Parsing depends on the symbols among the characters alone: all else is skipped, more than 20
  -- symbols and fewer than 20 are errors of their own, and 20 symbols are the password.
  pub from_str-eq-outcome : (s : Text) → from_str up s ≡ outcome (decoded up s)
  unfolding from_str
  from_str-eq-outcome s = parse_loop-eq-outcome [] s tt (omega arith)

  decoded-Symbols : (s : Text) → Symbols (decoded up s)
  unfolding decoded
  decoded-Symbols [] = tt
  decoded-Symbols (c ∷ s) = elim (Option-cases (decode_symbol up c)) [
    | inl e ↦ rw (e, decoded) (decoded-Symbols s)
    | inr (x, e) ↦ rw (e, decoded) (decode_symbol-is_symbol c x e, decoded-Symbols s)
  ]

  -- Whatever parses is a password, 20 symbols of the alphabet.
  pub from_str-IsPassword : (s : Text) (p : Text) → from_str up s ≡ ok p → IsPassword p
  from_str-IsPassword s p h =
      let o : outcome (decoded up s) ≡ ok p = sym (from_str-eq-outcome s) ∙ h in
      let e : decoded up s ≡ p = ground arith in
      record { len = ground arith; symbols = subst Symbols e (decoded-Symbols s) }

-- On ASCII text `char::to_uppercase` gives one character, and changes the lower case letters.
abbrev pub ascii_upper : ℕ → ℕ
ascii_upper c = if leb b'a' c && leb c b'z' then c - 32 else c

module _ (up : ℕ → Option ℕ) (ascii : (c : ℕ) → c < 128 → up c ≡ some (ascii_upper c)) where
  decode_table :
      every_below
        (λ s.
          if is_symbol s
          then elim (decode_upper (ascii_upper s)) [ none ↦ false | some t ↦ t == s ]
          else true)
        91
      ≡ true
  unfolding every_below decode_upper is_symbol
  decode_table = refl

  decode_symbol_of_symbol : (s : ℕ) → is_symbol s ≡ true → decode_symbol up s ≡ some s
  unfolding decode_symbol
  decode_symbol_of_symbol s h =
      let lt : s < 91 = is_symbol-lt s h in
      ground (arith, ascii s, every_below-lt _ 91 s lt decode_table)

  decode_symbol_dash : decode_symbol up b'-' ≡ none
  unfolding decode_symbol decode_upper is_symbol
  decode_symbol_dash = rw (ascii b'-' (omega arith), decode_symbol)

  decoded-append : (s t : Text) → decoded up (s ++ t) ≡ decoded up s ++ decoded up t
  unfolding decoded
  decoded-append [] t = refl
  decoded-append (c ∷ s) t = elim (Option-cases (decode_symbol up c)) [
    | inl e ↦ rw (e, decoded) (decoded-append s t)
    | inr (x, e) ↦ rw (e, decoded) (ap (λ (r : Text). x ∷ r) (decoded-append s t))
  ]

  decoded_of_Symbols : (s : Text) → Symbols s → decoded up s ≡ s
  unfolding decoded
  decoded_of_Symbols [] v = refl
  decoded_of_Symbols (c ∷ s) v =
      rw (decode_symbol_of_symbol c v.0, decoded)
        (ap (λ (r : Text). c ∷ r) (decoded_of_Symbols s v.1))

  decoded_dash : (b : Bool) → decoded up (if b then b'-' ∷ [] else []) ≡ []
  unfolding decoded
  decoded_dash true = rw (decode_symbol_dash, decoded)
  decoded_dash false = refl

  decoded-display_loop :
      (k i : ℕ) (p : Text)
      → Symbols p
      → decoded up (display_loop k i p) ≡ take (k * 5) (drop (i * 5) p)
  unfolding display_loop decoded
  decoded-display_loop zero i p v = refl
  decoded-display_loop (suc k) i p v =
      let d = drop (i * 5) p in
      let group : Symbols (take 5 d) = All-take _ 5 d (All-drop _ (i * 5) p v) in
      let later : drop ((i + 1) * 5) p ≡ drop 5 d =
        subst (λ n. drop n p ≡ drop 5 d) (omega arith) (drop_add (i * 5) 5 p) in
      let split : take (suc k * 5) d ≡ take 5 d ++ take (k * 5) (drop 5 d) =
        subst (λ n. take n d ≡ take 5 d ++ take (k * 5) (drop 5 d)) (omega arith)
          (take_add 5 (k * 5) d) in
      rw (decoded-append, decoded_of_Symbols _ group, decoded-append, decoded_dash)
        (rw (decoded-display_loop k (i + 1) p v, later, split) refl)

  -- A password typed in the way it was displayed is read back.
  pub from_str-display_to_user : (p : Text) → IsPassword p → from_str up (display_to_user p) ≡ ok p
  unfolding display_to_user
  from_str-display_to_user p v =
      let all : decoded up (display_to_user p) ≡ p =
        decoded-display_loop 4 0 p v.symbols ∙ take-length p 20 v.len in
      from_str-eq-outcome up (display_to_user p) ∙ rw all (ground (arith, v.len))

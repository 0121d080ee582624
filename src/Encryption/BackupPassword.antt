-- ===== src/Encryption/BackupPassword.antt =====
-- core/src/encryption/backup_password.rs: the password's alphabet, its display in groups and its
-- parser. `char::to_uppercase` is the parameter `to_uppercase`, as its tables are not in the
-- repository.
pub mod Laws
use sealvault.Prelude.{
  ℕ, zero, suc, ◌+◌, ◌-◌, ◌*◌, ◌/◌, Text, Bool, true, false, ◌||◌, Option, none, some, [], ◌∷◌,
  ◌++◌, ◌==◌, ltb, leb, length, take, drop, elem, codes, if◌then◌else◌,
}
use sealvault.Prelude.Result.{Result, ok, err}
use sealvault.Error.{Error}
use sealvault.Encryption.KeyMaterial

abbrev pub password_length : ℕ
password_length = 20

-- Crockford's base 32 alphabet, `ALPHABET`
abbrev pub alphabet : Text
alphabet = codes "0123456789ABCDEFGHJKMNPQRSTVWXYZ"

-- `CHAR_SET.contains`
unfoldable pub is_symbol : ℕ → Bool
is_symbol c = elem c alphabet

-- `decode_symbol` after the conversion to upper case
unfoldable pub decode_upper : ℕ → Option ℕ
decode_upper s =
    if s == b'0' || (s == b'O' || s == b'o')
    then some b'0'
    else if s == b'1' || (s == b'I' || (s == b'i' || (s == b'L' || s == b'l')))
    then some b'1'
    else if is_symbol s
    then some s
    else none

module _ (to_uppercase : ℕ → Option ℕ) where
  unfoldable pub decode_symbol : ℕ → Option ℕ
  decode_symbol symbol = elim (to_uppercase symbol) [ none ↦ none | some s ↦ decode_upper s ]

  -- The loop of `from_str`: the filled part of the array, and the characters to come.
  unfoldable pub parse_loop : Text → Text → Result Error Text
  parse_loop password [] =
      if ltb (length password) password_length
      then err (Error.user "Password too short")
      else KeyMaterial.new password
  parse_loop password (c ∷ s) = elim (decode_symbol c) [
    | none ↦ parse_loop password s
    | some symbol ↦
        let rest = parse_loop (password ++ (symbol ∷ [])) s in
        if leb password_length (length password)
        then err (Error.user "Password too long")
        else if ltb symbol 256
        then rest
        else err (Error.fatal "Unexpected character in backup password character set")
  ]

  -- `BackupPassword::from_str`
  unfoldable pub from_str : Text → Result Error Text
  unfolding parse_loop decode_symbol decode_upper is_symbol KeyMaterial.new
  from_str s = parse_loop [] s

abbrev pub group_size : ℕ
group_size = 5

-- The loop of `display_to_user`: the rounds left, the counter and the password.
unfoldable pub display_loop : ℕ → ℕ → Text → Text
display_loop zero i password = []
display_loop (suc k) i password =
    let start = i * group_size in
    take group_size (drop start password)
    ++ ((if ltb i (password_length / group_size - 1) then b'-' ∷ [] else [])
        ++ display_loop k (i + 1) password)

-- `BackupPassword::display_to_user`
unfoldable pub display_to_user : Text → Text
unfolding display_loop
display_to_user password = display_loop (password_length / group_size) 0 password

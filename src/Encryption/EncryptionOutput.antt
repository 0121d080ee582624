-- ===== src/Encryption/EncryptionOutput.antt =====
-- core/src/encryption/encryption_output.rs: a ciphertext with its nonce, and its bytes.
use sealvault.Prelude.{
  ℕ, ◌+◌, ◌≤◌, ◌<◌, Text, ◌≡◌, subst, ◌++◌, ltb, length, take, drop, length-append, take-append,
  drop-append, take-append-drop, length-take, length-drop, if◌then◌else◌, arith,
}
use sealvault.Prelude.Result.{Result, ok, err}
use sealvault.Error.{Error}

abbrev pub nonce_bytes : ℕ
nonce_bytes = 24

abbrev pub tag_bytes : ℕ
tag_bytes = 16

pub record EncryptionOutput : Type 0 where
  pub cipher_text : Text
  pub nonce : Text

-- `From<&EncryptionOutput> for Vec<u8>`
unfoldable pub to_vec : EncryptionOutput → Text
to_vec o = o.nonce ++ o.cipher_text

abbrev pub vector_too_short_error : Error
vector_too_short_error = Error.fatal "Vector is too short."

-- `TryFrom<Vec<u8>>`: the nonce comes first, and the rest has room for the tag and a byte.
unfoldable pub try_from : Text → Result Error EncryptionOutput
try_from value =
    if ltb (length value) nonce_bytes
    then err vector_too_short_error
    else let rest = drop nonce_bytes value in
      if ltb (length rest) (tag_bytes + 1)
      then err vector_too_short_error
      else ok (record { cipher_text = rest; nonce = take nonce_bytes value })

-- The nonce is an `XNonce` of 24 bytes, and the ciphertext has the tag and at least a byte.
pub record IsOutput (o : EncryptionOutput) : Type 0 where
  pub nonce_len : length o.nonce ≡ nonce_bytes
  pub cipher_len : tag_bytes + 1 ≤ length o.cipher_text

-- Decoding the bytes of an encryption output gives the output back.
pub try_from-to_vec : (o : EncryptionOutput) → IsOutput o → try_from (to_vec o) ≡ ok o
unfolding try_from to_vec
try_from-to_vec o v =
    let both = o.nonce ++ o.cipher_text in
    let t : take 24 both ≡ o.nonce =
      subst (λ n. take n both ≡ o.nonce) v.nonce_len (take-append o.nonce o.cipher_text) in
    let d : drop 24 both ≡ o.cipher_text =
      subst (λ n. drop n both ≡ o.cipher_text) v.nonce_len (drop-append o.nonce o.cipher_text) in
    rw (t, d) (ground (arith, length-append o.nonce o.cipher_text, v.nonce_len, v.cipher_len))

-- Fewer than 41 bytes, the nonce, the tag and one byte, never decode.
pub try_from-short :
    (value : Text) → length value < 41 → try_from value ≡ err vector_too_short_error
unfolding try_from
try_from-short value short = ground (arith, length-drop 24 value)

-- From 41 bytes on decoding succeeds, with an output that is well formed and that encodes to the
-- very bytes that were read.
pub try_from-long :
    (value : Text)
    → 41 ≤ length value
    → (o : EncryptionOutput) × (try_from value ≡ ok o) × (to_vec o ≡ value) × IsOutput o
unfolding try_from to_vec
try_from-long value long = (
  record { cipher_text = drop 24 value; nonce = take 24 value },
  ground (arith, length-drop 24 value),
  take-append-drop 24 value,
  record {
    nonce_len = omega (arith, length-take 24 value);
    cipher_len = omega (arith, length-drop 24 value);
  },
)

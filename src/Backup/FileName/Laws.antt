-- ===== src/Backup/FileName/Laws.antt =====
-- The round trip from backup metadata through the file name.
use sealvault.Prelude.{
  ℕ, ◌<◌, ◌≤◌, ◌≢◌, Text, ◌≡◌, refl, Bool, true, false, some, [], ◌∷◌, ◌++◌, codes, All, arith,
}
use sealvault.Prelude.Int.{pos}
use sealvault.Prelude.Decimal
use sealvault.Prelude.Result.{ok}
use sealvault.Backup.FileName.{
  BackupScheme, is_name_char, all_of, get_backup_file_name, literal, span, field, captures,
  from_str,
}

literal-append : (p s : Text) → literal p (p ++ s) ≡ some s
unfolding literal
literal-append [] s = refl
literal-append (c ∷ p) s = ground (arith, literal-append p s)

module _ (p : ℕ → Bool) where
  span-append :
      (a s : Text) (c : ℕ)
      → All (λ x. p x ≡ true) a
      → p c ≡ false
      → span p (a ++ (c ∷ s)) ≡ (a, c ∷ s)
  unfolding span
  span-append [] s c v h = ground arith
  span-append (x ∷ a) s c v h = ground (arith, v.0, span-append a s c v.1 h)

  field-append :
      (x : ℕ) (a s : Text) (c : ℕ)
      → All (λ y. p y ≡ true) (x ∷ a)
      → p c ≡ false
      → field p (x ∷ (a ++ (c ∷ s))) ≡ some (x ∷ a, c ∷ s)
  unfolding field
  field-append x a s c v h = ground (arith, v.0, span-append a s c v.1 h)

All-all_of : (p : ℕ → Bool) (s : Text) → All (λ x. p x ≡ true) s → all_of p s ≡ true
unfolding all_of
All-all_of p [] v = refl
All-all_of p (c ∷ s) v = ground (arith, v.0, All-all_of p s v.1)

-- A text for a name in a file name: not empty, of letters, digits and dashes.
pub record IsName (s : Text) : Type 0 where
  pub inhabited : s ≢ []
  pub chars : All (λ c. is_name_char c ≡ true) s

All-imp :
    (p q : ℕ → Bool) (s : Text)
    → ((c : ℕ) → p c ≡ true → q c ≡ true)
    → All (λ c. p c ≡ true) s
    → All (λ c. q c ≡ true) s
All-imp p q [] f v = tt
All-imp p q (c ∷ s) f v = (f c v.0, All-imp p q s f v.1)

module _ (nd : ℕ → Bool) (ascii : (c : ℕ) → c < 128 → nd c ≡ Decimal.is_digit c) where
  nd-digit : (c : ℕ) → Decimal.is_digit c ≡ true → nd c ≡ true
  nd-digit c h = ground (arith, ascii c)

  not_name : is_name_char b'_' ≡ false
  unfolding is_name_char
  not_name = refl

  nd_separators : (nd b'_' ≡ false) × (nd b'.' ≡ false)
  nd_separators = (ground (arith, ascii b'_'), ground (arith, ascii b'.'))

  All-nd : (s : Text) → All (λ c. Decimal.is_digit c ≡ true) s → All (λ c. nd c ≡ true) s
  All-nd s = All-imp Decimal.is_digit nd s nd-digit

  scheme_chars : All (λ c. is_name_char c ≡ true) (codes "v1")
  unfolding is_name_char
  scheme_chars = (refl, (refl, tt))

  captures_lem :
      (o t d v : ℕ) (os ts device vs : Text)
      → All (λ c. is_name_char c ≡ true) (o ∷ os)
      → All (λ c. nd c ≡ true) (t ∷ ts)
      → All (λ c. is_name_char c ≡ true) (d ∷ device)
      → All (λ c. nd c ≡ true) (v ∷ vs)
      → captures nd (
          codes "sealvault_backup_v1_"
          ++ (o
              ∷ (os
                  ++ (b'_'
                      ∷ (t
                          ∷ (ts
                              ++ (b'_'
                                  ∷ (d ∷ (device ++ (b'_' ∷ (v ∷ (vs ++ codes ".zip"))))))))))))
        ≡ ok (record {
          scheme = codes "v1";
          os = o ∷ os;
          timestamp = t ∷ ts;
          device_id = d ∷ device;
          version = v ∷ vs;
        })
  unfolding captures
  captures_lem o t d v os ts device vs vo vt vd vv =
      rw (field-append is_name_char b'v' (b'1' ∷ []) _ b'_' scheme_chars not_name) (
        rw (field-append is_name_char o os _ b'_' vo not_name) (
          rw (field-append nd t ts _ b'_' vt nd_separators.0) (
            rw (field-append is_name_char d device _ b'_' vd not_name)
              (rw (field-append nd v vs (codes "zip") b'.' vv nd_separators.1)))))

  from_str_of_groups :
      (o d : ℕ) (os device ts vs : Text) (t v : ℕ)
      → All (λ c. is_name_char c ≡ true) (o ∷ os)
      → All (λ c. is_name_char c ≡ true) (d ∷ device)
      → All (λ c. Decimal.is_digit c ≡ true) ts
      → All (λ c. Decimal.is_digit c ≡ true) vs
      → Decimal.read ts ≡ some t
      → Decimal.read vs ≡ some v
      → from_str nd (
          codes "sealvault_backup_v1_"
          ++ (o
              ∷ (os ++ (b'_' ∷ (ts ++ (b'_' ∷ (d ∷ (device ++ (b'_' ∷ (vs ++ codes ".zip"))))))))))
        ≡ ok (record { timestamp = pos t; os = o ∷ os; device_id = d ∷ device; backup_version = v })
  from_str_of_groups o d os device [] vs t v vo vd vt vv rt rv = absurd (unfold Decimal.read in cc)
  from_str_of_groups o d os device (c ∷ ts) [] t v vo vd vt vv rt rv =
      absurd (unfold Decimal.read in cc)
  from_str_of_groups o d os device (c ∷ ts) (c' ∷ vs) t v vo vd vt vv rt rv =
      unfold from_str in
      rw (captures_lem o c d c' os ts device vs vo (All-nd (c ∷ ts) vt) vd (All-nd (c' ∷ vs) vv))
        (ground (arith, rt, rv, All-all_of is_name_char (d ∷ device) vd))

  -- The file name of a backup parses to its time, system, device and version, whatever the
  -- scheme, if the system and the device are names and the numbers fit into 64 bits.
  pub from_str-get_backup_file_name :
      (scheme : BackupScheme) (os device : Text) (t v : ℕ)
      → IsName os
      → IsName device
      → t ≤ Decimal.max_i64
      → v ≤ Decimal.max_i64
      → from_str nd (get_backup_file_name scheme os (pos t) device v)
        ≡ ok (record { timestamp = pos t; os = os; device_id = device; backup_version = v })
  unfolding get_backup_file_name
  from_str-get_backup_file_name BackupScheme.v1 [] device t v nos ndev ht hv =
      absurd (nos.inhabited refl)
  from_str-get_backup_file_name BackupScheme.v1 (o ∷ os) [] t v nos ndev ht hv =
      absurd (ndev.inhabited refl)
  from_str-get_backup_file_name BackupScheme.v1 (o ∷ os) (d ∷ device) t v nos ndev ht hv =
      from_str_of_groups o d os device (Decimal.show t) (Decimal.show v) t v nos.chars ndev.chars
        (Decimal.show-digits t) (Decimal.show-digits v) (Decimal.read-show t ht)
        (Decimal.read-show v hv)

-- ===== src/Tests/ToyLaws.antt =====
-- The small system does what the components rely on.
use sealvault.Prelude.{
  sym, ℕ, zero, suc, ◌+◌, ◌≡◌, ◌≢◌, ◌≤◌, ◌↔◌, refl, Text, true, some, [], ◌∷◌, ◌++◌, Elem, length,
  text_eq, text_eq_refl, text_eq→≡, Bool-cases, inl, inr, arith, length-append, length-take,
  take-append, drop-append, ap, ◌∙◌, subst, ◌-◌,
}
use mathlib.Core.Bool.{true≢false}
use sealvault.Prelude.Int.{ℤ}
use sealvault.Prelude.Result.{Result, ok}
use sealvault.Encryption.Keys.Laws.{IsAead}
use sealvault.Backup.Create.Outdated.{IsStorage}
use sealvault.Backup.FileName.{BackupMetadata, BackupScheme}
use sealvault.Backup.Restore.Archive.{IsArchiving}
use sealvault.Db.{Db}
use sealvault.Tests.Toy.{
  toy, toy_crypto, toy_storage, toy_decrypt, tag_of, repeat, put, get, get_int, put_int, toy_json,
  read_json, Files, names, without, find, version_bytes,
}

length-repeat : (n c : ℕ) → length (repeat n c) ≡ n
length-repeat zero c = refl
length-repeat (suc n) c = ground (arith, length-repeat n c)

length-tag_of : (key : Text) → length (tag_of key) ≡ 16
length-tag_of key = ground (
  arith,
  length-take 16 (key ++ repeat 16 7),
  length-append key (repeat 16 7),
  length-repeat 16 7,
)

toy_decrypt-tag :
    (key nonce msg aad : Text) → toy_decrypt key nonce (msg ++ tag_of key) aad ≡ ok msg
toy_decrypt-tag key nonce msg aad =
    let n : length (msg ++ tag_of key) - 16 ≡ length msg =
      ground (arith, length-append msg (tag_of key), length-tag_of key) in
    rw (n, drop-append, text_eq_refl, take-append)

get-put : (t rest : Text) → get (put t rest) ≡ (t, rest)
get-put t rest = rw (take-append t rest, drop-append t rest) refl

get_int-put_int : (t : ℤ) (rest : Text) → get_int (put_int t rest) ≡ (t, rest)
get_int-put_int (ℤ.pos n) rest = refl
get_int-put_int (ℤ.negsuc n) rest = refl

only_scheme : (s : BackupScheme) → BackupScheme.v1 ≡ s
only_scheme BackupScheme.v1 = refl

read_json-toy_json : (m : BackupMetadata) → read_json (toy_json m) ≡ ok m
read_json-toy_json m =
    let r5 : Text = put m.kdf_nonce [] in
    let r4 : Text = put m.operating_system r5 in
    let r3 : Text = put m.device_name r4 in
    let r2 : Text = put m.device_id r3 in
    rw
      (
        get_int-put_int m.timestamp r2,
        take-append m.device_id r3,
        drop-append m.device_id r3,
        take-append m.device_name r4,
        drop-append m.device_name r4,
        take-append m.operating_system r5,
        drop-append m.operating_system r5,
        take-append m.kdf_nonce [],
        only_scheme m.backup_scheme,
      )
      refl

names-without : (name : Text) (files : Files) → Elem name (names (without name files)) → ⊥
names-without name [] h = h
names-without name ((n, c) ∷ files) h = elim (Bool-cases (text_eq n name)) [
  | inl same ↦ names-without name files (rw same at h)
  | inr differ ↦ elim (rw differ at h) [
    | inl p ↦ cc (p, differ, text_eq_refl name)
    | inr m ↦ names-without name files m
  ]
]

names-others :
    (name other : Text) (files : Files)
    → other ≢ name
    → Elem other (names (without name files)) ↔ Elem other (names files)
names-others name other [] differ = (λ h. h, λ h. h)
names-others name other ((n, c) ∷ files) differ =
    let (to, from) = names-others name other files differ in
    elim (Bool-cases (text_eq n name)) [
      | inl same ↦ rw same (
        λ h. inr (to h),
        λ h. elim h [ inl p ↦ absurd (differ (p ∙ text_eq→≡ n name same)) | inr m ↦ from m ],
      )
      | inr other' ↦ rw other' (
        λ h. elim h [ inl p ↦ inl p | inr m ↦ inr (to m) ],
        λ h. elim h [ inl p ↦ inl p | inr m ↦ inr (from m) ],
      )
    ]

end :
    (s t : Files) (name : Text) → toy_storage.delete_backup name s ≡ (true, t) → without name s ≡ t
end s t name h = ap (λ p. p.1) h

ok-injective : {E A : Type 0} {a b : A} → ◌≡◌ {A = Result E A} (ok a) (ok b) → a ≡ b
ok-injective h = cc

find-first :
    (name contents : Text) (files : Files) → find name ((name, contents) ∷ files) ≡ some contents
find-first name contents files = rw (text_eq_refl name) refl

find-without :
    (name other : Text) (files : Files)
    → other ≢ name
    → find other (without name files) ≡ find other files
find-without name other [] differ = refl
find-without name other ((n, c) ∷ files) differ =
    let rest : find other (without name files) ≡ find other files =
      find-without name other files differ in
    elim (Bool-cases (text_eq n name)) [
      | inl same ↦ elim (Bool-cases (text_eq n other)) [
        | inl hit ↦ absurd (differ (sym (text_eq→≡ n other hit) ∙ text_eq→≡ n name same))
        | inr miss ↦ rw (same, miss) rest
      ]
      | inr keep ↦ ground (arith, keep, rest)
    ]

pub toy_storage-IsStorage : IsStorage toy_storage
toy_storage-IsStorage = record {
  gone = λ name s t h. subst (λ u. Elem name (names u) → ⊥) (end s t name h) (names-without name s);
  others = λ name other s t h differ.
      subst (λ u. Elem other (names u) ↔ Elem other (names s)) (end s t name h)
        (names-others name other s differ);
  failed = λ name s t h. absurd (true≢false (ap (λ p. p.0) h));
}

pub toy_crypto-IsAead : IsAead toy_crypto
toy_crypto-IsAead = record {
  decrypt-encrypt = λ key nonce msg aad cipher h.
      subst (λ c. toy_decrypt key nonce c aad ≡ ok msg) (ok-injective h)
        (toy_decrypt-tag key nonce msg aad);
}

length-version_bytes : (d : Db (Unit {0})) → 1 ≤ length (version_bytes d)
length-version_bytes d = ground arith

pub toy-IsArchiving : IsArchiving toy
toy-IsArchiving = record {
  unzip_backup-zip = λ backup meta archive h.
      subst (λ a. toy.unzip_backup a ≡ ok backup) (ok-injective h)
        (ap (λ p. ok p.0) (get-put backup meta));
  unzip_metadata-zip = λ backup meta archive h.
      subst (λ a. toy.unzip_metadata a ≡ ok meta) (ok-injective h)
        (ap (λ p. ok p.1) (get-put backup meta));
  metadata_from_slice-canonical_json =
      λ meta json h. subst (λ j. read_json j ≡ ok meta) (ok-injective h) (read_json-toy_json meta);
  copy_from-copy_to = λ name contents s t h.
      subst (λ u. find name u ≡ some contents) (ap (λ p. p.1) h) (find-first name contents s);
  copy_from-delete_backup = find-without;
  length-random_bytes = λ n o o' bytes h.
      subst (λ b. length b ≡ n) (ok-injective (ap (λ p. p.0) h)) (length-repeat n 5);
  length-aead_encrypt = λ key nonce msg aad cipher h.
      subst (λ c. length c ≡ length msg + 16) (ok-injective h)
        (length-append msg (tag_of key) ∙ ap (λ k. length msg + k) (length-tag_of key));
  length-db_to_bytes = length-version_bytes;
}

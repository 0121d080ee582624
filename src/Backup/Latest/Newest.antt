-- ===== src/Backup/Latest/Newest.antt =====
-- What it means that a backup is not newer than another one, apart from the comparison in the code.
use Prim.Native.Nat.{Ordering, compare}
use sealvault.Prelude.{◌≡◌, ◌<◌, ◌⊎◌, inl, inr, Text, [], ◌∷◌, arith}
use sealvault.Prelude.Int.{ℤ, pos, negsuc}
use sealvault.Backup.FileName.{MetadataFromFileName}
use sealvault.Backup.Latest.{cmp_int, cmp_text, Candidate, cmp_candidates}
use sealvault.Backup.Latest.Order.{Le, Ordering-cases, cmp_text-eq}

-- The order of the integers; `negsuc n` is -(n + 1).
abbrev pub IsLess : ℤ → ℤ → Type 0
IsLess (pos a) (pos b) = a < b
IsLess (pos a) (negsuc b) = ⊥
IsLess (negsuc a) (pos b) = Unit
IsLess (negsuc a) (negsuc b) = b < a

-- The order of a dictionary
abbrev pub IsBefore : Text → Text → Type 0
IsBefore [] [] = ⊥
IsBefore [] (_ ∷ _) = Unit
IsBefore (_ ∷ _) [] = ⊥
IsBefore (a ∷ s) (b ∷ t) = (a < b) ⊎ ((a ≡ b) × IsBefore s t)

-- `a` was made earlier than `b`, or at the same time with a lower version, or with the same version
-- too by a device whose id is not after the other one.
abbrev pub NotNewer : MetadataFromFileName → MetadataFromFileName → Type 0
NotNewer a b =
    IsLess a.timestamp b.timestamp
    ⊎ ((a.timestamp ≡ b.timestamp)
        × ((a.backup_version < b.backup_version)
            ⊎ ((a.backup_version ≡ b.backup_version)
                × (IsBefore a.device_id b.device_id ⊎ (a.device_id ≡ b.device_id)))))

cmp_int-IsLess : (a b : ℤ) → cmp_int a b ≡ Ordering.lt → IsLess a b
cmp_int-IsLess (pos a) (pos b) h = ground arith
cmp_int-IsLess (pos a) (negsuc b) h = cc
cmp_int-IsLess (negsuc a) (pos b) h = tt
cmp_int-IsLess (negsuc a) (negsuc b) h = ground arith

cmp_int-eq : (a b : ℤ) → cmp_int a b ≡ Ordering.eq → a ≡ b
cmp_int-eq (pos a) (pos b) h = ground arith
cmp_int-eq (pos a) (negsuc b) h = cc
cmp_int-eq (negsuc a) (pos b) h = cc
cmp_int-eq (negsuc a) (negsuc b) h = ground arith

cmp_text-IsBefore : (s t : Text) → cmp_text s t ≡ Ordering.lt → IsBefore s t
cmp_text-IsBefore [] [] h = cc
cmp_text-IsBefore [] (_ ∷ _) h = tt
cmp_text-IsBefore (_ ∷ _) [] h = cc
cmp_text-IsBefore (a ∷ s) (b ∷ t) h = elim (Ordering-cases (compare a b)) [
  | inl gt ↦ absurd (ground arith)
  | inr (inl lt) ↦ inl (ground arith)
  | inr (inr eq) ↦ inr (ground arith, cmp_text-IsBefore s t (ground arith))
]

pub Le-NotNewer : (c d : Candidate) → Le c d → NotNewer c.0 d.0
unfolding cmp_candidates
Le-NotNewer (a, x) (b, y) h = elim (Ordering-cases (cmp_int a.timestamp b.timestamp)) [
  | inl gt ↦ absurd (ground arith)
  | inr (inl lt) ↦ inl (cmp_int-IsLess a.timestamp b.timestamp lt)
  | inr (inr eq) ↦ inr (
    cmp_int-eq a.timestamp b.timestamp eq,
    elim (Ordering-cases (compare a.backup_version b.backup_version)) [
      | inl gt ↦ absurd (ground arith)
      | inr (inl lt) ↦ inl (ground arith)
      | inr (inr same) ↦ inr (
        ground arith,
        elim (Ordering-cases (cmp_text a.device_id b.device_id)) [
          | inl gt ↦ absurd (ground arith)
          | inr (inl lt) ↦ inl (cmp_text-IsBefore a.device_id b.device_id lt)
          | inr (inr one) ↦ inr (cmp_text-eq a.device_id b.device_id one)
        ],
      )
    ],
  )
]

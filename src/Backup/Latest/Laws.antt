-- ===== src/Backup/Latest/Laws.antt =====
-- Which backup is offered for a restore.
use sealvault.Prelude.{
  ℕ, Text, ◌≡◌, refl, Bool, true, some, List, [], ◌∷◌, Elem, All, text_eq, text_eq→≡, text_eq_refl,
  inl, inr, subst, Bool-cases, Option-cases, ap,
}
use sealvault.Prelude.Result.{ok, Result-cases}
use sealvault.Backup.FileName
use sealvault.Backup.FileName.{MetadataFromFileName}
use sealvault.Backup.Latest.{Candidate, sort_candidates, last_candidate, candidates, latest}
use sealvault.Backup.Latest.Newest.{NotNewer, Le-NotNewer}
use sealvault.Backup.Latest.Order.{
  Le, sort-IsSorted, All-sort, Elem-sort, last_maximal, All-last, last-none,
}

module _ (nd : ℕ → Bool) (os : Text) where
  -- The name is in the list, and it is the name of a backup that was made on this system.
  pub record IsCandidate (names : List Text) (c : Candidate) : Type 0 where
    pub listed : Elem c.1 names
    pub parses : FileName.from_str nd c.1 ≡ ok c.0
    pub same_os : c.0.os ≡ os

  IsCandidate-cons :
      (name : Text) (names : List Text) (cs : List Candidate)
      → All (IsCandidate names) cs
      → All (IsCandidate (name ∷ names)) cs
  IsCandidate-cons name names [] v = tt
  IsCandidate-cons name names (c ∷ cs) v = (
    record { listed = inr v.0.listed; parses = v.0.parses; same_os = v.0.same_os },
    IsCandidate-cons name names cs v.1,
  )

  candidates-IsCandidate : (names : List Text) → All (IsCandidate names) (candidates nd os names)
  unfolding candidates
  candidates-IsCandidate [] = tt
  candidates-IsCandidate (name ∷ names) =
      let later = IsCandidate-cons name names _ (candidates-IsCandidate names) in
      elim (Result-cases (FileName.from_str nd name)) [
        | inl (e, p) ↦ rw (p, candidates) later
        | inr (m, p) ↦ elim (Bool-cases (text_eq m.os os)) [
          | inl same ↦
              rw (p, same, candidates)
                (record { listed = inl refl; parses = p; same_os = text_eq→≡ m.os os same }, later)
          | inr other ↦ rw (p, other, candidates) later
        ]
      ]

  abbrev pair : MetadataFromFileName → Text → Candidate
  pair m n = (m, n)

  Elem-candidates-cons :
      (name : Text) (names : List Text) (c : Candidate)
      → Elem c (candidates nd os names)
      → Elem c (candidates nd os (name ∷ names))
  unfolding candidates
  Elem-candidates-cons name names c i = elim (Result-cases (FileName.from_str nd name)) [
    | inl (e, p) ↦ rw (p, candidates) i
    | inr (m, p) ↦ elim (Bool-cases (text_eq m.os os)) [
      | inl same ↦ rw (p, same, candidates) (inr i)
      | inr other ↦ rw (p, other, candidates) i
    ]
  ]

  Elem-candidates :
      (names : List Text) (c : Candidate) → IsCandidate names c → Elem c (candidates nd os names)
  unfolding candidates
  Elem-candidates [] c v = v.listed
  Elem-candidates (name ∷ names) (m, other) v = elim v.listed [
    | inl here ↦
        let parsed : FileName.from_str nd name ≡ ok m =
          subst (λ n. FileName.from_str nd n ≡ ok m) here v.parses in
        let same : text_eq m.os os ≡ true =
          subst (λ o. text_eq m.os o ≡ true) v.same_os (text_eq_refl m.os) in
        rw (parsed, same, candidates) (inl (ap (λ (n : Text). pair m n) here))
    | inr later ↦
        Elem-candidates-cons name names (m, other)
          (Elem-candidates names (m, other)
            (record { listed = later; parses = v.parses; same_os = v.same_os }))
  ]

  -- The backup that is offered was listed, parses, and was made on this system.
  pub latest-IsCandidate :
      (names : List Text) (m : Candidate) → latest nd os names ≡ some m → IsCandidate names m
  unfolding latest
  latest-IsCandidate names m h =
      let found = candidates nd os names in
      All-last _ (sort_candidates found) m (All-sort _ found (candidates-IsCandidate names)) h

  latest-Le :
      (names : List Text) (c : Candidate)
      → IsCandidate names c
      → (m : Candidate) × (latest nd os names ≡ some m) × Le c m
  unfolding latest
  latest-Le names c v =
      let found = candidates nd os names in
      let sorted = sort_candidates found in
      let listed : Elem c sorted = Elem-sort c found (Elem-candidates names c v) in
      elim (Option-cases (last_candidate sorted)) [
        | inl nothing ↦ absurd (subst (Elem c) (last-none sorted nothing) listed)
        | inr (m, e) ↦ (m, e, last_maximal sorted m c (sort-IsSorted found) e listed)
      ]

  -- When a listed file is a backup of this system, a backup is offered, and that one is not newer
  -- than the backup that is offered: it was made earlier, or at the same time with a lower version,
  -- or with the same version too by a device whose id is not after the other one.
  pub latest-NotNewer :
      (names : List Text) (c : Candidate)
      → IsCandidate names c
      → (m : Candidate) × (latest nd os names ≡ some m) × NotNewer c.0 m.0
  latest-NotNewer names c v = let (m, e, le) = latest-Le names c v in (m, e, Le-NotNewer c m le)

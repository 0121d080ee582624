-- ===== src/Backup/Latest/Order.antt =====
-- The order on backups, and the choice of the latest.
use Prim.Native.Nat.{Ordering}
use sealvault.Prelude.{
  Text, ◌≡◌, ◌≢◌, refl, none, some, List, [], ◌∷◌, Elem, All, arith, ◌⊎◌, inl, inr, subst, sym,
}
use sealvault.Backup.Latest.{
  cmp_text, Candidate, cmp_candidates, insert_sorted, sort_candidates, last_candidate,
}

pub Ordering-cases : (o : Ordering) → (o ≡ Ordering.gt) ⊎ (o ≡ Ordering.lt) ⊎ (o ≡ Ordering.eq)
Ordering-cases Ordering.gt = inl refl
Ordering-cases Ordering.lt = inr (inl refl)
Ordering-cases Ordering.eq = inr (inr refl)

-- `a` does not come after `b`.
abbrev pub Le : Candidate → Candidate → Type 0
Le a b = cmp_candidates a b ≢ Ordering.gt

pub cmp_text-eq : (s t : Text) → cmp_text s t ≡ Ordering.eq → s ≡ t
cmp_text-eq [] [] h = refl
cmp_text-eq [] (_ ∷ _) h = cc
cmp_text-eq (_ ∷ _) [] h = cc
cmp_text-eq (a ∷ s) (b ∷ t) h = ground (arith, cmp_text-eq s t)

cmp_text_refl : (s : Text) → cmp_text s s ≡ Ordering.eq
cmp_text_refl [] = refl
cmp_text_refl (a ∷ s) = ground (arith, cmp_text_refl s)

cmp_text_flip : (s t : Text) → cmp_text s t ≡ Ordering.gt → cmp_text t s ≡ Ordering.lt
cmp_text_flip [] [] h = cc
cmp_text_flip [] (_ ∷ _) h = cc
cmp_text_flip (_ ∷ _) [] h = refl
cmp_text_flip (a ∷ s) (b ∷ t) h = ground (arith, cmp_text_flip s t)

cmp_text_trans :
    (s t u : Text)
    → cmp_text s t ≢ Ordering.gt
    → cmp_text t u ≢ Ordering.gt
    → cmp_text s u ≢ Ordering.gt
cmp_text_trans [] [] u h k = k
cmp_text_trans [] (_ ∷ _) [] h k = ground arith
cmp_text_trans [] (_ ∷ _) (_ ∷ _) h k = ground arith
cmp_text_trans (_ ∷ _) [] u h k = ground arith
cmp_text_trans (_ ∷ _) (_ ∷ _) [] h k = ground arith
cmp_text_trans (a ∷ s) (b ∷ t) (c ∷ u) h k = ground (arith, cmp_text_trans s t u)

Le_refl : (a : Candidate) → Le a a
unfolding cmp_candidates
Le_refl (a, x) = ground (arith, cmp_text_refl a.device_id)

Le_flip : (a b : Candidate) → cmp_candidates a b ≡ Ordering.gt → Le b a
unfolding cmp_candidates
Le_flip (a, x) (b, y) h = ground (arith, cmp_text_flip a.device_id b.device_id)

Le_trans : (a b c : Candidate) → Le a b → Le b c → Le a c
unfolding cmp_candidates
Le_trans (a, x) (b, y) (c, z) h k =
    ground (arith, cmp_text_trans a.device_id b.device_id c.device_id)

abbrev pub IsSorted : List Candidate → Type 0
IsSorted [] = Unit
IsSorted (x ∷ xs) = All (Le x) xs × IsSorted xs

All-Le_trans : (x y : Candidate) (ys : List Candidate) → Le x y → All (Le y) ys → All (Le x) ys
All-Le_trans x y [] h v = tt
All-Le_trans x y (z ∷ ys) h v = (Le_trans x y z h v.0, All-Le_trans x y ys h v.1)

All-insert_sorted :
    (P : Candidate → Type 0) (x : Candidate) (ys : List Candidate)
    → P x
    → All P ys
    → All P (insert_sorted x ys)
unfolding insert_sorted
All-insert_sorted P x [] h v = (h, tt)
All-insert_sorted P x (y ∷ ys) h v = elim (Ordering-cases (cmp_candidates x y)) [
  | inl e ↦ rw (e, insert_sorted) (v.0, All-insert_sorted P x ys h v.1)
  | inr (inl e) ↦ rw (e, insert_sorted) (h, v)
  | inr (inr e) ↦ rw (e, insert_sorted) (h, v)
]

insert_sorted-IsSorted :
    (x : Candidate) (ys : List Candidate) → IsSorted ys → IsSorted (insert_sorted x ys)
unfolding insert_sorted
insert_sorted-IsSorted x [] v = (tt, tt)
insert_sorted-IsSorted x (y ∷ ys) v = elim (Ordering-cases (cmp_candidates x y)) [
  | inl e ↦
      rw (e, insert_sorted)
        (All-insert_sorted (Le y) x ys (Le_flip x y e) v.0, insert_sorted-IsSorted x ys v.1)
  | inr (inl e) ↦
      let le : Le x y = λ g. absurd (cc (e, g)) in
      rw (e, insert_sorted) ((le, All-Le_trans x y ys le v.0), v)
  | inr (inr e) ↦
      let le : Le x y = λ g. absurd (cc (e, g)) in
      rw (e, insert_sorted) ((le, All-Le_trans x y ys le v.0), v)
]

pub sort-IsSorted : (xs : List Candidate) → IsSorted (sort_candidates xs)
unfolding sort_candidates
sort-IsSorted [] = tt
sort-IsSorted (x ∷ xs) = insert_sorted-IsSorted x (sort_candidates xs) (sort-IsSorted xs)

pub All-sort :
    (P : Candidate → Type 0) (xs : List Candidate) → All P xs → All P (sort_candidates xs)
unfolding sort_candidates
All-sort P [] v = tt
All-sort P (x ∷ xs) v = All-insert_sorted P x (sort_candidates xs) v.0 (All-sort P xs v.1)

Elem-insert_sorted :
    (a x : Candidate) (ys : List Candidate) → Elem a (x ∷ ys) → Elem a (insert_sorted x ys)
unfolding insert_sorted
Elem-insert_sorted a x [] m = m
Elem-insert_sorted a x (y ∷ ys) m = elim (Ordering-cases (cmp_candidates x y)) [
  | inl e ↦
      rw (e, insert_sorted)
        (elim m [
          | inl p ↦ inr (Elem-insert_sorted a x ys (inl p))
          | inr (inl p) ↦ inl p
          | inr (inr p) ↦ inr (Elem-insert_sorted a x ys (inr p))
        ])
  | inr (inl e) ↦ rw (e, insert_sorted) m
  | inr (inr e) ↦ rw (e, insert_sorted) m
]

pub Elem-sort : (a : Candidate) (xs : List Candidate) → Elem a xs → Elem a (sort_candidates xs)
unfolding sort_candidates
Elem-sort a [] m = m
Elem-sort a (x ∷ xs) (inl p) = Elem-insert_sorted a x (sort_candidates xs) (inl p)
Elem-sort a (x ∷ xs) (inr m) = Elem-insert_sorted a x (sort_candidates xs) (inr (Elem-sort a xs m))

-- The last entry of a sorted list comes after all others.
pub last_maximal :
    (xs : List Candidate) (m a : Candidate)
    → IsSorted xs
    → last_candidate xs ≡ some m
    → Elem a xs
    → Le a m
unfolding last_candidate
last_maximal [] m a v h i = absurd i
last_maximal (x ∷ []) m a v h (inl p) =
    let e : x ≡ m = ground arith in subst (λ c. Le a c) e (subst (λ c. Le c x) (sym p) (Le_refl x))
last_maximal (x ∷ []) m a v h (inr i) = absurd i
last_maximal (x ∷ (y ∷ ys)) m a v h (inl p) =
    subst (λ c. Le c m) (sym p) (Le_trans x y m v.0.0 (last_maximal (y ∷ ys) m y v.1 h (inl refl)))
last_maximal (x ∷ (y ∷ ys)) m a v h (inr i) = last_maximal (y ∷ ys) m a v.1 h i

pub All-last :
    (P : Candidate → Type 0) (xs : List Candidate) (m : Candidate)
    → All P xs
    → last_candidate xs ≡ some m
    → P m
unfolding last_candidate
All-last P [] m v h = cc
All-last P (x ∷ []) m v h = subst P (ground arith) v.0
All-last P (x ∷ (y ∷ ys)) m v h = All-last P (y ∷ ys) m v.1 h

pub last-none : (xs : List Candidate) → last_candidate xs ≡ none → xs ≡ []
unfolding last_candidate
last-none [] h = refl
last-none (x ∷ []) h = cc
last-none (x ∷ (y ∷ ys)) h = absurd (cc (last-none (y ∷ ys) h))

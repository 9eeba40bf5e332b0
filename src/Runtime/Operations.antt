-- ===== src/Runtime/Operations.antt =====
-- crates/omacam-daemon/src/service_runtime.rs: the queue of operations, by the list of its ids.
use mathlib.Core.Path.{subst}
use omalens.Prelude.{
  suc, ◌≤◌, ◌<◌, ◌≡◌, refl, ap, ◌∙◌, Bool, true, false, Option, none, some, List, [], ◌∷◌, ◌++◌,
  Bytes, bytes_eq, bytes_eq_iff, length, All, arith, ◌⊎◌, inl, inr, ltb, Bool-cases,
}
use omalens.Camera.{find}
use omalens.Runtime.{OperationSnapshot, has_id, trim, replace, cancel, is_pending, max_operations}

abbrev pub ids : List OperationSnapshot → List Bytes
ids [] = []
ids (o ∷ os) = o.id ∷ ids os

abbrev pub IsAbsent : Bytes → List Bytes → Type 0
IsAbsent id [] = Unit {0}
IsAbsent id (x ∷ xs) = (bytes_eq x id ≡ false) × IsAbsent id xs

abbrev pub AreDistinct : List Bytes → Type 0
AreDistinct [] = Unit {0}
AreDistinct (x ∷ xs) = IsAbsent x xs × AreDistinct xs

-- 1 to 64 bytes.
abbrev pub IsOperationId : Bytes → Type 0
IsOperationId id = (0 < length id) × (length id ≤ 64)

bytes_eq_comm : (xs ys : Bytes) → bytes_eq xs ys ≡ bytes_eq ys xs
unfolding bytes_eq
bytes_eq_comm [] [] = refl
bytes_eq_comm [] (y ∷ ys) = refl
bytes_eq_comm (x ∷ xs) [] = refl
bytes_eq_comm (x ∷ xs) (y ∷ ys) = ground (arith, bytes_eq_comm xs ys)

find-IsAbsent :
    (os : List OperationSnapshot) (id : Bytes) → find os (has_id id) ≡ none → IsAbsent id (ids os)
find-IsAbsent [] id h = tt
find-IsAbsent (o ∷ os) id h = ground (arith, find-IsAbsent os id)

IsAbsent-find :
    (os : List OperationSnapshot) (id : Bytes) → IsAbsent id (ids os) → find os (has_id id) ≡ none
IsAbsent-find [] id h = refl
IsAbsent-find (o ∷ os) id h = ground (arith, IsAbsent-find os id)

ids-append :
    (os : List OperationSnapshot) (o : OperationSnapshot) → ids (os ++ o ∷ []) ≡ ids os ++ o.id ∷ []
ids-append [] o = refl
ids-append (x ∷ os) o = ap (◌∷◌ x.id) (ids-append os o)

IsAbsent-append :
    (x id : Bytes) (xs : List Bytes)
    → IsAbsent x xs
    → bytes_eq id x ≡ false
    → IsAbsent x (xs ++ id ∷ [])
IsAbsent-append x id [] h k = (k, tt)
IsAbsent-append x id (y ∷ xs) h k = (h.0, IsAbsent-append x id xs h.1 k)

AreDistinct-append :
    (id : Bytes) (xs : List Bytes) → IsAbsent id xs → AreDistinct xs → AreDistinct (xs ++ id ∷ [])
AreDistinct-append id [] h d = (tt, tt)
AreDistinct-append id (x ∷ xs) h d =
    (IsAbsent-append x id xs d.0 (bytes_eq_comm id x ∙ h.0), AreDistinct-append id xs h.1 d.1)

All-append :
    (P : Bytes → Type 0) (xs : List Bytes) (x : Bytes) → All P xs → P x → All P (xs ++ x ∷ [])
All-append P [] x h k = (k, tt)
All-append P (y ∷ xs) x h k = (h.0, All-append P xs x h.1 k)

-- The ids of a queue.
pub record AreIds (xs : List Bytes) : Type 0 where
  pub few : length xs ≤ 32
  pub distinct : AreDistinct xs
  pub valid : All IsOperationId xs

length-ids : (os : List OperationSnapshot) → length (ids os) ≡ length os
length-ids [] = refl
length-ids (o ∷ os) = ap suc (length-ids os)

-- `trim` leaves an end of the queue that is short enough.
trim-AreIds :
    (os : List OperationSnapshot)
    → AreDistinct (ids os)
    → All IsOperationId (ids os)
    → AreIds (ids (trim os))
unfolding trim
trim-AreIds [] d v = record { few = omega arith; distinct = tt; valid = tt }
trim-AreIds (o ∷ os) d v = go (ltb max_operations (length (o ∷ os))) refl (trim-AreIds os d.1 v.1)
  where
    go :
        (long : Bool)
        → ltb max_operations (length (o ∷ os)) ≡ long
        → AreIds (ids (trim os))
        → AreIds (ids (elim long [ true ↦ trim os | false ↦ o ∷ os ]))
    go true e rest = rest
    go false e rest = record { few = ground (arith, length-ids os); distinct = d; valid = v }

pub append-AreIds :
    (os : List OperationSnapshot) (o : OperationSnapshot)
    → AreIds (ids os)
    → find os (has_id o.id) ≡ none
    → IsOperationId o.id
    → AreIds (ids (trim (os ++ o ∷ [])))
append-AreIds os o h absent v =
    trim-AreIds (os ++ o ∷ [])
      (rw (ids-append os o)
        (AreDistinct-append o.id (ids os) (find-IsAbsent os o.id absent) h.distinct))
      (rw (ids-append os o) (All-append IsOperationId (ids os) o.id h.valid v))

pub ids-cancel : (os : List OperationSnapshot) → ids (cancel os) ≡ ids os
ids-cancel [] = refl
ids-cancel (o ∷ os) = ground (arith, ids-cancel os)

pub ids-replace :
    (id : Bytes) (new : OperationSnapshot) (os : List OperationSnapshot)
    → new.id ≡ id
    → ids (replace id new os) ≡ ids os
ids-replace id new [] h = refl
ids-replace id new (o ∷ os) h = ground (arith, ids-replace id new os, bytes_eq_iff o.id id)

pub find-id :
    (os : List OperationSnapshot) (id : Bytes) (o : OperationSnapshot)
    → find os (has_id id) ≡ some o
    → o.id ≡ id
find-id [] id o h = cc
find-id (x ∷ os) id o h = ground (arith, find-id os id o, bytes_eq_iff x.id id)

-- An operation that has ended is the same or is gone.
abbrev pub Kept : OperationSnapshot → Option OperationSnapshot → Type 0
Kept o after = (after ≡ some o) ⊎ (after ≡ none)

pub find-cancel :
    (os : List OperationSnapshot) (id : Bytes) (o : OperationSnapshot)
    → find os (has_id id) ≡ some o
    → is_pending o.state ≡ false
    → find (cancel os) (has_id id) ≡ some o
find-cancel [] id o h k = cc
find-cancel (x ∷ os) id o h k = ground (arith, find-cancel os id o)

pub find-replace :
    (key : Bytes) (new old : OperationSnapshot) (os : List OperationSnapshot) (id : Bytes)
    (o : OperationSnapshot)
    → new.id ≡ key
    → find os (has_id key) ≡ some old
    → is_pending old.state ≡ true
    → find os (has_id id) ≡ some o
    → is_pending o.state ≡ false
    → find (replace key new os) (has_id id) ≡ some o
find-replace key new old [] id o e p q h k = cc
find-replace key new old (x ∷ os) id o e p q h k = ground (
  arith,
  find-replace key new old os id o,
  bytes_eq_iff x.id key,
  bytes_eq_iff x.id id,
  bytes_eq_iff key id,
)

find-append :
    (os : List OperationSnapshot) (new o : OperationSnapshot) (id : Bytes)
    → find os (has_id id) ≡ some o
    → find (os ++ new ∷ []) (has_id id) ≡ some o
find-append [] new o id h = cc
find-append (x ∷ os) new o id h = ground (arith, find-append os new o id)

IsAbsent-trim :
    (os : List OperationSnapshot) (id : Bytes) → IsAbsent id (ids os) → IsAbsent id (ids (trim os))
unfolding trim
IsAbsent-trim [] id h = tt
IsAbsent-trim (x ∷ os) id h =
    elim (ltb max_operations (length (x ∷ os)))
      as (λ long. IsAbsent id (ids (elim long [ true ↦ trim os | false ↦ x ∷ os ]))) [
        | true ↦ IsAbsent-trim os id h.1
        | false ↦ h
      ]

-- An id found first is not found again.
find-head :
    (x : OperationSnapshot) (os : List OperationSnapshot) (id : Bytes) (o : OperationSnapshot)
    → IsAbsent x.id (ids os)
    → find (x ∷ os) (has_id id) ≡ some o
    → (find os (has_id id) ≡ some o) ⊎ IsAbsent id (ids os)
find-head x os id o d h = elim (Bool-cases (bytes_eq x.id id)) [
  | inl same ↦ inr (subst (λ (k : Bytes). IsAbsent k (ids os)) ((bytes_eq_iff x.id id).0 same) d)
  | inr other ↦ inl (ground (arith, other))
]

find-trim :
    (os : List OperationSnapshot) (id : Bytes) (o : OperationSnapshot)
    → AreDistinct (ids os)
    → find os (has_id id) ≡ some o
    → Kept o (find (trim os) (has_id id))
unfolding trim
find-trim [] id o d h = cc
find-trim (x ∷ os) id o d h =
    elim (ltb max_operations (length (x ∷ os)))
      as (λ long. Kept o (find (elim long [ true ↦ trim os | false ↦ x ∷ os ]) (has_id id))) [
        | true ↦ dropped (find-head x os id o d.0 h) (find-trim os id o d.1)
        | false ↦ inl h
      ]
  where
    dropped :
        (find os (has_id id) ≡ some o) ⊎ IsAbsent id (ids os)
        → (find os (has_id id) ≡ some o → Kept o (find (trim os) (has_id id)))
        → Kept o (find (trim os) (has_id id))
    dropped (inl later) ih = ih later
    dropped (inr absent) ih = inr (IsAbsent-find (trim os) id (IsAbsent-trim os id absent))

pub find-pushed :
    (os : List OperationSnapshot) (new o : OperationSnapshot) (id : Bytes)
    → AreIds (ids os)
    → find os (has_id new.id) ≡ none
    → find os (has_id id) ≡ some o
    → Kept o (find (trim (os ++ new ∷ [])) (has_id id))
find-pushed os new o id h absent found =
    find-trim (os ++ new ∷ []) id o
      (rw (ids-append os new)
        (AreDistinct-append new.id (ids os) (find-IsAbsent os new.id absent) h.distinct))
      (find-append os new o id found)

-- ===== src/Provider/Entries.antt =====
-- The map of passkey challenges: what a deletion and the expiry keep.
use arkade_2fa_vault_poc.Prelude.{
  ℕ, suc, ◌≤◌, ◌<◌, ◌≡◌, refl, true, false, not, Option, none, some, List, [], ◌∷◌, length, ltb,
  if_cases, Bool-cases, inl, inr, arith,
}
use arkade_2fa_vault_poc.Prelude.Bytes.{bytes_eq, bytes_eq_iff}
use arkade_2fa_vault_poc.Provider.{Pending, Table}
use arkade_2fa_vault_poc.Provider.Challenges.{find, delete, expire}

-- 1 where the id is in the table.
abbrev pub count_of : Option Pending → ℕ
count_of none = 0
count_of (some p) = 1

pub count_of-le : (o : Option Pending) → count_of o ≤ 1
count_of-le none = omega arith
count_of-le (some p) = omega arith

pub find-delete : (id : List ℕ) (table : Table) → find id (delete id table) ≡ none
unfolding find delete
find-delete id [] = refl
find-delete id ((key, p) ∷ table) = elim (Bool-cases (bytes_eq key id)) [
  | inl same ↦ rw same (find-delete id table)
  | inr other ↦ rw (other, other) (find-delete id table)
]

-- A deletion keeps the other ids, and adds none.
pub find-delete_other :
    (id other : List ℕ) (table : Table)
    → bytes_eq other id ≡ false
    → find id (delete other table) ≡ find id table
unfolding find delete
find-delete_other id other [] h = refl
find-delete_other id other ((key, p) ∷ table) h = elim (Bool-cases (bytes_eq key other)) [
  | inl same ↦
      let equal = (bytes_eq_iff key other).0 same in
      rw (same, equal, h) (find-delete_other id other table h)
  | inr differs ↦ rw (differs, find-delete_other id other table h) refl
]

pub count_of-delete :
    (id other : List ℕ) (table : Table)
    → count_of (find id (delete other table)) ≤ count_of (find id table)
count_of-delete id other table = elim (Bool-cases (bytes_eq other id)) [
  | inl same ↦
      let equal = (bytes_eq_iff other id).0 same in rw (equal, find-delete id table) (omega arith)
  | inr differs ↦ rw (find-delete_other id other table differs) (omega arith)
]

pub find-expire :
    (now : ℕ) (id : List ℕ) (table : Table) (p : Pending)
    → find id table ≡ some p
    → now < p.expires_at
    → find id (expire now table) ≡ some p
unfolding find expire
find-expire now id [] p h fresh = cc
find-expire now id ((key, q) ∷ table) p h fresh = elim (Bool-cases (bytes_eq key id)) [
  | inl same ↦
      let found : some q ≡ some p = rw same at h in
      let equal : q ≡ p = cc found in
      let kept : ltb now q.expires_at ≡ true = rw equal (ground (arith, fresh)) in
      rw (kept, same) found
  | inr other ↦
      let below : find id table ≡ some p = rw other at h in
      if_cases (λ (t : Table). find id t ≡ some p) (not (ltb now q.expires_at))
        (λ _. find-expire now id table p below fresh)
        (λ _. rw other (find-expire now id table p below fresh))
]

pub count_of-expire :
    (now : ℕ) (id : List ℕ) (table : Table)
    → count_of (find id (expire now table)) ≤ count_of (find id table)
unfolding find expire
count_of-expire now id [] = omega arith
count_of-expire now id ((key, q) ∷ table) =
    let rest = count_of-expire now id table in
    elim (Bool-cases (bytes_eq key id)) [
      | inl same ↦ rw same (count_of-le (find id (expire now ((key, q) ∷ table))))
      | inr other ↦
          let below =
            if_cases (λ (t : Table). count_of (find id t) ≤ count_of (find id table))
              (not (ltb now q.expires_at)) (λ _. rest) (λ _. rw other rest) in
          rw other below
    ]

pub length-delete : (id : List ℕ) (table : Table) → length (delete id table) ≤ length table
unfolding delete
length-delete id [] = omega arith
length-delete id ((key, p) ∷ table) =
    let rest = length-delete id table in
    if_cases (λ (t : Table). length t ≤ suc (length table)) (bytes_eq key id)
      (λ _. omega (arith, rest)) (λ _. omega (arith, rest))

pub length-expire : (now : ℕ) (table : Table) → length (expire now table) ≤ length table
unfolding expire
length-expire now [] = omega arith
length-expire now ((key, p) ∷ table) =
    let rest = length-expire now table in
    if_cases (λ (t : Table). length t ≤ suc (length table)) (not (ltb now p.expires_at))
      (λ _. omega (arith, rest)) (λ _. omega (arith, rest))

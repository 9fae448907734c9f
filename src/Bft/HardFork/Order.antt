-- ===== src/Bft/HardFork/Order.antt =====
-- The order of keys by their bytes, and the sort by it.
use mathlib.Core.List.{Perm}
use mathlib.Core.List.Perm
use auzum_zcash.Base.{
  ◌≡◌, ◌≢◌, refl, arith, true, false, List, [], ◌∷◌, All, All-imp, Bool-cases, inl, inr,
}
use auzum_zcash.Base.Io.{Bytes}
use auzum_zcash.Bft.Keys.{PubKeyId}
use auzum_zcash.Bft.HardFork.{leb_bytes, insert, sort}

pub leb_bytes_total : (xs ys : Bytes) → leb_bytes xs ys ≡ false → leb_bytes ys xs ≡ true
unfolding leb_bytes
leb_bytes_total [] ys h = cc
leb_bytes_total (x ∷ xs) [] h = refl
leb_bytes_total (x ∷ xs) (y ∷ ys) h = ground (arith, leb_bytes_total xs ys)

pub leb_bytes_trans :
    (xs ys zs : Bytes) → leb_bytes xs ys ≡ true → leb_bytes ys zs ≡ true → leb_bytes xs zs ≡ true
unfolding leb_bytes
leb_bytes_trans [] ys zs h k = refl
leb_bytes_trans (x ∷ xs) [] zs h k = cc
leb_bytes_trans (x ∷ xs) (y ∷ ys) [] h k = cc
leb_bytes_trans (x ∷ xs) (y ∷ ys) (z ∷ zs) h k = ground (arith, leb_bytes_trans xs ys zs)

pub leb_bytes_antisym : (xs ys : Bytes) → leb_bytes xs ys ≡ true → leb_bytes ys xs ≡ true → xs ≡ ys
unfolding leb_bytes
leb_bytes_antisym [] [] h k = refl
leb_bytes_antisym [] (y ∷ ys) h k = cc
leb_bytes_antisym (x ∷ xs) [] h k = cc
leb_bytes_antisym (x ∷ xs) (y ∷ ys) h k = ground (arith, leb_bytes_antisym xs ys)

abbrev pub Le : PubKeyId → PubKeyId → Type 0
Le j k = leb_bytes j.bytes k.bytes ≡ true

abbrev pub Lt : PubKeyId → PubKeyId → Type 0
Lt j k = Le j k × (j ≢ k)

abbrev pub IsSorted : List PubKeyId → Type 0
IsSorted [] = Unit {0}
IsSorted (k ∷ ks) = All (Le k) ks × IsSorted ks

-- Each key is below every later one.
abbrev pub IsAscending : List PubKeyId → Type 0
IsAscending [] = Unit {0}
IsAscending (k ∷ ks) = All (Lt k) ks × IsAscending ks

All-insert :
    (P : PubKeyId → Type 0) (k : PubKeyId) (ks : List PubKeyId)
    → P k
    → All P ks
    → All P (insert k ks)
unfolding insert
All-insert P k [] p h = (p, tt)
All-insert P k (j ∷ js) p h = elim (Bool-cases (leb_bytes k.bytes j.bytes)) [
  | inl e ↦ rw e (p, h)
  | inr e ↦ rw e (h.0, All-insert P k js p h.1)
]

insert-IsSorted : (k : PubKeyId) (ks : List PubKeyId) → IsSorted ks → IsSorted (insert k ks)
unfolding insert
insert-IsSorted k [] h = (tt, tt)
insert-IsSorted k (j ∷ js) h = elim (Bool-cases (leb_bytes k.bytes j.bytes)) [
  | inl e ↦ rw e ((e, All-imp (λ i. leb_bytes_trans k.bytes j.bytes i.bytes e) js h.0), h)
  | inr e ↦
      rw e
        (All-insert (Le j) k js (leb_bytes_total k.bytes j.bytes e) h.0, insert-IsSorted k js h.1)
]

pub sort-IsSorted : (ks : List PubKeyId) → IsSorted (sort ks)
unfolding sort
sort-IsSorted [] = tt
sort-IsSorted (k ∷ ks) = insert-IsSorted k (sort ks) (sort-IsSorted ks)

insert-perm : (k : PubKeyId) (ks : List PubKeyId) → Perm (insert k ks) (k ∷ ks)
unfolding insert
insert-perm k [] = Perm.refl (k ∷ [])
insert-perm k (j ∷ js) = elim (Bool-cases (leb_bytes k.bytes j.bytes)) [
  | inl e ↦ rw e (Perm.refl (k ∷ j ∷ js))
  | inr e ↦ rw e (Perm.trans (Perm.cons j (insert-perm k js)) (Perm.swap k j js))
]

pub sort-perm : (ks : List PubKeyId) → Perm (sort ks) ks
unfolding sort
sort-perm [] = Perm.refl []
sort-perm (k ∷ ks) = Perm.trans (insert-perm k (sort ks)) (Perm.cons k (sort-perm ks))

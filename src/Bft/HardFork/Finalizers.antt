-- ===== src/Bft/HardFork/Finalizers.antt =====
-- Laws of `HardForkConfig::new`.
use mathlib.Core.List.{Mem, Nodup, Nodup-cons, Perm, mem-cons, not-mem-nil}
use mathlib.Core.List.Pairwise
use mathlib.Core.List.Perm
use mathlib.Core.Logic.Or
use auzum_zcash.Base.{
  ℕ, ◌≡◌, ◌↔◌, ◌≢◌, refl, sym, ap, subst, List, [], ◌∷◌, All, Option, none, some, eq_bytes,
  eq_bytes_iff, Bool-cases, inl, inr,
}
use auzum_zcash.Base.Outcome.{Outcome, success, failure}
use auzum_zcash.Bft.Keys.{PubKeyId}
use auzum_zcash.Bft.HardFork.{
  HardForkConfig, InvalidHardForkConfig, sort, equal_neighbours, build, new_hard_fork,
}
use auzum_zcash.Bft.HardFork.Order.{
  Le, Lt, IsSorted, IsAscending, leb_bytes_antisym, sort-IsSorted, sort-perm,
}

key_eq : (j k : PubKeyId) → j.bytes ≡ k.bytes → j ≡ k
key_eq j k e = λ i. record { bytes = e i }

below_later :
    (k j : PubKeyId) (ks : List PubKeyId)
    → Le k j
    → k ≢ j
    → All (Le k) ks
    → All (Lt j) ks
    → All (Lt k) ks
below_later k j [] le ne h g = tt
below_later k j (i ∷ ks) le ne h g = (
  (
    h.0,
    λ e. ne (
        key_eq k j
          (leb_bytes_antisym k.bytes j.bytes le (subst (λ (t : PubKeyId). Le j t) (sym e) g.0.0))),
  ),
  below_later k j ks le ne h.1 g.1,
)

ascending : (ks : List PubKeyId) → IsSorted ks → equal_neighbours ks ≡ none → IsAscending ks
unfolding equal_neighbours
ascending [] s e = tt
ascending (k ∷ []) s e = (tt, tt)
ascending (k ∷ j ∷ ks) s e = elim (Bool-cases (eq_bytes k.bytes j.bytes)) [
  | inl same ↦ cc (rw same at e)
  | inr differ ↦
      let ne : k ≢ j =
        λ q. cc (differ, (eq_bytes_iff k.bytes j.bytes).1 (ap (λ (t : PubKeyId). t.bytes) q)) in
      let rest = ascending (j ∷ ks) s.1 (rw differ at e) in
      (((s.0.0, ne), below_later k j ks s.0.0 ne s.0.1 rest.0), rest)
]

no_equal_neighbours : (ks : List PubKeyId) → IsAscending ks → equal_neighbours ks ≡ none
unfolding equal_neighbours
no_equal_neighbours [] h = refl
no_equal_neighbours (k ∷ []) h = refl
no_equal_neighbours (k ∷ j ∷ ks) h = elim (Bool-cases (eq_bytes k.bytes j.bytes)) [
  | inl same ↦ absurd (h.0.0.1 (key_eq k j ((eq_bytes_iff k.bytes j.bytes).0 same)))
  | inr differ ↦ rw differ (no_equal_neighbours (j ∷ ks) h.1)
]

not_mem : (k : PubKeyId) (ks : List PubKeyId) → All (Lt k) ks → ¬ Mem k ks
not_mem k [] h m = not-mem-nil m
not_mem k (j ∷ ks) h m = Or.elim (λ p q. absurd p) (mem-cons.0 m) h.0.1 (not_mem k ks h.1)

IsAscending-Nodup : (ks : List PubKeyId) → IsAscending ks → Nodup ks
IsAscending-Nodup [] h = Pairwise.nil
IsAscending-Nodup (k ∷ ks) h = Nodup-cons.1 (not_mem k ks h.0, IsAscending-Nodup ks h.1)

below_each : (k : PubKeyId) (ks : List PubKeyId) → All (Le k) ks → ¬ Mem k ks → All (Lt k) ks
below_each k [] h m = tt
below_each k (j ∷ ks) h m =
    ((h.0, λ e. m (mem-cons.1 (Or.inl e))), below_each k ks h.1 (λ q. m (mem-cons.1 (Or.inr q))))

Nodup-IsAscending : (ks : List PubKeyId) → IsSorted ks → Nodup ks → IsAscending ks
Nodup-IsAscending [] s d = tt
Nodup-IsAscending (k ∷ ks) s d =
    let (out, rest) = Nodup-cons.0 d in (below_each k ks s.0 out, Nodup-IsAscending ks s.1 rest)

abbrev ruled : ℕ → ℕ → List PubKeyId → HardForkConfig
ruled pow bft finalizers = record {
  pow_activation_height = pow;
  bft_certificate_height = bft;
  terminated_finalizers = finalizers;
}

built : Outcome InvalidHardForkConfig HardForkConfig → HardForkConfig → HardForkConfig
built (success c) d = c
built (failure e) d = d

build-success :
    (pow bft : ℕ) (finalizers : List PubKeyId) (o : Option PubKeyId) (c : HardForkConfig)
    → build pow bft finalizers o ≡ success c
    → (o ≡ none) × (ruled pow bft finalizers ≡ c)
unfolding built
build-success pow bft finalizers none c e = (refl, ap (λ r. built r c) e)
build-success pow bft finalizers (some k) c e = cc

-- A rule that is built has the two heights that were given, and the given finalizers, each once, in
-- ascending order of their key bytes.
pub new_hard_fork-success :
    (pow bft : ℕ) (ks : List PubKeyId) (c : HardForkConfig)
    → new_hard_fork pow bft ks ≡ success c
    → (c.pow_activation_height ≡ pow)
      × (c.bft_certificate_height ≡ bft)
      × Perm c.terminated_finalizers ks
      × IsAscending c.terminated_finalizers
unfolding new_hard_fork
new_hard_fork-success pow bft [] c e = cc
new_hard_fork-success pow bft (k ∷ ks) c e =
    let sorted = sort (k ∷ ks) in
    let (alone, same) = build-success pow bft sorted (equal_neighbours sorted) c e in
    subst
      (λ (r : HardForkConfig).
        (r.pow_activation_height ≡ pow)
        × (r.bft_certificate_height ≡ bft)
        × Perm r.terminated_finalizers (k ∷ ks)
        × IsAscending r.terminated_finalizers)
      same (refl, refl, sort-perm (k ∷ ks), ascending sorted (sort-IsSorted (k ∷ ks)) alone)

not_nil :
    (pow bft : ℕ) (ks : List PubKeyId) (c : HardForkConfig)
    → new_hard_fork pow bft ks ≡ success c
    → ks ≢ []
unfolding new_hard_fork
not_nil pow bft [] c e q = cc
not_nil pow bft (k ∷ ks) c e q = cc

-- A rule is built exactly from a list that is not empty and names no finalizer twice.
pub new_hard_fork-success_iff :
    (pow bft : ℕ) (ks : List PubKeyId)
    → ((c : HardForkConfig) × (new_hard_fork pow bft ks ≡ success c)) ↔ ((ks ≢ []) × Nodup ks)
unfolding new_hard_fork
new_hard_fork-success_iff pow bft [] = (λ (c, e). cc, λ h. absurd (h.0 refl))
new_hard_fork-success_iff pow bft (k ∷ ks) =
    let sorted = sort (k ∷ ks) in
    (
      λ (c, e).
          let (_, _, perm, up) = new_hard_fork-success pow bft (k ∷ ks) c e in
          (
            not_nil pow bft (k ∷ ks) c e,
            Perm.nodup perm (IsAscending-Nodup c.terminated_finalizers up),
          ),
      λ (_, d).
          let up =
            Nodup-IsAscending sorted (sort-IsSorted (k ∷ ks))
              (Perm.nodup (Perm.symm (sort-perm (k ∷ ks))) d) in
          (ruled pow bft sorted, ap (build pow bft sorted) (no_equal_neighbours sorted up)),
    )

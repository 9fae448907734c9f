-- ===== src/Protocol/Zip318/Classify.antt =====
-- components/zcash_protocol/src/zip318.rs, `classify`: what a transaction looks like, from what was
-- observed of it.
use auzum_zcash.Base.{
  ℕ, ◌≡◌, ◌≢◌, inl, inr, refl, Bool-cases, arith, Bool, true, false, not, ◌||◌, Option, none, some,
  ◌==◌, if◌then◌else◌,
}
use auzum_zcash.Protocol.Value.{Zatoshis}
use auzum_zcash.Protocol.Zip318.{is_canonical_within}

abbrev pub crossing_source_actions : ℕ
crossing_source_actions = 2

abbrev pub crossing_destination_actions : ℕ
crossing_destination_actions = 1

pub data Zip318TxKind : Type 0 where
  preparation transfer : Zip318TxKind

pub data Zip318Classification : Type 0 where
  conforms : Zip318TxKind → Zip318Classification
  nonconforming unknown : Zip318Classification

-- What `classify` asks of `PoolMigrationConstants`.
pub record PoolMigrationConstants : Type 0 where
  pub denomination_cap : Zatoshis
  pub max_residual_value : Zatoshis
  pub preparation_tx_actions : ℕ

pub record Zip318Evidence : Type 0 where
  pub source_actions : Option ℕ
  pub destination_actions : Option ℕ
  pub other_bundles_present : Option Bool
  pub source_is_send_to_self : Option Bool
  pub sole_destination_value : Option Zatoshis
  pub expiry_is_canonical : Option Bool
  pub anchor_on_grid : Option Bool
  pub fee_is_canonical : Option Bool

-- `== Some(false)`
abbrev is_refuted : Option Bool → Bool
is_refuted none = false
is_refuted (some answer) = not answer

abbrev self_sent : Option Bool → Zip318Classification
self_sent none = unknown
self_sent (some false) = nonconforming
self_sent (some true) = conforms preparation

unfoldable pub classify_preparation :
    Option Bool → PoolMigrationConstants → ℕ → Zip318Classification
classify_preparation source_is_send_to_self constants source_actions =
    if not (source_actions == constants.preparation_tx_actions)
    then nonconforming
    else self_sent source_is_send_to_self

abbrev transfer_if : Option Bool → Option Zip318Classification
transfer_if none = none
transfer_if (some canonical) =
    if not canonical then some nonconforming else some (conforms transfer)

abbrev carries : PoolMigrationConstants → Option Zatoshis → Option Zip318Classification
carries constants none = some unknown
carries constants (some value) =
    transfer_if (is_canonical_within value constants.max_residual_value constants.denomination_cap)

unfoldable pub classify_crossing :
    Option Zatoshis → PoolMigrationConstants → ℕ → Option Zip318Classification
classify_crossing sole_destination_value constants source_actions =
    if not (source_actions == crossing_source_actions)
    then some nonconforming
    else carries constants sole_destination_value

-- The shared clauses: one that is not answered leaves the answer open.
unfoldable pub classify_shape :
    Option Bool
    → Option Zatoshis
    → PoolMigrationConstants
    → Option ℕ
    → Option ℕ
    → Option Bool
    → Option Bool
    → Option Zip318Classification
classify_shape self value constants none destination other expiry = some unknown
classify_shape self value constants (some source) none other expiry = some unknown
classify_shape self value constants (some source) (some destination) none expiry = some unknown
classify_shape self value constants (some source) (some destination) (some other) none =
    some unknown
classify_shape self value constants (some source) (some destination) (some other) (some expiry) =
    if other || not expiry
    then some nonconforming
    else if destination == 0
    then some (classify_preparation self constants source)
    else if destination == crossing_destination_actions
    then classify_crossing value constants source
    else some nonconforming

-- `none` is a call that never returns, for constants that let a value of zero pass.
unfoldable pub classify : Zip318Evidence → PoolMigrationConstants → Option Zip318Classification
classify e constants =
    if is_refuted e.anchor_on_grid || is_refuted e.fee_is_canonical
    then some nonconforming
    else classify_shape e.source_is_send_to_self e.sole_destination_value constants e.source_actions
        e.destination_actions e.other_bundles_present e.expiry_is_canonical

-- An answer may come, and never changes.
abbrev pub Grows {ℓ} : {A : Type ℓ} → Option A → Option A → Type ℓ
Grows none after = Unit
Grows (some a) after = after ≡ some a

-- More was observed, by a source that answers the two confirmatory clauses alike.
pub record IsExtendedBy (e f : Zip318Evidence) : Type 0 where
  pub source : Grows e.source_actions f.source_actions
  pub destination : Grows e.destination_actions f.destination_actions
  pub other : Grows e.other_bundles_present f.other_bundles_present
  pub self_send : Grows e.source_is_send_to_self f.source_is_send_to_self
  pub value : Grows e.sole_destination_value f.sole_destination_value
  pub expiry : Grows e.expiry_is_canonical f.expiry_is_canonical
  pub anchor : f.anchor_on_grid ≡ e.anchor_on_grid
  pub fee : f.fee_is_canonical ≡ e.fee_is_canonical

self_sent_monotone :
    (a b : Option Bool) → Grows a b → self_sent a ≢ unknown → self_sent b ≡ self_sent a
self_sent_monotone none b g ne = absurd (ne refl)
self_sent_monotone (some x) b g ne = rw g refl

carries_monotone :
    (c : PoolMigrationConstants) (a b : Option Zatoshis)
    → Grows a b
    → carries c a ≢ some unknown
    → carries c b ≡ carries c a
carries_monotone c none b g ne = absurd (ne refl)
carries_monotone c (some x) b g ne = rw g refl

shape_monotone :
    (c : PoolMigrationConstants) (self self' : Option Bool) (value value' : Option Zatoshis)
    (s s' d d' : Option ℕ) (o o' x x' : Option Bool)
    → Grows self self'
    → Grows value value'
    → Grows s s'
    → Grows d d'
    → Grows o o'
    → Grows x x'
    → classify_shape self value c s d o x ≢ some unknown
    → classify_shape self' value' c s' d' o' x' ≡ classify_shape self value c s d o x
unfolding classify_shape classify_preparation classify_crossing
shape_monotone c self self' value value' none s' d d' o o' x x' gf gv gs gd go gx ne =
    absurd (ne refl)
shape_monotone c self self' value value' (some s) s' none d' o o' x x' gf gv gs gd go gx ne =
    absurd (ne refl)
shape_monotone c self self' value value' (some s) s' (some d) d' none o' x x' gf gv gs gd go gx ne =
    absurd (ne refl)
shape_monotone c self self' value value' (some s) s' (some d) d' (some o) o' none x' gf gv gs gd go
      gx ne =
    absurd (ne refl)
shape_monotone c self self' value value' (some s) s' (some d) d' (some o) o' (some x) x' gf gv gs gd
      go gx ne =
    let prepared = self_sent_monotone self self' gf in
    let crossed = carries_monotone c value value' gv in
    rw (gs, gd, go, gx) (ground (arith, prepared, crossed))

-- A decision stands: once a transaction was classified as conforming or not, observing more of it
-- leaves the classification as it was, if the two confirmatory clauses are answered alike.
pub classify_monotone :
    (e f : Zip318Evidence) (c : PoolMigrationConstants)
    → IsExtendedBy e f
    → classify e c ≢ some unknown
    → classify f c ≡ classify e c
unfolding classify
classify_monotone e f c h ne =
    elim (Bool-cases (is_refuted e.anchor_on_grid || is_refuted e.fee_is_canonical)) [
      | inl refuted ↦ rw (h.anchor, h.fee, refuted) refl
      | inr left ↦
          rw (h.anchor, h.fee, left)
            (shape_monotone c _ _ _ _ _ _ _ _ _ _ _ _ h.self_send h.value h.source h.destination
              h.other h.expiry (rw left at ne))
    ]

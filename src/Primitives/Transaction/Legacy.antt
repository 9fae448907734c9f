-- ===== src/Primitives/Transaction/Legacy.antt =====
-- Laws of the format of the versions up to 4.
use auzum_zcash.Base.{
  ℕ, ◌^◌, ◌<◌, ◌≡◌, refl, ap, arith, Bool, true, false, ◌&&◌, [], Option, none, some, Bool-cases,
  inl, inr,
}
use auzum_zcash.Base.Io.{Bytes, IsBytes, Written, pure, ◌>>◌, write_u32_le}
use auzum_zcash.Base.Io.Codec.{IsCodec}
use auzum_zcash.Base.Io.Decodes.{
  Decodes, Decodes-bind, Decodes-last, Decodes-pure, Decodes-le, Decodes-bytes,
}
use auzum_zcash.Primitives.Sprout
use auzum_zcash.Primitives.Sprout.{read_js, write_js}
use auzum_zcash.Primitives.Sprout.Codec.{IsDescription, Decodes-read_js, Exact-read_js}
use auzum_zcash.Primitives.TxVersion.{
  TxVersion, has_sprout, has_overwinter, has_sapling, write_version,
}
use auzum_zcash.Primitives.Transaction.Crates.{Crates, IsCrates, IsVector, is_empty, components}
use auzum_zcash.Primitives.Transaction.Data.{TransactionData}
use auzum_zcash.Primitives.Transaction.Sections.{write_transparent}
use auzum_zcash.Primitives.Transaction.Early.{
  read_expiry, write_expiry, read_joinsplit_sigs, read_sprout, write_sprout, read_binding_sig,
  write_binding_sig, sapling_of, read_v4, write_v4,
}
use auzum_zcash.Primitives.Transaction.Shared.{IsTransparent, read_transparent-IsCodec}

-- A field that the version has or has not.
abbrev pub IsExpiry : Bool → ℕ → Type 0
IsExpiry true height = height < 2 ^ 32
IsExpiry false height = height ≡ 0

Decodes-read_expiry :
    (v : TxVersion) (height : ℕ)
    → IsExpiry (has_overwinter v) height
    → Decodes (write_expiry v height) (read_expiry v) height
unfolding write_expiry read_expiry
Decodes-read_expiry v height h = elim (Bool-cases (has_overwinter v)) [
  | inl e ↦ let fits : height < 2 ^ 32 = rw e at h in rw e (Decodes-le 4 height (omega arith))
  | inr e ↦ let zero_height : height ≡ 0 = rw e at h in rw (e, zero_height) (Decodes-pure 0)
]

joinsplit-IsCodec :
    (use_groth : Bool) → IsCodec (read_js use_groth) write_js (IsDescription use_groth)
joinsplit-IsCodec use_groth = record {
  decodes = Decodes-read_js use_groth;
  exact = Exact-read_js use_groth;
}

-- A Sprout bundle that is there has a JoinSplit.
pub record IsBundle (use_groth : Bool) (b : Sprout.Bundle) : Type 0 where
  pub joinsplits : IsVector (IsDescription use_groth) b.joinsplits
  pub some_there : is_empty b.joinsplits ≡ false
  pub pubkey : IsBytes 32 b.joinsplit_pubkey
  pub sig : IsBytes 64 b.joinsplit_sig

abbrev pub IsSprout : Bool → Bool → Option Sprout.Bundle → Type 0
IsSprout true use_groth none = Unit
IsSprout true use_groth (some b) = IsBundle use_groth b
IsSprout false use_groth o = o ≡ none

module _ {c : Crates} (k : IsCrates c) where
  sprout_on :
      (v : TxVersion) (o : Option Sprout.Bundle)
      → has_sprout v ≡ true
      → IsSprout true (has_sapling v) o
      → Decodes (write_sprout c v o) (read_sprout c v) o
  unfolding read_sprout write_sprout read_joinsplit_sigs
  sprout_on v none e h =
      let nothing : Decodes c.write_empty (c.read_vector (read_js (has_sapling v))) [] =
        rw (k.empty write_js) at
          ((k.vector (joinsplit-IsCodec (has_sapling v))).decodes [] (tt, omega arith)) in
      rw e (Decodes-last _ nothing refl)
  sprout_on v (some b) e h = rw e (
      Decodes-bind _
        ((k.vector (joinsplit-IsCodec (has_sapling v))).decodes b.joinsplits h.joinsplits)
        (rw h.some_there (
          Decodes-bind _ (Decodes-bytes b.joinsplit_pubkey h.pubkey.0)
            (Decodes-last _ (Decodes-bytes b.joinsplit_sig h.sig.0) refl))))

  Decodes-read_sprout :
      (v : TxVersion) (o : Option Sprout.Bundle)
      → IsSprout (has_sprout v) (has_sapling v) o
      → Decodes (write_sprout c v o) (read_sprout c v) o
  Decodes-read_sprout v o h = elim (Bool-cases (has_sprout v)) [
    | inl e ↦ sprout_on v o e (rw e at h)
    | inr e ↦
        let absent : o ≡ none = rw e at h in
        rw absent (unfold read_sprout write_sprout in rw e (Decodes-pure none))
  ]

  -- A Sapling bundle that is there has a spend or an output.
  pub record IsSigned (b : c.Sapling) : Type 0 where
    pub components : k.IsSaplingV4 (some b)
    pub some_there : (is_empty (c.shielded_spends b) && is_empty (c.shielded_outputs b)) ≡ false
    pub sig : IsBytes 64 (c.binding_sig b)

  abbrev pub IsSapling : Bool → Option c.Sapling → Type 0
  IsSapling true none = k.IsSaplingV4 none
  IsSapling true (some b) = IsSigned b
  IsSapling false o = o ≡ none

  Decodes-components :
      (on : Bool) (o : Option c.Sapling)
      → IsSapling on o
      → Decodes (c.write_sapling_v4 o on) (c.read_sapling_v4 on) (components c o)
  Decodes-components true none h = k.sapling_v4 none h
  Decodes-components true (some b) h = k.sapling_v4 (some b) h.components
  Decodes-components false o h = rw h k.sapling_v4_off

  -- The binding signature, and the bundle that it completes.
  abbrev signature_of : Option c.Sapling → Option Bytes
  signature_of none = none
  signature_of (some b) = some (c.binding_sig b)

  signature_on :
      (v : TxVersion) (o : Option c.Sapling)
      → has_sapling v ≡ true
      → IsSapling true o
      → Decodes
          (write_binding_sig c v o)
          (read_binding_sig c v (components c o).1 (components c o).2)
          (signature_of o)
  unfolding write_binding_sig read_binding_sig
  signature_on v none e h = rw e (Decodes-pure none)
  signature_on v (some b) e h =
      rw (e, h.some_there) (Decodes-last _ (Decodes-bytes (c.binding_sig b) h.sig.0) refl)

  Decodes-read_binding_sig :
      (v : TxVersion) (o : Option c.Sapling)
      → IsSapling (has_sapling v) o
      → Decodes
          (write_binding_sig c v o)
          (read_binding_sig c v (components c o).1 (components c o).2)
          (signature_of o)
  unfolding write_binding_sig read_binding_sig
  Decodes-read_binding_sig v o h = elim (Bool-cases (has_sapling v)) [
    | inl e ↦ signature_on v o e (rw e at h)
    | inr e ↦ let absent : o ≡ none = rw e at h in rw (e, absent) (Decodes-pure none)
  ]

  sapling_of-components :
      (on : Bool) (o : Option c.Sapling)
      → IsSapling on o
      → sapling_of c (components c o) (signature_of o) ≡ o
  unfolding sapling_of
  sapling_of-components on none h = refl
  sapling_of-components true (some b) h = k.sapling_parts b h.some_there
  sapling_of-components false (some b) h = cc

  -- A transaction of a version up to 4 whose parts fit their formats, and that has no others.
  pub record IsV4 (tx : TransactionData c) : Type 0 where
    pub lock_time : tx.lock_time < 2 ^ 32
    pub expiry_height : IsExpiry (has_overwinter tx.version) tx.expiry_height
    pub transparent : IsTransparent k tx.transparent_bundle
    pub sprout : IsSprout (has_sprout tx.version) (has_sapling tx.version) tx.sprout_bundle
    pub sapling : IsSapling (has_sapling tx.version) tx.sapling_bundle
    pub orchard : tx.orchard_bundle ≡ none
    pub ironwood : tx.ironwood_bundle ≡ none
    pub staking : tx.staking_action ≡ none

  abbrev pub body_v4 : TransactionData c → Written
  body_v4 tx = do
    write_transparent tx.transparent_bundle
    write_u32_le tx.lock_time
    write_expiry tx.version tx.expiry_height
    c.write_sapling_v4 tx.sapling_bundle (has_sapling tx.version)
    write_sprout c tx.version tx.sprout_bundle
    write_binding_sig c tx.version tx.sapling_bundle

  pub write_v4-body :
      (tx : TransactionData c)
      → tx.orchard_bundle ≡ none
      → write_v4 tx ≡ (write_version tx.version >> body_v4 tx)
  unfolding write_v4
  write_v4-body tx e = rw e refl

  pub Decodes-body_v4 :
      (tx : TransactionData c)
      → IsV4 tx
      → Decodes (body_v4 tx) (read_v4 tx.version tx.consensus_branch_id) tx
  unfolding read_v4
  Decodes-body_v4 tx h =
      Decodes-bind _ ((read_transparent-IsCodec k).decodes tx.transparent_bundle h.transparent) (
        Decodes-bind _ (Decodes-le 4 tx.lock_time (omega (arith, h.lock_time))) (
          Decodes-bind _ (Decodes-read_expiry tx.version tx.expiry_height h.expiry_height) (
            Decodes-bind _ (Decodes-components (has_sapling tx.version) tx.sapling_bundle h.sapling)
              (Decodes-bind _ (Decodes-read_sprout tx.version tx.sprout_bundle h.sprout) (
                Decodes-last _ (Decodes-read_binding_sig tx.version tx.sapling_bundle h.sapling) (
                  ap pure (
                    cc (
                      h.orchard,
                      h.ironwood,
                      h.staking,
                      sapling_of-components (has_sapling tx.version) tx.sapling_bundle h.sapling,
                    ))))))))

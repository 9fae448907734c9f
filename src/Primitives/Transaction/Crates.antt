-- ===== src/Primitives/Transaction/Crates.antt =====
-- What transactions use of other modules: the crates zcash_transparent, zcash_encoding and sapling, and
-- the bundle codecs of zcash_primitives/src/transaction/components/sapling.rs and orchard.rs.
use auzum_zcash.Base.{
  ℕ, ◌≤◌, ◌≡◌, Bool, true, false, List, [], ◌∷◌, Option, none, some, length, All, ◌&&◌,
}
use auzum_zcash.Base.Int.{pos}
use auzum_zcash.Base.Io.{Bytes, Reader, Written, done}
use auzum_zcash.Base.Io.Codec.{IsCodec}
use auzum_zcash.Base.Io.Decodes.{Decodes}
use auzum_zcash.Base.Io.Exact.{Exact}
use auzum_zcash.Protocol.Consensus.{BranchId}
use auzum_zcash.Protocol.Value.{ZatBalance}

abbrev pub is_empty {ℓ} : {A : Type ℓ} → List A → Bool
is_empty [] = true
is_empty (x ∷ xs) = false

-- The pools that an Orchard bundle may belong to.
pub data ValuePool : Type 0 where
  orchard ironwood : ValuePool

pub record Crates : Type 1 where
  pub TxIn : Type 0
  pub TxOut : Type 0
  pub read_tx_in : Reader TxIn
  pub write_tx_in : TxIn → Written
  pub read_tx_out : Reader TxOut
  pub write_tx_out : TxOut → Written
  -- `Vector::read`, `Vector::write` and `CompactSize::write(0)`.
  pub read_vector : {A : Type 0} → Reader A → Reader (List A)
  pub write_vector : {A : Type 0} → (A → Written) → List A → Written
  pub write_empty : Written
  pub Spend : Type 0
  pub Output : Type 0
  pub Sapling : Type 0
  -- `sapling::Bundle::from_parts`, with the binding signature as its 64 bytes.
  pub sapling_from_parts : List Spend → List Output → ZatBalance → Bytes → Option Sapling
  pub shielded_spends : Sapling → List Spend
  pub shielded_outputs : Sapling → List Output
  pub sapling_value : Sapling → ZatBalance
  pub binding_sig : Sapling → Bytes
  pub read_sapling_v4 : Bool → Reader (ZatBalance × List Spend × List Output)
  pub write_sapling_v4 : Option Sapling → Bool → Written
  pub read_sapling_v5 : Reader (Option Sapling)
  pub write_sapling_v5 : Option Sapling → Written
  pub Orchard : Type 0
  pub orchard_value : Orchard → ZatBalance
  pub read_orchard_v5 : BranchId → Reader (Option Orchard)
  pub write_orchard_v5 : Option Orchard → Written
  pub read_orchard_v6 : BranchId → ValuePool → Reader (Option Orchard)
  pub write_orchard_v6 : Option Orchard → Written

-- The most entries that `Vector::read` accepts.
abbrev pub max_compact_size : ℕ
max_compact_size = 0x0200_0000

abbrev pub IsVector {ℓ} : {A : Type 0} → (A → Type ℓ) → List A → Type ℓ
IsVector P xs = All P xs × (length xs ≤ max_compact_size)

-- What the version 4 format writes of a Sapling bundle ahead of its binding signature.
abbrev pub components : (c : Crates) → Option c.Sapling → ZatBalance × List c.Spend × List c.Output
components c none = (record { amount = pos 0 }, [], [])
components c (some b) = (c.sapling_value b, c.shielded_spends b, c.shielded_outputs b)

-- What the crates document of their codecs.
pub record IsCrates (c : Crates) : Type 1 where
  pub IsIn : c.TxIn → Type 0
  pub IsOut : c.TxOut → Type 0
  pub IsSaplingV4 : Option c.Sapling → Type 0
  pub IsSaplingV5 : Option c.Sapling → Type 0
  pub IsOrchardV5 : BranchId → Option c.Orchard → Type 0
  pub IsOrchardV6 : BranchId → ValuePool → Option c.Orchard → Type 0
  pub tx_in : IsCodec c.read_tx_in c.write_tx_in IsIn
  pub tx_out : IsCodec c.read_tx_out c.write_tx_out IsOut
  pub vector :
      {A : Type 0} {r : Reader A} {w : A → Written} {P : A → Type 0}
      → IsCodec r w P
      → IsCodec (c.read_vector r) (c.write_vector w) (IsVector P)
  pub empty : {A : Type 0} (w : A → Written) → c.write_vector w [] ≡ c.write_empty
  pub sapling_v4 :
      (o : Option c.Sapling)
      → IsSaplingV4 o
      → Decodes (c.write_sapling_v4 o true) (c.read_sapling_v4 true) (components c o)
  pub sapling_v4_off :
      Decodes (c.write_sapling_v4 none false) (c.read_sapling_v4 false) (components c none)
  -- A bundle with a spend or an output is made of its parts.
  pub sapling_parts :
      (b : c.Sapling)
      → (is_empty (c.shielded_spends b) && is_empty (c.shielded_outputs b)) ≡ false
      → c.sapling_from_parts
          (c.shielded_spends b)
          (c.shielded_outputs b)
          (c.sapling_value b)
          (c.binding_sig b)
        ≡ some b
  pub sapling_v5 : IsCodec c.read_sapling_v5 c.write_sapling_v5 IsSaplingV5
  pub orchard_v5 : (b : BranchId) → IsCodec (c.read_orchard_v5 b) c.write_orchard_v5 (IsOrchardV5 b)
  pub orchard_v6 :
      (b : BranchId) (pool : ValuePool) (o : Option c.Orchard)
      → IsOrchardV6 b pool o
      → Decodes (c.write_orchard_v6 o) (c.read_orchard_v6 b pool) o
  -- Under the branches before NU6.3 a bundle may be read that the format cannot hold.
  pub orchard_v6_exact :
      (pool : ValuePool)
      → Exact
          (done [])
          (c.read_orchard_v6 BranchId.nu6_3 pool)
          c.write_orchard_v6
          (IsOrchardV6 BranchId.nu6_3 pool)

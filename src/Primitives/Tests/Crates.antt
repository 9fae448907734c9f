-- ===== src/Primitives/Tests/Crates.antt =====
-- A sample of what transactions use of other crates: counts of four bytes, inputs, outputs, spends and
-- Orchard bundles of one byte.
use auzum_zcash.Base.{
  ℕ, ◌<◌, ◌≡◌, ◌==◌, refl, arith, Bool, true, false, ◌&&◌, List, [], Option, none, some, length,
  ltb, if◌then◌else◌, All-imp,
}
use auzum_zcash.Base.Int.{pos}
use auzum_zcash.Base.Io.{
  Bytes, invalid_data, Reader, Written, pure, fail, ◌>>=◌, ◌>>◌, done, failed, write_all, read_u8,
  write_u8, read_u32_le, write_u32_le, read_times, write_each, write_le, invalid_input,
}
use auzum_zcash.Base.Io.Codec.{IsCodec, byte-IsCodec}
use auzum_zcash.Base.Io.Decodes.{
  Decodes, Decodes-le, Decodes-bind, Decodes-last, Decodes-check, Decodes-times, Decodes-pure,
}
use auzum_zcash.Base.Io.Exact.{
  Exact-bind, Exact-return, Exact-fail, Exact-check, Exact-branch, Exact-le, Exact-times,
  write_laws,
}
use auzum_zcash.Protocol.Value.{ZatBalance, IsBalance, to_i64_le_bytes}
use auzum_zcash.Primitives.Transaction.Sections.{read_amount}
use auzum_zcash.Primitives.Transaction.Shared.{amount-IsCodec}
use auzum_zcash.Primitives.Transaction.Crates.{
  Crates, IsCrates, IsVector, is_empty, max_compact_size, components,
}

abbrev pub read_list {ℓ} : {A : Type ℓ} → Reader A → Reader (List A)
read_list r = read_u32_le >>= λ n.
    if ltb max_compact_size n
    then fail (invalid_data "CompactSize too large")
    else (read_times n r >>= λ xs. pure xs)

abbrev pub write_list {ℓ} : {A : Type ℓ} → (A → Written) → List A → Written
write_list w xs = write_u32_le (length xs) >> write_each w xs

pub list-IsCodec :
    {A : Type 0} {r : Reader A} {w : A → Written} {P : A → Type 0}
    → IsCodec r w P
    → IsCodec (read_list r) (write_list w) (IsVector P)
list-IsCodec {r} {w} x = record {
  decodes = λ xs h.
      let few : ltb max_compact_size (length xs) ≡ false = ground (arith, h.1) in
      Decodes-bind _ (Decodes-le 4 (length xs) (omega (arith, h.1))) (
        Decodes-check _ (invalid_data "CompactSize too large") few
          (Decodes-last _ (Decodes-times w r xs (All-imp x.decodes xs h.0)) refl));
  exact = Exact-bind _ (Exact-le 4) λ n _.
      Exact-check (ltb max_compact_size n) (invalid_data "CompactSize too large") λ few.
        Exact-bind _ (Exact-times n x.exact)
          λ xs (len, ps). Exact-return xs (rw len (simp write_laws)) (ps, rw len (ground arith));
}

-- A bundle of one byte, behind a tag.
abbrev pub read_small : Reader (Option ℕ)
read_small = read_u8 >>= λ tag.
    if tag == 0
    then pure none
    else if tag == 1
    then (read_u8 >>= λ n. pure (some n))
    else fail (invalid_data "tag")

abbrev pub write_small : Option ℕ → Written
write_small none = write_u8 0
write_small (some n) = write_u8 1 >> write_u8 n

abbrev pub IsSmall : Option ℕ → Type 0
IsSmall none = Unit
IsSmall (some n) = n < 256

pub Decodes-read_small : (o : Option ℕ) → IsSmall o → Decodes (write_small o) read_small o
Decodes-read_small none h = Decodes-last _ (Decodes-le 1 0 (omega arith)) refl
Decodes-read_small (some n) h =
    Decodes-bind _ (Decodes-le 1 1 (omega arith))
      (Decodes-last _ (Decodes-le 1 n (omega arith)) refl)

pub read_small-IsCodec : IsCodec read_small write_small IsSmall
read_small-IsCodec = record {
  decodes = Decodes-read_small;
  exact = Exact-bind _ (Exact-le 1) λ tag _.
      Exact-branch (tag == 0)
        (λ e.
          let none_tag : tag ≡ 0 = ground arith in
          Exact-return none (rw none_tag (simp write_laws)) tt)
        λ _.
          Exact-branch (tag == 1)
            (λ e.
              let some_tag : tag ≡ 1 = ground arith in
              Exact-bind _ (Exact-le 1)
                λ n h. Exact-return (some n) (rw some_tag (simp write_laws)) (omega arith))
            λ _. Exact-fail (invalid_data "tag");
}

-- No bundle.
abbrev pub read_nothing {ℓ} : {A : Type ℓ} → Reader (Option A)
read_nothing = read_u8 >>= λ tag. if tag == 0 then pure none else fail (invalid_data "tag")

abbrev pub write_nothing {ℓ} : {A : Type ℓ} → Option A → Written
write_nothing none = write_u8 0
write_nothing (some a) = failed [] (invalid_data "bundle")

pub nothing-IsCodec : {A : Type 0} → IsCodec (read_nothing {A = A}) write_nothing (λ o. o ≡ none)
nothing-IsCodec = record {
  decodes = λ o h. rw h (Decodes-last _ (Decodes-le 1 0 (omega arith)) refl);
  exact = Exact-bind _ (Exact-le 1) λ tag _.
      Exact-branch (tag == 0)
        (λ e.
          let none_tag : tag ≡ 0 = ground arith in
          Exact-return none (rw none_tag (simp write_laws)) refl)
        λ _. Exact-fail (invalid_data "tag");
}

pub record SampleSapling : Type 0 where
  pub spends : List ℕ
  pub outputs : List ℕ
  pub value : ZatBalance
  pub sig : Bytes

abbrev sapling_of_parts : List ℕ → List ℕ → ZatBalance → Bytes → Option SampleSapling
sapling_of_parts spends outputs value sig =
    if is_empty spends && is_empty outputs
    then none
    else some (record { spends = spends; outputs = outputs; value = value; sig = sig })

abbrev read_parts : Bool → Reader (ZatBalance × List ℕ × List ℕ)
read_parts true = read_amount >>= λ value.
    read_list read_u8 >>= λ spends. read_list read_u8 >>= λ outputs. pure (value, spends, outputs)
read_parts false = pure (record { amount = pos 0 }, [], [])

abbrev write_parts : Option SampleSapling → Bool → Written
write_parts none true = do
  write_all (to_i64_le_bytes (record { amount = pos 0 }))
  write_list write_u8 []
  write_list write_u8 []
write_parts (some b) true = do
  write_all (to_i64_le_bytes b.value)
  write_list write_u8 b.spends
  write_list write_u8 b.outputs
write_parts none false = done []
write_parts (some b) false =
    failed [] (invalid_input "Sapling components may not be present if Sapling is not active.")

abbrev pub sample : Crates
sample = record {
  TxIn = ℕ;
  TxOut = ℕ;
  read_tx_in = read_u8;
  write_tx_in = write_u8;
  read_tx_out = read_u8;
  write_tx_out = write_u8;
  read_vector = read_list;
  write_vector = write_list;
  write_empty = write_u32_le 0;
  Spend = ℕ;
  Output = ℕ;
  Sapling = SampleSapling;
  sapling_from_parts = sapling_of_parts;
  shielded_spends = λ b. b.spends;
  shielded_outputs = λ b. b.outputs;
  sapling_value = λ b. b.value;
  binding_sig = λ b. b.sig;
  read_sapling_v4 = read_parts;
  write_sapling_v4 = write_parts;
  read_sapling_v5 = read_nothing;
  write_sapling_v5 = write_nothing;
  Orchard = ℕ;
  orchard_value = λ n. record { amount = pos n };
  read_orchard_v5 = λ b. read_small;
  write_orchard_v5 = write_small;
  read_orchard_v6 = λ b pool. read_small;
  write_orchard_v6 = write_small;
}

abbrev IsParts : Option SampleSapling → Type 0
IsParts none = Unit
IsParts (some b) =
    IsBalance b.value × IsVector (λ n. n < 256) b.spends × IsVector (λ n. n < 256) b.outputs

pub Decodes-read_parts :
    (o : Option SampleSapling)
    → IsParts o
    → Decodes (write_parts o true) (read_parts true) (components sample o)
Decodes-read_parts none h =
    Decodes-bind _ (amount-IsCodec.decodes (record { amount = pos 0 }) (omega arith)) (
      Decodes-bind _ ((list-IsCodec byte-IsCodec).decodes [] (tt, omega arith))
        (Decodes-last _ ((list-IsCodec byte-IsCodec).decodes [] (tt, omega arith)) refl))
Decodes-read_parts (some b) (hv, hs, ho) = Decodes-bind _ (amount-IsCodec.decodes b.value hv) (
    Decodes-bind _ ((list-IsCodec byte-IsCodec).decodes b.spends hs)
      (Decodes-last _ ((list-IsCodec byte-IsCodec).decodes b.outputs ho) refl))

unfoldable pub sample_laws : IsCrates sample
unfolding ◌>>◌ write_le write_each
sample_laws = record {
  IsIn = λ n. n < 256;
  IsOut = λ n. n < 256;
  IsSaplingV4 = IsParts;
  IsSaplingV5 = λ o. o ≡ none;
  IsOrchardV5 = λ b. IsSmall;
  IsOrchardV6 = λ b pool. IsSmall;
  tx_in = byte-IsCodec;
  tx_out = byte-IsCodec;
  vector = list-IsCodec;
  empty = λ w. refl;
  sapling_v4 = Decodes-read_parts;
  sapling_v4_off = Decodes-pure (record { amount = pos 0 }, [], []);
  sapling_parts = λ b h. rw h refl;
  sapling_v5 = nothing-IsCodec;
  orchard_v5 = λ b. read_small-IsCodec;
  orchard_v6 = λ b pool. Decodes-read_small;
  orchard_v6_exact = λ pool. read_small-IsCodec.exact;
}

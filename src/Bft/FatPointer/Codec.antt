-- ===== src/Bft/FatPointer/Codec.antt =====
-- Laws of `FatPointerToBftBlock::read` and `write`.
use auzum_zcash.Bft.Keys.{write_blake3_hash, write_pub_key_id, write_vote_signature}
use auzum_zcash.Bft.Vote.{write_round_word}
use auzum_zcash.Base.{
  ◌≡◌, ◌≤◌, ◌^◌, refl, arith, List, [], ◌∷◌, length, All, not, ltb, none, ◌↔◌, ◌++◌, Bool-cases,
  inl, inr,
}
use auzum_zcash.Base.Io.{done, write_all, write_len, write_le, ◌>>◌, write_each, Bytes}
use auzum_zcash.Base.Io.Decodes.{
  Decodes, Decodes-len, write_len-length, Decodes-bind, Decodes-last, Decodes-times,
}
use auzum_zcash.Base.Io.Exact.{Exact, Exact-bind, Exact-return, Exact-le, Exact-times, write_laws}
use auzum_zcash.Bft.Keys.Codec.{
  Decodes-read_pub_key_id, Decodes-read_vote_signature, Decodes-read_blake3_hash,
  Exact-read_pub_key_id, Exact-read_vote_signature, Exact-read_blake3_hash,
}
use auzum_zcash.Bft.Vote.Codec.{
  Decodes-read_height, Decodes-read_round_word, Exact-read_height, Exact-read_round_word,
}
use auzum_zcash.Bft.FatPointer.{
  FatPointerSignature, FatPointerToBftBlock, IsEntry, IsFatPointer, read_entry, write_entry,
  read_fat_pointer, write_fat_pointer, fat_pointer_bytes, write_pub_key_id, write_vote_signature,
}

Decodes-read_entry : (s : FatPointerSignature) → IsEntry s → Decodes (write_entry s) read_entry s
unfolding write_entry read_entry
Decodes-read_entry s h =
    Decodes-bind _ (Decodes-read_pub_key_id s.pub_key h.pub_key)
      (Decodes-last _ (Decodes-read_vote_signature s.signature h.signature) refl)

Exact-read_entry : Exact (done []) read_entry write_entry IsEntry
unfolding write_entry read_entry
Exact-read_entry = Exact-bind _ Exact-read_pub_key_id λ k hk.
    Exact-bind _ Exact-read_vote_signature
      λ s hs. Exact-return _ (simp write_laws) (record { pub_key = hk; signature = hs })

entries_decode :
    (xs : List FatPointerSignature)
    → All IsEntry xs
    → All (λ s. Decodes (write_entry s) read_entry s) xs
entries_decode [] h = tt
entries_decode (s ∷ xs) h = (Decodes-read_entry s h.0, entries_decode xs h.1)

-- A fat pointer with at most 65535 entries is written without an error, and reading what was
-- written gives it back, whatever follows.
pub Decodes-read_fat_pointer :
    (p : FatPointerToBftBlock) → IsFatPointer p → Decodes (write_fat_pointer p) read_fat_pointer p
unfolding write_fat_pointer read_fat_pointer
Decodes-read_fat_pointer p h = Decodes-bind _ (Decodes-read_blake3_hash p.block_hash h.block_hash) (
    Decodes-bind _ (Decodes-read_height p.height h.height) (
      Decodes-bind _ (Decodes-read_round_word p.kind p.round h.round) (
        Decodes-bind _ (Decodes-len 2 (length p.signatures) _ h.few) (
          Decodes-last _
            (Decodes-times write_entry read_entry p.signatures
              (entries_decode p.signatures h.signatures))
            refl))))

-- The bytes that a fat pointer is read from are those that it is written to.
pub Exact-read_fat_pointer : Exact (done []) read_fat_pointer write_fat_pointer IsFatPointer
unfolding write_fat_pointer read_fat_pointer
Exact-read_fat_pointer = Exact-bind _ Exact-read_blake3_hash λ b hb.
    Exact-bind _ Exact-read_height λ n hn. Exact-bind _ Exact-read_round_word λ (kind, round) hr.
      Exact-bind _ (Exact-le 2) λ count hc.
        Exact-bind _ (Exact-times count Exact-read_entry) λ signatures (len, hs).
          Exact-return _ (rw (write_len-length 2 count _ signatures len hc) (simp write_laws))
            (record { block_hash = hb; height = hn; round = hr; few = rw len hc; signatures = hs })

write_each-entries :
    (xs : List FatPointerSignature) → (bs : Bytes) × (write_each write_entry xs ≡ done bs)
unfolding write_each write_entry write_pub_key_id write_vote_signature write_all ◌>>◌
write_each-entries [] = ([], refl)
write_each-entries (s ∷ xs) =
    let (rest, e) = write_each-entries xs in
    ((s.pub_key.bytes ++ s.signature.bytes) ++ rest, rw e refl)

-- The writer of a fat pointer fails exactly when there are 65536 entries or more: whatever the other
-- fields are, nothing else that it writes can fail.
pub fat_pointer_bytes_iff :
    (p : FatPointerToBftBlock) → (fat_pointer_bytes p ≡ none) ↔ (2 ^ 16 ≤ length p.signatures)
unfolding write_fat_pointer fat_pointer_bytes write_len write_blake3_hash write_round_word write_le
    write_all ◌>>◌
fat_pointer_bytes_iff p = elim (Bool-cases (not (ltb (length p.signatures) (2 ^ 16)))) [
  | inr fits ↦
      let (rest, e) = write_each-entries p.signatures in
      rw (fits, e, fat_pointer_bytes) (λ t. cc, λ many. absurd (ground arith))
  | inl over ↦ rw (over, fat_pointer_bytes) (λ t. ground arith, λ many. refl)
]

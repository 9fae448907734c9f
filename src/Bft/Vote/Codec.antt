-- ===== src/Bft/Vote/Codec.antt =====
-- Laws of `Vote::to_bytes` and `Vote::from_bytes`.
use Prim.Native.Nat.{bit_and}
use auzum_zcash.Base.{
  ℕ, ◌+◌, ◌^◌, ◌<◌, ◌≡◌, refl, sym, ap, ◌∙◌, arith, false, not, [], ◌∷◌, ◌++◌, Option, none, some,
  length, length-append, Bool-cases, inl, inr, ltb, eq_bytes, eq_bytes_iff,
}
use auzum_zcash.Base.Bits.{bit_and_low31, bit_and_top31, bit_or_top31}
use auzum_zcash.Base.Io.{
  Bytes, IsBytes, Result, ok, err, pure, ◌>>◌, Written, done, write_all, write_u64_le, write_u32_le,
  write_le, to_le_bytes,
}
use auzum_zcash.Base.Io.Words.{length-to_le_bytes}
use auzum_zcash.Base.Io.Decodes.{
  Decodes, Decodes-bytes, Decodes-le, Decodes-bind, Decodes-last, Decodes-whole, done-injective,
}
use auzum_zcash.Base.Io.Exact.{
  Exact, Exact-whole, ok-injective, Exact-bind, Exact-return, Exact-check, Exact-bytes, Exact-le,
  done-nil->>, write_laws,
}
use auzum_zcash.Bft.Keys.{Blake3Hash, IsU32, zero_bytes, write_pub_key_id}
use auzum_zcash.Bft.Keys.Codec.{Decodes-read_pub_key_id, Exact-read_pub_key_id}
use auzum_zcash.Bft.Vote.{
  VoteKind, prevote, precommit, Vote, IsVote, IsValue, IsRound, round_word, to_bytes, from_bytes,
  read_vote, read_height_u64, read_round_word, word_kind, write_round_word, vote_value, value_bytes,
  value_of, vote_bytes, round_mask,
}

-- A height of a u32 is read back from the 8 bytes that it is written to.
pub Decodes-read_height : (h : ℕ) → IsU32 h → Decodes (write_u64_le h) read_height_u64 h
unfolding read_height_u64
Decodes-read_height h p =
    let small : not (ltb h (2 ^ 32)) ≡ false = ground arith in
    Decodes-last _ (Decodes-le 8 h (omega arith)) (rw small)

pub Exact-read_height : Exact (done []) read_height_u64 write_u64_le IsU32
unfolding read_height_u64
Exact-read_height =
    Exact-bind _ (Exact-le 8)
      λ h p. Exact-check _ _ λ c. Exact-return h (sym (done-nil->> (write_u64_le h))) (ground arith)

round_word-prevote : (r : ℕ) → IsRound r → round_word prevote r ≡ r
unfolding round_word
round_word-prevote r h = omega (arith, bit_and_low31 r)

round_word-precommit : (r : ℕ) → IsRound r → round_word precommit r ≡ r + 2 ^ 31
unfolding round_word
round_word-precommit r h =
    let e : bit_and r round_mask ≡ r = omega (arith, bit_and_low31 r) in rw e (bit_or_top31 r h)

pub round_word-lt : (k : VoteKind) (r : ℕ) → IsRound r → round_word k r < 2 ^ 32
round_word-lt prevote r h = omega (arith, round_word-prevote r h)
round_word-lt precommit r h = omega (arith, round_word-precommit r h)

-- The round word gives the kind and the round back.
word_kind-round_word :
    (k : VoteKind) (r : ℕ)
    → IsRound r
    → (word_kind (round_word k r) ≡ k) × (bit_and (round_word k r) round_mask ≡ r)
unfolding word_kind
word_kind-round_word prevote r h =
    rw (round_word-prevote r h) (ground (arith, bit_and_top31 r, bit_and_low31 r))
word_kind-round_word precommit r h =
    rw (round_word-precommit r h)
      (ground (arith, bit_and_top31 (r + 2 ^ 31), bit_and_low31 (r + 2 ^ 31)))

-- Every 32-bit word is the round word of the kind and the round that it is read as.
round_word-word_kind : (w : ℕ) → w < 2 ^ 32 → round_word (word_kind w) (bit_and w round_mask) ≡ w
unfolding word_kind
round_word-word_kind w h = ground (
  arith,
  bit_and_top31 w,
  bit_and_low31 w,
  round_word-prevote (bit_and w round_mask),
  round_word-precommit (bit_and w round_mask),
)

pub Decodes-read_round_word :
    (k : VoteKind) (r : ℕ) → IsRound r → Decodes (write_round_word k r) read_round_word (k, r)
unfolding read_round_word write_round_word
Decodes-read_round_word k r h =
    let (same_kind, same_round) = word_kind-round_word k r h in
    Decodes-last _ (Decodes-le 4 _ (round_word-lt k r h)) (cc (same_kind, same_round))

pub Exact-read_round_word :
    Exact (done []) read_round_word (λ (k, r). write_round_word k r) (λ (k, r). IsRound r)
unfolding read_round_word write_round_word
Exact-read_round_word = Exact-bind _ (Exact-le 4) λ w h.
    Exact-return (word_kind w, bit_and w round_mask)
      (ap write_u32_le (round_word-word_kind w h) ∙ sym (done-nil->> (write_u32_le w)))
      (omega (arith, bit_and_low31 w))

-- A Nil value is written as zeros, and zeros are read as Nil.
vote_value-value_bytes : (o : Option Blake3Hash) → IsValue o → vote_value (value_bytes o) ≡ o
unfolding vote_value
vote_value-value_bytes none h = rw ((eq_bytes_iff zero_bytes zero_bytes).1 refl)
vote_value-value_bytes (some value) h = elim (Bool-cases (eq_bytes value.bytes zero_bytes)) [
  | inl e ↦ absurd (h.1 ((eq_bytes_iff value.bytes zero_bytes).0 e))
  | inr e ↦ rw e
]

value_bytes-IsArray : (o : Option Blake3Hash) → IsValue o → length (value_bytes o) ≡ 32
value_bytes-IsArray none h = refl
value_bytes-IsArray (some value) h = h.0.0

value_bytes-vote_value :
    (bs : Bytes) → IsBytes 32 bs → (value_bytes (vote_value bs) ≡ bs) × IsValue (vote_value bs)
unfolding vote_value
value_bytes-vote_value bs h = elim (Bool-cases (eq_bytes bs zero_bytes)) [
  | inl e ↦ rw e (sym ((eq_bytes_iff bs zero_bytes).0 e), tt)
  | inr e ↦ rw e (refl, (h, λ p. cc (e, (eq_bytes_iff bs zero_bytes).1 p)))
]

-- The fields in the order of the layout.
abbrev write_vote : Vote → Written
write_vote v =
    write_pub_key_id v.validator
    >> (write_all (value_bytes v.value)
        >> (write_u64_le v.height >> write_round_word v.kind v.round))

write_vote-to_bytes : (v : Vote) → write_vote v ≡ done (to_bytes v)
unfolding to_bytes write_pub_key_id write_all write_le write_round_word ◌>>◌
write_vote-to_bytes v = refl

Decodes-read_vote : (v : Vote) → IsVote v → Decodes (write_vote v) read_vote v
unfolding read_vote
Decodes-read_vote v h = Decodes-bind _ (Decodes-read_pub_key_id v.validator h.validator) (
    Decodes-bind _ (Decodes-bytes (value_bytes v.value) (value_bytes-IsArray v.value h.value)) (
      Decodes-bind _ (Decodes-read_height v.height h.height) (
        Decodes-last _ (Decodes-read_round_word v.kind v.round h.round)
          (ap (λ o. pure (record v { value = o })) (vote_value-value_bytes v.value h.value)))))

Exact-read_vote : Exact (done []) read_vote write_vote IsVote
unfolding read_vote
Exact-read_vote = Exact-bind _ Exact-read_pub_key_id λ k hk. Exact-bind _ (Exact-bytes 32) λ bs hb.
    Exact-bind _ Exact-read_height λ n hn. Exact-bind _ Exact-read_round_word λ (kind, round) hr.
      let (same, fits) = value_bytes-vote_value bs hb in
      Exact-return _ (rw same (simp write_laws))
        (record { validator = hk; value = fits; height = hn; round = hr })

pub length-to_bytes : (v : Vote) → IsVote v → length (to_bytes v) ≡ vote_bytes
unfolding to_bytes
length-to_bytes v h = omega (
  arith,
  length-append v.validator.bytes,
  length-append (value_bytes v.value),
  length-append (to_le_bytes 8 v.height),
  h.validator.0,
  value_bytes-IsArray v.value h.value,
  length-to_le_bytes 8 v.height,
  length-to_le_bytes 4 (round_word v.kind v.round),
)

-- A vote whose fields fit their types, and whose value is not the all-zero hash, is read back from
-- its signing layout.
pub from_bytes-to_bytes : (v : Vote) → IsVote v → from_bytes (to_bytes v) ≡ ok v
unfolding from_bytes
from_bytes-to_bytes v h =
    ap value_of (Decodes-whole (Decodes-read_vote v h) (write_vote-to_bytes v))

value_of-ok {ℓ} :
    {A : Type ℓ} (o : Result (A × Bytes)) {a : A}
    → value_of o ≡ ok a
    → (rest : Bytes) × (o ≡ ok (a, rest))
value_of-ok (ok (a, rest)) e = (rest, ap (λ t. ok (t, rest)) (ok-injective e))
value_of-ok (err x) e = cc

nothing_left : (front rest : Bytes) → length (front ++ rest) ≡ length front → front ≡ front ++ rest
nothing_left [] [] h = refl
nothing_left [] (b ∷ rest) h = absurd (omega arith)
nothing_left (b ∷ front) rest h = ap (λ t. b ∷ t) (nothing_left front rest (omega arith))

-- Any 76 bytes that parse as a vote are the signing layout of that vote, which fits its types: no
-- two byte strings parse as one vote.
pub to_bytes-from_bytes :
    (bs : Bytes) (v : Vote)
    → IsBytes vote_bytes bs
    → from_bytes bs ≡ ok v
    → (to_bytes v ≡ bs) × IsVote v
unfolding from_bytes
to_bytes-from_bytes bs v h e =
    let (rest, parsed) = value_of-ok (read_vote bs) e in
    let (front, wrote, split, _, valid) = Exact-whole Exact-read_vote bs h.1 parsed in
    let same : to_bytes v ≡ front = done-injective (sym (write_vote-to_bytes v) ∙ wrote) in
    let len : length (front ++ rest) ≡ length front =
      ap length (sym split) ∙ h.0 ∙ sym (length-to_bytes v valid) ∙ ap length same in
    (same ∙ nothing_left front rest len ∙ sym split, valid)

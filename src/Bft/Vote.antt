-- ===== src/Bft/Vote.antt =====
-- crates/bft_primitives/src/vote.rs: votes, their 76-byte signing layout, and the round word.
pub mod Codec
use Prim.Native.Nat.{bit_and, bit_or}
use auzum_zcash.Base.{
  ℕ, ◌+◌, ◌^◌, ◌<◌, ◌≢◌, Bool, true, false, not, List, ◌++◌, length, Option, none, some, ltb, ◌==◌,
  eq_bytes, if◌then◌else◌,
}
use auzum_zcash.Base.Io.{
  Bytes, IsBytes, IoError, invalid_data, Result, ok, err, Reader, pure, fail, ◌>>=◌, ◌>>◌, Written,
  read_exact, write_all, to_le_bytes, read_u32_le, read_u64_le, write_u32_le,
}
use auzum_zcash.Bft.Keys.{
  PubKeyId, VoteSignature, Blake3Hash, BftHeight, IsU32, zero_bytes, blake3_hash_bytes,
  read_pub_key_id, Ed25519, Verdict, verify_with_namespace,
}

abbrev pub vote_bytes : ℕ
vote_bytes = 76

abbrev pub commit_flag : ℕ
commit_flag = 0x8000_0000

abbrev pub round_mask : ℕ
round_mask = 0x7fff_ffff

-- `Round(u32)`, a 31-bit index.
abbrev pub Round : Type 0
Round = ℕ

abbrev pub IsRound : ℕ → Type 0
IsRound r = r < 2 ^ 31

-- `Round::new`; `none` is the error `InvalidRound`.
unfoldable pub new_round : ℕ → Option Round
new_round round = if ltb round_mask round then none else some round

pub data VoteKind : Type 0 where
  prevote precommit : VoteKind

-- A `value` of `none` is a Nil vote.
pub record Vote : Type 0 where
  pub validator : PubKeyId
  pub value : Option Blake3Hash
  pub height : BftHeight
  pub kind : VoteKind
  pub round : Round

unfoldable pub round_word : VoteKind → Round → ℕ
round_word precommit round = bit_or (bit_and round round_mask) commit_flag
round_word prevote round = bit_and round round_mask

abbrev value_bytes : Option Blake3Hash → Bytes
value_bytes none = zero_bytes
value_bytes (some value) = value.bytes

-- The four slices of the buffer, one behind the other; a Nil value leaves its slice zero.
unfoldable pub to_bytes : Vote → Bytes
to_bytes v =
    v.validator.bytes
    ++ (value_bytes v.value
        ++ (to_le_bytes 8 v.height ++ to_le_bytes 4 (round_word v.kind v.round)))

-- Reads an 8-byte height and narrows it to a u32.
unfoldable pub read_height_u64 : Reader BftHeight
read_height_u64 = do
  height ← read_u64_le
  if not (ltb height (2 ^ 32)) then fail (invalid_data "BFT height out of range") else pure height

unfoldable pub word_kind : ℕ → VoteKind
word_kind word = if not (bit_and word commit_flag == 0) then precommit else prevote

unfoldable pub read_round_word : Reader (VoteKind × Round)
read_round_word = do word ← read_u32_le; pure (word_kind word, bit_and word round_mask)

unfoldable pub write_round_word : VoteKind → Round → Written
write_round_word kind round = write_u32_le (round_word kind round)

-- A zero value hash is a Nil vote.
unfoldable pub vote_value : Bytes → Option Blake3Hash
vote_value bytes = if eq_bytes bytes zero_bytes then none else some (record { bytes = bytes })

unfoldable pub read_vote : Reader Vote
read_vote = do
  validator ← read_pub_key_id
  value_bytes ← read_exact blake3_hash_bytes
  height ← read_height_u64
  (kind, round) ← read_round_word
  pure (record {
    validator = validator;
    value = vote_value value_bytes;
    height = height;
    kind = kind;
    round = round;
  })

abbrev pub value_of {ℓ} : {A : Type ℓ} → Result (A × Bytes) → Result A
value_of (ok (a, rest)) = ok a
value_of (err e) = err e

-- The cursor over the 76 bytes is dropped with what it has not read.
unfoldable pub from_bytes : Bytes → Result Vote
from_bytes bytes = value_of (read_vote bytes)

pub record SignedVote : Type 0 where
  pub vote : Vote
  pub signature : VoteSignature

unfoldable pub verify_signed_vote : Ed25519 → SignedVote → Option Blake3Hash → Verdict
verify_signed_vote ed v namespace =
    verify_with_namespace ed v.signature v.vote.validator (to_bytes v.vote) namespace

-- The ranges of the fields' types. A value of zeros is no hash that a vote carries: its bytes are
-- those of a Nil vote.
abbrev pub IsValue : Option Blake3Hash → Type 0
IsValue none = Unit {0}
IsValue (some value) = IsBytes 32 value.bytes × (value.bytes ≢ zero_bytes)

pub record IsVote (v : Vote) : Type 0 where
  pub validator : IsBytes 32 v.validator.bytes
  pub value : IsValue v.value
  pub height : IsU32 v.height
  pub round : IsRound v.round

-- ===== src/Bft/Keys/Codec.antt =====
-- Laws of the codecs of keys, signatures and hashes.
use auzum_zcash.Base.{refl, sym, []}
use auzum_zcash.Base.Io.{IsBytes, write_all, done}
use auzum_zcash.Base.Io.Decodes.{Decodes, Decodes-bytes, Decodes-last}
use auzum_zcash.Base.Io.Exact.{Exact, Exact-bind, Exact-return, Exact-bytes, done-nil->>}
use auzum_zcash.Bft.Keys.{
  PubKeyId, VoteSignature, Blake3Hash, read_pub_key_id, write_pub_key_id, read_vote_signature,
  write_vote_signature, read_blake3_hash, write_blake3_hash,
}

pub Decodes-read_pub_key_id :
    (k : PubKeyId) → IsBytes 32 k.bytes → Decodes (write_pub_key_id k) read_pub_key_id k
unfolding read_pub_key_id write_pub_key_id
Decodes-read_pub_key_id k h = Decodes-last _ (Decodes-bytes k.bytes h.0) refl

pub Decodes-read_vote_signature :
    (s : VoteSignature)
    → IsBytes 64 s.bytes
    → Decodes (write_vote_signature s) read_vote_signature s
unfolding read_vote_signature write_vote_signature
Decodes-read_vote_signature s h = Decodes-last _ (Decodes-bytes s.bytes h.0) refl

pub Decodes-read_blake3_hash :
    (b : Blake3Hash) → IsBytes 32 b.bytes → Decodes (write_blake3_hash b) read_blake3_hash b
unfolding read_blake3_hash write_blake3_hash
Decodes-read_blake3_hash b h = Decodes-last _ (Decodes-bytes b.bytes h.0) refl

pub Exact-read_pub_key_id :
    Exact (done []) read_pub_key_id write_pub_key_id (λ (k : PubKeyId). IsBytes 32 k.bytes)
unfolding read_pub_key_id write_pub_key_id
Exact-read_pub_key_id =
    Exact-bind _ (Exact-bytes 32)
      λ bs h. Exact-return (record { bytes = bs }) (sym (done-nil->> (write_all bs))) h

pub Exact-read_vote_signature :
    Exact
      (done [])
      read_vote_signature
      write_vote_signature
      (λ (s : VoteSignature). IsBytes 64 s.bytes)
unfolding read_vote_signature write_vote_signature
Exact-read_vote_signature =
    Exact-bind _ (Exact-bytes 64)
      λ bs h. Exact-return (record { bytes = bs }) (sym (done-nil->> (write_all bs))) h

pub Exact-read_blake3_hash :
    Exact (done []) read_blake3_hash write_blake3_hash (λ (b : Blake3Hash). IsBytes 32 b.bytes)
unfolding read_blake3_hash write_blake3_hash
Exact-read_blake3_hash =
    Exact-bind _ (Exact-bytes 32)
      λ bs h. Exact-return (record { bytes = bs }) (sym (done-nil->> (write_all bs))) h

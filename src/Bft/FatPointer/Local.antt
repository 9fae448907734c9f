-- ===== src/Bft/FatPointer/Local.antt =====
-- The readers of fat pointers and of their parts, as readers that do not look ahead.
use auzum_zcash.Base.Io.Local.{Local, local_rules}
use auzum_zcash.Bft.Keys.{read_pub_key_id, read_vote_signature, read_blake3_hash}
use auzum_zcash.Bft.Vote.{read_height_u64, read_round_word}
use auzum_zcash.Bft.FatPointer.{read_entry, read_fat_pointer}

pub Local-read_pub_key_id : Local read_pub_key_id
unfolding read_pub_key_id
Local-read_pub_key_id = search local_rules

Local-read_vote_signature : Local read_vote_signature
unfolding read_vote_signature
Local-read_vote_signature = search local_rules

Local-read_blake3_hash : Local read_blake3_hash
unfolding read_blake3_hash
Local-read_blake3_hash = search local_rules

pub Local-read_height : Local read_height_u64
unfolding read_height_u64
Local-read_height = search local_rules

Local-read_round_word : Local read_round_word
unfolding read_round_word
Local-read_round_word = search local_rules

Local-read_entry : Local read_entry
unfolding read_entry
Local-read_entry = search (local_rules, Local-read_pub_key_id, Local-read_vote_signature)

pub Local-read_fat_pointer : Local read_fat_pointer
unfolding read_fat_pointer
Local-read_fat_pointer =
    search
      (
        local_rules, Local-read_blake3_hash, Local-read_height, Local-read_round_word,
        Local-read_entry,
      )
      depth 12

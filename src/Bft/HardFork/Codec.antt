-- ===== src/Bft/HardFork/Codec.antt =====
-- The byte format of hardfork rules.
use auzum_zcash.Base.{ℕ, ◌≡◌, ◌^◌, refl, sym, arith, [], length, All-imp, not, ltb, false}
use auzum_zcash.Base.Io.{done, write_u64_le}
use auzum_zcash.Base.Io.Decodes.{
  Decodes, Decodes-le, Decodes-len, write_len-length, Decodes-bind, Decodes-last, Decodes-check,
  Decodes-times,
}
use auzum_zcash.Base.Io.Exact.{
  Exact, Exact-bind, Exact-return, Exact-check, Exact-le, Exact-times, write_laws, done-nil->>,
}
use auzum_zcash.Bft.Keys.{IsU32, read_pub_key_id, write_pub_key_id}
use auzum_zcash.Bft.Keys.Codec.{Decodes-read_pub_key_id, Exact-read_pub_key_id}
use auzum_zcash.Bft.Vote.Codec.{Decodes-read_height, Exact-read_height}
use auzum_zcash.Bft.HardFork.{
  HardForkConfig, IsHardFork, read_block_height_u64, read_hard_fork, write_hard_fork,
  max_terminated_finalizers,
}

pub Decodes-read_block_height : (h : ℕ) → IsU32 h → Decodes (write_u64_le h) read_block_height_u64 h
unfolding read_block_height_u64
Decodes-read_block_height h p =
    let small : not (ltb h (2 ^ 32)) ≡ false = ground arith in
    Decodes-last _ (Decodes-le 8 h (omega arith)) (rw small)

pub Exact-read_block_height : Exact (done []) read_block_height_u64 write_u64_le IsU32
unfolding read_block_height_u64
Exact-read_block_height =
    Exact-bind _ (Exact-le 8)
      λ h p. Exact-check _ _ λ c. Exact-return h (sym (done-nil->> (write_u64_le h))) (ground arith)

-- A rule with at most 4096 finalizers is written without an error and read back, whatever follows.
pub Decodes-read_hard_fork :
    (c : HardForkConfig) → IsHardFork c → Decodes (write_hard_fork c) read_hard_fork c
unfolding write_hard_fork read_hard_fork
Decodes-read_hard_fork c h =
    let keys = c.terminated_finalizers in
    Decodes-bind _ (Decodes-read_block_height c.pow_activation_height h.pow_activation_height) (
      Decodes-bind _ (Decodes-read_height c.bft_certificate_height h.bft_certificate_height) (
        Decodes-bind _ (Decodes-len 4 (length keys) _ (omega (arith, h.few))) (
          Decodes-check _ _ (ground (arith, h.few)) (
            Decodes-last _
              (Decodes-times write_pub_key_id read_pub_key_id keys
                (All-imp Decodes-read_pub_key_id keys h.terminated_finalizers))
              refl))))

-- The bytes that a rule is read from are those that it is written to.
pub Exact-read_hard_fork : Exact (done []) read_hard_fork write_hard_fork IsHardFork
unfolding write_hard_fork read_hard_fork
Exact-read_hard_fork = Exact-bind _ Exact-read_block_height λ pow hp.
    Exact-bind _ Exact-read_height λ bft hb. Exact-bind _ (Exact-le 4) λ count hc.
      Exact-check (ltb max_terminated_finalizers count) _ λ few.
        Exact-bind _ (Exact-times count Exact-read_pub_key_id) λ keys (len, hk).
          Exact-return _ (rw (write_len-length 4 count _ keys len hc) (simp write_laws)) (record {
            pow_activation_height = hp;
            bft_certificate_height = hb;
            few = rw len (ground arith);
            terminated_finalizers = hk;
          })

-- ===== src/Bft/PowHeader/Codec.antt =====
-- Laws of the header codec of crates/bft_primitives/src/block.rs.
use auzum_zcash.Base.{
  ℕ, ◌^◌, ◌≤◌, ◌≡◌, ◌⊎◌, refl, sym, ap, ◌∙◌, arith, Bool, true, false, not, List, [], ◌∷◌, ◌++◌,
  length, length-append, zero, suc, take, drop, All, append_assoc, ltb,
}
use auzum_zcash.Base.Io.{Bytes, IsByte, ok, ◌>>◌, Written, done, failed, write_all, from_le_bytes}
use auzum_zcash.Base.Io.Decodes.{Decodes, take-append, drop-append, done-injective}
use auzum_zcash.Base.Io.Exact.{
  Exact, Exact-if, Exact-bind, Exact-return, Exact-check, Exact-collect, Exact-bytes, done-nil->>,
}
use auzum_zcash.Base.Io.Local.{
  Local, local_rules, Local-bind, Local-bytes, Local-if, Local-fail, Exact-Decodes,
}
use auzum_zcash.Bft.FatPointer.{write_fat_pointer}
use auzum_zcash.Bft.FatPointer.Codec.{Exact-read_fat_pointer}
use auzum_zcash.Bft.FatPointer.Local.{Local-read_fat_pointer}
use auzum_zcash.Bft.PowHeader.{
  PowCrates, EncodedPowHeader, IsPowHeader, read_solution, read_pow_header, write_pow_header,
  read_fat_pointer_bytes, has_fat_pointer, version, solution, is_solution_size, min_header_version,
  solution_bytes_mainnet, solution_bytes_regtest,
}

-- The bytes that are kept of a fat pointer are those that it was read from.
Exact-read_fat_pointer_bytes :
    (crosslink : Bool) (v : ℕ)
    → Exact (done []) (read_fat_pointer_bytes crosslink v) write_all (λ bs. Unit {0})
unfolding read_fat_pointer_bytes write_all
Exact-read_fat_pointer_bytes crosslink v =
    Exact-if (has_fat_pointer crosslink v)
      (Exact-bind _ Exact-read_fat_pointer λ p h.
        Exact-collect (write_fat_pointer p) _
          λ bs e. Exact-return bs (sym (done-nil->> (write_fat_pointer p) ∙ e)) tt)
      (Exact-return [] refl tt)

Local-read_fat_pointer_bytes :
    (crosslink : Bool) (v : ℕ) → Local (read_fat_pointer_bytes crosslink v)
unfolding read_fat_pointer_bytes
Local-read_fat_pointer_bytes crosslink v = search (local_rules, Local-read_fat_pointer)

take_prefix {ℓ} :
    {A : Type ℓ} (n : ℕ) (xs ys : List A) → n ≤ length xs → take n (xs ++ ys) ≡ take n xs
take_prefix zero xs ys h = refl
take_prefix (suc n) [] ys h = absurd (omega arith)
take_prefix (suc n) (x ∷ xs) ys h = ap (λ t. x ∷ t) (take_prefix n xs ys (omega arith))

sized :
    (n : ℕ)
    → is_solution_size n ≡ true
    → (n ≡ solution_bytes_mainnet) ⊎ (n ≡ solution_bytes_regtest)
sized n h = ground arith

abbrev kept : Bytes → Bytes → Bytes → ℕ → EncodedPowHeader
kept head sol tail n = record {
  bytes = head ++ (sol ++ tail);
  solution_start = length head;
  solution_len = n;
}

-- What was written behind the prefix stands behind the prefix.
behind :
    (prefix : Bytes) (w : Written) {head : Bytes}
    → (write_all prefix >> w) ≡ done head
    → (more : Bytes) × (head ≡ prefix ++ more)
unfolding ◌>>◌ write_all
behind prefix (done more) e = (more, sym (done-injective e))
behind prefix (failed more x) e = cc

kept-IsPowHeader :
    (prefix more sol tail : Bytes) (n : ℕ)
    → length prefix ≡ 140
    → ltb (from_le_bytes (take 4 prefix)) min_header_version ≡ false
    → length sol ≡ n
    → not (is_solution_size n) ≡ false
    → IsPowHeader (kept (prefix ++ more) sol tail n)
unfolding version solution
kept-IsPowHeader prefix more sol tail n hp known hs size =
    let rest = sol ++ tail in
    let same : take 4 ((prefix ++ more) ++ rest) ≡ take 4 prefix =
      ap (take 4) (append_assoc prefix more rest)
      ∙ take_prefix 4 prefix (more ++ rest) (omega arith) in
    let slice : take n (drop (length (prefix ++ more)) ((prefix ++ more) ++ rest)) ≡ sol =
      ap (take n) (drop-append (prefix ++ more) rest)
      ∙ ap (λ t. take t rest) (sym hs)
      ∙ take-append sol tail in
    record {
      known_version = rw same (ground arith);
      whole_prefix = omega (arith, length-append (prefix ++ more) rest, length-append prefix more);
      whole_solution = ap length slice ∙ hs;
      known_size = sized n (ground arith);
    }

-- `canonical` and `no_look_ahead` are what zcash_encoding documents of CompactSize: it reads only
-- the encoding that it writes, and nothing behind it.
module _ (crates : PowCrates) (crosslink : Bool)
    (canonical : Exact (done []) crates.read_compact_size crates.write_compact_size (λ n. Unit {0}))
    (no_look_ahead : Local crates.read_compact_size) where
  write_kept :
      (prefix : Bytes) (n : ℕ) (head sol tail : Bytes)
      → (write_all prefix >> crates.write_compact_size n) ≡ done head
      → write_pow_header (kept head sol tail n) ≡ (
          (((done [] >> write_all prefix) >> crates.write_compact_size n) >> write_all sol)
          >> write_all tail)
  unfolding write_pow_header
  write_kept prefix n head sol tail e =
      rw (done-nil->>, e) (unfold ◌>>◌ write_all in ap done (sym (append_assoc head sol tail)))

  Exact-read_solution :
      (prefix : Bytes) (n : ℕ)
      → length prefix ≡ 140
      → ltb (from_le_bytes (take 4 prefix)) min_header_version ≡ false
      → not (is_solution_size n) ≡ false
      → Exact
          ((done [] >> write_all prefix) >> crates.write_compact_size n)
          (read_solution crates crosslink prefix n)
          write_pow_header
          IsPowHeader
  unfolding read_solution
  Exact-read_solution prefix n long known size = Exact-collect _ _ λ head eh.
      Exact-bind _ (Exact-bytes n) λ sol hs.
        Exact-bind _ (Exact-read_fat_pointer_bytes crosslink (from_le_bytes (take 4 prefix)))
          λ tail _.
            let (more, split) = behind prefix (crates.write_compact_size n) eh in
            Exact-return (kept head sol tail n) (write_kept prefix n head sol tail eh)
              (rw split (kept-IsPowHeader prefix more sol tail n long known hs.0 size))

  -- The bytes that are kept of a header are those that it was read from; its version is known, its
  -- prefix is whole, and the solution that it gives has the length that it was declared with.
  pub Exact-read_pow_header :
      Exact (done []) (read_pow_header crates crosslink) write_pow_header IsPowHeader
  unfolding read_pow_header
  Exact-read_pow_header = Exact-bind _ (Exact-bytes 140) λ prefix hp. Exact-check _ _ λ known.
      Exact-bind _ canonical λ n _. Exact-check (not (ltb n (2 ^ 64))) _ λ _.
        Exact-check (not (is_solution_size n)) _
          λ size. Exact-read_solution prefix n hp.0 known size

  Local-read_solution : (prefix : Bytes) (n : ℕ) → Local (read_solution crates crosslink prefix n)
  unfolding read_solution
  Local-read_solution prefix n = search (local_rules, Local-read_fat_pointer_bytes)

  pub Local-read_pow_header : Local (read_pow_header crates crosslink)
  unfolding read_pow_header
  Local-read_pow_header = Local-bind _ (Local-bytes 140) λ prefix. Local-if _ (Local-fail _) (
      Local-bind _ no_look_ahead λ n.
        Local-if (not (ltb n (2 ^ 64))) (Local-fail _)
          (Local-if (not (is_solution_size n)) (Local-fail _) (Local-read_solution prefix n)))

  -- A header that was read is written without an error, and reading what was written gives it
  -- back, whatever follows.
  pub read_pow_header-again :
      (bs : Bytes) (h : EncodedPowHeader) (rest : Bytes)
      → All IsByte bs
      → read_pow_header crates crosslink bs ≡ ok (h, rest)
      → Decodes (write_pow_header h) (read_pow_header crates crosslink) h
  read_pow_header-again bs h rest hb e =
      Exact-Decodes Exact-read_pow_header Local-read_pow_header bs hb e

-- ===== src/Base/Io/Decodes.antt =====
-- Total round trips: a value is written without an error, and reading what was written gives it
-- back and leaves whatever follows. The rules follow the writers and readers as they are composed.
use auzum_zcash.Base.{
  ℕ, zero, suc, not, ◌*◌, ◌^◌, ◌<◌, ◌≡◌, refl, ap, arith, List, [], ◌∷◌, ◌++◌, append_assoc,
  append-nil, sym, subst, ◌∙◌, length, take, drop, length-append, All, Bool, false, if◌then◌else◌,
  ltb,
}
use auzum_zcash.Base.Io.{
  Bytes, IsArray, IoError, ok, Reader, pure, fail, ◌>>=◌, ◌>>◌, Written, done, failed, read_exact,
  write_all, to_le_bytes, read_le, write_le, write_len, read_times, write_each,
}
use Prim.Native.String.{String}
use native.Mathlib.Nat.{pow-zero, pow-suc, mul_comm}
use auzum_zcash.Base.Io.Words.{word_bound, length-to_le_bytes, from_le_bytes-to_le_bytes}

pub record Decodes {ℓ} {A : Type ℓ} (w : Written) (r : Reader A) (a : A) : Type ℓ where
  pub bytes : Bytes
  pub wrote : w ≡ done bytes
  pub back : (rest : Bytes) → r (bytes ++ rest) ≡ ok (a, rest)

pub take-append {ℓ} : {A : Type ℓ} (xs ys : List A) → take (length xs) (xs ++ ys) ≡ xs
take-append [] ys = refl
take-append (x ∷ xs) ys = ap (λ t. x ∷ t) (take-append xs ys)

pub drop-append {ℓ} : {A : Type ℓ} (xs ys : List A) → drop (length xs) (xs ++ ys) ≡ ys
drop-append [] ys = refl
drop-append (x ∷ xs) ys = drop-append xs ys

enough : (xs ys : Bytes) → ltb (length (xs ++ ys)) (length xs) ≡ false
enough xs ys = ground (arith, length-append xs ys)

pub read_exact-append :
    (n : ℕ) (bs rest : Bytes) → length bs ≡ n → read_exact n (bs ++ rest) ≡ ok (bs, rest)
unfolding read_exact
read_exact-append n bs rest h =
    rw (← h) (rw (enough bs rest) (rw (take-append bs rest, drop-append bs rest)))

pub Decodes-bytes : {n : ℕ} (bs : Bytes) → IsArray n bs → Decodes (write_all bs) (read_exact n) bs
unfolding write_all
Decodes-bytes {n} bs h = record {
  bytes = bs;
  wrote = refl;
  back = λ rest. read_exact-append n bs rest h;
}

pub Decodes-le : (k v : ℕ) → v < word_bound k → Decodes (write_le k v) (read_le k) v
unfolding write_le read_le
Decodes-le k v h = record {
  bytes = to_le_bytes k v;
  wrote = refl;
  back = λ rest.
      rw (read_exact-append k (to_le_bytes k v) rest (length-to_le_bytes k v))
        (rw (from_le_bytes-to_le_bytes k v h));
}

-- A length that fits is written as it stands.
pub write_len-eq-write_le :
    (k n : ℕ) (message : String) → n < 256 ^ k → write_len k n message ≡ write_le k n
unfolding write_len
write_len-eq-write_le k n message h =
    let fits : not (ltb n (256 ^ k)) ≡ false = ground arith in rw fits

pub write_len-length {ℓ} :
    {A : Type ℓ} (k count : ℕ) (message : String) (xs : List A)
    → length xs ≡ count
    → count < 256 ^ k
    → write_len k (length xs) message ≡ write_le k count
write_len-length k count message xs e h = rw e (write_len-eq-write_le k count message h)

256-pow : (k : ℕ) → 256 ^ k ≡ word_bound k
256-pow zero = pow-zero 256
256-pow (suc k) = pow-suc 256 k ∙ mul_comm (256 ^ k) 256 ∙ ap (λ n. 256 * n) (256-pow k)

pub Decodes-len :
    (k n : ℕ) (message : String) → n < 256 ^ k → Decodes (write_len k n message) (read_le k) n
Decodes-len k n message h =
    rw (write_len-eq-write_le k n message h) (Decodes-le k n (rw (256-pow k) at h))

abbrev appended : Written → Bytes
appended (done bs) = bs
appended (failed bs e) = bs

pub done-injective : {bs cs : Bytes} → done bs ≡ done cs → bs ≡ cs
done-injective p = ap appended p

module _ {ℓ κ} {A : Type ℓ} {B : Type κ} where
  -- One write and one read, with what comes after them.
  pub Decodes-bind :
      {v w : Written} {r : Reader A} (f : A → Reader B) {a : A} {b : B}
      → Decodes v r a
      → Decodes w (f a) b
      → Decodes (v >> w) (r >>= f) b
  unfolding ◌>>=◌ ◌>>◌
  Decodes-bind f first next = record {
    bytes = first.bytes ++ next.bytes;
    wrote = rw (first.wrote, next.wrote);
    back = λ rest.
        rw (append_assoc first.bytes next.bytes rest, first.back (next.bytes ++ rest))
          (next.back rest);
  }

  -- The last read, and the value that is returned.
  pub Decodes-last :
      {w : Written} {r : Reader A} (f : A → Reader B) {a : A} {b : B}
      → Decodes w r a
      → f a ≡ pure b
      → Decodes w (r >>= f) b
  unfolding ◌>>=◌ pure
  Decodes-last f {b} only e = record {
    bytes = only.bytes;
    wrote = only.wrote;
    back = λ rest. rw (only.back rest) (ap (λ (t : Reader B). t rest) e);
  }

module _ {ℓ} {A : Type ℓ} where
  pub Decodes-pure : (a : A) → Decodes (done []) (pure a) a
  unfolding pure
  Decodes-pure a = record { bytes = []; wrote = refl; back = λ rest. refl }

  -- A check that passes.
  pub Decodes-check :
      {w : Written} {r : Reader A} {a : A} (c : Bool) (e : IoError)
      → c ≡ false
      → Decodes w r a
      → Decodes w (if c then fail e else r) a
  Decodes-check c e p d = rw p d

module _ {ℓ} {A : Type ℓ} where
  pub Decodes-times :
      (w : A → Written) (r : Reader A) (xs : List A)
      → All (λ a. Decodes (w a) r a) xs
      → Decodes (write_each w xs) (read_times (length xs) r) xs
  unfolding write_each read_times
  Decodes-times w r [] h = Decodes-pure []
  Decodes-times w r (a ∷ xs) h = Decodes-bind _ h.0 (Decodes-last _ (Decodes-times w r xs h.1) refl)

-- What is written, read with nothing behind it.
pub Decodes-whole {ℓ} :
    {A : Type ℓ} {w : Written} {r : Reader A} {a : A} {bs : Bytes}
    → Decodes w r a
    → w ≡ done bs
    → r bs ≡ ok (a, [])
Decodes-whole {r} {a} d e =
    subst (λ t. r t ≡ ok (a, [])) (done-injective (sym d.wrote ∙ e)) (rw append-nil at (d.back []))

-- ===== src/Base/Io/Exact.antt =====
-- Canonical encodings: whatever a reader accepts is, byte for byte, what the writer makes of the
-- value that was read, and that value has the bounds of its type. The rules follow the readers.
use auzum_zcash.Base.{
  ℕ, zero, suc, ◌≤◌, ◌<◌, ◌≡◌, refl, sym, ap, ◌∙◌, subst, arith, [], ◌∷◌, ◌++◌, append_assoc,
  append-nil, length, take, drop, length-take, take-append-drop, All, All-take, All-drop, Bool,
  true, false, if◌then◌else◌,
}
use auzum_zcash.Base.Io.{
  Bytes, IsByte, IsBytes, IoError, Result, after, ok, err, Reader, pure, fail, collect, ◌>>=◌, ◌>>◌,
  Written, done, failed, read_exact, write_all, to_le_bytes, from_le_bytes, read_le, write_le,
  read_times, write_each,
}
use auzum_zcash.Base.Io.Words.{word_bound, from_le_bytes-lt, to_le_bytes-from_le_bytes}

-- `before` is what the writer makes of the values that were read earlier.
pub record Exact {ℓ κ} {A : Type ℓ} (before : Written) (r : Reader A) (w : A → Written)
    (P : A → Type κ) : Type (ℓ ⊔ κ) where
  pub at :
      (bs : Bytes)
      → All IsByte bs
      → (a : A) (rest : Bytes) → r bs ≡ ok (a, rest)
      → (front : Bytes) × (w a ≡ (before >> done front))
        × (bs ≡ front ++ rest)
        × All IsByte rest
        × P a

pub >>-assoc : (u v w : Written) → ((u >> v) >> w) ≡ (u >> (v >> w))
unfolding ◌>>◌
>>-assoc (done a) (done b) (done c) = ap done (append_assoc a b c)
>>-assoc (done a) (done b) (failed c e) = ap (λ t. failed t e) (append_assoc a b c)
>>-assoc (done a) (failed b e) w = refl
>>-assoc (failed a e) v w = refl

pub done-nil->> : (w : Written) → (done [] >> w) ≡ w
unfolding ◌>>◌
done-nil->> (done a) = refl
done-nil->> (failed a e) = refl

pub >>-done-nil : (w : Written) → (w >> done []) ≡ w
unfolding ◌>>◌
>>-done-nil (done a) = ap done (append-nil a)
>>-done-nil (failed a e) = refl

pub ruleset write_laws = (>>-assoc, done-nil->>, >>-done-nil)

abbrev taken {ℓ} : {A : Type ℓ} → A → Result A → A
taken d (ok a) = a
taken d (err e) = d

pub ok-injective {ℓ} : {A : Type ℓ} {a b : A} → ok a ≡ ok b → a ≡ b
ok-injective {a} p = ap (taken a) p

pub after-ok {ℓ κ} :
    {A : Type ℓ} {B : Type κ} (o : Result (A × Bytes)) (f : A → Reader B) {b : B} {rest : Bytes}
    → after o f ≡ ok (b, rest)
    → (a : A) × (mid : Bytes) × (o ≡ ok (a, mid)) × (f a mid ≡ ok (b, rest))
after-ok (ok (a, mid)) f h = (a, mid, refl, h)
after-ok (err e) f h = cc

module _ {ℓ κ ι ο} {A : Type ℓ} {B : Type κ} {P : A → Type ι} {Q : B → Type ο} where
  -- The value that the first read gives, with the bounds of its type, goes on to the next.
  pub Exact-bind :
      {before : Written} {r : Reader A} {v : A → Written} (f : A → Reader B) {w : B → Written}
      → Exact (done []) r v P
      → ((a : A) → P a → Exact (before >> v a) (f a) w Q)
      → Exact before (r >>= f) w Q
  unfolding ◌>>=◌
  Exact-bind {before} {r} {v} f {w} first next = record {
    at = λ bs hb b rest e.
        let (a, mid, ea, eb) = after-ok (r bs) f e in
        let (front, wa, split, hm, pa) = first.at bs hb a mid ea in
        let (back, wb, split', hr, qb) = (next a pa).at mid hm b rest eb in
        (
          front ++ back,
          wb ∙ rw (wa, done-nil->>, >>-assoc) (unfold ◌>>◌ in refl),
          split ∙ ap (λ t. front ++ t) split' ∙ sym (append_assoc front back rest),
          hr,
          qb,
        );
  }

>>=-assoc {ℓ κ ι} :
    {A : Type ℓ} {B : Type κ} {C : Type ι} (x : Result (A × Bytes)) (f : A → Reader B)
    (g : B → Reader C)
    → after (after x f) g ≡ after x (λ a. f a >>= g)
unfolding ◌>>=◌
>>=-assoc (ok (a, rest)) f g = refl
>>=-assoc (err e) f g = refl

-- A read in two steps, within a longer one.
pub Exact-nested {ℓ κ ι ο} :
    {A : Type ℓ} {B : Type κ} {C : Type ι} {P : C → Type ο} {before : Written} {w : C → Written}
    (r : Reader A) (f : A → Reader B) (g : B → Reader C)
    → Exact before (r >>= λ a. f a >>= g) w P
    → Exact before (r >>= f >>= g) w P
unfolding ◌>>=◌
Exact-nested r f g x = record {
  at = λ bs hb c rest e. x.at bs hb c rest (sym (>>=-assoc (r bs) f g) ∙ e);
}

module _ {ℓ κ} {A : Type ℓ} {P : A → Type κ} where
  pub Exact-return :
      {before : Written} {w : A → Written} (a : A) → w a ≡ before → P a → Exact before (pure a) w P
  unfolding pure
  Exact-return {before} {w} a e pa = record {
    at = λ bs hb b rest q.
        subst
          (λ (t : A × Bytes).
            (front : Bytes) × (w t.0 ≡ (before >> done front))
            × (bs ≡ front ++ t.1)
            × All IsByte t.1
            × P t.0)
          (ok-injective q) ([], e ∙ sym (>>-done-nil before), refl, hb, pa);
  }

  -- A check that ends the read if it is true.
  pub Exact-check :
      {before : Written} {r : Reader A} {w : A → Written} (c : Bool) (e : IoError)
      → (c ≡ false → Exact before r w P)
      → Exact before (if c then fail e else r) w P
  unfolding fail
  Exact-check true e next = record { at = λ bs hb a rest q. cc }
  Exact-check false e next = next refl

  pub Exact-fail : {before : Written} {w : A → Written} (e : IoError) → Exact before (fail e) w P
  unfolding fail
  Exact-fail e = record { at = λ bs hb a rest q. cc }

  pub Exact-if :
      {before : Written} {r s : Reader A} {w : A → Written} (c : Bool)
      → Exact before r w P
      → Exact before s w P
      → Exact before (if c then r else s) w P
  Exact-if true x y = x
  Exact-if false x y = y

  -- A test whose outcome the branches use.
  pub Exact-branch :
      {before : Written} {r s : Reader A} {w : A → Written} (c : Bool)
      → (c ≡ true → Exact before r w P)
      → (c ≡ false → Exact before s w P)
      → Exact before (if c then r else s) w P
  Exact-branch true x y = x refl
  Exact-branch false x y = y refl

  -- What a write into a buffer collects.
  pub Exact-collect :
      {before : Written} (v : Written) (f : Bytes → Reader A) {w : A → Written}
      → ((bs : Bytes) → v ≡ done bs → Exact before (f bs) w P)
      → Exact before (collect v >>= f) w P
  unfolding collect ◌>>=◌
  Exact-collect (done bs) f next = next bs refl
  Exact-collect (failed bs e) f next = record { at = λ cs hb a rest q. cc }

  pub Exact-weaken {ι} :
      {Q : A → Type ι} {before : Written} {r : Reader A} {w : A → Written}
      → Exact before r w P
      → ((a : A) → P a → Q a)
      → Exact before r w Q
  Exact-weaken x imp = record {
    at = λ bs hb a rest e.
        let (front, wa, split, hr, pa) = x.at bs hb a rest e in (front, wa, split, hr, imp a pa);
  }

pub read_exact-ok :
    (n : ℕ) (bs : Bytes) {front rest : Bytes}
    → read_exact n bs ≡ ok (front, rest)
    → (n ≤ length bs) × (take n bs ≡ front) × (drop n bs ≡ rest)
unfolding read_exact
read_exact-ok n bs e = ground arith

pub Exact-bytes : (n : ℕ) → Exact (done []) (read_exact n) write_all (IsBytes n)
unfolding write_all
Exact-bytes n = record {
  at = λ bs hb front rest e.
      let (long, t, d) = read_exact-ok n bs e in
      (
        front,
        sym (done-nil->> (done front)),
        sym (take-append-drop n bs) ∙ rw (t, d),
        subst (All IsByte) d (All-drop IsByte n bs hb),
        (ap length (sym t) ∙ length-take n bs long, subst (All IsByte) t (All-take IsByte n bs hb)),
      );
}

pub Exact-le : (k : ℕ) → Exact (done []) (read_le k) (write_le k) (λ v. v < word_bound k)
unfolding read_le write_le
Exact-le k = Exact-bind _ (Exact-bytes k) λ bs (len, hb).
    Exact-return (from_le_bytes bs)
      (ap write_all
          (ap (λ n. to_le_bytes n (from_le_bytes bs)) (sym len) ∙ to_le_bytes-from_le_bytes bs hb)
        ∙ sym (done-nil->> (write_all bs)))
      (subst (λ n. from_le_bytes bs < word_bound n) len (from_le_bytes-lt bs hb))

module _ {ℓ κ} {A : Type ℓ} {P : A → Type κ} {r : Reader A} {w : A → Written} where
  pub Exact-times :
      (n : ℕ)
      → Exact (done []) r w P
      → Exact (done []) (read_times n r) (write_each w) (λ xs. (length xs ≡ n) × All P xs)
  unfolding read_times write_each
  Exact-times zero x = Exact-return [] refl (refl, tt)
  Exact-times (suc n) x = Exact-bind _ x λ a pa.
      Exact-bind _ (Exact-times n x)
        λ xs (len, ps). Exact-return (a ∷ xs) (simp write_laws) (ap suc len, (pa, ps))

-- What was read, with nothing before it.
pub Exact-whole {ℓ κ} :
    {A : Type ℓ} {P : A → Type κ} {r : Reader A} {w : A → Written}
    → Exact (done []) r w P
    → (bs : Bytes) → All IsByte bs
    → {a : A} {rest : Bytes} → r bs ≡ ok (a, rest)
    → (front : Bytes) × (w a ≡ done front) × (bs ≡ front ++ rest) × All IsByte rest × P a
Exact-whole x bs hb {a} {rest} e =
    let (front, wrote, split, hr, pa) = x.at bs hb a rest e in
    (front, wrote ∙ done-nil->> (done front), split, hr, pa)

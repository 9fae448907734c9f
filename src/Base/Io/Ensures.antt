-- ===== src/Base/Io/Ensures.antt =====
-- What holds of every value that a reader accepts.
use auzum_zcash.Base.{
  ℕ, zero, suc, ◌≡◌, refl, ap, subst, [], ◌∷◌, length, All, Bool, true, false, if◌then◌else◌,
}
use auzum_zcash.Base.Io.{
  Bytes, IsByte, IoError, ok, Reader, pure, fail, ◌>>=◌, Written, done, read_times,
}
use auzum_zcash.Base.Io.Exact.{Exact, Exact-whole, after-ok, ok-injective}

pub record Ensures {ℓ κ} {A : Type ℓ} (r : Reader A) (P : A → Type κ) : Type (ℓ ⊔ κ) where
  pub at :
      (bs : Bytes)
      → All IsByte bs
      → (a : A) (rest : Bytes) → r bs ≡ ok (a, rest)
      → All IsByte rest × P a

module _ {ℓ κ ι ο} {A : Type ℓ} {B : Type κ} {P : A → Type ι} {Q : B → Type ο} where
  pub Ensures-bind :
      {r : Reader A} (f : A → Reader B)
      → Ensures r P
      → ((a : A) → P a → Ensures (f a) Q)
      → Ensures (r >>= f) Q
  unfolding ◌>>=◌
  Ensures-bind {r} f first next = record {
    at = λ bs hb b rest e.
        let (a, mid, ea, eb) = after-ok (r bs) f e in
        let (hm, pa) = first.at bs hb a mid ea in (next a pa).at mid hm b rest eb;
  }

module _ {ℓ κ} {A : Type ℓ} {P : A → Type κ} where
  pub Ensures-pure : (a : A) → P a → Ensures (pure a) P
  unfolding pure
  Ensures-pure a p = record {
    at = λ bs hb b rest e.
        subst (λ (t : A × Bytes). All IsByte t.1 × P t.0) (ok-injective e) (hb, p);
  }

  pub Ensures-check :
      {r : Reader A} (c : Bool) (e : IoError)
      → (c ≡ false → Ensures r P)
      → Ensures (if c then fail e else r) P
  unfolding fail
  Ensures-check true e next = record { at = λ bs hb a rest q. cc }
  Ensures-check false e next = next refl

  pub Ensures-if :
      {r s : Reader A} (c : Bool)
      → (c ≡ true → Ensures r P)
      → (c ≡ false → Ensures s P)
      → Ensures (if c then r else s) P
  Ensures-if true x y = x refl
  Ensures-if false x y = y refl

  pub Exact-Ensures : {r : Reader A} {w : A → Written} → Exact (done []) r w P → Ensures r P
  Exact-Ensures x = record {
    at = λ bs hb a rest e. let (_, _, _, hr, p) = Exact-whole x bs hb e in (hr, p);
  }

module _ {ℓ κ} {A : Type ℓ} {P : A → Type κ} {r : Reader A} where
  pub Ensures-times :
      (n : ℕ) → Ensures r P → Ensures (read_times n r) (λ xs. (length xs ≡ n) × All P xs)
  unfolding read_times
  Ensures-times zero x = Ensures-pure [] (refl, tt)
  Ensures-times (suc n) x = Ensures-bind _ x λ a pa.
      Ensures-bind _ (Ensures-times n x)
        λ xs (len, ps). Ensures-pure (a ∷ xs) (ap suc len, (pa, ps))

-- ===== src/Base/Io/Local.antt =====
-- Readers that do not look ahead, and one rule for each way to compose them.
use mathlib.Core.List.{append_cancel_right}
use auzum_zcash.Base.{
  All, ℕ, zero, suc, ◌≡◌, refl, sym, ap, ◌∙◌, subst, [], ◌∷◌, ◌++◌, append_assoc, length,
  take-append-drop, length-take, Bool, true, false, if◌then◌else◌,
}
use auzum_zcash.Base.Io.{
  Bytes, IsByte, IoError, Result, ok, Reader, pure, fail, ◌>>=◌, Written, done, failed, collect,
  read_exact, from_le_bytes, read_le, read_times,
}
use auzum_zcash.Base.Io.Decodes.{Decodes, read_exact-append}
use auzum_zcash.Base.Io.Exact.{Exact, Exact-whole, after-ok, ok-injective, read_exact-ok}

pub record Local {ℓ} {A : Type ℓ} (r : Reader A) : Type ℓ where
  pub at :
      (bs : Bytes) (a : A) (rest : Bytes)
      → r bs ≡ ok (a, rest)
      → (front : Bytes) × (bs ≡ front ++ rest) × ((more : Bytes) → r (front ++ more) ≡ ok (a, more))

module _ {ℓ κ} {A : Type ℓ} {B : Type κ} where
  pub Local-bind :
      {r : Reader A} (f : A → Reader B) → Local r → ((a : A) → Local (f a)) → Local (r >>= f)
  unfolding ◌>>=◌
  Local-bind {r} f first next = record {
    at = λ bs b rest e.
        let (a, mid, ea, eb) = after-ok (r bs) f e in
        let (front, split, again) = first.at bs a mid ea in
        let (back, split', again') = (next a).at mid b rest eb in
        (
          front ++ back,
          split ∙ ap (λ t. front ++ t) split' ∙ sym (append_assoc front back rest),
          λ more. rw (append_assoc front back more, again (back ++ more)) (again' more),
        );
  }

module _ {ℓ} {A : Type ℓ} where
  pub Local-pure : (a : A) → Local (pure a)
  unfolding pure
  Local-pure a = record {
    at = λ bs b rest q.
        subst
          (λ (t : A × Bytes).
            (front : Bytes) × (bs ≡ front ++ t.1)
            × ((more : Bytes)
                → ◌≡◌ {A = Result (A × Bytes)} (ok (a, front ++ more)) (ok (t.0, more))))
          (ok-injective q) ([], refl, λ more. refl);
  }

  pub Local-fail : (e : IoError) → Local (fail {A = A} e)
  unfolding fail
  Local-fail e = record { at = λ bs a rest q. cc }

  pub Local-if : (c : Bool) {r s : Reader A} → Local r → Local s → Local (if c then r else s)
  Local-if true l m = l
  Local-if false l m = m

pub Local-bytes : (n : ℕ) → Local (read_exact n)
Local-bytes n = record {
  at = λ bs front rest e.
      let (long, t, d) = read_exact-ok n bs e in
      (
        front,
        sym (take-append-drop n bs) ∙ rw (t, d),
        λ more. read_exact-append n front more (ap length (sym t) ∙ length-take n bs long),
      );
}

pub Local-collect : (w : Written) → Local (collect w)
unfolding collect pure fail
Local-collect (done bs) = Local-pure bs
Local-collect (failed bs e) = Local-fail e

pub Local-le : (k : ℕ) → Local (read_le k)
unfolding read_le
Local-le k = Local-bind _ (Local-bytes k) (λ bs. Local-pure (from_le_bytes bs))

module _ {ℓ} {A : Type ℓ} {r : Reader A} where
  pub Local-times : (n : ℕ) → Local r → Local (read_times n r)
  unfolding read_times
  Local-times zero l = Local-pure []
  Local-times (suc n) l =
      Local-bind _ l λ a. Local-bind _ (Local-times n l) (λ xs. Local-pure (a ∷ xs))

pub ruleset local_rules = (
  Local-bind, Local-pure, Local-fail, Local-if, Local-collect, Local-bytes, Local-le, Local-times,
)

-- A canonical reader that does not look ahead reads back whatever it has read.
pub Exact-Decodes {ℓ κ} :
    {A : Type ℓ} {P : A → Type κ} {r : Reader A} {w : A → Written}
    → Exact (done []) r w P
    → Local r
    → (bs : Bytes) → All IsByte bs
    → {a : A} {rest : Bytes} → r bs ≡ ok (a, rest)
    → Decodes (w a) r a
Exact-Decodes x l bs hb {a} {rest} e =
    let (front, wrote, split, _, _) = Exact-whole x bs hb e in
    let (front', split', again) = l.at bs a rest e in
    let same = append_cancel_right front' front rest (sym split' ∙ split) in
    record { bytes = front'; wrote = wrote ∙ ap done (sym same); back = again }

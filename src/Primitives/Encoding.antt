-- ===== src/Primitives/Encoding.antt =====
-- Types of other crates whose values have an encoding of 32 bytes.
use auzum_zcash.Base.{◌≡◌, refl, sym, ap, ◌∙◌, Option, none, some}
use auzum_zcash.Base.Io.{
  Bytes, IsBytes, IoError, Reader, Written, pure, fail, ◌>>=◌, read_exact, write_all,
}
use auzum_zcash.Base.Io.Codec.{IsCodec}
use auzum_zcash.Base.Io.Decodes.{Decodes-bytes, Decodes-last}
use auzum_zcash.Base.Io.Exact.{
  Exact, Exact-bind, Exact-return, Exact-fail, Exact-bytes, done-nil->>,
}

-- A type whose values have an encoding of fixed size, which `from_bytes` may reject.
pub record Encoding : Type 1 where
  pub Element : Type 0
  pub from_bytes : Bytes → Option Element
  pub to_bytes : Element → Bytes

-- An encoding that is accepted is that of the value it stands for.
abbrev pub IsEncoding : Encoding → Type 0
IsEncoding e = (bs : Bytes) (a : e.Element) → e.from_bytes bs ≡ some a → e.to_bytes a ≡ bs

abbrev pub ok_or {ℓ} : {A : Type ℓ} → IoError → Option A → Reader A
ok_or e (some a) = pure a
ok_or e none = fail e

abbrev pub read_element : (e : Encoding) → IoError → Reader e.Element
read_element e error = do bytes ← read_exact 32; ok_or error (e.from_bytes bytes)

-- The outcome of a conversion, which the read that follows may use.
pub Exact-ok_or {ℓ κ} :
    {A : Type 0} {B : Type ℓ} {P : B → Type κ} {before : Written} {w : B → Written} (e : IoError)
    (x : Option A) (f : A → Reader B)
    → ((a : A) → x ≡ some a → Exact before (f a) w P)
    → Exact before (ok_or e x >>= f) w P
unfolding ◌>>=◌ pure fail
Exact-ok_or e (some a) f next = next a refl
Exact-ok_or e none f next = record { at = λ bs hb b rest q. cc }

Exact-option {κ} :
    {A : Type 0} {P : A → Type κ} {before : Written} {w : A → Written} (e : IoError) (x : Option A)
    → ((a : A) → x ≡ some a → (w a ≡ before) × P a)
    → Exact before (ok_or e x) w P
Exact-option e (some a) next = Exact-return a (next a refl).0 (next a refl).1
Exact-option e none next = Exact-fail e

-- The encoding of the element is one that is accepted.
abbrev pub IsElement : (e : Encoding) → e.Element → Type 0
IsElement e a = IsBytes 32 (e.to_bytes a) × (e.from_bytes (e.to_bytes a) ≡ some a)

pub read_element-IsCodec :
    (e : Encoding) (error : IoError)
    → IsEncoding e
    → IsCodec (read_element e error) (λ a. write_all (e.to_bytes a)) (IsElement e)
read_element-IsCodec e error h = record {
  decodes =
      λ a (size, accepted). Decodes-last _ (Decodes-bytes (e.to_bytes a) size.0) (rw accepted refl);
  exact = Exact-bind _ (Exact-bytes 32) λ bs size.
      Exact-option error (e.from_bytes bs) λ a accepted.
        let same : e.to_bytes a ≡ bs = h bs a accepted in
        (ap write_all same ∙ sym (done-nil->> (write_all bs)), rw same (size, accepted));
}

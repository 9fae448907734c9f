-- ===== src/Primitives/Sprout/Balance.antt =====
-- What JoinSplits move.
use auzum_zcash.Base.{ℕ, ◌≤◌, Bool, ◌≡◌, refl, arith, some}
use auzum_zcash.Base.Int.{◌-ℤ◌, difference}
use auzum_zcash.Protocol.Value.{max_money, ZatBalance, IsAmount, IsBalance}
use auzum_zcash.Protocol.Value.Arithmetic.{balance, sub_balance_iff}
use auzum_zcash.Protocol.Value.Amounts.{IsUnsigned}
use auzum_zcash.Primitives.Sprout.{JsDescription, net_value}
use auzum_zcash.Primitives.Sprout.Codec.{IsDescription}

IsUnsigned-IsBalance : (b : ZatBalance) → IsUnsigned b → IsBalance b
IsUnsigned-IsBalance b (n, e, small) = rw e small

unsigned_difference : (a b : ℕ) → a ≤ max_money → b ≤ max_money → IsAmount (difference a b)
unsigned_difference a b h k = ground arith

-- The net value of a description that was read never panics: it is the exact difference of the two
-- amounts, and a balance within the money supply.
pub net_value_total :
    (use_groth : Bool) (js : JsDescription)
    → IsDescription use_groth js
    → (net_value js ≡ some (balance (js.vpub_new.amount -ℤ js.vpub_old.amount)))
      × IsAmount (js.vpub_new.amount -ℤ js.vpub_old.amount)
unfolding net_value
net_value_total use_groth js h =
    let (a, ea, ka) = h.vpub_new in
    let (b, eb, kb) = h.vpub_old in
    let small : IsAmount (js.vpub_new.amount -ℤ js.vpub_old.amount) =
      rw (ea, eb) (unsigned_difference a b ka kb) in
    (
      (sub_balance_iff js.vpub_new js.vpub_old _ (IsUnsigned-IsBalance js.vpub_new h.vpub_new)
            (IsUnsigned-IsBalance js.vpub_old h.vpub_old)).1
          (refl, small),
      small,
    )

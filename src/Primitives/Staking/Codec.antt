-- ===== src/Primitives/Staking/Codec.antt =====
-- Laws of the byte format of staking actions.
use auzum_zcash.Base.{ℕ, refl, ◌∙◌, ◌≡◌, ◌==◌, true, arith, Option, none, some, []}
use auzum_zcash.Base.Io.{pure, done, pure, Written, ◌>>◌, Reader, write_u8, invalid_input}
use auzum_zcash.Base.Io.Decodes.{Decodes, Decodes-le, Decodes-bind, Decodes-last}
use auzum_zcash.Base.Io.Exact.{
  Exact, Exact-bind, Exact-return, Exact-fail, Exact-branch, Exact-le, done-nil->>,
}
use auzum_zcash.Primitives.Staking.Shapes.{
  IsCreateNewDelegationBond, Decodes-read_create_new_delegation_bond,
  Exact-read_create_new_delegation_bond, IsBeginDelegationUnbonding,
  Decodes-read_begin_delegation_unbonding, Exact-read_begin_delegation_unbonding,
  IsWithdrawDelegationBond, Decodes-read_withdraw_delegation_bond,
  Exact-read_withdraw_delegation_bond, IsRetargetDelegationBond,
  Decodes-read_retarget_delegation_bond, Exact-read_retarget_delegation_bond, IsRegisterFinalizer,
  Decodes-read_register_finalizer, Exact-read_register_finalizer,
  IsConvertFinalizerRewardToDelegationBond, Decodes-read_convert_finalizer_reward,
  Exact-read_convert_finalizer_reward, IsUpdateFinalizerKey, Decodes-read_update_finalizer_key,
  Exact-read_update_finalizer_key,
}
use auzum_zcash.Primitives.Staking.Action.{
  StakingAction, present, write_body, write_action, read_tagged, read_action,
}

-- The fields of the action fit their types.
abbrev pub IsAction : StakingAction → Type 0
IsAction (StakingAction.create_new_delegation_bond a) = IsCreateNewDelegationBond a
IsAction (StakingAction.begin_delegation_unbonding a) = IsBeginDelegationUnbonding a
IsAction (StakingAction.withdraw_delegation_bond a) = IsWithdrawDelegationBond a
IsAction (StakingAction.retarget_delegation_bond a) = IsRetargetDelegationBond a
IsAction (StakingAction.register_finalizer a) = IsRegisterFinalizer a
IsAction (StakingAction.convert_finalizer_reward a) = IsConvertFinalizerRewardToDelegationBond a
IsAction (StakingAction.update_finalizer_key a) = IsUpdateFinalizerKey a

abbrev pub IsCarried : Option StakingAction → Type 0
IsCarried none = Unit
IsCarried (some action) = IsAction action

Decodes-body :
    (action : StakingAction)
    → IsAction action
    → Decodes (write_body action) read_action (some action)
unfolding write_body read_action read_tagged
Decodes-body (StakingAction.create_new_delegation_bond a) h =
    Decodes-bind _ (Decodes-le 1 1 (omega arith))
      (Decodes-last _ (Decodes-read_create_new_delegation_bond a h) refl)
Decodes-body (StakingAction.begin_delegation_unbonding a) h =
    Decodes-bind _ (Decodes-le 1 2 (omega arith))
      (Decodes-last _ (Decodes-read_begin_delegation_unbonding a h) refl)
Decodes-body (StakingAction.withdraw_delegation_bond a) h =
    Decodes-bind _ (Decodes-le 1 3 (omega arith))
      (Decodes-last _ (Decodes-read_withdraw_delegation_bond a h) refl)
Decodes-body (StakingAction.retarget_delegation_bond a) h =
    Decodes-bind _ (Decodes-le 1 4 (omega arith))
      (Decodes-last _ (Decodes-read_retarget_delegation_bond a h) refl)
Decodes-body (StakingAction.register_finalizer a) h =
    Decodes-bind _ (Decodes-le 1 5 (omega arith))
      (Decodes-last _ (Decodes-read_register_finalizer a h) refl)
Decodes-body (StakingAction.convert_finalizer_reward a) h =
    Decodes-bind _ (Decodes-le 1 6 (omega arith))
      (Decodes-last _ (Decodes-read_convert_finalizer_reward a h) refl)
Decodes-body (StakingAction.update_finalizer_key a) h =
    Decodes-bind _ (Decodes-le 1 7 (omega arith))
      (Decodes-last _ (Decodes-read_update_finalizer_key a h) refl)

-- A staking action, or its absence, is written without an error and read back, whatever follows.
pub Decodes-read_action :
    (carried : Option StakingAction)
    → IsCarried carried
    → Decodes (write_action carried) read_action carried
unfolding write_action read_action read_tagged
Decodes-read_action none h = Decodes-last _ (Decodes-le 1 0 (omega arith)) refl
Decodes-read_action (some action) h = Decodes-body action h

module _ {A : Type 0} {r : Reader A} {v : A → Written} {Q : A → Type 0} (con : A → StakingAction)
    (k : ℕ) where
  Exact-present :
      Exact (done []) r v Q
      → ((a : A) → write_body (con a) ≡ (write_u8 k >> v a))
      → ((a : A) → Q a → IsAction (con a))
      → (tag : ℕ) → (tag == k) ≡ true
      → Exact (done [] >> write_u8 tag) (present con r) write_action IsCarried
  unfolding write_action
  Exact-present x writes fits tag is =
      let same : tag ≡ k = ground arith in
      Exact-bind _ x
        λ a h. Exact-return (some (con a)) (writes a ∙ rw (done-nil->>, same)) (fits a h)

Exact-absent :
    (tag : ℕ)
    → (tag == 0) ≡ true
    → Exact (done [] >> write_u8 tag) (pure none) write_action IsCarried
unfolding write_action
Exact-absent tag is =
    let same : tag ≡ 0 = ground arith in Exact-return none (rw (done-nil->>, same)) tt

Exact-read_tagged :
    (tag : ℕ) → Exact (done [] >> write_u8 tag) (read_tagged tag) write_action IsCarried
unfolding read_tagged write_action write_body
Exact-read_tagged tag = Exact-branch _ (Exact-absent tag) λ _.
    Exact-branch _
      (Exact-present StakingAction.create_new_delegation_bond 1
        Exact-read_create_new_delegation_bond (λ a. refl) (λ a h. h) tag)
      λ _.
        Exact-branch _
          (Exact-present StakingAction.begin_delegation_unbonding 2
            Exact-read_begin_delegation_unbonding (λ a. refl) (λ a h. h) tag)
          λ _.
            Exact-branch _
              (Exact-present StakingAction.withdraw_delegation_bond 3
                Exact-read_withdraw_delegation_bond (λ a. refl) (λ a h. h) tag)
              λ _.
                Exact-branch _
                  (Exact-present StakingAction.retarget_delegation_bond 4
                    Exact-read_retarget_delegation_bond (λ a. refl) (λ a h. h) tag)
                  λ _.
                    Exact-branch _
                      (Exact-present StakingAction.register_finalizer 5
                        Exact-read_register_finalizer (λ a. refl) (λ a h. h) tag)
                      λ _.
                        Exact-branch _
                          (Exact-present StakingAction.convert_finalizer_reward 6
                            Exact-read_convert_finalizer_reward (λ a. refl) (λ a h. h) tag)
                          λ _.
                            Exact-branch _
                              (Exact-present StakingAction.update_finalizer_key 7
                                Exact-read_update_finalizer_key (λ a. refl) (λ a h. h) tag)
                              λ _. Exact-fail (invalid_input "unknown staking action kind")

-- The bytes that a staking action, or its absence, is read from are those that it is written to, and its
-- fields fit their types.
pub Exact-read_action : Exact (done []) read_action write_action IsCarried
unfolding read_action
Exact-read_action = Exact-bind _ (Exact-le 1) λ tag h. Exact-read_tagged tag

-- ===== src/Sandbox/Ledger/Steps.antt =====
-- The parts of the handlers that write coupons, points and entitlements.
use rule_arena.Common.{
  ℕ, ◌≡◌, refl, Bool, true, false, ◌&&◌, Bool-cases, inl, inr, Option, none, some, get_elem?,
  String, if◌then◌else◌,
}
use rule_arena.Common.Int.{ℤ, pos, ◌+ℤ◌, ◌-ℤ◌, leb_ℤ, eqb_ℤ, ltb_ℤ, max_ℤ, int_laws}
use rule_arena.Common.Outcome.{
  done, Returns, Returns-done, Returns-bind, Returns-reject_if, Returns-or_reject,
}
use rule_arena.Common.Text.{is_text}
use rule_arena.Common.Json.{Fields}
use rule_arena.Policy.{ScenarioType}
use rule_arena.Sandbox.Profile.{SandboxProfile, DefectAxis, exhibits}
use rule_arena.Sandbox.Models.{
  AggregateType, BusinessEventType, RunSpace, TestUser, Order, Entitlement,
}
use rule_arena.Sandbox.Values.{whole_points}
use rule_arena.Sandbox.Rows.{Handled, emit}
use rule_arena.Sandbox.Orders.{release_coupon, is_reserved}
use rule_arena.Sandbox.Payments.{
  grant_points, is_refund_points, record_grant, refund_points, reopen_coupon, revoke_points,
  revoked_sum, take_points, use_coupon,
}
use rule_arena.Sandbox.Memberships.{available_quantity, revoke_rest}
use rule_arena.Sandbox.Ledger.{
  IsBalanced, IsOff, add_entry-IsOff, emit-IsOff, other-IsOff, put_user-IsOff,
}

abbrev pub BalancedBy : Handled → Type 0
BalancedBy handled = IsBalanced handled.run

abbrev pub OffBy : ℤ → RunSpace → Type 0
OffBy gap run = IsOff run gap

pub release_coupon-IsOff :
    (order : Order) (name : Option String) (key : String) (run : RunSpace) (gap : ℤ)
    → IsOff run gap
    → Returns (OffBy gap) (release_coupon order name key run)
unfolding release_coupon
release_coupon-IsOff order none key run gap h = Returns-done _ h
release_coupon-IsOff order (some name) key run gap h = Returns-or_reject _ _ _ λ (ci, coupon) _.
    elim (Bool-cases (is_reserved coupon.status && is_text order.id coupon.reserved_order_id)) [
      | inl held ↦ rw held (Returns-done _ (emit-IsOff _ _ _ _ _ (other-IsOff refl refl h)))
      | inr free ↦ rw free (Returns-done _ h)
    ]

pub use_coupon-IsOff :
    (order : Order) (name : Option String) (key : String) (run : RunSpace) (gap : ℤ)
    → IsOff run gap
    → Returns (OffBy gap) (use_coupon order name key run)
unfolding use_coupon
use_coupon-IsOff order none key run gap h = Returns-done _ h
use_coupon-IsOff order (some name) key run gap h = Returns-or_reject _ _ _ λ (ci, coupon) _.
    Returns-reject_if _ _ _ λ _. Returns-done _ (emit-IsOff _ _ _ _ _ (other-IsOff refl refl h))

pub reopen_coupon-IsOff :
    (reopens : Bool) (order : Order) (name : Option String) (key : String) (run : RunSpace)
    → IsBalanced run
    → Returns IsBalanced (if reopens then reopen_coupon order name key run else done run)
unfolding reopen_coupon
reopen_coupon-IsOff false order name key run h = Returns-done _ h
reopen_coupon-IsOff true order none key run h = Returns-done _ h
reopen_coupon-IsOff true order (some name) key run h =
    Returns-or_reject _ _ _
      λ (ci, coupon) _. Returns-done _ (emit-IsOff _ _ _ _ _ (other-IsOff refl refl h))

pub revoke_rest-IsOff :
    (wanted : Bool) (ei : ℕ) (e : Entitlement) (key : String) (run : RunSpace)
    → IsBalanced run
    → IsBalanced (revoke_rest wanted ei e key run)
unfolding revoke_rest
revoke_rest-IsOff wanted ei e key run h =
    elim (Bool-cases (wanted && ltb_ℤ (pos 0) (available_quantity e))) [
      | inl some_left ↦ rw some_left (emit-IsOff _ _ _ _ _ (other-IsOff refl refl h))
      | inr none_left ↦ rw none_left h
    ]

-- The points of a payment are granted in one scenario only.
abbrev pub granted : Bool → ℤ → ℤ
granted true points = points
granted false points = pos 0

pub grant_points_gap :
    (scenario : ScenarioType) (user : TestUser) (order : Order) (points : ℤ)
    → (grant_points scenario user order points).0.points_balance +ℤ pos 0
      ≡ user.points_balance +ℤ granted (is_refund_points scenario) points
grant_points_gap ScenarioType.promotion user order points = refl
grant_points_gap ScenarioType.refund_points user order points = omega int_laws
grant_points_gap ScenarioType.membership_entitlement user order points = refl

pub record_grant-IsOff :
    (user_id order_id : String) (points : ℤ) (suffix key : String) (run : RunSpace)
    → IsOff run points
    → IsBalanced (record_grant user_id order_id points suffix key run)
record_grant-IsOff user_id order_id points suffix key run h =
    emit-IsOff _ _ _ _ _ (add_entry-IsOff (pos 0) _ _ _ _ _ (omega int_laws) h)

pub take_points-IsOff :
    (ui : ℕ) (user : TestUser) (order : Order) (delta : ℤ) (key : String) (run : RunSpace)
    → get_elem? run.users ui ≡ some user
    → IsBalanced run
    → Returns IsBalanced (take_points ui user order delta key run)
unfolding take_points
take_points-IsOff ui user order delta key run there h = Returns-reject_if _ _ _ λ _.
    Returns-done _ (
      emit-IsOff _ _ _ _ _ (
        add_entry-IsOff (pos 0) _ _ _ _ _ refl
          (put_user-IsOff ((pos 0 -ℤ delta) +ℤ pos 0) _ _ there (omega int_laws) h)))

pub revoke_points-IsOff :
    (ui : ℕ) (user : TestUser) (order : Order) (full : Bool) (key : String) (run : RunSpace)
    → get_elem? run.users ui ≡ some user
    → IsBalanced run
    → Returns IsBalanced (revoke_points ui user order full key run)
unfolding revoke_points
revoke_points-IsOff ui user order full key run there h = Returns-bind _ _ λ goal _.
    let delta = max_ℤ (goal +ℤ revoked_sum order.id run.points_ledger) (pos 0) in
    elim (Bool-cases (eqb_ℤ delta (pos 0))) [
      | inl e ↦ rw e (Returns-done _ h)
      | inr e ↦ rw e (take_points-IsOff ui user order delta key run there h)
    ]

pub refund_points-IsOff :
    (profile : SandboxProfile) (scenario : ScenarioType) (ui : ℕ) (user : TestUser) (order : Order)
    (amount : ℤ) (key : String) (run : RunSpace)
    → get_elem? run.users ui ≡ some user
    → IsBalanced run
    → Returns IsBalanced (refund_points profile scenario ui user order amount key run)
unfolding refund_points
refund_points-IsOff profile ScenarioType.promotion ui user order amount key run there h =
    Returns-done _ h
refund_points-IsOff profile ScenarioType.membership_entitlement ui user order amount key run there
      h =
    Returns-done _ h
refund_points-IsOff profile ScenarioType.refund_points ui user order amount key run there h =
    elim (Bool-cases (exhibits profile DefectAxis.points_granted_again_on_refund)) [
      | inl e ↦ rw e (
          Returns-done _ (
            record_grant-IsOff _ _ (whole_points amount) _ _ _
              (put_user-IsOff (whole_points amount) _ _ there (omega int_laws) h)))
      | inr e ↦ rw e (
          revoke_points-IsOff ui user order (leb_ℤ order.paid_amount order.refunded_amount) key run
            there h)
    ]

pub emit_users_lem :
    (aggregate : AggregateType) (name : String) (type : BusinessEventType) (payload : Fields)
    (key : String) (run : RunSpace) (i : ℕ) {row : TestUser}
    → get_elem? run.users i ≡ some row
    → get_elem? (emit aggregate name type payload key run).users i ≡ some row
unfolding emit
emit_users_lem aggregate name type payload key run i there = there

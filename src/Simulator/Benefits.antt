-- ===== src/Simulator/Benefits.antt =====
-- simulator.py: `_do_redeem_points`, `_do_activate_membership`, `_do_consume_entitlement` and
-- `_do_cancel_membership`.
use rule_arena.Common.{
  zero, Bool, true, false, not, ◌&&◌, ◌||◌, Option, none, some, List, [], ◌∷◌, set, locate,
  if◌then◌else◌,
}
use rule_arena.Common.Int.{ℤ, pos, ◌+ℤ◌, ◌-ℤ◌, ◌*ℤ◌, ltb_ℤ, leb_ℤ, eqb_ℤ}
use rule_arena.Common.Outcome.{Outcome, Exc, done, reject_if, or_reject, or_raise, ◌>>=◌, ◌>>◌}
use rule_arena.Common.Text.{str_eq, is_text, or_else}
use rule_arena.Policy.{RefundPolicy}
use rule_arena.Simulator.Models.{
  new_membership, new_entitlement, SimMembership, SimEntitlement, MembershipFlag, MembershipStatus,
  Payload, Code, EventType, AggregateType, event, argument, entitlement_available,
}
use rule_arena.Simulator.Argument.{money_or, integer_or, flag}
use rule_arena.Simulator.Arithmetic.{rounded_quotient}
use rule_arena.Simulator.Rules.{Handler, is_empty}

-- `items[0]`
abbrev pub first {ℓ} : {A : Type ℓ} → List A → Option A
first [] = none
first (x ∷ xs) = some x

unfoldable pub do_redeem_points : Handler
do_redeem_points sim state action = do
  user ← or_reject (first state.users) Code.user_not_found
  amount ← integer_or 0 (argument "amount" action.arguments)
  reject_if (leb_ℤ amount (pos 0) || ltb_ℤ user.points_balance amount) Code.insufficient_points
  let user' = record user { points_balance = user.points_balance -ℤ amount }
  done (record {
    state = record state { users = set state.users zero user' };
    events =
        event EventType.points_redeemed AggregateType.user user.user_id
          (("amount", Payload.count amount) ∷ [])
        ∷ [];
  })

unfoldable pub do_activate_membership : Handler
do_activate_membership sim state action = do
  reject_if (is_empty state.users) Code.precondition_failed
  rule ← or_reject sim.membership Code.precondition_failed
  reject_if (not (is_empty state.memberships)) Code.precondition_failed
  let user_id = or_else action.target_id action.actor_id
  (ui, user) ←
      or_reject (locate (λ item. str_eq item.user_id user_id) state.users) Code.user_not_found
  paid ← money_or rule.price.amount (argument "paid_amount" action.arguments)
  quantity ← integer_or rule.entitlement_quantity (argument "quantity" action.arguments)
  reject_if
      (not (eqb_ℤ paid (pos rule.price.amount))
        || not (eqb_ℤ quantity (pos rule.entitlement_quantity))
        || ltb_ℤ user.balance paid)
      Code.membership_rule_mismatch
  let membership = new_membership "membership-1" user.user_id paid rule.price.currency
  let entitlement = new_entitlement "entitlement-1" membership.membership_id quantity
  let user' = record user {
    balance = user.balance -ℤ paid;
    membership_status = MembershipFlag.active;
  }
  done (record {
    state = record state {
      users = set state.users ui user';
      memberships = membership ∷ [];
      entitlements = entitlement ∷ [];
    };
    events =
        event EventType.membership_activated AggregateType.membership membership.membership_id []
        ∷ event EventType.entitlement_granted AggregateType.entitlement entitlement.entitlement_id
            (("quantity", Payload.count quantity) ∷ [])
        ∷ [];
  })

unfoldable pub do_consume_entitlement : Handler
unfolding entitlement_available
do_consume_entitlement sim state action = do
  reject_if (is_empty state.entitlements) Code.entitlement_not_found
  quantity ← integer_or 0 (argument "quantity" action.arguments)
  (ei, entitlement) ←
      or_reject (locate (λ item. is_text item.entitlement_id action.target_id) state.entitlements)
        Code.entitlement_not_found
  reject_if (leb_ℤ quantity (pos 0) || ltb_ℤ (entitlement_available entitlement) quantity)
      Code.insufficient_entitlement
  let entitlement' = record entitlement { consumed = entitlement.consumed +ℤ quantity }
  done (record {
    state = record state { entitlements = set state.entitlements ei entitlement' };
    events =
        event EventType.entitlement_consumed AggregateType.entitlement entitlement.entitlement_id
          (("quantity", Payload.count quantity) ∷ [])
        ∷ [];
  })

abbrev is_unused_only : RefundPolicy → Bool
is_unused_only RefundPolicy.unused_only = true
is_unused_only _ = false

abbrev is_non_refundable : RefundPolicy → Bool
is_non_refundable RefundPolicy.non_refundable = true
is_non_refundable _ = false

abbrev pub is_active : MembershipStatus → Bool
is_active MembershipStatus.active = true
is_active _ = false

-- The amount that a cancellation pays back, by policy.
unfoldable pub cancellation_refund :
    RefundPolicy → Bool → SimMembership → SimEntitlement → Outcome Code ℤ
unfolding entitlement_available
cancellation_refund RefundPolicy.prorated true membership entitlement =
    or_raise
      (rounded_quotient (membership.paid_amount *ℤ entitlement_available entitlement)
        entitlement.granted)
      Exc.arithmetic_error
cancellation_refund RefundPolicy.non_refundable refundable membership entitlement = done (pos 0)
cancellation_refund policy refundable membership entitlement =
    done (if refundable then membership.paid_amount else pos 0)

unfoldable pub do_cancel_membership : Handler
unfolding entitlement_available
do_cancel_membership sim state action = do
  membership ← or_reject (first state.memberships) Code.membership_not_active
  rule ← or_reject sim.membership Code.membership_not_active
  reject_if (not (is_active membership.status)) Code.membership_not_active
  entitlement ← or_raise (first state.entitlements) Exc.index_error
  user ← or_raise (first state.users) Exc.index_error
  let requested = flag (argument "refund_requested" action.arguments)
  reject_if
      (requested && is_unused_only rule.refund_policy && not (eqb_ℤ entitlement.consumed (pos 0)))
      Code.entitlement_consumed
  let refundable = requested && not (is_non_refundable rule.refund_policy)
  refund ← cancellation_refund rule.refund_policy refundable membership entitlement
  let membership' = record membership {
    status = if eqb_ℤ refund (pos 0) then MembershipStatus.cancelled else MembershipStatus.refunded;
    refunded_amount = refund;
  }
  let entitlement' = record entitlement {
    revoked = entitlement.revoked +ℤ entitlement_available entitlement;
  }
  let user' = record user {
    balance = user.balance +ℤ refund;
    membership_status = MembershipFlag.inactive;
  }
  done (record {
    state = record state {
      users = set state.users zero user';
      memberships = set state.memberships zero membership';
      entitlements = set state.entitlements zero entitlement';
    };
    events =
        event EventType.membership_cancelled AggregateType.membership membership.membership_id []
        ∷ event EventType.entitlement_revoked AggregateType.entitlement entitlement.entitlement_id
            []
        ∷ [];
  })

-- ===== src/Sandbox/Memberships.antt =====
-- service.py of services/commerce_sandbox: `_redeem_points`, `_activate_membership`,
-- `_consume_entitlement` and `_cancel_membership`.
use rule_arena.Common.{
  ◌+◌, Bool, true, false, not, ◌&&◌, ◌||◌, none, [], ◌∷◌, if◌then◌else◌, String, ℕ,
}
use rule_arena.Common.Int.{ℤ, pos, ◌+ℤ◌, ◌-ℤ◌, ltb_ℤ, leb_ℤ}
use rule_arena.Common.Outcome.{Outcome, done, reject_if, ◌>>=◌, ◌>>◌}
use rule_arena.Common.Text.{or_else, join}
use rule_arena.Common.Json.{Json, Fields, get}
use rule_arena.Policy.{same_currency}
use rule_arena.Sandbox.Profile.{SandboxProfile, DefectAxis, exhibits}
use rule_arena.Sandbox.Models.{
  TestUser, UserMembership, Membership, MembershipStatus, Entitlement, EntitlementStatus, EntryType,
  AggregateType, BusinessEventType, Code, RunSpace, new_membership, new_entitlement,
}
use rule_arena.Sandbox.Values.{
  check_args, target, strict_bool, positive_int, sandbox_money, amount_text, money_effect,
}
use rule_arena.Sandbox.Rows.{
  Handler, Handled, find_user, find_membership, find_entitlement, entitlement_of, next_id, put_user,
  put_membership, put_entitlement, add_membership, add_entitlement, add_entry, emit,
}
use rule_arena.Sandbox.Orders.{one_text, two_texts, three_texts}
use rule_arena.Sandbox.Payments.{is_refund_points}

-- A text and a number.
abbrev pub text_and_number : String → String → String → ℤ → Fields
text_and_number a x b n =
    Fields.field a (Json.text x) (Fields.field b (Json.integer n) Fields.no_field)

unfoldable pub redeem_points : Handler
redeem_points profile run command key = do
  check_args ("amount" ∷ []) ("amount" ∷ []) command.arguments
  amount ← positive_int (get "amount" command.arguments)
  (ui, user) ← find_user (or_else command.target_id command.actor_id) run
  reject_if
      (ltb_ℤ user.points_balance amount
        && not (
            is_refund_points run.scenario_type
            && exhibits profile DefectAxis.points_overredemption))
      Code.insufficient_points
  let user' = record user {
    points_balance = user.points_balance -ℤ amount;
    version = user.version + 1;
  }
  done (record {
    run =
        emit AggregateType.user user.id BusinessEventType.points_redeemed
          (text_and_number "user_id" user.id "amount" amount) key
          (add_entry user.id none EntryType.redeem (pos 0 -ℤ amount) (join key ":points-redeem")
            (put_user ui user' run));
    result = text_and_number "user_id" user.id "redeemed_points" amount;
    effects = [];
  })

abbrev pub is_inactive : UserMembership → Bool
is_inactive UserMembership.inactive = true
is_inactive _ = false

unfoldable pub activate_membership : Handler
activate_membership profile run command key = do
  check_args ("paid_amount" ∷ "quantity" ∷ []) ("paid_amount" ∷ "quantity" ∷ []) command.arguments
  (ui, user) ← find_user (or_else command.target_id command.actor_id) run
  (paid, currency) ← sandbox_money (get "paid_amount" command.arguments)
  quantity ← positive_int (get "quantity" command.arguments)
  reject_if (leb_ℤ paid (pos 0) || not (same_currency currency user.currency))
      Code.invalid_membership
  reject_if (not (is_inactive user.membership_status)) Code.membership_already_active
  reject_if (ltb_ℤ user.balance paid) Code.insufficient_balance
  let user' = record user {
    balance = user.balance -ℤ paid;
    membership_status = UserMembership.active;
    version = user.version + 1;
  }
  let membership_id = next_id "membership" run.memberships
  let entitlement_id = next_id "entitlement" run.entitlements
  effect ← money_effect currency paid
  done (record {
    run =
        emit AggregateType.entitlement entitlement_id BusinessEventType.entitlement_granted
          (text_and_number "entitlement_id" entitlement_id "quantity" quantity) key
          (emit AggregateType.membership membership_id BusinessEventType.membership_activated
            (two_texts "membership_id" membership_id "user_id" user.id) key
            (add_entitlement (new_entitlement entitlement_id membership_id quantity) (
              add_membership (new_membership membership_id user.id paid currency)
                (put_user ui user' run))));
    result =
        Fields.field "membership_id" (Json.text membership_id)
          (text_and_number "entitlement_id" entitlement_id "quantity" quantity);
    effects = effect ∷ [];
  })

-- `entitlement.status in {"REVOKED", "CONSUMED"}`
abbrev pub is_spent : EntitlementStatus → Bool
is_spent EntitlementStatus.revoked = true
is_spent EntitlementStatus.consumed = true
is_spent _ = false

abbrev pub available_quantity : Entitlement → ℤ
available_quantity e = e.granted_quantity -ℤ e.consumed_quantity -ℤ e.revoked_quantity

abbrev pub consumed_entitlement : Entitlement → ℤ → Entitlement
consumed_entitlement e quantity =
    let consumed = e.consumed_quantity +ℤ quantity in
    record e {
      consumed_quantity = consumed;
      status =
          if leb_ℤ e.granted_quantity consumed
          then EntitlementStatus.consumed
          else EntitlementStatus.partially_consumed;
      version = e.version + 1;
    }

unfoldable pub consume_entitlement : Handler
consume_entitlement profile run command key = do
  check_args ("quantity" ∷ []) ("quantity" ∷ []) command.arguments
  quantity ← positive_int (get "quantity" command.arguments)
  entitlement_id ← target command.target_id
  (ei, entitlement) ← find_entitlement entitlement_id run
  reject_if (is_spent entitlement.status) Code.entitlement_not_available
  reject_if
      (not (exhibits profile DefectAxis.entitlement_overconsumption)
        && ltb_ℤ (available_quantity entitlement) quantity)
      Code.insufficient_entitlement
  let entitlement' = consumed_entitlement entitlement quantity
  done (record {
    run =
        emit AggregateType.entitlement entitlement.id BusinessEventType.entitlement_consumed
          (text_and_number "entitlement_id" entitlement.id "quantity" quantity) key
          (put_entitlement ei entitlement' run);
    result =
        text_and_number "entitlement_id" entitlement.id "consumed_quantity"
          entitlement'.consumed_quantity;
    effects = [];
  })

abbrev pub is_active : MembershipStatus → Bool
is_active MembershipStatus.active = true
is_active _ = false

-- What is left of an entitlement is revoked, if the test allows it and something is left.
unfoldable pub revoke_rest : Bool → ℕ → Entitlement → String → RunSpace → RunSpace
revoke_rest wanted ei entitlement key run =
    let left = available_quantity entitlement in
    let entitlement' : Entitlement = record entitlement {
      revoked_quantity = entitlement.revoked_quantity +ℤ left;
      status = EntitlementStatus.revoked;
      version = entitlement.version + 1;
    } in
    if wanted && ltb_ℤ (pos 0) left
    then emit AggregateType.entitlement entitlement.id BusinessEventType.entitlement_revoked
        (text_and_number "entitlement_id" entitlement.id "quantity" left) key
        (put_entitlement ei entitlement' run)
    else run

-- A cancellation that asks for the money back.
unfoldable pub refund_membership :
    SandboxProfile
    → RunSpace
    → String
    → ℕ × Membership
    → ℕ × TestUser
    → ℕ × Entitlement
    → Outcome Code Handled
refund_membership profile run key (mi, membership) (ui, user) (ei, entitlement) = do
  reject_if
      (ltb_ℤ (pos 0) entitlement.consumed_quantity
        && not (exhibits profile DefectAxis.full_refund_after_consumption))
      Code.entitlement_consumed
  let user' = record user {
    balance = user.balance +ℤ membership.paid_amount;
    membership_status = UserMembership.inactive;
  }
  let membership' = record membership {
    status = MembershipStatus.refunded;
    version = membership.version + 1;
  }
  let revoked =
      revoke_rest (not (exhibits profile DefectAxis.entitlement_left_after_refund)) ei entitlement
        key (put_membership mi membership' (put_user ui user' run))
  effect ← money_effect membership.currency membership.paid_amount
  done (record {
    run =
        emit AggregateType.membership membership.id BusinessEventType.membership_refunded
          (two_texts "membership_id" membership.id "amount" (amount_text membership.paid_amount))
          key revoked;
    result =
        three_texts "membership_id" membership.id "status" "REFUNDED" "refunded_amount"
          (amount_text membership.paid_amount);
    effects = effect ∷ [];
  })

-- A cancellation that does not.
abbrev pub end_membership :
    RunSpace → String → ℕ × Membership → ℕ × TestUser → ℕ × Entitlement → Handled
end_membership run key (mi, membership) (ui, user) (ei, entitlement) = record {
  run =
      emit AggregateType.membership membership.id BusinessEventType.membership_cancelled
        (one_text "membership_id" membership.id) key
        (revoke_rest true ei entitlement key (
          put_membership mi
            (record membership {
              status = MembershipStatus.cancelled;
              version = membership.version + 1;
            })
            (put_user ui (record user { membership_status = UserMembership.inactive }) run)));
  result = two_texts "membership_id" membership.id "status" "CANCELLED";
  effects = [];
}

unfoldable pub cancel_membership : Handler
cancel_membership profile run command key = do
  check_args ("refund_requested" ∷ []) ("refund_requested" ∷ []) command.arguments
  requested ← strict_bool (get "refund_requested" command.arguments)
  membership_id ← target command.target_id
  (mi, membership) ← find_membership membership_id run
  reject_if (not (is_active membership.status)) Code.membership_not_active
  (ui, user) ← find_user membership.user_id run
  (ei, entitlement) ← entitlement_of membership.id run
  if requested
      then refund_membership profile run key (mi, membership) (ui, user) (ei, entitlement)
      else done (end_membership run key (mi, membership) (ui, user) (ei, entitlement))

-- ===== src/RuntimeGate/Safety.antt =====
-- What an answer "allow" of the gate means.
use rule_arena.Common.{
  ◌≡◌, refl, Bool, true, false, Bool-cases, inl, inr, Option, none, some, String,
}
use rule_arena.Common.Int.{ℤ}
use rule_arena.Common.Outcome.{Result, ok, err}
use rule_arena.Common.Table.{Table, lookup, text_key}
use rule_arena.Common.Json.{Fields, get}
use rule_arena.Decimal.{Decimal}
use rule_arena.Decimal.Compare.{add_decimal, above, of_amount}
use rule_arena.Simulator.Models.{SimAction, argument}
use rule_arena.RuntimeGate.{
  GateDecision, Reply, allows, gate_money, decimal_of, orders_of, snapshot_of, refundable_status,
  is_refund, pre_check, budget_check, status_check, order_check, orders_check, refund_check,
}

-- What the gate has read when it lets a refund pass.
pub record WithinBudget (amount : ℤ) (order : Fields) : Type 0 where
  pub paid : Decimal
  pub refunded : Decimal
  pub paid_read : decimal_of (get "paid_amount" order) ≡ some paid
  pub refunded_read : decimal_of (get "refunded_amount" order) ≡ some refunded
  pub refundable : refundable_status (get "status" order) ≡ ok true
  pub fits : above (add_decimal refunded (of_amount amount)) paid ≡ false

pub record RefundIsCovered (action : SimAction) (reply : Reply) : Type 0 where
  pub amount : ℤ
  pub order_id : String
  pub snapshot : Fields
  pub orders : Table String Fields
  pub order : Fields
  pub amount_read : gate_money (argument "amount" action.arguments) ≡ ok (some amount)
  pub target_read : action.target_id ≡ some order_id
  pub snapshot_read : snapshot_of reply ≡ some snapshot
  pub orders_read : orders_of snapshot ≡ some orders
  pub order_found : lookup order_id orders ≡ some order
  pub within : WithinBudget amount order

-- Whether a check returns a decision that allows.
abbrev pub passes : Result GateDecision → Bool
passes (ok d) = allows d
passes (err e) = false

module _ (amount : ℤ) where
  budget_passes :
      (order : Fields) (paid refunded : Option Decimal)
      → decimal_of (get "paid_amount" order) ≡ paid
      → decimal_of (get "refunded_amount" order) ≡ refunded
      → refundable_status (get "status" order) ≡ ok true
      → allows (budget_check amount paid refunded) ≡ true
      → WithinBudget amount order
  unfolding budget_check
  budget_passes order (some p) (some r) paid_read refunded_read refundable h =
      elim (Bool-cases (above (add_decimal r (of_amount amount)) p)) [
        | inl over ↦ cc (rw over at h)
        | inr fits ↦ record {
          paid = p;
          refunded = r;
          paid_read = paid_read;
          refunded_read = refunded_read;
          refundable = refundable;
          fits = fits;
        }
      ]
  budget_passes order (some p) none _ _ _ h = cc
  budget_passes order none _ _ _ _ h = cc

  status_passes :
      (order : Fields) (test : Result Bool)
      → refundable_status (get "status" order) ≡ test
      → passes (status_check amount order test) ≡ true
      → WithinBudget amount order
  status_passes order (err e) read h = cc
  status_passes order (ok false) read h = cc
  status_passes order (ok true) read h = budget_passes order _ _ refl refl read h

module _ (action : SimAction) (reply : Reply) where
  lookup-passes :
      (amount : ℤ) (order_id : String) (snapshot : Fields) (orders : Table String Fields)
      (found : Option Fields)
      → gate_money (argument "amount" action.arguments) ≡ ok (some amount)
      → action.target_id ≡ some order_id
      → snapshot_of reply ≡ some snapshot
      → orders_of snapshot ≡ some orders
      → lookup order_id orders ≡ found
      → passes (order_check amount found) ≡ true
      → RefundIsCovered action reply
  lookup-passes amount order_id snapshot orders none _ _ _ _ _ h = cc
  lookup-passes amount order_id snapshot orders (some order) read target there listed found h =
      record {
        amount = amount;
        order_id = order_id;
        snapshot = snapshot;
        orders = orders;
        order = order;
        amount_read = read;
        target_read = target;
        snapshot_read = there;
        orders_read = listed;
        order_found = found;
        within = status_passes amount order _ refl h;
      }

  orders_passes :
      (amount : ℤ) (order_id : String) (snapshot : Fields) (orders : Option (Table String Fields))
      → gate_money (argument "amount" action.arguments) ≡ ok (some amount)
      → action.target_id ≡ some order_id
      → snapshot_of reply ≡ some snapshot
      → orders_of snapshot ≡ orders
      → passes (orders_check amount order_id orders) ≡ true
      → RefundIsCovered action reply
  orders_passes amount order_id snapshot none _ _ _ _ h = cc
  orders_passes amount order_id snapshot (some orders) read target there listed h =
      lookup-passes amount order_id snapshot orders _ read target there listed refl h

  snapshot_passes :
      (amount : Option ℤ) (target : Option String) (snapshot : Option Fields)
      → gate_money (argument "amount" action.arguments) ≡ ok amount
      → action.target_id ≡ target
      → snapshot_of reply ≡ snapshot
      → passes (refund_check amount target reply) ≡ true
      → RefundIsCovered action reply
  snapshot_passes none _ _ _ _ _ h = cc
  snapshot_passes (some amount) none _ _ _ _ h = cc
  snapshot_passes (some amount) (some order_id) none read target there h = cc (rw there at h)
  snapshot_passes (some amount) (some order_id) (some snapshot) read target there h =
      orders_passes amount order_id snapshot _ read target there refl (rw there at h)

  money_passes :
      (amount : Result (Option ℤ))
      → gate_money (argument "amount" action.arguments) ≡ amount
      → is_refund action.action_type ≡ true
      → passes (pre_check action reply) ≡ true
      → RefundIsCovered action reply
  unfolding pre_check
  money_passes (err e) read refund h = cc (rw (pre_check, refund, read) at h)
  money_passes (ok amount) read refund h =
      snapshot_passes amount _ _ read refl refl (rw (pre_check, refund, read) at h)

  -- `pre_check` lets a refund pass only if it has read an amount, a snapshot that answered,
  -- the order in it with a refundable status, and both of its amounts, and the amount on top of what
  -- was refunded, added exactly, is not above what was paid.
  pub pre_check-passes :
      is_refund action.action_type ≡ true
      → passes (pre_check action reply) ≡ true
      → RefundIsCovered action reply
  pre_check-passes refund h = money_passes _ refl refund h

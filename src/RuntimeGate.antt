-- ===== src/RuntimeGate.antt =====
-- packages/runtime_gate/src/rulearena_runtime_gate/gate.py: the checks around a refund that is
-- written. What `httpx` answers is an argument of each check. The `detail` of a decision, which
-- only reports, is left out.
pub mod Safety
pub mod Agreement
mod Tests
use rule_arena.Common.{
  ℕ, ◌+◌, Bool, true, false, not, ◌||◌, Option, none, some, List, [], ◌∷◌, ◌==◌, if◌then◌else◌,
  String,
}
use rule_arena.Common.Int.{ℤ, pos, negsuc, leb_ℤ}
use rule_arena.Common.Outcome.{Result, ok, err, Exc}
use rule_arena.Common.Text.{codes, str_eq}
use rule_arena.Common.Table.{Table, lookup, insert, text_key}
use rule_arena.Common.Json.{Json, Items, Fields, get}
use rule_arena.Decimal.{Decimal, parse_decimal, quantize}
use rule_arena.Decimal.Compare.{add_decimal, above, of_amount}
use rule_arena.Policy.{RuleSpec}
use rule_arena.Simulator.Models.{SimAction, Value, ActionType, argument}

pub data GateDecisionType : Type 0 where
  allow block unknown : GateDecisionType

pub data GateReason : Type 0 where
  not_a_refund_write within_refund_budget refund_budget_exceeded : GateReason
  order_not_refundable order_not_found refund_amount_unreadable : GateReason
  snapshot_unavailable snapshot_unreadable cached_receipt retry_safe : GateReason
  receipt_lookup_failed effect_observed effect_not_observed stale_view : GateReason

pub record GateDecision : Type 0 where
  pub decision : GateDecisionType
  pub reason_code : GateReason
  pub receipt : Option Fields

abbrev pub decided : GateDecisionType → GateReason → GateDecision
decided decision reason_code = record {
  decision = decision;
  reason_code = reason_code;
  receipt = none;
}

-- `GateDecision.allows`
abbrev pub allows : GateDecision → Bool
allows d = elim d.decision [ GateDecisionType.allow ↦ true | _ ↦ false ]

-- What a request comes to: an `httpx.HTTPError`, or a status code with a body, which is `none` if
-- it is no JSON.
pub data Reply : Type 0 where
  transport_error : Reply
  response : ℕ → Option Json → Reply

abbrev whole : ℤ → Decimal
whole (pos n) = record { negative = false; coefficient = n; exponent = pos 0 }
whole (negsuc n) = record { negative = true; coefficient = n + 1; exponent = pos 0 }

-- What `_money` quantizes, if it gets that far.
abbrev pub money_decimal : Option Value → Option Decimal
money_decimal none = none
money_decimal (some (Value.text s)) = parse_decimal (codes s)
money_decimal (some (Value.int n)) = some (whole n)
money_decimal (some (Value.bool b)) = none

-- A quantized amount that is positive.
abbrev pub positive : ℤ → Option ℤ
positive a = if leb_ℤ a (pos 0) then none else some a

-- `_money`, but for its case of a mapping, since no argument of a `SimAction` is one; the
-- `InvalidOperation` of its `quantize` is not caught.
unfoldable pub gate_money : Option Value → Result (Option ℤ)
gate_money value = elim (money_decimal value) [
  | none ↦ ok none
  | some parsed ↦ elim (quantize parsed) [
    | none ↦ err Exc.arithmetic_error
    | some quantized ↦ ok (positive quantized)
  ]
]

-- `_decimal`
unfoldable pub decimal_of : Json → Option Decimal
decimal_of (Json.integer n) = some (whole n)
decimal_of (Json.text s) = parse_decimal (codes s)
decimal_of _ = none

-- The order in the table under its `id`, if that is a text.
abbrev pub with_order : Fields → Table String Fields → Table String Fields
with_order order keyed = elim (get "id" order) [ Json.text id ↦ insert id order keyed | _ ↦ keyed ]

-- The orders by their names, behind `keyed`; `none` if one of them is no mapping.
abbrev pub keyed_orders : Items → Table String Fields → Option (Table String Fields)
keyed_orders Items.no_item keyed = some keyed
keyed_orders (Items.item (Json.object order) rest) keyed =
    keyed_orders rest (with_order order keyed)
keyed_orders (Items.item _ rest) keyed = none

abbrev pub orders_field : Json → Option (Table String Fields)
orders_field (Json.array items) = keyed_orders items []
orders_field _ = none

-- `_orders`
unfoldable pub orders_of : Fields → Option (Table String Fields)
orders_of snapshot = elim (get "state" snapshot) [
  | Json.object state ↦ orders_field (get "orders" state)
  | _ ↦ none
]

-- A text that is not empty.
abbrev pub nonempty : Json → Option String
nonempty (Json.text s) = if str_eq s "" then none else some s
nonempty _ = none

-- `_state_hash`
unfoldable pub state_hash : Fields → Option String
state_hash snapshot = nonempty (get "state_hash" snapshot)

-- `payload if isinstance(payload, dict) else None`
abbrev pub mapping : Option Json → Option Fields
mapping (some (Json.object fields)) = some fields
mapping _ = none

-- `_snapshot`
unfoldable pub snapshot_of : Reply → Option Fields
snapshot_of Reply.transport_error = none
snapshot_of (Reply.response code body) = if code == 200 then mapping body else none

-- `status in REFUNDABLE_ORDER_STATES`; a list or a mapping cannot be hashed.
abbrev pub refundable_status : Json → Result Bool
refundable_status (Json.text s) = ok (str_eq s "PAID" || str_eq s "PARTIALLY_REFUNDED")
refundable_status (Json.array items) = err Exc.type_error
refundable_status (Json.object fields) = err Exc.type_error
refundable_status _ = ok false

-- The end of `pre_check`: the two amounts of the order against the requested one.
unfoldable pub budget_check : ℤ → Option Decimal → Option Decimal → GateDecision
budget_check amount (some paid) (some refunded) =
    if above (add_decimal refunded (of_amount amount)) paid
    then decided GateDecisionType.block GateReason.refund_budget_exceeded
    else decided GateDecisionType.allow GateReason.within_refund_budget
budget_check amount _ _ = decided GateDecisionType.unknown GateReason.snapshot_unreadable

abbrev pub status_check : ℤ → Fields → Result Bool → Result GateDecision
status_check amount order (err e) = err e
status_check amount order (ok false) =
    ok (decided GateDecisionType.block GateReason.order_not_refundable)
status_check amount order (ok true) = ok (
    budget_check amount (decimal_of (get "paid_amount" order))
      (decimal_of (get "refunded_amount" order)))

abbrev pub order_check : ℤ → Option Fields → Result GateDecision
order_check amount none = ok (decided GateDecisionType.block GateReason.order_not_found)
order_check amount (some order) = status_check amount order (refundable_status (get "status" order))

abbrev pub orders_check : ℤ → String → Option (Table String Fields) → Result GateDecision
orders_check amount order_id none =
    ok (decided GateDecisionType.unknown GateReason.snapshot_unreadable)
orders_check amount order_id (some orders) = order_check amount (lookup order_id orders)

abbrev pub snapshot_check : ℤ → String → Option Fields → Result GateDecision
snapshot_check amount order_id none =
    ok (decided GateDecisionType.unknown GateReason.snapshot_unavailable)
snapshot_check amount order_id (some snapshot) = orders_check amount order_id (orders_of snapshot)

abbrev pub refund_check : Option ℤ → Option String → Reply → Result GateDecision
refund_check (some amount) (some order_id) reply =
    snapshot_check amount order_id (snapshot_of reply)
refund_check _ _ reply = ok (decided GateDecisionType.unknown GateReason.refund_amount_unreadable)

abbrev pub is_refund : ActionType → Bool
is_refund ActionType.refund_order = true
is_refund _ = false

-- `pre_check`, with the reply to its request for the snapshot.
unfoldable pub pre_check : SimAction → Reply → Result GateDecision
pre_check action reply =
    if not (is_refund action.action_type)
    then ok (decided GateDecisionType.allow GateReason.not_a_refund_write)
    else elim (gate_money (argument "amount" action.arguments)) [
      | err e ↦ err e
      | ok amount ↦ refund_check amount action.target_id reply
    ]

abbrev pub receipt_check : Option Fields → GateDecision
receipt_check none = decided GateDecisionType.unknown GateReason.receipt_lookup_failed
receipt_check (some receipt) = record {
  decision = GateDecisionType.allow;
  reason_code = GateReason.cached_receipt;
  receipt = some receipt;
}

-- `retry_check`, with the reply to its request for the receipt.
unfoldable pub retry_check : Reply → GateDecision
retry_check Reply.transport_error =
    decided GateDecisionType.unknown GateReason.receipt_lookup_failed
retry_check (Reply.response code body) =
    if code == 404
    then decided GateDecisionType.allow GateReason.retry_safe
    else if not (code == 200)
    then decided GateDecisionType.unknown GateReason.receipt_lookup_failed
    else receipt_check (mapping body)

abbrev pub hash_check : Option String → Option String → Option String → GateDecision
hash_check (some authoritative) (some after) (some before) =
    if not (str_eq authoritative after)
    then decided GateDecisionType.unknown GateReason.stale_view
    else if str_eq authoritative before
    then decided GateDecisionType.block GateReason.effect_not_observed
    else decided GateDecisionType.allow GateReason.effect_observed
hash_check _ _ _ = decided GateDecisionType.unknown GateReason.snapshot_unreadable

abbrev pub effect_check : Fields → Fields → Option Fields → GateDecision
effect_check before after none = decided GateDecisionType.unknown GateReason.snapshot_unavailable
effect_check before after (some authoritative) =
    hash_check (state_hash authoritative) (state_hash after) (state_hash before)

-- `post_check`, with the reply to its request for the snapshot.
unfoldable pub post_check : Fields → Fields → Reply → GateDecision
post_check before after reply = effect_check before after (snapshot_of reply)

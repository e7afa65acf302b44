-- ===== src/Oracle.antt =====
-- packages/oracle/src/rulearena_oracle: the checks of the deterministic oracle over snapshots. A
-- finding keeps its invariant, its status and the names of what offends; the hashes, receipts,
-- events and explanations that it reports besides are left out.
pub mod Amounts
pub mod Reached
mod Tests
use rule_arena.Common.{
  ℕ, suc, ◌+◌, Bool, true, false, not, ◌&&◌, ◌||◌, Option, none, some, List, [], ◌∷◌, ◌++◌, ltb,
  if◌then◌else◌, String,
}
use rule_arena.Common.Int.{ℤ, pos, negsuc, ◌-ℤ◌, ltb_ℤ}
use rule_arena.Common.Text.{codes, str_eq, show_int}
use rule_arena.Common.Table.{Table, lookup, insert, text_key}
use rule_arena.Common.Json.{Json, Items, Fields, get, has_field}
use rule_arena.Decimal.{Decimal, parse_decimal, parse_int}
use rule_arena.Decimal.Compare.{above, difference_negative}

pub data InvariantId : Type 0 where
  net_paid_non_negative refund_not_exceed_paid coupon_single_consumption : InvariantId
  points_value_conservation order_terminal_monotonicity entitlement_non_negative : InvariantId
  entitlement_refund_consistency idempotent_effect : InvariantId

pub data OracleStatus : Type 0 where
  satisfied violated not_applicable insufficient_evidence : OracleStatus

pub record OracleFinding : Type 0 where
  pub invariant_id : InvariantId
  pub status : OracleStatus
  pub offending : List Json

abbrev pub finding : InvariantId → OracleStatus → OracleFinding
finding id status = record { invariant_id = id; status = status; offending = [] }

-- `_state`
abbrev pub state_of : Fields → Option Fields
state_of snapshot = elim (get "state" snapshot) [ Json.object state ↦ some state | _ ↦ none ]

-- The mappings of a list behind the first one; `none` if one of the others is no mapping.
abbrev behind : Fields → Option (List Fields) → Option (List Fields)
behind first none = none
behind first (some others) = some (first ∷ others)

abbrev pub mappings : Items → Option (List Fields)
mappings Items.no_item = some []
mappings (Items.item (Json.object fields) rest) = behind fields (mappings rest)
mappings (Items.item _ rest) = none

-- `_items`
unfoldable pub items : Option Fields → String → Option (List Fields)
items none name = none
items (some state) name = elim (get name state) [ Json.array values ↦ mappings values | _ ↦ none ]

-- `snapshots[-1] if snapshots else None`
abbrev pub last_snapshot : List Fields → Option Fields
last_snapshot [] = none
last_snapshot (snapshot ∷ []) = some snapshot
last_snapshot (snapshot ∷ next ∷ rest) = last_snapshot (next ∷ rest)

unfoldable pub last_items : List Fields → String → Option (List Fields)
last_items snapshots name = elim (last_snapshot snapshots) [
  | none ↦ none
  | some snapshot ↦ items (state_of snapshot) name
]

-- `_decimal`
unfoldable pub amount : Json → Option Decimal
amount (Json.integer (pos n)) =
    some (record { negative = false; coefficient = n; exponent = pos 0 })
amount (Json.integer (negsuc n)) =
    some (record { negative = true; coefficient = n + 1; exponent = pos 0 })
amount (Json.text s) = parse_decimal (codes s)
amount _ = none

-- An integer whose text is as `str` prints it.
abbrev printed : String → Option ℤ → Option ℤ
printed s none = none
printed s (some n) = if str_eq s (show_int n) then some n else none

-- `_integer`
unfoldable pub whole_number : Json → Option ℤ
whole_number (Json.integer n) = some n
whole_number (Json.text s) = printed s (parse_int (codes s))
whole_number _ = none

-- `_integer(item.get(name, 0))`: a missing field counts 0, a field that is `null` does not.
unfoldable pub quantity : String → Fields → Option ℤ
quantity name fields =
    if has_field name fields then whole_number (get name fields) else some (pos 0)

-- The `id` of each item that the test finds bad; `none` if the test cannot read an item.
abbrev with_bad : Json → Option Bool → Option (List Json) → Option (List Json)
with_bad id (some true) (some others) = some (id ∷ others)
with_bad id (some false) (some others) = some others
with_bad id _ _ = none

abbrev pub scan : (Fields → Option Bool) → List Fields → Option (List Json)
scan test [] = some []
scan test (x ∷ xs) = with_bad (get "id" x) (test x) (scan test xs)

abbrev pub verdict : InvariantId → Option (List Json) → OracleFinding
verdict id none = finding id OracleStatus.insufficient_evidence
verdict id (some []) = finding id OracleStatus.satisfied
verdict id (some (x ∷ xs)) = record {
  invariant_id = id;
  status = OracleStatus.violated;
  offending = x ∷ xs;
}

-- The frame of a check that judges the items one by one.
abbrev pub judged : InvariantId → (Fields → Option Bool) → Option (List Fields) → OracleFinding
judged id test none = finding id OracleStatus.insufficient_evidence
judged id test (some []) = finding id OracleStatus.not_applicable
judged id test (some (x ∷ xs)) = verdict id (scan test (x ∷ xs))

abbrev both_amounts : (Decimal → Decimal → Bool) → Option Decimal → Option Decimal → Option Bool
both_amounts bad (some paid) (some refunded) = some (bad paid refunded)
both_amounts bad _ _ = none

-- A test of an order's paid and refunded amounts.
abbrev pub amounts_test : (Decimal → Decimal → Bool) → Fields → Option Bool
amounts_test bad order =
    both_amounts bad (amount (get "paid_amount" order)) (amount (get "refunded_amount" order))

-- `_net_paid`
unfoldable pub net_paid : List Fields → OracleFinding
net_paid snapshots =
    judged InvariantId.net_paid_non_negative (amounts_test difference_negative)
      (last_items snapshots "orders")

-- `refunded > paid`
abbrev pub over_refunded : Decimal → Decimal → Bool
over_refunded paid refunded = above refunded paid

-- `_refund_limit`
unfoldable pub refund_limit : List Fields → OracleFinding
refund_limit snapshots =
    judged InvariantId.refund_not_exceed_paid (amounts_test over_refunded)
      (last_items snapshots "orders")

abbrev overdrawn : Option ℤ → Option ℤ → Option ℤ → Option Bool
overdrawn (some granted) (some consumed) (some revoked) =
    some (ltb_ℤ (granted -ℤ consumed -ℤ revoked) (pos 0))
overdrawn _ _ _ = none

abbrev pub entitlement_test : Fields → Option Bool
entitlement_test item =
    overdrawn (quantity "granted_quantity" item) (quantity "consumed_quantity" item)
      (quantity "revoked_quantity" item)

-- `_entitlement_non_negative`
unfoldable pub entitlement_check : List Fields → OracleFinding
entitlement_check snapshots =
    judged InvariantId.entitlement_non_negative entitlement_test
      (last_items snapshots "entitlements")

-- `event.get("event_type") == kind`
abbrev pub has_text : String → String → Fields → Bool
has_text name kind fields = elim (get name fields) [ Json.text s ↦ str_eq s kind | _ ↦ false ]

-- The checks that name things by `str(value)`, which is an argument.
module _ (str : Json → String) where
  -- `counts[coupon_id]`
  abbrev pub times_used : String → List Fields → ℕ
  times_used id [] = 0
  times_used id (event ∷ events) =
      let rest = times_used id events in
      if has_text "event_type" "COUPON_USED" event && str_eq (str (get "aggregate_id" event)) id
      then suc rest
      else rest

  abbrev used_twice : ℕ → Option ℤ → Option Bool
  used_twice count none = none
  used_twice count (some usage) = some (ltb_ℤ (pos 1) usage || ltb 1 count)

  abbrev pub coupon_test : List Fields → Fields → Option Bool
  coupon_test events coupon =
      used_twice (times_used (str (get "id" coupon)) events) (quantity "usage_count" coupon)

  -- `_coupon_consumption`
  unfoldable pub coupon_consumption : List Fields → List Fields → OracleFinding
  coupon_consumption snapshots events =
      judged InvariantId.coupon_single_consumption (coupon_test events)
        (last_items snapshots "coupons")

  abbrev values_of : Option (List String) → List String
  values_of none = []
  values_of (some values) = values

  -- The status of each order, put behind the ones of earlier snapshots.
  abbrev pub with_statuses : List Fields → Table String (List String) → Table String (List String)
  with_statuses [] histories = histories
  with_statuses (order ∷ orders) histories =
      let id = str (get "id" order) in
      with_statuses orders
        (insert id (values_of (lookup id histories) ++ (str (get "status" order) ∷ [])) histories)

  -- The histories of all snapshots; `none` if one has no collection of orders.
  abbrev pub histories_of :
      List Fields → Table String (List String) → Option (Table String (List String))
  histories_of [] histories = some histories
  histories_of (snapshot ∷ rest) histories = elim (items (state_of snapshot) "orders") [
    | none ↦ none
    | some orders ↦ histories_of rest (with_statuses orders histories)
  ]

  -- `value in TERMINAL_ORDER_STATES`
  abbrev pub is_terminal_state : String → Bool
  is_terminal_state s = str_eq s "CANCELLED" || str_eq s "REFUNDED"

  -- Whether a terminal status is followed by another one.
  abbrev pub leaves_terminal : List String → Bool
  leaves_terminal [] = false
  leaves_terminal (s ∷ []) = false
  leaves_terminal (s ∷ t ∷ rest) =
      is_terminal_state s && not (str_eq t s) || leaves_terminal (t ∷ rest)

  abbrev pub left_terminal : Table String (List String) → List Json
  left_terminal [] = []
  left_terminal ((id, values) ∷ rest) =
      let others = left_terminal rest in
      if leaves_terminal values then Json.text id ∷ others else others

  abbrev judged_histories : Option (Table String (List String)) → OracleFinding
  judged_histories none =
      finding InvariantId.order_terminal_monotonicity OracleStatus.insufficient_evidence
  judged_histories (some []) =
      finding InvariantId.order_terminal_monotonicity OracleStatus.not_applicable
  judged_histories (some (x ∷ xs)) =
      verdict InvariantId.order_terminal_monotonicity (some (left_terminal (x ∷ xs)))

  -- `_terminal_monotonicity`
  unfoldable pub terminal_monotonicity : List Fields → OracleFinding
  terminal_monotonicity (first ∷ second ∷ rest) =
      judged_histories (histories_of (first ∷ second ∷ rest) [])
  terminal_monotonicity _ =
      finding InvariantId.order_terminal_monotonicity OracleStatus.insufficient_evidence

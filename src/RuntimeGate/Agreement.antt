-- ===== src/RuntimeGate/Agreement.antt =====
-- The gate against the reference simulator: what the gate lets pass, the simulator's own check of
-- the amounts does not refuse.
use rule_arena.Common.{
  ℕ, ◌*◌, ◌≡◌, refl, sym, ap, ◌∙◌, Bool, true, false, Bool-cases, Option-cases, inl, inr, Option,
  none, some, String, arith,
}
use rule_arena.Common.Int.{ℤ, pos, negsuc, ◌+ℤ◌, ◌-ℤ◌, ◌≤ℤ◌, ◌<ℤ◌, leb_ℤ, ltb_ℤ, ltb_ℤ→le}
use rule_arena.Common.Outcome.{ok, done, or_raise}
use rule_arena.Common.Table.{Table, lookup, text_key}
use rule_arena.Common.Json.{Fields, get}
use rule_arena.Decimal.{Decimal, signed, cent, quantize}
use rule_arena.Decimal.Compare.{add_decimal, above, of_amount, scaled}
use rule_arena.Simulator.Models.{SimAction, SimOrder, Value, argument}
use rule_arena.Simulator.Argument.{money, read_decimal}
use rule_arena.RuntimeGate.{
  Reply, gate_money, money_decimal, positive, decimal_of, is_refund, pre_check, snapshot_of,
  orders_of,
}
use rule_arena.RuntimeGate.Safety.{passes, pre_check-passes}

positive-pos : (a : ℤ) {b : ℤ} → positive a ≡ some b → (a ≡ b) × (pos 0 <ℤ a)
positive-pos a h = elim (Bool-cases (leb_ℤ a (pos 0))) [
  | inl small ↦ cc (rw small at h)
  | inr large ↦ (cc (rw large at h), ground arith)
]

read_same : (v : Value) {d : Decimal} → money_decimal (some v) ≡ some d → read_decimal v ≡ some d
unfolding read_decimal
read_same (Value.text s) h = h
read_same (Value.int (pos n)) h = h
read_same (Value.int (negsuc n)) h = h
read_same (Value.bool b) h = cc

-- An amount that the gate reads is positive, and the simulator reads the same amount.
pub gate_money-money :
    (v : Option Value) {a : ℤ} → gate_money v ≡ ok (some a) → (money v ≡ done a) × (pos 0 <ℤ a)
unfolding gate_money money or_raise
gate_money-money none h = cc
gate_money-money (some v) {a} h = elim (Option-cases (money_decimal (some v))) [
  | inl unread ↦ cc (rw (gate_money, unread) at h)
  | inr (d, read) ↦ elim (Option-cases (quantize d)) [
    | inl long ↦ cc (rw (gate_money, read, long) at h)
    | inr (q, rounded) ↦
        let e : positive q ≡ some a = cc (rw (gate_money, read, rounded) at h) in
        let (same, above_zero) = positive-pos q e in
        (rw (money, read_same v read, rounded) (ap done same), rw (sym same) above_zero)
  ]
]

abbrev pub cents_decimal : Bool → ℕ → Decimal
cents_decimal negative c = record { negative = negative; coefficient = c; exponent = negsuc 1 }

scaled-cents : (n : Bool) (c : ℕ) → scaled (negsuc 3) (cents_decimal n c) ≡ signed n (c * cent)
unfolding ◌-ℤ◌
scaled-cents n c = refl

scaled-of_amount : (a : ℤ) → scaled (negsuc 3) (of_amount a) ≡ a
unfolding ◌-ℤ◌
scaled-of_amount (pos n) = ground arith
scaled-of_amount (negsuc n) = ground arith

add_decimal-amounts :
    (m : Bool) (e : ℕ) (a : ℤ)
    → add_decimal (cents_decimal m e) (of_amount a) ≡ of_amount (signed m (e * cent) +ℤ a)
unfolding add_decimal ◌-ℤ◌
add_decimal-amounts m e a = ap (λ v. of_amount (signed m (e * cent) +ℤ v)) (scaled-of_amount a)

above-amounts :
    (n : Bool) (c : ℕ) (a : ℤ)
    → above (of_amount a) (cents_decimal n c) ≡ ltb_ℤ (signed n (c * cent)) a
unfolding above ◌-ℤ◌
above-amounts n c a = ap (λ v. ltb_ℤ (signed n (c * cent)) v) (scaled-of_amount a)

pub cents_fit :
    (n m : Bool) (c e : ℕ) (amount : ℤ)
    → above (add_decimal (cents_decimal m e) (of_amount amount)) (cents_decimal n c) ≡ false
    → signed m (e * cent) +ℤ amount ≤ℤ signed n (c * cent)
cents_fit n m c e amount h =
    let test : ltb_ℤ (signed n (c * cent)) (signed m (e * cent) +ℤ amount) ≡ false =
      sym (above-amounts n c _)
      ∙ ap (λ d. above d (cents_decimal n c)) (sym (add_decimal-amounts m e amount))
      ∙ h in
    ltb_ℤ→le (signed n (c * cent)) (signed m (e * cent) +ℤ amount) test

-- A reply whose snapshot has the order under the name, with its two amounts in whole cents.
pub record ShowsOrder (reply : Reply) (order_id : String) (o : SimOrder) : Type 0 where
  pub snapshot : Fields
  pub orders : Table String Fields
  pub order : Fields
  pub paid_sign : Bool
  pub paid_cents : ℕ
  pub refunded_sign : Bool
  pub refunded_cents : ℕ
  pub snapshot_read : snapshot_of reply ≡ some snapshot
  pub orders_read : orders_of snapshot ≡ some orders
  pub order_found : lookup order_id orders ≡ some order
  pub paid_read : decimal_of (get "paid_amount" order) ≡ some (cents_decimal paid_sign paid_cents)
  pub refunded_read :
      decimal_of (get "refunded_amount" order) ≡ some (cents_decimal refunded_sign refunded_cents)
  pub paid_shown : signed paid_sign (paid_cents * cent) ≡ o.paid_amount
  pub refunded_shown : signed refunded_sign (refunded_cents * cent) ≡ o.refunded_amount

-- If `pre_check` lets a refund pass on a snapshot that shows an order of the simulator, then the
-- simulator reads the requested amount, it is positive, and with what was refunded it is not more
-- than what was paid, so that the refund is not refused for its amount.
pub pre_check-refund_order :
    (action : SimAction) (reply : Reply) (order_id : String) (o : SimOrder)
    → ShowsOrder reply order_id o
    → is_refund action.action_type ≡ true
    → action.target_id ≡ some order_id
    → passes (pre_check action reply) ≡ true
    → (amount : ℤ) × (money (argument "amount" action.arguments) ≡ done amount)
      × (pos 0 <ℤ amount)
      × (o.refunded_amount +ℤ amount ≤ℤ o.paid_amount)
pre_check-refund_order action reply order_id o shown refund target h =
    let covered = pre_check-passes action reply refund h in
    let within = covered.within in
    let (read, above_zero) = gate_money-money _ covered.amount_read in
    let same_id : covered.order_id ≡ order_id = cc (covered.target_read, target) in
    let same_snapshot : covered.snapshot ≡ shown.snapshot =
      cc (covered.snapshot_read, shown.snapshot_read) in
    let same_orders : covered.orders ≡ shown.orders =
      cc (covered.orders_read, shown.orders_read, same_snapshot) in
    let same_order : covered.order ≡ shown.order =
      cc (covered.order_found, shown.order_found, same_orders, same_id) in
    let paid : within.paid ≡ cents_decimal shown.paid_sign shown.paid_cents =
      cc (within.paid_read, shown.paid_read, same_order) in
    let refunded : within.refunded ≡ cents_decimal shown.refunded_sign shown.refunded_cents =
      cc (within.refunded_read, shown.refunded_read, same_order) in
    let fits =
      cents_fit shown.paid_sign shown.refunded_sign shown.paid_cents shown.refunded_cents
        covered.amount (rw (paid, refunded) at within.fits) in
    (covered.amount, read, above_zero, rw (shown.refunded_shown, shown.paid_shown) at fits)

-- ===== src/Oracle/Reached.antt =====
-- The oracle on the simulator's own states: it does not report a refund beyond what was paid.
use rule_arena.Common.{
  ℕ, ◌*◌, ◌≡◌, refl, sym, ap, ◌∙◌, Bool, true, false, some, List, [], ◌∷◌, All, arith,
}
use rule_arena.Common.Int.{◌≤ℤ◌, ◌-ℤ◌, ltb_ℤ}
use rule_arena.Common.Json.{Fields, get}
use rule_arena.Decimal.{signed, cent}
use rule_arena.Decimal.Compare.{above}
use rule_arena.RuntimeGate.Agreement.{cents_decimal}
use rule_arena.Simulator.Models.{SimOrder, SimulationState}
use rule_arena.Simulator.Rules.{ReferenceSimulator}
use rule_arena.Simulator.Valid.{OrderIsValid}
use rule_arena.Simulator.Reach.{Reach, Reach-IsValid}
use rule_arena.Oracle.{
  OracleStatus, InvariantId, refund_limit, net_paid, judged, scan, amounts_test, over_refunded,
  last_items, amount,
}
use rule_arena.Oracle.Amounts.{net_paid-refund_limit}

-- A snapshot's order that shows the two amounts of a simulated order in whole cents.
pub record ShowsAmounts (fields : Fields) (o : SimOrder) : Type 0 where
  pub paid_sign : Bool
  pub paid_cents : ℕ
  pub refunded_sign : Bool
  pub refunded_cents : ℕ
  pub paid_read : amount (get "paid_amount" fields) ≡ some (cents_decimal paid_sign paid_cents)
  pub refunded_read :
      amount (get "refunded_amount" fields) ≡ some (cents_decimal refunded_sign refunded_cents)
  pub paid_shown : o.paid_amount ≡ signed paid_sign (paid_cents * cent)
  pub refunded_shown : o.refunded_amount ≡ signed refunded_sign (refunded_cents * cent)

pub data Shows : List Fields → List SimOrder → Type 0 where
  nothing : Shows [] []
  one_more :
      {fields : Fields} {o : SimOrder} {rest : List Fields} {orders : List SimOrder}
      → ShowsAmounts fields o
      → Shows rest orders
      → Shows (fields ∷ rest) (o ∷ orders)

above-cents :
    (n m : Bool) (c e : ℕ)
    → above (cents_decimal m e) (cents_decimal n c) ≡ ltb_ℤ (signed n (c * 1)) (signed m (e * 1))
unfolding above ◌-ℤ◌
above-cents n m c e = refl

not_above :
    (n m : Bool) (c e : ℕ)
    → signed m (e * cent) ≤ℤ signed n (c * cent)
    → ltb_ℤ (signed n (c * 1)) (signed m (e * 1)) ≡ false
unfolding ◌-ℤ◌
not_above true true c e h = ground arith
not_above true false c e h = ground arith
not_above false true c e h = ground arith
not_above false false c e h = ground arith

order_within :
    (fields : Fields) (o : SimOrder)
    → ShowsAmounts fields o
    → OrderIsValid o
    → amounts_test over_refunded fields ≡ some false
order_within fields o shown valid =
    let fits = rw (shown.refunded_shown, shown.paid_shown) at valid.refund_fits in
    rw (shown.paid_read, shown.refunded_read)
      (ap some (
        above-cents _ _ _ _
        ∙ not_above shown.paid_sign shown.refunded_sign shown.paid_cents shown.refunded_cents fits))

scan_clean :
    {items : List Fields} {orders : List SimOrder}
    → Shows items orders
    → All OrderIsValid orders
    → scan (amounts_test over_refunded) items ≡ some []
scan_clean nothing valid = refl
scan_clean (one_more {fields} {o} shown others) valid =
    rw (order_within fields o shown valid.0, scan_clean others valid.1) refl

judged_clean :
    (items : List Fields)
    → scan (amounts_test over_refunded) items ≡ some []
    → ¬ (
        (judged InvariantId.refund_not_exceed_paid (amounts_test over_refunded) (some items)).status
        ≡ OracleStatus.violated)
judged_clean [] h e = cc
judged_clean (x ∷ xs) h e = cc (rw h at e)

-- On snapshots whose last one shows the orders of a state that the simulator reaches, with amounts in
-- whole cents, the oracle finds neither refunds beyond what was paid nor a negative net payment.
pub Reach-refund_limit :
    (sim : ReferenceSimulator) {s : SimulationState}
    → Reach sim s
    → (snapshots : List Fields) {orders : List Fields} → last_items snapshots "orders" ≡ some orders
    → Shows orders s.orders
    → ¬ ((refund_limit snapshots).status ≡ OracleStatus.violated)
      × ¬ ((net_paid snapshots).status ≡ OracleStatus.violated)
unfolding refund_limit
Reach-refund_limit sim {s} reached snapshots {orders} found shown =
    let valid = Reach-IsValid sim reached in
    let clean = judged_clean orders (scan_clean shown valid.orders) in
    let limit : ¬ ((refund_limit snapshots).status ≡ OracleStatus.violated) =
      λ e. clean (rw found at e) in
    (limit, λ e. limit (sym (net_paid-refund_limit snapshots) ∙ e))

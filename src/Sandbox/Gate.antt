-- ===== src/Sandbox/Gate.antt =====
-- The runtime gate on the snapshot that the commerce sandbox itself returns.
use rule_arena.Common.{
  ℕ, suc, ◌*◌, ◌≡◌, ◌≢◌, refl, sym, ap, ◌∙◌, true, false, Bool-cases, inl, inr, some, List, [], ◌∷◌,
  All, All-map, All-get_elem?, get_elem?, String, arith,
}
use mathlib.Core.Path.{subst}
use rule_arena.Common.Int.{ℤ, pos, negsuc, ◌+ℤ◌, ◌≤ℤ◌}
use rule_arena.Common.Outcome.{ok}
use rule_arena.Common.Table.{
  Table, lookup, insert, lookup-insert_self, lookup-insert_other, text_key,
}
use rule_arena.Common.Text.{str_eq, text_before, eq_iff}
use rule_arena.Common.Json.{Json, Fields, get}
use rule_arena.Decimal.{cent}
use rule_arena.Simulator.Models.{SimAction, argument}
use rule_arena.RuntimeGate.{
  Reply, decimal_of, gate_money, is_refund, keyed_orders, orders_of, pre_check, refundable_status,
  snapshot_of, with_order,
}
use rule_arena.RuntimeGate.Safety.{passes, pre_check-passes}
use rule_arena.RuntimeGate.Agreement.{cents_decimal, cents_fit}
use rule_arena.Sandbox.Models.{Order, OrderStatus, RunSpace}
use rule_arena.Sandbox.Payments.{is_refundable}
use rule_arena.Sandbox.Printed.{parse_decimal-amount_text}
use rule_arena.Sandbox.Values.{amount_text}
use rule_arena.Sandbox.Snapshot.{insert_by, objects, order_by, order_fields, order_status, snapshot}
use rule_arena.Sandbox.Execute.{profile_of}
use rule_arena.Sandbox.Valid.{OrderIsValid, RunIsValid}

module _ {ℓ κ} {A : Type ℓ} (P : A → Type κ) (id : A → String) where
  All-insert_by : (x : A) (xs : List A) → P x → All P xs → All P (insert_by id x xs)
  All-insert_by x [] p h = (p, tt)
  All-insert_by x (y ∷ ys) p (q, h) = elim (Bool-cases (text_before (id y) (id x))) [
    | inl e ↦ rw e (q, All-insert_by x ys p h)
    | inr e ↦ rw e (p, (q, h))
  ]

  All-order_by : (xs : List A) → All P xs → All P (order_by id xs)
  All-order_by [] h = tt
  All-order_by (x ∷ xs) (p, h) = All-insert_by x (order_by id xs) p (All-order_by xs h)

-- The order stands in a list.
abbrev IsIn : List Order → Order → Type 0
IsIn rows order = (i : ℕ) × (get_elem? rows i ≡ some order)

IsIn-All : (rows : List Order) → All (IsIn rows) rows
IsIn-All [] = tt
IsIn-All (row ∷ rows) = (
  (0, refl),
  All-map (IsIn rows) (IsIn (row ∷ rows)) (λ x (i, there). (suc i, there)) rows (IsIn-All rows),
)

module _ (rows : List Order) where
  -- What the gate's table of orders holds under a name.
  record Listed (name : String) (fields : Fields) : Type 0 where
    order : Order
    within : IsIn rows order
    shown : fields ≡ order_fields order
    named : order.id ≡ name

  abbrev Faithful : Table String Fields → Type 0
  Faithful table =
      (name : String) (fields : Fields) → lookup name table ≡ some fields → Listed name fields

  Faithful-with_order :
      (order : Order) (table : Table String Fields)
      → IsIn rows order
      → Faithful table
      → Faithful (with_order (order_fields order) table)
  unfolding get
  Faithful-with_order order table inside faithful name fields h =
      elim (Bool-cases (str_eq name order.id)) [
        | inl e ↦
            let same : name ≡ order.id = (eq_iff name order.id).0 e in
            let at_id : lookup order.id (insert order.id (order_fields order) table) ≡ some fields =
              rw same at h in
            let shown : fields ≡ order_fields order =
              cc (at_id, lookup-insert_self order.id (order_fields order) table) in
            record { order = order; within = inside; shown = shown; named = sym same }
        | inr e ↦
            let apart : name ≢ order.id = λ q. cc (e, (eq_iff name order.id).1 q) in
            faithful name fields
              (sym (lookup-insert_other name order.id (order_fields order) table apart) ∙ h)
      ]

  Faithful-keyed_orders :
      (orders : List Order) (table found : Table String Fields)
      → All (IsIn rows) orders
      → Faithful table
      → keyed_orders (objects order_fields orders) table ≡ some found
      → Faithful found
  Faithful-keyed_orders [] table found inside faithful h =
      let same : table ≡ found = cc in subst Faithful same faithful
  Faithful-keyed_orders (order ∷ orders) table found (here, inside) faithful h =
      Faithful-keyed_orders orders (with_order (order_fields order) table) found inside
        (Faithful-with_order order table here faithful) h

refundable_status-is_refundable :
    (status : OrderStatus)
    → refundable_status (Json.text (order_status status)) ≡ ok true
    → is_refundable status ≡ true
refundable_status-is_refundable OrderStatus.draft h = cc
refundable_status-is_refundable OrderStatus.pending_payment h = cc
refundable_status-is_refundable OrderStatus.paid h = refl
refundable_status-is_refundable OrderStatus.cancelled h = cc
refundable_status-is_refundable OrderStatus.partially_refunded h = refl
refundable_status-is_refundable OrderStatus.refunded h = cc

-- What `decimal_of` reads from an amount that is not negative.
decimal_of-amount_text :
    (a : ℤ)
    → pos 0 ≤ℤ a
    → (c : ℕ) × (a ≡ pos c)
      × (decimal_of (Json.text (amount_text a)) ≡ some (cents_decimal false c))
unfolding decimal_of
decimal_of-amount_text (pos n) h = (n, refl, parse_decimal-amount_text n)
decimal_of-amount_text (negsuc n) h = absurd (omega (arith, h))

-- An order of the run that the sandbox can refund, by the amount that the gate has read in
-- ten-thousandths.
pub record IsAffordable (run : RunSpace) (action : SimAction) : Type 0 where
  pub order : Order
  pub index : ℕ
  pub stored : get_elem? run.orders index ≡ some order
  pub target : action.target_id ≡ some order.id
  pub refundable : is_refundable order.status ≡ true
  pub amount : ℤ
  pub amount_read : gate_money (argument "amount" action.arguments) ≡ ok (some amount)
  pub paid : ℕ
  pub refunded : ℕ
  pub paid_cents : order.paid_amount ≡ pos paid
  pub refunded_cents : order.refunded_amount ≡ pos refunded
  pub fits : pos (refunded * cent) +ℤ amount ≤ℤ pos (paid * cent)

module _ (digest : Fields → String) (run : RunSpace) (now : String) where
  abbrev pub own_reply : Reply
  own_reply = Reply.response 200 (some (Json.object (snapshot digest run now)))

  snapshot_listed :
      orders_of (snapshot digest run now)
      ≡ keyed_orders (objects order_fields (order_by (λ row. row.id) run.orders)) []
  unfolding orders_of snapshot get
  snapshot_listed = refl

  own_snapshot : snapshot_of own_reply ≡ some (snapshot digest run now)
  unfolding snapshot_of
  own_snapshot = refl

-- The gate decides rightly on the sandbox's own snapshot: if `pre_check` lets a refund pass on the
-- snapshot that a well-formed run returns, then the run stores the order under the target of the
-- action, it is refundable, and the requested amount on top of what was refunded is not above what
-- was paid.
pub pre_check-IsAffordable :
    (digest : Fields → String) (run : RunSpace) (now : String) (action : SimAction)
    → RunIsValid run
    → is_refund action.action_type ≡ true
    → passes (pre_check action (own_reply digest run now)) ≡ true
    → IsAffordable run action
unfolding get
pre_check-IsAffordable digest run now action (us, cs, os, rs, ms, es, ev) refund h =
    let covered = pre_check-passes action (own_reply digest run now) refund h in
    let within = covered.within in
    let same : covered.snapshot ≡ snapshot digest run now =
      cc (covered.snapshot_read, own_snapshot digest run now) in
    let keyed : keyed_orders (objects order_fields (order_by (λ row. row.id) run.orders)) []
        ≡ some covered.orders =
      sym (snapshot_listed digest run now) ∙ (rw same at covered.orders_read) in
    let listed =
      Faithful-keyed_orders run.orders (order_by (λ row. row.id) run.orders) [] covered.orders
        (All-order_by (IsIn run.orders) (λ row. row.id) run.orders (IsIn-All run.orders))
        (λ name fields q. cc) keyed covered.order_id covered.order covered.order_found in
    let (i, stored) = listed.within in
    let valid =
      All-get_elem? (OrderIsValid (profile_of run) run.scenario_type) run.orders i os stored in
    let (p, paid, read_paid) = decimal_of-amount_text listed.order.paid_amount valid.paid in
    let (r, refunded, read_refunded) =
      decimal_of-amount_text listed.order.refunded_amount valid.refunded in
    let paid_decimal : within.paid ≡ cents_decimal false p =
      cc (rw listed.shown at within.paid_read, read_paid) in
    let refunded_decimal : within.refunded ≡ cents_decimal false r =
      cc (rw listed.shown at within.refunded_read, read_refunded) in
    record {
      order = listed.order;
      index = i;
      stored = stored;
      target = covered.target_read ∙ ap some (sym listed.named);
      refundable =
          refundable_status-is_refundable listed.order.status
            (rw listed.shown at within.refundable);
      amount = covered.amount;
      amount_read = covered.amount_read;
      paid = p;
      refunded = r;
      paid_cents = paid;
      refunded_cents = refunded;
      fits =
          cents_fit false false p r covered.amount
            (rw (paid_decimal, refunded_decimal) at within.fits);
    }

-- ===== src/Oracle/Amounts.antt =====
-- The two checks of the refunded amounts, as exact arithmetic has them.
use rule_arena.Common.{
  ◌≡◌, refl, ap, ◌∙◌, Bool, Option-cases, inl, inr, Option, none, some, List, [], ◌∷◌, arith,
}
use rule_arena.Common.Int.{ℤ, pos, ◌-ℤ◌, ltb_ℤ, min_ℤ}
use rule_arena.Common.Json.{Json, Fields, get}
use rule_arena.Decimal.{Decimal}
use rule_arena.Decimal.Compare.{above, difference_negative}
use rule_arena.Oracle.{
  InvariantId, net_paid, refund_limit, judged, verdict, scan, amounts_test, over_refunded,
  last_items, amount,
}

min_ℤ_comm : (a b : ℤ) → min_ℤ a b ≡ min_ℤ b a
min_ℤ_comm a b = ground arith

negative-ltb_ℤ : (a b : ℤ) → ltb_ℤ (a -ℤ b) (pos 0) ≡ ltb_ℤ a b
unfolding ◌-ℤ◌
negative-ltb_ℤ a b = ground arith

difference_negative-above : (p r : Decimal) → difference_negative p r ≡ above r p
unfolding difference_negative above
difference_negative-above p r = rw (min_ℤ_comm r.exponent p.exponent) (negative-ltb_ℤ _ _)

scan_same :
    (f g : Fields → Option Bool) (xs : List Fields)
    → ((x : Fields) → f x ≡ g x)
    → scan f xs ≡ scan g xs
scan_same f g [] h = refl
scan_same f g (x ∷ xs) h = rw (h x, scan_same f g xs h) refl

both_amounts_same :
    (f g : Decimal → Decimal → Bool) (order : Fields)
    → ((p r : Decimal) → f p r ≡ g p r)
    → amounts_test f order ≡ amounts_test g order
both_amounts_same f g order h = elim (Option-cases (amount (get "paid_amount" order))) [
  | inl unread ↦ rw unread refl
  | inr (p, paid) ↦ elim (Option-cases (amount (get "refunded_amount" order))) [
    | inl unread ↦ rw (paid, unread) refl
    | inr (r, refunded) ↦ rw (paid, refunded) (ap some (h p r))
  ]
]

verdict_status :
    (i j : InvariantId) (bad : Option (List Json)) → (verdict i bad).status ≡ (verdict j bad).status
verdict_status i j none = refl
verdict_status i j (some []) = refl
verdict_status i j (some (x ∷ xs)) = refl

judged_status :
    (i j : InvariantId) (f g : Fields → Option Bool) (orders : Option (List Fields))
    → ((x : Fields) → f x ≡ g x)
    → (judged i f orders).status ≡ (judged j g orders).status
judged_status i j f g none h = refl
judged_status i j f g (some []) h = refl
judged_status i j f g (some (x ∷ xs)) h =
    ap (λ bad. (verdict i bad).status) (scan_same f g (x ∷ xs) h) ∙ verdict_status i j _

-- With exact differences, the check of the net payment and the check of the refund limit come to the
-- same status.
pub net_paid-refund_limit :
    (snapshots : List Fields) → (net_paid snapshots).status ≡ (refund_limit snapshots).status
unfolding net_paid refund_limit
net_paid-refund_limit snapshots =
    judged_status InvariantId.net_paid_non_negative InvariantId.refund_not_exceed_paid
      (amounts_test difference_negative) (amounts_test over_refunded)
      (last_items snapshots "orders")
      (λ order. both_amounts_same _ _ order difference_negative-above)

-- ===== src/Sandbox/Snapshot.antt =====
-- service.py of services/commerce_sandbox: `_snapshot` and `_inspect_state`. The digest of the state
-- (SHA-256 of its canonical JSON) and the clock's text are arguments.
use rule_arena.Common.{
  Bool, false, not, Option, none, some, List, [], ◌∷◌, String, any, if◌then◌else◌,
}
use rule_arena.Common.Int.{pos}
use rule_arena.Common.Outcome.{Outcome, Exc, done, raise, reject_if, ◌>>=◌, ◌>>◌}
use rule_arena.Common.Text.{str_eq, text_before}
use rule_arena.Common.Json.{Json, Items, Fields, get, has_field}
use rule_arena.Sandbox.Models.{
  TestUser, UserMembership, Coupon, CouponStatus, Order, OrderStatus, Membership, MembershipStatus,
  Entitlement, EntitlementStatus, Code, RunSpace,
}
use rule_arena.Sandbox.Values.{check_args, amount_text, currency_text}
use rule_arena.Sandbox.Rows.{Handler}

-- `order_by(Model.id)`
module _ {ℓ} {A : Type ℓ} (id : A → String) where
  abbrev pub insert_by : A → List A → List A
  insert_by x [] = x ∷ []
  insert_by x (y ∷ ys) =
      let rest = insert_by x ys in if text_before (id y) (id x) then y ∷ rest else x ∷ y ∷ ys

  abbrev pub order_by : List A → List A
  order_by [] = []
  order_by (x ∷ xs) = insert_by x (order_by xs)

abbrev pub optional_text : Option String → Json
optional_text none = Json.null
optional_text (some s) = Json.text s

abbrev pub membership_flag : UserMembership → String
membership_flag UserMembership.inactive = "INACTIVE"
membership_flag UserMembership.active = "ACTIVE"

abbrev pub coupon_status : CouponStatus → String
coupon_status CouponStatus.available = "AVAILABLE"
coupon_status CouponStatus.reserved = "RESERVED"
coupon_status CouponStatus.used = "USED"
coupon_status CouponStatus.restored = "RESTORED"

abbrev pub order_status : OrderStatus → String
order_status OrderStatus.draft = "DRAFT"
order_status OrderStatus.pending_payment = "PENDING_PAYMENT"
order_status OrderStatus.paid = "PAID"
order_status OrderStatus.cancelled = "CANCELLED"
order_status OrderStatus.partially_refunded = "PARTIALLY_REFUNDED"
order_status OrderStatus.refunded = "REFUNDED"

abbrev pub membership_status : MembershipStatus → String
membership_status MembershipStatus.active = "ACTIVE"
membership_status MembershipStatus.cancelled = "CANCELLED"
membership_status MembershipStatus.refunded = "REFUNDED"

abbrev pub entitlement_status : EntitlementStatus → String
entitlement_status EntitlementStatus.granted = "GRANTED"
entitlement_status EntitlementStatus.partially_consumed = "PARTIALLY_CONSUMED"
entitlement_status EntitlementStatus.consumed = "CONSUMED"
entitlement_status EntitlementStatus.revoked = "REVOKED"

abbrev pub user_fields : TestUser → Fields
user_fields row = Fields.field "id" (Json.text row.id) (
    Fields.field "balance" (Json.text (amount_text row.balance)) (
      Fields.field "currency" (Json.text (currency_text row.currency)) (
        Fields.field "points_balance" (Json.integer row.points_balance) (
          Fields.field "is_new_user" (Json.boolean row.is_new_user) (
            Fields.field "membership_status" (Json.text (membership_flag row.membership_status))
              Fields.no_field)))))

abbrev pub coupon_fields : Coupon → Fields
coupon_fields row = Fields.field "id" (Json.text row.id) (
    Fields.field "owner_id" (Json.text row.owner_id) (
      Fields.field "face_value" (Json.text (amount_text row.face_value)) (
        Fields.field "threshold" (Json.text (amount_text row.threshold)) (
          Fields.field "currency" (Json.text (currency_text row.currency)) (
            Fields.field "status" (Json.text (coupon_status row.status)) (
              Fields.field "reserved_order_id" (optional_text row.reserved_order_id) (
                Fields.field "used_order_id" (optional_text row.used_order_id) (
                  Fields.field "usage_count" (Json.integer (pos row.usage_count))
                    Fields.no_field))))))))

abbrev pub order_fields : Order → Fields
order_fields row = Fields.field "id" (Json.text row.id) (
    Fields.field "user_id" (Json.text row.user_id) (
      Fields.field "original_amount" (Json.text (amount_text row.original_amount)) (
        Fields.field "discount_amount" (Json.text (amount_text row.discount_amount)) (
          Fields.field "paid_amount" (Json.text (amount_text row.paid_amount)) (
            Fields.field "refunded_amount" (Json.text (amount_text row.refunded_amount)) (
              Fields.field "points_granted" (Json.integer row.points_granted) (
                Fields.field "currency" (Json.text (currency_text row.currency)) (
                  Fields.field "status" (Json.text (order_status row.status))
                    (Fields.field "coupon_id" (optional_text row.coupon_id) Fields.no_field)))))))))

abbrev pub membership_fields : Membership → Fields
membership_fields row = Fields.field "id" (Json.text row.id) (
    Fields.field "user_id" (Json.text row.user_id) (
      Fields.field "paid_amount" (Json.text (amount_text row.paid_amount)) (
        Fields.field "currency" (Json.text (currency_text row.currency))
          (Fields.field "status" (Json.text (membership_status row.status)) Fields.no_field))))

abbrev pub entitlement_fields : Entitlement → Fields
entitlement_fields row = Fields.field "id" (Json.text row.id) (
    Fields.field "membership_id" (Json.text row.membership_id) (
      Fields.field "entitlement_type" (Json.text "USAGE") (
        Fields.field "granted_quantity" (Json.integer row.granted_quantity) (
          Fields.field "consumed_quantity" (Json.integer row.consumed_quantity) (
            Fields.field "revoked_quantity" (Json.integer row.revoked_quantity) (
              Fields.field "status" (Json.text (entitlement_status row.status))
                Fields.no_field))))))

-- The rows of a table as a list of objects.
abbrev pub objects {ℓ} : {A : Type ℓ} → (A → Fields) → List A → Items
objects f [] = Items.no_item
objects f (x ∷ xs) = Items.item (Json.object (f x)) (objects f xs)

abbrev pub run_state : RunSpace → Fields
run_state run =
    Fields.field "users" (Json.array (objects user_fields (order_by (λ row. row.id) run.users))) (
      Fields.field "coupons"
        (Json.array (objects coupon_fields (order_by (λ row. row.id) run.coupons)))
        (Fields.field "orders"
          (Json.array (objects order_fields (order_by (λ row. row.id) run.orders)))
          (Fields.field "memberships"
            (Json.array (objects membership_fields (order_by (λ row. row.id) run.memberships)))
            (Fields.field "entitlements"
              (Json.array (objects entitlement_fields (order_by (λ row. row.id) run.entitlements)))
              Fields.no_field))))

module _ (digest : Fields → String) where
  -- `_snapshot`
  unfoldable pub snapshot : RunSpace → String → Fields
  snapshot run now = Fields.field "schema_version" (Json.text "1.0") (
      Fields.field "run_id" (Json.text run.id) (
        Fields.field "snapshot_version" (Json.integer (pos run.snapshot_version)) (
          Fields.field "state_hash" (Json.text (digest (run_state run))) (
            Fields.field "state" (Json.object (run_state run))
              (Fields.field "captured_at" (Json.text now) Fields.no_field)))))

  abbrev pub scope_of : Fields → Json
  scope_of arguments =
      if has_field "scope" arguments then get "scope" arguments else Json.text "RUN"

  abbrev pub is_scope : Json → Outcome Code Bool
  is_scope (Json.text s) = done (any (str_eq s) ("RUN" ∷ "USER" ∷ "ORDER" ∷ "MEMBERSHIP" ∷ []))
  is_scope (Json.array items) = raise Exc.type_error
  is_scope (Json.object fields) = raise Exc.type_error
  is_scope _ = done false

  -- `_inspect_state`; a scope that cannot be hashed raises a `TypeError`.
  unfoldable pub inspect_state : String → Handler
  inspect_state now profile run command key = do
    check_args ("scope" ∷ []) [] command.arguments
    known ← is_scope (scope_of command.arguments)
    reject_if (not known) Code.invalid_scope
    done (record {
      run = run;
      result =
          Fields.field "scope" (scope_of command.arguments)
            (Fields.field "snapshot" (Json.object (snapshot run now)) Fields.no_field);
      effects = [];
    })

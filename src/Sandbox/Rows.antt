-- ===== src/Sandbox/Rows.antt =====
-- service.py of services/commerce_sandbox: the rows that handlers look up, write and add.
use rule_arena.Common.{
  ℕ, ◌+◌, Option, List, [], ◌∷◌, ◌++◌, ◌==◌, length, set, locate, if◌then◌else◌, String,
}
use Prim.Native.Nat.{max}
use rule_arena.Common.Int.{ℤ}
use rule_arena.Common.Outcome.{Outcome, or_reject}
use rule_arena.Common.Text.{str_eq, join, show_nat}
use rule_arena.Common.Json.{Fields}
use rule_arena.Sandbox.Profile.{SandboxProfile}
use rule_arena.Sandbox.Models.{
  TestUser, Coupon, Order, Refund, EntryType, Membership, Entitlement, BusinessEvent, AggregateType,
  BusinessEventType, Effect, Code, RunSpace, ActionCommand,
}

-- What a handler returns, with the run as it leaves it.
pub record Handled : Type 0 where
  pub run : RunSpace
  pub result : Fields
  pub effects : List Effect

-- A handler may have changed rows when it rejects; the savepoint around it undoes that.
abbrev pub Handler : Type 0
Handler = SandboxProfile → RunSpace → ActionCommand → String → Outcome Code Handled

-- `_user`
abbrev pub find_user : String → RunSpace → Outcome Code (ℕ × TestUser)
find_user name run = or_reject (locate (λ row. str_eq row.id name) run.users) Code.user_not_found

-- `_order`
abbrev pub find_order : String → RunSpace → Outcome Code (ℕ × Order)
find_order name run = or_reject (locate (λ row. str_eq row.id name) run.orders) Code.order_not_found

-- `_coupon`
abbrev pub find_coupon : String → RunSpace → Outcome Code (ℕ × Coupon)
find_coupon name run =
    or_reject (locate (λ row. str_eq row.id name) run.coupons) Code.coupon_not_found

-- `_membership`
abbrev pub find_membership : String → RunSpace → Outcome Code (ℕ × Membership)
find_membership name run =
    or_reject (locate (λ row. str_eq row.id name) run.memberships) Code.membership_not_found

-- `_entitlement`
abbrev pub find_entitlement : String → RunSpace → Outcome Code (ℕ × Entitlement)
find_entitlement name run =
    or_reject (locate (λ row. str_eq row.id name) run.entitlements) Code.entitlement_not_found

-- `_entitlement_by_membership`
abbrev pub entitlement_of : String → RunSpace → Outcome Code (ℕ × Entitlement)
entitlement_of name run =
    or_reject (locate (λ row. str_eq row.membership_id name) run.entitlements)
      Code.entitlement_not_found

-- `_next_id`
unfoldable pub next_id {ℓ} : {A : Type ℓ} → String → List A → String
next_id prefix rows = join prefix (join "-" (show_nat (length rows + 1)))

abbrev pub put_user : ℕ → TestUser → RunSpace → RunSpace
put_user i row run = record run { users = set run.users i row }

abbrev pub put_order : ℕ → Order → RunSpace → RunSpace
put_order i row run = record run { orders = set run.orders i row }

abbrev pub put_coupon : ℕ → Coupon → RunSpace → RunSpace
put_coupon i row run = record run { coupons = set run.coupons i row }

abbrev pub put_membership : ℕ → Membership → RunSpace → RunSpace
put_membership i row run = record run { memberships = set run.memberships i row }

abbrev pub put_entitlement : ℕ → Entitlement → RunSpace → RunSpace
put_entitlement i row run = record run { entitlements = set run.entitlements i row }

abbrev pub add_user : TestUser → RunSpace → RunSpace
add_user row run = record run { users = run.users ++ row ∷ [] }

abbrev pub add_order : Order → RunSpace → RunSpace
add_order row run = record run { orders = run.orders ++ row ∷ [] }

abbrev pub add_coupon : Coupon → RunSpace → RunSpace
add_coupon row run = record run { coupons = run.coupons ++ row ∷ [] }

abbrev pub add_refund : Refund → RunSpace → RunSpace
add_refund row run = record run { refunds = run.refunds ++ row ∷ [] }

abbrev pub add_membership : Membership → RunSpace → RunSpace
add_membership row run = record run { memberships = run.memberships ++ row ∷ [] }

abbrev pub add_entitlement : Entitlement → RunSpace → RunSpace
add_entitlement row run = record run { entitlements = run.entitlements ++ row ∷ [] }

-- `_ledger`
abbrev pub add_entry : String → Option String → EntryType → ℤ → String → RunSpace → RunSpace
add_entry user_id order_id kind amount key run = record run {
  points_ledger =
      run.points_ledger
      ++ record {
        user_id = user_id;
        order_id = order_id;
        entry_type = kind;
        amount = amount;
        idempotency_key = key;
      }
        ∷ [];
}

-- `int(last or 0)` for the largest sequence of the epoch.
abbrev pub last_sequence : ℕ → List BusinessEvent → ℕ
last_sequence epoch [] = 0
last_sequence epoch (event ∷ events) =
    let rest = last_sequence epoch events in
    if event.epoch == epoch then max event.sequence rest else rest

-- `_event`
unfoldable pub emit :
    AggregateType → String → BusinessEventType → Fields → String → RunSpace → RunSpace
emit aggregate_type aggregate_id event_type payload key run = record run {
  events =
      run.events
      ++ record {
        epoch = run.epoch;
        sequence = last_sequence run.epoch run.events + 1;
        aggregate_type = aggregate_type;
        aggregate_id = aggregate_id;
        event_type = event_type;
        payload = payload;
        idempotency_key = key;
      }
        ∷ [];
}

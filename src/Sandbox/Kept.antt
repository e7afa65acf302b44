-- ===== src/Sandbox/Kept.antt =====
-- What every write of a handler keeps: the run's own fields and receipts, and the validity of its
-- rows when the written row is valid.
use rule_arena.Common.{
  ℕ, zero, suc, ◌+◌, ◌≤◌, ◌≡◌, refl, sym, ap, Bool, true, false, Bool-cases, inl, inr, Option, none,
  some, List, [], ◌∷◌, ◌++◌, All, All-append, All-set, All-get_elem?, length, length-append, locate,
  locate_found, if◌then◌else◌, ◌==◌, ==_iff, arith, String,
}
pub mod Orders
pub mod Amounts
pub mod Payments
pub mod Memberships
use Prim.Native.Nat.{max}
use rule_arena.Common.Outcome.{Outcome, Returns}
use rule_arena.Common.Text.{str_eq}
use rule_arena.Common.Json.{Fields}
use rule_arena.Policy.{ScenarioType}
use rule_arena.Sandbox.Profile.{SandboxProfile}
use rule_arena.Sandbox.Models.{
  TestUser, Coupon, Order, Refund, Membership, Entitlement, BusinessEvent, AggregateType,
  BusinessEventType, EntryType, Code, RunSpace,
}
use rule_arena.Common.Int.{ℤ}
use rule_arena.Sandbox.Rows.{
  Handled, last_sequence, put_user, put_order, put_coupon, put_membership, put_entitlement,
  add_user, add_order, add_coupon, add_refund, add_membership, add_entitlement, add_entry, emit,
}
use rule_arena.Sandbox.Runs.{events_of}
use rule_arena.Sandbox.Valid.{
  UserIsValid, OrderIsValid, EntitlementIsValid, CouponIsValid, RefundIsValid, MembershipIsValid,
  IsCounting, EventsAreNumbered, RowsAreValid,
}

events_of-append :
    (epoch : ℕ) (es : List BusinessEvent) (e : BusinessEvent)
    → (e.epoch == epoch) ≡ true
    → events_of epoch (es ++ e ∷ []) ≡ events_of epoch es ++ e ∷ []
events_of-append epoch [] e h = rw h
events_of-append epoch (d ∷ es) e h = elim (Bool-cases (d.epoch == epoch)) [
  | inl q ↦ rw (q, events_of-append epoch es e h)
  | inr q ↦ rw (q, events_of-append epoch es e h)
]

IsCounting-append :
    (n : ℕ) (es : List BusinessEvent) (e : BusinessEvent)
    → IsCounting n es
    → e.sequence ≡ length es + n
    → IsCounting n (es ++ e ∷ [])
IsCounting-append n [] e c h = (omega (arith, h), tt)
IsCounting-append n (d ∷ es) e c h = (c.0, IsCounting-append (n + 1) es e c.1 (omega (arith, h)))

last_sequence-append :
    (epoch : ℕ) (es : List BusinessEvent) (e : BusinessEvent)
    → (e.epoch == epoch) ≡ true
    → last_sequence epoch es ≤ e.sequence
    → last_sequence epoch (es ++ e ∷ []) ≡ e.sequence
last_sequence-append epoch [] e h le = ground (arith, h)
last_sequence-append epoch (d ∷ es) e h le = elim (Bool-cases (d.epoch == epoch)) [
  | inl q ↦
      let smaller : max d.sequence (last_sequence epoch es) ≤ e.sequence = rw q at le in
      let rest = last_sequence-append epoch es e h (omega (arith, smaller)) in
      let top : max d.sequence e.sequence ≡ e.sequence = omega (arith, smaller) in rw (q, rest, top)
  | inr q ↦ rw (q, last_sequence-append epoch es e h (rw q at le))
]

-- `_event` numbers on.
EventsAreNumbered-append :
    (epoch : ℕ) (es : List BusinessEvent) (e : BusinessEvent)
    → e.epoch ≡ epoch
    → e.sequence ≡ last_sequence epoch es + 1
    → EventsAreNumbered epoch es
    → EventsAreNumbered epoch (es ++ e ∷ [])
EventsAreNumbered-append epoch es e same next valid =
    let here : (e.epoch == epoch) ≡ true = ground (arith, same) in
    let grown = events_of-append epoch es e here in
    let top = last_sequence-append epoch es e here (omega (arith, next)) in
    let size = length-append (events_of epoch es) (e ∷ []) in
    record {
      counted = rw grown (
          IsCounting-append 1 (events_of epoch es) e valid.counted
            (omega (arith, next, valid.last)));
      last = rw grown (omega (arith, top, next, valid.last, size));
      past =
          All-append (λ event. event.epoch ≤ epoch) es (e ∷ []) valid.past
            (omega (arith, same), tt);
    }

-- The fields of the run that no handler writes.
abbrev pub Frame : RunSpace → RunSpace → Type 0
Frame run after =
    (after.id ≡ run.id)
    × (after.scenario_type ≡ run.scenario_type)
    × (after.sandbox_version ≡ run.sandbox_version)
    × (after.defect_axes ≡ run.defect_axes)
    × (after.epoch ≡ run.epoch)
    × (after.snapshot_version ≡ run.snapshot_version)
    × (after.receipts ≡ run.receipts)

-- What a handler does to the run, and to the validity of its rows.
pub record Kept (profile : SandboxProfile) (scenario : ScenarioType) (run after : RunSpace)
    : Type 0 where
  pub frame : Frame run after
  pub keeps : RowsAreValid profile scenario run → RowsAreValid profile scenario after

pub Kept-refl :
    (profile : SandboxProfile) (scenario : ScenarioType) (run : RunSpace)
    → Kept profile scenario run run
Kept-refl profile scenario run = record {
  frame = (refl, refl, refl, refl, refl, refl, refl);
  keeps = λ valid. valid;
}

module _ {profile : SandboxProfile} {scenario : ScenarioType} {run after : RunSpace} where
  pub put_user-Kept :
      (i : ℕ) (row : TestUser)
      → (RowsAreValid profile scenario run → UserIsValid profile row)
      → Kept profile scenario run after
      → Kept profile scenario run (put_user i row after)
  put_user-Kept i row h kept = record {
    frame = kept.frame;
    keeps = λ valid.
        let (us, cs, os, rs, ms, es, ev) = kept.keeps valid in
        (All-set (UserIsValid profile) after.users i row us (h valid), cs, os, rs, ms, es, ev);
  }

  pub add_user-Kept :
      (row : TestUser)
      → UserIsValid profile row
      → Kept profile scenario run after
      → Kept profile scenario run (add_user row after)
  add_user-Kept row h kept = record {
    frame = kept.frame;
    keeps = λ valid.
        let (us, cs, os, rs, ms, es, ev) = kept.keeps valid in
        (
          All-append (UserIsValid profile) after.users (row ∷ []) us (h, tt),
          cs,
          os,
          rs,
          ms,
          es,
          ev,
        );
  }

  pub put_coupon-Kept :
      (i : ℕ) (row : Coupon)
      → (RowsAreValid profile scenario run → CouponIsValid row)
      → Kept profile scenario run after
      → Kept profile scenario run (put_coupon i row after)
  put_coupon-Kept i row h kept = record {
    frame = kept.frame;
    keeps = λ valid.
        let (us, cs, os, rs, ms, es, ev) = kept.keeps valid in
        (us, All-set CouponIsValid after.coupons i row cs (h valid), os, rs, ms, es, ev);
  }

  pub add_coupon-Kept :
      (row : Coupon)
      → CouponIsValid row
      → Kept profile scenario run after
      → Kept profile scenario run (add_coupon row after)
  add_coupon-Kept row h kept = record {
    frame = kept.frame;
    keeps = λ valid.
        let (us, cs, os, rs, ms, es, ev) = kept.keeps valid in
        (us, All-append CouponIsValid after.coupons (row ∷ []) cs (h, tt), os, rs, ms, es, ev);
  }

  pub put_order-Kept :
      (i : ℕ) (row : Order)
      → (RowsAreValid profile scenario run → OrderIsValid profile scenario row)
      → Kept profile scenario run after
      → Kept profile scenario run (put_order i row after)
  put_order-Kept i row h kept = record {
    frame = kept.frame;
    keeps = λ valid.
        let (us, cs, os, rs, ms, es, ev) = kept.keeps valid in
        (
          us,
          cs,
          All-set (OrderIsValid profile scenario) after.orders i row os (h valid),
          rs,
          ms,
          es,
          ev,
        );
  }

  pub add_order-Kept :
      (row : Order)
      → OrderIsValid profile scenario row
      → Kept profile scenario run after
      → Kept profile scenario run (add_order row after)
  add_order-Kept row h kept = record {
    frame = kept.frame;
    keeps = λ valid.
        let (us, cs, os, rs, ms, es, ev) = kept.keeps valid in
        (
          us,
          cs,
          All-append (OrderIsValid profile scenario) after.orders (row ∷ []) os (h, tt),
          rs,
          ms,
          es,
          ev,
        );
  }

  pub add_refund-Kept :
      (row : Refund)
      → RefundIsValid row
      → Kept profile scenario run after
      → Kept profile scenario run (add_refund row after)
  add_refund-Kept row h kept = record {
    frame = kept.frame;
    keeps = λ valid.
        let (us, cs, os, rs, ms, es, ev) = kept.keeps valid in
        (us, cs, os, All-append RefundIsValid after.refunds (row ∷ []) rs (h, tt), ms, es, ev);
  }

  pub put_membership-Kept :
      (i : ℕ) (row : Membership)
      → (RowsAreValid profile scenario run → MembershipIsValid row)
      → Kept profile scenario run after
      → Kept profile scenario run (put_membership i row after)
  put_membership-Kept i row h kept = record {
    frame = kept.frame;
    keeps = λ valid.
        let (us, cs, os, rs, ms, es, ev) = kept.keeps valid in
        (us, cs, os, rs, All-set MembershipIsValid after.memberships i row ms (h valid), es, ev);
  }

  pub add_membership-Kept :
      (row : Membership)
      → MembershipIsValid row
      → Kept profile scenario run after
      → Kept profile scenario run (add_membership row after)
  add_membership-Kept row h kept = record {
    frame = kept.frame;
    keeps = λ valid.
        let (us, cs, os, rs, ms, es, ev) = kept.keeps valid in
        (
          us,
          cs,
          os,
          rs,
          All-append MembershipIsValid after.memberships (row ∷ []) ms (h, tt),
          es,
          ev,
        );
  }

  pub put_entitlement-Kept :
      (i : ℕ) (row : Entitlement)
      → (RowsAreValid profile scenario run → EntitlementIsValid profile row)
      → Kept profile scenario run after
      → Kept profile scenario run (put_entitlement i row after)
  put_entitlement-Kept i row h kept = record {
    frame = kept.frame;
    keeps = λ valid.
        let (us, cs, os, rs, ms, es, ev) = kept.keeps valid in
        (
          us,
          cs,
          os,
          rs,
          ms,
          All-set (EntitlementIsValid profile) after.entitlements i row es (h valid),
          ev,
        );
  }

  pub add_entitlement-Kept :
      (row : Entitlement)
      → EntitlementIsValid profile row
      → Kept profile scenario run after
      → Kept profile scenario run (add_entitlement row after)
  add_entitlement-Kept row h kept = record {
    frame = kept.frame;
    keeps = λ valid.
        let (us, cs, os, rs, ms, es, ev) = kept.keeps valid in
        (
          us,
          cs,
          os,
          rs,
          ms,
          All-append (EntitlementIsValid profile) after.entitlements (row ∷ []) es (h, tt),
          ev,
        );
  }

  pub add_entry-Kept :
      (user_id : String) (order_id : Option String) (kind : EntryType) (amount : ℤ) (key : String)
      → Kept profile scenario run after
      → Kept profile scenario run (add_entry user_id order_id kind amount key after)
  add_entry-Kept user_id order_id kind amount key kept = record {
    frame = kept.frame;
    keeps = kept.keeps;
  }

  pub emit-Kept :
      (aggregate : AggregateType) (name : String) (type : BusinessEventType) (payload : Fields)
      (key : String)
      → Kept profile scenario run after
      → Kept profile scenario run (emit aggregate name type payload key after)
  unfolding emit
  emit-Kept aggregate name type payload key kept = record {
    frame = kept.frame;
    keeps = λ valid.
        let (us, cs, os, rs, ms, es, ev) = kept.keeps valid in
        (us, cs, os, rs, ms, es, EventsAreNumbered-append after.epoch after.events _ refl refl ev);
  }

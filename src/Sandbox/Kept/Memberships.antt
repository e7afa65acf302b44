-- ===== src/Sandbox/Kept/Memberships.antt =====
-- The handlers of points and memberships keep what every write keeps.
use rule_arena.Common.{
  ℕ, ◌≡◌, Bool, true, false, not, ◌&&◌, ◌||◌, Bool-cases, or-eq-false, and-eq-true, inl, inr,
  Option, none, some, All-get_elem?, locate, locate_found, arith, String,
}
use rule_arena.Common.Int.{ℤ, pos, ◌-ℤ◌, ◌<ℤ◌, ltb_ℤ, leb_ℤ, int_laws, ltb_ℤ→le, ltb_ℤ→lt, leb_ℤ→lt}
use rule_arena.Common.Outcome.{
  Returns, Returns-done, Returns-then, Returns-bind, Returns-reject, Returns-reject_if,
  Returns-or_reject,
}
use rule_arena.Common.Text.{codes, str_eq, show_int}
use rule_arena.Common.Json.{Json}
use rule_arena.Decimal.{parse_int}
use rule_arena.Policy.{same_currency}
use rule_arena.Sandbox.Profile.{SandboxProfile, DefectAxis, exhibits}
use rule_arena.Sandbox.Models.{
  RunSpace, ActionCommand, TestUser, Membership, Entitlement, new_entitlement,
}
use rule_arena.Sandbox.Values.{positive_int, printed_positive}
use rule_arena.Sandbox.Memberships.{
  redeem_points, activate_membership, available_quantity, consumed_entitlement, consume_entitlement,
  revoke_rest, refund_membership, end_membership, cancel_membership,
}
use rule_arena.Sandbox.Valid.{UserIsValid, EntitlementIsValid, MembershipIsValid}
use rule_arena.Sandbox.Kept.{
  put_user-Kept, put_membership-Kept, put_entitlement-Kept, add_membership-Kept,
  add_entitlement-Kept, add_entry-Kept, emit-Kept,
}
use rule_arena.Sandbox.Kept.Orders.{KeptRun, KeptBy, Valid, start, found_user}

abbrev Positive : ℤ → Type 0
Positive n = pos 0 <ℤ n

printed_positive-Positive : (s : String) (o : Option ℤ) → Returns Positive (printed_positive s o)
printed_positive-Positive s none = Returns-reject _
printed_positive-Positive s (some n) =
    elim (Bool-cases (not (ltb_ℤ (pos 0) n) || not (str_eq s (show_int n)))) [
      | inl e ↦ rw e (Returns-reject _)
      | inr e ↦
          let (above_zero, _) =
            or-eq-false (not (ltb_ℤ (pos 0) n)) (not (str_eq s (show_int n))) e in
          let positive : ltb_ℤ (pos 0) n ≡ true = ground (arith, above_zero) in
          rw e (Returns-done n (ltb_ℤ→lt (pos 0) n positive))
    ]

positive_int-Positive : (value : Json) → Returns Positive (positive_int value)
unfolding positive_int
positive_int-Positive Json.null = Returns-reject _
positive_int-Positive (Json.boolean b) = Returns-reject _
positive_int-Positive (Json.integer n) = elim (Bool-cases (ltb_ℤ (pos 0) n)) [
  | inl e ↦ rw e (Returns-done n (ltb_ℤ→lt (pos 0) n e))
  | inr e ↦ rw e (Returns-reject _)
]
positive_int-Positive (Json.float s) = Returns-reject _
positive_int-Positive (Json.text s) = printed_positive-Positive s (parse_int (codes s))
positive_int-Positive (Json.array items) = Returns-reject _
positive_int-Positive (Json.object fields) = Returns-reject _

module _ (profile : SandboxProfile) where
  redeemed-UserIsValid :
      (user : TestUser) (amount : ℤ) (version : ℕ) (in_scenario : Bool)
      → (ltb_ℤ user.points_balance amount
          && not (in_scenario && exhibits profile DefectAxis.points_overredemption))
        ≡ false
      → UserIsValid profile user
      → UserIsValid profile
          (record user { points_balance = user.points_balance -ℤ amount; version = version })
  redeemed-UserIsValid user amount version in_scenario fine valid = record {
    balance = valid.balance;
    points = λ axis.
        let strict : (in_scenario && exhibits profile DefectAxis.points_overredemption) ≡ false =
          rw axis (ground arith) in
        let short : ltb_ℤ user.points_balance amount ≡ false = ground (arith, rw strict at fine) in
        let le = ltb_ℤ→le user.points_balance amount short in omega (int_laws, le);
  }

  new_entitlement-EntitlementIsValid :
      (id membership_id : String) (quantity : ℤ)
      → pos 0 <ℤ quantity
      → EntitlementIsValid profile (new_entitlement id membership_id quantity)
  new_entitlement-EntitlementIsValid id membership_id quantity positive = record {
    granted = positive;
    consumed = omega arith;
    revoked = omega arith;
    within = λ _. omega (int_laws, positive);
  }

  consumed-EntitlementIsValid :
      (e : Entitlement) (quantity : ℤ)
      → pos 0 <ℤ quantity
      → (not (exhibits profile DefectAxis.entitlement_overconsumption)
          && ltb_ℤ (available_quantity e) quantity)
        ≡ false
      → EntitlementIsValid profile e
      → EntitlementIsValid profile (consumed_entitlement e quantity)
  consumed-EntitlementIsValid e quantity positive enough valid = record {
    granted = valid.granted;
    consumed = omega (int_laws, positive, valid.consumed);
    revoked = valid.revoked;
    within = λ axis.
        let fits : ltb_ℤ (available_quantity e) quantity ≡ false = rw axis at enough in
        let le = ltb_ℤ→le (available_quantity e) quantity fits in omega (int_laws, le);
  }

module _ (profile : SandboxProfile) (run : RunSpace) where
  found_entitlement :
      (p : Entitlement → Bool) {i : ℕ} {row : Entitlement}
      → locate p run.entitlements ≡ some (i, row)
      → Valid profile run
      → EntitlementIsValid profile row
  found_entitlement p {i} found (us, cs, os, rs, ms, es, ev) =
      All-get_elem? (EntitlementIsValid profile) run.entitlements i es
        (locate_found p run.entitlements found).0

  found_membership :
      (p : Membership → Bool) {i : ℕ} {row : Membership}
      → locate p run.memberships ≡ some (i, row)
      → Valid profile run
      → MembershipIsValid row
  found_membership p {i} found (us, cs, os, rs, ms, es, ev) =
      All-get_elem? MembershipIsValid run.memberships i ms (locate_found p run.memberships found).0

  pub redeem_points-Kept :
      (command : ActionCommand) (key : String)
      → Returns (KeptBy profile run) (redeem_points profile run command key)
  unfolding redeem_points
  redeem_points-Kept command key = Returns-then _ _ (
      Returns-bind _ _ λ amount _. Returns-or_reject _ _ _ λ (ui, user) at_u.
        Returns-reject_if _ _ _ λ fine. Returns-done _ (
          emit-Kept _ _ _ _ _ (
            add_entry-Kept _ _ _ _ _ (
              put_user-Kept _ _
                (λ valid.
                  redeemed-UserIsValid profile user amount _ _ fine
                    (found_user profile run _ at_u valid))
                (start profile run)))))

  pub activate_membership-Kept :
      (command : ActionCommand) (key : String)
      → Returns (KeptBy profile run) (activate_membership profile run command key)
  unfolding activate_membership
  activate_membership-Kept command key = Returns-then _ _ (
      Returns-or_reject _ _ _ λ (ui, user) at_u. Returns-bind _ _ λ (paid, currency) _.
        Returns-bind _ _ λ quantity read. Returns-reject_if _ _ _ λ fine.
          Returns-reject_if _ _ _ λ _. Returns-reject_if _ _ _ λ enough. Returns-bind _ _ λ _ _.
            let (above_zero, _) =
              or-eq-false (leb_ℤ paid (pos 0)) (not (same_currency currency user.currency)) fine in
            let le = ltb_ℤ→le user.balance paid enough in
            Returns-done _ (
              emit-Kept _ _ _ _ _ (
                emit-Kept _ _ _ _ _ (
                  add_entitlement-Kept _
                    (new_entitlement-EntitlementIsValid profile _ _ quantity
                      ((positive_int-Positive _).at quantity read))
                    (add_membership-Kept _ (leb_ℤ→lt paid (pos 0) above_zero) (
                      put_user-Kept _ _
                        (λ valid.
                          let before = found_user profile run _ at_u valid in
                          record { balance = omega (int_laws, le); points = before.points })
                        (start profile run)))))))

  pub consume_entitlement-Kept :
      (command : ActionCommand) (key : String)
      → Returns (KeptBy profile run) (consume_entitlement profile run command key)
  unfolding consume_entitlement
  consume_entitlement-Kept command key = Returns-then _ _ (
      Returns-bind _ _ λ quantity read. Returns-bind _ _ λ entitlement_id _.
        Returns-or_reject _ _ _ λ (ei, entitlement) at_e. Returns-reject_if _ _ _ λ _.
          Returns-reject_if _ _ _ λ enough. Returns-done _ (
            emit-Kept _ _ _ _ _ (
              put_entitlement-Kept _ _
                (λ valid.
                  consumed-EntitlementIsValid profile entitlement quantity
                    ((positive_int-Positive _).at quantity read) enough
                    (found_entitlement _ at_e valid))
                (start profile run))))

  revoke_rest-Kept :
      (wanted : Bool) (ei : ℕ) (e : Entitlement) (key : String) (after : RunSpace)
      → (Valid profile run → EntitlementIsValid profile e)
      → KeptRun profile run after
      → KeptRun profile run (revoke_rest wanted ei e key after)
  unfolding revoke_rest
  revoke_rest-Kept wanted ei e key after fine kept =
      elim (Bool-cases (wanted && ltb_ℤ (pos 0) (available_quantity e))) [
        | inl some_left ↦ rw some_left (
            emit-Kept _ _ _ _ _ (
              put_entitlement-Kept _ _
                (λ valid.
                  let before = fine valid in
                  let (_, some_rest) =
                    and-eq-true wanted (ltb_ℤ (pos 0) (available_quantity e)) some_left in
                  let lt = ltb_ℤ→lt (pos 0) (available_quantity e) some_rest in
                  record {
                    granted = before.granted;
                    consumed = before.consumed;
                    revoked = omega (int_laws, lt, before.revoked);
                    within = λ _. omega int_laws;
                  })
                kept))
        | inr none_left ↦ rw none_left kept
      ]

  module _ (key : String) (mi : ℕ) (membership : Membership) (ui : ℕ) (user : TestUser) (ei : ℕ)
      (entitlement : Entitlement) (owed : Valid profile run → MembershipIsValid membership)
      (before : Valid profile run → UserIsValid profile user)
      (fine : Valid profile run → EntitlementIsValid profile entitlement) where
    refund_membership-Kept :
        Returns
          (KeptBy profile run)
          (refund_membership profile run key (mi, membership) (ui, user) (ei, entitlement))
    unfolding refund_membership
    refund_membership-Kept = Returns-reject_if _ _ _ λ _. Returns-bind _ _ λ _ _. Returns-done _ (
        emit-Kept _ _ _ _ _ (
          revoke_rest-Kept _ ei entitlement key _ fine (
            put_membership-Kept _ _ owed (
              put_user-Kept _ _
                (λ valid.
                  let paid = owed valid in
                  let b = (before valid).balance in
                  record { balance = omega (int_laws, paid, b); points = (before valid).points })
                (start profile run)))))

    end_membership-Kept :
        KeptBy profile run (end_membership run key (mi, membership) (ui, user) (ei, entitlement))
    end_membership-Kept = emit-Kept _ _ _ _ _ (
        revoke_rest-Kept _ ei entitlement key _ fine (
          put_membership-Kept _ _ owed (
            put_user-Kept _ _
              (λ valid. record { balance = (before valid).balance; points = (before valid).points })
              (start profile run))))

  pub cancel_membership-Kept :
      (command : ActionCommand) (key : String)
      → Returns (KeptBy profile run) (cancel_membership profile run command key)
  unfolding cancel_membership
  cancel_membership-Kept command key = Returns-then _ _ (
      Returns-bind _ _ λ requested _. Returns-bind _ _ λ membership_id _.
        Returns-or_reject _ _ _ λ (mi, membership) at_m. Returns-reject_if _ _ _ λ _.
          Returns-or_reject _ _ _ λ (ui, user) at_u.
            Returns-or_reject _ _ _ λ (ei, entitlement) at_e. elim (Bool-cases requested) [
              | inl e ↦ rw e (
                  refund_membership-Kept key mi membership ui user ei entitlement
                    (found_membership _ at_m) (found_user profile run _ at_u)
                    (found_entitlement _ at_e))
              | inr e ↦ rw e (
                  Returns-done _ (
                    end_membership-Kept key mi membership ui user ei entitlement
                      (found_membership _ at_m) (found_user profile run _ at_u)
                      (found_entitlement _ at_e)))
            ])

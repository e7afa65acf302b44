-- ===== src/Policy.antt =====
-- The frozen rule specification of packages/policy_schema: its rules, and the validators that a
-- `RuleSpec` passes. Amounts are `Decimal`s at or above 0 with four places at most, so they are
-- natural numbers of ten-thousandths. Participants, assets, invariant declarations and
-- ambiguities carry no arithmetic and are left out.
use rule_arena.Common.{
  ℕ, Bool, true, false, not, ◌&&◌, ◌||◌, Option, none, some, List, [], ◌∷◌, ltb, any, all,
}

pub data Currency : Type 0 where
  cny usd : Currency

abbrev pub same_currency : Currency → Currency → Bool
same_currency Currency.cny Currency.cny = true
same_currency Currency.usd Currency.usd = true
same_currency _ _ = false

pub data ScenarioType : Type 0 where
  promotion refund_points membership_entitlement : ScenarioType

pub record Money : Type 0 where
  pub currency : Currency
  pub amount : ℕ

pub record PromotionRule : Type 0 where
  pub minimum_order_amount : Money
  pub discount_amount : Money
  pub new_users_only : Bool
  pub restore_on_full_refund : Bool

pub record RefundRule : Type 0 where
  pub allow_partial_refund : Bool
  pub maximum_refunds_per_order : ℕ

pub record PointsRule : Type 0 where
  pub spend_amount : Money
  pub points_granted : ℕ
  pub revoke_on_refund : Bool

pub data RefundPolicy : Type 0 where
  unused_only prorated non_refundable : RefundPolicy

pub record MembershipRule : Type 0 where
  pub price : Money
  pub entitlement_quantity : ℕ
  pub refund_policy : RefundPolicy

pub data Rule : Type 0 where
  promotion : PromotionRule → Rule
  refund : RefundRule → Rule
  points : PointsRule → Rule
  membership : MembershipRule → Rule

pub record RuleSpec : Type 0 where
  pub scenario_type : ScenarioType
  pub rules : List Rule

-- `Literal` tags, and whether two rules carry the same one.
pub data RuleKind : Type 0 where
  promotion_rule refund_rule points_rule membership_rule : RuleKind

abbrev pub rule_kind : Rule → RuleKind
rule_kind (Rule.promotion _) = promotion_rule
rule_kind (Rule.refund _) = refund_rule
rule_kind (Rule.points _) = points_rule
rule_kind (Rule.membership _) = membership_rule

abbrev pub same_kind : RuleKind → RuleKind → Bool
same_kind promotion_rule promotion_rule = true
same_kind refund_rule refund_rule = true
same_kind points_rule points_rule = true
same_kind membership_rule membership_rule = true
same_kind _ _ = false

-- The table `allowed` of `require_rules_for_scenario`.
abbrev is_allowed : ScenarioType → RuleKind → Bool
is_allowed ScenarioType.promotion k = same_kind k promotion_rule || same_kind k refund_rule
is_allowed ScenarioType.refund_points k = same_kind k refund_rule || same_kind k points_rule
is_allowed ScenarioType.membership_entitlement k = same_kind k membership_rule

-- The table `primary`.
abbrev primary : ScenarioType → RuleKind
primary ScenarioType.promotion = promotion_rule
primary ScenarioType.refund_points = points_rule
primary ScenarioType.membership_entitlement = membership_rule

-- `len(rule_types) == len(set(rule_types))`
abbrev no_duplicates : List Rule → Bool
no_duplicates [] = true
no_duplicates (r ∷ rs) =
    not (any (λ other. same_kind (rule_kind other) (rule_kind r)) rs) && no_duplicates rs

-- `RuleSpec.require_rules_for_scenario`: whether the validator passes.
unfoldable pub require_rules_for_scenario : RuleSpec → Bool
require_rules_for_scenario spec =
    all (λ r. is_allowed spec.scenario_type (rule_kind r)) spec.rules
    && any (λ r. same_kind (rule_kind r) (primary spec.scenario_type)) spec.rules
    && no_duplicates spec.rules

-- The validators and field constraints of one rule.
unfoldable pub rule_accepted : Rule → Bool
rule_accepted (Rule.promotion r) =
    same_currency r.minimum_order_amount.currency r.discount_amount.currency
rule_accepted (Rule.refund r) = ltb 0 r.maximum_refunds_per_order
rule_accepted (Rule.points r) = ltb 0 r.spend_amount.amount
rule_accepted (Rule.membership r) = ltb 0 r.entitlement_quantity && ltb 0 r.price.amount

-- `next((r for r in rules if isinstance(r, …)), None)`, once for each class of rule.
unfoldable pub first_promotion : List Rule → Option PromotionRule
first_promotion [] = none
first_promotion (Rule.promotion r ∷ rs) = some r
first_promotion (_ ∷ rs) = first_promotion rs

unfoldable pub first_refund : List Rule → Option RefundRule
first_refund [] = none
first_refund (Rule.refund r ∷ rs) = some r
first_refund (_ ∷ rs) = first_refund rs

unfoldable pub first_points : List Rule → Option PointsRule
first_points [] = none
first_points (Rule.points r ∷ rs) = some r
first_points (_ ∷ rs) = first_points rs

unfoldable pub first_membership : List Rule → Option MembershipRule
first_membership [] = none
first_membership (Rule.membership r ∷ rs) = some r
first_membership (_ ∷ rs) = first_membership rs

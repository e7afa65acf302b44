-- ===== src/Simulator/Rules.antt =====
-- `ReferenceSimulator.__init__`: the rule specification, taken apart by class of rule, and what a
-- handler returns when it applies an action.
use rule_arena.Common.{Bool, true, false, Option, List, [], ◌∷◌, String, any}
use rule_arena.Common.Outcome.{Outcome}
use rule_arena.Common.Text.{str_eq}
use rule_arena.Policy.{
  RuleSpec, PromotionRule, RefundRule, PointsRule, MembershipRule, first_promotion, first_refund,
  first_points, first_membership,
}
use rule_arena.Simulator.Models.{SimulationState, SimEvent, SimUser, SimAction, Code}

pub record ReferenceSimulator : Type 0 where
  pub rule_spec : RuleSpec
  pub promotion : Option PromotionRule
  pub refund : Option RefundRule
  pub points : Option PointsRule
  pub membership : Option MembershipRule

unfoldable pub reference_simulator : RuleSpec → ReferenceSimulator
reference_simulator spec = record {
  rule_spec = spec;
  promotion = first_promotion spec.rules;
  refund = first_refund spec.rules;
  points = first_points spec.rules;
  membership = first_membership spec.rules;
}

-- `initial_state`
abbrev pub initial_state : ReferenceSimulator → SimulationState
initial_state sim = record {
  scenario_type = sim.rule_spec.scenario_type;
  users = [];
  coupons = [];
  orders = [];
  memberships = [];
  entitlements = [];
  seen_idempotency_keys = [];
}

-- The state and the events of `TransitionResult(TransitionStatus.APPLIED, …)`.
pub record Applied : Type 0 where
  pub state : SimulationState
  pub events : List SimEvent

abbrev pub Handler : Type 0
Handler = ReferenceSimulator → SimulationState → SimAction → Outcome Code Applied

-- `not items`
abbrev pub is_empty {ℓ} : {A : Type ℓ} → List A → Bool
is_empty [] = true
is_empty (x ∷ xs) = false

-- `any(user.user_id == name for user in users)`
abbrev pub has_user : String → List SimUser → Bool
has_user name users = any (λ u. str_eq u.user_id name) users

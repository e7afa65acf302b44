-- ===== src/Sandbox/Profile.antt =====
-- profiles.py of services/commerce_sandbox, and the defect axes of packages/domain_contracts.
use rule_arena.Common.{Bool, true, false, Option, none, some, List, [], ◌∷◌, any, if◌then◌else◌}
use rule_arena.Policy.{ScenarioType}

pub data DefectAxis : Type 0 where
  coupon_restored_on_refund refund_against_original refund_ack_lost : DefectAxis
  points_granted_again_on_refund points_overredemption : DefectAxis
  full_refund_after_consumption entitlement_left_after_refund : DefectAxis
  entitlement_overconsumption : DefectAxis

pub data SandboxVersion : Type 0 where
  fixed vulnerable : SandboxVersion

abbrev pub same_axis : DefectAxis → DefectAxis → Bool
same_axis DefectAxis.coupon_restored_on_refund DefectAxis.coupon_restored_on_refund = true
same_axis DefectAxis.refund_against_original DefectAxis.refund_against_original = true
same_axis DefectAxis.refund_ack_lost DefectAxis.refund_ack_lost = true
same_axis DefectAxis.points_granted_again_on_refund DefectAxis.points_granted_again_on_refund = true
same_axis DefectAxis.points_overredemption DefectAxis.points_overredemption = true
same_axis DefectAxis.full_refund_after_consumption DefectAxis.full_refund_after_consumption = true
same_axis DefectAxis.entitlement_left_after_refund DefectAxis.entitlement_left_after_refund = true
same_axis DefectAxis.entitlement_overconsumption DefectAxis.entitlement_overconsumption = true
same_axis _ _ = false

-- `ALL_AXES`: every axis but the transport's.
abbrev pub all_axes : List DefectAxis
all_axes =
    DefectAxis.coupon_restored_on_refund ∷ DefectAxis.refund_against_original
    ∷ DefectAxis.points_granted_again_on_refund ∷ DefectAxis.points_overredemption
    ∷ DefectAxis.full_refund_after_consumption ∷ DefectAxis.entitlement_left_after_refund
    ∷ DefectAxis.entitlement_overconsumption ∷ []

pub record SandboxProfile : Type 0 where
  pub axes : List DefectAxis

-- `axis in self.axes`, of which the properties of the class are the cases.
unfoldable pub exhibits : SandboxProfile → DefectAxis → Bool
exhibits profile axis = any (same_axis axis) profile.axes

abbrev pub for_version : SandboxVersion → SandboxProfile
for_version SandboxVersion.vulnerable = record { axes = all_axes }
for_version SandboxVersion.fixed = record { axes = [] }

abbrev pub for_run : SandboxVersion → Option (List DefectAxis) → SandboxProfile
for_run version none = for_version version
for_run version (some axes) = record { axes = axes }

-- `axis in AXES_BY_SCENARIO[scenario]`
abbrev pub reachable : ScenarioType → DefectAxis → Bool
reachable ScenarioType.promotion DefectAxis.coupon_restored_on_refund = true
reachable ScenarioType.promotion DefectAxis.refund_against_original = true
reachable ScenarioType.promotion DefectAxis.refund_ack_lost = true
reachable ScenarioType.refund_points DefectAxis.points_granted_again_on_refund = true
reachable ScenarioType.refund_points DefectAxis.points_overredemption = true
reachable ScenarioType.refund_points DefectAxis.refund_ack_lost = true
reachable ScenarioType.membership_entitlement DefectAxis.full_refund_after_consumption = true
reachable ScenarioType.membership_entitlement DefectAxis.entitlement_left_after_refund = true
reachable ScenarioType.membership_entitlement DefectAxis.entitlement_overconsumption = true
reachable _ _ = false

-- `unreachable_axes`
unfoldable pub unreachable_axes : ScenarioType → List DefectAxis → List DefectAxis
unreachable_axes scenario [] = []
unreachable_axes scenario (axis ∷ axes) =
    let rest = unreachable_axes scenario axes in
    if reachable scenario axis then rest else axis ∷ rest

-- ===== src/Sandbox/LedgerTests.antt =====
-- A run of the points scenario with its defects, and its ledger.
use rule_arena.Common.{◌≡◌, refl, true, none, some}
use rule_arena.Common.Int.{pos}
use rule_arena.Common.Outcome.{done, reject_if, ◌>>◌, ◌>>=◌}
use rule_arena.Common.Json.{Json, Fields}
use rule_arena.Policy.{ScenarioType}
use rule_arena.Sandbox.Profile.{SandboxVersion, unreachable_axes}
use rule_arena.Sandbox.Models.{ActionCommand, ActionName, RunSpace, new_run}
use rule_arena.Sandbox.Execute.{execute}
use rule_arena.Sandbox.Runs.{create_run}
use rule_arena.Sandbox.Ledger.{IsBalanced}
use rule_arena.Sandbox.Ledger.Balance.{reachable-IsBalanced}
use rule_arena.Sandbox.Orders.{one_text}
use rule_arena.Sandbox.Reach.{Reachable}
use rule_arena.Sandbox.Tests.{command, digest, fresh, join_shop, order_goods, pay}

abbrev points_run : RunSpace
points_run = new_run "run-2" ScenarioType.refund_points SandboxVersion.vulnerable none

points_created :
    create_run true "run-2" ScenarioType.refund_points SandboxVersion.vulnerable none
    ≡ done points_run
unfolding create_run unreachable_axes reject_if ◌>>◌ ◌>>=◌
points_created = refl

abbrev redeem : ActionCommand
redeem =
    command ActionName.redeem_points none
      (Fields.field "amount" (Json.integer (pos 40)) Fields.no_field) "k6"

abbrev refund_part : ActionCommand
refund_part = command ActionName.refund_order (some "order-1") (one_text "amount" "10.00") "k7"

abbrev bought : RunSpace
bought =
    (execute digest (fresh "r3")
      (execute digest (fresh "r2") (execute digest (fresh "r1") points_run join_shop).0
        order_goods).0
      pay).0

abbrev spent : RunSpace
spent = (execute digest (fresh "r7") (execute digest (fresh "r6") bought redeem).0 refund_part).0

spent_Reachable : Reachable digest spent
spent_Reachable = Reachable.executed (fresh "r7") _ refund_part (
    Reachable.executed (fresh "r6") _ redeem (
      Reachable.executed (fresh "r3") _ pay (
        Reachable.executed (fresh "r2") _ order_goods (
          Reachable.executed (fresh "r1") points_run join_shop (
            Reachable.created true "run-2" ScenarioType.refund_points SandboxVersion.vulnerable none
              points_run points_created)))))

reachable-IsBalanced_example : IsBalanced spent
reachable-IsBalanced_example = reachable-IsBalanced digest spent spent_Reachable

-- ===== src/Lib.antt =====
-- RuleArena searches for sequences of shop actions that a rule specification forbids and an
-- implementation allows. This library models the deterministic parts that decide what a sequence
-- means, and proves what makes them correct.
--
-- A `RuleSpec` (packages/policy_schema) states the rules of a promotion, a refund or a
-- membership. The reference simulator (packages/reference_simulator) applies actions to a
-- simulated shop under such a specification. The minimizer (packages/attack_runtime) shortens a
-- sequence that was confirmed as a violation. The runtime store (packages/attack_runtime) keeps
-- the runs of a search with their events and checkpoints. The runtime gate
-- (packages/runtime_gate) stands before every refund that an agent writes. The commerce sandbox
-- (services/commerce_sandbox) is the shop that sequences are replayed on, with the defects that a
-- run is created to exhibit.
--
-- Common: Boolean tests, lists, integers, texts, and the outcome of Python code that returns,
--   rejects or raises.
-- Decimal: the texts and the rounding of amounts (the `decimal` module as `_money` uses it). An
--   amount counts ten-thousandths, so a cent is 100.
-- Policy: packages/policy_schema/src/rulearena_policy_schema/models.py.
-- Simulator: packages/reference_simulator/src/rulearena_reference_simulator/ models.py (Models)
--   and simulator.py (Argument, Arithmetic, Rules, Ordering, Payment, Benefits, Transition). A
--   handler `_do_x` is the function `do_x`; its `_reject` is the outcome `reject`, an exception
--   the outcome `raise`, and `transition` catches what the source catches. Effect lists what the
--   handlers do, Valid the well-formedness of a state, Reach the states that calls reach.
-- Minimizer: packages/attack_runtime/src/rulearena_attack_runtime/minimization.py.
-- Workflow: packages/attack_runtime/src/rulearena_attack_runtime/workflow.py (Models, Store,
--   Records). A call of `InMemoryRuntimeStore` is a step, as its lock makes it; `request_cancel`
--   takes the lock twice, and is modelled with no call in between. Call lists the calls, Change
--   what they do to runs and events, Invariant, Lifecycle and Idempotence what follows.
-- RuntimeGate: packages/runtime_gate/src/rulearena_runtime_gate/gate.py. A check takes the
--   replies to its requests as arguments; Agreement relates it to the simulator.
-- Oracle: packages/oracle/src/rulearena_oracle (evaluator.py and models.py): five of its eight
--   checks on snapshots; Amounts has lemmas on two of them, Reached relates them to the
--   simulator. The checks of points, of refunded entitlements and of idempotency are not
--   modelled.
-- Sandbox: services/commerce_sandbox/src/rulearena_commerce_sandbox/ profiles.py with the axes of
--   packages/domain_contracts (Profile), models.py and schemas.py (Models), and service.py: how
--   arguments are read (Values), the rows (Rows), the handlers (Orders, Payments, Memberships,
--   Snapshot), SandboxService (Execute, Runs) and, of app.py, what two routes answer (App). A
--   handler `_x` is the function `x`. The rows of one run are kept together, since every
--   statement selects by the run; a call is one transaction, which the lock on the run makes a
--   step. A rejection gives back the rows as they were before the command, as the savepoint does.
--   Valid says when a run is well formed, Kept that every handler keeps this, Step how a call of
--   execute can end; Reach, Retry, Receipts and Axes draw on these, Ledger follows the points
--   write by write, Printed reads printed amounts back, Commit says what a command under an
--   unused key leaves behind, Restart is about runs that start again, and Gate puts the runtime
--   gate before the sandbox's snapshot.
-- Replay: packages/attack_runtime/src/rulearena_attack_runtime/replay.py: one write of a replay,
--   with what `dict` makes of a JSON body, and the classification of a finding. Recovery puts a
--   write before the sandbox's routes. The loop over a trace and its aliases are not modelled.
--
-- Fuel. The first loop of `minimize_trace` has n * (n + 3) + (n + 3) rounds for n actions: a
-- round makes the trace shorter, which is worth n + 3, or the granularity larger, which stays
-- within n + 2. Its second loop has n + 1: a round drops an action or moves on. `show_nat` has n
-- + 1 for n.
--
-- Not modelled. Amounts are exact: what Python's decimal context does to sums, differences and
-- quotients is left out, which is to round them to 28 digits, to raise Overflow above the
-- exponent 999999 and to underflow below -999999; so the sum in the gate's `pre_check` and the
-- difference in the oracle's `_net_paid` are those of the source only where they fit the context.
-- `quantize` refuses more digits as the source does. The case of a mapping in the gate's `_money`
-- is left out, since no argument of a modelled action is one. `get_receipt` takes the rows in the
-- order in which they were written, so the clock is taken not to go back. Texts are read for
-- ASCII digits; a text that `Decimal` reads as NaN is outside the model. The replay over HTTP
-- behind the minimizer's predicate is a function of the trace, so the same trace is always
-- answered alike. A fresh uuid4 and the time of the clock are arguments; the cost and the time of
-- a budget count millionths. Of the sandbox, amounts count cents, since every stored amount was
-- quantized; the limits of the columns, the identifiers and times of rows that are drawn when
-- they are written, and the texts of error messages are left out, the digest of a state is a
-- parameter, and rows are sorted by the code points of their identifiers. A JSON number that
-- overflows to infinity is outside its model. The other HTTP routes, PostgreSQL, language-model
-- calls and the command line are not part of the model.
pub mod Common
pub mod Decimal
pub mod Policy
pub mod Simulator
pub mod Minimizer
pub mod Workflow
pub mod RuntimeGate
pub mod Oracle
pub mod Replay
pub mod Sandbox

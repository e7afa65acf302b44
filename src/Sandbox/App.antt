-- ===== src/Sandbox/App.antt =====
-- services/commerce_sandbox/src/rulearena_commerce_sandbox/app.py: what the routes of the actions and
-- of the receipts answer. The token of the request, its size and its request identifier are left out.
-- The JSON that pydantic makes of a receipt and the body of an error are parameters.
use rule_arena.Common.{ℕ, none, some}
use rule_arena.Common.Outcome.{Outcome, done, reject, raise}
use rule_arena.Common.Json.{Json, Fields}
use rule_arena.RuntimeGate.{Reply}
use rule_arena.Sandbox.Models.{Code}
use rule_arena.Sandbox.Execute.{Response, ActionReceipt}

-- `domain_http_error`, its status code
unfoldable pub status_code : Code → ℕ
status_code Code.run_not_found = 404
status_code Code.receipt_not_found = 404
status_code Code.scenario_not_found = 404
status_code Code.idempotency_key_required = 422
status_code _ = 409

module _ (model_dump : ActionReceipt → Fields) (error_body : Code → Fields) where
  -- The route `execute_action` after its call of `execute`. An exception that is not caught is
  -- answered with 500 and no JSON.
  unfoldable pub action_reply : Response → Reply
  action_reply (Response.answered receipt) =
      Reply.response 200 (some (Json.object (model_dump receipt)))
  action_reply (Response.refused code) =
      Reply.response (status_code code) (some (Json.object (error_body code)))
  action_reply (Response.ack_lost id) = Reply.response 504 none
  action_reply (Response.crashed e) = Reply.response 500 none

  -- The route `get_receipt` after its call of `get_receipt`.
  unfoldable pub receipt_reply : Outcome Code ActionReceipt → Reply
  receipt_reply (done receipt) = Reply.response 200 (some (Json.object (model_dump receipt)))
  receipt_reply (reject code) =
      Reply.response (status_code code) (some (Json.object (error_body code)))
  receipt_reply (raise e) = Reply.response 500 none

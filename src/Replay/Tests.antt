-- ===== src/Replay/Tests.antt =====
-- A write that was answered by a gateway, one that was never committed, and a refund of the sandbox.
use rule_arena.Common.{String, ◌≡◌, refl, ◌⊎◌, none, some, [], ◌∷◌}
use rule_arena.Common.Json.{Json, Items, Fields}
use rule_arena.RuntimeGate.{Reply}
use rule_arena.Sandbox.Models.{Code}
use rule_arena.Sandbox.Execute.{ActionReceipt}
use rule_arena.Sandbox.Tests.{digest, fresh, paid, refund, refunded, refund_unused}
use rule_arena.Replay.Recovery.{AnswerIsNoMatter, written-execute}
use rule_arena.Replay.Evidence.{Carries, written-Carries}
use rule_arena.Replay.{
  WriteResult, Receipt, pair_of, written, authoritative_receipt, replied, timeout,
}

recovered :
    written
      (replied (Reply.response 504 none))
      (Reply.response 200 (some (Json.object Fields.no_field)))
    ≡ WriteResult.receipt (Receipt.of_mapping Fields.no_field)
unfolding written authoritative_receipt
recovered = refl

never_committed : written timeout (Reply.response 404 none) ≡ WriteResult.action_unknown
unfolding written authoritative_receipt
never_committed = refl

-- A list is a receipt too, even an empty one.
empty_list :
    written (replied (Reply.response 200 (some (Json.array Items.no_item)))) Reply.transport_error
    ≡ WriteResult.receipt (Receipt.of_pairs [])
unfolding written
empty_list = refl

listed :
    written timeout
      (Reply.response 200 (some (Json.array (Items.item (Json.text "ab") Items.no_item))))
    ≡ WriteResult.receipt (Receipt.of_pairs ((Json.text "a", Json.text "b") ∷ []))
unfolding written authoritative_receipt pair_of
listed = refl

written-Carries_example :
    ((reply : Reply) × (replied (Reply.response 504 none) ≡ replied reply)
      × Carries (Receipt.of_mapping Fields.no_field) reply)
    ⊎ Carries
        (Receipt.of_mapping Fields.no_field)
        (Reply.response 200 (some (Json.object Fields.no_field)))
written-Carries_example =
    written-Carries (replied (Reply.response 504 none))
      (Reply.response 200 (some (Json.object Fields.no_field))) refl refl recovered

abbrev dumped : ActionReceipt → Fields
dumped found = Fields.field "receipt_id" (Json.text found.receipt_id) Fields.no_field

abbrev errors : Code → Fields
errors code = Fields.no_field

abbrev unchanged : String → String
unchanged key = key

written-execute_example : AnswerIsNoMatter dumped errors unchanged paid.0 refunded "k4"
written-execute_example =
    written-execute dumped errors unchanged digest (fresh "r4") paid.0 refund "k4" refl refl refl
      refund_unused

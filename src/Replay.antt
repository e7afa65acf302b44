-- ===== src/Replay.antt =====
-- packages/attack_runtime/src/rulearena_attack_runtime/replay.py: how the end of a replay is
-- classified, and what is done with a write whose answer was lost.
pub mod Evidence
pub mod Recovery
mod Tests
use Prim.Native.String.{String}
use mathlib.Core.Option
use rule_arena.Common.{
  ℕ, Bool, true, false, ◌||◌, ◌&&◌, ltb, leb, ◌==◌, Option, none, some, List, [], ◌∷◌,
  if◌then◌else◌,
}
use rule_arena.Common.Text.{str_eq}
use rule_arena.Common.Json.{Json, Items, Fields}
use rule_arena.Oracle.{OracleStatus}
use rule_arena.RuntimeGate.{Reply}

pub data ReplayClassification : Type 0 where
  confirmed_violation model_divergence insufficient_evidence : ReplayClassification

unfoldable pub classify_replay : OracleStatus → ReplayClassification
classify_replay OracleStatus.violated = ReplayClassification.confirmed_violation
classify_replay OracleStatus.insufficient_evidence = ReplayClassification.insufficient_evidence
classify_replay _ = ReplayClassification.model_divergence

-- What `dict(value)` makes of a JSON value that it accepts: a copy of a mapping, or the pairs of a
-- list in the order in which they are stored, where a later key replaces an equal one.
pub data Receipt : Type 0 where
  of_mapping : Fields → Receipt
  of_pairs : List (Json × Json) → Receipt

abbrev is_hashable : Json → Bool
is_hashable (Json.array items) = false
is_hashable (Json.object fields) = false
is_hashable _ = true

-- The two characters of a text that has two.
abbrev two_characters : String → Option (Json × Json)
two_characters (String.◌∷◌ a (String.◌∷◌ b String.[])) =
    some (Json.text (String.◌∷◌ a String.[]), Json.text (String.◌∷◌ b String.[]))
two_characters _ = none

-- A list item as a key and its value: a list of two, a mapping of two keys or a text of two
-- characters. Any other item, and a key that cannot be hashed, is a TypeError or a ValueError.
unfoldable pub pair_of : Json → Option (Json × Json)
pair_of (Json.array (Items.item key (Items.item value Items.no_item))) =
    if is_hashable key then some (key, value) else none
pair_of (Json.object (Fields.field key _ (Fields.field other _ Fields.no_field))) =
    some (Json.text key, Json.text other)
pair_of (Json.text s) = two_characters s
pair_of _ = none

abbrev add_pair : Option (Json × Json) → Option (List (Json × Json)) → Option (List (Json × Json))
add_pair (some pair) (some pairs) = some (pair ∷ pairs)
add_pair _ _ = none

abbrev pub pairs_of : Items → Option (List (Json × Json))
pairs_of Items.no_item = some []
pairs_of (Items.item i rest) = add_pair (pair_of i) (pairs_of rest)

-- `dict(value)`; `none` for its TypeError or ValueError.
abbrev pub dict_of : Json → Option Receipt
dict_of (Json.object fields) = some (Receipt.of_mapping fields)
dict_of (Json.array items) = Option.map Receipt.of_pairs (pairs_of items)
dict_of (Json.text s) = if str_eq s "" then some (Receipt.of_pairs []) else none
dict_of _ = none

-- What the replay of one write comes to: its receipt, or `ActionUnknownError`, or an error of the
-- client, of a body that is no JSON, or of `dict`.
pub data WriteResult : Type 0 where
  receipt : Receipt → WriteResult
  action_unknown : WriteResult
  failed : WriteResult

abbrev made_receipt : Option Receipt → WriteResult
made_receipt none = failed
made_receipt (some made) = receipt made

-- `dict(response.json())`
abbrev pub body_receipt : Option Json → WriteResult
body_receipt none = failed
body_receipt (some value) = made_receipt (dict_of value)

-- `response.raise_for_status()`, which lets the codes from 200 to 299 pass, and the body.
abbrev pub checked_receipt : ℕ → Option Json → WriteResult
checked_receipt code body = if leb 200 code && ltb code 300 then body_receipt body else failed

-- `_authoritative_receipt`, with the reply to its request.
unfoldable pub authoritative_receipt : Reply → WriteResult
authoritative_receipt Reply.transport_error = failed
authoritative_receipt (Reply.response code body) =
    if code == 404 then action_unknown else checked_receipt code body

-- `UNANSWERED_STATUSES`
abbrev pub is_unanswered : ℕ → Bool
is_unanswered code = code == 502 || code == 503 || code == 504

-- What a write's request comes to.
pub data Answer : Type 0 where
  timeout : Answer
  replied : Reply → Answer

-- A write of a replay, with the answer to it and the reply to the request for its receipt, which is
-- made only when the write was not answered.
unfoldable pub written : Answer → Reply → WriteResult
written timeout lookup = authoritative_receipt lookup
written (replied Reply.transport_error) lookup = failed
written (replied (Reply.response code body)) lookup =
    if is_unanswered code then authoritative_receipt lookup else checked_receipt code body

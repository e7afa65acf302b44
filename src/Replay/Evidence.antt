-- ===== src/Replay/Evidence.antt =====
-- A replay whose requests are answered with JSON objects does not invent receipts.
use rule_arena.Common.{
  ℕ, ◌≡◌, refl, Bool, true, false, ◌&&◌, Bool-cases, ◌⊎◌, inl, inr, Option, none, some, ltb, leb,
  ◌==◌, if◌then◌else◌,
}
use rule_arena.Common.Json.{Json, Fields}
use rule_arena.RuntimeGate.{Reply}
use rule_arena.Replay.{
  Answer, Receipt, written, authoritative_receipt, replied, timeout, checked_receipt, body_receipt,
  is_unanswered, receipt,
}

-- Whether a body that is JSON is an object.
abbrev object_body : Option Json → Bool
object_body none = true
object_body (some (Json.object fields)) = true
object_body (some _) = false

-- Whether a reply with a code from 200 to 299 has such a body.
abbrev pub object_reply : Reply → Bool
object_reply Reply.transport_error = true
object_reply (Reply.response code body) =
    if leb 200 code && ltb code 300 then object_body body else true

abbrev pub object_answer : Answer → Bool
object_answer timeout = true
object_answer (replied reply) = object_reply reply

-- A reply that carries the receipt: a code from 200 to 299 and a body that is this object.
pub record Carries (made : Receipt) (reply : Reply) : Type 0 where
  pub code : ℕ
  pub fields : Fields
  pub is_reply : reply ≡ Reply.response code (some (Json.object fields))
  pub success : (leb 200 code && ltb code 300) ≡ true
  pub is_body : made ≡ Receipt.of_mapping fields

body-Carries :
    (code : ℕ) (body : Option Json) {made : Receipt}
    → (leb 200 code && ltb code 300) ≡ true
    → object_body body ≡ true
    → body_receipt body ≡ receipt made
    → Carries made (Reply.response code body)
body-Carries code none e o h = cc
body-Carries code (some (Json.object fields)) e o h = record {
  code = code;
  fields = fields;
  is_reply = refl;
  success = e;
  is_body = cc;
}
body-Carries code (some Json.null) e o h = cc
body-Carries code (some (Json.boolean b)) e o h = cc
body-Carries code (some (Json.integer n)) e o h = cc
body-Carries code (some (Json.float s)) e o h = cc
body-Carries code (some (Json.text s)) e o h = cc
body-Carries code (some (Json.array items)) e o h = cc

checked-Carries :
    (code : ℕ) (body : Option Json) {made : Receipt}
    → object_reply (Reply.response code body) ≡ true
    → checked_receipt code body ≡ receipt made
    → Carries made (Reply.response code body)
checked-Carries code body o h = elim (Bool-cases (leb 200 code && ltb code 300)) [
  | inl e ↦ body-Carries code body e (rw e at o) (rw e at h)
  | inr e ↦ cc (rw e at h)
]

authoritative-Carries :
    (lookup : Reply) {made : Receipt}
    → object_reply lookup ≡ true
    → authoritative_receipt lookup ≡ receipt made
    → Carries made lookup
unfolding authoritative_receipt
authoritative-Carries Reply.transport_error o h = cc
authoritative-Carries (Reply.response code body) o h = elim (Bool-cases (code == 404)) [
  | inl e ↦ cc (rw (authoritative_receipt, e) at h)
  | inr e ↦ checked-Carries code body o (rw (authoritative_receipt, e) at h)
]

-- When every reply with a code from 200 to 299 that is JSON is a JSON object, a write has a receipt
-- only if the answer to it is a reply with such a code whose object is this receipt, or the reply to
-- the request for the receipt is one.
pub written-Carries :
    (answer : Answer) (lookup : Reply) {made : Receipt}
    → object_answer answer ≡ true
    → object_reply lookup ≡ true
    → written answer lookup ≡ receipt made
    → ((reply : Reply) × (answer ≡ replied reply) × Carries made reply) ⊎ Carries made lookup
unfolding written
written-Carries timeout lookup a o h = inr (authoritative-Carries lookup o h)
written-Carries (replied Reply.transport_error) lookup a o h = cc
written-Carries (replied (Reply.response code body)) lookup a o h =
    elim (Bool-cases (is_unanswered code)) [
      | inl e ↦ inr (authoritative-Carries lookup o (rw (written, e) at h))
      | inr e ↦
          inl (Reply.response code body, refl, checked-Carries code body a (rw (written, e) at h))
    ]

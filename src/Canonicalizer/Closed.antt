-- ===== src/Canonicalizer/Closed.antt =====
-- canonicalizer/payload.py: the schema is closed, and the idempotency key stays outside the payload.
use gmail_b1_gateway.Prelude.{
  String, Bool-cases, ◌≡◌, refl, false, Option, some, List, arith, elem, eq_iff, ◌==◌, inl, inr,
}
use gmail_b1_gateway.Json.{Value, Fields, obj, end, field, member}
use gmail_b1_gateway.Errors.{ok, err, payload_schema}
use gmail_b1_gateway.Canonicalizer.{
  require, truthy_member, optional_list, reject_unknown, top_level_allowed, build_canonical_payload,
}

-- An object with a member outside the list is refused.
reject_unknown-member :
    (d : Fields) (allowed : List String) (k : String) {v : Value}
    → member k d ≡ some v
    → elem k allowed ≡ false
    → reject_unknown d allowed ≡ err payload_schema
reject_unknown-member end allowed k h out = absurd (ground arith)
reject_unknown-member (field j w d) allowed k {v} h out = elim (Bool-cases (j == k)) [
  | inl same ↦
      let jk : j ≡ k = (eq_iff j k).0 same in
      let not_allowed : elem j allowed ≡ false = rw jk out in ground (arith, not_allowed)
  | inr differ ↦
      let deeper = reject_unknown-member d allowed k {v = v} (ground arith) out in
      ground (arith, deeper)
]

-- A request with a member outside the closed schema, whatever else it holds, has no payload: in
-- particular the message id cannot come from it.
pub unknown_member_refused :
    (d : Fields) (message_id : Option String) (k : String) {v : Value}
    → member k d ≡ some v
    → elem k top_level_allowed ≡ false
    → build_canonical_payload (obj d) message_id ≡ err payload_schema
unfolding build_canonical_payload
unknown_member_refused d message_id k h out =
    let refused = reject_unknown-member d top_level_allowed k h out in rw refused refl

module _ (d d' : Fields) (k : String) (same : member k d ≡ member k d') where
  require_same : require d k ≡ require d' k
  require_same = ground (arith, same)

  truthy_same : truthy_member k d ≡ truthy_member k d'
  truthy_same = ground (arith, same)

  optional_same : optional_list k d ≡ optional_list k d'
  optional_same = ground (arith, truthy_same)

-- Two requests within the schema that differ at most in their idempotency key have the same payload,
-- or are refused alike.
idempotency_key_excluded :
    (d d' : Fields) (message_id : Option String)
    → reject_unknown d top_level_allowed ≡ ok tt
    → reject_unknown d' top_level_allowed ≡ ok tt
    → ((k : String) → (k == "idempotency_key") ≡ false → member k d ≡ member k d')
    → build_canonical_payload (obj d) message_id ≡ build_canonical_payload (obj d') message_id
unfolding build_canonical_payload
idempotency_key_excluded d d' message_id h h' same =
    let account = require_same d d' "account_handle" (same "account_handle" refl) in
    let subject = require_same d d' "subject" (same "subject" refl) in
    let body = require_same d d' "body" (same "body" refl) in
    let recipients = require_same d d' "to" (same "to" refl) in
    let cc = optional_same d d' "cc" (same "cc" refl) in
    let bcc = optional_same d d' "bcc" (same "bcc" refl) in
    let attachments = truthy_same d d' "attachments" (same "attachments" refl) in
    rw (h, h', account, subject, body, recipients, cc, bcc, attachments) refl

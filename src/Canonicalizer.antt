-- ===== src/Canonicalizer.antt =====
-- canonicalizer/payload.py: a request to send, normalised to the payload that is digested and
-- approved, and what the first version sends of it.
pub mod Jcs
pub mod Digest
pub mod Closed
use gmail_b1_gateway.Prelude.{
  zero, String, Bool, true, false, not, ◌&&◌, ◌||◌, Option, none, some, List, [], ◌∷◌, ℤ, pos,
  leb_ℤ, elem, ◌==◌, if◌then◌else◌,
}
use gmail_b1_gateway.Json.{
  Value, Items, Fields, null, boolean, int, float, str, arr, obj, nil, cons, end, field, member,
}
use gmail_b1_gateway.Errors.{Result, ok, err, payload_schema, attachments_not_supported}

infixl 5 ◌>>=◌ ◌>>◌
abbrev pub ◌>>=◌ : {A B : Type 0} → Result A → (A → Result B) → Result B
ok a >>= f = f a
err e >>= f = err e

abbrev pub ◌>>◌ : {B : Type 0} → Result (Unit {0}) → Result B → Result B
r >> k = r >>= λ _. k

abbrev pub pure : {A : Type 0} → A → Result A
pure a = ok a

-- `_reject_unknown`
abbrev pub reject_unknown : Fields → List String → Result (Unit {0})
reject_unknown end allowed = ok tt
reject_unknown (field k v d) allowed =
    let rest = reject_unknown d allowed in if elem k allowed then rest else err payload_schema

-- `_require`
abbrev pub require : Fields → String → Result Value
require d key = elim (member key d) [ some v ↦ ok v | none ↦ err payload_schema ]

abbrev as_str : Value → Result String
as_str (str s) = ok s
as_str _ = err payload_schema

abbrev as_obj : Value → Result Fields
as_obj (obj d) = ok d
as_obj _ = err payload_schema

abbrev strings : Items → Result (List String)
strings nil = ok []
strings (cons v vs) = as_str v >>= λ s. strings vs >>= λ ss. ok (s ∷ ss)

-- `_str_list`
abbrev pub str_list : Value → Result (List String)
str_list (arr vs) = strings vs
str_list _ = err payload_schema

-- Python's truth of a value.
abbrev is_truthy : Value → Bool
is_truthy null = false
is_truthy (boolean b) = b
is_truthy (int (pos zero)) = false
is_truthy (int n) = true
is_truthy (float s) = not (s == "0.0" || s == "-0.0")
is_truthy (str s) = not (s == "")
is_truthy (arr nil) = false
is_truthy (arr (cons v vs)) = true
is_truthy (obj end) = false
is_truthy (obj (field k v d)) = true

-- `prepare.get(key)` where it is truthy.
abbrev pub truthy_member : String → Fields → Option Value
truthy_member key d = elim (member key d) [
  | some v ↦ if is_truthy v then some v else none
  | none ↦ none
]

pub record Attachment : Type 0 where
  pub content_ref : String
  pub media_type : String
  pub name : String
  pub sha256 : String
  pub size : ℤ

abbrev as_size : Value → Result ℤ
as_size (int n) = if leb_ℤ (pos 0) n then ok n else err payload_schema
as_size _ = err payload_schema

-- `_normalize_attachment`
unfoldable pub normalize_attachment : Value → Result Attachment
normalize_attachment a = do
  d ← as_obj a
  reject_unknown d ("name" ∷ "media_type" ∷ "content_ref" ∷ "sha256" ∷ "size" ∷ [])
  v_name ← require d "name"
  name ← as_str v_name
  v_media_type ← require d "media_type"
  media_type ← as_str v_media_type
  v_content_ref ← require d "content_ref"
  content_ref ← as_str v_content_ref
  v_sha256 ← require d "sha256"
  sha256 ← as_str v_sha256
  v_size ← require d "size"
  size ← as_size v_size
  pure (record {
    content_ref = content_ref;
    media_type = media_type;
    name = name;
    sha256 = sha256;
    size = size;
  })

abbrev normalize_all : Items → Result (List Attachment)
normalize_all nil = ok []
normalize_all (cons a vs) = normalize_attachment a >>= λ x. normalize_all vs >>= λ xs. ok (x ∷ xs)

-- The canonical payload; `message_id` is there where the Gateway minted one.
pub record Canonical : Type 0 where
  pub account_handle : String
  pub recipients : List String
  pub cc : List String
  pub bcc : List String
  pub subject : String
  pub body_format : String
  pub body_content : String
  pub attachments : List Attachment
  pub message_id : Option String

abbrev check_message_id : Option String → Result (Unit {0})
check_message_id none = ok tt
check_message_id (some s) = if s == "" then err payload_schema else ok tt

abbrev pub optional_list : String → Fields → Result (List String)
optional_list key d = elim (truthy_member key d) [ some v ↦ str_list v | none ↦ ok [] ]

abbrev attachments_of : Option Value → Result (List Attachment)
attachments_of none = ok []
attachments_of (some (arr vs)) = normalize_all vs
attachments_of (some v) = err payload_schema

-- `_TOP_LEVEL_ALLOWED`
abbrev pub top_level_allowed : List String
top_level_allowed =
    "account_handle" ∷ "to" ∷ "cc" ∷ "bcc" ∷ "subject" ∷ "body" ∷ "attachments" ∷ "idempotency_key"
    ∷ []

unfoldable pub build_canonical_payload : Value → Option String → Result Canonical
unfolding normalize_attachment
build_canonical_payload prepare message_id = do
  d ← as_obj prepare
  reject_unknown d top_level_allowed
  check_message_id message_id
  v_account ← require d "account_handle"
  account_handle ← as_str v_account
  v_subject ← require d "subject"
  subject ← as_str v_subject
  v_body ← require d "body"
  body ← as_obj v_body
  reject_unknown body ("format" ∷ "content" ∷ [])
  v_format ← require body "format"
  v_content ← require body "content"
  body_format ← as_str v_format
  body_content ← as_str v_content
  v_to ← require d "to"
  recipients ← str_list v_to
  cc ← optional_list "cc" d
  bcc ← optional_list "bcc" d
  attachments ← attachments_of (truthy_member "attachments" d)
  pure (record {
    account_handle = account_handle;
    recipients = recipients;
    cc = cc;
    bcc = bcc;
    subject = subject;
    body_format = body_format;
    body_content = body_content;
    attachments = attachments;
    message_id = message_id;
  })

-- `enforce_v1_send_policy`
unfoldable pub enforce_v1_send_policy : Canonical → Result (Unit {0})
enforce_v1_send_policy c = elim c.attachments [
  | a ∷ rest ↦ err attachments_not_supported
  | [] ↦ if c.body_format == "text" then ok tt else err payload_schema
]

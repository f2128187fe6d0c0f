-- ===== src/Tests/Canonicalizer.antt =====
-- canonicalizer/payload.py: concrete requests and payloads.
use gmail_b1_gateway.Prelude.{
  ◌≢◌, String, ◌≡◌, refl, ◌⊎◌, codes, length, beq, pos, negsuc, if◌then◌else◌, some, [], ◌∷◌,
}
use gmail_b1_gateway.Json.{Value, Fields, null, int, str, arr, obj, nil, cons, end, field}
use gmail_b1_gateway.Errors.{ok, err, payload_schema}
use gmail_b1_gateway.Canonicalizer.{Canonical, build_canonical_payload}
use gmail_b1_gateway.Canonicalizer.Jcs.{
  canonicalize, ordered, sorted, insert_member, le_bytes, utf16_sort_key,
}
use gmail_b1_gateway.Canonicalizer.Jcs.Injective.{canonicalize-injective}
use gmail_b1_gateway.Canonicalizer.Digest.{
  canonical_fields, payload_digest, IsDigested, payload_digest_binds,
}
use gmail_b1_gateway.Keystore.Providers.{Bytes}
use gmail_b1_gateway.Canonicalizer.Closed.{unknown_member_refused}

abbrev letter : Fields
letter = field "account_handle" (str "me") (
    field "to" (arr (cons (str "you@example.com") nil)) (
      field "subject" (str "Hello")
        (field "body" (obj (field "format" (str "text") (field "content" (str "Hi") end))) end)))

abbrev with_key : String → Fields
with_key key = field "idempotency_key" (str key) letter

abbrev payload : Canonical
payload = record {
  account_handle = "me";
  recipients = "you@example.com" ∷ [];
  cc = [];
  bcc = [];
  subject = "Hello";
  body_format = "text";
  body_content = "Hi";
  attachments = [];
  message_id = some "<id>";
}

builds : build_canonical_payload (obj letter) (some "<id>") ≡ ok payload
unfolding build_canonical_payload
builds = refl

unknown_member_refused_example :
    build_canonical_payload (obj (field "message_id" (str "mine") letter)) (some "<id>")
    ≡ err payload_schema
unknown_member_refused_example =
    unknown_member_refused (field "message_id" (str "mine") letter) (some "<id>") "message_id"
      {v = str "mine"} refl refl

-- RFC 8785's sample keys: a supplementary code point stands before U+FB33.
member_order :
    sorted (field "\u{fb33}" null (field "😀" null (field "1" null (field "\r" null end))))
    ≡ field "\r" null (field "1" null (field "😀" null (field "\u{fb33}" null end)))
unfolding sorted insert_member le_bytes utf16_sort_key
member_order = refl

sample_text :
    canonicalize
      (obj (field "n" (int (negsuc 6)) (field "a" (arr (cons (str "\"\n") (cons null nil))) end)))
    ≡ some (codes "{\"a\":[\"\\\"\\n\",null],\"n\":-7}")
unfolding canonicalize
sample_text = refl

two_bytes : canonicalize (str "é") ≡ some (34 ∷ 195 ∷ 169 ∷ 34 ∷ [])
unfolding canonicalize
two_bytes = refl

abbrev forwards : Value
forwards = obj (field "a" null (field "b" (int (pos 1)) end))

abbrev backwards : Value
backwards = obj (field "b" (int (pos 1)) (field "a" null end))

abbrev common_text : Bytes
common_text = codes "{\"a\":null,\"b\":1}"

forwards_text : canonicalize forwards ≡ some common_text
unfolding canonicalize
forwards_text = refl

backwards_text : canonicalize backwards ≡ some common_text
unfolding canonicalize
backwards_text = refl

canonicalize-injective_example : ordered forwards ≡ ordered backwards
canonicalize-injective_example =
    canonicalize-injective forwards backwards common_text forwards_text backwards_text

-- A toy digest, which tells only an empty text from others.
abbrev toy_sha256 : Bytes → String
toy_sha256 b = if beq (length b) 0 then "empty" else "text"

letter_digest : payload_digest toy_sha256 (obj (with_key "a")) (some "<id>") ≡ ok "text"
unfolding payload_digest build_canonical_payload canonical_fields canonicalize
letter_digest = refl

other_digest : payload_digest toy_sha256 (obj (with_key "b")) (some "<id>") ≡ ok "text"
unfolding payload_digest build_canonical_payload canonical_fields canonicalize
other_digest = refl

payload_digest_binds_example :
    (c : Canonical) × (c' : Canonical) × (text : Bytes) × (text' : Bytes) × IsDigested toy_sha256
      (obj (with_key "a"))
      (some "<id>")
      "text"
      c
      text
    × IsDigested toy_sha256 (obj (with_key "b")) (some "<id>") "text" c' text'
    × ((c ≡ c') ⊎ ((text ≢ text') × (toy_sha256 text ≡ toy_sha256 text')))
payload_digest_binds_example =
    payload_digest_binds toy_sha256 (obj (with_key "a")) (obj (with_key "b")) (some "<id>")
      (some "<id>") letter_digest other_digest

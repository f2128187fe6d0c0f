-- ===== src/Canonicalizer/Digest.antt =====
-- canonicalizer/payload.py: the canonical payload as a dict, and the digest that is approved. SHA-256
-- is a parameter.
use native.Mathlib.Decide.{ℕ_discrete}
use gmail_b1_gateway.Prelude.{
  String, ◌≡◌, ◌≢◌, ◌⊎◌, inl, inr, refl, sym, ◌∙◌, Option, none, some, List, [], ◌∷◌, arith,
  Option-cases,
}
use gmail_b1_gateway.Json.{Value, Items, Fields, str, int, arr, obj, nil, cons, end, field}
use gmail_b1_gateway.Errors.{Result, ok, err, jcs_error, Result-cases}
use gmail_b1_gateway.Keystore.Providers.{Bytes}
use gmail_b1_gateway.Canonicalizer.{Attachment, Canonical, build_canonical_payload, ◌>>=◌}
use gmail_b1_gateway.Canonicalizer.Jcs.{
  canonicalize, ordered, ordered_items, ordered_members, sorted, insert_member, le_bytes,
  utf16_sort_key,
}
use gmail_b1_gateway.Canonicalizer.Jcs.Injective.{canonicalize-injective}

abbrev text_items : List String → Items
text_items [] = nil
text_items (s ∷ ss) = cons (str s) (text_items ss)

-- The dict that `_normalize_attachment` returns.
unfoldable pub attachment_value : Attachment → Value
attachment_value a = obj (
    field "content_ref" (str a.content_ref) (
      field "media_type" (str a.media_type) (
        field "name" (str a.name) (field "sha256" (str a.sha256) (field "size" (int a.size) end)))))

abbrev attachment_items : List Attachment → Items
attachment_items [] = nil
attachment_items (a ∷ attachments) = cons (attachment_value a) (attachment_items attachments)

abbrev message_id_field : Option String → Fields
message_id_field none = end
message_id_field (some s) = field "message_id" (str s) end

-- The dict that `build_canonical_payload` returns.
unfoldable pub canonical_fields : Canonical → Fields
unfolding attachment_value
canonical_fields c = field "account_handle" (str c.account_handle) (
    field "to" (arr (text_items c.recipients)) (
      field "cc" (arr (text_items c.cc)) (
        field "bcc" (arr (text_items c.bcc)) (
          field "subject" (str c.subject) (
            field "body"
              (obj (field "format" (str c.body_format) (field "content" (str c.body_content) end)))
              (field "attachments" (arr (attachment_items c.attachments))
                (message_id_field c.message_id)))))))

abbrev pub canonical_value : Canonical → Value
canonical_value c = obj (canonical_fields c)

-- `digest`, and `payload_digest` on top of it.
abbrev pub digest : (Bytes → String) → Value → Result String
digest sha256_hex value = elim (canonicalize value) [
  | some text ↦ ok (sha256_hex text)
  | none ↦ err jcs_error
]

unfoldable pub payload_digest : (Bytes → String) → Value → Option String → Result String
payload_digest sha256_hex prepare message_id =
    build_canonical_payload prepare message_id >>= λ c. digest sha256_hex (canonical_value c)

text_items-injective :
    (ss ts : List String) → ordered_items (text_items ss) ≡ ordered_items (text_items ts) → ss ≡ ts
unfolding ordered ordered_items
text_items-injective [] [] h = refl
text_items-injective [] (t ∷ ts) h = absurd (cc h)
text_items-injective (s ∷ ss) [] h = absurd (cc h)
text_items-injective (s ∷ ss) (t ∷ ts) h = cc (h, text_items-injective ss ts (cc))

attachment_value-injective :
    (a b : Attachment) → ordered (attachment_value a) ≡ ordered (attachment_value b) → a ≡ b
unfolding ordered ordered_members sorted insert_member le_bytes utf16_sort_key attachment_value
attachment_value-injective a b h = ground arith

attachment_items-injective :
    (xs ys : List Attachment)
    → ordered_items (attachment_items xs) ≡ ordered_items (attachment_items ys)
    → xs ≡ ys
unfolding ordered_items
attachment_items-injective [] [] h = refl
attachment_items-injective [] (t ∷ ts) h = absurd (cc h)
attachment_items-injective (s ∷ ss) [] h = absurd (cc h)
attachment_items-injective (s ∷ ss) (t ∷ ts) h =
    cc (attachment_value-injective s t (cc), attachment_items-injective ss ts (cc))

canonical_value-injective :
    (c d : Canonical) → ordered (canonical_value c) ≡ ordered (canonical_value d) → c ≡ d
unfolding ordered ordered_members ordered_items sorted insert_member le_bytes utf16_sort_key
    canonical_fields
canonical_value-injective c d h = ground (
  arith,
  text_items-injective c.recipients d.recipients,
  text_items-injective c.cc d.cc,
  text_items-injective c.bcc d.bcc,
  attachment_items-injective c.attachments d.attachments,
)

Bytes-discrete : Discrete Bytes
Bytes-discrete = hlevel ℕ_discrete

-- What a request's digest was made of: its canonical payload and that payload's canonical text.
pub record IsDigested (sha256_hex : Bytes → String) (prepare : Value) (message_id : Option String)
    (digest : String) (c : Canonical) (text : Bytes) : Type 0 where
  pub built : build_canonical_payload prepare message_id ≡ ok c
  pub written : canonicalize (canonical_value c) ≡ some text
  pub hashed : sha256_hex text ≡ digest

digest_ok :
    (sha256_hex : Bytes → String) (prepare : Value) (message_id : Option String) {d : String}
    → payload_digest sha256_hex prepare message_id ≡ ok d
    → (c : Canonical) × (b : Bytes) × (build_canonical_payload prepare message_id ≡ ok c)
      × (canonicalize (canonical_value c) ≡ some b)
      × (sha256_hex b ≡ d)
unfolding payload_digest
digest_ok sha256_hex prepare message_id {d} h =
    elim (Result-cases (build_canonical_payload prepare message_id)) [
      | inr (e, f) ↦ absurd (ground (arith, f))
      | inl (c, f) ↦ elim (Option-cases (canonicalize (canonical_value c))) [
        | inl g ↦ absurd (ground (arith, f, g))
        | inr (b, g) ↦ (c, b, f, g, ground (arith, f, g))
      ]
    ]

-- Two requests with the same payload digest: each has a canonical payload, whose canonical text has that
-- digest; and the two payloads are the same, recipient by recipient and attachment by attachment, with the
-- same message id or none on both sides, or these two canonical texts themselves are different texts with one SHA-256.
pub payload_digest_binds :
    (sha256_hex : Bytes → String) (prepare prepare' : Value)
    (message_id message_id' : Option String) {d : String}
    → payload_digest sha256_hex prepare message_id ≡ ok d
    → payload_digest sha256_hex prepare' message_id' ≡ ok d
    → (c : Canonical) × (c' : Canonical) × (text : Bytes) × (text' : Bytes) × IsDigested sha256_hex
        prepare message_id d c text
      × IsDigested sha256_hex prepare' message_id' d c' text'
      × ((c ≡ c') ⊎ ((text ≢ text') × (sha256_hex text ≡ sha256_hex text')))
payload_digest_binds sha256_hex prepare prepare' message_id message_id' {d} h k =
    let (c, b, built, text, hash) = digest_ok sha256_hex prepare message_id h in
    let (c', b', built', text', hash') = digest_ok sha256_hex prepare' message_id' k in
    (
      c,
      c',
      b,
      b',
      record { built = built; written = text; hashed = hash },
      record { built = built'; written = text'; hashed = hash' },
      elim (Bytes-discrete b b') [
        | no differ ↦ inr (differ, hash ∙ sym hash')
        | yes same ↦ inl (
            canonical_value-injective c c' (
              canonicalize-injective (canonical_value c) (canonical_value c') b text
                (rw (sym same) at text')))
      ],
    )

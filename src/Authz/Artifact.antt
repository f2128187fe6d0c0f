-- ===== src/Authz/Artifact.antt =====
-- authz/capability.py: signed envelopes, parsed fail-closed. A pattern that
-- ends in `$` is matched as Python does: it also matches before one last newline.
use gmail_b1_gateway.Prelude.{
  ℕ, zero, suc, ◌+◌, ◌-◌, String, Bool, true, false, ◌&&◌, ◌||◌, Option, none, some, List, [], ◌∷◌,
  ◌++◌, ℤ, pos, leb, beq, beq_ℤ, codes, elem, ◌==◌, if◌then◌else◌,
}
use Prim.Native.Nat.{◌*◌}
use gmail_b1_gateway.Json.{Value, Fields, str, int, float, boolean, obj, end, field, member}
use gmail_b1_gateway.Keystore.Providers.{Bytes}
use gmail_b1_gateway.Canonicalizer.Jcs.{canonicalize}
use gmail_b1_gateway.Authz.Reasons.{Detail}

-- A value, or a `CertificateError` with its detail.
pub data Parsed (A : Type 0) : Type 0 where
  valid : A → Parsed A
  malformed : Option Detail → Parsed A

infixl 5 ◌>>=◌ ◌>>◌
abbrev pub ◌>>=◌ : {A B : Type 0} → Parsed A → (A → Parsed B) → Parsed B
valid a >>= f = f a
malformed d >>= f = malformed d

abbrev pub ◌>>◌ : {B : Type 0} → Parsed (Unit {0}) → Parsed B → Parsed B
p >> q = p >>= λ _. q

abbrev pub pure : {A : Type 0} → A → Parsed A
pure a = valid a

-- `if not ...: raise CertificateError(...)`
abbrev pub demand : Bool → Parsed (Unit {0})
demand true = valid tt
demand false = malformed none

-- `set(d) <= keys`
abbrev pub has_only : List String → Fields → Bool
has_only ks end = true
has_only ks (field k v d) = elem k ks && has_only ks d

-- What is left for `$` to match.
abbrev pub at_end : List ℕ → Bool
at_end [] = true
at_end (c ∷ []) = beq c 10
at_end (c ∷ d ∷ cs) = false

abbrev pub is_digit : ℕ → Bool
is_digit c = leb 48 c && leb c 57

abbrev is_lower_hex : ℕ → Bool
is_lower_hex c = is_digit c || (leb 97 c && leb c 102)

abbrev pub digits_to_end : List ℕ → Bool
digits_to_end [] = true
digits_to_end (c ∷ cs) = let rest = digits_to_end cs in at_end (c ∷ cs) || (is_digit c && rest)

abbrev pub decimal_codes : List ℕ → Bool
decimal_codes [] = false
decimal_codes (c ∷ cs) = if beq c 48 then at_end cs else is_digit c && digits_to_end cs

-- `_CANONICAL_DECIMAL.match`
abbrev pub is_canonical_decimal : String → Bool
is_canonical_decimal s = decimal_codes (codes s)

abbrev hex_to_end : ℕ → List ℕ → Bool
hex_to_end zero cs = at_end cs
hex_to_end (suc n) [] = false
hex_to_end (suc n) (c ∷ cs) = is_lower_hex c && hex_to_end n cs

-- `_GRANT_ID_HEX.match`
abbrev pub is_grant_id : String → Bool
is_grant_id s = hex_to_end 32 (codes s)

abbrev int_from : ℕ → List ℕ → ℕ
int_from acc [] = acc
int_from acc (c ∷ cs) = if is_digit c then int_from (acc * 10 + (c - 48)) cs else acc

-- `int(s)` of a text that matched.
abbrev pub int_of : String → ℤ
int_of s = pos (int_from 0 (codes s))

-- `datetime.fromisoformat(t)`, and `int(dt.timestamp())` of an aware one.
pub data Moment : Type 0 where
  not_iso naive : Moment
  aware : ℤ → Moment

-- What the standard library and the cryptography package compute.
pub record Primitives : Type 0 where
  pub sha256_hex : Bytes → String
  pub fromhex : String → Option Bytes
  pub fromisoformat : String → Moment
  -- Whether the bytes are an Ed25519 public key, and verification under one.
  pub is_public_key : Bytes → Bool
  pub verify : Bytes → Bytes → Bytes → Bool

abbrev pub domain_tag : String → Bytes
domain_tag artifact_type = codes "puffo-authz/" ++ (codes artifact_type ++ (codes "/v1" ++ 0 ∷ []))

-- `env.get("v") != 1`: `True` and `1.0` are equal to 1.
abbrev is_one : Option Value → Bool
is_one (some (int n)) = beq_ℤ n (pos 1)
is_one (some (boolean b)) = b
is_one (some (float s)) = s == "1.0"
is_one _ = false

-- A text that is not empty.
abbrev pub require_str : String → Fields → Parsed String
require_str k d = elim (member k d) [
  | some v ↦ elim v [ str s ↦ if s == "" then malformed none else valid s | _ ↦ malformed none ]
  | none ↦ malformed none
]

abbrev pub as_object : Option Value → Parsed Fields
as_object (some (obj d)) = valid d
as_object _ = malformed none

abbrev pub as_text : Option Value → Parsed String
as_text (some (str s)) = valid s
as_text _ = malformed none

pub record Envelope : Type 0 where
  pub artifact_type : String
  pub body : Fields
  pub sig : Bytes

module _ (prim : Primitives) where
  -- `signing_input`
  abbrev pub signing_input : String → Fields → Option Bytes
  signing_input artifact_type body = elim (canonicalize (obj body)) [
    | some text ↦ some (domain_tag artifact_type ++ text)
    | none ↦ none
  ]

  abbrev decode_sig : String → Parsed Bytes
  decode_sig s = elim (prim.fromhex s) [ some sig ↦ valid sig | none ↦ malformed none ]

  unfoldable pub parse_envelope : Value → Parsed Envelope
  parse_envelope env = do
    d ← as_object (some env)
    demand (has_only ("v" ∷ "type" ∷ "body" ∷ "sig" ∷ []) d)
    demand (is_one (member "v" d))
    artifact_type ← require_str "type" d
    body ← as_object (member "body" d)
    sig_hex ← as_text (member "sig" d)
    sig ← decode_sig sig_hex
    pure (record { artifact_type = artifact_type; body = body; sig = sig })

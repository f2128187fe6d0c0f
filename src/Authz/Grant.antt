-- ===== src/Authz/Grant.antt =====
-- authz/capability.py: the body of a grant, parsed fail-closed.
use Prim.Native.Char.{code}
use gmail_b1_gateway.Prelude.{
  String, not, ◌&&◌, Option, none, some, [], ◌∷◌, ℤ, beq, leb_ℤ, ◌==◌, if◌then◌else◌,
}
use gmail_b1_gateway.Json.{Value, Fields, str, member}
use gmail_b1_gateway.Authz.Reasons.{missing_approval_mode}
use gmail_b1_gateway.Authz.Artifact.{
  Parsed, valid, malformed, ◌>>=◌, ◌>>◌, pure, demand, has_only, is_canonical_decimal, is_grant_id,
  int_of, Moment, aware, Primitives, require_str, as_object, as_text,
}

pub data Subject : Type 0 where
  os_account : String → String → Subject
  agent_key : String → String → Subject

pub data ApprovalMode : Type 0 where
  auto per_call : ApprovalMode

pub record Grant : Type 0 where
  pub grant_id : String
  pub grant_version : String
  pub grant_version_int : ℤ
  pub issuer_fp : String
  pub subject : Subject
  pub tool : String
  pub action : String
  pub scope : Fields
  pub approval_mode : ApprovalMode
  pub valid_from : ℤ
  pub valid_until : ℤ
  pub state_version : String

-- `ApprovalMode.value` and `SubjectKind.value`
abbrev pub mode_value : ApprovalMode → String
mode_value auto = "auto"
mode_value per_call = "per_call"

abbrev pub kind_value : Subject → String
kind_value (os_account m a) = "os_account"
kind_value (agent_key k s) = "agent_key"

abbrev require_grant_id : Fields → Parsed String
require_grant_id d = do s ← require_str "grant_id" d; demand (is_grant_id s); pure s

-- `_require_decimal_str`; the number is `int_of` the text.
abbrev require_decimal_str : String → Fields → Parsed String
require_decimal_str k d = do s ← require_str k d; demand (is_canonical_decimal s); pure s

abbrev parse_scope : Option Value → Parsed Fields
parse_scope v = do
  d ← as_object v
  account ← require_str "from_account" d
  demand (has_only ("from_account" ∷ []) d)
  pure d

abbrev parse_os_account : Fields → Parsed Subject
parse_os_account d = do
  demand (has_only ("kind" ∷ "machine_id" ∷ "account" ∷ []) d)
  machine_id ← require_str "machine_id" d
  account ← require_str "account" d
  pure (os_account machine_id account)

abbrev parse_agent_key : Fields → Parsed Subject
parse_agent_key d = do
  demand (has_only ("kind" ∷ "agent_pubkey" ∷ "agent_slug" ∷ []) d)
  agent_pubkey ← require_str "agent_pubkey" d
  agent_slug ← require_str "agent_slug" d
  pure (agent_key agent_pubkey agent_slug)

abbrev subject_of : String → Fields → Parsed Subject
subject_of kind d =
    if kind == "os_account"
    then parse_os_account d
    else if kind == "agent_key"
    then parse_agent_key d
    else malformed none

abbrev parse_subject : Option Value → Parsed Subject
parse_subject v = do d ← as_object v; kind ← as_text (member "kind" d); subject_of kind d

abbrev mode_of : Value → Parsed ApprovalMode
mode_of (str s) =
    if s == "auto" then valid auto else if s == "per_call" then valid per_call else malformed none
mode_of _ = malformed none

abbrev parse_approval_mode : Fields → Parsed ApprovalMode
parse_approval_mode d = elim (member "approval_mode" d) [
  | some v ↦ mode_of v
  | none ↦ malformed (some missing_approval_mode)
]

-- A last "Z" as the offset that `fromisoformat` reads.
abbrev zulu : String → String
zulu String.[] = String.[]
zulu (String.◌∷◌ c String.[]) = if beq (code c) 90 then "+00:00" else String.◌∷◌ c String.[]
zulu (String.◌∷◌ c (String.◌∷◌ d s)) = String.◌∷◌ c (zulu (String.◌∷◌ d s))

abbrev seconds_of : Moment → Parsed ℤ
seconds_of (aware t) = valid t
seconds_of _ = malformed none

module _ (prim : Primitives) where
  abbrev parse_rfc3339 : String → Fields → Parsed ℤ
  parse_rfc3339 k d = do s ← require_str k d; seconds_of (prim.fromisoformat (zulu s))

  unfoldable pub parse_grant_body : Fields → Parsed Grant
  parse_grant_body d = do
    demand (
        has_only
          ("grant_id" ∷ "grant_version" ∷ "state_version" ∷ "issuer_fp" ∷ "subject" ∷ "tool"
            ∷ "action" ∷ "scope" ∷ "approval_mode" ∷ "valid_from" ∷ "valid_until" ∷ [])
          d)
    grant_id ← require_grant_id d
    grant_version ← require_decimal_str "grant_version" d
    issuer_fp ← require_str "issuer_fp" d
    state_version ← require_decimal_str "state_version" d
    tool ← require_str "tool" d
    action ← require_str "action" d
    demand (tool == "gmail" && action == "send")
    scope ← parse_scope (member "scope" d)
    subject ← parse_subject (member "subject" d)
    approval_mode ← parse_approval_mode d
    valid_from ← parse_rfc3339 "valid_from" d
    valid_until ← parse_rfc3339 "valid_until" d
    demand (not (leb_ℤ valid_until valid_from))
    pure (record {
      grant_id = grant_id;
      grant_version = grant_version;
      grant_version_int = int_of grant_version;
      issuer_fp = issuer_fp;
      subject = subject;
      tool = tool;
      action = action;
      scope = scope;
      approval_mode = approval_mode;
      valid_from = valid_from;
      valid_until = valid_until;
      state_version = state_version;
    })

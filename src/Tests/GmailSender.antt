-- ===== src/Tests/GmailSender.antt =====
-- gateway/gmail_sender.py: one accepted message, a refusal, a redirect and a host that is not allowed,
-- with toy codecs.
use Prim.Native.String.{◌++◌ as ◌append◌}
use gmail_b1_gateway.Prelude.{
  ℕ, String, ◌≡◌, refl, none, some, Option, [], ◌∷◌, codes, ◌==◌, if◌then◌else◌, List,
}
use gmail_b1_gateway.Json.{str, obj, end, field}
use gmail_b1_gateway.Canonicalizer.{Canonical, enforce_v1_send_policy}
use gmail_b1_gateway.SendFsm.{SendResult, SendResultKind, accepted, rejected, indeterminate}
use gmail_b1_gateway.Gateway.Egress.{answered, Network, guarded_client, post}
use gmail_b1_gateway.Gateway.GmailSender.{
  Codecs, GmailSender, access_token, gmail_host, gmail_send_url, build_raw_message, request_body,
  classify, result_of, request_of, send,
}
use gmail_b1_gateway.Gateway.GmailSender.Truthful.{Told, send_truthful}

abbrev toy : Codecs
toy = record {
  as_bytes = λ headers content. some (codes content);
  urlsafe_b64encode = λ raw. "raw";
  dumps = λ value. codes "body";
  loads = λ body. some (obj (field "id" (str "m1") (field "threadId" (str "") end)));
  sha256_hex = λ s. "sha-" append s;
}

abbrev answering : ℕ → Network
answering status = record {
  urlsplit = λ url. some (record {
    scheme = "https";
    hostname = some (if url == gmail_send_url then gmail_host else "elsewhere");
  });
  lower = λ s. s;
  transport = λ wire request. answered status (codes "{}");
}

abbrev letter : Canonical
letter = record {
  account_handle = "me";
  recipients = "a@example.com" ∷ "b@example.com" ∷ [];
  cc = [];
  bcc = [];
  subject = "Hello";
  body_format = "text";
  body_content = "Hi";
  attachments = [];
  message_id = some "<id>";
}

abbrev gmail : String → GmailSender
gmail url = record {
  client = guarded_client (answering 200) (gmail_host ∷ []);
  payload_provider = λ proposal_id. if proposal_id == "p1" then some letter else none;
  token_provider = λ wire. access_token "t";
  url = url;
}

abbrev result : ℕ → String → Option SendResult
result status url = (send toy (answering status) (gmail url) "p1" []).0

accepted_message :
    result 200 gmail_send_url
    ≡ some (record {
      kind = accepted;
      message_id_sha256 = some "sha-m1";
      thread_id_sha256 = none;
      error_code = none;
      egress_hosts = gmail_host ∷ [];
    })
unfolding send post request_body build_raw_message request_of result_of classify
    enforce_v1_send_policy
accepted_message = refl

abbrev without_ids : SendResultKind → String → List String → SendResult
without_ids kind error_code hosts = record {
  kind = kind;
  message_id_sha256 = none;
  thread_id_sha256 = none;
  error_code = some error_code;
  egress_hosts = hosts;
}

refused_message :
    result 403 gmail_send_url ≡ some (without_ids rejected "rejected_403" (gmail_host ∷ []))
unfolding send post request_body build_raw_message request_of result_of classify
    enforce_v1_send_policy
refused_message = refl

redirected :
    result 302 gmail_send_url ≡ some (without_ids indeterminate "server_302" (gmail_host ∷ []))
unfolding send post request_body build_raw_message request_of result_of classify
    enforce_v1_send_policy
redirected = refl

blocked :
    result 200 "https://elsewhere/"
    ≡ some (without_ids rejected "egress_blocked" ("elsewhere" ∷ []))
unfolding send post request_body build_raw_message request_of result_of classify
    enforce_v1_send_policy
blocked = refl

send_truthful_example :
    Told toy
      (answering 200)
      (gmail gmail_send_url)
      "p1"
      []
      (send toy (answering 200) (gmail gmail_send_url) "p1" [])
send_truthful_example = send_truthful toy (answering 200) (gmail gmail_send_url) "p1" []

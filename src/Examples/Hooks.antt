-- ===== src/Examples/Hooks.antt =====
-- A webhook with a secret, and a request that is signed for it.
use task_orchestrator_engine.Prelude.{
  ◌+◌, ◌*◌, ◌%◌, ◌≡◌, refl, true, Option, none, some, List, [], ◌∷◌, ◌++◌, length, arith,
}
use task_orchestrator_engine.Types.{Ident, Json, WebhookRegistration}
use task_orchestrator_engine.Gateway.Signature.{
  Bytes, prefix, compute_signature, validate_signature,
}
use task_orchestrator_engine.Gateway.Signature.Hex.{AllBytes, validate_signature-compute_signature}
use task_orchestrator_engine.Gateway.Webhooks.{
  Request, webhook_accepted, Fetched, answered, post_webhook,
}
use task_orchestrator_engine.Gateway.Webhooks.Handled.{IsHandled, post_webhook-IsHandled}

-- A keyed checksum in place of the HMAC.
abbrev checksum : Bytes → Bytes → Bytes
checksum secret payload = ((length secret * 100 + length payload * 7) % 256) ∷ 171 ∷ []

checksum-AllBytes : (secret payload : Bytes) → AllBytes (checksum secret payload)
checksum-AllBytes secret payload = (omega arith, (omega arith, _))

abbrev accepting : Ident → Option Json → Fetched
accepting workflow payload = answered 202 (some (some 77))

abbrev registered : List WebhookRegistration
registered =
    record { id = 5; workflow_id = 9; secret = some (1 ∷ 2 ∷ []); active = true; created_at = 0 }
    ∷ []

abbrev signed_request : Request
signed_request = record {
  id = 5;
  content_length = none;
  signature_header = some (prefix ++ (b'd' ∷ b'd' ∷ b'a' ∷ b'b' ∷ []));
  body = some "{}";
  raw_body = some (123 ∷ 32 ∷ 125 ∷ []);
}

post_webhook_lem :
    post_webhook checksum accepting registered signed_request
    ≡ (record { status = 202; message = webhook_accepted (some 77) }, (9, some "{}") ∷ [])
unfolding post_webhook
post_webhook_lem = refl

post_webhook-IsHandled_example :
    IsHandled checksum accepting registered signed_request
      (post_webhook checksum accepting registered signed_request)
post_webhook-IsHandled_example =
    post_webhook-IsHandled checksum checksum-AllBytes accepting registered signed_request

validate_signature-compute_signature_example :
    (validate_signature checksum
        (8 ∷ 9 ∷ [])
        (prefix ++ compute_signature checksum (8 ∷ 9 ∷ []) (1 ∷ []))
        (1 ∷ [])
      ≡ true)
    × (validate_signature checksum
          (8 ∷ 9 ∷ [])
          (compute_signature checksum (8 ∷ 9 ∷ []) (1 ∷ []))
          (1 ∷ [])
        ≡ true)
validate_signature-compute_signature_example =
    validate_signature-compute_signature checksum (8 ∷ 9 ∷ []) (1 ∷ [])
      (checksum-AllBytes (1 ∷ []) (8 ∷ 9 ∷ []))

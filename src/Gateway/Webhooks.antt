-- ===== src/Gateway/Webhooks.antt =====
-- services/webhook-gateway/src/: middleware/payload-validator.ts, middleware/hmac-validator.ts,
-- services/webhook-forwarder.ts, controllers/webhook-controller.ts and the route that chains them.
-- A handler gives its reply and the calls to the scheduler that it makes; what the scheduler answers
-- is an argument.
pub mod Checks
pub mod Handled
use task_orchestrator_engine.Prelude.{
  ℕ, ◌+◌, Bool, true, false, ◌&&◌, Option, none, some, List, [], ◌∷◌, length, ltb, leb, ◌==◌,
  if◌then◌else◌,
}
use task_orchestrator_engine.Types.{Ident, Json, WebhookRegistration}
use task_orchestrator_engine.Cron.Text.{Text, parse_int}
use task_orchestrator_engine.Gateway.Signature.{Bytes, validate_signature}

-- `rawBody` is what the JSON parser keeps of the body that it has read.
pub record Request : Type 0 where
  pub id : Ident
  pub content_length : Option Text
  pub signature_header : Option (List ℕ)
  pub body : Option Json
  pub raw_body : Option Bytes

pub data Message : Type 0 where
  payload_too_large body_not_json webhook_not_found unauthorized scheduler_unavailable : Message
  scheduler_returned : ℕ → Message
  webhook_accepted : Option Ident → Message

pub record Reply : Type 0 where
  pub status : ℕ
  pub message : Message

abbrev pub max_payload_size : ℕ
max_payload_size = 1048576

abbrev pub too_long : Option ℕ → Bool
too_long none = false
too_long (some n) = ltb max_payload_size n

abbrev pub header_too_long : Option Text → Bool
header_too_long none = false
header_too_long (some text) = too_long (parse_int text)

abbrev pub raw_too_long : Option Bytes → Bool
raw_too_long none = false
raw_too_long (some bytes) = ltb max_payload_size (length bytes)

abbrev pub bad_request : Message → Option Reply
bad_request m = some (record { status = 400; message = m })

abbrev pub check_body : Request → Option Json → Option Reply
check_body req none = bad_request body_not_json
check_body req (some body) =
    if raw_too_long req.raw_body then bad_request payload_too_large else none

-- `none` stands for `next()`.
unfoldable pub payload_validator : Request → Option Reply
unfolding parse_int
payload_validator req =
    if header_too_long req.content_length
    then bad_request payload_too_large
    else check_body req req.body

abbrev pub refused : Reply
refused = record { status = 401; message = unauthorized }

abbrev pub not_found : Reply
not_found = record { status = 404; message = webhook_not_found }

module _ (hmac : Bytes → Bytes → Bytes) where
  abbrev pub check_raw : Bytes → List ℕ → Option Bytes → Option Reply
  check_raw secret header none = some refused
  check_raw secret header (some raw) =
      if validate_signature hmac raw header secret then none else some refused

  -- An empty header or secret counts as none.
  abbrev pub check_header : Bytes → Request → Option (List ℕ) → Option Reply
  check_header secret req none = some refused
  check_header secret req (some []) = some refused
  check_header secret req (some (c ∷ cs)) = check_raw secret (c ∷ cs) req.raw_body

  abbrev pub check_secret : Request → Option Bytes → Option Reply
  check_secret req none = none
  check_secret req (some []) = none
  check_secret req (some (b ∷ bs)) = check_header (b ∷ bs) req req.signature_header

  -- `createHmacValidator`
  unfoldable pub hmac_validator : Option WebhookRegistration → Request → Option Reply
  unfolding validate_signature
  hmac_validator none req = none
  hmac_validator (some webhook) req = check_secret req webhook.secret

-- What `fetch` gives: a failure, or a status and the `id` of the JSON body if it is JSON.
pub data Fetched : Type 0 where
  failed : Fetched
  answered : ℕ → Option (Option Ident) → Fetched

pub record ForwardResult : Type 0 where
  pub success : Bool
  pub status_code : ℕ
  pub execution_id : Option Ident
  pub error : Option Message

abbrev pub unavailable : ForwardResult
unavailable = record {
  success = false;
  status_code = 502;
  execution_id = none;
  error = some scheduler_unavailable;
}

-- `response.ok` is a status from 200 to 299; a body that is not JSON throws.
unfoldable pub forward_result : Fetched → ForwardResult
forward_result failed = unavailable
forward_result (answered status json) =
    if leb 200 status && leb status 299
    then elim json [
      | none ↦ unavailable
      | some id ↦ record { success = true; status_code = status; execution_id = id; error = none }
    ]
    else record {
      success = false;
      status_code = status;
      execution_id = none;
      error = some (scheduler_returned status);
    }

abbrev pub Calls : Type 0
Calls = List (Ident × Option Json)

abbrev pub find_webhook : Ident → List WebhookRegistration → Option WebhookRegistration
find_webhook id [] = none
find_webhook id (w ∷ ws) = if w.id == id then some w else find_webhook id ws

abbrev pub message_or : Option Message → Message
message_or none = scheduler_unavailable
message_or (some m) = m

module _ (hmac : Bytes → Bytes → Bytes) (scheduler : Ident → Option Json → Fetched) where
  abbrev pub forward_to_scheduler : Ident → Option Json → ForwardResult × Calls
  forward_to_scheduler workflow payload =
      (forward_result (scheduler workflow payload), (workflow, payload) ∷ [])

  abbrev pub reply_of : ForwardResult → Reply
  reply_of result =
      if result.success
      then record { status = 202; message = webhook_accepted result.execution_id }
      else record {
        status = if result.status_code == 0 then 502 else result.status_code;
        message = message_or result.error;
      }

  abbrev pub forward : WebhookRegistration → Request → Option Reply → Reply × Calls
  forward webhook req (some reply) = (reply, [])
  forward webhook req none =
      let sent = forward_to_scheduler webhook.workflow_id req.body in (reply_of sent.0, sent.1)

  abbrev pub handle_found : Request → Option WebhookRegistration → Reply × Calls
  handle_found req none = (not_found, [])
  handle_found req (some webhook) =
      if webhook.active
      then forward webhook req (check_secret hmac req webhook.secret)
      else (not_found, [])

  unfoldable pub handle_webhook : List WebhookRegistration → Request → Reply × Calls
  unfolding validate_signature forward_result
  handle_webhook webhooks req = handle_found req (find_webhook req.id webhooks)

  abbrev pub after_payload : List WebhookRegistration → Request → Option Reply → Reply × Calls
  after_payload webhooks req (some reply) = (reply, [])
  after_payload webhooks req none = handle_webhook webhooks req

  -- `router.post('/webhooks/:id', payloadValidator, handleWebhook)`
  unfoldable pub post_webhook : List WebhookRegistration → Request → Reply × Calls
  unfolding payload_validator handle_webhook
  post_webhook webhooks req = after_payload webhooks req (payload_validator req)

-- ===== src/Gateway/Webhooks/Handled.antt =====
-- When a webhook request reaches the scheduler, and what is answered.
use task_orchestrator_engine.Prelude.{
  ◌≤◌, ◌≡◌, ◌↔◌, inl, inr, refl, true, false, Option, none, some, List, [], ◌∷◌, arith, Bool-cases,
}
use task_orchestrator_engine.Types.{Ident, Json, WebhookRegistration}
use task_orchestrator_engine.Gateway.Signature.{Bytes}
use task_orchestrator_engine.Gateway.Signature.Hex.{AllBytes}
use task_orchestrator_engine.Gateway.Webhooks.{
  Request, Reply, payload_validator, refused, not_found, check_secret, Fetched, failed, answered,
  forward_result, Calls, find_webhook, reply_of, forward, handle_found, handle_webhook,
  after_payload, post_webhook,
}
use task_orchestrator_engine.Gateway.Webhooks.Checks.{
  IsWellFormed, IsGenuine, IsCheck, passes, stops, IsBadRequest, payload_validator-IsCheck,
  check_secret-IsCheck,
}

-- An answer with a status from 200 to 299 whose body is JSON.
abbrev pub IsSuccess : Fetched → Type 0
IsSuccess failed = ⊥
IsSuccess (answered status none) = ⊥
IsSuccess (answered status (some id)) = (200 ≤ status) × (status ≤ 299)

module _ (hmac : Bytes → Bytes → Bytes) (scheduler : Ident → Option Json → Fetched)
    (webhooks : List WebhookRegistration) (req : Request) where
  pub data IsHandled : Reply × Calls → Type 0 where
    malformed : {r : Reply} → ¬ IsWellFormed req → r.status ≡ 400 → IsHandled (r, [])
    unknown :
        IsWellFormed req
        → ((w : WebhookRegistration) → find_webhook req.id webhooks ≡ some w → w.active ≡ false)
        → IsHandled (not_found, [])
    forged :
        IsWellFormed req
        → (w : WebhookRegistration) → find_webhook req.id webhooks ≡ some w
        → w.active ≡ true
        → ¬ IsGenuine hmac req w.secret
        → IsHandled (refused, [])
    forwarded :
        {r : Reply}
        → IsWellFormed req
        → (w : WebhookRegistration) → find_webhook req.id webhooks ≡ some w
        → w.active ≡ true
        → IsGenuine hmac req w.secret
        → (r.status ≡ 202) ↔ IsSuccess (scheduler w.workflow_id req.body)
        → IsHandled (r, (w.workflow_id, req.body) ∷ [])

module _ (hmac : Bytes → Bytes → Bytes)
    (bytes : (secret payload : Bytes) → AllBytes (hmac secret payload))
    (scheduler : Ident → Option Json → Fetched) (webhooks : List WebhookRegistration)
    (req : Request) where
  abbrev Handles : Reply × Calls → Type 0
  Handles = IsHandled hmac scheduler webhooks req

  reply_status :
      (answer : Fetched)
      → ((reply_of hmac scheduler (forward_result answer)).status ≡ 202) ↔ IsSuccess answer
  unfolding forward_result
  reply_status failed = ground arith
  reply_status (answered status none) = ground arith
  reply_status (answered status (some id)) = ground arith

  forward-Handles :
      (w : WebhookRegistration) (o : Option Reply)
      → IsWellFormed req
      → find_webhook req.id webhooks ≡ some w
      → w.active ≡ true
      → IsCheck (IsGenuine hmac req w.secret) (λ r. r ≡ refused) o
      → Handles (forward hmac scheduler w req o)
  forward-Handles w none f e a (passes g) =
      forwarded f w e a g (reply_status (scheduler w.workflow_id req.body))
  forward-Handles w (some r) f e a (stops n p) = rw p (forged f w e a n)

  found-Handles :
      (o : Option WebhookRegistration)
      → IsWellFormed req
      → find_webhook req.id webhooks ≡ o
      → Handles (handle_found hmac scheduler req o)
  found-Handles none f e = unknown f (λ w p. ground arith)
  found-Handles (some w) f e = elim (Bool-cases w.active) [
    | inl a ↦ rw a (
        forward-Handles w (check_secret hmac req w.secret) f e a
          (check_secret-IsCheck hmac bytes req w.secret))
    | inr a ↦ rw a (unknown f (λ v p. ground arith))
  ]

  payload-Handles :
      (o : Option Reply)
      → IsCheck (IsWellFormed req) IsBadRequest o
      → Handles (after_payload hmac scheduler webhooks req o)
  unfolding handle_webhook
  payload-Handles none (passes f) = found-Handles (find_webhook req.id webhooks) f refl
  payload-Handles (some r) (stops n p) = malformed n p

  -- For an HMAC of bytes, a webhook request that is malformed is answered 400, one without an active
  -- registration 404, one whose registration has a secret that it does not prove 401, each without a
  -- call of the scheduler; every other one makes one call, for the registration's workflow and with
  -- the body, and is answered 202 exactly if the scheduler answers with success and JSON.
  pub post_webhook-IsHandled :
      IsHandled hmac scheduler webhooks req (post_webhook hmac scheduler webhooks req)
  unfolding post_webhook
  post_webhook-IsHandled = payload-Handles (payload_validator req) (payload_validator-IsCheck req)

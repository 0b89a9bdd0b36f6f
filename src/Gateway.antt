-- ===== src/Gateway.antt =====
-- The webhook gateway: services/webhook-gateway/src/, and the signatures of
-- packages/shared/src/security/hmac-validator.ts.
pub mod Signature
pub mod Webhooks

-- ===== src/Errors.antt =====
-- backend/app/errors.py: the application errors and their HTTP status, with the service errors that
-- derive from `AppError` (invitation_service.py, password_reset_service.py) or from `Exception`
-- (auth_service.py, billing_service.py). `integrity` is the database's refusal of a duplicate key.
use Prim.Native.String.{String}
use enterprise_document_inte.Base.{ℕ, Option, none, some}

pub data IntakeReason : Type 0 where
  empty malware : IntakeReason

pub data Error : Type 0 where
  app authentication authorization conflict not_found llm_routing : Error
  -- The plan's name, its limit and the resource of the message.
  plan_limit : String → ℕ → String → Error
  invalid_invitation invalid_reset_token : Error
  credentials registration_conflict billing : Error
  integrity : Error
  -- Exceptions that no handler translates: a missing key, a failed decryption, a refused intake.
  key_missing encryption : Error
  -- `IntakeError`, with its reason.
  intake_failed : IntakeReason → Error
  payload_too_large unsupported_media_type empty_file malware_detected url_import : Error

-- The status of an `AppError`; the others are no `AppError`, and their routers translate them.
unfoldable pub status_code : Error → Option ℕ
status_code Error.app = some 400
status_code Error.authentication = some 401
status_code Error.authorization = some 403
status_code Error.conflict = some 409
status_code Error.not_found = some 404
status_code Error.llm_routing = some 503
status_code (Error.plan_limit name limit resource) = some 402
status_code Error.invalid_invitation = some 400
status_code Error.invalid_reset_token = some 400
status_code Error.credentials = none
status_code Error.registration_conflict = none
status_code Error.billing = none
status_code Error.integrity = none
status_code Error.key_missing = none
status_code Error.encryption = none
status_code (Error.intake_failed reason) = none
status_code Error.payload_too_large = some 413
status_code Error.unsupported_media_type = some 415
status_code Error.empty_file = some 422
status_code Error.malware_detected = some 422
status_code Error.url_import = some 422

-- ===== src/Proxy/Refusal.antt =====
-- src/proxy/refusal.rs: why a request was refused, and what a client is told about it.
pub mod Retry
use maestro_llamacpp.Common.{ℕ, ltb, Option, none, some, if◌then◌else◌}
use maestro_llamacpp.Common.Text.{Text, codes}
use maestro_llamacpp.Proxy.Slots.MakeRoom.{Failure, not_ready, unavailable, refused, contended}

pub data Cause : Type 0 where
  malformed_request head_too_large request_timeout path_not_found model_not_found : Cause
  method_not_allowed : Text → Cause
  chunked_body malformed_length length_required body_too_large body_incomplete : Cause
  body_not_json model_missing child_unavailable startup_timeout room_contended no_room : Cause

unfoldable pub describe : Cause → ℕ × Text
describe malformed_request = (400, codes "malformed_request")
describe head_too_large = (431, codes "request_head_too_large")
describe request_timeout = (408, codes "request_timeout")
describe path_not_found = (404, codes "path_not_found")
describe model_not_found = (404, codes "model_not_found")
describe (method_not_allowed methods) = (405, codes "method_not_allowed")
describe chunked_body = (501, codes "chunked_body_not_implemented")
describe malformed_length = (400, codes "malformed_content_length")
describe length_required = (411, codes "content_length_required")
describe body_too_large = (413, codes "body_too_large")
describe body_incomplete = (400, codes "body_incomplete")
describe body_not_json = (400, codes "body_not_json")
describe model_missing = (400, codes "model_missing")
describe child_unavailable = (502, codes "child_unavailable")
describe startup_timeout = (504, codes "startup_timeout")
describe room_contended = (503, codes "room_contended")
describe no_room = (503, codes "insufficient_room")

unfoldable pub status : Cause → ℕ
status cause = (describe cause).0

unfoldable pub code : Cause → Text
code cause = (describe cause).1

unfoldable pub retry_after_seconds : Cause → Option ℕ
retry_after_seconds room_contended = some 1
retry_after_seconds _ = none

unfoldable pub family : Cause → Text
family cause =
    if ltb (status cause) 500 then codes "invalid_request_error" else codes "server_error"

pub record Refusal : Type 0 where
  pub cause : Cause
  pub message : Text

abbrev pub refusal_of : Cause → Text → Refusal
refusal_of cause message = record { cause = cause; message = message }

-- `impl From<Failure> for Refusal`
unfoldable pub of_failure : Failure → Refusal
of_failure (not_ready message) = refusal_of startup_timeout message
of_failure (unavailable message) = refusal_of child_unavailable message
of_failure (contended message) = refusal_of room_contended message
of_failure (refused message) = refusal_of no_room message

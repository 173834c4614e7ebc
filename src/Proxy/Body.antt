-- ===== src/Proxy/Body.antt =====
-- src/proxy/body.rs: the request body, and the model it names.
use maestro_llamacpp.Common.{
  ℕ, zero, suc, ◌*◌, true, false, Option, none, some, List, [], ◌∷◌, ◌++◌,
}
use maestro_llamacpp.Common.Text.{Text, codes, show}
use maestro_llamacpp.Proxy.Refusal.{
  Cause, request_timeout, body_incomplete, body_not_json, model_missing, refusal_of,
}
use maestro_llamacpp.Proxy.Endpoint.{Answer, answered, refusing}
use maestro_llamacpp.Proxy.Head.Read.{Ending, closed, failed}

abbrev pub max_body_bytes : ℕ
max_body_bytes = 8 * 1024 * 1024

-- What the parser of JSON makes of a body: an error in its words, or a value, of which the router
-- asks only for a text under "model" at the top.
pub data Json : Type 0 where
  not_json : Text → Json
  json : Option Text → Json

-- `read_exact`: so many bytes, or none where the connection ends before them.
unfoldable pub take_exact : ℕ → List ℕ → Option (List ℕ)
take_exact zero bytes = some []
take_exact (suc n) [] = none
take_exact (suc n) (b ∷ bytes) =
    let more = take_exact n bytes in elim more [ none ↦ none | some taken ↦ some (b ∷ taken) ]

abbrev ending_cause : Ending → Cause
ending_cause closed = body_incomplete
ending_cause (failed true message) = request_timeout
ending_cause (failed false message) = body_incomplete

-- The standard library's words for a connection that ends in a read.
abbrev ending_words : Ending → Text
ending_words closed = codes "failed to fill whole buffer"
ending_words (failed deadline message) = message

unfoldable pub ended_early : ℕ → Ending → Answer (List ℕ × Text)
ended_early declared ending = refusing (
    refusal_of (ending_cause ending) (
      codes "a request body declaring "
      ++ show declared
      ++ codes " bytes ended early: "
      ++ ending_words ending))

unfoldable pub model_of : List ℕ → Json → Answer (List ℕ × Text)
model_of bytes (not_json message) =
    refusing (refusal_of body_not_json (codes "a request body that is not JSON: " ++ message))
model_of bytes (json none) = refusing (
    refusal_of model_missing (
      codes
        "the generic endpoint routes on the 'model' field of the request body, and this request carries none; name a model there, or address a model directly at /models/<model>/<path>"))
model_of bytes (json (some model)) = answered (bytes, model)

unfoldable pub read_body : (List ℕ → Json) → Ending → List ℕ → ℕ → Answer (List ℕ × Text)
read_body parse_json ending bytes declared = elim (take_exact declared bytes) [
  | none ↦ ended_early declared ending
  | some taken ↦ model_of taken (parse_json taken)
]

-- ===== src/Proxy/Reply.antt =====
-- src/proxy/reply.rs: what the router says in its own voice. A head is ASCII, so that its
-- characters are its bytes; a body is the bytes that serde_json printed.
pub mod Framing
mod Tests
use maestro_llamacpp.Common.{
  ℕ, Bool, true, false, Option, none, some, List, [], ◌∷◌, ◌++◌, ◌==◌, length, if◌then◌else◌,
}
use maestro_llamacpp.Common.Text.{Text, codes, show}
use maestro_llamacpp.Proxy.Refusal.{Cause, method_not_allowed, status, retry_after_seconds}
use maestro_llamacpp.Proxy.Endpoint.{Endpoint, allowed}
use maestro_llamacpp.Proxy.Head.{Header}

pub record Reply : Type 0 where
  pub status : ℕ
  pub content_type : Option Text
  pub headers : List Header
  pub body : List ℕ
  pub head_only : Bool

-- The arms of the match on a status, in their order; the last one takes what is left.
abbrev pub arms : List (ℕ × Text)
arms =
    (200, codes "OK")
    ∷ (204, codes "No Content")
    ∷ (400, codes "Bad Request")
    ∷ (404, codes "Not Found")
    ∷ (405, codes "Method Not Allowed")
    ∷ (408, codes "Request Timeout")
    ∷ (411, codes "Length Required")
    ∷ (413, codes "Content Too Large")
    ∷ (431, codes "Request Header Fields Too Large")
    ∷ (501, codes "Not Implemented")
    ∷ (502, codes "Bad Gateway")
    ∷ (503, codes "Service Unavailable")
    ∷ []

unfoldable pub phrase : ℕ → List (ℕ × Text) → Text
phrase status [] = codes "Gateway Timeout"
phrase status ((s, words) ∷ rest) = if status == s then words else phrase status rest

unfoldable pub reason : ℕ → Text
reason status = phrase status arms

-- A line of the head, with its end before what follows.
abbrev pub ended : Text → Text → Text
ended line rest = line ++ 13 ∷ 10 ∷ rest

abbrev pub field : Text → Text → Text
field name value = name ++ (codes ": " ++ value)

abbrev pub type_line : Option Text → Text → Text
type_line none rest = rest
type_line (some content_type) rest = ended (field (codes "Content-Type") content_type) rest

abbrev pub field_lines : List Header → Text → Text
field_lines [] rest = rest
field_lines ((name, value) ∷ headers) rest = ended (field name value) (field_lines headers rest)

abbrev pub sent_body : Reply → List ℕ
sent_body r = if r.head_only then [] else r.body

-- `Reply::write`
unfoldable pub write : Reply → List ℕ
write r = ended (codes "HTTP/1.1 " ++ (show r.status ++ (codes " " ++ reason r.status))) (
    type_line r.content_type (
      ended (field (codes "Content-Length") (show (length r.body))) (
        field_lines r.headers (
          ended (codes "Access-Control-Allow-Origin: *")
            (ended (codes "Connection: close") (13 ∷ 10 ∷ sent_body r))))))

abbrev pub retry_header : Option ℕ → List Header
retry_header none = []
retry_header (some seconds) = (codes "Retry-After", show seconds) ∷ []

abbrev pub allow_header : Cause → List Header
allow_header (method_not_allowed methods) = (codes "Allow", methods) ∷ []
allow_header _ = []

-- What `refuse` writes of a cause and the envelope of its refusal.
unfoldable pub refused_as : Cause → List ℕ → Reply
refused_as cause envelope = record {
  status = status cause;
  content_type = some (codes "application/json");
  headers = retry_header (retry_after_seconds cause) ++ allow_header cause;
  body = envelope;
  head_only = false;
}

unfoldable pub json : List ℕ → Bool → Reply
json body head_only = record {
  status = 200;
  content_type = some (codes "application/json");
  headers = [];
  body = body;
  head_only = head_only;
}

unfoldable pub preflight : Endpoint → Reply
preflight endpoint = record {
  status = 204;
  content_type = none;
  headers =
      (codes "Allow", allowed endpoint)
      ∷ (codes "Access-Control-Allow-Methods", allowed endpoint)
      ∷ (codes "Access-Control-Allow-Headers", codes "*")
      ∷ (codes "Access-Control-Max-Age", codes "86400")
      ∷ [];
  body = [];
  head_only = true;
}

abbrev pub proceed : Text
proceed = codes "HTTP/1.1 100 Continue" ++ 13 ∷ 10 ∷ 13 ∷ 10 ∷ []

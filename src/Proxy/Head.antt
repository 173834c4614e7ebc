-- ===== src/Proxy/Head.antt =====
-- src/proxy/head.rs: what the router reads of a request, and what it sends on.
pub mod Read
mod Tests
use maestro_llamacpp.Common.{
  ℕ, Bool, true, false, ◌&&◌, ◌||◌, Option, none, some, List, [], ◌∷◌, ◌++◌, if◌then◌else◌, keep,
  not,
}
use maestro_llamacpp.Common.Text.{
  Text, codes, text_eq, trim, lowercase, contains_text, split_once, split_by, is_whitespace,
  parse_unsigned,
}
use maestro_llamacpp.Proxy.Refusal.{malformed_request, refusal_of}
use maestro_llamacpp.Proxy.Endpoint.{Answer, answered, refusing, Endpoint, endpoint_of, suffix_of}

pub data Length : Type 0 where
  absent : Length
  given : ℕ → Length
  malformed : Text → Length

abbrev pub Header : Type 0
Header = Text × Text

pub record Head : Type 0 where
  pub method : Text
  pub endpoint : Endpoint
  pub headers : List Header
  pub length : Length
  pub chunked : Bool
  pub expects_continue : Bool

-- `eq_ignore_ascii_case`
unfoldable pub same_name : Text → Text → Bool
same_name a b = text_eq (lowercase a) (lowercase b)

-- `split_whitespace`
is_word : Text → Bool
is_word [] = false
is_word (c ∷ s) = true

unfoldable pub words : Text → List Text
unfolding is_word
words line = keep is_word (split_by is_whitespace line)

-- A line with a colon, as a name and a value.
unfoldable pub header_of : Text → Option Header
header_of line = elim (split_once b':' line) [
  | none ↦ none
  | some (name, value) ↦ some (trim name, trim value)
]

unfoldable pub headers_of : List Text → List Header
headers_of [] = []
headers_of (line ∷ lines) =
    let rest = headers_of lines in
    elim (header_of line) [ none ↦ rest | some header ↦ header ∷ rest ]

length_value : Text → Length
length_value value = elim (parse_unsigned 64 value) [
  | some bytes ↦ given bytes
  | none ↦ malformed value
]

-- The last such header counts; `seen` is what the headers before say.
unfoldable pub length_of : Length → List Header → Length
unfolding length_value
length_of seen [] = seen
length_of seen ((name, value) ∷ hs) =
    length_of (if same_name name (codes "content-length") then length_value value else seen) hs

says_chunked : Header → Bool
says_chunked (name, value) =
    same_name name (codes "transfer-encoding") && contains_text (lowercase value) (codes "chunked")

says_continue : Header → Bool
says_continue (name, value) =
    same_name name (codes "expect") && same_name value (codes "100-continue")

unfoldable pub chunked_of : List Header → Bool
unfolding says_chunked
chunked_of [] = false
chunked_of (h ∷ hs) = says_chunked h || chunked_of hs

unfoldable pub expects_of : List Header → Bool
unfolding says_continue
expects_of [] = false
expects_of (h ∷ hs) = says_continue h || expects_of hs

unreadable : Text → Answer Head
unreadable reason = refusing (refusal_of malformed_request reason)

-- The loop over the lines, by what each of its variables comes to.
unfoldable pub head_of : Text → Endpoint → List Text → Head
head_of method endpoint lines =
    let headers = headers_of lines in
    record {
      method = method;
      endpoint = endpoint;
      headers = headers;
      length = length_of absent headers;
      chunked = chunked_of headers;
      expects_continue = expects_of headers;
    }

unfoldable pub parse_line : List Text → List Text → Answer Head
unfolding unreadable
parse_line [] lines = unreadable (codes "a request line with no method")
parse_line (method ∷ []) lines = unreadable (codes "a request line with no path")
parse_line (method ∷ path ∷ rest) lines = elim (endpoint_of path) [
  | refusing refusal ↦ refusing refusal
  | answered endpoint ↦ answered (head_of method endpoint lines)
]

unfoldable pub parse : List Text → Answer Head
unfolding unreadable
parse [] = unreadable (codes "a request with no request line")
parse (line ∷ lines) = parse_line (words line) lines

unfoldable pub body_bytes : Head → ℕ
body_bytes head = elim head.length [ given bytes ↦ bytes | absent ↦ 0 | malformed value ↦ 0 ]

abbrev crlf : Text
crlf = 13 ∷ 10 ∷ []

-- A header that the router answers itself, and so does not send on.
unfoldable pub is_own : Text → Bool
is_own name =
    same_name name (codes "host")
    || same_name name (codes "connection")
    || same_name name (codes "expect")

unfoldable pub header_line : Header → Text
header_line (name, value) = name ++ codes ": " ++ value ++ crlf

unfoldable pub header_lines : List Header → Text
header_lines [] = []
header_lines (h ∷ hs) =
    let rest = header_lines hs in if is_own h.0 then rest else header_line h ++ rest

unfoldable pub rewrite : Head → Text → Text
rewrite head upstream =
    head.method
    ++ codes " "
    ++ suffix_of head.endpoint
    ++ codes " HTTP/1.1"
    ++ crlf
    ++ codes "Host: "
    ++ upstream
    ++ crlf
    ++ codes "Connection: close"
    ++ crlf
    ++ header_lines head.headers
    ++ crlf

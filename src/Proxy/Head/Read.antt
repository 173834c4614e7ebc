-- ===== src/Proxy/Head/Read.antt =====
-- src/proxy/head/read.rs: reading a request head off a connection, within bounds.
pub mod Turns
pub mod Bounds
use maestro_llamacpp.Common.{
  ℕ, zero, suc, ◌+◌, ◌-◌, ◌*◌, Bool, true, false, ◌||◌, Option, none, some, List, [], ◌∷◌, ◌++◌,
  ◌==◌, leb, length, if◌then◌else◌,
}
use maestro_llamacpp.Common.Text.{Text, codes, show, trim_end_by}
use maestro_llamacpp.Proxy.Refusal.{
  Cause, head_too_large, request_timeout, malformed_request, refusal_of,
}
use maestro_llamacpp.Proxy.Endpoint.{Answer, answered, refusing}

abbrev pub max_head_bytes : ℕ
max_head_bytes = 64 * 1024

abbrev pub max_headers : ℕ
max_headers = 100

-- How a connection ends: the peer closed it, or an error with its words, which is or is not a
-- deadline's (`timed_out`).
pub data Ending : Type 0 where
  closed : Ending
  failed : Bool → Text → Ending

-- The bytes that are still to come, and what follows them.
pub record Connection : Type 0 where
  pub bytes : List ℕ
  pub ending : Ending

-- One read of a line of at most `limit` bytes: the bytes with the line's end, and those after it;
-- none where the connection ends in an error before that.
pub record LineTaken : Type 0 where
  pub line : List ℕ
  pub rest : List ℕ

is_closed : Ending → Bool
is_closed closed = true
is_closed (failed deadline m) = false

unfoldable pub take_line : Ending → ℕ → List ℕ → Option LineTaken
unfolding is_closed
take_line ending zero bytes = some (record { line = []; rest = bytes })
take_line ending (suc limit) [] =
    if is_closed ending then some (record { line = []; rest = [] }) else none
take_line ending (suc limit) (b ∷ bytes) =
    let more = take_line ending limit bytes in
    if b == 10 then some (record { line = 10 ∷ []; rest = bytes }) else elim more [
      | none ↦ none
      | some taken ↦ some (record { line = b ∷ taken.line; rest = taken.rest })
    ]

unread : {A : Type 0} → Cause → Text → Answer A
unread cause reason = refusing (refusal_of cause (codes "the request head is " ++ reason))

abbrev failing_cause : Ending → Cause
failing_cause closed = malformed_request
failing_cause (failed true message) = request_timeout
failing_cause (failed false message) = malformed_request

abbrev words_of : Ending → Text
words_of closed = []
words_of (failed deadline message) = message

abbrev pub is_line_end : ℕ → Bool
is_line_end c = c == 13 || c == 10

-- What one turn of the loop comes to: its end, or a line to keep, with the count of the bytes
-- that it took and those after it.
pub data Looked : Type 0 where
  ended : Answer (List Text × List ℕ) → Looked
  kept : Text → ℕ → List ℕ → Looked

-- What is done with a line that is text.
unfoldable pub look_text : List Text → Text → LineTaken → Looked
unfolding unread
look_text lines text found =
    let trimmed = trim_end_by is_line_end text in
    elim trimmed [
      | [] ↦ ended (answered (lines, found.rest))
      | c ∷ s ↦
          if leb max_headers (length lines)
          then ended (unread head_too_large (codes "more than 100 lines"))
          else kept (c ∷ s) (length found.line) found.rest
    ]

-- The words for bytes that are no UTF-8 are the standard library's.
module _ (decode : List ℕ → Option Text) (not_text : Text) where
  unfoldable pub look_line : List Text → LineTaken → Looked
  unfolding unread
  look_line lines found =
      if length found.line == 0
      then ended (unread malformed_request (codes "ended before its blank line"))
      else elim (decode found.line) [
        | none ↦ ended (unread malformed_request (codes "unreadable: " ++ not_text))
        | some text ↦ look_text lines text found
      ]

  unfoldable pub look : Ending → List Text → ℕ → List ℕ → Looked
  unfolding unread
  look ending lines count bytes =
      if max_head_bytes - count == 0
      then ended (unread head_too_large (codes "longer than 65536 bytes"))
      else elim (take_line ending (max_head_bytes - count) bytes) [
        | none ↦ ended (unread (failing_cause ending) (codes "unreadable: " ++ words_of ending))
        | some found ↦ look_line lines found
      ]

  -- On fuel: none means that it ran out.
  unfoldable pub read_from :
      ℕ → Ending → List Text → ℕ → List ℕ → Option (Answer (List Text × List ℕ))
  read_from zero ending lines count bytes = none
  read_from (suc fuel) ending lines count bytes = elim (look ending lines count bytes) [
    | ended answer ↦ some answer
    | kept line taken rest ↦ read_from fuel ending (lines ++ line ∷ []) (count + taken) rest
  ]

  -- Every turn that goes on keeps a line, so the bound on the lines bounds the turns.
  unfoldable pub read : Connection → Option (Answer (List Text × List ℕ))
  read connection = read_from (max_headers + 2) connection.ending [] 0 connection.bytes

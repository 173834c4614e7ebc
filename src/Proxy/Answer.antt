-- ===== src/Proxy/Answer.antt =====
-- src/proxy/answer.rs: what a request is answered with, and in which order things are checked.
pub mod Own
pub mod Asking
pub mod Counting
pub mod Relayed
pub mod Replies
mod Tests
use maestro_llamacpp.Common.{
  ℕ, Bool, true, false, ◌&&◌, Option, none, some, is_none, List, [], ◌∷◌, ◌++◌, map, ltb,
  if◌then◌else◌,
}
use maestro_llamacpp.Common.Text.{Text, codes, text_eq, show, join}
use maestro_llamacpp.Catalog.{Catalog, Entry, entry}
use maestro_llamacpp.Proxy.Slots.MakeRoom.{Failure}
use maestro_llamacpp.Proxy.Refusal.{
  Refusal, refusal_of, of_failure, method_not_allowed, chunked_body, malformed_length,
  length_required, body_too_large, model_not_found,
}
use maestro_llamacpp.Proxy.Endpoint.{
  Answer, answered, refusing, Endpoint, dedicated, generic, listing, catalogue, properties, allowed,
  allows,
}
use maestro_llamacpp.Proxy.Head.{Head, Length, absent, given, malformed, body_bytes, parse}
use maestro_llamacpp.Proxy.Head.Read.{Ending, Connection, read}
use maestro_llamacpp.Proxy.Relay.{Upstream, Outcome, run}
use maestro_llamacpp.Proxy.Body.{max_body_bytes, Json, read_body}

-- What is done on behalf of a request, in order.
pub data Event : Type 0 where
  -- `reply::proceed`: the caller may send its body
  proceeds : Event
  -- `reply::refuse`, `reply::preflight` and the router's own answers, which may be a head only
  refuses : Refusal → Event
  preflights : Endpoint → Event
  shows : Endpoint → Bool → Event
  -- `shared.child`, `relay::run` with the body that was read already, and `Slots::touch`
  asks : Entry → Event
  relays : Entry → ℕ → Option (List ℕ) → Outcome → Event
  touches_slot : Text → Event
  -- an error of the caller's connection, after which nothing is done
  stops : Event

-- What the sockets do beside the bytes of the request: whether the caller's can be cloned, whether
-- it takes the interim line, and each child's. The router's own replies are taken to be written.
pub record Sockets : Type 0 where
  pub cloned : Bool
  pub takes_interim : Bool
  pub upstream : ℕ → Upstream

-- What asking for a child comes to.
pub data Had : Type 0 where
  had : ℕ → Had
  had_not : Failure → Had

framed_about : Endpoint → Text
framed_about (dedicated id suffix) = codes "entry '" ++ id ++ codes "'"
framed_about (generic suffix) = codes "the generic endpoint"
framed_about listing = codes "the model listing"
framed_about catalogue = codes "the catalogue"
framed_about properties = codes "the server's properties"

length_complaint : Length → Option Refusal
length_complaint absent = none
length_complaint (given bytes) = none
length_complaint (malformed value) = some (
    refusal_of malformed_length (
      codes "'Content-Length: "
      ++ value
      ++ codes
          "' is not a length this router can read; send a byte count, or no such header at all"))

unfoldable pub framing : Head → Option Refusal
unfolding framed_about length_complaint
framing head =
    if head.chunked
    then some (
        refusal_of chunked_body (
          framed_about head.endpoint
          ++ codes
              ": this router does not implement chunked request bodies; send a body with a Content-Length"))
    else length_complaint head.length

unfoldable pub declared_body : Length → Answer ℕ
declared_body (given declared) =
    if ltb max_body_bytes declared
    then refusing (
        refusal_of body_too_large (
          codes "a request body of "
          ++ show declared
          ++ codes " bytes is larger than the "
          ++ show max_body_bytes
          ++ codes " this router will read"))
    else answered declared
declared_body _ = refusing (
    refusal_of length_required (
      codes
        "the generic endpoint routes on the 'model' field of the request body, so it needs one and a Content-Length that declares it; or address a model directly at /models/<model>/<path>"))

-- `reply::proceed`, if it is called for, before what follows it.
unfoldable pub proceeding : Sockets → Bool → List Event → List Event
proceeding sockets false rest = rest
proceeding sockets true rest = if sockets.takes_interim then proceeds ∷ rest else stops ∷ []

wrong_method : Head → Refusal
wrong_method head = refusal_of (method_not_allowed (allowed head.endpoint)) (
    head.method
    ++ codes " is not a method this endpoint answers; it accepts "
    ++ allowed head.endpoint)

unfoldable pub relayed :
    Sockets → Head → Ending → List ℕ → Option (List ℕ) → Entry → Had → List Event
relayed sockets head ending bytes buffered e (had_not failure) = refuses (of_failure failure) ∷ []
relayed sockets head ending bytes buffered e (had child) =
    proceeding sockets (is_none buffered && head.expects_continue && ltb 0 (body_bytes head)) (
      relays e child buffered (run head (sockets.upstream child) buffered ending bytes)
      ∷ touches_slot e.id
      ∷ [])

-- The catalog, the parser of JSON, what asking for an entry's child comes to, and the sockets.
module _ (catalog : Catalog) (parse_json : List ℕ → Json) (child_of : Entry → Had)
    (sockets : Sockets) where
  unknown_model : Text → Refusal
  unknown_model wanted = refusal_of model_not_found (
      codes "no model called '"
      ++ wanted
      ++ codes "'; this catalog carries: "
      ++ join (codes ", ") (map (λ (e : Entry). e.id) catalog.entries))

  unfoldable pub served : Head → Ending → List ℕ → Text → Option (List ℕ) → List Event
  unfolding unknown_model
  served head ending bytes wanted buffered = elim (entry catalog wanted) [
    | none ↦ refuses (unknown_model wanted) ∷ []
    | some e ↦ asks e ∷ relayed sockets head ending bytes buffered e (child_of e)
  ]

  unfoldable pub body_named : Head → Ending → List ℕ → Answer (List ℕ × Text) → List Event
  body_named head ending bytes (refusing refusal) = refuses refusal ∷ []
  body_named head ending bytes (answered (body, model)) = served head ending bytes model (some body)

  unfoldable pub generic_served : Head → Ending → List ℕ → List Event
  generic_served head ending bytes = elim (declared_body head.length) [
    | refusing refusal ↦ refuses refusal ∷ []
    | answered declared ↦
        proceeding sockets head.expects_continue
          (body_named head ending bytes (read_body parse_json ending bytes declared))
  ]

  unfoldable pub routed : Head → Ending → List ℕ → Endpoint → List Event
  routed head ending bytes (dedicated id suffix) = served head ending bytes id none
  routed head ending bytes (generic suffix) = generic_served head ending bytes
  routed head ending bytes listing = shows listing (text_eq head.method (codes "HEAD")) ∷ []
  routed head ending bytes catalogue = shows catalogue (text_eq head.method (codes "HEAD")) ∷ []
  routed head ending bytes properties = shows properties (text_eq head.method (codes "HEAD")) ∷ []

  unfoldable pub answer_head : Head → Ending → List ℕ → List Event
  unfolding wrong_method
  answer_head head ending bytes =
      if text_eq head.method (codes "OPTIONS")
      then preflights head.endpoint ∷ []
      else if allows head.endpoint head.method
      then (elim (framing head) [
        | some refusal ↦ refuses refusal ∷ []
        | none ↦ routed head ending bytes head.endpoint
      ])
      else refuses (wrong_method head) ∷ []

  unfoldable pub answer_parsed : Answer Head → Ending → List ℕ → List Event
  answer_parsed (refusing refusal) ending bytes = refuses refusal ∷ []
  answer_parsed (answered head) ending bytes = answer_head head ending bytes

  unfoldable pub answer_lines : Answer (List Text × List ℕ) → Ending → List Event
  answer_lines (refusing refusal) ending = refuses refusal ∷ []
  answer_lines (answered (lines, bytes)) ending = answer_parsed (parse lines) ending bytes

  -- `to`: none means that the reader of the head ran out of fuel.
  unfoldable pub answer : (List ℕ → Option Text) → Text → Connection → Option (List Event)
  answer decode not_text connection =
      if sockets.cloned
      then (elim (read decode not_text connection) [
        | none ↦ none
        | some lines ↦ some (answer_lines lines connection.ending)
      ])
      else some (stops ∷ [])

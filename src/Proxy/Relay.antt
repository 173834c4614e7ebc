-- ===== src/Proxy/Relay.antt =====
-- src/proxy/relay.rs: the request sent to a child, and its response copied back. What the sockets
-- do is a parameter.
pub mod Exact
mod Tests
use maestro_llamacpp.Common.{
  ℕ, zero, suc, Bool, true, false, ◌&&◌, Option, none, some, List, [], ◌∷◌, ◌++◌, if◌then◌else◌,
}
use maestro_llamacpp.Common.Options.{◌>>=◌}
use maestro_llamacpp.Common.Text.{Text}
use maestro_llamacpp.Proxy.Head.{Head, body_bytes, rewrite}
use maestro_llamacpp.Proxy.Head.Read.{Ending, closed, failed}

-- A read of the response: its end or an error, or bytes, and whether the caller takes them.
pub data Turn : Type 0 where
  ends : Turn
  gives : List ℕ → Bool → Turn

-- The child's side: where it listens, whether it can be connected to, whether it takes all that is
-- written to it, and the reads of its response, to its end.
pub record Upstream : Type 0 where
  pub endpoint : Text
  pub connects : Bool
  pub takes : Bool
  pub response : List Turn

-- An error before the response, or the head and the body that were sent to the child and what the
-- caller took of its response, but for a piece that failed half-way.
pub data Outcome : Type 0 where
  broken : Outcome
  copied : Text → List ℕ → List ℕ → Outcome

-- The bytes of a declared body that arrive; none where the connection ends in an error before.
-- The size of a read makes no difference to them, and so they are taken one at a time.
unfoldable pub forward_body : Ending → ℕ → List ℕ → Option (List ℕ)
forward_body ending zero bytes = some []
forward_body closed (suc remaining) [] = some []
forward_body (failed deadline m) (suc remaining) [] = none
forward_body ending (suc remaining) (b ∷ bytes) =
    forward_body ending remaining bytes >>= λ rest. some (b ∷ rest)

unfoldable pub copy_response : List Turn → List ℕ
copy_response [] = []
copy_response (ends ∷ turns) = []
copy_response (gives piece true ∷ turns) = piece ++ copy_response turns
copy_response (gives piece false ∷ turns) = []

unfoldable pub sent_on : Head → Option (List ℕ) → Ending → List ℕ → Option (List ℕ)
sent_on head (some body) ending bytes = some body
sent_on head none ending bytes = forward_body ending (body_bytes head) bytes

unfoldable pub run : Head → Upstream → Option (List ℕ) → Ending → List ℕ → Outcome
run head upstream body ending bytes =
    if upstream.connects && upstream.takes
    then (elim (sent_on head body ending bytes) [
      | none ↦ broken
      | some sent ↦ copied (rewrite head upstream.endpoint) sent (copy_response upstream.response)
    ])
    else broken

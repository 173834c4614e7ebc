-- ===== src/Proxy/Relay/Tests.antt =====
-- A request with a body of two bytes, relayed to a child that answers in two pieces.
use maestro_llamacpp.Common.{true, false, none, [], ◌∷◌, ◌≡◌, refl}
use maestro_llamacpp.Common.Text.{codes}
use maestro_llamacpp.Proxy.Endpoint.{dedicated}
use maestro_llamacpp.Proxy.Head.{Head, given, body_bytes, rewrite}
use maestro_llamacpp.Proxy.Head.Read.{closed, failed}
use maestro_llamacpp.Proxy.Relay.{
  Upstream, gives, broken, copied, run, sent_on, forward_body, copy_response,
}
use maestro_llamacpp.Proxy.Relay.Exact.{IsBody, IsPrefix, offered, run-exact}

abbrev completes : Head
completes = record {
  method = codes "POST";
  endpoint = dedicated (codes "m") (codes "/v1/completions");
  headers = [];
  length = given 2;
  chunked = false;
  expects_continue = false;
}

abbrev answers_twice : Upstream
answers_twice = record {
  endpoint = codes "127.0.0.1:9";
  connects = true;
  takes = true;
  response = gives (codes "ok") true ∷ gives (codes "!") false ∷ gives (codes "?") true ∷ [];
}

relayed_whole :
    run completes answers_twice none closed (codes "{}GET")
    ≡ copied (rewrite completes (codes "127.0.0.1:9")) (codes "{}") (codes "ok")
unfolding run sent_on forward_body copy_response codes body_bytes
relayed_whole = refl

breaks_within_body :
    run completes answers_twice none (failed true (codes "timed out")) (codes "{") ≡ broken
unfolding run sent_on forward_body copy_response codes body_bytes
breaks_within_body = refl

run-exact_example :
    (rewrite completes (codes "127.0.0.1:9") ≡ rewrite completes (codes "127.0.0.1:9"))
    × IsBody (body_bytes completes) (codes "{}GET") (codes "{}")
    × IsPrefix (codes "ok") (offered answers_twice.response)
run-exact_example =
    run-exact completes answers_twice closed (codes "{}GET")
      (rewrite completes (codes "127.0.0.1:9")) (codes "{}") (codes "ok") relayed_whole

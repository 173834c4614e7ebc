-- ===== src/Proxy/Reply/Tests.antt =====
-- Two replies of the router, written.
use maestro_llamacpp.Common.{true, some, [], ◌∷◌, ◌≡◌, refl}
use maestro_llamacpp.Common.Text.{codes, show, digits_of}
use maestro_llamacpp.Bench.{body_of}
use maestro_llamacpp.Proxy.Refusal.{room_contended, method_not_allowed, status, retry_after_seconds}
use maestro_llamacpp.Proxy.Reply.{Reply, reason, phrase, refused_as, json, sent_body, write}
use maestro_llamacpp.Proxy.Reply.Framing.{is_plain, body_of-write}

abbrev contended_reply : Reply
contended_reply = refused_as room_contended (123 ∷ 13 ∷ 10 ∷ 125 ∷ [])

body_of-write_example : body_of (write contended_reply) ≡ some (sent_body contended_reply)
unfolding refused_as status retry_after_seconds codes is_plain show digits_of
body_of-write_example = body_of-write contended_reply refl ((refl, refl, refl), tt)

reason_loop : reason 508 ≡ codes "Gateway Timeout"
unfolding reason phrase codes
reason_loop = refl

not_allowed_allows :
    (refused_as (method_not_allowed (codes "GET")) []).headers ≡ (codes "Allow", codes "GET") ∷ []
unfolding refused_as status retry_after_seconds codes
not_allowed_allows = refl

reply_to_head_is_empty : sent_body (json (1 ∷ []) true) ≡ []
unfolding json
reply_to_head_is_empty = refl

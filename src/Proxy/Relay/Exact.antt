-- ===== src/Proxy/Relay/Exact.antt =====
-- src/proxy/relay.rs: which bytes a relay carries, either way.
use maestro_llamacpp.Common.{
  ℕ, zero, suc, ◌≤◌, Bool, true, false, Option, none, some, List, [], ◌∷◌, ◌++◌, ◌≡◌, ◌⊎◌, ◌&&◌,
  if◌then◌else◌, ◌∙◌, subst, refl, ap, arith, length, inl, inr,
}
use mathlib.Core.List.{append_assoc}
use maestro_llamacpp.Common.Options.{◌>>=◌}
use maestro_llamacpp.Common.Text.{Text}
use maestro_llamacpp.Proxy.Head.{Head, body_bytes, rewrite}
use maestro_llamacpp.Proxy.Head.Read.{Ending, closed, failed}
use maestro_llamacpp.Proxy.Relay.{
  Turn, ends, gives, Upstream, broken, copied, forward_body, copy_response, sent_on, run,
}

-- All that the reads of a response give, whoever takes it.
abbrev pub offered : List Turn → List ℕ
offered [] = []
offered (ends ∷ turns) = []
offered (gives piece taken ∷ turns) = piece ++ offered turns

abbrev pub IsPrefix : List ℕ → List ℕ → Type 0
IsPrefix xs ys = (rest : List ℕ) × (xs ++ rest ≡ ys)

-- So many of the bytes, or all of them where there are fewer.
pub record IsBody (declared : ℕ) (bytes sent : List ℕ) : Type 0 where
  pub first : IsPrefix sent bytes
  pub within : length sent ≤ declared
  pub all_of_them : (length sent ≡ declared) ⊎ (sent ≡ bytes)

copy_response-IsPrefix : (turns : List Turn) → IsPrefix (copy_response turns) (offered turns)
unfolding copy_response
copy_response-IsPrefix [] = ([], refl)
copy_response-IsPrefix (ends ∷ turns) = ([], refl)
copy_response-IsPrefix (gives piece true ∷ turns) =
    let (rest, e) = copy_response-IsPrefix turns in
    (rest, append_assoc piece (copy_response turns) rest ∙ ap (λ s. piece ++ s) e)
copy_response-IsPrefix (gives piece false ∷ turns) = (piece ++ offered turns, refl)

longer :
    (declared b : ℕ) (bytes sent : List ℕ)
    → IsBody declared bytes sent
    → IsBody (suc declared) (b ∷ bytes) (b ∷ sent)
longer declared b bytes sent i = record {
  first = (i.first.0, ap (λ s. b ∷ s) i.first.1);
  within = omega (arith, i.within);
  all_of_them = elim i.all_of_them [ inl e ↦ inl (ap suc e) | inr e ↦ inr (ap (λ s. b ∷ s) e) ];
}

-- One byte ahead of a body.
one_ahead :
    (b declared : ℕ) (bytes : List ℕ) (o : Option (List ℕ)) (sent : List ℕ)
    → ((rest : List ℕ) → o ≡ some rest → IsBody declared bytes rest)
    → (o >>= λ rest. some (b ∷ rest)) ≡ some sent
    → IsBody (suc declared) (b ∷ bytes) sent
one_ahead b declared bytes none sent i h = absurd (cc)
one_ahead b declared bytes (some rest) sent i h =
    let same : b ∷ rest ≡ sent = cc in
    subst (IsBody (suc declared) (b ∷ bytes)) same (longer declared b bytes rest (i rest refl))

forward_body-IsBody :
    (ending : Ending) (declared : ℕ) (bytes sent : List ℕ)
    → forward_body ending declared bytes ≡ some sent
    → IsBody declared bytes sent
unfolding forward_body
forward_body-IsBody ending zero bytes sent h =
    let same : [] ≡ sent = cc in
    subst (IsBody 0 bytes) same
      (record { first = (bytes, refl); within = omega arith; all_of_them = inl refl })
forward_body-IsBody closed (suc declared) [] sent h =
    let same : [] ≡ sent = cc in
    subst (IsBody (suc declared) []) same
      (record { first = ([], refl); within = omega arith; all_of_them = inr refl })
forward_body-IsBody (failed deadline m) (suc declared) [] sent h = absurd (cc)
forward_body-IsBody ending (suc declared) (b ∷ bytes) sent h =
    one_ahead b declared bytes (forward_body ending declared bytes) sent
      (λ rest e. forward_body-IsBody ending declared bytes rest e) h

copied-of :
    (accepts : Bool) (o : Option (List ℕ)) (head front : Text) (response sent got : List ℕ)
    → (if accepts
        then (elim o [ none ↦ broken | some body ↦ copied head body response ])
        else broken)
      ≡ copied front sent got
    → (front ≡ head) × (o ≡ some sent) × (response ≡ got)
copied-of true (some body) head front response sent got h = (cc, cc, cc)
copied-of true none head front response sent got h = absurd (cc)
copied-of false o head front response sent got h = absurd (cc)

-- Where a relay does not break before the response, and the body was not read before: what it
-- sends to the child is the rewritten head and, of the bytes that follow the request's head, the
-- declared ones, or all of them where the caller closes before that; and what the caller takes of
-- the response is the beginning of what the child gave.
pub run-exact :
    (head : Head) (upstream : Upstream) (ending : Ending) (bytes : List ℕ) (front : Text)
    (sent got : List ℕ)
    → run head upstream none ending bytes ≡ copied front sent got
    → (front ≡ rewrite head upstream.endpoint)
      × IsBody (body_bytes head) bytes sent
      × IsPrefix got (offered upstream.response)
unfolding run sent_on
run-exact head upstream ending bytes front sent got h =
    let (same, body, taken) =
      copied-of (upstream.connects && upstream.takes) (forward_body ending (body_bytes head) bytes)
        (rewrite head upstream.endpoint) front (copy_response upstream.response) sent got h in
    (
      same,
      forward_body-IsBody ending (body_bytes head) bytes sent body,
      subst (λ s. IsPrefix s (offered upstream.response)) taken
          (copy_response-IsPrefix upstream.response),
    )

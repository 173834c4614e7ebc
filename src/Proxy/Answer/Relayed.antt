-- ===== src/Proxy/Answer/Relayed.antt =====
-- What a child that is asked for comes to, in the count of a request's events.
use maestro_llamacpp.Common.{
  ℕ, zero, suc, ◌+◌, Bool, true, false, not, ◌&&◌, Option, none, some, List, [], ◌∷◌, ◌≡◌, ◌≢◌, ◌⊎◌,
  refl, arith, sum_by, Option-cases, Bool-cases, inl, inr, if◌then◌else◌, ltb,
}
use maestro_llamacpp.Common.Options.{◌>>=◌}
use maestro_llamacpp.Catalog.{Entry}
use maestro_llamacpp.Proxy.Head.{Head, body_bytes, rewrite}
use maestro_llamacpp.Proxy.Head.Read.{Ending, closed, failed}
use maestro_llamacpp.Proxy.Relay.{
  Upstream, Outcome, copied, copy_response, forward_body, sent_on, run,
}
use maestro_llamacpp.Proxy.Answer.{
  proceeds, asks, relays, touches_slot, stops, Sockets, Had, had, had_not, proceeding, relayed,
}
use maestro_llamacpp.Proxy.Answer.Counting.{has_bytes, Fails, IsAnswer}

bind-there : (b : ℕ) (o : Option (List ℕ)) → o ≢ none → (o >>= λ rest. some (b ∷ rest)) ≢ none
bind-there b none h q = h refl
bind-there b (some rest) h q = absurd (cc)

forward_body-closed : (n : ℕ) (bytes : List ℕ) → forward_body closed n bytes ≢ none
unfolding forward_body
forward_body-closed zero bytes h = absurd (cc)
forward_body-closed (suc n) [] h = absurd (cc)
forward_body-closed (suc n) (b ∷ bytes) h =
    bind-there b (forward_body closed n bytes) (forward_body-closed n bytes) h

sent_on-none :
    (head : Head) (body : Option (List ℕ)) (ending : Ending) (bytes : List ℕ)
    → sent_on head body ending bytes ≡ none
    → ending ≢ closed
unfolding sent_on
sent_on-none head (some body) ending bytes h is = absurd (cc)
sent_on-none head none closed bytes h is = forward_body-closed (body_bytes head) bytes h
sent_on-none head none (failed deadline m) bytes h is = absurd (cc)

copied-bytes :
    (head : List ℕ) (body bytes : List ℕ)
    → (has_bytes (copied head body bytes) ≡ true) ⊎ (bytes ≡ [])
copied-bytes head body [] = inr refl
copied-bytes head body (b ∷ bytes) = inl refl

run-excused :
    (head : Head) (upstream : Upstream) (body : Option (List ℕ)) (ending : Ending) (bytes : List ℕ)
    → (has_bytes (run head upstream body ending bytes) ≡ true) ⊎ Fails upstream ending
unfolding run
run-excused head upstream body ending bytes = elim (Bool-cases upstream.connects) [
  | inr c ↦ inr (inl c)
  | inl c ↦ elim (Bool-cases upstream.takes) [
    | inr t ↦ inr (inr (inl t))
    | inl t ↦
        rw (c, run)
          (rw t (elim (Option-cases (sent_on head body ending bytes)) [
            | inl n ↦ inr (inr (inr (inl (sent_on-none head body ending bytes n))))
            | inr (sent, s) ↦
                elim (copied-bytes (rewrite head upstream.endpoint) sent
                  (copy_response upstream.response)) [
                    | inl e ↦ inl (rw s e)
                    | inr e ↦ inr (inr (inr (inr e)))
                  ]
          ]))
  ]
]

-- How many interim lines are left, once the body is or is not read.
abbrev pub interim_left : Option (List ℕ) → ℕ
interim_left none = 1
interim_left (some body) = 0

one_of : (b : Bool) → (if b then 1 else 0) + (if not b then 1 else 0) ≡ 1
one_of true = refl
one_of false = refl

-- A child that is asked for, and a relay to it.
asks-relay :
    (sockets : Sockets) (ending : Ending) (k : ℕ) (e : Entry) (child : ℕ)
    (buffered : Option (List ℕ)) (o : Outcome)
    → (has_bytes o ≡ true) ⊎ Fails (sockets.upstream child) ending
    → IsAnswer sockets ending k (asks e ∷ relays e child buffered o ∷ touches_slot e.id ∷ [])
unfolding sum_by
asks-relay sockets ending k e child buffered o why = record {
  once = omega (arith, one_of (has_bytes o));
  excused = (tt, (why, (tt, tt)));
  interim = omega arith;
  touched = omega arith;
  asked = omega arith;
  asked_once = omega arith;
}

asks-interim :
    (sockets : Sockets) (ending : Ending) (w : Bool) (e : Entry) (child : ℕ)
    (buffered : Option (List ℕ)) (o : Outcome)
    → sockets.takes_interim ≡ w
    → (has_bytes o ≡ true) ⊎ Fails (sockets.upstream child) ending
    → IsAnswer sockets ending 1 (
        asks e
        ∷ (if w then proceeds ∷ relays e child buffered o ∷ touches_slot e.id ∷ [] else stops ∷ []))
unfolding sum_by
asks-interim sockets ending true e child buffered o t why = record {
  once = omega (arith, one_of (has_bytes o));
  excused = (tt, (tt, (why, (tt, tt))));
  interim = omega arith;
  touched = omega arith;
  asked = omega arith;
  asked_once = omega arith;
}
asks-interim sockets ending false e child buffered o t why = record {
  once = omega arith;
  excused = (tt, (inr t, tt));
  interim = omega arith;
  touched = omega arith;
  asked = omega arith;
  asked_once = omega arith;
}

asks-proceeding :
    (sockets : Sockets) (ending : Ending) (b : Bool) (e : Entry) (child : ℕ)
    (buffered : Option (List ℕ)) (o : Outcome)
    → (has_bytes o ≡ true) ⊎ Fails (sockets.upstream child) ending
    → IsAnswer sockets ending 1
        (asks e ∷ proceeding sockets b (relays e child buffered o ∷ touches_slot e.id ∷ []))
unfolding proceeding
asks-proceeding sockets ending false e child buffered o why =
    asks-relay sockets ending 1 e child buffered o why
asks-proceeding sockets ending true e child buffered o why =
    asks-interim sockets ending sockets.takes_interim e child buffered o refl why

pub asks-relayed :
    (e : Entry) (sockets : Sockets) (head : Head) (ending : Ending) (bytes : List ℕ)
    (buffered : Option (List ℕ)) (c : Had)
    → IsAnswer sockets ending
        (interim_left buffered)
        (asks e ∷ relayed sockets head ending bytes buffered e c)
unfolding relayed sum_by proceeding
asks-relayed e sockets head ending bytes buffered (had_not failure) = record {
  once = omega arith;
  excused = (tt, (tt, tt));
  interim = omega arith;
  touched = omega arith;
  asked = omega arith;
  asked_once = omega arith;
}
asks-relayed e sockets head ending bytes (some body) (had child) =
    asks-relay sockets ending 0 e child (some body) _
      (run-excused head (sockets.upstream child) (some body) ending bytes)
asks-relayed e sockets head ending bytes none (had child) =
    asks-proceeding sockets ending (head.expects_continue && ltb 0 (body_bytes head)) e child none _
      (run-excused head (sockets.upstream child) none ending bytes)

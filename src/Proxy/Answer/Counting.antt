-- ===== src/Proxy/Answer/Counting.antt =====
-- The events of a request, counted: replies, interim lines, and what was cut off.
use maestro_llamacpp.Common.{
  ℕ, ◌+◌, ◌≤◌, Bool, true, false, not, List, [], ◌∷◌, ◌≡◌, ◌≢◌, ◌⊎◌, refl, arith, sum_by, All, inr,
  if◌then◌else◌,
}
use maestro_llamacpp.Proxy.Head.Read.{Ending, closed}
use maestro_llamacpp.Proxy.Relay.{Upstream, Outcome, broken, copied, copy_response}
use maestro_llamacpp.Proxy.Answer.{
  Event, proceeds, refuses, preflights, shows, asks, relays, touches_slot, stops, Sockets,
  proceeding,
}

-- Whether the caller got anything of a child's response.
abbrev pub has_bytes : Outcome → Bool
has_bytes broken = false
has_bytes (copied head body []) = false
has_bytes (copied head body (b ∷ bytes)) = true

abbrev pub is_reply : Event → Bool
is_reply (refuses r) = true
is_reply (preflights e) = true
is_reply (shows e only) = true
is_reply (relays e c b o) = has_bytes o
is_reply _ = false

-- What ends the handling of a request with nothing for the caller.
abbrev pub is_cut : Event → Bool
is_cut stops = true
is_cut (relays e c b o) = not (has_bytes o)
is_cut _ = false

abbrev pub is_own : Event → Bool
is_own (refuses r) = true
is_own (preflights e) = true
is_own (shows e only) = true
is_own _ = false

abbrev pub is_proceed : Event → Bool
is_proceed proceeds = true
is_proceed _ = false

abbrev pub is_ask : Event → Bool
is_ask (asks e) = true
is_ask _ = false

abbrev pub is_relay : Event → Bool
is_relay (relays e c b o) = true
is_relay _ = false

abbrev pub is_touch : Event → Bool
is_touch (touches_slot id) = true
is_touch _ = false

abbrev pub count : (Event → Bool) → List Event → ℕ
count p = sum_by (λ e. if p e then 1 else 0)

-- Why a relay brings the caller nothing: the child does not take the request, the caller's
-- connection breaks within its body, or nothing of a response gets through.
abbrev pub Fails : Upstream → Ending → Type 0
Fails upstream ending =
    (upstream.connects ≡ false)
    ⊎ (upstream.takes ≡ false)
    ⊎ (ending ≢ closed)
    ⊎ (copy_response upstream.response ≡ [])

abbrev pub IsExcused : Sockets → Ending → Event → Type 0
IsExcused sockets ending stops = (sockets.cloned ≡ false) ⊎ (sockets.takes_interim ≡ false)
IsExcused sockets ending (relays e c b o) = (has_bytes o ≡ true) ⊎ Fails (sockets.upstream c) ending
IsExcused sockets ending _ = Unit

-- One reply, or one cut for a reason; at most `k` interim lines; a touch for every relay.
pub record IsAnswer (sockets : Sockets) (ending : Ending) (k : ℕ) (events : List Event)
    : Type 0 where
  pub once : count is_reply events + count is_cut events ≡ 1
  pub excused : All (IsExcused sockets ending) events
  pub interim : count is_proceed events ≤ k
  pub touched : count is_touch events ≡ count is_relay events
  pub asked : count is_relay events ≤ count is_ask events
  pub asked_once : count is_ask events ≤ 1

pub own-IsAnswer :
    (sockets : Sockets) (ending : Ending) (k : ℕ) (e : Event)
    → is_own e ≡ true
    → IsAnswer sockets ending k (e ∷ [])
unfolding sum_by
own-IsAnswer sockets ending k (refuses r) h = record {
  once = omega arith;
  excused = (tt, tt);
  interim = omega arith;
  touched = omega arith;
  asked = omega arith;
  asked_once = omega arith;
}
own-IsAnswer sockets ending k (preflights e) h = record {
  once = omega arith;
  excused = (tt, tt);
  interim = omega arith;
  touched = omega arith;
  asked = omega arith;
  asked_once = omega arith;
}
own-IsAnswer sockets ending k (shows e only) h = record {
  once = omega arith;
  excused = (tt, tt);
  interim = omega arith;
  touched = omega arith;
  asked = omega arith;
  asked_once = omega arith;
}
own-IsAnswer sockets ending k proceeds h = absurd (cc)
own-IsAnswer sockets ending k stops h = absurd (cc)
own-IsAnswer sockets ending k (asks e) h = absurd (cc)
own-IsAnswer sockets ending k (relays e c b o) h = absurd (cc)
own-IsAnswer sockets ending k (touches_slot id) h = absurd (cc)

pub stops-IsAnswer :
    (sockets : Sockets) (ending : Ending) (k : ℕ)
    → (sockets.cloned ≡ false) ⊎ (sockets.takes_interim ≡ false)
    → IsAnswer sockets ending k (stops ∷ [])
unfolding sum_by
stops-IsAnswer sockets ending k why = record {
  once = omega arith;
  excused = (why, tt);
  interim = omega arith;
  touched = omega arith;
  asked = omega arith;
  asked_once = omega arith;
}

interim-IsAnswer :
    (sockets : Sockets) (ending : Ending) (b : Bool) (events : List Event)
    → sockets.takes_interim ≡ b
    → IsAnswer sockets ending 0 events
    → IsAnswer sockets ending 1 (if b then proceeds ∷ events else stops ∷ [])
unfolding sum_by
interim-IsAnswer sockets ending true events e i = record {
  once = omega (arith, i.once);
  excused = (tt, i.excused);
  interim = omega (arith, i.interim);
  touched = omega (arith, i.touched);
  asked = omega (arith, i.asked);
  asked_once = omega (arith, i.asked_once);
}
interim-IsAnswer sockets ending false events e i = stops-IsAnswer sockets ending 1 (inr e)

pub proceeding-IsAnswer :
    (sockets : Sockets) (ending : Ending) (b : Bool) (events : List Event)
    → IsAnswer sockets ending 0 events
    → IsAnswer sockets ending 1 (proceeding sockets b events)
unfolding proceeding
proceeding-IsAnswer sockets ending false events i = record {
  once = i.once;
  excused = i.excused;
  interim = omega (arith, i.interim);
  touched = i.touched;
  asked = i.asked;
  asked_once = i.asked_once;
}
proceeding-IsAnswer sockets ending true events i =
    interim-IsAnswer sockets ending sockets.takes_interim events refl i

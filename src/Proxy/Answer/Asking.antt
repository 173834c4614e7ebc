-- ===== src/Proxy/Answer/Asking.antt =====
-- Which requests may start a child.
use maestro_llamacpp.Common.{
  ℕ, ◌≤◌, Bool, true, false, Option, none, some, List, [], ◌∷◌, ◌≡◌, ◌⊎◌, refl, arith, ap, ◌∙◌, ltb,
  Option-cases, Bool-cases, inl, inr, is_none, ◌&&◌,
}
use maestro_llamacpp.Common.Text.{Text, codes, text_eq}
use maestro_llamacpp.Catalog.{Catalog, Entry, entry}
use maestro_llamacpp.Proxy.Refusal.{Refusal}
use maestro_llamacpp.Proxy.Endpoint.{
  Answer, answered, refusing, Endpoint, dedicated, generic, listing, catalogue, properties, allows,
}
use maestro_llamacpp.Proxy.Head.{Head, Length, absent, given, malformed, body_bytes}
use maestro_llamacpp.Proxy.Head.Read.{Ending}
use maestro_llamacpp.Proxy.Body.{max_body_bytes, Json, read_body}
use maestro_llamacpp.Proxy.Relay.{run}
use maestro_llamacpp.Proxy.Answer.{
  Event, proceeds, refuses, preflights, shows, asks, relays, touches_slot, stops, Sockets, Had, had,
  had_not, framing, declared_body, proceeding, relayed, served, body_named, generic_served, routed,
  answer_head,
}

-- The entries whose children are asked for.
abbrev pub asked : List Event → List Entry
asked [] = []
asked (asks e ∷ es) = e ∷ asked es
asked (proceeds ∷ es) = asked es
asked (refuses r ∷ es) = asked es
asked (preflights e ∷ es) = asked es
asked (shows e only ∷ es) = asked es
asked (relays e c b o ∷ es) = asked es
asked (stops ∷ es) = asked es
asked (touches_slot id ∷ es) = asked es

-- The model that a request names: in its path, or in a body that is not too large.
abbrev pub NamesModel : (List ℕ → Json) → Head → Ending → List ℕ → Text → Type 0
NamesModel parse_json head ending bytes wanted =
    ((suffix : Text) × (head.endpoint ≡ dedicated wanted suffix))
    ⊎ ((suffix : Text) × (declared : ℕ) × (body : List ℕ) × (head.endpoint ≡ generic suffix)
        × (head.length ≡ given declared)
        × (declared ≤ max_body_bytes)
        × (read_body parse_json ending bytes declared ≡ answered (body, wanted)))

proceeding-asked :
    (sockets : Sockets) (b : Bool) (es : List Event)
    → (asked (proceeding sockets b es) ≡ []) ⊎ (asked (proceeding sockets b es) ≡ asked es)
unfolding proceeding
proceeding-asked sockets false es = inr refl
proceeding-asked sockets true es = elim (Bool-cases sockets.takes_interim) [
  | inl y ↦ rw (y, proceeding) (inr refl)
  | inr y ↦ rw (y, proceeding) (inl refl)
]

relayed-asked :
    (sockets : Sockets) (head : Head) (ending : Ending) (bytes : List ℕ)
    (buffered : Option (List ℕ)) (e : Entry) (c : Had)
    → asked (relayed sockets head ending bytes buffered e c) ≡ []
unfolding relayed
relayed-asked sockets head ending bytes buffered e (had_not failure) = refl
relayed-asked sockets head ending bytes buffered e (had child) =
    elim (proceeding-asked sockets
      (is_none buffered && head.expects_continue && ltb 0 (body_bytes head))
      (relays e child buffered (run head (sockets.upstream child) buffered ending bytes)
        ∷ touches_slot e.id
        ∷ [])) [ inl n ↦ n | inr n ↦ n ]

declared_body-le :
    (l : Length) (declared : ℕ)
    → declared_body l ≡ answered declared
    → (l ≡ given declared) × (declared ≤ max_body_bytes)
unfolding declared_body
declared_body-le absent declared h = absurd (cc)
declared_body-le (malformed value) declared h = absurd (cc)
declared_body-le (given n) declared h = ground arith

Answer-cases :
    {A : Type 0} (a : Answer A) → ((r : Refusal) × (a ≡ refusing r)) ⊎ ((x : A) × (a ≡ answered x))
Answer-cases (refusing r) = inl (r, refl)
Answer-cases (answered x) = inr (x, refl)

module _ (catalog : Catalog) (parse_json : List ℕ → Json) (child_of : Entry → Had)
    (sockets : Sockets) where
  -- At most one entry, and then a request that earns it.
  pub record Earns (head : Head) (ending : Ending) (bytes : List ℕ) (e : Entry) : Type 0 where
    pub no_preflight : text_eq head.method (codes "OPTIONS") ≡ false
    pub allowed_method : allows head.endpoint head.method ≡ true
    pub framed : framing head ≡ none
    pub wanted : Text
    pub named : NamesModel parse_json head ending bytes wanted
    pub known : entry catalog wanted ≡ some e

  abbrev pub AsksFor : Head → Ending → List ℕ → List Event → Type 0
  AsksFor head ending bytes events =
      (asked events ≡ []) ⊎ ((e : Entry) × (asked events ≡ e ∷ []) × Earns head ending bytes e)

  -- Of a catalog's entry, once the request names it.
  served-asked :
      (head : Head) (ending : Ending) (bytes : List ℕ) (wanted : Text) (buffered : Option (List ℕ))
      → (asked (served catalog parse_json child_of sockets head ending bytes wanted buffered) ≡ [])
        ⊎ ((e : Entry) × (asked
                (served catalog parse_json child_of sockets head ending bytes wanted buffered)
              ≡ e ∷ [])
            × (entry catalog wanted ≡ some e))
  unfolding served
  served-asked head ending bytes wanted buffered = elim (Option-cases (entry catalog wanted)) [
    | inl n ↦ inl (rw (n, served) refl)
    | inr (e, n) ↦ inr (
      e,
      rw (n, served)
          (ap (λ (es : List Entry). e ∷ es)
            (relayed-asked sockets head ending bytes buffered e (child_of e))),
      n,
    )
  ]

  -- What the method and the framing have to be before anything is routed.
  record Passes (head : Head) : Type 0 where
    pub no_preflight : text_eq head.method (codes "OPTIONS") ≡ false
    pub allowed_method : allows head.endpoint head.method ≡ true
    pub framed : framing head ≡ none

  earned :
      (head : Head) (ending : Ending) (bytes : List ℕ) (wanted : Text) (buffered : Option (List ℕ))
      → Passes head
      → NamesModel parse_json head ending bytes wanted
      → AsksFor head ending bytes
          (served catalog parse_json child_of sockets head ending bytes wanted buffered)
  earned head ending bytes wanted buffered ok named =
      elim (served-asked head ending bytes wanted buffered) [
        | inl n ↦ inl n
        | inr (e, is, known) ↦ inr (
          e,
          is,
          record {
            no_preflight = ok.no_preflight;
            allowed_method = ok.allowed_method;
            framed = ok.framed;
            wanted = wanted;
            named = named;
            known = known;
          },
        )
      ]

  body_named-AsksFor :
      (head : Head) (ending : Ending) (bytes : List ℕ) (suffix : Text) (declared : ℕ)
      → Passes head
      → head.endpoint ≡ generic suffix
      → declared_body head.length ≡ answered declared
      → AsksFor head ending bytes (
          body_named catalog parse_json child_of sockets head ending bytes
            (read_body parse_json ending bytes declared))
  unfolding body_named
  body_named-AsksFor head ending bytes suffix declared ok at d =
      elim (Answer-cases (read_body parse_json ending bytes declared)) [
        | inl (r, e) ↦ rw (e, body_named) (inl refl)
        | inr ((body, model), e) ↦
            let (given_so, small) = declared_body-le head.length declared d in
            rw (e, body_named)
              (earned head ending bytes model (some body) ok
                (inr (suffix, declared, body, at, given_so, small, e)))
      ]

  -- An interim line asks for nothing.
  AsksFor-proceeding :
      (head : Head) (ending : Ending) (bytes : List ℕ) (b : Bool) (es : List Event)
      → AsksFor head ending bytes es
      → AsksFor head ending bytes (proceeding sockets b es)
  AsksFor-proceeding head ending bytes b es i = elim (proceeding-asked sockets b es) [
    | inl n ↦ inl n
    | inr same ↦ elim i [ inl n ↦ inl (same ∙ n) | inr (e, is, earns) ↦ inr (e, same ∙ is, earns) ]
  ]

  generic-AsksFor :
      (head : Head) (ending : Ending) (bytes : List ℕ) (suffix : Text)
      → Passes head
      → head.endpoint ≡ generic suffix
      → AsksFor head ending bytes
          (generic_served catalog parse_json child_of sockets head ending bytes)
  unfolding generic_served
  generic-AsksFor head ending bytes suffix ok at = elim (Answer-cases (declared_body head.length)) [
    | inl (r, d) ↦ rw (d, generic_served) (inl refl)
    | inr (declared, d) ↦
        rw (d, generic_served)
          (AsksFor-proceeding head ending bytes head.expects_continue _
            (body_named-AsksFor head ending bytes suffix declared ok at d))
  ]

  routed-AsksFor :
      (head : Head) (ending : Ending) (bytes : List ℕ) (e : Endpoint)
      → Passes head
      → head.endpoint ≡ e
      → AsksFor head ending bytes (routed catalog parse_json child_of sockets head ending bytes e)
  unfolding routed
  routed-AsksFor head ending bytes (dedicated id suffix) ok at =
      earned head ending bytes id none ok (inl (suffix, at))
  routed-AsksFor head ending bytes (generic suffix) ok at =
      generic-AsksFor head ending bytes suffix ok at
  routed-AsksFor head ending bytes listing ok at = inl refl
  routed-AsksFor head ending bytes catalogue ok at = inl refl
  routed-AsksFor head ending bytes properties ok at = inl refl

  -- A request asks for at most one child, and only if it earns it: its method is not OPTIONS and
  -- is one that its endpoint answers, its framing is one that the router reads, and it names an
  -- entry of the catalog, either in its path or in a body of a declared length of at most 8 MiB.
  pub answer_head-AsksFor :
      (head : Head) (ending : Ending) (bytes : List ℕ)
      → AsksFor head ending bytes
          (answer_head catalog parse_json child_of sockets head ending bytes)
  unfolding answer_head
  answer_head-AsksFor head ending bytes =
      elim (Bool-cases (text_eq head.method (codes "OPTIONS"))) [
        | inl o ↦ rw (o, answer_head) (inl refl)
        | inr o ↦
            rw (o, answer_head)
              (elim (Bool-cases (allows head.endpoint head.method)) [
                | inr m ↦ rw m (inl refl)
                | inl m ↦ rw m (elim (Option-cases (framing head)) [
                  | inr (refusal, f) ↦ rw f (inl refl)
                  | inl f ↦ rw f (
                      routed-AsksFor head ending bytes head.endpoint
                        (record { no_preflight = o; allowed_method = m; framed = f }) refl)
                ])
              ])
      ]

-- ===== src/Proxy/Head/Read/Turns.antt =====
-- What one turn of the reader of a head may come to.
use maestro_llamacpp.Common.{
  ℕ, zero, suc, ◌+◌, ◌-◌, ◌≤◌, ◌<◌, Option, none, some, List, [], ◌∷◌, ◌++◌, ◌==◌, ◌≡◌, ◌≢◌, ◌⊎◌,
  inl, inr, refl, ap, arith, leb, ==_iff, subst, length, Option-cases, Bool-cases,
}
use maestro_llamacpp.Common.Text.{Text, trim_end_by}
use maestro_llamacpp.Proxy.Endpoint.{Answer, answered, refusing}
use maestro_llamacpp.Proxy.Head.Read.{
  max_head_bytes, max_headers, is_line_end, Ending, closed, failed, LineTaken, take_line, Looked,
  ended, kept, look_text, look_line, look,
}

-- A line is a part of the bytes, no longer than its limit.
abbrev pub IsPart : ℕ → List ℕ → Option LineTaken → Type 0
IsPart limit bytes none = Unit
IsPart limit bytes (some found) = (bytes ≡ found.line ++ found.rest) × (length found.line ≤ limit)

take_line-IsPart :
    (ending : Ending) (limit : ℕ) (bytes : List ℕ)
    → IsPart limit bytes (take_line ending limit bytes)
unfolding take_line
take_line-IsPart ending zero bytes = (refl, omega arith)
take_line-IsPart closed (suc limit) [] = (refl, omega arith)
take_line-IsPart (failed deadline message) (suc limit) [] = tt
take_line-IsPart ending (suc limit) (b ∷ bytes) = elim (Bool-cases (b == 10)) [
  | inl e ↦ rw e (ap (λ (k : ℕ). k ∷ bytes) ((==_iff b 10).0 e), omega arith)
  | inr e ↦ rw e (elim (Option-cases (take_line ending limit bytes)) [
    | inl n ↦ rw n tt
    | inr (found, n) ↦
        let (split, few) : IsPart limit bytes (some found) =
          subst (IsPart limit bytes) n (take_line-IsPart ending limit bytes) in
        rw n (ap (λ (t : List ℕ). b ∷ t) split, omega arith)
  ])
]

-- What a turn may come to, with `count` bytes of the head's read and `bytes` still to come.
abbrev pub IsBounded : List Text → ℕ → List ℕ → Looked → Type 0
IsBounded lines count bytes (ended (refusing refusal)) = Unit
IsBounded lines count bytes (ended (answered (ls, rest))) =
    (ls ≡ lines)
    × ((line : List ℕ) × (bytes ≡ line ++ rest) × (count + length line ≤ max_head_bytes))
IsBounded lines count bytes (kept text taken rest) =
    (length lines < max_headers)
    × (text ≢ [])
    × ((line : List ℕ) × (bytes ≡ line ++ rest)
        × (length line ≡ taken)
        × (count + taken ≤ max_head_bytes))

List-cases : (t : Text) → (t ≡ []) ⊎ ((c : ℕ) × (s : Text) × (t ≡ c ∷ s))
List-cases [] = inl refl
List-cases (c ∷ s) = inr (c, s, refl)

pub Looked-cases :
    (l : Looked)
    → ((a : Answer (List Text × List ℕ)) × (l ≡ ended a))
      ⊎ ((text : Text) × (taken : ℕ) × (rest : List ℕ) × (l ≡ kept text taken rest))
Looked-cases (ended a) = inl (a, refl)
Looked-cases (kept text taken rest) = inr (text, taken, rest, refl)

look_text-IsBounded :
    (lines : List Text) (text : Text) (found : LineTaken) (count : ℕ) (bytes : List ℕ)
    → bytes ≡ found.line ++ found.rest
    → count + length found.line ≤ max_head_bytes
    → IsBounded lines count bytes (look_text lines text found)
unfolding look_text
look_text-IsBounded lines text found count bytes split fits =
    elim (List-cases (trim_end_by is_line_end text)) [
      | inl e ↦ rw (e, look_text, IsBounded) (refl, (found.line, split, fits))
      | inr (c, s, e) ↦
          rw (e, look_text, IsBounded)
            (elim (Bool-cases (leb max_headers (length lines))) [
              | inl full ↦ rw full tt
              | inr few ↦ rw few (ground arith, λ q. absurd (cc), (found.line, split, refl, fits))
            ])
    ]

module _ (decode : List ℕ → Option Text) (not_text : Text) where
  pub look-IsBounded :
      (ending : Ending) (lines : List Text) (count : ℕ) (bytes : List ℕ)
      → count ≤ max_head_bytes
      → IsBounded lines count bytes (look decode not_text ending lines count bytes)
  unfolding look look_line
  look-IsBounded ending lines count bytes fits = elim (Bool-cases (max_head_bytes - count == 0)) [
    | inl full ↦ rw full tt
    | inr left ↦ rw left (elim (Option-cases (take_line ending (max_head_bytes - count) bytes)) [
      | inl n ↦ rw n tt
      | inr (found, n) ↦
          let (split, few) : IsPart (max_head_bytes - count) bytes (some found) =
            subst (IsPart (max_head_bytes - count) bytes) n
              (take_line-IsPart ending (max_head_bytes - count) bytes) in
          rw n (elim (Bool-cases (length found.line == 0)) [
            | inl z ↦ rw z tt
            | inr z ↦ rw z (elim (Option-cases (decode found.line)) [
              | inl d ↦ rw d tt
              | inr (text, d) ↦
                  rw d (look_text-IsBounded lines text found count bytes split (omega arith))
            ])
          ])
    ])
  ]

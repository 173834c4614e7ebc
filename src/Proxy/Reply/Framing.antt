-- ===== src/Proxy/Reply/Framing.antt =====
-- src/proxy/reply.rs against the reader of replies in src/bench/rate.rs: the body that is sent is
-- the body that is read.

use maestro_llamacpp.Common.{
  ℕ, zero, suc, ◌+◌, ◌%◌, ◌/◌, ◌<◌, Bool, true, false, ◌&&◌, not, Option, none, some, List, [], ◌∷◌,
  ◌++◌, ◌==◌, ◌≡◌, refl, ◌∙◌, ltb, arith, Bool-cases, Option-cases, inl, inr, length, All,
}
use maestro_llamacpp.Common.Text.{Text, codes, show, split_once_text, strip_prefix, digits_of}
use maestro_llamacpp.Bench.{body_of}
use maestro_llamacpp.Proxy.Head.{Header}
use maestro_llamacpp.Proxy.Reply.{
  Reply, reason, arms, phrase, ended, field, type_line, field_lines, sent_body, write,
}

-- A text without a carriage return.
unfoldable pub is_plain : Text → Bool
is_plain [] = true
is_plain (c ∷ s) = not (c == 13) && is_plain s

abbrev pub starts_plain : Text → Bool
starts_plain [] = false
starts_plain (c ∷ s) = not (c == 13)

abbrev blank_line : Text
blank_line = 13 ∷ 10 ∷ 13 ∷ 10 ∷ []

-- Where no blank line begins, the first character is passed over.
body_of-skip :
    (c : ℕ) (s : Text) → strip_prefix (c ∷ s) blank_line ≡ none → body_of (c ∷ s) ≡ body_of s
unfolding body_of split_once_text
body_of-skip c s h = elim (Option-cases (split_once_text blank_line s)) [
  | inl e ↦ rw (h, split_once_text) (rw e refl)
  | inr ((front, back), e) ↦ rw (h, split_once_text) (rw e refl)
]

body_of-plain : (c : ℕ) (s : Text) → (c == 13) ≡ false → body_of (c ∷ s) ≡ body_of s
unfolding strip_prefix
body_of-plain c s h = body_of-skip c s (rw h refl)

body_of-blank : (s : Text) → body_of (13 ∷ 10 ∷ 13 ∷ 10 ∷ s) ≡ some s
unfolding body_of split_once_text strip_prefix
body_of-blank s = refl

body_of-line_end :
    (c : ℕ) (s : Text) → (c == 13) ≡ false → body_of (13 ∷ 10 ∷ c ∷ s) ≡ body_of (c ∷ s)
unfolding strip_prefix
body_of-line_end c s h = body_of-skip 13 (10 ∷ c ∷ s) (rw h refl) ∙ body_of-plain 10 (c ∷ s) refl

body_of-line : (line rest : Text) → is_plain line ≡ true → body_of (line ++ rest) ≡ body_of rest
unfolding is_plain
body_of-line [] rest h = refl
body_of-line (c ∷ line) rest h =
    body_of-plain c (line ++ rest) (ground arith) ∙ body_of-line line rest (ground arith)

-- A line of the head is passed over, if another one follows.
body_of-ended :
    (line rest : Text)
    → is_plain line ≡ true
    → starts_plain rest ≡ true
    → body_of (ended line rest) ≡ body_of rest
body_of-ended line [] h k = absurd (cc)
body_of-ended line (c ∷ rest) h k =
    body_of-line line (13 ∷ 10 ∷ c ∷ rest) h ∙ body_of-line_end c rest (ground arith)

is_plain-append : (s t : Text) → is_plain s ≡ true → is_plain t ≡ true → is_plain (s ++ t) ≡ true
unfolding is_plain
is_plain-append [] t h k = k
is_plain-append (c ∷ s) t h k = ground (arith, is_plain-append s t (ground arith) k)

digit_plain : (n : ℕ) → n < 10 → is_plain ((48 + n) ∷ []) ≡ true
unfolding is_plain
digit_plain n h = ground arith

digits_of_plain : (fuel n : ℕ) → is_plain (digits_of fuel n) ≡ true
unfolding digits_of is_plain
digits_of_plain zero n = refl
digits_of_plain (suc fuel) n = elim (Bool-cases (ltb n 10)) [
  | inl e ↦ rw e (digit_plain n (ground arith))
  | inr e ↦ rw e (
      is_plain-append (digits_of fuel (n / 10)) ((48 + n % 10) ∷ []) (digits_of_plain fuel (n / 10))
        (digit_plain (n % 10) (omega arith)))
]

show_plain : (n : ℕ) → is_plain (show n) ≡ true
unfolding show
show_plain n = digits_of_plain (suc n) n

phrase_plain :
    (status : ℕ) (rest : List (ℕ × Text))
    → All (λ (arm : ℕ × Text). is_plain arm.1 ≡ true) rest
    → is_plain (phrase status rest) ≡ true
unfolding phrase is_plain codes
phrase_plain status [] h = refl
phrase_plain status ((s, words) ∷ rest) h = elim (Bool-cases (status == s)) [
  | inl e ↦ rw (e, phrase) h.0
  | inr e ↦ rw (e, phrase) (phrase_plain status rest h.1)
]

reason_plain : (status : ℕ) → is_plain (reason status) ≡ true
unfolding reason is_plain codes
reason_plain status = phrase_plain status arms (
  refl,
  (refl, (refl, (refl, (refl, (refl, (refl, (refl, (refl, (refl, (refl, (refl, tt))))))))))),
)

-- A header whose name begins a line, and whose line has no carriage return.
abbrev pub IsSendable : Header → Type 0
IsSendable (name, value) =
    (starts_plain name ≡ true) × (is_plain name ≡ true) × (is_plain value ≡ true)

field_plain :
    (name value : Text)
    → is_plain name ≡ true
    → is_plain value ≡ true
    → is_plain (field name value) ≡ true
unfolding is_plain codes
field_plain name value h k = is_plain-append name (codes ": " ++ value) h k

starts_plain-append : (s t : Text) → starts_plain s ≡ true → starts_plain (s ++ t) ≡ true
starts_plain-append [] t h = absurd (cc)
starts_plain-append (c ∷ s) t h = h

body_of-field_lines :
    (headers : List Header) (rest : Text)
    → All IsSendable headers
    → starts_plain rest ≡ true
    → (body_of (field_lines headers rest) ≡ body_of rest)
      × (starts_plain (field_lines headers rest) ≡ true)
body_of-field_lines [] rest h k = (refl, k)
body_of-field_lines ((name, value) ∷ headers) rest ((begins, named, valued), h) k =
    let (more, begun) = body_of-field_lines headers rest h k in
    (
      body_of-ended (field name value) (field_lines headers rest)
            (field_plain name value named valued) begun
          ∙ more,
      starts_plain-append (field name value) (13 ∷ 10 ∷ field_lines headers rest)
          (starts_plain-append name (codes ": " ++ value) begins),
    )

abbrev pub IsSendableType : Option Text → Type 0
IsSendableType none = Unit
IsSendableType (some content_type) = is_plain content_type ≡ true

body_of-type_line :
    (content_type : Option Text) (rest : Text)
    → IsSendableType content_type
    → starts_plain rest ≡ true
    → body_of (type_line content_type rest) ≡ body_of rest
unfolding is_plain codes
body_of-type_line none rest h k = refl
body_of-type_line (some content_type) rest h k =
    body_of-ended (field (codes "Content-Type") content_type) rest
      (field_plain (codes "Content-Type") content_type refl h) k

starts_plain-type_line :
    (content_type : Option Text) (rest : Text)
    → starts_plain rest ≡ true
    → starts_plain (type_line content_type rest) ≡ true
unfolding codes
starts_plain-type_line none rest k = k
starts_plain-type_line (some content_type) rest k = refl

-- Whoever reads a reply up to its blank line finds the body that was sent: all of it, and nothing
-- for HEAD. The type and the headers of the reply have no carriage return in them.
pub body_of-write :
    (r : Reply)
    → IsSendableType r.content_type
    → All IsSendable r.headers
    → body_of (write r) ≡ some (sent_body r)
unfolding write is_plain codes
body_of-write r typed h =
    let last = ended (codes "Connection: close") (13 ∷ 10 ∷ sent_body r) in
    let origin = ended (codes "Access-Control-Allow-Origin: *") last in
    let fields = field_lines r.headers origin in
    let sized = ended (field (codes "Content-Length") (show (length r.body))) fields in
    let (found, begun) = body_of-field_lines r.headers origin h refl in
    body_of-ended (codes "HTTP/1.1 " ++ (show r.status ++ (codes " " ++ reason r.status)))
      (type_line r.content_type sized)
      (is_plain-append (show r.status) (codes " " ++ reason r.status) (show_plain r.status)
        (reason_plain r.status))
      (starts_plain-type_line r.content_type sized refl)
    ∙ body_of-type_line r.content_type sized typed refl
    ∙ body_of-ended (field (codes "Content-Length") (show (length r.body))) fields
        (show_plain (length r.body)) begun
    ∙ found
    ∙ body_of-ended (codes "Access-Control-Allow-Origin: *") last refl refl
    ∙ body_of-line (codes "Connection: close") (13 ∷ 10 ∷ 13 ∷ 10 ∷ sent_body r) refl
    ∙ body_of-blank (sent_body r)

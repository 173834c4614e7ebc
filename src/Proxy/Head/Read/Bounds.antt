-- ===== src/Proxy/Head/Read/Bounds.antt =====
-- The bounds that the reader of a head keeps, and that it ends.
use maestro_llamacpp.Common.{
  ℕ, zero, suc, ◌+◌, ◌≤◌, Option, none, some, List, [], ◌∷◌, ◌++◌, ◌≡◌, ◌≢◌, inl, inr, sym, ap, ◌∙◌,
  arith, subst, length, length-append, All, All-append, Option-cases,
}
use mathlib.Core.List.{append_assoc}
use maestro_llamacpp.Common.Text.{Text}
use maestro_llamacpp.Proxy.Endpoint.{Answer, answered, refusing}
use maestro_llamacpp.Proxy.Head.Read.{
  max_head_bytes, max_headers, Ending, Connection, ended, kept, look, read_from, read,
}
use maestro_llamacpp.Proxy.Head.Read.Turns.{IsBounded, Looked-cases, look-IsBounded}

-- What a head that was read keeps to.
pub record ReadWithin (count : ℕ) (bytes : List ℕ) (lines : List Text) (rest : List ℕ)
    : Type 0 where
  pub few : length lines ≤ max_headers
  pub texts : All (λ line. line ≢ []) lines
  pub consumed : List ℕ
  pub split : bytes ≡ consumed ++ rest
  pub bounded : count + length consumed ≤ max_head_bytes

abbrev pub AnswerWithin : ℕ → List ℕ → Option (Answer (List Text × List ℕ)) → Type 0
AnswerWithin count bytes none = Unit
AnswerWithin count bytes (some (refusing refusal)) = Unit
AnswerWithin count bytes (some (answered (lines, rest))) = ReadWithin count bytes lines rest

ended-AnswerWithin :
    (count : ℕ) (bytes : List ℕ) (lines : List Text) (a : Answer (List Text × List ℕ))
    → length lines ≤ max_headers
    → All (λ line. line ≢ []) lines
    → IsBounded lines count bytes (ended a)
    → AnswerWithin count bytes (some a)
ended-AnswerWithin count bytes lines (refusing r) few texts h = tt
ended-AnswerWithin count bytes lines (answered (ls, rest)) few texts (same, (line, split, fits)) =
    record {
      few = subst (λ (k : List Text). length k ≤ max_headers) (sym same) few;
      texts = subst (All (λ line. line ≢ [])) (sym same) texts;
      consumed = line;
      split = split;
      bounded = fits;
    }

-- One line more in front.
AnswerWithin-line :
    (count : ℕ) (bytes line rest : List ℕ) (o : Option (Answer (List Text × List ℕ)))
    → bytes ≡ line ++ rest
    → AnswerWithin (count + length line) rest o
    → AnswerWithin count bytes o
AnswerWithin-line count bytes line rest none split h = tt
AnswerWithin-line count bytes line rest (some (refusing r)) split h = tt
AnswerWithin-line count bytes line rest (some (answered (ls, left))) split h = record {
  few = h.few;
  texts = h.texts;
  consumed = line ++ h.consumed;
  split = split ∙ ap (λ (k : List ℕ). line ++ k) h.split ∙ sym (append_assoc line h.consumed left);
  bounded = omega (arith, length-append line h.consumed, h.bounded);
}

module _ (decode : List ℕ → Option Text) (not_text : Text) where
  read_from-AnswerWithin :
      (fuel : ℕ) (ending : Ending) (lines : List Text) (count : ℕ) (bytes : List ℕ)
      → count ≤ max_head_bytes
      → length lines ≤ max_headers
      → All (λ line. line ≢ []) lines
      → AnswerWithin count bytes (read_from decode not_text fuel ending lines count bytes)
  unfolding read_from
  read_from-AnswerWithin zero ending lines count bytes fits few texts = tt
  read_from-AnswerWithin (suc fuel) ending lines count bytes fits few texts =
      let turn = look-IsBounded decode not_text ending lines count bytes fits in
      elim (Looked-cases (look decode not_text ending lines count bytes)) [
        | inl (a, e) ↦
            rw (e, read_from)
              (ended-AnswerWithin count bytes lines a few texts
                (subst (IsBounded lines count bytes) e turn))
        | inr (text, taken, rest, e) ↦
            let (room, is_text, (line, split, measured, within)) : IsBounded lines count bytes
                (kept text taken rest) =
              subst (IsBounded lines count bytes) e turn in
            rw (e, read_from)
              (AnswerWithin-line count bytes line rest _ split (
                subst
                  (λ n. AnswerWithin (count + n) rest (
                    read_from decode not_text fuel ending (lines ++ text ∷ []) (count + taken)
                      rest))
                  (sym measured)
                  (read_from-AnswerWithin fuel ending (lines ++ text ∷ []) (count + taken) rest
                    within (omega (arith, length-append lines (text ∷ []), room))
                    (All-append _ lines (text ∷ []) texts (is_text, tt)))))
      ]

  read_from-answers :
      (fuel : ℕ) (ending : Ending) (lines : List Text) (count : ℕ) (bytes : List ℕ)
      → count ≤ max_head_bytes
      → length lines ≤ max_headers
      → max_headers + 2 ≤ fuel + length lines
      → read_from decode not_text fuel ending lines count bytes ≢ none
  unfolding read_from
  read_from-answers zero ending lines count bytes fits few enough = absurd (omega arith)
  read_from-answers (suc fuel) ending lines count bytes fits few enough =
      let turn = look-IsBounded decode not_text ending lines count bytes fits in
      elim (Looked-cases (look decode not_text ending lines count bytes)) [
        | inl (a, e) ↦ rw (e, read_from) (λ q. absurd (cc))
        | inr (text, taken, rest, e) ↦
            let (room, is_text, (line, split, measured, within)) : IsBounded lines count bytes
                (kept text taken rest) =
              subst (IsBounded lines count bytes) e turn in
            rw (e, read_from)
              (read_from-answers fuel ending (lines ++ text ∷ []) (count + taken) rest within
                (omega (arith, length-append lines (text ∷ []), room))
                (omega (arith, length-append lines (text ∷ []))))
      ]

  -- Reading a head always ends, whatever arrives and however the connection ends. A head that is
  -- read has at most 100 lines, none of them empty; it consumes at most 65536 bytes, and what is
  -- left of the connection is what follows them.
  pub read-AnswerWithin :
      (connection : Connection)
      → (answer : Answer (List Text × List ℕ)) × (read decode not_text connection ≡ some answer)
        × AnswerWithin 0 connection.bytes (some answer)
  unfolding read
  read-AnswerWithin connection =
      let run =
        read_from decode not_text (max_headers + 2) connection.ending [] 0 connection.bytes in
      let kept_within =
        read_from-AnswerWithin (max_headers + 2) connection.ending [] 0 connection.bytes
          (omega arith) (omega arith) tt in
      elim (Option-cases run) [
        | inl none_left ↦ absurd (
            read_from-answers (max_headers + 2) connection.ending [] 0 connection.bytes
              (omega arith) (omega arith) (omega arith) none_left)
        | inr (answer, e) ↦ (answer, e, subst (AnswerWithin 0 connection.bytes) e kept_within)
      ]

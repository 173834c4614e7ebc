-- ===== src/Gguf/Arrays.antt =====
-- The arrays of src/gguf.rs on the bytes that a writer of the format wrote.
use native.Mathlib.Nat.{mul-suc}
use mathlib.Core.List.{append_assoc, append-nil}
use maestro_llamacpp.Common.{
  ℕ, zero, suc, ◌*◌, ◌^◌, ◌≤◌, ◌<◌, false, Option, none, some, List, [], ◌∷◌, ◌++◌, length,
  length-append, All, map, ◌≡◌, ◌==◌, refl, sym, arith, Bool-cases, Option-cases, inl, inr, lt→ltb,
  le→ltb,
}
use maestro_llamacpp.Common.Text.{Text}
use maestro_llamacpp.Common.Word.{u64_mod}
use maestro_llamacpp.Common.Bytes.{to_le_bytes}
use maestro_llamacpp.Gguf.{
  Metadata, is_per_layer, max_option, push_some, with_largest, with_elements, string_kind,
  array_kind, max_layer_array, elements_at, texts_at, layers_at, skip_all, array_of, array,
}
use maestro_llamacpp.Gguf.Writing.{
  texts, scalars, concat, write_text, write_array, kept_elements, largest_from, says, IsValue,
}
use maestro_llamacpp.Gguf.Reader.{Files, u32_at, u64_at, text_at, width_of, unsigned}
use maestro_llamacpp.Gguf.Reads.{
  Reads, Reads-return, Reads-bind, u32_at-Reads, u64_at-Reads, skip-Reads, kept_text, text_at-Reads,
  width-Reads, scalar_at-Reads,
}

pushed :
    (elements : List ℕ) (kind : ℕ) (x : List ℕ) (xs : List (List ℕ))
    → push_some elements (unsigned kind x) ++ kept_elements kind xs
      ≡ elements ++ kept_elements kind (x ∷ xs)
pushed elements kind x xs = elim (Option-cases (unsigned kind x)) [
  | inl e ↦ rw (e, kept_elements) refl
  | inr (n, e) ↦ rw (e, kept_elements) (append_assoc elements (n ∷ []) (kept_elements kind xs))
]

length-concat :
    (each : ℕ) (xs : List (List ℕ))
    → All (λ x. length x ≡ each) xs
    → length (concat xs) ≡ length xs * each
length-concat each [] h = omega arith
length-concat each (x ∷ xs) h =
    omega (arith, length-append x (concat xs), length-concat each xs h.1, h.0)

-- A kind that has a width is not that of a text or an array.
pub fewer : (n each b : ℕ) → 0 < each → n * each < b → n < b
fewer n zero b h k = absurd (omega (arith, h))
fewer n (suc e) b h k = omega (arith, mul-suc n e)

pub width_of-kinds :
    (kind each : ℕ)
    → width_of kind ≡ some each
    → ((kind == string_kind) ≡ false)
      × ((kind == array_kind) ≡ false)
      × (kind < 2 ^ 32)
      × (0 < each)
unfolding width_of
width_of-kinds kind each h = (ground arith, ground arith, ground arith, ground arith)

module _ (files : Files) where
  elements_at-Reads :
      (kind each : ℕ) (xs : List (List ℕ)) (largest : Option ℕ) (elements : List ℕ)
      → width_of kind ≡ some each
      → All (λ x. length x ≡ each) xs
      → Reads
          (elements_at files kind (length xs) largest elements)
          (concat xs)
          (largest_from largest kind xs, elements ++ kept_elements kind xs)
  unfolding elements_at
  elements_at-Reads kind each [] largest elements h k rest past = rw (append-nil elements) refl
  elements_at-Reads kind each (x ∷ xs) largest elements h k rest past =
      let more =
        elements_at-Reads kind each xs (max_option largest (unsigned kind x))
          (push_some elements (unsigned kind x)) h k.1 in
      rw (append_assoc x (concat xs) rest) (
        rw (scalar_at-Reads files kind x (rw k.0 h) (concat xs ++ rest) past)
          (rw (sym (pushed elements kind x xs)) (more rest past)))

  texts_at-Reads :
      (ss : List (List ℕ))
      → All (λ s. length s < 2 ^ 63) ss
      → Reads (texts_at files (length ss)) (concat (map write_text ss)) tt
  unfolding texts_at
  texts_at-Reads [] h = Reads-return tt
  texts_at-Reads (s ∷ ss) h =
      Reads-bind (text_at files 0) _ (write_text s) (concat (map write_text ss))
        (kept_text files 0 s) tt (text_at-Reads files 0 s h.0) (texts_at-Reads ss h.1)

  layers_at-Reads :
      (key : Text) (kind each : ℕ) (xs : List (List ℕ)) (m : Metadata)
      → width_of kind ≡ some each
      → All (λ x. length x ≡ each) xs
      → length xs ≤ max_layer_array
      → Reads (layers_at files key kind (length xs) m) (concat xs) (
          with_elements key
            (kept_elements kind xs)
            (with_largest key (largest_from none kind xs) m))
  unfolding layers_at
  layers_at-Reads key kind each xs m h k few rest past =
      rw (le→ltb max_layer_array (length xs) few)
        (rw (elements_at-Reads kind each xs none [] h k rest past) refl)

  skip_all-Reads :
      (key : Text) (each : ℕ) (xs : List (List ℕ))
      → All (λ x. length x ≡ each) xs
      → length xs * each < 2 ^ 63
      → Reads (skip_all files key (length xs) each) (concat xs) tt
  unfolding skip_all
  skip_all-Reads key each xs k small rest past =
      rw (lt→ltb (length xs * each) u64_mod (omega arith)) (
        rw (sym (length-concat each xs k))
          (skip-Reads files (concat xs) (rw (length-concat each xs k) small) rest past))

  pub array_of-scalars :
      (key : Text) (kind : ℕ) (xs : List (List ℕ)) (m : Metadata)
      → IsValue files key (scalars kind xs)
      → Reads
          (array_of files key kind (length xs) m)
          (concat xs)
          (says files key (scalars kind xs) m)
  unfolding array_of
  array_of-scalars key kind xs m (each, w, k, small, few) rest past =
      let (not_text, not_array, narrow, wide) = width_of-kinds kind each w in
      elim (Bool-cases (is_per_layer key)) [
        | inl e ↦
            rw (e, not_text, not_array) (layers_at-Reads key kind each xs m w k (few e) rest past)
        | inr e ↦
            rw (e, not_text, not_array)
              (rw (width-Reads files kind each w (concat xs ++ rest) past)
                (rw (skip_all-Reads key each xs k small rest past) refl))
      ]

  pub array_of-texts :
      (key : Text) (ss : List (List ℕ)) (m : Metadata)
      → IsValue files key (texts ss)
      → Reads (array_of files key string_kind (length ss) m) (concat (map write_text ss)) m
  unfolding array_of
  array_of-texts key ss m h rest past = elim (Bool-cases (is_per_layer key)) [
    | inl e ↦ rw e (rw (texts_at-Reads ss h.1 rest past) refl)
    | inr e ↦ rw e (rw (texts_at-Reads ss h.1 rest past) refl)
  ]

  pub array-Reads :
      (key : Text) (kind count : ℕ) (body : List ℕ) (m n : Metadata)
      → kind < 2 ^ 32
      → count < 2 ^ 64
      → Reads (array_of files key kind count m) body n
      → Reads (array files key m) (write_array kind count body) n
  unfolding array
  array-Reads key kind count body m n small few h =
      Reads-bind (u32_at files) _ (to_le_bytes 4 kind) _ kind n (u32_at-Reads files kind small) (
        Reads-bind (u64_at files) _ (to_le_bytes 8 count) body count n
          (u64_at-Reads files count few) h)

-- ===== src/Gguf/Reads.antt =====
-- The readings of src/gguf/bytes.rs on the bytes that a writer of the format wrote.

use mathlib.Core.List.{append_assoc}
use maestro_llamacpp.Common.{
  ℕ, ◌^◌, ◌<◌, Option, none, some, List, [], ◌++◌, ltb, length, ◌≡◌, refl, subst, arith,
  if◌then◌else◌, Bool-cases, inl, inr, lt→ltb,
}
use maestro_llamacpp.Common.Text.{Text}
use maestro_llamacpp.Common.Bytes.{
  from_le_bytes, to_le_bytes, from_le_bytes-to_le_bytes, length-to_le_bytes, split_at-append,
}
use maestro_llamacpp.Gguf.Writing.{write_text}
use maestro_llamacpp.Gguf.Reader.{
  ok, Reading, ◌>>=◌, return, Files, read_exact, u32_at, u64_at, seek, skip, text_of, text_at,
  width_of, width, scalar_at, unsigned,
}

-- A reading takes just these bytes off what follows the position, and says this.
abbrev pub Reads : {A : Type 0} → Reading A → List ℕ → A → Type 0
Reads m bytes a =
    (rest : List ℕ) (past : ℕ)
    → m (record { rest = bytes ++ rest; past = past }) ≡ ok a (record { rest = rest; past = past })

pub Reads-return : {A : Type 0} (a : A) → Reads (return a) [] a
Reads-return a rest past = refl

-- A last step that reads nothing.
pub Reads-map :
    {A B : Type 0} (m : Reading A) (f : A → B) (xs : List ℕ) (a : A)
    → Reads m xs a
    → Reads (m >>= λ x. return (f x)) xs (f a)
Reads-map m f xs a h rest past = rw (h rest past) refl

pub Reads-bind :
    {A B : Type 0} (m : Reading A) (f : A → Reading B) (xs ys : List ℕ) (a : A) (b : B)
    → Reads m xs a
    → Reads (f a) ys b
    → Reads (m >>= f) (xs ++ ys) b
Reads-bind m f xs ys a b h k rest past =
    rw (append_assoc xs ys rest) (rw (h (ys ++ rest) past) (k rest past))

module _ (files : Files) where
  pub read_exact-Reads : (bytes : List ℕ) → Reads (read_exact files (length bytes)) bytes bytes
  unfolding read_exact
  read_exact-Reads bytes rest past = rw (split_at-append bytes rest, read_exact) refl

  le-Reads :
      (n v : ℕ)
      → v < 256 ^ n
      → Reads (read_exact files n >>= λ bytes. return (from_le_bytes bytes)) (to_le_bytes n v) v
  le-Reads n v h rest past =
      let taken =
        subst (λ k. Reads (read_exact files k) (to_le_bytes n v) (to_le_bytes n v))
          (length-to_le_bytes n v) (read_exact-Reads (to_le_bytes n v)) in
      rw (taken rest past) (rw (from_le_bytes-to_le_bytes n v h) refl)

  pub u32_at-Reads : (v : ℕ) → v < 2 ^ 32 → Reads (u32_at files) (to_le_bytes 4 v) v
  unfolding u32_at
  u32_at-Reads v h = le-Reads 4 v (omega arith)

  pub u64_at-Reads : (v : ℕ) → v < 2 ^ 64 → Reads (u64_at files) (to_le_bytes 8 v) v
  unfolding u64_at
  u64_at-Reads v h = le-Reads 8 v (omega arith)

  pub skip-Reads :
      (bytes : List ℕ) → length bytes < 2 ^ 63 → Reads (skip files (length bytes)) bytes tt
  unfolding skip seek
  skip-Reads bytes h rest past =
      rw (lt→ltb (length bytes) (2 ^ 63) h) (rw (split_at-append bytes rest, seek) refl)

  -- A text is kept if it is short enough, and stepped over otherwise.
  abbrev pub kept_text : ℕ → List ℕ → Option Text
  kept_text keep s = if ltb keep (length s) then none else some (files.from_utf8_lossy s)

  text_of-Reads :
      (keep : ℕ) (s : List ℕ)
      → length s < 2 ^ 63
      → Reads (text_of files keep (length s)) s (kept_text keep s)
  unfolding text_of
  text_of-Reads keep s h rest past = elim (Bool-cases (ltb keep (length s))) [
    | inl e ↦ rw e (rw (skip-Reads s h rest past) refl)
    | inr e ↦ rw e (rw (read_exact-Reads s rest past) refl)
  ]

  pub text_at-Reads :
      (keep : ℕ) (s : List ℕ)
      → length s < 2 ^ 63
      → Reads (text_at files keep) (write_text s) (kept_text keep s)
  unfolding text_at
  text_at-Reads keep s h =
      Reads-bind (u64_at files) (text_of files keep) (to_le_bytes 8 (length s)) s (length s)
        (kept_text keep s) (u64_at-Reads (length s) (omega arith)) (text_of-Reads keep s h)

  pub width-Reads : (kind n : ℕ) → width_of kind ≡ some n → Reads (width kind) [] n
  unfolding width
  width-Reads kind n h rest past = rw (h, width) refl

  pub scalar_at-Reads :
      (kind : ℕ) (x : List ℕ)
      → width_of kind ≡ some (length x)
      → Reads (scalar_at files kind) x (unsigned kind x)
  unfolding scalar_at
  scalar_at-Reads kind x h rest past =
      rw (width-Reads kind (length x) h (x ++ rest) past) (rw (read_exact-Reads x rest past) refl)

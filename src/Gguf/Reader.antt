-- ===== src/Gguf/Reader.antt =====
-- src/gguf/bytes.rs: the scalars and texts of a file, read where its position stands.
use maestro_llamacpp.Common.{
  ℕ, ◌+◌, ◌-◌, ◌^◌, Bool, ◌||◌, Option, none, some, List, [], ◌++◌, ltb, ◌==◌, length,
  if◌then◌else◌,
}
use maestro_llamacpp.Common.Text.{Text, codes, show}
use maestro_llamacpp.Common.Bytes.{from_le_bytes, split_at}

-- A file from its position on: the bytes that follow, and how far past the end the position is.
pub record Reader : Type 0 where
  pub rest : List ℕ
  pub past : ℕ

-- `Result`, with the reader as it stands after a success. A `Fault` is its words.
pub data Outcome (A : Type 0) : Type 0 where
  ok : A → Reader → Outcome A
  fault : Text → Outcome A

abbrev pub Reading : Type 0 → Type 0
Reading A = Reader → Outcome A

infixl 5 ◌>>=◌ ◌>>◌
abbrev pub bind_outcome : {A B : Type 0} → Outcome A → (A → Reading B) → Outcome B
bind_outcome (ok a r) f = f a r
bind_outcome (fault words) f = fault words

abbrev pub ◌>>=◌ : {A B : Type 0} → Reading A → (A → Reading B) → Reading B
◌>>=◌ m f r = bind_outcome (m r) f

abbrev pub ◌>>◌ : {A B : Type 0} → Reading A → Reading B → Reading B
m >> k = m >>= λ _. k

abbrev pub return : {A : Type 0} → A → Reading A
return a r = ok a r

abbrev pub fail : {A : Type 0} → Text → Reading A
fail words r = fault words

-- What the standard library and the system do: `String::from_utf8_lossy`, whether a position may
-- stand so far past the end of a file, and the words of their errors.
pub record Files : Type 0 where
  pub from_utf8_lossy : List ℕ → Text
  pub may_pass : ℕ → Bool
  pub end_words : Text
  pub seek_words : Text

-- `From<std::io::Error>`
unfoldable pub ends_inside : Text → Text
ends_inside error = codes "ends inside its metadata: " ++ error

module _ (files : Files) where
  unfoldable pub read_exact : ℕ → Reading (List ℕ)
  read_exact n r = elim (split_at n r.rest) [
    | none ↦ fault (ends_inside files.end_words)
    | some (bytes, rest) ↦ ok bytes (record r { rest = rest })
  ]

  unfoldable pub u32_at : Reading ℕ
  u32_at = do bytes ← read_exact 4; return (from_le_bytes bytes)

  unfoldable pub u64_at : Reading ℕ
  u64_at = do bytes ← read_exact 8; return (from_le_bytes bytes)

  -- `seek_relative`, forward
  unfoldable pub seek : ℕ → Reading (Unit {0})
  seek n r = elim (split_at n r.rest) [
    | some (bytes, rest) ↦ ok tt (record r { rest = rest })
    | none ↦
        let past = r.past + (n - length r.rest) in
        if files.may_pass past
        then ok tt (record { rest = []; past = past })
        else fault (ends_inside files.seek_words)
  ]

  unfoldable pub skip : ℕ → Reading (Unit {0})
  skip n = if ltb n (2 ^ 63) then seek n else fail (codes "claims an impossible length")

  unfoldable pub text_of : ℕ → ℕ → Reading (Option Text)
  text_of keep length =
      if ltb keep length
      then (skip length >>= λ _. return none)
      else (read_exact length >>= λ bytes. return (some (files.from_utf8_lossy bytes)))

  unfoldable pub text_at : ℕ → Reading (Option Text)
  text_at keep = u64_at >>= text_of keep

-- The number of bytes of a scalar; none is a type that the format does not define.
unfoldable pub width_of : ℕ → Option ℕ
width_of kind =
    if kind == 0 || kind == 1 || kind == 7
    then some 1
    else if kind == 2 || kind == 3
    then some 2
    else if kind == 4 || kind == 5 || kind == 6
    then some 4
    else if kind == 10 || kind == 11 || kind == 12
    then some 8
    else none

unfoldable pub width : ℕ → Reading ℕ
width kind r = elim (width_of kind) [
  | some n ↦ ok n r
  | none ↦
      fault (codes "uses value type " ++ (show kind ++ codes ", which the format does not define"))
]

-- `try_from` of a signed number of so many bits, by its pattern.
unfoldable pub non_negative : ℕ → ℕ → Option ℕ
non_negative bits v = if ltb v (2 ^ (bits - 1)) then some v else none

-- The bytes are those that the width asks for; the buffer's other bytes are zero.
unfoldable pub unsigned : ℕ → List ℕ → Option ℕ
unsigned kind bytes =
    let v = from_le_bytes bytes in
    if kind == 0 || kind == 2 || kind == 4 || kind == 10
    then some v
    else if kind == 7
    then some (if v == 0 then 0 else 1)
    else if kind == 1
    then non_negative 8 v
    else if kind == 3
    then non_negative 16 v
    else if kind == 5
    then non_negative 32 v
    else if kind == 11
    then non_negative 64 v
    else none

unfoldable pub scalar_at : Files → ℕ → Reading (Option ℕ)
scalar_at files kind = do
  taken ← width kind
  bytes ← read_exact files taken
  return (unsigned kind bytes)

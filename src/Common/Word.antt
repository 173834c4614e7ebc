-- ===== src/Common/Word.antt =====
-- Rust's unsigned words: `+`, `*` and `sum` that wrap as a release build does, and the operations
-- that saturate or check.
use Prim.Native.Nat.{ℕ, ◌+◌, ◌-◌, ◌*◌, ◌^◌, ◌%◌, ◌<◌}
use mathlib.Core.Path.{◌≡◌, ◌∙◌}
use mathlib.Core.Option.{Option, none, some}
use mathlib.Core.List.{List, [], ◌∷◌}
use native.Mathlib.Omega.{arith}
use native.Mathlib.Nat.{mod-eq_of_lt}
use maestro_llamacpp.Common.Tests.{ltb, if◌then◌else◌}
use maestro_llamacpp.Common.Sums.{sum_by}

abbrev pub u64_mod : ℕ
u64_mod = 2 ^ 64

abbrev pub u32_max : ℕ
u32_max = 2 ^ 32 - 1

unfoldable pub add_u64 : ℕ → ℕ → ℕ
add_u64 a b = (a + b) % u64_mod

abbrev pub u128_mod : ℕ
u128_mod = 2 ^ 128

unfoldable pub add_u128 : ℕ → ℕ → ℕ
add_u128 a b = (a + b) % u128_mod

unfoldable pub mul_u128 : ℕ → ℕ → ℕ
mul_u128 a b = (a * b) % u128_mod

-- `iter().map(f).sum::<u64>()`
module _ {ℓ} {A : Type ℓ} where
  unfoldable pub sum_u64_from : (A → ℕ) → ℕ → List A → ℕ
  unfolding add_u64
  sum_u64_from f acc [] = acc
  sum_u64_from f acc (x ∷ xs) = sum_u64_from f (add_u64 acc (f x)) xs

  unfoldable pub sum_u64 : (A → ℕ) → List A → ℕ
  unfolding sum_u64_from
  sum_u64 f xs = sum_u64_from f 0 xs

pub add_u64_exact : (a b : ℕ) → a + b < u64_mod → add_u64 a b ≡ a + b
unfolding add_u64
add_u64_exact a b h = mod-eq_of_lt h

pub add_u128_exact : (a b : ℕ) → a + b < u128_mod → add_u128 a b ≡ a + b
unfolding add_u128
add_u128_exact a b h = mod-eq_of_lt h

pub mul_u128_exact : (a b : ℕ) → a * b < u128_mod → mul_u128 a b ≡ a * b
unfolding mul_u128
mul_u128_exact a b h = mod-eq_of_lt h

module _ {ℓ} {A : Type ℓ} where
  sum_u64_from_exact :
      (f : A → ℕ) (acc : ℕ) (xs : List A)
      → acc + sum_by f xs < u64_mod
      → sum_u64_from f acc xs ≡ acc + sum_by f xs
  unfolding sum_u64_from sum_by
  sum_u64_from_exact f acc [] h = omega arith
  sum_u64_from_exact f acc (x ∷ xs) h =
      let step = add_u64_exact acc (f x) (omega arith) in
      rw step (sum_u64_from_exact f (acc + f x) xs (omega arith) ∙ omega arith)

  -- While the exact sum fits the word, the machine's sum is the exact one.
  pub sum_u64_exact : (f : A → ℕ) (xs : List A) → sum_by f xs < u64_mod → sum_u64 f xs ≡ sum_by f xs
  unfolding sum_u64
  sum_u64_exact f xs h = sum_u64_from_exact f 0 xs (omega arith) ∙ omega arith

-- `u32::try_from(n).unwrap_or(u32::MAX)`
unfoldable pub clamp_u32 : ℕ → ℕ
clamp_u32 n = if ltb u32_max n then u32_max else n

-- `u32::try_from(n).ok()`
unfoldable pub try_u32 : ℕ → Option ℕ
try_u32 n = if ltb u32_max n then none else some n

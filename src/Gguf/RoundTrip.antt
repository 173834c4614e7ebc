-- ===== src/Gguf/RoundTrip.antt =====
-- What a writer of the format wrote is what `Metadata::fill` reads.

use mathlib.Core.List.{append_assoc}
use maestro_llamacpp.Common.{
  ℕ, ◌^◌, ◌≤◌, ◌<◌, true, ◌&&◌, List, [], ◌∷◌, ◌++◌, leb, length, All, map, ◌≡◌, refl, arith,
  le→ltb,
}
use maestro_llamacpp.Common.Text.{Text, text_eq, codes}
use maestro_llamacpp.Common.Bytes.{to_le_bytes}
use maestro_llamacpp.Gguf.{
  Metadata, no_metadata, with_number, with_text, string_kind, max_kept_text_bytes, max_key_bytes,
  max_pairs, magic, value, key_of, pair, pairs_at, ended, counted, versioned, begun, fill,
}
use maestro_llamacpp.Gguf.Writing.{
  Value, text, scalar, texts, scalars, Pair, concat, write_text, kind_of, write_value, write_pair,
  write_pairs, write, says, all_say, IsValue, IsPair,
}
use maestro_llamacpp.Gguf.Reader.{
  ok, ◌>>=◌, Files, read_exact, u32_at, text_at, scalar_at, unsigned,
}
use maestro_llamacpp.Gguf.Reads.{
  Reads, Reads-return, Reads-map, Reads-bind, read_exact-Reads, u32_at-Reads, u64_at-Reads,
  kept_text, text_at-Reads, scalar_at-Reads,
}
use maestro_llamacpp.Gguf.Arrays.{
  fewer, width_of-kinds, array_of-scalars, array_of-texts, array-Reads,
}

module _ (files : Files) where
  value-Reads :
      (key : Text) (v : Value) (m : Metadata)
      → IsValue files key v
      → Reads (value files key (kind_of v) m) (write_value v) (says files key v m)
  unfolding value
  value-Reads key (text s) m h =
      Reads-map (text_at files max_kept_text_bytes) (λ kept. with_text key kept m) (write_text s)
        (kept_text files max_kept_text_bytes s) (text_at-Reads files max_kept_text_bytes s h)
  value-Reads key (scalar kind bytes) m h =
      let (not_text, not_array, narrow, wide) = width_of-kinds kind (length bytes) h in
      rw (not_text, not_array)
        (Reads-map (scalar_at files kind) (λ n. with_number key n m) bytes (unsigned kind bytes)
          (scalar_at-Reads files kind bytes h))
  value-Reads key (texts ss) m h =
      array-Reads files key string_kind (length ss) (concat (map write_text ss)) m m (omega arith)
        (omega (arith, h.0)) (array_of-texts files key ss m h)
  value-Reads key (scalars kind xs) m (each, w, k, small, few) =
      let (not_text, not_array, narrow, wide) = width_of-kinds kind each w in
      array-Reads files key kind (length xs) (concat xs) m _ narrow
        (omega (arith, fewer (length xs) each (2 ^ 63) wide small))
        (array_of-scalars files key kind xs m (each, w, k, small, few))

  narrow_kind : (key : Text) (v : Value) → IsValue files key v → kind_of v < 2 ^ 32
  narrow_kind key (text s) h = omega arith
  narrow_kind key (scalar kind bytes) h = (width_of-kinds kind (length bytes) h).2
  narrow_kind key (texts ss) h = omega arith
  narrow_kind key (scalars kind xs) h = omega arith

  pair-Reads :
      (p : Pair) (m : Metadata)
      → IsPair files p
      → Reads (pair files m) (write_pair p) (says files (files.from_utf8_lossy p.key) p.value m)
  unfolding pair key_of
  pair-Reads p m h =
      Reads-bind (text_at files max_key_bytes) _ (write_text p.key) _
        (kept_text files max_key_bytes p.key) _
        (text_at-Reads files max_key_bytes p.key (omega (arith, h.short_key)))
        (rw (le→ltb max_key_bytes (length p.key) h.short_key) (
          Reads-bind (u32_at files) _ (to_le_bytes 4 (kind_of p.value)) (write_value p.value)
            (kind_of p.value) _
            (u32_at-Reads files (kind_of p.value)
              (narrow_kind (files.from_utf8_lossy p.key) p.value h.value))
            (value-Reads (files.from_utf8_lossy p.key) p.value m h.value)))

  pairs_at-Reads :
      (ps : List Pair) (m : Metadata)
      → All (IsPair files) ps
      → Reads (pairs_at files (length ps) m) (write_pairs ps) (all_say files ps m)
  unfolding pairs_at
  pairs_at-Reads [] m h = Reads-return m
  pairs_at-Reads (p ∷ ps) m h =
      let said = says files (files.from_utf8_lossy p.key) p.value m in
      Reads-bind (pair files m) _ (write_pair p) (write_pairs ps) said _ (pair-Reads p m h.0)
        (pairs_at-Reads ps said h.1)

  counted-Reads :
      (ps : List Pair)
      → length ps ≤ max_pairs
      → All (IsPair files) ps
      → (rest : List ℕ)
      → counted files (length ps) (record { rest = write_pairs ps ++ rest; past = 0 })
        ≡ ok (all_say files ps no_metadata) (record { rest = rest; past = 0 })
  unfolding counted ended
  counted-Reads ps few h rest =
      rw (le→ltb max_pairs (length ps) few) (rw (pairs_at-Reads ps no_metadata h rest 0) refl)

  versioned-Reads :
      (version tensors : ℕ) (ps : List Pair)
      → 2 ≤ version
      → version ≤ 3
      → tensors < 2 ^ 64
      → length ps ≤ max_pairs
      → All (IsPair files) ps
      → (rest : List ℕ)
      → versioned files version (record {
        rest = to_le_bytes 8 tensors ++ (to_le_bytes 8 (length ps) ++ (write_pairs ps ++ rest));
        past = 0;
      })
        ≡ ok (all_say files ps no_metadata) (record { rest = rest; past = 0 })
  unfolding versioned
  versioned-Reads version tensors ps lo hi few_tensors few h rest =
      let counted_in : leb 2 version && leb version 3 ≡ true = ground arith in
      rw counted_in (
        rw
          (u64_at-Reads files tensors few_tensors
            (to_le_bytes 8 (length ps) ++ (write_pairs ps ++ rest)) 0)
          (rw (u64_at-Reads files (length ps) (omega (arith, few)) (write_pairs ps ++ rest) 0)
            (counted-Reads ps few h rest)))

  begun-magic : begun files magic ≡ (u32_at files >>= versioned files)
  unfolding begun text_eq codes
  begun-magic = refl

  magic_read : Reads (read_exact files 4) magic magic
  unfolding codes
  magic_read = read_exact-Reads files magic

  -- A file of version 2 or 3 that a writer wrote, with whatever follows its metadata, reads as what
  -- its pairs say, and the position then stands where they end.
  pub fill-write :
      (version tensors : ℕ) (ps : List Pair)
      → 2 ≤ version
      → version ≤ 3
      → tensors < 2 ^ 64
      → length ps ≤ max_pairs
      → All (IsPair files) ps
      → (rest : List ℕ)
      → fill files (record { rest = write version tensors ps ++ rest; past = 0 })
        ≡ ok (all_say files ps no_metadata) (record { rest = rest; past = 0 })
  unfolding fill
  fill-write version tensors ps lo hi few_tensors few h rest =
      let counts = to_le_bytes 8 (length ps) ++ write_pairs ps in
      rw (append_assoc magic (to_le_bytes 4 version ++ (to_le_bytes 8 tensors ++ counts)) rest) (
        rw (magic_read ((to_le_bytes 4 version ++ (to_le_bytes 8 tensors ++ counts)) ++ rest) 0) (
          rw begun-magic (
            rw (append_assoc (to_le_bytes 4 version) (to_le_bytes 8 tensors ++ counts) rest) (
              rw
                (u32_at-Reads files version (omega (arith, hi))
                  ((to_le_bytes 8 tensors ++ counts) ++ rest) 0)
                (rw (append_assoc (to_le_bytes 8 tensors) counts rest) (
                  rw (append_assoc (to_le_bytes 8 (length ps)) (write_pairs ps) rest)
                    (versioned-Reads version tensors ps lo hi few_tensors few h rest)))))))

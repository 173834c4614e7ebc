-- ===== src/Bench/Margin.antt =====
-- src/bench.rs: how far a recommended estimate stands over what was measured.
use maestro_llamacpp.Common.{ℕ, ◌+◌, ◌*◌, ◌/◌, ◌%◌, ◌^◌, ◌<◌, ◌≤◌, some, ◌≡◌, refl, arith}
use maestro_llamacpp.Bench.{recommended_mib}

-- What a measurement recommends has a twentieth over it, less than 256 MiB more than that, and is
-- whole quarters of a gibibyte, unless the result does not fit 32 bits.
pub recommended_mib-bounds :
    (measured : ℕ)
    → measured + measured / 20 + 256 ≤ 2 ^ 32
    → (wants : ℕ) × (recommended_mib (some measured) ≡ some wants)
      × (measured + measured / 20 ≤ wants)
      × (wants < measured + measured / 20 + 256)
      × (wants % 256 ≡ 0)
unfolding recommended_mib
recommended_mib-bounds measured h =
    let room : (measured + measured / 20) % 2 ^ 32 ≡ measured + measured / 20 = omega arith in
    let wants = (measured + measured / 20 + 255) / 256 * 256 in
    let fits : wants % 2 ^ 32 ≡ wants = omega arith in
    (wants, rw (room, fits) refl, omega arith, omega arith, omega arith)

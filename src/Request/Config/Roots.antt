-- ===== src/Request/Config/Roots.antt =====
-- The PRACH roots and the carrier frequencies.
use x_fapi.Prelude.{
  ℕ, ◌+◌, ◌-◌, ◌*◌, ◌/◌, ◌%◌, ◌≤◌, ◌<◌, ◌≡◌, List, [], ◌∷◌, leb, if◌then◌else◌, arith,
}
use native.Mathlib.Nat.{div-add-mod}
use x_fapi.Request.Config.Values.{per_sequence, roots_for, prach_num_root_sequences}

per_sequence_pos : (is_l839 zero_corr_conf : ℕ) → (1 ≤ per_sequence is_l839 zero_corr_conf)
unfolding per_sequence
per_sequence_pos is_l839 zero_corr_conf = ground arith

roots_for_lem : (p : ℕ) → 1 ≤ p → (64 ≤ roots_for p * p) × ((roots_for p - 1) * p < 64)
unfolding roots_for
roots_for_lem p h =
    let q : ℕ = (64 + p - 1) / p in
    let r : ℕ = (64 + p - 1) % p in
    let parts : q * p + r ≡ 64 + p - 1 = grind (arith, div-add-mod) in
    let low : r < p = grind arith in
    let some_root : 1 ≤ q = grind arith in
    let few : q ≤ 64 = grind arith in
    let same : roots_for p ≡ q = ground arith in rw same (grind arith)

-- The number of PRACH root sequences is the least that gives 64 preambles, for either length of the
-- sequence and every zero-correlation configuration, the invalid ones above 15 included.
pub num_root_sequences_lem :
    (is_l839 zero_corr_conf : ℕ)
    → (64 ≤ prach_num_root_sequences is_l839 zero_corr_conf * per_sequence is_l839 zero_corr_conf)
      × ((prach_num_root_sequences is_l839 zero_corr_conf - 1) * per_sequence is_l839 zero_corr_conf
          < 64)
unfolding prach_num_root_sequences
num_root_sequences_lem is_l839 zero_corr_conf =
    roots_for_lem (per_sequence is_l839 zero_corr_conf) (per_sequence_pos is_l839 zero_corr_conf)

-- The global frequency raster of TS 38.104, table 5.4.2.1-1: from which NR-ARFCN and which frequency on, in
-- kHz, it goes by which step.
pub record Raster : Type 0 where
  pub first : ℕ
  pub from_khz : ℕ
  pub step_khz : ℕ

abbrev pub rasters : List Raster
rasters =
    record { first = 2016667; from_khz = 24250080; step_khz = 60 }
    ∷ record { first = 600000; from_khz = 3000000; step_khz = 15 }
    ∷ record { first = 0; from_khz = 0; step_khz = 5 }
    ∷ []

-- The frequency on the first raster of the list that has begun.
unfoldable pub raster_khz : List Raster → ℕ → ℕ
raster_khz [] n = 0
raster_khz (r ∷ more) n =
    if leb r.first n then r.from_khz + (n - r.first) * r.step_khz else raster_khz more n

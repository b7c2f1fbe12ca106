-- ===== src/Request/Ul/Mapping.antt =====
-- L2_to_L1/P7/ul_tti_request.c: what the mappers to nFAPI share, `ul_bf_none` and `derive_bg`. A field
-- of an nFAPI structure holds what is assigned to it without a cast.
use x_fapi.Prelude.{
  ℕ, ◌+◌, ◌-◌, ◌*◌, ◌%◌, ◌^◌, ◌==◌, ◌≡◌, ◌⊎◌, arith, leb, ltb, if◌then◌else◌, ◌||◌, ◌&&◌,
}

-- Differences that are cast to 16 and to 8 bits.
abbrev pub span16 : ℕ → ℕ → ℕ
span16 stop start = (stop + 2 ^ 32 - start) % 2 ^ 32 % 2 ^ 16

abbrev pub span8 : ℕ → ℕ → ℕ
span8 stop start = (stop + 2 ^ 8 - start) % 2 ^ 8

-- `nfapi_nr_ul_beamforming_t`, with no beamforming.
pub record Beamforming : Type 0 where
  pub trp_scheme : ℕ
  pub num_prgs : ℕ
  pub prg_size : ℕ
  pub dig_bf_interface : ℕ

abbrev pub ul_bf_none : Beamforming
ul_bf_none = record { trp_scheme = 0; num_prgs = 0; prg_size = 0; dig_bf_interface = 0 }

-- The LDPC base graph. The rate is a double, tcr / 10240 or 0.5: compared here in steps of 1/1024000,
-- which decide the same, as no multiple of 1/10240 lies between 0.67 and the double nearest to it.
unfoldable pub derive_bg : ℕ → ℕ → ℕ → ℕ
derive_bg ocudu_bg tb_size tcr =
    if (ocudu_bg == 1) || (ocudu_bg == 2)
    then ocudu_bg
    else let a = tb_size * 8 in
      let rate = if ltb 0 tcr then tcr else 5120 in
      if leb a 292 || (leb (rate * 100) (67 * 10240) && leb a 3824) || leb (rate * 100) (25 * 10240)
      then 2
      else 1

-- The LDPC base graph that is handed to the L1, which uses it less one as an index of two entries,
-- is 1 or 2 for every base graph, block size and code rate that the L2 sends.
pub derive_bg_valid :
    (ocudu_bg tb_size tcr : ℕ)
    → ((derive_bg ocudu_bg tb_size tcr ≡ 1) ⊎ (derive_bg ocudu_bg tb_size tcr ≡ 2))
unfolding derive_bg
derive_bg_valid ocudu_bg tb_size tcr = ground arith

-- ===== src/Request/Ul/Corr.antt =====
-- L2_to_L1/P7/ul_tti_request.c: the parts that a walker steps over, `walk_uci_corr` and the loops and
-- options inside `walk_pusch`.
pub mod Spec
pub mod Laws
use x_fapi.Prelude.{ℕ, ◌==◌, if◌then◌else◌}
use x_fapi.Wire.Cursor.{
  Rd, ◌>>=◌, ◌>>◌, return, rd_u8, rd_u16, rd_skip_sv_u8, rd_skip_sv_u16, rd_times,
}

unfoldable pub walk_correlation : Rd (Unit {0})
unfolding ◌>>◌
walk_correlation = do rd_u16; rd_skip_sv_u16; rd_skip_sv_u8; rd_u16; rd_u8; return tt

-- The loop does not look at the error: every read of a failed cursor returns 0 and stays.
unfoldable pub walk_uci_corr : Rd (Unit {0})
unfolding ◌>>=◌
walk_uci_corr = do count ← rd_u16; rd_times count walk_correlation

unfoldable pub walk_ptrs_port : Rd (Unit {0})
unfolding ◌>>◌
walk_ptrs_port = do rd_u16; rd_u8; rd_u8; return tt

-- `if (has_ctx) { … }`
unfoldable pub walk_context : ℕ → Rd (Unit {0})
unfolding ◌>>◌
walk_context has_ctx = if has_ctx == 0 then return tt else (do rd_u16; rd_u8; return tt)

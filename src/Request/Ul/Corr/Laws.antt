-- ===== src/Request/Ul/Corr/Laws.antt =====
-- The walkers step over just these parts.
use x_fapi.Prelude.{ℕ, zero, suc, ◌*◌, ◌==◌}
use x_fapi.Wire.Cursor.{Rd, rd_skip_sv_u8, rd_skip_sv_u16, rd_times}
use x_fapi.Wire.Cursor.Parser.{Parser}
use x_fapi.Wire.Cursor.Faithful.{Faithful, bind, then_do, ret, branch}
use x_fapi.Wire.Cursor.Reads.{rd_u8_lem, rd_u16_lem, rd_skip_lem}
use x_fapi.Request.Ul.Corr.{walk_correlation, walk_uci_corr, walk_ptrs_port, walk_context}
use x_fapi.Request.Ul.Corr.Spec.{rounds, sv_u8, sv_u16, correlation, uci_corr, ptrs_port, context}

pub rd_times_lem :
    (n : ℕ) {m : Rd (Unit {0})} {p : Parser (Unit {0})}
    → Faithful m p
    → Faithful (rd_times n m) (rounds n p)
unfolding rd_times rounds
rd_times_lem zero f = ret tt
rd_times_lem (suc n) f = then_do f (rd_times_lem n f)

pub rd_skip_sv_u8_lem : Faithful rd_skip_sv_u8 sv_u8
unfolding rd_skip_sv_u8
rd_skip_sv_u8_lem = bind rd_u16_lem λ n. rd_skip_lem n

pub rd_skip_sv_u16_lem : Faithful rd_skip_sv_u16 sv_u16
unfolding rd_skip_sv_u16
rd_skip_sv_u16_lem = bind rd_u16_lem λ n. rd_skip_lem (n * 2)

walk_correlation_lem : Faithful walk_correlation correlation
unfolding walk_correlation correlation
walk_correlation_lem = then_do rd_u16_lem (
    then_do rd_skip_sv_u16_lem
      (then_do rd_skip_sv_u8_lem (then_do rd_u16_lem (then_do rd_u8_lem (ret tt)))))

pub walk_uci_corr_lem : Faithful walk_uci_corr uci_corr
unfolding walk_uci_corr uci_corr
walk_uci_corr_lem = bind rd_u16_lem λ count. rd_times_lem count walk_correlation_lem

pub walk_ptrs_port_lem : Faithful walk_ptrs_port ptrs_port
unfolding walk_ptrs_port ptrs_port
walk_ptrs_port_lem = then_do rd_u16_lem (then_do rd_u8_lem (then_do rd_u8_lem (ret tt)))

pub walk_context_lem : (has_ctx : ℕ) → Faithful (walk_context has_ctx) (context has_ctx)
unfolding walk_context context
walk_context_lem has_ctx =
    branch (has_ctx == 0) (ret tt) (then_do rd_u16_lem (then_do rd_u8_lem (ret tt)))

-- ===== src/Request/Ul/Corr/Spec.antt =====
-- The layouts of the parts that a walker steps over.
use x_fapi.Prelude.{ℕ, zero, suc, ◌*◌, ◌==◌, if◌then◌else◌}
use x_fapi.Wire.Cursor.Parser as P
use x_fapi.Wire.Cursor.Parser.{Parser, ◌>>=◌, ◌>>◌, pure}

unfoldable pub rounds : ℕ → Parser (Unit {0}) → Parser (Unit {0})
rounds zero p = pure tt
rounds (suc n) p = p >> rounds n p

-- A list of bytes, and one of 16-bit words, behind its length.
abbrev pub sv_u8 : Parser (Unit {0})
sv_u8 = P.le_uint 2 >>= λ n. P.skip n

abbrev pub sv_u16 : Parser (Unit {0})
sv_u16 = P.le_uint 2 >>= λ n. P.skip (n * 2)

unfoldable pub correlation : Parser (Unit {0})
unfolding ◌>>◌
correlation = do P.le_uint 2; sv_u16; sv_u8; P.le_uint 2; P.byte; pure tt

unfoldable pub uci_corr : Parser (Unit {0})
unfolding ◌>>=◌
uci_corr = do count ← P.le_uint 2; rounds count correlation

unfoldable pub ptrs_port : Parser (Unit {0})
unfolding ◌>>◌
ptrs_port = do P.le_uint 2; P.byte; P.byte; pure tt

unfoldable pub context : ℕ → Parser (Unit {0})
unfolding ◌>>◌
context has_ctx = if has_ctx == 0 then pure tt else (do P.le_uint 2; P.byte; pure tt)

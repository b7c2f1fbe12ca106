-- ===== src/Request/Dl/Parts/Spec.antt =====
-- The layouts of these parts.
use x_fapi.Prelude.{ℕ, ◌+◌, ◌/◌, ◌%◌, ◌^◌, ◌||◌, replicate, ◌==◌, if◌then◌else◌}
use x_fapi.Wire.Cursor.Parser as P
use x_fapi.Wire.Cursor.Parser.{Parser, ◌>>=◌, ◌>>◌, pure}
use x_fapi.Request.Dl.Parts.{bitset_bytes, BitBytes, Power, Interleaving, Codeword}

unfoldable pub bitset : ℕ → Parser BitBytes
unfolding ◌>>=◌
bitset cap = do
  nbits ← P.le_uint 4
  chunks ← P.times ((nbits + 63) % 2 ^ 32 / 64) (P.le_uint 8)
  pure (record { nbits = nbits; bytes = bitset_bytes cap nbits 0 chunks (replicate cap 0) })

unfoldable pub two_words : Parser (Unit {0})
unfolding ◌>>◌
two_words = do P.le_uint 4; P.le_uint 4; pure tt

unfoldable pub power : ℕ → Parser ℕ
unfolding ◌>>◌ two_words
power power_idx = if power_idx == 0 then P.byte else (do two_words; pure 0)

unfoldable pub both_powers : Parser Power
unfolding ◌>>=◌
both_powers = do pnr ← P.le_uint 4; pss ← P.byte; pure (record { power_nr = pnr; power_ss = pss })

unfoldable pub power_nr : ℕ → Parser Power
unfolding ◌>>◌ two_words both_powers
power_nr power_idx =
    if power_idx == 0
    then both_powers
    else (do two_words; pure (record { power_nr = 0; power_ss = 0 }))

unfoldable pub optional_u32 : ℕ → Parser (Unit {0})
unfolding ◌>>◌
optional_u32 x = if x == 0 then pure tt else (do P.le_uint 4; pure tt)

unfoldable pub some_context : Parser (Unit {0})
unfolding ◌>>=◌ ◌>>◌ optional_u32
some_context = do
  P.byte
  fmt_len ← P.le_uint 2
  P.skip fmt_len
  has_hft ← P.byte
  optional_u32 has_hft

unfoldable pub context : ℕ → Parser (Unit {0})
unfolding some_context
context has_ctx = if has_ctx == 0 then pure tt else some_context

unfoldable pub interleaved : Parser Interleaving
unfolding ◌>>=◌
interleaved = do
  rb ← P.byte
  il ← P.byte
  sh ← P.le_uint 2
  pure (record { reg_bundle = rb; interleaver = il; shift_index = sh })

unfoldable pub plain : Parser Interleaving
unfolding ◌>>=◌
plain = do rb ← P.byte; pure (record { reg_bundle = rb; interleaver = 0; shift_index = 0 })

unfoldable pub interleaving : ℕ → Parser Interleaving
unfolding interleaved plain
interleaving mi = if (mi == 0) || (mi == 1) then interleaved else plain

unfoldable pub codeword : Parser Codeword
unfolding ◌>>=◌
codeword = do
  tcr ← P.le_uint 2
  qam ← P.byte
  mcs ← P.byte
  mtb ← P.byte
  rv ← P.byte
  tbs ← P.le_uint 4
  pure (record {
    target_code_rate = tcr;
    qam = qam;
    mcs = mcs;
    mcs_table = mtb;
    rv = rv;
    tb_size = tbs;
  })

unfoldable pub some_pdsch_context : Parser (Unit {0})
unfolding ◌>>◌ two_words
some_pdsch_context = do P.byte; two_words

unfoldable pub pdsch_context : ℕ → Parser (Unit {0})
unfolding some_pdsch_context
pdsch_context has_ctx = if has_ctx == 0 then pure tt else some_pdsch_context

-- ===== src/Request/Dl/Parts.antt =====
-- L2_to_L1/P7/dl_tti_request.c: bit sets, and the options, alternatives and loops inside the walkers.
pub mod Spec
pub mod Laws
pub mod Mapping
use x_fapi.Prelude.{ℕ, zero, suc, ◌+◌, ◌*◌, ◌/◌, ◌%◌, ◌^◌, Bool, true, false, ◌||◌, List, [], ◌∷◌}
use x_fapi.Prelude.{ltb, leb, ◌==◌, if◌then◌else◌, get_or, set, replicate}
use x_fapi.Wire.Cursor.{Rd, ◌>>=◌, ◌>>◌, return, rd_u8, rd_u16, rd_u32, rd_u64, rd_skip, rd_list}

-- `dst[byte] |= 1u << k`
abbrev pub or_bit : ℕ → ℕ → ℕ
or_bit x k = if x / 2 ^ k % 2 == 1 then x else x + 2 ^ k

-- The bits of one chunk, from its bit `b` on, which is bit `bit` of the set; the loop ends at `nbits`.
unfoldable pub unpack_chunk : ℕ → ℕ → ℕ → ℕ → ℕ → ℕ → List ℕ → List ℕ
unpack_chunk cap nbits v zero b bit dst = dst
unpack_chunk cap nbits v (suc n) b bit dst =
    let dst' =
      if (v / 2 ^ b % 2 == 1)
      then (if ltb (bit / 8) cap
          then set dst (bit / 8) (or_bit (get_or dst (bit / 8) 0) (bit % 8))
          else dst)
      else dst in
    let rest = unpack_chunk cap nbits v n (b + 1) (bit + 1) dst' in
    if leb nbits bit then dst else rest

-- The chunks in turn, from chunk `c` on.
unfoldable pub bitset_bytes : ℕ → ℕ → ℕ → List ℕ → List ℕ → List ℕ
unfolding unpack_chunk
bitset_bytes cap nbits c [] dst = dst
bitset_bytes cap nbits c (v ∷ vs) dst =
    bitset_bytes cap nbits (c + 1) vs (unpack_chunk cap nbits v 64 0 (c * 64) dst)

-- What `rd_bitset_bytes` returns and what it leaves in its array of `cap` bytes.
pub record BitBytes : Type 0 where
  pub nbits : ℕ
  pub bytes : List ℕ

-- The number of chunks is a `uint32_t` sum: it is 0 for a length above 2^32 - 64.
unfoldable pub rd_bitset_bytes : ℕ → Rd BitBytes
unfolding ◌>>=◌ bitset_bytes
rd_bitset_bytes cap = do
  nbits ← rd_u32
  chunks ← rd_list ((nbits + 63) % 2 ^ 32 / 64) rd_u64
  return (record { nbits = nbits; bytes = bitset_bytes cap nbits 0 chunks (replicate cap 0) })

unfoldable pub rd_two_words : Rd (Unit {0})
unfolding ◌>>◌
rd_two_words = do rd_u32; rd_u32; return tt

-- The power offset of a DCI: the pattern of an `int8_t`, or 0 behind the other alternative.
unfoldable pub walk_power : ℕ → Rd ℕ
unfolding ◌>>◌
walk_power power_idx = if power_idx == 0 then rd_u8 else (do rd_two_words; return 0)

pub record Power : Type 0 where
  pub power_nr : ℕ
  pub power_ss : ℕ

-- The power offsets of a PDSCH; `power_nr` is the pattern of an `int32_t`.
unfoldable pub rd_power : Rd Power
unfolding ◌>>=◌
rd_power = do pnr ← rd_u32; pss ← rd_u8; return (record { power_nr = pnr; power_ss = pss })

unfoldable pub walk_power_nr : ℕ → Rd Power
unfolding ◌>>◌ rd_power
walk_power_nr power_idx =
    if power_idx == 0
    then rd_power
    else (do rd_two_words; return (record { power_nr = 0; power_ss = 0 }))

-- `if (x) ocudu_rd_u32(r);`
unfoldable pub walk_optional_u32 : ℕ → Rd (Unit {0})
unfolding ◌>>◌
walk_optional_u32 x = if x == 0 then return tt else (do rd_u32; return tt)

-- The context of a DCI: a text behind its length, and an option.
unfoldable pub rd_context : Rd (Unit {0})
unfolding ◌>>=◌ ◌>>◌
rd_context = do rd_u8; fmt_len ← rd_u16; rd_skip fmt_len; has_hft ← rd_u8; walk_optional_u32 has_hft

unfoldable pub walk_context : ℕ → Rd (Unit {0})
unfolding rd_context
walk_context has_ctx = if has_ctx == 0 then return tt else rd_context

pub record Interleaving : Type 0 where
  pub reg_bundle : ℕ
  pub interleaver : ℕ
  pub shift_index : ℕ

unfoldable pub rd_interleaved : Rd Interleaving
unfolding ◌>>=◌
rd_interleaved = do
  rb ← rd_u8
  il ← rd_u8
  sh ← rd_u16
  return (record { reg_bundle = rb; interleaver = il; shift_index = sh })

unfoldable pub rd_plain : Rd Interleaving
unfolding ◌>>=◌
rd_plain = do rb ← rd_u8; return (record { reg_bundle = rb; interleaver = 0; shift_index = 0 })

unfoldable pub walk_interleaving : ℕ → Rd Interleaving
unfolding rd_interleaved rd_plain
walk_interleaving mi = if (mi == 0) || (mi == 1) then rd_interleaved else rd_plain

-- One codeword of a PDSCH.
pub record Codeword : Type 0 where
  pub target_code_rate : ℕ
  pub qam : ℕ
  pub mcs : ℕ
  pub mcs_table : ℕ
  pub rv : ℕ
  pub tb_size : ℕ

unfoldable pub rd_codeword : Rd Codeword
unfolding ◌>>=◌
rd_codeword = do
  tcr ← rd_u16
  qam ← rd_u8
  mcs ← rd_u8
  mtb ← rd_u8
  rv ← rd_u8
  tbs ← rd_u32
  return (record {
    target_code_rate = tcr;
    qam = qam;
    mcs = mcs;
    mcs_table = mtb;
    rv = rv;
    tb_size = tbs;
  })

unfoldable pub rd_pdsch_context : Rd (Unit {0})
unfolding ◌>>◌
rd_pdsch_context = do rd_u8; rd_two_words

unfoldable pub walk_pdsch_context : ℕ → Rd (Unit {0})
unfolding rd_pdsch_context
walk_pdsch_context has_ctx = if has_ctx == 0 then return tt else rd_pdsch_context

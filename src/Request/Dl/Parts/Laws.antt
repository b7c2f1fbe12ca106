-- ===== src/Request/Dl/Parts/Laws.antt =====
-- The walkers read just these parts.
use x_fapi.Prelude.{ℕ, ◌+◌, ◌/◌, ◌%◌, ◌^◌, ◌||◌, ◌==◌}
use x_fapi.Wire.Cursor.Faithful.{Faithful, bind, then_do, ret, branch}
use x_fapi.Wire.Cursor.Reads.{
  rd_u8_lem, rd_u16_lem, rd_u32_lem, rd_u64_lem, rd_skip_lem, rd_list_lem,
}
use x_fapi.Request.Dl.Parts.{
  rd_bitset_bytes, rd_two_words, walk_power, rd_power, walk_power_nr, walk_optional_u32, rd_context,
  walk_context, rd_interleaved, rd_plain, walk_interleaving, rd_codeword, rd_pdsch_context,
  walk_pdsch_context,
}
use x_fapi.Request.Dl.Parts.Spec.{
  bitset, two_words, power, both_powers, power_nr, optional_u32, some_context, context, interleaved,
  plain, interleaving, codeword, some_pdsch_context, pdsch_context,
}

pub rd_bitset_bytes_lem : (cap : ℕ) → Faithful (rd_bitset_bytes cap) (bitset cap)
unfolding rd_bitset_bytes bitset
rd_bitset_bytes_lem cap =
    bind rd_u32_lem
      λ nbits. bind (rd_list_lem ((nbits + 63) % 2 ^ 32 / 64) rd_u64_lem) λ chunks. ret _

pub rd_two_words_lem : Faithful rd_two_words two_words
unfolding rd_two_words two_words
rd_two_words_lem = then_do rd_u32_lem (then_do rd_u32_lem (ret tt))

pub walk_power_lem : (i : ℕ) → Faithful (walk_power i) (power i)
unfolding walk_power power
walk_power_lem i = branch (i == 0) rd_u8_lem (then_do rd_two_words_lem (ret 0))

pub walk_power_nr_lem : (i : ℕ) → Faithful (walk_power_nr i) (power_nr i)
unfolding walk_power_nr power_nr rd_power both_powers
walk_power_nr_lem i =
    branch (i == 0) (bind rd_u32_lem λ pnr. bind rd_u8_lem λ pss. ret _)
      (then_do rd_two_words_lem (ret _))

pub walk_optional_u32_lem : (x : ℕ) → Faithful (walk_optional_u32 x) (optional_u32 x)
unfolding walk_optional_u32 optional_u32
walk_optional_u32_lem x = branch (x == 0) (ret tt) (then_do rd_u32_lem (ret tt))

pub walk_context_lem : (x : ℕ) → Faithful (walk_context x) (context x)
unfolding walk_context context rd_context some_context
walk_context_lem x = branch (x == 0) (ret tt) (
    then_do rd_u8_lem
      (bind rd_u16_lem λ n. then_do (rd_skip_lem n) (bind rd_u8_lem λ h. walk_optional_u32_lem h)))

pub walk_interleaving_lem : (mi : ℕ) → Faithful (walk_interleaving mi) (interleaving mi)
unfolding walk_interleaving interleaving rd_interleaved interleaved rd_plain plain
walk_interleaving_lem mi =
    branch ((mi == 0) || (mi == 1))
      (bind rd_u8_lem λ rb. bind rd_u8_lem λ il. bind rd_u16_lem λ sh. ret _)
      (bind rd_u8_lem λ rb. ret _)

pub rd_codeword_lem : Faithful rd_codeword codeword
unfolding rd_codeword codeword
rd_codeword_lem = bind rd_u16_lem λ tcr. bind rd_u8_lem λ qam.
    bind rd_u8_lem λ mcs. bind rd_u8_lem λ mtb. bind rd_u8_lem λ rv. bind rd_u32_lem λ tbs. ret _

pub walk_pdsch_context_lem : (x : ℕ) → Faithful (walk_pdsch_context x) (pdsch_context x)
unfolding walk_pdsch_context pdsch_context rd_pdsch_context some_pdsch_context
walk_pdsch_context_lem x = branch (x == 0) (ret tt) (then_do rd_u8_lem rd_two_words_lem)

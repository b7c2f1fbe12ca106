-- ===== src/Request/Config/Values.antt =====
-- L2_to_L1/P5/config_request.c: the values that the translator computes, `ocudu_ssb_period_ms_to_nfapi`,
-- `arfcn_to_khz`, `tdd_period_to_enum`, `prach_num_root_sequences`, the SSB mask and the TDD symbols.
use x_fapi.Prelude.{
  ℕ, zero, suc, ◌+◌, ◌-◌, ◌*◌, ◌/◌, ◌%◌, ◌^◌, List, [], ◌∷◌, ◌==◌, ltb, leb, if◌then◌else◌, get_or,
}
use x_fapi.Request.Dl.Parts.{or_bit}

-- Milliseconds to the index that nFAPI uses, ms10 for any other value.
unfoldable pub ssb_period_ms_to_nfapi : ℕ → ℕ
ssb_period_ms_to_nfapi ms =
    if ms == 5
    then 0
    else if ms == 10
    then 1
    else if ms == 20
    then 2
    else if ms == 40
    then 3
    else if ms == 80
    then 4
    else (if ms == 160 then 5 else 1)

-- The carrier frequency of an NR-ARFCN, in 32 bits.
unfoldable pub arfcn_to_khz : ℕ → ℕ
arfcn_to_khz arfcn =
    if ltb arfcn 600000
    then 5 * arfcn % 2 ^ 32
    else if ltb arfcn 2016667
    then (3000000 + 15 * (arfcn - 600000)) % 2 ^ 32
    else (24250080 + 60 * (arfcn - 2016667)) % 2 ^ 32

-- The period in microseconds; `mu` is at most 4, so that the shift is no 0.
abbrev pub period_us : ℕ → ℕ → ℕ
period_us period_slots mu = period_slots * 1000 % 2 ^ 32 / 2 ^ mu

-- The `switch`: the index of ms5 for any other value.
unfoldable pub period_index : ℕ → ℕ
period_index milli =
    if milli == 500
    then 0
    else if milli == 625
    then 1
    else if milli == 1000
    then 2
    else if milli == 1250
    then 3
    else if milli == 2000
    then 4
    else if milli == 2500
    then 5
    else if milli == 5000
    then 6
    else if milli == 10000
    then 7
    else (if milli == 20000 then 8 else 6)

unfoldable pub tdd_period_to_enum : ℕ → ℕ → ℕ
unfolding period_index
tdd_period_to_enum period_slots mu = period_index (period_us period_slots mu)

abbrev pub ncs_l839 : List ℕ
ncs_l839 = 0 ∷ 13 ∷ 15 ∷ 18 ∷ 22 ∷ 26 ∷ 32 ∷ 38 ∷ 46 ∷ 59 ∷ 76 ∷ 93 ∷ 119 ∷ 167 ∷ 279 ∷ 419 ∷ []

abbrev pub ncs_l139 : List ℕ
ncs_l139 = 0 ∷ 2 ∷ 4 ∷ 6 ∷ 8 ∷ 10 ∷ 12 ∷ 13 ∷ 15 ∷ 17 ∷ 19 ∷ 23 ∷ 27 ∷ 34 ∷ 46 ∷ 69 ∷ []

-- How many preambles one root sequence gives.
unfoldable pub per_sequence : ℕ → ℕ → ℕ
per_sequence is_l839 zero_corr_conf =
    let l = if is_l839 == 0 then 139 else 839 in
    let idx = if ltb zero_corr_conf 16 then zero_corr_conf else 0 in
    let ncs = get_or (if is_l839 == 0 then ncs_l139 else ncs_l839) idx 0 in
    let per_seq = if ncs == 0 then l else l / ncs in if per_seq == 0 then 1 else per_seq

-- How many root sequences give 64 preambles.
unfoldable pub roots_for : ℕ → ℕ
roots_for per_seq =
    let n = (64 + per_seq - 1) / per_seq % 2 ^ 16 in
    let at_least = if n == 0 then 1 else n in (if ltb 64 at_least then 64 else at_least) % 2 ^ 8

unfoldable pub prach_num_root_sequences : ℕ → ℕ → ℕ
prach_num_root_sequences is_l839 zero_corr_conf = roots_for (per_sequence is_l839 zero_corr_conf)

-- Bit `i` of the bitmap.
abbrev pub bitmap_bit : ℕ → ℕ → ℕ
bitmap_bit bitmap i = bitmap / 2 ^ i % 2

-- The loop over the SSBs from `i` on, with `n` of 64 to go. The first mask has SSB 0 on top, the second
-- SSB 32.
unfoldable pub ssb_loop : ℕ → ℕ → ℕ → ℕ → ℕ → List ℕ
ssb_loop bitmap zero i m0 m1 = m0 ∷ m1 ∷ []
ssb_loop bitmap (suc n) i m0 m1 =
    let set_bit = bitmap_bit bitmap i == 1 in
    ssb_loop bitmap n (i + 1)
      (if set_bit then (if ltb i 32 then or_bit m0 (31 - i) else m0) else m0)
      (if set_bit then (if ltb i 32 then m1 else or_bit m1 (63 - i)) else m1)

unfoldable pub ssb_masks : ℕ → List ℕ
unfolding ssb_loop
ssb_masks bitmap = ssb_loop bitmap 64 0 0 0

unfoldable pub ssb_case : ℕ → ℕ
ssb_case scs_common =
    if scs_common == 0
    then 0
    else if scs_common == 1
    then 2
    else if scs_common == 3
    then 3
    else (if scs_common == 4 then 4 else 2)

-- `tdd_ul_dl_cfg_common`, all zero if it is absent.
pub record TddPattern : Type 0 where
  pub period : ℕ
  pub dl_slots : ℕ
  pub dl_symbols : ℕ
  pub ul_slots : ℕ
  pub ul_symbols : ℕ

-- The direction of symbol `k` of slot `s`: 0 down, 1 up, 2 neither. The difference of the signed
-- integers 14 and `ul_symbols` is taken with wrap-around.
unfoldable pub slot_config : TddPattern → ℕ → ℕ → ℕ
slot_config t s k =
    let ps = s % t.period in
    if ltb ps t.dl_slots
    then 0
    else if leb ((t.period + 2 ^ 32 - t.ul_slots) % 2 ^ 32) ps
    then 1
    else if ps == t.dl_slots
    then (if ltb k t.dl_symbols
        then 0
        else (if leb ((14 + 2 ^ 32 - t.ul_symbols) % 2 ^ 32) k then 1 else 2))
    else 2

-- The symbols from `k` on, with `n` to go, and the slots from `s` on.
unfoldable pub slot_symbols : TddPattern → ℕ → ℕ → ℕ → List ℕ
unfolding slot_config
slot_symbols t s k zero = []
slot_symbols t s k (suc n) = slot_config t s k ∷ slot_symbols t s (k + 1) n

unfoldable pub slot_table : TddPattern → ℕ → ℕ → List (List ℕ)
unfolding slot_symbols
slot_table t s zero = []
slot_table t s (suc n) = slot_symbols t s 0 14 ∷ slot_table t (s + 1) n

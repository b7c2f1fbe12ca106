-- ===== src/Request/Config/Tests.antt =====
-- Runs of the CONFIG.request translator.
use x_fapi.Prelude.{
  ℕ, ◌+◌, ◌-◌, ◌*◌, ◌^◌, ◌≤◌, ◌<◌, ◌≡◌, refl, true, false, List, [], ◌∷◌, ◌++◌, none, some, pos,
  negsuc, ◌==◌, leb, get_or, replicate, arith,
}
use mathlib.Core.Logic.{◌↔◌}
use x_fapi.Wire.Bytes.{le}
use x_fapi.Wire.Cursor.Parser as P
use x_fapi.Wire.Cursor.{rd_init}
use x_fapi.Request.Ul.Corr.Spec.{rounds}
use x_fapi.Request.Config.Values.{
  TddPattern, ssb_masks, slot_table, tdd_period_to_enum, per_sequence, prach_num_root_sequences,
}
use x_fapi.Request.Config.Cell.{CellConfiguration, bitmap_chunks, bitmap_fuel}
use x_fapi.Request.Config.Message.{Local, config_message}
use x_fapi.Request.Config.{alloc, release, ended, config_request, build}
use x_fapi.Request.Config.Spec.{config, bitmap}
use x_fapi.Request.Config.Laws.{config_request_lem}
use x_fapi.Request.Config.Bitmap.{bitmap_chunks_ends}
use x_fapi.Request.Config.Heap.{track, build_balanced}
use x_fapi.Request.Config.Mask.{ssbs, ssb_masks_lem}
use x_fapi.Request.Config.Tdd.{slot_table_lem, tdd_period_to_enum_lem}
use x_fapi.Request.Config.Roots.{num_root_sequences_lem}

abbrev local : Local
local = record { phy_id = 1; local_ip = none; p7_local_port = 0; scan = λ text. text }

-- Numerology 1, cell 7, no slice, a bitmap of 64 bits and no TDD pattern.
abbrev body : List ℕ
body =
    (1 ∷ 0 ∷ 7 ∷ 0 ∷ 1 ∷ [])
    ++ (replicate 107 0 ++ ((0 ∷ 2 ∷ 0 ∷ 20 ∷ 0 ∷ 0 ∷ 64 ∷ 0 ∷ 0 ∷ 0 ∷ []) ++ replicate 78 0))

-- The second allocation fails: the message is freed, and nothing is sent.
config_request_lem_example :
    config_request (λ b. b == 0) local (λ m. pos 0) body 200
    ≡ ended 1 7 (alloc 0 ∷ release 0 ∷ []) none (negsuc 0)
unfolding config bitmap build rounds P.times P.field P.◌>>=◌ P.◌>>◌ le
config_request_lem_example =
    config_request_lem (λ b. b == 0) local (λ m. pos 0) body 200 (omega arith) (omega arith)

bitmap_chunks_ends_example :
    ((bitmap_chunks (bitmap_fuel + 0) 0 (2 ^ 32 - 1) 0 (rd_init [] 0)).0 ≡ none)
    ↔ (2 ^ 32 - 64 < 2 ^ 32 - 1)
bitmap_chunks_ends_example = bitmap_chunks_ends (2 ^ 32 - 1) 0 (rd_init [] 0) (omega arith)

abbrev pattern10 : TddPattern
pattern10 = record { period = 10; dl_slots = 7; dl_symbols = 6; ul_slots = 2; ul_symbols = 4 }

abbrev cell_of : CellConfiguration
cell_of = record {
  carrier = record {
    scs_common = 1;
    pci = 7;
    duplex = 1;
    dl_bandwidth = 100;
    dl_arfcn = 640000;
    dl_k0 = replicate 5 0;
    dl_grid = replicate 5 273;
    num_tx_ant = 4;
    ul_bandwidth = 100;
    ul_arfcn = 640000;
    ul_grid = replicate 5 273;
    num_rx_ant = 4;
  };
  rach = record {
    cfg_index = 98;
    msg1_fdm = 1;
    msg1_freq_start = 0;
    zero_corr_conf = 13;
    is_l839 = 0;
    root_seq = 1;
    msg1_scs = 1;
    restricted_set = 0;
  };
  ssb = record { offset_point_a = 0; period = 20; k_ssb = 0; bitmap = some 1 };
  tail = record { block_power = 0; has_tdd = 1; tdd = pattern10 };
}

-- The third slot fails; block 4 is its predecessor.
build_balanced_example :
    track 4 false (build (λ b. leb b 4) (λ m. pos 0) (config_message local cell_of 1) true 20).0
    ≡ some false
build_balanced_example =
    build_balanced (λ b. leb b 4) (λ m. pos 0) (config_message local cell_of 1) 4 true 20

ssb_masks_lem_example : ssb_masks 5 ≡ 0xA0000000 ∷ 0 ∷ []
unfolding ssbs
ssb_masks_lem_example = ssb_masks_lem 5

slot_table_lem_example : get_or (get_or (slot_table pattern10 0 20) 17 []) 10 2 ≡ 1
slot_table_lem_example =
    slot_table_lem pattern10 20 17 10
      (record { one_between = refl; fits = omega arith; word = omega arith }) (omega arith)
      (omega arith)

tdd_period_to_enum_lem_example : tdd_period_to_enum 10 1 ≡ 6
tdd_period_to_enum_lem_example = tdd_period_to_enum_lem 6 10 1 (omega arith) (omega arith) refl

num_root_sequences_lem_example :
    (64 ≤ prach_num_root_sequences 0 13 * per_sequence 0 13)
    × ((prach_num_root_sequences 0 13 - 1) * per_sequence 0 13 < 64)
num_root_sequences_lem_example = num_root_sequences_lem 0 13

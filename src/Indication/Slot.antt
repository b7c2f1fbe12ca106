-- ===== src/Indication/Slot.antt =====
-- L1_to_L2/P7/slot_indication.c: nFAPI SLOT.indication to OCUDU SLOT.indication.
use x_fapi.Prelude.{ℕ, ◌+◌, ◌*◌, ◌%◌, ◌^◌, ◌≤◌, ◌≡◌, List, ◌∷◌, ◌++◌, Option, none, some, ℤ, arith}
use x_fapi.Prelude.{ltb, if◌then◌else◌, get_or, drop, length, ge→ltb}
use x_fapi.Wire.Bytes.{le_bytes}
use x_fapi.Wire.Writer.{Writer, written, wr_init, wr_u8, wr_u32, wr_u64, ◌⨾◌}
use x_fapi.Wire.Writer.Emits.{seq}
use x_fapi.Wire.Writer.Writes.{wr_u8_lem, wr_u32_lem, wr_u64_lem}
use x_fapi.Indication.Relay.{Delivery, dropped, put, mu_of, slot_count}
use x_fapi.Indication.Relay.Laws.{delivered}

-- The big-endian number at `b[i]` and `b[i + 1]`.
abbrev pub be_at : List ℕ → ℕ → ℕ
be_at b i = (get_or b i 0 * 256 + get_or b (i + 1) 0) % 2 ^ 16

-- slot_point_extended {numerology, count}, then the time in nanoseconds.
unfoldable pub write_slot : ℕ → ℕ → ℕ → Writer → Writer
unfolding ◌⨾◌
write_slot mu count now_ns = wr_u8 mu ⨾ wr_u32 count ⨾ wr_u64 now_ns

-- `scratch` is the 13 bytes of the local `body`, and `now_ns` the bit pattern of the clock's answer.
unfoldable pub slot_indication : ℕ → Option ℤ → List ℕ → ℕ → Option (List ℕ) → ℕ → Delivery
slot_indication header numerology scratch now_ns none len = dropped
slot_indication header numerology scratch now_ns (some msg) len =
    if ltb len (header + 4)
    then dropped
    else let b = drop header msg in
      let mu = mu_of numerology in
      let w = write_slot mu (slot_count mu (be_at b 0) (be_at b 2)) now_ns (wr_init scratch 13) in
      if w.error then dropped else put 0x82 (written w)

-- A SLOT.indication of at least the header and 4 bytes is delivered with type 0x82 as the
-- numerology, the slot count and the time in its 13 bytes, for a buffer of 13 bytes: the encoding
-- never overflows.
pub slot_indication_lem :
    (header : ℕ) (numerology : Option ℤ) (scratch : List ℕ) (now_ns : ℕ) (msg : List ℕ) (len : ℕ)
    → length scratch ≡ 13
    → header + 4 ≤ len
    → slot_indication header numerology scratch now_ns (some msg) len
      ≡ put 0x82 (
          (mu_of numerology % 2 ^ 8)
          ∷ (le_bytes 4 (
                slot_count
                  (mu_of numerology)
                  (be_at (drop header msg) 0)
                  (be_at (drop header msg) 2))
              ++ le_bytes 8 now_ns))
unfolding slot_indication write_slot le_bytes
slot_indication_lem header numerology scratch now_ns msg len room enough =
    let b = drop header msg in
    let mu = mu_of numerology in
    let count = slot_count mu (be_at b 0) (be_at b 2) in
    rw (ge→ltb len (header + 4) enough) (
      delivered 0x82 13 scratch (seq (wr_u8_lem mu) (seq (wr_u32_lem count) (wr_u64_lem now_ns)))
        room (omega arith))

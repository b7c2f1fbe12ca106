-- ===== src/Indication/Uci/Bitset.antt =====
-- `wr_bitset_from_bytes` of uci_indication.c: an OCUDU bounded_bitset from bytes that are packed
-- lowest bit first.
use x_fapi.Prelude.{ℕ, zero, suc, ◌+◌, ◌-◌, ◌*◌, ◌/◌, ◌%◌, ◌^◌, List, [], ◌++◌}
use x_fapi.Prelude.{ltb, if◌then◌else◌, get_or}
use x_fapi.Wire.Bytes.{le_bytes}
use x_fapi.Wire.Writer.{Writer, wr_u32, wr_u64, write_none, ◌⨾◌}
use x_fapi.Wire.Writer.Emits.{Emits, Emits-none, seq}
use x_fapi.Wire.Writer.Writes.{wr_u32_lem, wr_u64_lem}

-- `p[i >> 3] & (1u << (i & 7u))`, as 0 or 1
unfoldable pub payload_bit : List ℕ → ℕ → ℕ
payload_bit p i = get_or p (i / 8) 0 / 2 ^ (i % 8) % 2

-- The bits `base + b … base + chunk_bits - 1` of a chunk; `chunk |= 1ULL << b` for each that is set.
unfoldable pub chunk_from : List ℕ → ℕ → ℕ → ℕ → ℕ → ℕ
unfolding payload_bit
chunk_from p base b zero chunk = chunk
chunk_from p base b (suc left) chunk =
    chunk_from p base (b + 1) left (chunk + payload_bit p (base + b) * 2 ^ b)

unfoldable pub chunk_at : List ℕ → ℕ → ℕ → ℕ
unfolding chunk_from
chunk_at p nbits base = chunk_from p base 0 (if ltb (nbits - base) 64 then nbits - base else 64) 0

-- `for (base = 0; base < nbits; base += 64)`, by the rounds that are left
unfoldable pub write_chunks : List ℕ → ℕ → ℕ → ℕ → Writer → Writer
write_chunks p nbits base zero = write_none
write_chunks p nbits base (suc rounds) =
    wr_u64 (chunk_at p nbits base) ⨾ write_chunks p nbits (base + 64) rounds

unfoldable pub wr_bitset_from_bytes : List ℕ → ℕ → Writer → Writer
unfolding write_chunks ◌⨾◌
wr_bitset_from_bytes p nbits = wr_u32 nbits ⨾ write_chunks p nbits 0 ((nbits + 63) / 64)

-- The chunks as bytes.
unfoldable pub chunk_bytes : List ℕ → ℕ → ℕ → ℕ → List ℕ
chunk_bytes p nbits base zero = []
chunk_bytes p nbits base (suc rounds) =
    le_bytes 8 (chunk_at p nbits base) ++ chunk_bytes p nbits (base + 64) rounds

abbrev pub bitset_bytes : List ℕ → ℕ → List ℕ
bitset_bytes p nbits = le_bytes 4 nbits ++ chunk_bytes p nbits 0 ((nbits + 63) / 64)

write_chunks_lem :
    (p : List ℕ) (nbits base rounds : ℕ)
    → Emits (write_chunks p nbits base rounds) (chunk_bytes p nbits base rounds)
unfolding write_chunks chunk_bytes
write_chunks_lem p nbits base zero = Emits-none
write_chunks_lem p nbits base (suc rounds) =
    seq (wr_u64_lem _) (write_chunks_lem p nbits (base + 64) rounds)

pub wr_bitset_lem :
    (p : List ℕ) (nbits : ℕ) → Emits (wr_bitset_from_bytes p nbits) (bitset_bytes p nbits)
unfolding wr_bitset_from_bytes
wr_bitset_lem p nbits = seq (wr_u32_lem nbits) (write_chunks_lem p nbits 0 ((nbits + 63) / 64))

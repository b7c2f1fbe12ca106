-- ===== src/Wire/Cursor/Reads.antt =====
-- Each read of the two cursors, little-endian and big-endian, against the parser of its field.
use x_fapi.Prelude.{ℕ, zero, suc, suc, ◌%◌, ◌^◌, ◌<◌, ◌≡◌, refl}
use x_fapi.Prelude.{List, [], ◌∷◌}
use x_fapi.Prelude.{arith, get_or, replicate}
use x_fapi.Wire.Bytes.{be, bytes_at}
use x_fapi.Wire.Cursor.{rd_u8, rd_u16, rd_u32}
use x_fapi.Wire.Cursor.{rd_u64, rd_bytes, rd_skip, be_u8, be_u16, be_u32, be_bytes}
use x_fapi.Wire.Cursor.Parser as P
use x_fapi.Wire.Cursor.Parser.{Parser}
use x_fapi.Wire.Cursor.{Rd, rd_list}
use x_fapi.Wire.Cursor.Faithful.{Faithful, bind, ret, Grabs, grab}

first_at : (buf : List ℕ) (off : ℕ) → P.first (bytes_at buf off 1) ≡ get_or buf off 0
first_at [] zero = refl
first_at [] (suc off) = refl
first_at (b ∷ bs) zero = refl
first_at (b ∷ bs) (suc off) = first_at bs off

rd_u8-Grabs : Grabs rd_u8 1 P.first 0
unfolding rd_u8
rd_u8-Grabs = record {
  stuck = λ r e. ground arith;
  enough = λ r v h. rw first_at (ground arith);
  overrun = λ r v h. ground arith;
}

pub rd_u8_lem : Faithful rd_u8 P.byte
rd_u8_lem = grab rd_u8-Grabs

pub rd_u16_lem : Faithful rd_u16 (P.le_uint 2)
unfolding rd_u16
rd_u16_lem = grab {d = 0} (record {
  stuck = λ r e. ground arith;
  enough = λ r v h. ground arith;
  overrun = λ r v h. ground arith;
})

pub rd_u32_lem : Faithful rd_u32 (P.le_uint 4)
unfolding rd_u32
rd_u32_lem = grab {d = 0} (record {
  stuck = λ r e. ground arith;
  enough = λ r v h. ground arith;
  overrun = λ r v h. ground arith;
})

pub rd_u64_lem : Faithful rd_u64 (P.le_uint 8)
unfolding rd_u64
rd_u64_lem = grab {d = 0} (record {
  stuck = λ r e. ground arith;
  enough = λ r v h. ground arith;
  overrun = λ r v h. ground arith;
})

pub rd_bytes_lem : (n : ℕ) → Faithful (rd_bytes n) (P.bytes n)
unfolding rd_bytes
rd_bytes_lem n = grab {d = replicate n 0} (record {
  stuck = λ r e. ground arith;
  enough = λ r v h. ground arith;
  overrun = λ r v h. ground arith;
})

pub rd_skip_lem : (n : ℕ) → Faithful (rd_skip n) (P.skip n)
unfolding rd_skip
rd_skip_lem n = grab {d = tt} (record {
  stuck = λ r e. ground arith;
  enough = λ r v h. ground arith;
  overrun = λ r v h. ground arith;
})

pub be_u8_lem : Faithful be_u8 P.byte
unfolding be_u8
be_u8_lem = grab {d = 0} (record {
  stuck = λ r e. ground arith;
  enough = λ r v h. rw first_at (ground arith);
  overrun = λ r v h. ground arith;
})

pub be_u16-Grabs : Grabs be_u16 2 (λ bs. be 0 bs % 2 ^ 16) 0
unfolding be_u16
be_u16-Grabs = record {
  stuck = λ r e. ground arith;
  enough = λ r v h. ground arith;
  overrun = λ r v h. ground arith;
}

pub be_u16_lem : Faithful be_u16 P.be_u16
be_u16_lem = grab be_u16-Grabs

pub be_u32_lem : Faithful be_u32 P.be_u32
unfolding be_u32
be_u32_lem = grab {d = 0} (record {
  stuck = λ r e. ground arith;
  enough = λ r v h. ground arith;
  overrun = λ r v h. ground arith;
})

-- The `uint32_t` sum of the check does not wrap for a length that a `uint16_t` count asks for.
pub be_bytes_lem : (n : ℕ) → n < 2 ^ 31 → Faithful (be_bytes n) (P.bytes n)
unfolding be_bytes
be_bytes_lem n small = grab {d = []} (record {
  stuck = λ r e. ground arith;
  enough = λ r v h. ground arith;
  overrun = λ r v h. ground arith;
})

pub rd_list_lem :
    {A : Type 0} {m : Rd A} {p : Parser A} (n : ℕ)
    → Faithful m p
    → Faithful (rd_list n m) (P.times n p)
unfolding rd_list
rd_list_lem zero f = unfold P.times in ret []
rd_list_lem {m} {p} (suc n) f =
    rw (P.times-suc n p) (bind f λ a. bind (rd_list_lem n f) λ more. ret (a ∷ more))

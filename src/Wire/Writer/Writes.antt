-- ===== src/Wire/Writer/Writes.antt =====
-- Each write, with the bytes that it stands for.
use x_fapi.Prelude.{ℕ, zero, suc, ◌+◌, ◌%◌, ◌^◌, ◌≤◌, ◌<◌, ◌≡◌, refl, ap, true, false}
use x_fapi.Prelude.{List, [], ◌∷◌, arith, length}
use x_fapi.Wire.Bytes.{le_bytes, length-le_bytes}
use x_fapi.Wire.Writer.{Writer, store, wr_u8, wr_u16, wr_u32, wr_u64, wr_bytes, copied}
use x_fapi.Wire.Writer.Emits.{Emits, Emits_store}

record Stores (m : Writer → Writer) (n : ℕ) (bs : List ℕ) : Type 0 where
  size : length bs ≡ n
  stuck : (w : Writer) → w.error ≡ true → m w ≡ w
  room : (w : Writer) → w.error ≡ false → w.off + n ≤ w.cap → m w ≡ store w bs
  none_left : (w : Writer) → w.cap < w.off + n → (m w).error ≡ true

stores : {m : Writer → Writer} {n : ℕ} {bs : List ℕ} → Stores m n bs → Emits m bs
stores {bs} s = record {
  sticky = s.stuck;
  fits = λ w o h. rw (s.room w o.fine (omega (arith, s.size))) (Emits_store w bs o h);
  over = λ w o h. s.none_left w (omega (arith, s.size));
}

pub wr_u8_lem : (v : ℕ) → Emits (wr_u8 v) ((v % 2 ^ 8) ∷ [])
unfolding wr_u8
wr_u8_lem v = stores {n = 1} (record {
  size = refl;
  stuck = λ w e. ground arith;
  room = λ w e h. ground arith;
  none_left = λ w h. ground arith;
})

pub wr_u16_lem : (v : ℕ) → Emits (wr_u16 v) (le_bytes 2 v)
unfolding wr_u16
wr_u16_lem v = stores {n = 2} (record {
  size = length-le_bytes 2 v;
  stuck = λ w e. ground arith;
  room = λ w e h. ground arith;
  none_left = λ w h. ground arith;
})

pub wr_u32_lem : (v : ℕ) → Emits (wr_u32 v) (le_bytes 4 v)
unfolding wr_u32
wr_u32_lem v = stores {n = 4} (record {
  size = length-le_bytes 4 v;
  stuck = λ w e. ground arith;
  room = λ w e h. ground arith;
  none_left = λ w h. ground arith;
})

pub wr_u64_lem : (v : ℕ) → Emits (wr_u64 v) (le_bytes 8 v)
unfolding wr_u64
wr_u64_lem v = stores {n = 8} (record {
  size = length-le_bytes 8 v;
  stuck = λ w e. ground arith;
  room = λ w e h. ground arith;
  none_left = λ w h. ground arith;
})

length-copied : (n : ℕ) (src : List ℕ) → length (copied n src) ≡ n
length-copied zero src = refl
length-copied (suc n) [] = ap suc (length-copied n [])
length-copied (suc n) (b ∷ bs) = ap suc (length-copied n bs)

-- A copy of exactly the bytes that there are.
pub copied_all : (src : List ℕ) → copied (length src) src ≡ src
copied_all [] = refl
copied_all (b ∷ bs) = ap (λ l. b ∷ l) (copied_all bs)

pub wr_bytes_lem : (src : List ℕ) (n : ℕ) → Emits (wr_bytes src n) (copied n src)
unfolding wr_bytes
wr_bytes_lem src n = stores {n = n} (record {
  size = length-copied n src;
  stuck = λ w e. ground arith;
  room = λ w e h. ground arith;
  none_left = λ w h. ground arith;
})

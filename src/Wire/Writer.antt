-- ===== src/Wire/Writer.antt =====
-- The bounds-checked writer of a message body, `ocudu_wr_t` of ocudu_fapi_wire.h. On an overflow the
-- error is latched and every further write is dropped.
pub mod Emits
pub mod Writes
use x_fapi.Prelude.{ℕ, suc, zero, ◌+◌, ◌%◌, ◌^◌, Bool, true, false, ◌||◌, List, [], ◌∷◌}
use x_fapi.Prelude.{ltb, if◌then◌else◌, take, length}
use x_fapi.Wire.Bytes.{le_bytes, write_at}

-- `buf` is the whole destination, `cap` bytes, of which `off` are written.
pub record Writer : Type 0 where
  pub buf : List ℕ
  pub cap : ℕ
  pub off : ℕ
  pub error : Bool

-- `ocudu_wr_init`
unfoldable pub wr_init : List ℕ → ℕ → Writer
wr_init bytes n = record { buf = bytes; cap = n; off = 0; error = false }

-- What has been written.
abbrev pub written : Writer → List ℕ
written w = take w.off w.buf

-- `ocudu_wr_room`: the sum of two `uint32_t` is taken in 64 bits, where it cannot wrap.
wr_room : ℕ → Writer → Bool × Writer
wr_room n w =
    if w.error || ltb w.cap (w.off + n) then (false, record w { error = true }) else (true, w)

-- `memcpy(w->data + w->off, bs, n); w->off += n`
abbrev store : Writer → List ℕ → Writer
store w bs = record w { buf = write_at w.buf w.off bs; off = (w.off + length bs) % 2 ^ 32 }

-- The writes of 1, 2, 4 and 8 bytes: the low bytes of the value, lowest first.
unfoldable pub wr_u8 : ℕ → Writer → Writer
unfolding wr_room
wr_u8 v w = let (ok, w') = wr_room 1 w in if ok then store w' ((v % 2 ^ 8) ∷ []) else w'

unfoldable pub wr_u16 : ℕ → Writer → Writer
unfolding wr_room
wr_u16 v w = let (ok, w') = wr_room 2 w in if ok then store w' (le_bytes 2 v) else w'

unfoldable pub wr_u32 : ℕ → Writer → Writer
unfolding wr_room
wr_u32 v w = let (ok, w') = wr_room 4 w in if ok then store w' (le_bytes 4 v) else w'

unfoldable pub wr_u64 : ℕ → Writer → Writer
unfolding wr_room
wr_u64 v w = let (ok, w') = wr_room 8 w in if ok then store w' (le_bytes 8 v) else w'

-- The `n` bytes from a pointer on. Past the end of what the source points to, which no caller reads,
-- a byte is 0.
abbrev pub copied : ℕ → List ℕ → List ℕ
copied zero src = []
copied (suc n) [] = 0 ∷ copied n []
copied (suc n) (b ∷ bs) = b ∷ copied n bs

unfoldable pub wr_bytes : List ℕ → ℕ → Writer → Writer
unfolding wr_room
wr_bytes src n w = let (ok, w') = wr_room n w in if ok then store w' (copied n src) else w'

-- One write after another.
infixr 30 ◌⨾◌
unfoldable pub ◌⨾◌ : (Writer → Writer) → (Writer → Writer) → Writer → Writer
(f ⨾ g) w = g (f w)

unfoldable pub write_none : Writer → Writer
write_none w = w

unfoldable pub write_all {ℓ} : {A : Type ℓ} → (A → Writer → Writer) → List A → Writer → Writer
write_all enc [] w = w
write_all enc (a ∷ rest) w = write_all enc rest (enc a w)

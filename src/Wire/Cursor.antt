-- ===== src/Wire/Cursor.antt =====
-- The bounds-checked readers of a message body: `ocudu_rd_t` of ocudu_fapi_wire.h and, with the same
-- fields, the big-endian `be_rd_t` of the nFAPI indications. On an overrun the error is latched and
-- every read returns 0.
pub mod Laws
pub mod Parser
pub mod Faithful
pub mod Reads
use x_fapi.Prelude.{ℕ, zero, suc, ◌+◌, ◌*◌, ◌/◌, ◌%◌, ◌^◌, Bool, true, false, ◌||◌, List}
use x_fapi.Prelude.{ltb, if◌then◌else◌, replicate, get_or, [], ◌∷◌}
use x_fapi.Wire.Bytes.{le, be, bytes_at}

pub record Cursor : Type 0 where
  pub buf : List ℕ
  pub len : ℕ
  pub off : ℕ
  pub error : Bool

-- A read: a value, and the cursor behind it.
abbrev pub Rd {ℓ} : Type ℓ → Type ℓ
Rd A = Cursor → A × Cursor

abbrev pub return {ℓ} : {A : Type ℓ} → A → Rd A
return a r = (a, r)

infixl 5 ◌>>=◌ ◌>>◌
unfoldable pub ◌>>=◌ {ℓ κ} : {A : Type ℓ} {B : Type κ} → Rd A → (A → Rd B) → Rd B
(m >>= f) r = let (a, r') = m r in f a r'

unfoldable pub ◌>>◌ {ℓ κ} : {A : Type ℓ} {B : Type κ} → Rd A → Rd B → Rd B
(m >> n) r = let (a, r') = m r in n r'

-- `ocudu_rd_init`
unfoldable pub rd_init : List ℕ → ℕ → Cursor
rd_init bytes n = record { buf = bytes; len = n; off = 0; error = false }

-- `ocudu_rd_have`: the sum of two `uint32_t` is taken in 64 bits, where it cannot wrap.
pub rd_have : ℕ → Rd Bool
rd_have n r =
    if r.error || ltb r.len (r.off + n) then (false, record r { error = true }) else (true, r)

abbrev pub advance : Cursor → ℕ → Cursor
advance r n = record r { off = (r.off + n) % 2 ^ 32 }

-- The reads of 1, 2, 4 and 8 bytes: `memcpy` into a little-endian integer.
unfoldable pub rd_u8 : Rd ℕ
unfolding rd_have
rd_u8 r =
    let (ok, r') = rd_have 1 r in if ok then (get_or r'.buf r'.off 0, advance r' 1) else (0, r')

unfoldable pub rd_u16 : Rd ℕ
unfolding rd_have
rd_u16 r =
    let (ok, r') = rd_have 2 r in
    if ok then (le (bytes_at r'.buf r'.off 2), advance r' 2) else (0, r')

unfoldable pub rd_u32 : Rd ℕ
unfolding rd_have
rd_u32 r =
    let (ok, r') = rd_have 4 r in
    if ok then (le (bytes_at r'.buf r'.off 4), advance r' 4) else (0, r')

unfoldable pub rd_u64 : Rd ℕ
unfolding rd_have
rd_u64 r =
    let (ok, r') = rd_have 8 r in
    if ok then (le (bytes_at r'.buf r'.off 8), advance r' 8) else (0, r')

-- On an overrun the destination is zeroed.
unfoldable pub rd_bytes : ℕ → Rd (List ℕ)
unfolding rd_have
rd_bytes n r =
    let (ok, r') = rd_have n r in
    if ok then (bytes_at r'.buf r'.off n, advance r' n) else (replicate n 0, r')

unfoldable pub rd_skip : ℕ → Rd (Unit {0})
unfolding rd_have
rd_skip n r = let (ok, r') = rd_have n r in if ok then (tt, advance r' n) else (tt, r')

-- `ocudu_rd_skip_bitset`; the products and the sum are `uint32_t`.
unfoldable pub rd_skip_bitset : Rd (Unit {0})
unfolding ◌>>=◌ rd_u32 rd_skip
rd_skip_bitset = do nbits ← rd_u32; rd_skip ((nbits + 63) % 2 ^ 32 / 64 * 8 % 2 ^ 32)

unfoldable pub rd_skip_sv_u8 : Rd (Unit {0})
unfolding ◌>>=◌ rd_u16 rd_skip
rd_skip_sv_u8 = do n ← rd_u16; rd_skip n

unfoldable pub rd_skip_sv_u16 : Rd (Unit {0})
unfolding ◌>>=◌ rd_u16 rd_skip
rd_skip_sv_u16 = do n ← rd_u16; rd_skip (n * 2)

-- The big-endian reads of the nFAPI side. `r->off + n` is a `uint32_t` sum.
abbrev pub be_short : ℕ → Cursor → Bool
be_short n r = r.error || ltb r.len ((r.off + n) % 2 ^ 32)

unfoldable pub be_u8 : Rd ℕ
be_u8 r =
    if be_short 1 r then (0, record r { error = true }) else (get_or r.buf r.off 0, advance r 1)

unfoldable pub be_u16 : Rd ℕ
be_u16 r =
    if be_short 2 r
    then (0, record r { error = true })
    else (be 0 (bytes_at r.buf r.off 2) % 2 ^ 16, advance r 2)

unfoldable pub be_u32 : Rd ℕ
be_u32 r =
    if be_short 4 r
    then (0, record r { error = true })
    else (be 0 (bytes_at r.buf r.off 4), advance r 4)

-- `be_bytes` returns a pointer: the bytes that it points to, none for NULL (an empty list).
unfoldable pub be_bytes : ℕ → Rd (List ℕ)
be_bytes n r =
    if be_short n r then ([], record r { error = true }) else (bytes_at r.buf r.off n, advance r n)

-- A loop of `n` rounds.
unfoldable pub rd_times : ℕ → Rd (Unit {0}) → Rd (Unit {0})
unfolding ◌>>◌
rd_times zero m = return tt
rd_times (suc n) m = m >> rd_times n m

-- A loop that collects the values of `n` rounds.
unfoldable pub rd_list {ℓ} : {A : Type ℓ} → ℕ → Rd A → Rd (List A)
unfolding ◌>>=◌
rd_list zero m = return []
rd_list (suc n) m = m >>= λ a. (rd_list n m >>= λ more. return (a ∷ more))

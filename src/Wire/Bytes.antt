-- ===== src/Wire/Bytes.antt =====
-- Byte sequences in memory: what `memcpy` between a buffer and an integer reads and writes on the
-- little-endian hosts that the wire format is defined for.
use x_fapi.Prelude.{ℕ, zero, suc, ◌+◌, ◌*◌, ◌/◌, ◌%◌, ◌^◌, ◌≤◌, ◌<◌, ◌≡◌, refl, ap, ◌∙◌}
use x_fapi.Prelude.{List, [], ◌∷◌, ◌++◌, append_assoc, arith}
use x_fapi.Prelude.{length, take, drop, length-append, length-take, length-drop}
use x_fapi.Prelude.{take-append_self}
use native.Mathlib.Nat.{pow-suc}

-- The number that a byte sequence stands for, lowest byte first, and highest byte first.
unfoldable pub le : List ℕ → ℕ
le [] = 0
le (b ∷ bs) = b + 256 * le bs

unfoldable pub be : ℕ → List ℕ → ℕ
be acc [] = acc
be acc (b ∷ bs) = be (acc * 256 + b) bs

-- The `n` low bytes of a number, lowest first, and highest first.
unfoldable pub le_bytes : ℕ → ℕ → List ℕ
le_bytes zero v = []
le_bytes (suc n) v = (v % 256) ∷ le_bytes n (v / 256)

-- `memcpy(dst, buf + off, n)`
abbrev pub bytes_at : List ℕ → ℕ → ℕ → List ℕ
bytes_at buf off n = take n (drop off buf)

-- `memcpy(buf + off, bs, n)`, with `bs` the `n` bytes copied
abbrev pub write_at : List ℕ → ℕ → List ℕ → List ℕ
write_at buf off bs = take off buf ++ (bs ++ drop (off + length bs) buf)

pub length-le_bytes : (n v : ℕ) → length (le_bytes n v) ≡ n
unfolding le_bytes
length-le_bytes zero v = refl
length-le_bytes (suc n) v = ap suc (length-le_bytes n (v / 256))

-- Writing a number and reading it back keeps its `8 * n` low bits.
pub le-le_bytes : (n v : ℕ) → v < 256 ^ n → le (le_bytes n v) ≡ v
unfolding le le_bytes
le-le_bytes zero v h = omega arith
le-le_bytes (suc n) v h = rw (le-le_bytes n (v / 256) (omega (arith, pow-suc 256 n))) (omega arith)

pub length-write_at :
    (buf : List ℕ) (off : ℕ) (bs : List ℕ)
    → off + length bs ≤ length buf
    → length (write_at buf off bs) ≡ length buf
length-write_at buf off bs h = omega (
  arith,
  length-append (take off buf) (bs ++ drop (off + length bs) buf),
  length-append bs (drop (off + length bs) buf),
  length-take off buf,
  length-drop (off + length bs) buf,
)

-- What lies before the place written stays.
pub take-write_at :
    (buf : List ℕ) (off : ℕ) (bs : List ℕ)
    → off + length bs ≤ length buf
    → take (off + length bs) (write_at buf off bs) ≡ take off buf ++ bs
take-write_at buf off bs h = rw (← append_assoc (take off buf) bs (drop (off + length bs) buf)) (
    ap (λ k. take k ((take off buf ++ bs) ++ drop (off + length bs) buf)) len
    ∙ take-append_self (take off buf ++ bs) (drop (off + length bs) buf))
  where
    len : off + length bs ≡ length (take off buf ++ bs)
    len = omega (arith, length-append (take off buf) bs, length-take off buf)

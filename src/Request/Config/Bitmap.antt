-- ===== src/Request/Config/Bitmap.antt =====
-- The loop over the chunks of the SSB bitmap: when it ends, and what it reads.
use x_fapi.Prelude.{
  ℕ, zero, suc, ◌+◌, ◌-◌, ◌*◌, ◌/◌, ◌%◌, ◌^◌, ◌≤◌, ◌<◌, ◌≡◌, refl, ap, ◌∙◌, false, List, ◌∷◌,
  Option, none, some, ◌==◌, ltb, leb, if◌then◌else◌, if_yes, if_no, get_or, arith, inl, inr,
  Bool-cases, ltb→lt, ltb→ge, lt→ltb, ge→ltb,
}
use mathlib.Core.Path.{fun_ext}
use mathlib.Core.Logic.{◌↔◌}
use x_fapi.Wire.Cursor.{Cursor, ◌>>=◌, return, rd_u64, rd_list}
use x_fapi.Wire.Cursor.Faithful.{Faithful, bind, ret}
use x_fapi.Wire.Cursor.Reads.{rd_u64_lem, rd_list_lem}
use x_fapi.Request.Config.Cell.{bitmap_chunks, bitmap_fuel, read_bitmap, ended_at}
use x_fapi.Request.Config.Spec.{bitmap}

-- The chunks left, as a list of reads: the first of all is kept.
abbrev kept : ℕ → ℕ → List ℕ × Cursor → Option ℕ × Cursor
kept b bits out = (some (if b == 0 then get_or out.0 0 bits else bits), out.1)

kept-next :
    (b chunk bits : ℕ) (out : List ℕ × Cursor)
    → kept (b + 64) (if b == 0 then chunk else bits) out ≡ kept b bits (chunk ∷ out.0, out.1)
kept-next b chunk bits out =
    let later : (b + 64 == 0) ≡ false = ground arith in
    ap (λ (o : ℕ). (some o, out.1)) (if_no _ _ later)

-- With `k` rounds left and fuel for them.
chunks_lem :
    (k more b nbits bits : ℕ) (r : Cursor)
    → nbits ≤ 2 ^ 32 - 64
    → nbits ≤ b + 64 * k
    → b + 64 * k < nbits + 64
    → bitmap_chunks (suc (k + more)) b nbits bits r ≡ kept b bits (rd_list k rd_u64 r)
unfolding bitmap_chunks rd_list ◌>>=◌
chunks_lem zero more b nbits bits r small below above =
    if_no _ _ (ge→ltb b nbits (omega arith)) ∙ ground arith
chunks_lem (suc k) more b nbits bits r small below above =
    let goes : b < nbits = omega arith in
    let next : (b + 64) % 2 ^ 32 ≡ b + 64 = omega arith in
    let fuel : suc k + more ≡ suc (k + more) = omega arith in
    let bits' : ℕ = if b == 0 then (rd_u64 r).0 else bits in
    if_yes _ _ (lt→ltb b nbits goes)
    ∙ ap (λ i. bitmap_chunks (suc k + more) i nbits bits' (rd_u64 r).1) next
    ∙ ap (λ f. bitmap_chunks f (b + 64) nbits bits' (rd_u64 r).1) fuel
    ∙ chunks_lem k more (b + 64) nbits bits' (rd_u64 r).1 small (omega arith) (omega arith)
    ∙ kept-next b (rd_u64 r).0 bits (rd_list k rd_u64 (rd_u64 r).1)

-- Above the last multiple of 64 the counter wraps to 0 before it gets to the number of bits.
endless :
    (fuel b nbits bits : ℕ) (r : Cursor)
    → 2 ^ 32 - 64 < nbits
    → b ≤ 2 ^ 32 - 64
    → b % 64 ≡ 0
    → (bitmap_chunks fuel b nbits bits r).0 ≡ none
unfolding bitmap_chunks
endless zero b nbits bits r big low aligned = refl
endless (suc fuel) b nbits bits r big low aligned =
    ap (λ (o : Option ℕ × Cursor). o.0) (if_yes _ _ (lt→ltb b nbits (omega arith)))
    ∙ endless fuel ((b + 64) % 2 ^ 32) nbits (if b == 0 then (rd_u64 r).0 else bits) (rd_u64 r).1
        big (omega arith) (omega arith)

ends :
    (nbits extra : ℕ) (r : Cursor)
    → nbits ≤ 2 ^ 32 - 64
    → bitmap_chunks (bitmap_fuel + extra) 0 nbits 0 r
      ≡ kept 0 0 (rd_list ((nbits + 63) / 64) rd_u64 r)
ends nbits extra r small =
    let k : ℕ = (nbits + 63) / 64 in
    let fuel : 2 ^ 26 + 1 + extra ≡ suc (k + (2 ^ 26 - k + extra)) = omega arith in
    ap (λ f. bitmap_chunks f 0 nbits 0 r) fuel
    ∙ chunks_lem k (2 ^ 26 - k + extra) 0 nbits 0 r small (omega arith) (omega arith)

decided :
    (nbits : ℕ) {o : Option ℕ} (small : nbits ≤ 2 ^ 32 - 64) (v : ℕ)
    → o ≡ some v
    → (o ≡ none) ↔ (2 ^ 32 - 64 < nbits)
decided nbits small v e = ((λ n. absurd (cc)), λ big. absurd (omega arith))

-- The loop over the chunks of the SSB bitmap is still running after 2^26 + 1 tests and any number more,
-- whatever the body holds, if and only if the number of bits, a uint32_t, is above 2^32 - 64; below
-- that it has ended.
pub bitmap_chunks_ends :
    (nbits extra : ℕ) (r : Cursor)
    → nbits < 2 ^ 32
    → ((bitmap_chunks (bitmap_fuel + extra) 0 nbits 0 r).0 ≡ none) ↔ (2 ^ 32 - 64 < nbits)
bitmap_chunks_ends nbits extra r word = elim (Bool-cases (ltb (2 ^ 32 - 64) nbits)) [
  | inl big ↦
      let above : 2 ^ 32 - 64 < nbits = ltb→lt _ _ big in
      (λ n. above, λ a. endless (bitmap_fuel + extra) 0 nbits 0 r above (omega arith) (omega arith))
  | inr small ↦
      let low : nbits ≤ 2 ^ 32 - 64 = ltb→ge _ _ small in
      decided nbits low _ (ap (λ (o : Option ℕ × Cursor). o.0) (ends nbits extra r low))
]

read_small :
    (nbits : ℕ) (r : Cursor)
    → nbits ≤ 2 ^ 32 - 64
    → read_bitmap nbits r ≡ kept 0 0 (rd_list ((nbits + 63) / 64) rd_u64 r)
unfolding read_bitmap
read_small nbits r small =
    let none_more : 2 ^ 26 + 1 ≡ 2 ^ 26 + 1 + 0 = omega arith in
    ap (λ f. ended_at r (bitmap_chunks f 0 nbits 0 r)) none_more
    ∙ ap (ended_at r) (ends nbits 0 r small)

read_big : (nbits : ℕ) → 2 ^ 32 - 64 < nbits → read_bitmap nbits ≡ return none
unfolding read_bitmap
read_big nbits big = fun_ext (λ r.
    still r (bitmap_chunks bitmap_fuel 0 nbits 0 r)
      (endless bitmap_fuel 0 nbits 0 r big (omega arith) refl))
  where
    still : (r : Cursor) (o : Option ℕ × Cursor) → o.0 ≡ none → ended_at r o ≡ (none, r)
    still r (none, r') e = refl
    still r (some v, r') e = absurd (cc)

as_list :
    (nbits : ℕ)
    → nbits ≤ 2 ^ 32 - 64
    → read_bitmap nbits
      ≡ (rd_list ((nbits + 63) / 64) rd_u64 >>= λ chunks. return (some (get_or chunks 0 0)))
unfolding ◌>>=◌
as_list nbits small = fun_ext (λ r. read_small nbits r small)

-- The bitmap that is read is the first chunk of those that the parser finds.
pub read_bitmap_lem : (nbits : ℕ) → Faithful (read_bitmap nbits) (bitmap nbits)
unfolding bitmap
read_bitmap_lem nbits = elim (Bool-cases (leb nbits (2 ^ 32 - 64))) [
  | inl small ↦
      rw (small, as_list nbits (ground arith))
        (bind (rd_list_lem ((nbits + 63) / 64) rd_u64_lem) λ chunks. ret _)
  | inr big ↦ rw (big, read_big nbits (ground arith)) (ret none)
]

-- ===== src/Wire/Cursor/Laws.antt =====
-- The cursor's invariant, and what one read does to the bytes still to be read.
use x_fapi.Prelude.{ℕ, ◌+◌, ◌-◌, ◌%◌, ◌^◌, ◌≤◌, ◌<◌, ◌≡◌, sym, ap, ◌∙◌, false, List}
use x_fapi.Prelude.{
  arith, length, take, drop, length-take, length-drop, drop-take, drop-drop, take-take_le,
}
use x_fapi.Wire.Bytes.{bytes_at}
use x_fapi.Wire.Cursor.{Cursor, advance}

-- No error so far, the position inside the body, and the body inside its buffer.
pub record IsLive (r : Cursor) : Type 0 where
  pub fine : r.error ≡ false
  pub inside : r.off ≤ r.len
  pub backed : r.len ≤ length r.buf
  pub short : r.len < 2 ^ 31

-- The bytes still to be read.
abbrev pub view : Cursor → List ℕ
view r = take (r.len - r.off) (drop r.off r.buf)

module _ {r : Cursor} (v : IsLive r) where
  pub length-view : length (view r) ≡ r.len - r.off
  length-view = omega (
    arith,
    v.inside,
    v.backed,
    length-take (r.len - r.off) (drop r.off r.buf),
    length-drop r.off r.buf,
  )

  pub take-view : (n : ℕ) → r.off + n ≤ r.len → take n (view r) ≡ bytes_at r.buf r.off n
  take-view n h = take-take_le n (r.len - r.off) (drop r.off r.buf) (omega arith)

  pub advance_lem : (n : ℕ) → r.off + n ≤ r.len → (r.off + n) % 2 ^ 32 ≡ r.off + n
  advance_lem n h = omega (arith, v.short)

  pub advance-IsLive : (n : ℕ) → r.off + n ≤ r.len → IsLive (advance r n)
  advance-IsLive n h = record {
    fine = v.fine;
    inside = omega (arith, advance_lem n h);
    backed = v.backed;
    short = v.short;
  }

  pub view-advance : (n : ℕ) → r.off + n ≤ r.len → view (advance r n) ≡ drop n (view r)
  view-advance n h = rw (advance_lem n h) (
      sym (
        drop-take n (r.len - r.off) (drop r.off r.buf)
        ∙ ap (take (r.len - r.off - n)) (drop-drop n r.off r.buf)
        ∙ (let e : r.len - r.off - n ≡ r.len - (r.off + n) = omega arith in
            ap (λ k. take k (drop (r.off + n) r.buf)) e)))

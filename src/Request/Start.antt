-- ===== src/Request/Start.antt =====
-- The frame of a request: the validity of the slot point, the head, and the body behind it.
use x_fapi.Prelude.{ℕ, ◌-◌, ◌^◌, ◌≤◌, ◌<◌, ◌≡◌, refl, ap, ap₂, ◌∙◌, List}
use x_fapi.Prelude.{
  Option, none, some, ◌==◌, if◌then◌else◌, if_yes, if_no, length, take, pos, negsuc, arith,
}
use x_fapi.Wire.Cursor.{Cursor, Rd, rd_init, rd_u8}
use x_fapi.Wire.Cursor.Parser as P
use x_fapi.Wire.Cursor.Parser.{Parser}
use x_fapi.Wire.Cursor.Laws.{IsLive, view, length-view}
use x_fapi.Wire.Cursor.Faithful.{Faithful, Agrees}
use x_fapi.Wire.Cursor.Reads.{rd_u8_lem}
use x_fapi.Request.{Outcome, returned}

pub rd_init-IsLive :
    (body : List ℕ) (n : ℕ) → n ≤ length body → n < 2 ^ 31 → IsLive (rd_init body n)
unfolding rd_init
rd_init-IsLive body n backed short = record {
  fine = refl;
  inside = omega arith;
  backed = backed;
  short = short;
}

pub view-rd_init : (body : List ℕ) (n : ℕ) → view (rd_init body n) ≡ take n body
unfolding rd_init
view-rd_init body n = let e : n - 0 ≡ n = omega arith in ap (λ k. take k body) e

nothing_reads_0 : (r : Cursor) → IsLive r → P.byte (view r) ≡ none → (rd_u8 r).0 ≡ 0
unfolding P.field rd_u8
nothing_reads_0 r v e = ground (arith, length-view v, v.fine)

module _ {H O : Type 0} {rh : Rd H} {ph : Parser H} (fh : Faithful rh ph)
    (run : H → Cursor → Outcome O) (parse : H → List ℕ → Outcome O)
    (same : (h : H) (r : Cursor) → IsLive r → run h r ≡ parse h (view r)) where
  abbrev headed : H × Cursor → Outcome O
  headed (h, r') = if r'.error then returned (negsuc 0) else run h r'

  headed_lem :
      (r : Cursor) (got : H × Cursor) (o : Option (H × List ℕ))
      → Agrees r got o
      → headed got ≡ elim o [ none ↦ returned (negsuc 0) | some (h, rest) ↦ parse h rest ]
  headed_lem r got none (e, w) = if_yes _ _ e
  headed_lem r got (some (h, rest)) (e, live, ve, w) =
      if_no _ _ live.fine ∙ same got.0 got.1 live ∙ ap₂ (λ x l. parse x l) e ve

  abbrev valid_then : Option (ℕ × List ℕ) → Outcome O
  valid_then o = elim o [
    | none ↦ returned (pos 0)
    | some (valid, rest) ↦
        if valid == 0
        then returned (pos 0)
        else elim (ph rest) [ none ↦ returned (negsuc 0) | some (h, bs) ↦ parse h bs ]
  ]

  started :
      (r : Cursor) (got : ℕ × Cursor) (o : Option (ℕ × List ℕ))
      → Agrees r got o
      → (o ≡ none → got.0 ≡ 0)
      → (if got.0 == 0 then returned (pos 0) else headed (rh got.1)) ≡ valid_then o
  started r got none a z = rw (z refl) refl
  started r got (some (valid, rest)) (e, live, ve, w) z =
      rw (e, ← ve)
        (ap (λ (o : Outcome O). if valid == 0 then returned (pos 0) else o)
          (headed_lem got.1 (rh got.1) (ph (view got.1)) (fh.agrees got.1 live)))

  pub request_lem :
      (body : List ℕ) (body_len : ℕ)
      → body_len ≤ length body
      → body_len < 2 ^ 31
      → (let (valid, r) = rd_u8 (rd_init body body_len) in
          if valid == 0 then returned (pos 0) else headed (rh r))
        ≡ valid_then (P.byte (take body_len body))
  request_lem body body_len backed short =
      started r (rd_u8 r) (P.byte (view r)) (rd_u8_lem.agrees r live) (nothing_reads_0 r live)
      ∙ ap (λ bs. valid_then (P.byte bs)) (view-rd_init body body_len)
    where
      r : Cursor
      r = rd_init body body_len

      live : IsLive r
      live = rd_init-IsLive body body_len backed short

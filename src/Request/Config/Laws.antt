-- ===== src/Request/Config/Laws.antt =====
-- The CONFIG.request translator against its specification.
use x_fapi.Prelude.{
  ℕ, zero, suc, ◌^◌, ◌≤◌, ◌<◌, ◌≡◌, ap, ◌∙◌, sym, subst, Bool, false, List, Option, none, some, ℤ,
  ◌==◌, if◌then◌else◌, if_yes, if_no, length, take,
}
use x_fapi.Wire.Cursor.{Cursor, ◌>>◌, rd_init}
use x_fapi.Wire.Cursor.Parser as P
use x_fapi.Wire.Cursor.Laws.{view}
use x_fapi.Wire.Cursor.Faithful.{Faithful, Agrees, bind, then_do, ret, branch}
use x_fapi.Wire.Cursor.Reads.{
  rd_u8_lem, rd_u16_lem, rd_u32_lem, rd_u64_lem, rd_bytes_lem, rd_skip_lem, rd_list_lem,
}
use x_fapi.Request.Start.{rd_init-IsLive, view-rd_init}
use x_fapi.Request.Ul.Corr.Spec.{rounds}
use x_fapi.Request.Config.Cell.{
  CellConfiguration, read_carrier, read_slice, read_slices, read_rach, read_ssb, read_period2,
  read_pattern2, read_tdd, read_tail, read_tail_if, read_cell,
}
use x_fapi.Request.Config.Message.{ConfigReq, Local}
use x_fapi.Request.Config.{ConfigOutcome, refused, configure, config_request}
use x_fapi.Request.Config.Spec.{
  carrier, slice, rach, ssb, period2, pattern2, tdd, tail, tail_if, cell, config,
}
use x_fapi.Request.Config.Bitmap.{read_bitmap_lem}

read_carrier_lem : Faithful read_carrier carrier
unfolding read_carrier carrier
read_carrier_lem = bind rd_u8_lem λ scs. then_do rd_u8_lem (
    bind rd_u16_lem λ pci. bind rd_u8_lem λ duplex. bind rd_u16_lem λ dlb. bind rd_u32_lem λ dla.
      bind (rd_list_lem 5 rd_u16_lem) λ k0. bind (rd_list_lem 5 rd_u16_lem) λ grid.
        bind rd_u16_lem λ tx. bind rd_u16_lem λ ulb. bind rd_u32_lem λ ula.
          then_do (rd_list_lem 5 rd_u16_lem) (
            bind (rd_list_lem 5 rd_u16_lem) λ ulg. bind rd_u16_lem λ rx.
              then_do rd_u8_lem
                (then_do rd_u8_lem (then_do rd_u8_lem (then_do rd_u8_lem (ret _))))))

read_slice_lem : Faithful read_slice slice
unfolding read_slice slice
read_slice_lem = bind rd_u32_lem λ nsag. then_do (rd_skip_lem nsag) (
    then_do rd_u8_lem (bind rd_u8_lem λ bi. branch (bi == 0) (ret tt) (then_do rd_u8_lem (ret tt))))

goes_on :
    (n : ℕ) (r : Cursor) → r.error ≡ false → read_slices (suc n) r ≡ (read_slice >> read_slices n) r
unfolding read_slices ◌>>◌
goes_on n r e = if_no _ _ e

-- The loop's test of the error changes nothing: the reads of a failed cursor stay.
read_slices_lem : (n : ℕ) → Faithful (read_slices n) (rounds n slice)
unfolding read_slices rounds
read_slices_lem zero = ret tt
read_slices_lem (suc n) = record {
  sticky = λ r e. ap (λ (o : Unit {0} × Cursor). o.1) (if_yes _ _ e);
  agrees = λ r v.
      subst (λ (o : Unit {0} × Cursor). Agrees r o ((P.◌>>◌ slice (rounds n slice)) (view r)))
        (sym (goes_on n r v.fine)) ((then_do read_slice_lem (read_slices_lem n)).agrees r v);
}

read_rach_lem : Faithful read_rach rach
unfolding read_rach rach
read_rach_lem = bind rd_u8_lem λ cfg. then_do rd_u32_lem (
    bind rd_u32_lem λ fdm. bind rd_u32_lem λ start. bind rd_u16_lem λ zcc. then_do rd_u32_lem (
      then_do rd_u8_lem (
        then_do rd_u8_lem (
          then_do rd_u32_lem (
            then_do rd_u64_lem (
              bind rd_u8_lem λ l839. bind rd_u32_lem λ root. bind rd_u8_lem λ scs.
                bind rd_u8_lem λ set. then_do rd_u8_lem (
                  then_do rd_u8_lem (
                    then_do rd_u8_lem
                      (bind rd_u32_lem λ n. then_do (read_slices_lem n) (ret _))))))))))

read_ssb_lem : Faithful read_ssb ssb
unfolding read_ssb ssb
read_ssb_lem = then_do rd_u8_lem (
    bind rd_u16_lem λ off. bind rd_u16_lem λ per.
      bind rd_u8_lem λ k. bind rd_u32_lem λ nbits. bind (read_bitmap_lem nbits) λ bits. ret _)

read_period2_lem : Faithful read_period2 period2
unfolding read_period2 period2
read_period2_lem =
    bind rd_u32_lem λ p2.
      then_do rd_u32_lem (then_do rd_u32_lem (then_do rd_u32_lem (then_do rd_u32_lem (ret p2))))

read_pattern2_lem : Faithful read_pattern2 pattern2
unfolding read_pattern2 pattern2
read_pattern2_lem = bind rd_u8_lem λ present. branch (present == 0) (ret 0) read_period2_lem

read_tdd_lem : Faithful read_tdd tdd
unfolding read_tdd tdd
read_tdd_lem = then_do rd_u8_lem (
    bind rd_u32_lem λ period. bind rd_u32_lem λ dl.
      bind rd_u32_lem
        λ dls. bind rd_u32_lem λ ul. bind rd_u32_lem λ uls. bind read_pattern2_lem λ p2. ret _)

read_tail_lem : Faithful read_tail tail
unfolding read_tail tail
read_tail_lem = then_do (rd_bytes_lem 64) (
    then_do rd_u8_lem (
      bind rd_u32_lem λ power.
        bind rd_u8_lem λ has. bind (branch (has == 0) (ret _) read_tdd_lem) λ pattern. ret _))

read_tail_if_lem : (o : Option ℕ) → Faithful (read_tail_if o) (tail_if o)
unfolding read_tail_if tail_if
read_tail_if_lem none = ret _
read_tail_if_lem (some bits) = read_tail_lem

read_cell_lem : Faithful read_cell cell
unfolding read_cell cell
read_cell_lem =
    bind read_carrier_lem λ c.
      bind read_rach_lem λ p. bind read_ssb_lem λ s. bind (read_tail_if_lem s.bitmap) λ t. ret _

module _ (mem : ℕ → Bool) (l : Local) (send : ConfigReq → ℤ) where
  abbrev outcome : CellConfiguration × Cursor → ConfigOutcome
  outcome (c, r) = if r.error then refused else configure mem l send c

  outcome_lem :
      (r : Cursor) (got : CellConfiguration × Cursor) (o : Option (CellConfiguration × List ℕ))
      → Agrees r got o
      → outcome got ≡ elim o [ none ↦ refused | some (c, rest) ↦ configure mem l send c ]
  outcome_lem r got none (e, w) = if_yes _ _ e
  outcome_lem r got (some (c, rest)) (e, live, ve, w) =
      if_no _ _ live.fine ∙ ap (configure mem l send) e

  -- A CONFIG.request whose cell configuration does not parse inside the body is refused with -1 and
  -- nothing changed; one that announces more than 2^32 - 64 SSB bits and parses up to there never
  -- returns; any other, whatever stands behind the configuration, is built, sent and answered as the
  -- configuration that the parser finds in the body says, for a body length that is at most the bytes
  -- there are and below 2^31.
  pub config_request_lem :
      (body : List ℕ) (body_len : ℕ)
      → body_len ≤ length body
      → body_len < 2 ^ 31
      → config_request mem l send body body_len ≡ config mem l send (take body_len body)
  unfolding config_request config
  config_request_lem body body_len backed short =
      outcome_lem r (read_cell r) (cell (view r))
        (read_cell_lem.agrees r (rd_init-IsLive body body_len backed short))
      ∙ ap (λ bs. elim (cell bs) [ none ↦ refused | some (c, rest) ↦ configure mem l send c ])
          (view-rd_init body body_len)
    where
      r : Cursor
      r = rd_init body body_len

-- ===== src/Request/Dl/Laws.antt =====
-- The DL_TTI translator against its specification.
use x_fapi.Prelude.{
  ℕ, zero, suc, ◌-◌, ◌^◌, ◌≤◌, ◌<◌, ◌≡◌, refl, sym, ap, ◌⊎◌, inl, inr, ◌∙◌, Bool, true, false, ◌&&◌,
  not, List, [], ◌∷◌, ◌++◌,
}
use x_fapi.Prelude.{
  Option, none, some, ltb, ◌==◌, if◌then◌else◌, if_yes, length, take, map, take-map, take-nil, ℤ,
  negsuc, arith,
}
use x_fapi.Wire.Cursor.{Cursor}
use x_fapi.Wire.Cursor.Parser as P
use x_fapi.Wire.Cursor.Laws.{IsLive, view, length-view}
use x_fapi.Wire.Cursor.Faithful.{Faithful, bind, then_do, ret}
use x_fapi.Wire.Cursor.Reads.{rd_u8_lem, rd_u16_lem, rd_u32_lem}
use x_fapi.Request.{fault, returned, send_by, slots_per_frame}
use x_fapi.Request.Start.{request_lem}
use x_fapi.Request.Gather.{gather, add_some, folded, picked, Ran, gather_lem, folded-picked}
use x_fapi.Request.Ul.{emit, read_count}
use x_fapi.Request.Ul.Room.{emit-take}
use x_fapi.Request.Ul.Corr.Laws.{rd_times_lem}
use x_fapi.Request.Dl.Ssb.Spec.{read_ssb_lem, walk_prs_lem}
use x_fapi.Request.Dl.Pdcch.Spec.{walk_pdcch_lem}
use x_fapi.Request.Dl.Pdsch.Spec.{walk_pdsch_lem}
use x_fapi.Request.Dl.Csi.Spec.{walk_csi_rs_lem}
use x_fapi.Request.Dl.{
  DlHead, DlPdu, DlTti, DlConfig, Captures, no_captures, capture, emitted, dl_message, to_ssb,
  to_pdcch, to_pdsch, to_csi, read_dl_head, read_dl_pdu, dl_pdus, dl_tti_request,
}
use x_fapi.Request.Dl.Spec.{
  dl_head, dl_pdu, ssb_of, pdcch_of, pdsch_of, csi_of, sorted, dl_sent, dl_body, dl_request,
}

read_dl_head_lem : Faithful read_dl_head dl_head
unfolding read_dl_head dl_head read_count
read_dl_head_lem = bind rd_u8_lem λ mu. bind rd_u32_lem λ count.
    then_do (rd_times_lem 6 (then_do rd_u16_lem (ret tt))) (bind rd_u16_lem λ total_pdus. ret _)

read_dl_pdu_lem : (dci_len : ℕ) → Faithful (read_dl_pdu dci_len) (dl_pdu dci_len)
unfolding read_dl_pdu dl_pdu
read_dl_pdu_lem dci_len = bind rd_u16_lem λ pdu_type. bind (walk_pdcch_lem dci_len) λ pdcch.
    bind walk_pdsch_lem
      λ pdsch. bind walk_csi_rs_lem λ csi. bind read_ssb_lem λ ssb. then_do walk_prs_lem (ret _)

module _ (max : ℕ) where
  abbrev after : {B : Type 0} → (DlPdu → Option B) → List B → List DlPdu → List B
  after f l us = folded (λ l u. add_some max l (f u)) l us

  abbrev Kind : ℕ → Type 0
  Kind t =
      (t ≡ 0)
      ⊎ ((t ≡ 1)
          ⊎ ((t ≡ 2)
              ⊎ ((t ≡ 3)
                  ⊎ (((t == 0) ≡ false)
                      × (((t == 1) ≡ false) × (((t == 2) ≡ false) × ((t == 3) ≡ false)))))))

  kind : (t : ℕ) → Kind t
  kind t = ground arith

  -- A PDU goes to the array of its kind, and to no other.
  capture_lem :
      (s : Captures) (u : DlPdu)
      → capture max s u ≡ record {
        ssbs = add_some max s.ssbs (ssb_of u);
        pdcchs = add_some max s.pdcchs (pdcch_of u);
        pdschs = add_some max s.pdschs (pdsch_of u);
        csis = add_some max s.csis (csi_of u);
      }
  unfolding capture add_some ssb_of pdcch_of pdsch_of csi_of
  capture_lem s u = elim (kind u.pdu_type) [
    | inl e ↦ rw e refl
    | inr (inl e) ↦ rw e refl
    | inr (inr (inl e)) ↦ rw e refl
    | inr (inr (inr (inl e))) ↦ rw e refl
    | inr (inr (inr (inr (a, (b, (c, d)))))) ↦ rw (a, b, c, d) refl
  ]

  -- The four arrays fill independently.
  folded-capture :
      (us : List DlPdu) (s : Captures)
      → folded (capture max) s us ≡ record {
        ssbs = after ssb_of s.ssbs us;
        pdcchs = after pdcch_of s.pdcchs us;
        pdschs = after pdsch_of s.pdschs us;
        csis = after csi_of s.csis us;
      }
  unfolding folded
  folded-capture [] s = refl
  folded-capture (u ∷ us) s =
      ap (λ c. folded (capture max) c us) (capture_lem s u) ∙ folded-capture us _

  after_none :
      {B : Type 0} (f : DlPdu → Option B) (us : List DlPdu) → after f [] us ≡ take max (picked f us)
  after_none f us =
      folded-picked max f us []
      ∙ (let all : max - 0 ≡ max = omega arith in ap (λ k. take k (picked f us)) all)

  -- What the captures of all PDUs become.
  emitted_lem :
      (dci_len : ℕ) (us : List DlPdu)
      → emitted max dci_len (folded (capture max) no_captures us) ≡ take max (sorted dci_len us)
  emitted_lem dci_len us =
      ap (emitted max dci_len) (folded-capture us no_captures)
      ∙ rw
          (
            after_none ssb_of us,
            after_none pdcch_of us,
            after_none pdsch_of us,
            after_none csi_of us,
            take-map to_ssb max (picked ssb_of us),
            take-map (to_pdcch dci_len) max (picked pdcch_of us),
            take-map to_pdsch max (picked pdsch_of us),
            take-map to_csi max (picked csi_of us),
            first,
            emit-take max ssbs pdcchs,
            emit-take max (ssbs ++ pdcchs) pdschs,
            emit-take max ((ssbs ++ pdcchs) ++ pdschs) (map to_csi (picked csi_of us)),
          )
          refl
    where
      ssbs : List DlConfig
      ssbs = map to_ssb (picked ssb_of us)

      pdcchs : List DlConfig
      pdcchs = map (to_pdcch dci_len) (picked pdcch_of us)

      pdschs : List DlConfig
      pdschs = map to_pdsch (picked pdsch_of us)

      first : emit max [] (take max ssbs) ≡ take max ssbs
      first = ap (λ l. emit max l (take max ssbs)) (sym (take-nil max)) ∙ emit-take max [] ssbs

  -- No captures are no PDUs.
  emitted_none : (dci_len : ℕ) → emitted max dci_len no_captures ≡ []
  unfolding emit
  emitted_none dci_len = refl

module _ (max dci_len : ℕ) where
  abbrev desync : DlHead → Cursor → Bool
  desync h r' = ltb 0 h.total_pdus && not (not r'.error && (r'.off == r'.len))

  abbrev kept : DlHead → Captures × Cursor → List DlConfig
  kept h (s, r') = emitted max dci_len (if desync h r' then no_captures else s)

  kept_lem :
      (h : DlHead) (r : Cursor) (res : Captures × Cursor) (o : Option (List DlPdu × List ℕ))
      → (o ≡ none → 0 < h.total_pdus)
      → Ran (read_dl_pdu_lem dci_len) (capture max) r no_captures res o
      → kept h res ≡ dl_sent max dci_len h o
  kept_lem h r res none some_pdu (e, l) =
      let any : 0 < h.total_pdus = some_pdu refl in
      let fails : desync h res.1 ≡ true = ground (arith, e, any) in
      ap (emitted max dci_len) (if_yes _ _ fails) ∙ emitted_none max dci_len
  kept_lem h r res (some (us, rest)) some_pdu (e, live, ve, l) =
      let left : length (view res.1) ≡ length rest = ap (length {A = ℕ}) ve in
      let guard : desync h res.1 ≡ (ltb 0 h.total_pdus && ltb 0 (length rest)) =
        ground (arith, live.fine, live.inside, length-view live, left) in
      ap (λ (b : Bool). emitted max dci_len (if b then no_captures else res.0)) guard
      ∙ chosen (ltb 0 h.total_pdus && ltb 0 (length rest))
    where
      chosen :
          (b : Bool)
          → emitted max dci_len (if b then no_captures else res.0)
            ≡ (if b then [] else take max (sorted dci_len us))
      chosen true = emitted_none max dci_len
      chosen false = ap (emitted max dci_len) e ∙ emitted_lem max dci_len us

  failing : (n : ℕ) (bs : List ℕ) → P.times n (dl_pdu dci_len) bs ≡ none → 0 < n
  unfolding P.times
  failing zero bs e = ground (arith, e)
  failing (suc n) bs e = omega arith

  module _ (phy_id : ℕ) (alloc : Bool) (send : DlTti → ℤ) where
    dl_pdus_lem :
        (h : DlHead) (r : Cursor)
        → IsLive r
        → dl_pdus max dci_len phy_id alloc send h r
          ≡ dl_body max dci_len phy_id alloc send h (view r)
    unfolding dl_pdus dl_body
    dl_pdus_lem h r v =
        ap
          (λ (pdus : List DlConfig).
            if slots_per_frame h.mu == 0
            then fault
            else if not alloc
            then returned (negsuc 0)
            else send_by send (dl_message phy_id h pdus))
          (kept_lem h r (gather (read_dl_pdu dci_len) (capture max) h.total_pdus no_captures r)
            (P.times h.total_pdus (dl_pdu dci_len) (view r)) (failing h.total_pdus (view r))
            (gather_lem (read_dl_pdu_lem dci_len) (capture max) h.total_pdus no_captures r v))

    -- A DL_TTI.request is sent if and only if its slot point is valid, its head parses, the numerology
    -- is below 31 and the allocation succeeds; what is sent holds the first max PDUs of a known type,
    -- all SSB before all PDCCH before all PDSCH before all CSI-RS, if all its PDUs (each with the
    -- parts of all kinds) parse inside the body and end where the body ends or none is announced, and
    -- no PDU otherwise, for a body length that is at most the bytes there are and below 2^31.
    -- Otherwise the code is 0 for an invalid slot point, -1 for a head or an allocation that fails,
    -- and the behaviour undefined for the numerology.
    pub dl_tti_request_lem :
        (body : List ℕ) (body_len : ℕ)
        → body_len ≤ length body
        → body_len < 2 ^ 31
        → dl_tti_request max dci_len phy_id alloc send body body_len
          ≡ dl_request max dci_len phy_id alloc send (take body_len body)
    unfolding dl_tti_request dl_request
    dl_tti_request_lem =
        request_lem read_dl_head_lem (dl_pdus max dci_len phy_id alloc send)
          (dl_body max dci_len phy_id alloc send) dl_pdus_lem

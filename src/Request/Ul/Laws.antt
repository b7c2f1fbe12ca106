-- ===== src/Request/Ul/Laws.antt =====
-- The UL_TTI translator against its specification.
use x_fapi.Prelude.{
  ℕ, zero, suc, ◌-◌, ◌%◌, ◌^◌, ◌≤◌, ◌<◌, ◌≡◌, refl, sym, ap, ap₂, ◌⊎◌, inl, inr, ◌∙◌, Bool, true,
  false, ◌||◌, ◌&&◌, not, List, [], ◌∷◌, ◌++◌,
}
use x_fapi.Prelude.{
  Option, none, some, ltb, ◌==◌, if◌then◌else◌, if_yes, length, take, map, take-map, take-nil, ℤ,
  pos, negsuc, arith,
}
use x_fapi.Wire.Cursor.{Cursor}
use x_fapi.Wire.Cursor.Parser as P
use x_fapi.Wire.Cursor.Laws.{IsLive, view, length-view}
use x_fapi.Wire.Cursor.Faithful.{Faithful, bind, then_do, ret}
use x_fapi.Wire.Cursor.Reads.{rd_u8_lem, rd_u16_lem, rd_u32_lem}
use x_fapi.Request.{Outcome, fault, returned, send_by, slots_per_frame}
use x_fapi.Request.Start.{request_lem}
use x_fapi.Request.Gather.{gather, add_some, folded, picked, Ran, gather_lem, folded-picked}
use x_fapi.Request.Ul.Corr.Laws.{rd_times_lem}
use x_fapi.Request.Ul.Prach.Spec.{read_prach_lem}
use x_fapi.Request.Ul.Pusch.Spec.{walk_pusch_lem}
use x_fapi.Request.Ul.Pucch.Spec.{walk_pucch_lem}
use x_fapi.Request.Ul.Srs.Spec.{walk_srs_lem}
use x_fapi.Request.Ul.{
  UlHead, UlPdu, UlTti, UlConfig, Captures, no_captures, capture, emit, emitted, captured,
  ul_message, to_prach, to_pusch, to_pucch, to_srs, read_count, read_ul_head, read_ul_pdu, ul_pdus,
  ul_tti_request,
}
use x_fapi.Request.Ul.Spec.{
  ul_head, ul_pdu, prach_of, pusch_of, pucch_of, srs_of, firsts, sorted, ul_end, ul_body,
  ul_request,
}
use x_fapi.Request.Ul.Room.{emit-take}

read_ul_head_lem : Faithful read_ul_head ul_head
unfolding read_ul_head ul_head read_count
read_ul_head_lem = bind rd_u8_lem λ mu. bind rd_u32_lem λ count.
    then_do (rd_times_lem 6 (then_do rd_u16_lem (ret tt)))
      (then_do rd_u16_lem (bind rd_u16_lem λ total_pdus. ret _))

read_ul_pdu_lem : Faithful read_ul_pdu ul_pdu
unfolding read_ul_pdu ul_pdu
read_ul_pdu_lem = bind rd_u16_lem λ pdu_type. then_do rd_u16_lem (
    bind read_prach_lem λ prach.
      bind walk_pusch_lem λ pusch. bind walk_pucch_lem λ pucch. bind walk_srs_lem λ srs. ret _)

module _ (max : ℕ) where
  abbrev after : {B : Type 0} → (UlPdu → Option B) → List B → List UlPdu → List B
  after f l us = folded (λ l u. add_some max l (f u)) l us

  abbrev Kind : ℕ → Type 0
  Kind t =
      (t ≡ 0)
      ⊎ ((t ≡ 1)
          ⊎ ((t ≡ 5)
              ⊎ ((t ≡ 2)
                  ⊎ ((t ≡ 3)
                      ⊎ ((t ≡ 4)
                          ⊎ (((t == 0) ≡ false)
                              × ((((t == 1) || (t == 5)) ≡ false)
                                  × ((((t == 2) || (t == 3)) ≡ false) × ((t == 4) ≡ false)))))))))

  kind : (t : ℕ) → Kind t
  kind t = ground arith

  -- A PDU goes to the array of its kind, and to no other.
  capture_lem :
      (s : Captures) (u : UlPdu)
      → capture max s u ≡ record {
        prachs = add_some max s.prachs (prach_of u);
        puschs = add_some max s.puschs (pusch_of u);
        pucchs = add_some max s.pucchs (pucch_of u);
        srss = add_some max s.srss (srs_of u);
      }
  unfolding capture add_some prach_of pusch_of pucch_of srs_of
  capture_lem s u = elim (kind u.pdu_type) [
    | inl e ↦ rw e refl
    | inr (inl e) ↦ rw e refl
    | inr (inr (inl e)) ↦ rw e refl
    | inr (inr (inr (inl e))) ↦ rw e refl
    | inr (inr (inr (inr (inl e)))) ↦ rw e refl
    | inr (inr (inr (inr (inr (inl e))))) ↦ rw e refl
    | inr (inr (inr (inr (inr (inr (a, (b, (c, d)))))))) ↦ rw (a, b, c, d) refl
  ]

  -- The four arrays fill independently.
  folded-capture :
      (us : List UlPdu) (s : Captures)
      → folded (capture max) s us ≡ record {
        prachs = after prach_of s.prachs us;
        puschs = after pusch_of s.puschs us;
        pucchs = after pucch_of s.pucchs us;
        srss = after srs_of s.srss us;
      }
  unfolding folded
  folded-capture [] s = refl
  folded-capture (u ∷ us) s =
      ap (λ c. folded (capture max) c us) (capture_lem s u) ∙ folded-capture us _

  after_none :
      {B : Type 0} (f : UlPdu → Option B) (us : List UlPdu) → after f [] us ≡ take max (picked f us)
  after_none f us =
      folded-picked max f us []
      ∙ (let all : max - 0 ≡ max = omega arith in ap (λ k. take k (picked f us)) all)

  captures_lem : (us : List UlPdu) → folded (capture max) no_captures us ≡ firsts max us
  captures_lem us =
      folded-capture us no_captures
      ∙ rw
          (
            after_none prach_of us,
            after_none pusch_of us,
            after_none pucch_of us,
            after_none srs_of us,
          )
          refl

  emitted_lem :
      (pci : ℕ) (us : List UlPdu) → emitted max pci (firsts max us) ≡ take max (sorted pci us)
  emitted_lem pci us =
      rw
        (
          take-map (to_prach (pci % 2 ^ 16)) max (picked prach_of us),
          take-map to_pusch max (picked pusch_of us),
          take-map to_pucch max (picked pucch_of us),
          take-map to_srs max (picked srs_of us),
          first,
          emit-take max prachs puschs,
          emit-take max (prachs ++ puschs) pucchs,
          emit-take max ((prachs ++ puschs) ++ pucchs) (map to_srs (picked srs_of us)),
        )
        refl
    where
      prachs : List UlConfig
      prachs = map (to_prach (pci % 2 ^ 16)) (picked prach_of us)

      puschs : List UlConfig
      puschs = map to_pusch (picked pusch_of us)

      pucchs : List UlConfig
      pucchs = map to_pucch (picked pucch_of us)

      first : emit max [] (take max prachs) ≡ take max prachs
      first = ap (λ l. emit max l (take max prachs)) (sym (take-nil max)) ∙ emit-take max [] prachs

module _ (max phy_id pci : ℕ) (alloc : Bool) (send : UlTti → ℤ) where
  abbrev ending : UlHead → Captures × Cursor → Outcome UlTti
  ending h (s, r') =
      if ltb 0 h.total_pdus && not (not r'.error && (r'.off == r'.len))
      then returned (negsuc 0)
      else if captured s == 0
      then returned (pos 0)
      else if not alloc
      then returned (negsuc 0)
      else send_by send (ul_message phy_id h s (emitted max pci s))

  ending_lem :
      (h : UlHead) (r : Cursor) (res : Captures × Cursor) (o : Option (List UlPdu × List ℕ))
      → (o ≡ none → 0 < h.total_pdus)
      → Ran read_ul_pdu_lem (capture max) r no_captures res o
      → ending h res ≡ ul_end max phy_id pci alloc send h o
  ending_lem h r res none some_pdu (e, l) =
      let any : 0 < h.total_pdus = some_pdu refl in
      let fails : (ltb 0 h.total_pdus && not (not res.1.error && (res.1.off == res.1.len))) ≡ true =
        ground (arith, e, any) in
      if_yes _ _ fails
  ending_lem h r res (some (us, rest)) some_pdu (e, live, ve, l) =
      let left : length (view res.1) ≡ length rest = ap (length {A = ℕ}) ve in
      let guard : (ltb 0 h.total_pdus && not (not res.1.error && (res.1.off == res.1.len)))
          ≡ (ltb 0 h.total_pdus && ltb 0 (length rest)) =
        ground (arith, live.fine, live.inside, length-view live, left) in
      ap₂
        (λ (b : Bool) (c : Captures).
          if b
          then returned (negsuc 0)
          else if captured c == 0
          then returned (pos 0)
          else if not alloc
          then returned (negsuc 0)
          else send_by send (ul_message phy_id h c (emitted max pci c)))
        guard (e ∙ captures_lem max us)
      ∙ ap
          (λ (pdus : List UlConfig).
            if ltb 0 h.total_pdus && ltb 0 (length rest)
            then returned (negsuc 0)
            else if captured (firsts max us) == 0
            then returned (pos 0)
            else if not alloc
            then returned (negsuc 0)
            else send_by send (ul_message phy_id h (firsts max us) pdus))
          (emitted_lem max pci us)

  failing : (n : ℕ) (bs : List ℕ) → P.times n ul_pdu bs ≡ none → 0 < n
  unfolding P.times
  failing zero bs e = ground (arith, e)
  failing (suc n) bs e = omega arith

  ul_pdus_lem :
      (h : UlHead) (r : Cursor)
      → IsLive r
      → ul_pdus max phy_id pci alloc send h r ≡ ul_body max phy_id pci alloc send h (view r)
  unfolding ul_pdus ul_body
  ul_pdus_lem h r v =
      ap (λ (o : Outcome UlTti). if slots_per_frame h.mu == 0 then fault else o)
        (ending_lem h r (gather read_ul_pdu (capture max) h.total_pdus no_captures r)
          (P.times h.total_pdus ul_pdu (view r)) (failing h.total_pdus (view r))
          (gather_lem read_ul_pdu_lem (capture max) h.total_pdus no_captures r v))

  -- An UL_TTI.request is sent if and only if its slot point is valid, its head and all its PDUs
  -- (each with its PRACH, PUSCH, PUCCH and SRS part) parse inside the body and end where the body
  -- ends, the numerology is below 31, some PDU has a known type, there is room for captures and the
  -- allocation succeeds; what is sent holds the first max PDUs, all PRACH before all PUSCH before
  -- all PUCCH before all SRS, and the counts of the captured parts, for a body length that is at
  -- most the bytes there are and below 2^31. Otherwise the code is 0 for an invalid slot point or
  -- nothing captured, -1 for a parse or an allocation that fails, and the behaviour undefined for
  -- the numerology.
  pub ul_tti_request_lem :
      (body : List ℕ) (body_len : ℕ)
      → body_len ≤ length body
      → body_len < 2 ^ 31
      → ul_tti_request max phy_id pci alloc send body body_len
        ≡ ul_request max phy_id pci alloc send (take body_len body)
  unfolding ul_tti_request ul_request
  ul_tti_request_lem =
      request_lem read_ul_head_lem (ul_pdus max phy_id pci alloc send)
        (ul_body max phy_id pci alloc send) ul_pdus_lem

-- ===== src/Request/Dl/Dci/Laws.antt =====
-- The UL_DCI translator against its specification.
use x_fapi.Prelude.{
  ℕ, zero, suc, ◌-◌, ◌^◌, ◌≤◌, ◌<◌, ◌≡◌, refl, ap, ◌∙◌, Bool, true, ◌&&◌, not, List, [], ◌∷◌,
}
use x_fapi.Prelude.{
  Option, none, some, ltb, ◌==◌, if◌then◌else◌, if_yes, length, take, map, ℤ, pos, negsuc, arith,
}
use x_fapi.Wire.Cursor.{Cursor}
use x_fapi.Wire.Cursor.Parser as P
use x_fapi.Wire.Cursor.Laws.{IsLive, view, length-view}
use x_fapi.Wire.Cursor.Faithful.{Faithful, bind, ret}
use x_fapi.Wire.Cursor.Reads.{rd_u8_lem, rd_u16_lem, rd_u32_lem}
use x_fapi.Request.{Outcome, fault, returned, send_by, slots_per_frame}
use x_fapi.Request.Start.{request_lem}
use x_fapi.Request.Gather.{gather, add, add_some, folded, picked, Ran, gather_lem, folded-picked}
use x_fapi.Request.Ul.{emit}
use x_fapi.Request.Ul.Room.{emit-nil}
use x_fapi.Request.Dl.Pdcch.{CapPdcch, walk_pdcch}
use x_fapi.Request.Dl.Pdcch.Spec.{pdcch_part, walk_pdcch_lem}
use x_fapi.Request.Dl.Pdcch.Mapper.{PdcchPdu, fill_pdcch_rel15}
use x_fapi.Request.Dl.Dci.{DciHead, UlDci, read_dci_head, dci_message, dci_pdus, ul_dci_request}
use x_fapi.Request.Dl.Dci.Spec.{dci_head, dci_end, dci_body, dci_request}

read_dci_head_lem : Faithful read_dci_head dci_head
unfolding read_dci_head dci_head
read_dci_head_lem = bind rd_u8_lem λ mu. bind rd_u32_lem λ count. bind rd_u16_lem λ n_pdus. ret _

module _ {A : Type 0} (max : ℕ) where
  picked_all : (ps : List A) → picked some ps ≡ ps
  unfolding picked
  picked_all [] = refl
  picked_all (a ∷ more) = ap (λ l. a ∷ l) (picked_all more)

  folded-add_some :
      (ps l : List A) → folded (add max) l ps ≡ folded (λ l a. add_some max l (some a)) l ps
  unfolding folded add_some
  folded-add_some [] l = refl
  folded-add_some (a ∷ more) l = folded-add_some more (add max l a)

  folded-add : (ps : List A) → folded (add max) [] ps ≡ take max ps
  folded-add ps =
      folded-add_some ps []
      ∙ folded-picked max some ps []
      ∙ (let all : max - 0 ≡ max = omega arith in ap (λ k. take k (picked some ps)) all)
      ∙ ap (take max) (picked_all ps)

module _ (max cs dci_len phy_id : ℕ) (alloc : Bool) (send : UlDci → ℤ) where
  abbrev Pdus : Type 0
  Pdus = List PdcchPdu

  abbrev sent_of : DciHead → List CapPdcch → Pdus → Outcome UlDci
  sent_of h s pdus =
      if length s == 0
      then returned (pos 0)
      else if not alloc
      then returned (negsuc 0)
      else send_by send (dci_message phy_id h pdus)

  abbrev desync : DciHead → Cursor → Bool
  desync h r' = ltb 0 h.n_pdus && not (not r'.error && (r'.off == r'.len))

  abbrev ending : DciHead → List CapPdcch × Cursor → Outcome UlDci
  ending h (s, r') =
      if desync h r'
      then returned (negsuc 0)
      else sent_of h s (emit cs [] (map (fill_pdcch_rel15 dci_len) s))

  ending_lem :
      (h : DciHead) (r : Cursor) (res : List CapPdcch × Cursor)
      (o : Option (List CapPdcch × List ℕ))
      → (o ≡ none → 0 < h.n_pdus)
      → Ran (walk_pdcch_lem dci_len) (add max) r [] res o
      → ending h res ≡ dci_end max cs dci_len phy_id alloc send h o
  ending_lem h r res none some_pdu (e, l) =
      let any : 0 < h.n_pdus = some_pdu refl in
      let fails : desync h res.1 ≡ true = ground (arith, e, any) in if_yes _ _ fails
  ending_lem h r res (some (us, rest)) some_pdu (e, live, ve, l) =
      let left : length (view res.1) ≡ length rest = ap (length {A = ℕ}) ve in
      let guard : desync h res.1 ≡ (ltb 0 h.n_pdus && ltb 0 (length rest)) =
        ground (arith, live.fine, live.inside, length-view live, left) in
      ap
        (λ (b : Bool).
          if b
          then returned (negsuc 0)
          else sent_of h res.0 (emit cs [] (map (fill_pdcch_rel15 dci_len) res.0)))
        guard
      ∙ ap
          (λ (s : List CapPdcch).
            if ltb 0 h.n_pdus && ltb 0 (length rest)
            then returned (negsuc 0)
            else sent_of h s (emit cs [] (map (fill_pdcch_rel15 dci_len) s)))
          (e ∙ folded-add max us)
      ∙ ap
          (λ (pdus : Pdus).
            if ltb 0 h.n_pdus && ltb 0 (length rest)
            then returned (negsuc 0)
            else sent_of h (take max us) pdus)
          (emit-nil cs (map (fill_pdcch_rel15 dci_len) (take max us)))

  failing : (n : ℕ) (bs : List ℕ) → P.times n (pdcch_part dci_len) bs ≡ none → 0 < n
  unfolding P.times
  failing zero bs e = ground (arith, e)
  failing (suc n) bs e = omega arith

  dci_pdus_lem :
      (h : DciHead) (r : Cursor)
      → IsLive r
      → dci_pdus max cs dci_len phy_id alloc send h r
        ≡ dci_body max cs dci_len phy_id alloc send h (view r)
  unfolding dci_pdus dci_body
  dci_pdus_lem h r v =
      ap (λ (o : Outcome UlDci). if slots_per_frame h.mu == 0 then fault else o)
        (ending_lem h r (gather (walk_pdcch dci_len) (add max) h.n_pdus [] r)
          (P.times h.n_pdus (pdcch_part dci_len) (view r)) (failing h.n_pdus (view r))
          (gather_lem (walk_pdcch_lem dci_len) (add max) h.n_pdus [] r v))

  -- An UL_DCI.request is sent if and only if its slot point is valid, its head and all its PDCCH
  -- PDUs parse inside the body and end where the body ends (with no PDU announced nothing is sent),
  -- the numerology is below 31, there is room for captures and the allocation succeeds; what is sent
  -- holds the first PDUs that the capture array and the message have room for, for a body length
  -- that is at most the bytes there are and below 2^31. Otherwise the code is 0 for an invalid slot
  -- point or nothing captured, -1 for a parse or an allocation that fails, and the behaviour
  -- undefined for the numerology.
  pub ul_dci_request_lem :
      (body : List ℕ) (body_len : ℕ)
      → body_len ≤ length body
      → body_len < 2 ^ 31
      → ul_dci_request max cs dci_len phy_id alloc send body body_len
        ≡ dci_request max cs dci_len phy_id alloc send (take body_len body)
  unfolding ul_dci_request dci_request
  ul_dci_request_lem =
      request_lem read_dci_head_lem (dci_pdus max cs dci_len phy_id alloc send)
        (dci_body max cs dci_len phy_id alloc send) dci_pdus_lem

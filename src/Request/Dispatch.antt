-- ===== src/Request/Dispatch.antt =====
-- L2_to_L1/oai_l2_to_l1_p7.c, `ocudu_p7_translate_and_send`: parse the xSM header, and route the body.
use x_fapi.Prelude.{
  ℕ, ◌+◌, ◌^◌, ◌≤◌, ◌<◌, ◌≡◌, ap, ◌∙◌, Bool, true, false, List, ◌++◌, Option, none, some, arith,
}
use x_fapi.Prelude.{
  ◌==◌, if◌then◌else◌, length, drop, length-append, take-append_self, ℤ, pos, negsuc,
}
use x_fapi.Wire.Header.{header_size, hdr_build, hdr_parse, Parsed, hdr_parse-build}
use x_fapi.Request.{Outcome, returned}
use x_fapi.Request.Ul.{UlTti, ul_tti_request}
use x_fapi.Request.Ul.Spec.{ul_request}
use x_fapi.Request.Ul.Laws.{ul_tti_request_lem}

-- The translators, each of a body and its length.
pub record Handlers (A : Type 0) : Type 0 where
  pub dl_tti : List ℕ → ℕ → Outcome A
  pub tx_data : List ℕ → ℕ → Outcome A
  pub ul_tti : List ℕ → ℕ → Outcome A
  pub ul_dci : List ℕ → ℕ → Outcome A

-- The `switch`: 0 for the end-of-slot sentinel and for any type with no translator.
unfoldable pub route : {A : Type 0} → Handlers A → Parsed → Outcome A
route hs p =
    if p.msg_type == 0x80
    then hs.dl_tti p.body p.body_len
    else if p.msg_type == 0x84
    then hs.tx_data p.body p.body_len
    else if p.msg_type == 0x81
    then hs.ul_tti p.body p.body_len
    else if p.msg_type == 0x83
    then hs.ul_dci p.body p.body_len
    else returned (pos 0)

-- `ready` says that the context and the VNF are not null.
unfoldable pub p7_translate_and_send :
    {A : Type 0} → Handlers A → Bool → Option (List ℕ) → ℕ → Outcome A
p7_translate_and_send hs false src size = returned (negsuc 0)
p7_translate_and_send hs true src size = elim (hdr_parse src size) [
  | none ↦ returned (negsuc 0)
  | some p ↦ route hs p
]

-- A buffer of the OCUDU L2 that holds a header built for UL_TTI.request and then a body of fewer
-- than 2^31 bytes, of a size that covers both, has the outcome that the specification of
-- UL_TTI.request gives to that body, when the UL_TTI handler is the translator, whatever follows
-- the body in the buffer.
pub ul_tti_routed :
    (max phy_id pci : ℕ) (alloc : Bool) (send : UlTti → ℤ) (hs : Handlers UlTti)
    (dst body more : List ℕ) (time_stamp size : ℕ)
    → hs.ul_tti ≡ ul_tti_request max phy_id pci alloc send
    → length body < 2 ^ 31
    → header_size + length body ≤ size
    → drop header_size dst ≡ body ++ more
    → p7_translate_and_send hs true (some (hdr_build dst 0x81 (length body) time_stamp)) size
      ≡ ul_request max phy_id pci alloc send body
unfolding p7_translate_and_send route
ul_tti_routed max phy_id pci alloc send hs dst body more time_stamp size same small room e =
    let n : length (body ++ more) ≡ length body + length more = length-append body more in
    ap (λ (o : Option Parsed). elim o [ none ↦ returned (negsuc 0) | some p ↦ route hs p ])
      (hdr_parse-build dst body more 0x81 time_stamp size (omega arith) room e)
    ∙ ap (λ f. f (body ++ more) (length body)) same
    ∙ ul_tti_request_lem max phy_id pci alloc send (body ++ more) (length body) (omega arith) small
    ∙ ap (ul_request max phy_id pci alloc send) (take-append_self body more)

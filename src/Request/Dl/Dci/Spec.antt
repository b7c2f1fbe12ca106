-- ===== src/Request/Dl/Dci/Spec.antt =====
-- What an UL_DCI.request should become.
use x_fapi.Prelude.{ℕ, Bool, ◌&&◌, not, List, ℤ, pos, negsuc, Option, none, some, take}
use x_fapi.Prelude.{ltb, ◌==◌, if◌then◌else◌, length, map}
use x_fapi.Wire.Cursor.Parser as P
use x_fapi.Wire.Cursor.Parser.{Parser, ◌>>=◌, pure}
use x_fapi.Request.{Outcome, fault, returned, send_by, slots_per_frame}
use x_fapi.Request.Dl.Pdcch.{CapPdcch}
use x_fapi.Request.Dl.Pdcch.Spec.{pdcch_part}
use x_fapi.Request.Dl.Pdcch.Mapper.{fill_pdcch_rel15}
use x_fapi.Request.Dl.Dci.{DciHead, UlDci, dci_message}

-- The layout of the head.
unfoldable pub dci_head : Parser DciHead
unfolding ◌>>=◌
dci_head = do
  mu ← P.byte
  count ← P.le_uint 4
  n_pdus ← P.le_uint 2
  pure (record { mu = mu; count = count; n_pdus = n_pdus })

-- What an UL_DCI.request should become: the first PDUs that the arrays have room for, and nothing when
-- the body is not what its head says.
abbrev pub dci_end :
    ℕ → ℕ → ℕ → ℕ → Bool → (UlDci → ℤ) → DciHead → Option (List CapPdcch × List ℕ) → Outcome UlDci
dci_end max cs dci_len phy_id alloc send h none = returned (negsuc 0)
dci_end max cs dci_len phy_id alloc send h (some (pdus, rest)) =
    if ltb 0 h.n_pdus && ltb 0 (length rest)
    then returned (negsuc 0)
    else if length (take max pdus) == 0
    then returned (pos 0)
    else if not alloc
    then returned (negsuc 0)
    else send_by send
        (dci_message phy_id h (take cs (map (fill_pdcch_rel15 dci_len) (take max pdus))))

unfoldable pub dci_body : ℕ → ℕ → ℕ → ℕ → Bool → (UlDci → ℤ) → DciHead → List ℕ → Outcome UlDci
dci_body max cs dci_len phy_id alloc send h bs =
    if slots_per_frame h.mu == 0
    then fault
    else dci_end max cs dci_len phy_id alloc send h (P.times h.n_pdus (pdcch_part dci_len) bs)

unfoldable pub dci_request : ℕ → ℕ → ℕ → ℕ → Bool → (UlDci → ℤ) → List ℕ → Outcome UlDci
dci_request max cs dci_len phy_id alloc send bs = elim (P.byte bs) [
  | none ↦ returned (pos 0)
  | some (valid, rest) ↦ if valid == 0 then returned (pos 0) else elim (dci_head rest) [
    | none ↦ returned (negsuc 0)
    | some (h, pdus) ↦ dci_body max cs dci_len phy_id alloc send h pdus
  ]
]

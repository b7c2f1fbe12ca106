-- ===== src/Endpoint/Send.antt =====
-- core/OAI_OCUDU/oai_p7.c: `oai_vnf_send_p7`, which packs a message and sends it in one datagram or in
-- segments, and `oai_p7_sendto`.
pub mod Laws
pub mod RoundTrip
use x_fapi.Prelude.{
  ℕ, zero, suc, ◌+◌, ◌-◌, ◌*◌, ◌/◌, ◌%◌, ◌^◌, Bool, true, false, List, [], ◌∷◌, ◌++◌, Option, none,
  some,
}
use x_fapi.Prelude.{leb, ◌==◌, if◌then◌else◌, length, set, take, drop, not, ℤ, pos, negsuc}

-- OAI_VNF_P7_SEGMENT_SIZE
abbrev pub segment_size : ℕ
segment_size = 1400

-- The nFAPI library: NFAPI_NR_P7_HEADER_LENGTH, NFAPI_NR_P7_SET_MSS of MORE, segment and sequence,
-- `nfapi_nr_p7_update_checksum`, and the bytes that `nfapi_nr_p7_message_pack` makes of the message with
-- a segment field, if it succeeds.
pub record Packer : Type 0 where
  pub header_length : ℕ
  pub set_mss : ℕ → ℕ → ℕ → ℕ
  pub update_checksum : List ℕ → List ℕ
  pub pack : ℕ → Option (List ℕ)

-- What the function uses of `oai_vnf_t`; `p7_sequence` is the pattern of an `int`, which 2^31 messages
-- overflow.
pub record Vnf : Type 0 where
  pub p7_sequence : ℕ
  pub checksum_enabled : Bool
  pub p7_addr_known : Bool

-- The answer of `sendto`, as the number of bytes sent: none for an error.
unfoldable pub p7_sendto : Vnf → (List ℕ → Option ℕ) → List ℕ → ℤ
p7_sendto v sendto buf = if not v.p7_addr_known then negsuc 0 else elim (sendto buf) [
  | none ↦ negsuc 0
  | some sent ↦ if sent == length buf then pos 0 else negsuc 0
]

-- The header of a segment: its length in bytes 4 to 7 and its segment field in bytes 8 and 9.
unfoldable pub stamped : List ℕ → ℕ → ℕ → List ℕ
stamped hdr total mss =
    set
      (set
        (set
          (set (set (set hdr 4 (total / 2 ^ 24 % 256)) 5 (total / 2 ^ 16 % 256)) 6
            (total / 2 ^ 8 % 256))
          7 (total % 256))
        8 (mss / 2 ^ 8 % 256))
      9 (mss % 256)

abbrev pub checked : Packer → Vnf → List ℕ → List ℕ
checked p v buf = if v.checksum_enabled then p.update_checksum buf else buf

-- Segment `s` of `seg_count`, with `size` bytes of the message from `offset` on.
unfoldable pub segment : Packer → Vnf → List ℕ → ℕ → ℕ → ℕ → ℕ → List ℕ
unfolding stamped
segment p v buf seg_count s size offset = checked p v (
    stamped (take p.header_length buf) (size + p.header_length)
      (p.set_mss (if s + 1 == seg_count then 0 else 1) (s % 256) (v.p7_sequence % 256))
    ++ take size (drop offset buf))

abbrev pub body_len : Packer → List ℕ → ℕ
body_len p buf = length buf - p.header_length

abbrev pub seg_body : Packer → ℕ
seg_body p = segment_size - p.header_length

abbrev pub seg_count : Packer → List ℕ → ℕ
seg_count p buf = (body_len p buf + seg_body p - 1) / seg_body p

abbrev pub size_of : Packer → List ℕ → ℕ → ℕ
size_of p buf s = if s + 1 == seg_count p buf then body_len p buf - seg_body p * s else seg_body p

-- The loop from segment `s` on, with `n` to go: its code, and the datagrams that went to `oai_p7_sendto`.
unfoldable pub send_segments :
    Packer → Vnf → (List ℕ → Option ℕ) → List ℕ → ℕ → ℕ → ℕ → ℤ × List (List ℕ)
unfolding p7_sendto segment
send_segments p v sendto buf zero s offset = (pos 0, [])
send_segments p v sendto buf (suc n) s offset =
    let size = size_of p buf s in
    let seg = segment p v buf (seg_count p buf) s size offset in
    let rest = send_segments p v sendto buf n (s + 1) (offset + size) in
    elim (p7_sendto v sendto seg) [
      | pos zero ↦ (rest.0, seg ∷ rest.1)
      | pos (suc a) ↦ (negsuc 0, seg ∷ [])
      | negsuc a ↦ (negsuc 0, seg ∷ [])
    ]

-- `oai_vnf_send_p7`: the state behind it, its code and the datagrams; `ready` says that the context, the
-- VNF and the message are not NULL.
unfoldable pub send_p7 : Packer → Bool → (List ℕ → Option ℕ) → Vnf → Vnf × (ℤ × List (List ℕ))
unfolding send_segments
send_p7 p false sendto v = (v, (negsuc 0, []))
send_p7 p true sendto v = elim (p.pack (p.set_mss 0 0 (v.p7_sequence % 256))) [
  | none ↦ (v, (negsuc 0, []))
  | some buf ↦ (
    record v { p7_sequence = (v.p7_sequence + 1) % 2 ^ 32 },
    if leb (length buf) segment_size
        then (p7_sendto v sendto (checked p v buf), checked p v buf ∷ [])
        else send_segments p v sendto buf (seg_count p buf) 0 p.header_length,
  )
]

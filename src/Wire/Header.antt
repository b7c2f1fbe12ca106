-- ===== src/Wire/Header.antt =====
-- The 40-byte xSM message header: `ocudu_xsm_hdr_build` and `ocudu_xsm_hdr_parse`.
use x_fapi.Prelude.{
  ℕ, ◌+◌, ◌^◌, ◌≤◌, ◌<◌, ◌≡◌, refl, ap, ◌∙◌, if_no, ge→ltb, List, ◌∷◌, ◌++◌, Option, none, some,
  arith,
}
use x_fapi.Prelude.{ltb, if◌then◌else◌, get_or, set, drop, length, replicate}
use x_fapi.Wire.Bytes.{le, le_bytes, bytes_at, write_at, le-le_bytes}

-- OCUDU_XSM_HEADER_SIZE
abbrev pub header_size : ℕ
header_size = 40

-- What a parsed header says: the message type, and the body past the header with its length.
pub record Parsed : Type 0 where
  pub msg_type : ℕ
  pub body : List ℕ
  pub body_len : ℕ

-- none is -1: a null or short buffer, or a body that overruns it. The sum is taken in 64 bits.
unfoldable pub hdr_parse : Option (List ℕ) → ℕ → Option Parsed
hdr_parse none size = none
hdr_parse (some buf) size =
    if ltb size header_size
    then none
    else let mlen = le (bytes_at buf 20 4) in
      if ltb size (header_size + mlen)
      then none
      else some
          (record { msg_type = get_or buf 16 0; body = drop header_size buf; body_len = mlen })

-- All zero but the type, one message in the block, the body length and the time stamp.
unfoldable pub hdr_build : List ℕ → ℕ → ℕ → ℕ → List ℕ
hdr_build dst msg_type body_len time_stamp =
    let d0 = write_at dst 0 (replicate header_size 0) in
    let d1 = set (set d0 16 msg_type) 17 1 in
    let d2 = write_at d1 20 (le_bytes 4 body_len) in write_at d2 32 (le_bytes 8 time_stamp)

-- The header as a list, in the order of the wire.
abbrev pub header_bytes : ℕ → ℕ → ℕ → List ℕ
header_bytes msg_type body_len time_stamp =
    replicate 16 0
    ++ (msg_type ∷ 1 ∷ 0 ∷ 0 ∷ (le_bytes 4 body_len ++ (replicate 8 0 ++ le_bytes 8 time_stamp)))

-- Building a header overwrites the first 40 bytes and nothing else.
pub hdr_build_lem :
    (dst : List ℕ) (msg_type body_len time_stamp : ℕ)
    → hdr_build dst msg_type body_len time_stamp
      ≡ header_bytes msg_type body_len time_stamp ++ drop header_size dst
unfolding hdr_build le_bytes
hdr_build_lem dst msg_type body_len time_stamp = refl

length_field :
    (msg_type n time_stamp : ℕ) (rest : List ℕ)
    → n < 2 ^ 32
    → le (bytes_at (header_bytes msg_type n time_stamp ++ rest) 20 4) ≡ n
unfolding le_bytes
length_field msg_type n time_stamp rest small = le-le_bytes 4 n small

pub parse_of :
    (msg_type n time_stamp size : ℕ) (rest : List ℕ)
    → n < 2 ^ 32
    → header_size + n ≤ size
    → hdr_parse (some (header_bytes msg_type n time_stamp ++ rest)) size
      ≡ some (record { msg_type = msg_type; body = rest; body_len = n })
unfolding hdr_parse le_bytes
parse_of msg_type n time_stamp size rest small room =
    let field : _ ≡ n = length_field msg_type n time_stamp rest small in
    if_no _ _ (ge→ltb size header_size (omega arith))
    ∙ if_no _ _ (ge→ltb size _ (omega (arith, field)))
    ∙ ap (λ (k : ℕ). some (record { msg_type = msg_type; body = rest; body_len = k })) field

-- A message with a header that was built for it parses back to its type, its body and its length,
-- and whatever follows it in the buffer does not matter.
pub hdr_parse-build :
    (dst body more : List ℕ) (msg_type time_stamp size : ℕ)
    → length body < 2 ^ 32
    → header_size + length body ≤ size
    → drop header_size dst ≡ body ++ more
    → hdr_parse (some (hdr_build dst msg_type (length body) time_stamp)) size
      ≡ some (record { msg_type = msg_type; body = body ++ more; body_len = length body })
hdr_parse-build dst body more msg_type time_stamp size small room e =
    ap (λ l. hdr_parse (some l) size) (hdr_build_lem dst msg_type (length body) time_stamp)
    ∙ parse_of msg_type (length body) time_stamp size (drop header_size dst) small room
    ∙ ap (λ (l : List ℕ). some (record { msg_type = msg_type; body = l; body_len = length body })) e

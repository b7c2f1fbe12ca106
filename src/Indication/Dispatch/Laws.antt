-- ===== src/Indication/Dispatch/Laws.antt =====
-- From an nFAPI message to the bytes in shared memory: what the L2 finds there is what was delivered.
use x_fapi.Prelude.{ℕ, ◌+◌, ◌^◌, ◌<◌, ◌≡◌, ap, ◌∙◌, sym, List, [], ◌∷◌, ◌++◌, some, arith}
use x_fapi.Prelude.{length, drop, if_yes, lt→ltb, drop-drop}
use x_fapi.Wire.Bytes.{write_at, le_bytes}
use x_fapi.Wire.Header.{header_size, header_bytes, hdr_build, hdr_build_lem, hdr_parse, parse_of}
use x_fapi.Indication.Xsm.{filled}

-- Behind the header stands the body, and behind that what the buffer held.
filled_lem :
    (memory : List ℕ) (msg_type : ℕ) (body : List ℕ) (now_ns : ℕ)
    → filled memory msg_type body now_ns
      ≡ header_bytes msg_type (length body) now_ns
        ++ (body ++ drop (header_size + length body) memory)
unfolding le_bytes
filled_lem memory msg_type [] now_ns = hdr_build_lem memory msg_type 0 now_ns
filled_lem memory msg_type (b ∷ bs) now_ns =
    if_yes (write_at built header_size (b ∷ bs)) built (lt→ltb 0 (length (b ∷ bs)) (omega arith))
    ∙ ap (λ l. write_at l header_size (b ∷ bs)) (hdr_build_lem memory msg_type n now_ns)
    ∙ ap (λ l. header_bytes msg_type n now_ns ++ ((b ∷ bs) ++ l)) behind
  where
    n : ℕ
    n = length (b ∷ bs)

    built : List ℕ
    built = hdr_build memory msg_type n now_ns

    behind :
        drop (header_size + n) (header_bytes msg_type n now_ns ++ drop header_size memory)
        ≡ drop (header_size + n) memory
    behind =
        sym (drop-drop n header_size (header_bytes msg_type n now_ns ++ drop header_size memory))
        ∙ drop-drop n header_size memory

-- The OCUDU header parser, on the memory that ocudu_l2_xsm_put fills with a header and a body of
-- fewer than 2^32 bytes, gives back the message type, the body followed by what the memory held
-- behind it, and the length of the body.
pub hdr_parse-filled :
    (memory : List ℕ) (msg_type : ℕ) (body : List ℕ) (now_ns : ℕ)
    → length body < 2 ^ 32
    → hdr_parse (some (filled memory msg_type body now_ns)) (header_size + length body)
      ≡ some (record {
        msg_type = msg_type;
        body = body ++ drop (header_size + length body) memory;
        body_len = length body;
      })
hdr_parse-filled memory msg_type body now_ns small =
    ap (λ l. hdr_parse (some l) (header_size + length body))
      (filled_lem memory msg_type body now_ns)
    ∙ parse_of msg_type (length body) now_ns (header_size + length body)
        (body ++ drop (header_size + length body) memory) small (omega arith)

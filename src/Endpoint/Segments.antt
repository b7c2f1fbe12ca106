-- ===== src/Endpoint/Segments.antt =====
-- core/OAI_OCUDU/oai_p7.c: the reassembly of segmented P7 messages, and the receive task around it.
pub mod Table
pub mod Entries
pub mod Laws
pub mod AnyOrder
use x_fapi.Prelude.{ℕ, ◌+◌, ◌-◌, Bool, true, false, ◌&&◌, ◌||◌, not, List, [], ◌∷◌, ◌++◌}
use x_fapi.Prelude.{
  Option, none, some, zero, suc, ltb, leb, ◌==◌, if◌then◌else◌, length, get_or, set, drop,
  replicate,
}

-- OAI_VNF_P7_MAX_SEGMENTS and OAI_VNF_P7_MAX_SEQUENCES
abbrev pub max_segments : ℕ
max_segments = 128

abbrev pub max_sequences : ℕ
max_sequences = 8

-- What the header of a message says: its type, and the field that NFAPI_P7_GET_MORE and the like take apart.
pub record NrHeader : Type 0 where
  pub message_id : ℕ
  pub m_segment_sequence : ℕ

-- The nFAPI library: NFAPI_NR_P7_HEADER_LENGTH, `nfapi_nr_p7_message_header_unpack`, the segment field
-- as `nfapi_p7_message_header_unpack` reads it (none when it fails), and the three macros.
pub record Codec : Type 0 where
  pub header_length : ℕ
  pub unpack : List ℕ → Option NrHeader
  pub unpack_legacy : List ℕ → Option ℕ
  pub get_more : ℕ → ℕ
  pub get_segment : ℕ → ℕ
  pub get_sequence : ℕ → ℕ

-- `oai_p7_seq_entry_t`: `next` is `highest_segment` + 1, `segs` has `seg_buf` and, as the length of a
-- buffer, `seg_len`. `more_pending` is never set.
pub record Entry : Type 0 where
  pub active : Bool
  pub sequence : ℕ
  pub next : ℕ
  pub have_last : Bool
  pub present : ℕ
  pub segs : List (Option (List ℕ))

-- `seg_entry_clear`
unfoldable pub cleared : Entry
cleared = record {
  active = false;
  sequence = 0;
  next = 0;
  have_last = false;
  present = 0;
  segs = replicate max_segments none;
}

unfoldable pub started : ℕ → Entry
unfolding cleared
started seq = record cleared { active = true; sequence = seq }

-- The place of the first entry that a test accepts.
unfoldable pub find : (Entry → Bool) → List Entry → Option ℕ
find test [] = none
find test (e ∷ es) =
    let rest = find test es in
    if test e then some 0 else elim rest [ none ↦ none | some k ↦ some (suc k) ]

abbrev pub of_sequence : ℕ → Entry → Bool
of_sequence seq e = e.active && (e.sequence == seq)

abbrev pub vacant : Entry → Bool
vacant e = not e.active

-- `seg_find_or_alloc`: the place of the entry, and the table with that entry in use.
unfoldable pub find_or_alloc : List Entry → ℕ → Option (ℕ × List Entry)
unfolding find
find_or_alloc t seq = elim (find (of_sequence seq) t) [
  | some k ↦ some (k, t)
  | none ↦ elim (find vacant t) [ none ↦ none | some k ↦ some (k, set t k (started seq)) ]
]

-- A segment that is there stays; none when `malloc` fails.
unfoldable pub store : Bool → Entry → ℕ → List ℕ → Option Entry
store alloc e seg msg = elim (get_or e.segs seg none) [
  | some old ↦ some e
  | none ↦
      if alloc
      then some (record e {
        next = if ltb e.next (seg + 1) then seg + 1 else e.next;
        present = e.present + 1;
        segs = set e.segs seg (some msg);
      })
      else none
]

abbrev pub marked : ℕ → Entry → Entry
marked more e = record e { have_last = e.have_last || (more == 0) }

abbrev pub complete : Entry → Bool
complete e = e.have_last && (e.present == e.next)

-- The bytes of a segment; a buffer that is not there has length 0.
abbrev pub bytes_of : Option (List ℕ) → List ℕ
bytes_of none = []
bytes_of (some bytes) = bytes

-- Whether one of `n` segments from `i` on is too short for a header.
unfoldable pub any_short : ℕ → List (Option (List ℕ)) → ℕ → ℕ → Bool
any_short hl segs i zero = false
any_short hl segs i (suc n) =
    ltb (length (bytes_of (get_or segs i none))) hl || any_short hl segs (i + 1) n

-- Their bytes behind the headers.
unfoldable pub payloads : ℕ → List (Option (List ℕ)) → ℕ → ℕ → List ℕ
payloads hl segs i zero = []
payloads hl segs i (suc n) = drop hl (bytes_of (get_or segs i none)) ++ payloads hl segs (i + 1) n

-- What an entry gives, and what is left of it. The first segment keeps its header.
unfoldable pub reassemble : ℕ → Bool → Entry → Entry × Option (List ℕ)
unfolding any_short payloads
reassemble hl alloc e =
    if not (complete e)
    then (e, none)
    else if any_short hl e.segs 1 (e.next - 1)
    then (cleared, none)
    else if not alloc
    then (cleared, none)
    else (cleared, some (bytes_of (get_or e.segs 0 none) ++ payloads hl e.segs 1 (e.next - 1)))

-- With the entry at place `k`.
unfoldable pub take_segment :
    ℕ → Bool → Bool → List Entry → ℕ → ℕ → ℕ → List ℕ → List Entry × Option (List ℕ)
unfolding store reassemble
take_segment hl alloc_seg alloc_full t k more seg msg =
    elim (store alloc_seg (get_or t k cleared) seg msg) [
      | none ↦ (t, none)
      | some e ↦ let (e', whole) = reassemble hl alloc_full (marked more e) in (set t k e', whole)
    ]

-- `oai_p7_handle_segmented`, and the message that it hands to `oai_p7_dispatch`; the two flags are
-- what the two `malloc` answer.
unfoldable pub handle_segmented :
    Codec → Bool → Bool → List Entry → List ℕ → List Entry × Option (List ℕ)
unfolding find_or_alloc take_segment
handle_segmented c alloc_seg alloc_full t msg = elim (c.unpack msg) [
  | none ↦ (t, none)
  | some hdr ↦
      let more = c.get_more hdr.m_segment_sequence in
      let seg = c.get_segment hdr.m_segment_sequence in
      if leb max_segments seg
      then (t, none)
      else elim (find_or_alloc t (c.get_sequence hdr.m_segment_sequence)) [
        | none ↦ (t, none)
        | some (k, t') ↦ take_segment c.header_length alloc_seg alloc_full t' k more seg msg
      ]
]

-- `oai_p7_dispatch`: the message type and the message that go to `ocudu_p7_translate_to_l2`.
unfoldable pub dispatch : Codec → List ℕ → Option (ℕ × List ℕ)
dispatch c msg =
    if ltb (length msg) c.header_length
    then none
    else elim (c.unpack msg) [ none ↦ none | some hdr ↦ some (hdr.message_id, msg) ]

unfoldable pub dispatch_whole : Codec → Option (List ℕ) → Option (ℕ × List ℕ)
unfolding dispatch
dispatch_whole c none = none
dispatch_whole c (some msg) = dispatch c msg

-- One round of `oai_p7_rx_task_thread`, for a datagram that the listener queued.
unfoldable pub rx_task :
    Codec → Bool → Bool → List Entry → List ℕ → List Entry × Option (ℕ × List ℕ)
unfolding handle_segmented dispatch_whole
rx_task c alloc_seg alloc_full t msg =
    if leb c.header_length (length msg)
    then elim (c.unpack_legacy msg) [
      | none ↦ (t, none)
      | some mss ↦
          if (c.get_more mss == 0) && (c.get_segment mss == 0)
          then (t, dispatch c msg)
          else let (t', whole) = handle_segmented c alloc_seg alloc_full t msg in
            (t', dispatch_whole c whole)
    ]
    else (t, none)

-- The datagrams of a stretch of time, while every `malloc` succeeds.
unfoldable pub handle_all : Codec → List Entry → List (List ℕ) → List Entry × List (List ℕ)
unfolding handle_segmented
handle_all c t [] = (t, [])
handle_all c t (msg ∷ more) =
    let (t', whole) = handle_segmented c true true t msg in
    let (t'', wholes) = handle_all c t' more in
    (t'', elim whole [ none ↦ wholes | some m ↦ m ∷ wholes ])

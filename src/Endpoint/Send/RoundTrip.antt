-- ===== src/Endpoint/Send/RoundTrip.antt =====
-- A message that is sent in segments, through any order of arrival, to the message again.
use x_fapi.Prelude.{
  ℕ, zero, suc, ◌+◌, ◌*◌, ◌/◌, ◌%◌, ◌^◌, ◌≤◌, ◌<◌, ◌≡◌, refl, sym, ap, ap₂, ◌∙◌, true, false, List,
  [], ◌∷◌, ◌++◌,
}
use x_fapi.Prelude.{
  Option, none, some, leb, ◌==◌, if◌then◌else◌, if_yes, if_no, length, get_or, set, take, drop, not,
  ℤ, pos, negsuc, map, arith, length-set, length-take, copies, get-set, get-set_other, Bool-cases,
  inl, inr, subst,
}
use x_fapi.Endpoint.Segments.{
  Codec, NrHeader, Entry, cleared, find, of_sequence, vacant, handle_all,
}
use x_fapi.Endpoint.Segments.Laws.{whole, IsSegmented, IsOrder}
use x_fapi.Endpoint.Segments.AnyOrder.{reassembly_lem}
use x_fapi.Endpoint.Send.{
  Packer, Vnf, p7_sendto, stamped, checked, segment, seg_body, seg_count, size_of, send_segments,
  send_p7,
}
use x_fapi.Endpoint.Send.Laws.{
  IsPacker, part, hdr, body, header_lem, length-part, some_segment, drop-whole,
}

-- `n` numbers from `s` on.
unfoldable pub upto : ℕ → ℕ → List ℕ
upto s zero = []
upto s (suc n) = s ∷ upto (s + 1) n

get-append_lt : (xs ys : List ℕ) (i : ℕ) → i < length xs → get_or (xs ++ ys) i 0 ≡ get_or xs i 0
get-append_lt [] ys i h = absurd (omega (arith, h))
get-append_lt (x ∷ xs) ys zero h = refl
get-append_lt (x ∷ xs) ys (suc i) h = get-append_lt xs ys i (omega (arith, h))

last_two :
    (l : List ℕ) (a b : ℕ)
    → 10 ≤ length l
    → (get_or (set (set l 8 a) 9 b) 8 0 ≡ a) × (get_or (set (set l 8 a) 9 b) 9 0 ≡ b)
last_two l a b room = (
  get-set_other (set l 8 a) 8 9 b 0 (λ e. omega (arith, e)) ∙ get-set l 8 a 0 (omega (arith, room)),
  get-set (set l 8 a) 9 b 0 (omega (arith, room, length-set l 8 a)),
)

-- The segment field stands in bytes 8 and 9.
stamped_lem :
    (h : List ℕ) (total mss : ℕ)
    → 10 ≤ length h
    → (get_or (stamped h total mss) 8 0 ≡ mss / 2 ^ 8 % 256)
      × (get_or (stamped h total mss) 9 0 ≡ mss % 256)
unfolding stamped
stamped_lem h total mss room = last_two _ (mss / 2 ^ 8 % 256) (mss % 256) (
    subst (λ k. 10 ≤ k)
      (sym (length-set _ 7 _ ∙ length-set _ 6 _ ∙ length-set _ 5 _ ∙ length-set h 4 _)) room)

-- What the two sides of the nFAPI library promise to each other: one header length, with the segment
-- field in bytes 8 and 9, highest first, where a header is unpacked, and macros that undo each other.
pub record IsLibrary (c : Codec) (p : Packer) : Type 0 where
  pub one_header : c.header_length ≡ p.header_length
  pub room : 10 ≤ p.header_length
  pub word : (m s q : ℕ) → p.set_mss m s q < 2 ^ 16
  pub more_back : (m s q : ℕ) → m < 2 → s < 128 → q < 256 → c.get_more (p.set_mss m s q) ≡ m
  pub segment_back : (m s q : ℕ) → m < 2 → s < 128 → q < 256 → c.get_segment (p.set_mss m s q) ≡ s
  pub sequence_back : (m s q : ℕ) → m < 2 → s < 128 → q < 256 → c.get_sequence (p.set_mss m s q) ≡ q
  pub unpacks :
      (d : List ℕ)
      → p.header_length ≤ length d
      → (h : NrHeader) × ((c.unpack d ≡ some h)
          × (h.m_segment_sequence ≡ get_or d 8 0 * 256 + get_or d 9 0))

module _ (c : Codec) (p : Packer) (v : Vnf) (buf : List ℕ) (ok : IsPacker p) (lib : IsLibrary c p)
    (long : 1400 < length buf) (few : seg_count p buf ≤ 128) where
  abbrev n : ℕ
  n = seg_count p buf

  abbrev datagram : ℕ → List ℕ
  datagram = part p v buf ok long

  abbrev mss : ℕ → ℕ
  mss i = p.set_mss (if i + 1 == n then 0 else 1) (i % 256) (v.p7_sequence % 256)

  field_lem : (i : ℕ) → get_or (datagram i) 8 0 * 256 + get_or (datagram i) 9 0 ≡ mss i
  unfolding part segment
  field_lem i =
      ap₂ (λ a b. a * 256 + b) (kept.0 ∙ in_header 8 (omega arith) ∙ stamps.0)
        (kept.1 ∙ in_header 9 (omega arith) ∙ stamps.1)
      ∙ together (mss i) (lib.word _ _ _)
    where
      header : List ℕ
      header = hdr p v buf ok long i

      kept :
          (get_or (checked p v (header ++ body p v buf ok long i)) 8 0
            ≡ get_or (header ++ body p v buf ok long i) 8 0)
          × (get_or (checked p v (header ++ body p v buf ok long i)) 9 0
              ≡ get_or (header ++ body p v buf ok long i) 9 0)
      kept = elim (Bool-cases v.checksum_enabled) [
        | inl on ↦ (
          ap (λ d. get_or d 8 0) (if_yes _ _ on)
              ∙ (ok.same_segment (header ++ body p v buf ok long i)).0,
          ap (λ d. get_or d 9 0) (if_yes _ _ on)
              ∙ (ok.same_segment (header ++ body p v buf ok long i)).1,
        )
        | inr off ↦ (ap (λ d. get_or d 8 0) (if_no _ _ off), ap (λ d. get_or d 9 0) (if_no _ _ off))
      ]

      size : length header ≡ p.header_length
      size = header_lem p v buf ok long _ _

      in_header :
          (j : ℕ) → j < 10 → get_or (header ++ body p v buf ok long i) j 0 ≡ get_or header j 0
      in_header j low =
          get-append_lt header (body p v buf ok long i) j (omega (arith, low, size, lib.room))

      stamps : (get_or header 8 0 ≡ mss i / 2 ^ 8 % 256) × (get_or header 9 0 ≡ mss i % 256)
      stamps =
          stamped_lem (take p.header_length buf) _ (mss i)
            (omega (arith, lib.room, long, length-take p.header_length buf))

      together : (m : ℕ) → m < 2 ^ 16 → m / 2 ^ 8 % 256 * 256 + m % 256 ≡ m
      together m small = omega (arith, small)

  backed : (i : ℕ) → p.header_length ≤ length (datagram i)
  backed i = omega (arith, length-part p v buf ok long i)

  header_of : ℕ → NrHeader
  header_of i = (lib.unpacks (datagram i) (backed i)).0

  mss_lem :
      (i : ℕ)
      → i < n
      → (header_of i).m_segment_sequence
        ≡ p.set_mss (if i + 1 == n then 0 else 1) i (v.p7_sequence % 256)
  unfolding header_of
  mss_lem i low =
      let small : i % 256 ≡ i = omega (arith, low, few) in
      (lib.unpacks (datagram i) (backed i)).1.1
      ∙ field_lem i
      ∙ ap (λ s. p.set_mss (if i + 1 == n then 0 else 1) s (v.p7_sequence % 256)) small

  more_flag : (i : ℕ) → (if i + 1 == n then 0 else 1) < 2
  more_flag i = ground arith

  segmented : IsSegmented c datagram n (v.p7_sequence % 256)
  unfolding header_of
  segmented = record {
    header = header_of;
    unpacked = λ i low. (lib.unpacks (datagram i) (backed i)).1.0;
    more = λ i low.
        let flag : c.get_more (header_of i).m_segment_sequence ≡ (if i + 1 == n then 0 else 1) =
          ap c.get_more (mss_lem i low)
          ∙ lib.more_back _ i _ (more_flag i) (omega (arith, low, few)) (omega arith) in
        ground (arith, flag);
    segment = λ i low.
        ap c.get_segment (mss_lem i low)
        ∙ lib.segment_back _ i _ (more_flag i) (omega (arith, low, few)) (omega arith);
    same_sequence = λ i low.
        ap c.get_sequence (mss_lem i low)
        ∙ lib.sequence_back _ i _ (more_flag i) (omega (arith, low, few)) (omega arith);
    backed = λ i low. omega (arith, lib.one_header, backed i);
    few = few;
  }

  module _ (sendto : List ℕ → Option ℕ) (all_sent : (d : List ℕ) → sendto d ≡ some (length d))
      (known : v.p7_addr_known ≡ true) where
    sendto_lem : (d : List ℕ) → p7_sendto v sendto d ≡ pos 0
    unfolding p7_sendto
    sendto_lem d =
        let whole_d : (length d == length d) ≡ true = ground arith in
        if_no _ _ (ap not known)
        ∙ ap
            (λ (o : Option ℕ). elim o [
              | none ↦ negsuc 0
              | some sent ↦ if sent == length d then pos 0 else negsuc 0
            ])
            (all_sent d)
        ∙ if_yes _ _ whole_d

    send_segments_lem :
        (m s offset : ℕ)
        → s + m ≡ n
        → (0 < m → offset ≡ p.header_length + seg_body p * s)
        → send_segments p v sendto buf m s offset ≡ (pos 0, map datagram (upto s m))
    unfolding send_segments upto part
    send_segments_lem zero s offset e o = refl
    send_segments_lem (suc m) s offset e o =
        ap sent_then (sendto_lem (segment p v buf n s (size_of p buf s) offset))
        ∙ ap₂ (λ (r : ℤ × List (List ℕ)) d. (r.0, d ∷ r.1))
            (send_segments_lem m (s + 1) (offset + size_of p buf s) (omega (arith, e)) next)
            (ap (segment p v buf n s (size_of p buf s)) here)
      where
        here : offset ≡ p.header_length + seg_body p * s
        here = o (omega arith)

        next : 0 < m → offset + size_of p buf s ≡ p.header_length + seg_body p * (s + 1)
        next more =
            let inner : (s + 1 == n) ≡ false = ground (arith, e, more) in
            let size : size_of p buf s ≡ seg_body p = if_no _ _ inner in omega (arith, here, size)

        sent_then : ℤ → ℤ × List (List ℕ)
        sent_then code =
            let seg = segment p v buf n s (size_of p buf s) offset in
            let rest = send_segments p v sendto buf m (s + 1) (offset + size_of p buf s) in
            elim code [
              | pos zero ↦ (rest.0, seg ∷ rest.1)
              | pos (suc a) ↦ (negsuc 0, seg ∷ [])
              | negsuc a ↦ (negsuc 0, seg ∷ [])
            ]

    send_p7_lem :
        p.pack (p.set_mss 0 0 (v.p7_sequence % 256)) ≡ some buf
        → (send_p7 p true sendto v).1 ≡ (pos 0, map datagram (upto 0 n))
    unfolding send_p7
    send_p7_lem packed =
        let large : leb (length buf) 1400 ≡ false = ground (arith, long) in
        let start : p.header_length ≡ p.header_length + seg_body p * 0 = omega arith in
        ap (λ o. (sent o).1) packed
        ∙ if_no _ _ large
        ∙ send_segments_lem n 0 p.header_length (omega arith) (λ h. start)
      where
        sent : Option (List ℕ) → Vnf × (ℤ × List (List ℕ))
        sent o = elim o [
          | none ↦ (v, (negsuc 0, []))
          | some b ↦ (
            record v { p7_sequence = (v.p7_sequence + 1) % 2 ^ 32 },
            if leb (length b) 1400
                then (p7_sendto v sendto (checked p v b), checked p v b ∷ [])
                else send_segments p v sendto b (seg_count p b) 0 p.header_length,
          )
        ]

    -- The datagram at place `i`.
    get-upto : (m s i : ℕ) → i < m → get_or (map datagram (upto s m)) i [] ≡ datagram (s + i)
    unfolding upto
    get-upto zero s i low = absurd (omega (arith, low))
    get-upto (suc m) s zero low = let e : s ≡ s + 0 = omega arith in ap datagram e
    get-upto (suc m) s (suc i) low =
        let e : s + 1 + i ≡ s + suc i = omega arith in
        get-upto m (s + 1) i (omega (arith, low)) ∙ ap datagram e

    -- A packed message of more than 1400 bytes and at most 128 segments, sent to a known address over
    -- a socket that takes every datagram, and received segment by segment in any order in which each
    -- arrives once, by a table with a vacant entry and none for its sequence, comes out of the
    -- reassembly as one message with the bytes of the packed message behind the header, and the entry
    -- is clear again; for a library whose two sides agree on the header and the segment field, and
    -- whose checksum changes other bytes of the header only.
    pub reassemble-send_p7 :
        (t : List Entry) (k : ℕ) (arrivals : List ℕ)
        → p.pack (p.set_mss 0 0 (v.p7_sequence % 256)) ≡ some buf
        → IsOrder n arrivals
        → find (of_sequence (v.p7_sequence % 256)) t ≡ none
        → find vacant t ≡ some k
        → let sent : List (List ℕ) = (send_p7 p true sendto v).1.1 in
          (msg : List ℕ) × ((handle_all c t (map (λ i. get_or sent i []) arrivals)
              ≡ (set t k cleared, msg ∷ []))
            × (drop p.header_length msg ≡ drop p.header_length buf))
    reassemble-send_p7 t k arrivals packed order unknown free = (
      whole p.header_length datagram n,
      (
        ap (handle_all c t) (same_datagrams ∙ map_all arrivals low)
            ∙ reassembly_lem c datagram n (v.p7_sequence % 256) t k arrivals segmented
                (some_segment p v buf ok long) order unknown free
            ∙ ap (λ h. (set t k cleared, whole h datagram n ∷ [])) lib.one_header,
        drop-whole p v buf ok long,
      ),
    )
      where
        same_datagrams :
            map (λ i. get_or (send_p7 p true sendto v).1.1 i []) arrivals
            ≡ map (λ i. get_or (map datagram (upto 0 n)) i []) arrivals
        same_datagrams =
            ap (λ (r : ℤ × List (List ℕ)). map (λ i. get_or r.1 i []) arrivals) (send_p7_lem packed)

        low : (i : ℕ) → 0 < copies i arrivals → i < n
        low i there = ground (arith, there, order.1 i)

        map_all :
            (l : List ℕ)
            → ((i : ℕ) → 0 < copies i l → i < n)
            → map (λ i. get_or (map datagram (upto 0 n)) i []) l ≡ map datagram l
        map_all [] inside = refl
        map_all (j ∷ l) inside =
            let zero_more : 0 + j ≡ j = omega arith in
            ap₂ (λ d ds. d ∷ ds) (get-upto n 0 j (inside j (ground arith)) ∙ ap datagram zero_more)
              (map_all l (λ i there. inside i (ground (arith, there))))

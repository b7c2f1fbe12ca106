-- ===== src/Endpoint/Segments/AnyOrder.antt =====
-- The segments of one message, in any order, through the table.
use x_fapi.Prelude.{ℕ, ◌+◌, ◌<◌, ◌≡◌, refl, ap, ap₂, ◌∙◌, true, false, List, [], ◌∷◌}
use x_fapi.Prelude.{
  Option, none, some, ltb, leb, if◌then◌else◌, if_no, length, set, copies, get-set, map, arith,
}
use x_fapi.Endpoint.Segments.{
  Codec, NrHeader, Entry, cleared, started, find, of_sequence, vacant, find_or_alloc, store, marked,
  reassemble, take_segment, handle_segmented, handle_all,
}
use x_fapi.Endpoint.Segments.Table.{find_bound, find-set, find_or_alloc_fresh}
use x_fapi.Endpoint.Segments.Entries.{Holds, grown, started-Holds, store_lem, grown-Holds}
use x_fapi.Endpoint.Segments.Laws.{set-set, whole, IsSegmented, IsOrder, reassembled, waits}

module _ (c : Codec) (part : ℕ → List ℕ) (n seq : ℕ) (s : IsSegmented c part n seq)
    (t0 : List Entry) (k : ℕ) (at : k < length t0) where
  -- The table with entry `e` at the place of the sequence.
  abbrev with_entry : Entry → List Entry
  with_entry e = set t0 k e

  after : List ℕ → Entry → ℕ → Entry
  after pre e i = marked (c.get_more (s.header i).m_segment_sequence) (grown part n e i)

  after-Holds :
      (pre : List ℕ) (e : Entry) (i : ℕ)
      → Holds part n pre e
      → copies i pre ≡ 0
      → i < n
      → Holds part n (i ∷ pre) (after pre e i)
  unfolding after
  after-Holds pre e i v new low =
      grown-Holds part n (c.get_more (s.header i).m_segment_sequence) i pre e v new low s.few
        (s.more i low)

  take_lem :
      (pre : List ℕ) (e : Entry) (i : ℕ)
      → Holds part n pre e
      → copies i pre ≡ 0
      → take_segment c.header_length true true
          (with_entry e)
          k
          (c.get_more (s.header i).m_segment_sequence)
          i
          (part i)
        ≡ (let (e', m) = reassemble c.header_length true (after pre e i) in (with_entry e', m))
  unfolding take_segment after
  take_lem pre e i v new =
      ap stored (
        ap (λ x. store true x i (part i)) (get-set t0 k e cleared at)
        ∙ store_lem part n pre e i v new)
      ∙ ap (λ t. (t, result.1)) (set-set t0 k e result.0)
    where
      result : Entry × Option (List ℕ)
      result = reassemble c.header_length true (after pre e i)

      stored : Option Entry → List Entry × Option (List ℕ)
      stored o = elim o [
        | none ↦ (with_entry e, none)
        | some x ↦
            let (e', m) =
              reassemble c.header_length true
                (marked (c.get_more (s.header i).m_segment_sequence) x) in
            (set (with_entry e) k e', m)
      ]

  handle_lem :
      (t : List Entry) (pre : List ℕ) (e : Entry) (i : ℕ)
      → find_or_alloc t seq ≡ some (k, with_entry e)
      → Holds part n pre e
      → copies i pre ≡ 0
      → i < n
      → handle_segmented c true true t (part i)
        ≡ (let (e', m) = reassemble c.header_length true (after pre e i) in (with_entry e', m))
  unfolding handle_segmented
  handle_lem t pre e i found v new low =
      let fits : leb 128 (c.get_segment mss) ≡ false =
        ground (arith, s.segment i low, s.few, low) in
      ap routed (s.unpacked i low)
      ∙ if_no _ _ fits
      ∙ ap₂ placed (s.segment i low) (ap (find_or_alloc t) (s.same_sequence i low) ∙ found)
      ∙ take_lem pre e i v new
    where
      mss : ℕ
      mss = (s.header i).m_segment_sequence

      placed : ℕ → Option (ℕ × List Entry) → List Entry × Option (List ℕ)
      placed seg o = elim o [
        | none ↦ (t, none)
        | some (j, t') ↦ take_segment c.header_length true true t' j (c.get_more mss) seg (part i)
      ]

      routed : Option NrHeader → List Entry × Option (List ℕ)
      routed o = elim o [
        | none ↦ (t, none)
        | some h ↦
            if leb 128 (c.get_segment h.m_segment_sequence)
            then (t, none)
            else elim (find_or_alloc t (c.get_sequence h.m_segment_sequence)) [
              | none ↦ (t, none)
              | some (j, t') ↦
                  take_segment c.header_length true true t' j (c.get_more h.m_segment_sequence)
                    (c.get_segment h.m_segment_sequence) (part i)
            ]
      ]

  module _ (unknown : find (of_sequence seq) t0 ≡ none) where
    -- The entry is found again.
    found_again :
        (e : Entry)
        → e.active ≡ true
        → e.sequence ≡ seq
        → find_or_alloc (with_entry e) seq ≡ some (k, with_entry e)
    unfolding find_or_alloc
    found_again e on same =
        let mine : of_sequence seq e ≡ true = ground (arith, on, same) in
        ap
          (λ (o : Option ℕ). elim o [
            | some j ↦ some (j, with_entry e)
            | none ↦ elim (find vacant (with_entry e)) [
              | none ↦ none
              | some j ↦ some (j, set (with_entry e) j (started seq))
            ]
          ])
          (find-set (of_sequence seq) t0 k e unknown at mine)

    abbrev Rest : List ℕ → List ℕ → Type 0
    Rest pre post =
        (length pre + length post ≡ n)
        × ((i : ℕ) → copies i pre + copies i post ≡ (if ltb i n then 1 else 0))

    next_of :
        (pre post : List ℕ) (i : ℕ)
        → Rest pre (i ∷ post)
        → (copies i pre ≡ 0) × (i < n) × Rest (i ∷ pre) post
    next_of pre post i (len, once) =
        let self : copies i (i ∷ post) ≡ copies i post + 1 = ground arith in
        (
          ground (arith, once i, self),
          ground (arith, once i, self),
          (omega (arith, len), λ j. ground (arith, once j)),
        )

    then_more :
        (t : List Entry) (msg : List ℕ) (more : List (List ℕ)) (res : List Entry × Option (List ℕ))
        → handle_segmented c true true t msg ≡ res
        → handle_all c t (msg ∷ more) ≡ (
            let (t'', wholes) = handle_all c res.0 more in
            (t'', elim res.1 [ none ↦ wholes | some m ↦ m ∷ wholes ]))
    unfolding handle_all
    then_more t msg more res e =
        ap
          (λ (r : List Entry × Option (List ℕ)).
            let (t'', wholes) = handle_all c r.0 more in
            (t'', elim r.1 [ none ↦ wholes | some m ↦ m ∷ wholes ]))
          e

    pub run_lem :
        (post pre : List ℕ) (i : ℕ) (e : Entry) (t : List Entry)
        → find_or_alloc t seq ≡ some (k, with_entry e)
        → e.sequence ≡ seq
        → Holds part n pre e
        → Rest pre (i ∷ post)
        → handle_all c t (map part (i ∷ post))
          ≡ (with_entry cleared, whole c.header_length part n ∷ [])
    unfolding handle_all after
    run_lem [] pre i e t found same v rest =
        let (new, low, done) = next_of pre [] i rest in
        then_more t (part i) [] _ (handle_lem t pre e i found v new low)
        ∙ ap
            (λ (r : Entry × Option (List ℕ)).
              (with_entry r.0, elim r.1 [ none ↦ [] | some m ↦ m ∷ [] ]))
            (reassembled part n (i ∷ pre) (after pre e i) (after-Holds pre e i v new low)
              (omega (arith, done.0), λ j. ground (arith, done.1 j)) (omega (arith, low))
              c.header_length s.backed)
    run_lem (j ∷ post) pre i e t found same v rest =
        let (new, low, rest') = next_of pre (j ∷ post) i rest in
        let v' : Holds part n (i ∷ pre) (after pre e i) = after-Holds pre e i v new low in
        let wait : reassemble c.header_length true (after pre e i) ≡ (after pre e i, none) =
          waits part n (i ∷ pre) (after pre e i) v' c.header_length (omega (arith, rest'.0)) in
        then_more t (part i) (map part (j ∷ post)) _ (
          handle_lem t pre e i found v new low
          ∙ ap (λ (r : Entry × Option (List ℕ)). (with_entry r.0, r.1)) wait)
        ∙ run_lem post (i ∷ pre) j (after pre e i) (with_entry (after pre e i))
            (found_again (after pre e i) v'.in_use same) same v' rest'

-- The segments of one message, of at most 128, with MORE set in all but the last, each in a
-- datagram with a header, received in any order in which each arrives once, by a table with a
-- vacant entry and none for their sequence, give nothing until the last has arrived, and then the
-- first segment with its header followed by the bytes behind the headers of the others in the
-- order of their numbers, once, while every allocation succeeds; the entry is clear again.
pub reassembly_lem :
    (c : Codec) (part : ℕ → List ℕ) (n seq : ℕ) (t : List Entry) (k : ℕ) (arrivals : List ℕ)
    → IsSegmented c part n seq
    → 0 < n
    → IsOrder n arrivals
    → find (of_sequence seq) t ≡ none
    → find vacant t ≡ some k
    → handle_all c t (map part arrivals) ≡ (set t k cleared, whole c.header_length part n ∷ [])
unfolding started
reassembly_lem c part n seq t k [] s some_part order unknown free =
    absurd (omega (arith, some_part, order.0))
reassembly_lem c part n seq t k (i ∷ more) s some_part order unknown free =
    run_lem c part n seq s t k (find_bound vacant t k free) unknown more [] i (started seq) t
      (find_or_alloc_fresh t seq k unknown free) refl (started-Holds part n seq)
      (omega (arith, order.0), λ j. ground (arith, order.1 j))

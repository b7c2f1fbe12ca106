-- ===== src/Endpoint/Listener/Buffers.antt =====
-- The receive buffers in a round of the listener.
use x_fapi.Prelude.{
  ℕ, ◌+◌, ◌<◌, ◌≡◌, ◌≢◌, refl, sym, ap, ◌∙◌, Bool, true, false, not, ◌&&◌, ◌||◌, Option, none, some,
  ◌==◌, ltb, if◌then◌else◌, if_both, get_or, get-set, get-set_other, length-set, copies, held_by,
  arith, Bool-cases, inl, inr,
}
use x_fapi.Endpoint.RxPool.{
  RxSlot, RxPool, no_slot, free_slot, busy, rx_pool_acquire, rx_pool_release, IsRxPool, Acquired,
  rx_pool_acquire_lem,
}
use x_fapi.Endpoint.Listener.{
  slot_bytes, Datagram, filled, given_back, read_into, with_slot, sized, peeked_at, receive_round,
  Receiver,
}

-- 1 for a buffer that is in use.
abbrev pub in_use : RxPool → ℕ → ℕ
in_use p i = if ltb i 256 && busy p i then 1 else 0

-- How often buffer `i` is in the hand of a thread, in the queue, or dropped.
abbrev pub owned : ℕ → Receiver → ℕ
owned i s = held_by i s.pending + copies i s.queue + held_by i s.working + copies i s.lost

-- Each buffer that is in use has one owner, and one that is free has none.
pub record IsReceiver (s : Receiver) : Type 0 where
  pub sound : IsRxPool s.pool
  pub owners : (i : ℕ) → owned i s ≡ in_use s.pool i

-- What an item that was made, or not, leaves of the pool.
abbrev pub Made : RxPool → Option ℕ × RxPool → Type 0
Made p r = IsRxPool r.1 × ((i : ℕ) → in_use r.1 i ≡ in_use p i + held_by i r.0)

-- Between two pools buffer `idx` alone changes hands.
one_changed :
    (p q : RxPool) (idx : ℕ)
    → idx < 256
    → busy p idx ≡ false
    → busy q idx ≡ true
    → ((j : ℕ) → j ≢ idx → busy q j ≡ busy p j)
    → (i : ℕ) → in_use q i ≡ in_use p i + held_by i (some idx)
one_changed p q idx low was now others i = elim (Bool-cases (idx == i)) [
  | inl here ↦
      let same : idx ≡ i = ground (arith, here) in
      changed i (busy p i) (busy q i) idx here low (sym (ap (busy p) same) ∙ was)
        (sym (ap (busy q) same) ∙ now)
  | inr other ↦ kept i (busy p i) (busy q i) idx other (others i (λ e. differ i idx other e))
]
  where
    changed :
        (i : ℕ) (was' now' : Bool) (idx : ℕ)
        → (idx == i) ≡ true
        → idx < 256
        → was' ≡ false
        → now' ≡ true
        → (if ltb i 256 && now' then 1 else 0)
          ≡ (if ltb i 256 && was' then 1 else 0) + (if idx == i then 1 else 0)
    changed i was' now' idx h low a b = ground (arith, h, low, a, b)

    kept :
        (i : ℕ) (was' now' : Bool) (idx : ℕ)
        → (idx == i) ≡ false
        → now' ≡ was'
        → (if ltb i 256 && now' then 1 else 0)
          ≡ (if ltb i 256 && was' then 1 else 0) + (if idx == i then 1 else 0)
    kept i was' now' idx h a = ground (arith, h, a)

    differ : (i idx : ℕ) → (idx == i) ≡ false → i ≢ idx
    differ i idx h e = ground (arith, h, e)

-- A buffer `idx` that is in use, and is given back.
pub released :
    (p : RxPool) (idx : ℕ)
    → IsRxPool p
    → idx < 256
    → busy p idx ≡ true
    → IsRxPool (rx_pool_release p (some idx))
      × ((i : ℕ) → in_use p i ≡ in_use (rx_pool_release p (some idx)) i + held_by i (some idx))
unfolding rx_pool_release
released p idx v low used = (
  record {
    all_slots = length-set p.slots idx free_slot ∙ v.all_slots;
    hint_inside = v.hint_inside;
  },
  one_changed (rx_pool_release p (some idx)) p idx low
      (ap (λ (s : RxSlot). s.in_use)
        (get-set p.slots idx free_slot no_slot (omega (arith, low, v.all_slots))))
      used
      (λ j other.
        sym (ap (λ (s : RxSlot). s.in_use) (get-set_other p.slots j idx free_slot no_slot other))),
)

filled_lem :
    (p : RxPool) (mlen idx : ℕ)
    → IsRxPool p
    → idx < 256
    → IsRxPool (filled mlen idx p) × ((i : ℕ) → busy (filled mlen idx p) i ≡ busy p i)
filled_lem p mlen idx v low = (
  record { all_slots = length-set p.slots idx marked ∙ v.all_slots; hint_inside = v.hint_inside },
  λ i. elim (Bool-cases (idx == i)) [
    | inl here ↦
        let same : idx ≡ i = ground (arith, here) in
        ap (busy (filled mlen idx p)) (sym same)
        ∙ ap (λ (s : RxSlot). s.in_use)
            (get-set p.slots idx marked no_slot (omega (arith, low, v.all_slots)))
        ∙ ap (busy p) same
    | inr other ↦
        ap (λ (s : RxSlot). s.in_use)
          (get-set_other p.slots i idx marked no_slot (λ e. ground (arith, other, e)))
  ],
)
  where
    marked : RxSlot
    marked = record (get_or p.slots idx no_slot) { length = mlen }

acquired_lem :
    (p q : RxPool) (idx : ℕ)
    → Acquired p (some idx, q)
    → (i : ℕ) → in_use q i ≡ in_use p i + held_by i (some idx)
acquired_lem p q idx (low, was, now, others) =
    one_changed p q idx low was now (λ j other. ap (λ (s : RxSlot). s.in_use) (others j other))

-- With the buffer `idx` of an acquire on `p`.
module _ (p q : RxPool) (idx : ℕ) (a : Acquired p (some idx, q)) (v : IsRxPool q) where
  given_back-Made :
      (r : RxPool) → IsRxPool r → ((i : ℕ) → busy r i ≡ busy q i) → Made p (given_back idx r)
  given_back-Made r w same =
      let (low, was, now, others) = a in
      let (ok, count) = released r idx w low (same idx ∙ now) in
      (
        ok,
        λ i.
            let x : _ ≡ _ = count i in
            let y : _ ≡ _ = acquired_lem p q idx a i in
            let z : in_use r i ≡ in_use q i = ap (λ b. if ltb i 256 && b then 1 else 0) (same i) in
            omega (arith, x, y, z),
      )

  read_into-Made : (d : Datagram) (mlen : ℕ) (o : Option ℕ) → Made p (read_into d mlen idx q o)
  read_into-Made d mlen none = given_back-Made q v (λ i. refl)
  read_into-Made d mlen (some n) =
      let (ok, same) = filled_lem q mlen idx v a.0 in
      if_both (Made p) (not (n == mlen)) (λ wrong. given_back-Made q v (λ i. refl))
        λ whole.
          if_both (Made p) (not d.memory) (λ full. given_back-Made _ ok same)
            λ room. (
              ok,
              λ i. ap (λ b. if ltb i 256 && b then 1 else 0) (same i) ∙ acquired_lem p q idx a i,
            )

module _ (p : RxPool) (v : IsRxPool p) where
  unchanged : Made p (none, p)
  unchanged = (v, λ i. omega arith)

  with_slot-Made :
      (d : Datagram) (mlen : ℕ) (r : Option ℕ × RxPool)
      → Acquired p r
      → IsRxPool r.1
      → Made p (with_slot d mlen r)
  with_slot-Made d mlen (none, q) (all, same) w = (
    w,
    λ i.
        let e : in_use q i ≡ in_use p i =
          ap (λ l. if ltb i 256 && (get_or l i no_slot).in_use then 1 else 0) same in
        omega (arith, e),
  )
  with_slot-Made d mlen (some idx, q) a w = read_into-Made p q idx a w d mlen d.received

  sized-Made : (hdr_len : ℕ) (d : Datagram) (o : Option ℕ) → Made p (sized hdr_len d p o)
  sized-Made hdr_len d none = unchanged
  sized-Made hdr_len d (some mlen) =
      if_both (Made p) (ltb mlen hdr_len || ltb slot_bytes mlen) (λ bad. unchanged)
        λ fits.
          let (a, w) = rx_pool_acquire_lem p v in with_slot-Made d mlen (rx_pool_acquire p) a w

  peeked_at-Made : (hdr_len : ℕ) (d : Datagram) (o : Option ℕ) → Made p (peeked_at hdr_len d p o)
  peeked_at-Made hdr_len d none = unchanged
  peeked_at-Made hdr_len d (some n) =
      if_both (Made p) (ltb n hdr_len) (λ runt. unchanged)
        λ whole. sized-Made hdr_len d d.message_length

  pub receive_round-Made : (hdr_len : ℕ) (d : Datagram) → Made p (receive_round hdr_len d p)
  unfolding receive_round
  receive_round-Made hdr_len d =
      if_both (Made p) (not d.readable) (λ quiet. unchanged)
        λ ready. peeked_at-Made hdr_len d d.peeked

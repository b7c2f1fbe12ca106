-- ===== src/Endpoint/RxPool.antt =====
-- core/OAI_OCUDU/oai_p7.c: the pool of receive buffers. A buffer is its place; the atomic operations are
-- steps of one thread at a time, as only the listener acquires.
use x_fapi.Prelude.{
  ℕ, zero, suc, ◌+◌, ◌-◌, ◌%◌, ◌^◌, ◌≤◌, ◌<◌, ◌≡◌, ◌≢◌, refl, ap, ◌∙◌, Bool, true, false, List, ◌⊎◌,
  inl, inr,
}
use x_fapi.Prelude.{
  Option, none, some, if◌then◌else◌, if_yes, if_no, get_or, set, replicate, length, arith,
  Bool-cases, get-set, get-set_other, length-set, sym, some_value,
}

-- OAI_VNF_P7_RX_POOL_SLOTS
abbrev pub pool_slots : ℕ
pool_slots = 256

-- `oai_p7_rx_slot_t`, less its bytes.
pub record RxSlot : Type 0 where
  pub length : ℕ
  pub in_use : Bool

pub record RxPool : Type 0 where
  pub slots : List RxSlot
  pub next_hint : ℕ
  pub acquire_fail : ℕ

abbrev pub no_slot : RxSlot
no_slot = record { length = 0; in_use = true }

abbrev pub free_slot : RxSlot
free_slot = record { length = 0; in_use = false }

unfoldable pub rx_pool_init : RxPool
rx_pool_init = record { slots = replicate pool_slots free_slot; next_hint = 0; acquire_fail = 0 }

abbrev pub busy : RxPool → ℕ → Bool
busy p i = (get_or p.slots i no_slot).in_use

-- The loop from the hint on, with `n` slots to go.
unfoldable pub search : RxPool → ℕ → ℕ → Option ℕ
search p start zero = none
search p start (suc n) =
    let idx = (start + (pool_slots - suc n)) % 2 ^ 32 % pool_slots in
    let rest = search p start n in if busy p idx then rest else some idx

-- The slot that the search ends at is marked.
abbrev pub took : RxPool → Option ℕ → Option ℕ × RxPool
took p none = (none, record p { acquire_fail = (p.acquire_fail + 1) % 2 ^ 32 })
took p (some idx) = (
  some idx,
  record p {
    slots = set p.slots idx (record (get_or p.slots idx no_slot) { in_use = true });
    next_hint = (idx + 1) % pool_slots;
  },
)

unfoldable pub rx_pool_acquire : RxPool → Option ℕ × RxPool
unfolding search
rx_pool_acquire p = took p (search p p.next_hint pool_slots)

unfoldable pub rx_pool_release : RxPool → Option ℕ → RxPool
rx_pool_release p none = p
rx_pool_release p (some idx) = record p { slots = set p.slots idx free_slot }

pub record IsRxPool (p : RxPool) : Type 0 where
  pub all_slots : length p.slots ≡ 256
  pub hint_inside : p.next_hint < 256

search-none :
    (p : RxPool) (start n : ℕ)
    → search p start n ≡ none
    → (k : ℕ) → 256 ≤ k + n
    → k < 256
    → n ≤ 256
    → busy p ((start + k) % 2 ^ 32 % 256) ≡ true
unfolding search
search-none p start zero e k from low few = absurd (omega (arith, from, low))
search-none p start (suc n) e k from low few = elim (Bool-cases (busy p idx)) [
  | inl used ↦ elim (here_or_later k from) [
    | inl here ↦ ap (λ j. busy p ((start + j) % 2 ^ 32 % 256)) here ∙ used
    | inr later ↦ search-none p start n (sym (if_yes _ _ used) ∙ e) k later low (omega (arith, few))
  ]
  | inr unused ↦ let first : some idx ≡ none = sym (if_no _ _ unused) ∙ e in absurd (cc)
]
  where
    idx : ℕ
    idx = (start + (256 - suc n)) % 2 ^ 32 % 256

    here_or_later : (k : ℕ) → 256 ≤ k + suc n → (k ≡ 256 - suc n) ⊎ (256 ≤ k + n)
    here_or_later k from = ground (arith, from)

search-some :
    (p : RxPool) (start n idx : ℕ)
    → search p start n ≡ some idx
    → (idx < 256) × (busy p idx ≡ false)
unfolding search
search-some p start zero idx e = absurd (cc)
search-some p start (suc n) idx e = elim (Bool-cases (busy p at)) [
  | inl used ↦ search-some p start n idx (sym (if_yes _ _ used) ∙ e)
  | inr unused ↦
      let same : at ≡ idx = some_value (sym (if_no _ _ unused) ∙ e) in
      (omega (arith, same), ap (busy p) (sym same) ∙ unused)
]
  where
    at : ℕ
    at = (start + (256 - suc n)) % 2 ^ 32 % 256

-- What an acquire says of the pool before it, and leaves behind.
abbrev pub Acquired : RxPool → Option ℕ × RxPool → Type 0
Acquired p (none, q) = ((j : ℕ) → j < 256 → busy p j ≡ true) × (q.slots ≡ p.slots)
Acquired p (some idx, q) =
    (idx < 256)
    × (busy p idx ≡ false)
    × (busy q idx ≡ true)
    × ((j : ℕ) → j ≢ idx → get_or q.slots j no_slot ≡ get_or p.slots j no_slot)

acquired :
    (p : RxPool) (o : Option ℕ)
    → IsRxPool p
    → search p p.next_hint 256 ≡ o
    → let q : Option ℕ × RxPool = took p o in Acquired p q × IsRxPool q.1
acquired p none v e = (
  (
    λ j low.
        let from_hint : (p.next_hint + (j + 256 - p.next_hint) % 256) % 2 ^ 32 % 256 ≡ j =
          omega (arith, low, v.hint_inside) in
        ap (busy p) (sym from_hint)
        ∙ search-none p p.next_hint 256 e ((j + 256 - p.next_hint) % 256) (omega arith)
            (omega arith) (omega arith),
    refl,
  ),
  record { all_slots = v.all_slots; hint_inside = v.hint_inside },
)
acquired p (some idx) v e =
    let (low, unused) = search-some p p.next_hint 256 idx e in
    let taken : RxSlot = record (get_or p.slots idx no_slot) { in_use = true } in
    (
      (
        low,
        unused,
        ap (λ (s : RxSlot). s.in_use)
            (get-set p.slots idx taken no_slot (omega (arith, low, v.all_slots))),
        λ j other. get-set_other p.slots j idx taken no_slot other,
      ),
      record { all_slots = length-set p.slots idx taken ∙ v.all_slots; hint_inside = omega arith },
    )

-- An acquire on a pool of 256 receive buffers with its hint below 256 keeps that so; it gives a
-- buffer that was free, which is in use then, and leaves all others as they were, or nothing,
-- which is only when all 256 are in use, and then no buffer changes.
pub rx_pool_acquire_lem :
    (p : RxPool) → IsRxPool p → Acquired p (rx_pool_acquire p) × IsRxPool (rx_pool_acquire p).1
unfolding rx_pool_acquire
rx_pool_acquire_lem p v = acquired p (search p p.next_hint 256) v refl

refused :
    (p : RxPool) (r : Option ℕ × RxPool)
    → Acquired p r
    → r.0 ≡ none
    → (j : ℕ) → j < 256
    → busy p j ≡ true
refused p (none, q) (all, same) e = all
refused p (some idx, q) a e = absurd (cc)

-- On a pool of 256 receive buffers with its hint below 256, an acquire behind the release of a
-- buffer of the pool gives a buffer.
pub acquire-release :
    (p : RxPool) (idx : ℕ)
    → IsRxPool p
    → idx < 256
    → (rx_pool_acquire (rx_pool_release p (some idx))).0 ≢ none
unfolding rx_pool_release
acquire-release p idx v low e =
    let q : RxPool = record p { slots = set p.slots idx free_slot } in
    let ok : IsRxPool q = record {
      all_slots = length-set p.slots idx free_slot ∙ v.all_slots;
      hint_inside = v.hint_inside;
    } in
    let free : busy q idx ≡ false =
      ap (λ (s : RxSlot). s.in_use)
        (get-set p.slots idx free_slot no_slot (omega (arith, low, v.all_slots))) in
    let used : busy q idx ≡ true =
      refused q (rx_pool_acquire q) (rx_pool_acquire_lem q ok).0 e idx low in
    let clash : true ≡ false = sym used ∙ free in absurd (cc)

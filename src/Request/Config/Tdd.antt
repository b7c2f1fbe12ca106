-- ===== src/Request/Config/Tdd.antt =====
-- The TDD table: the direction of a symbol against its place in the period.
use x_fapi.Prelude.{
  ℕ, zero, suc, ◌+◌, ◌-◌, ◌*◌, ◌%◌, ◌^◌, ◌≤◌, ◌<◌, ◌≡◌, refl, ap, ◌∙◌, List, [], ◌∷◌, ltb, leb,
  if◌then◌else◌, get_or, arith,
}
use x_fapi.Request.Config.Values.{
  TddPattern, slot_config, slot_symbols, slot_table, period_us, period_index, tdd_period_to_enum,
}

-- Down in the first symbols of the period, up in the last, neither in between.
abbrev pub direction : TddPattern → ℕ → ℕ
direction t place =
    if ltb place (t.dl_slots * 14 + t.dl_symbols)
    then 0
    else (if leb (t.period * 14 - (t.ul_slots * 14 + t.ul_symbols)) place then 1 else 2)

-- A pattern with one slot between the downlink and the uplink slots, whose symbols fit it.
pub record IsTddPattern (t : TddPattern) : Type 0 where
  pub one_between : t.dl_slots + 1 + t.ul_slots ≡ t.period
  pub fits : t.dl_symbols + t.ul_symbols ≤ 14
  pub word : t.period < 2 ^ 32

slot_config_lem :
    (t : TddPattern) (s k : ℕ)
    → IsTddPattern t
    → k < 14
    → slot_config t s k ≡ direction t (s % t.period * 14 + k)
unfolding slot_config
slot_config_lem t s k v h =
    let inside : s % t.period < t.period = grind (arith, v.one_between) in
    ground (arith, v.one_between, v.fits, v.word, inside)

get-slot_symbols :
    (t : TddPattern) (s from n k : ℕ)
    → k < n
    → get_or (slot_symbols t s from n) k 2 ≡ slot_config t s (from + k)
unfolding slot_symbols
get-slot_symbols t s from zero k h = absurd (omega arith)
get-slot_symbols t s from (suc n) zero h =
    let e : from ≡ from + 0 = omega arith in ap (slot_config t s) e
get-slot_symbols t s from (suc n) (suc k) h =
    let e : from + 1 + k ≡ from + suc k = omega arith in
    get-slot_symbols t s (from + 1) n k (omega arith) ∙ ap (slot_config t s) e

get-slot_table :
    (t : TddPattern) (from n s : ℕ)
    → s < n
    → get_or (slot_table t from n) s [] ≡ slot_symbols t (from + s) 0 14
unfolding slot_table
get-slot_table t from zero s h = absurd (omega arith)
get-slot_table t from (suc n) zero h =
    let e : from ≡ from + 0 = omega arith in ap (λ i. slot_symbols t i 0 14) e
get-slot_table t from (suc n) (suc s) h =
    let e : from + 1 + s ≡ from + suc s = omega arith in
    get-slot_table t (from + 1) n s (omega arith) ∙ ap (λ i. slot_symbols t i 0 14) e

-- For a pattern with one slot between its downlink and its uplink slots, whose symbols fit that slot,
-- the table that is sent says of symbol k of slot s: down if its place in the period lies before the
-- end of the downlink part, up if it lies behind the start of the uplink part, neither in between.
pub slot_table_lem :
    (t : TddPattern) (n s k : ℕ)
    → IsTddPattern t
    → s < n
    → k < 14
    → get_or (get_or (slot_table t 0 n) s []) k 2 ≡ direction t (s % t.period * 14 + k)
slot_table_lem t n s k v hs hk =
    ap (λ l. get_or l k 2) (get-slot_table t 0 n s hs)
    ∙ get-slot_symbols t (0 + s) 0 14 k hk
    ∙ (let e : 0 + s ≡ s = omega arith in
        let f : 0 + k ≡ k = omega arith in
        ap (λ i. slot_config t i (0 + k)) e ∙ ap (slot_config t s) f)
    ∙ slot_config_lem t s k v hk

-- The periods of nFAPI in microseconds, by their index.
abbrev pub periods_us : List ℕ
periods_us = 500 ∷ 625 ∷ 1000 ∷ 1250 ∷ 2000 ∷ 2500 ∷ 5000 ∷ 10000 ∷ 20000 ∷ []

in_us :
    (c period_slots mu : ℕ)
    → c ≤ 20000
    → mu ≤ 4
    → period_slots * 1000 ≡ c * 2 ^ mu
    → period_us period_slots mu ≡ c
in_us c p zero small h e = omega (arith, e)
in_us c p (suc zero) small h e = omega (arith, e)
in_us c p (suc (suc zero)) small h e = omega (arith, e)
in_us c p (suc (suc (suc zero))) small h e = omega (arith, e)
in_us c p (suc (suc (suc (suc zero)))) small h e = omega (arith, e)
in_us c p (suc (suc (suc (suc (suc mu))))) small h e = absurd (omega arith)

index_of :
    (i : ℕ) → i < 9 → (get_or periods_us i 0 ≤ 20000) × (period_index (get_or periods_us i 0) ≡ i)
unfolding period_index
index_of zero h = (omega arith, refl)
index_of (suc zero) h = (omega arith, refl)
index_of (suc (suc zero)) h = (omega arith, refl)
index_of (suc (suc (suc zero))) h = (omega arith, refl)
index_of (suc (suc (suc (suc zero)))) h = (omega arith, refl)
index_of (suc (suc (suc (suc (suc zero))))) h = (omega arith, refl)
index_of (suc (suc (suc (suc (suc (suc zero)))))) h = (omega arith, refl)
index_of (suc (suc (suc (suc (suc (suc (suc zero))))))) h = (omega arith, refl)
index_of (suc (suc (suc (suc (suc (suc (suc (suc zero)))))))) h = (omega arith, refl)
index_of (suc (suc (suc (suc (suc (suc (suc (suc (suc i))))))))) h = absurd (omega arith)

-- Of a period that lasts as long as the nFAPI period with index i, in slots of numerology mu at most 4, the
-- index that is sent is i.
pub tdd_period_to_enum_lem :
    (i period_slots mu : ℕ)
    → i < 9
    → mu ≤ 4
    → period_slots * 1000 ≡ get_or periods_us i 0 * 2 ^ mu
    → tdd_period_to_enum period_slots mu ≡ i
unfolding tdd_period_to_enum
tdd_period_to_enum_lem i period_slots mu hi hm e =
    let (small, index) = index_of i hi in
    ap period_index (in_us (get_or periods_us i 0) period_slots mu small hm e) ∙ index

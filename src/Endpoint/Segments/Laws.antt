-- ===== src/Endpoint/Segments/Laws.antt =====
-- The segments of one message in an entry.
use x_fapi.Prelude.{
  ℕ, zero, suc, ◌+◌, ◌-◌, ◌≤◌, ◌<◌, ◌≡◌, refl, ap, ap₂, ◌∙◌, true, false, ◌||◌, not, List, [], ◌∷◌,
  ◌++◌,
}
use x_fapi.Prelude.{
  Option, none, some, ltb, ◌==◌, if◌then◌else◌, if_yes, if_no, length, get_or, set, drop, copies,
  arith,
}
use x_fapi.Endpoint.Segments.{
  Codec, NrHeader, Entry, cleared, complete, bytes_of, any_short, payloads, reassemble,
}
use x_fapi.Endpoint.Segments.Entries.{Holds}

pub set-set : {A : Type 0} (l : List A) (k : ℕ) (a b : A) → set (set l k a) k b ≡ set l k b
set-set [] k a b = refl
set-set (x ∷ l) zero a b = refl
set-set (x ∷ l) (suc k) a b = ap (λ m. x ∷ m) (set-set l k a b)

-- The bytes behind the headers of `m` segments from `i` on.
unfoldable pub bodies : ℕ → (ℕ → List ℕ) → ℕ → ℕ → List ℕ
bodies hl part i zero = []
bodies hl part i (suc m) = drop hl (part i) ++ bodies hl part (i + 1) m

-- The first segment, and the bytes behind the headers of the others.
abbrev pub whole : ℕ → (ℕ → List ℕ) → ℕ → List ℕ
whole hl part n = part 0 ++ bodies hl part 1 (n - 1)

-- Datagrams that carry the `n` segments of one message with sequence number `seq`, with MORE set in all
-- but the last.
pub record IsSegmented (c : Codec) (part : ℕ → List ℕ) (n seq : ℕ) : Type 0 where
  pub header : ℕ → NrHeader
  pub unpacked : (i : ℕ) → i < n → c.unpack (part i) ≡ some (header i)
  pub more : (i : ℕ) → i < n → (c.get_more (header i).m_segment_sequence == 0) ≡ (i + 1 == n)
  pub segment : (i : ℕ) → i < n → c.get_segment (header i).m_segment_sequence ≡ i
  pub same_sequence : (i : ℕ) → i < n → c.get_sequence (header i).m_segment_sequence ≡ seq
  pub backed : (i : ℕ) → i < n → c.header_length ≤ length (part i)
  pub few : n ≤ 128

-- Every number below `n` once, and no other.
abbrev pub IsOrder : ℕ → List ℕ → Type 0
IsOrder n l = (length l ≡ n) × ((i : ℕ) → copies i l ≡ (if ltb i n then 1 else 0))

module _ (part : ℕ → List ℕ) (n : ℕ) (pre : List ℕ) (e : Entry) (v : Holds part n pre e) where
  unfinished : length pre < n → complete e ≡ false
  unfinished h = ground (arith, v.end_seen, v.counted, v.above (n - 1), v.below, h)

  module _ (all : IsOrder n pre) (some_part : 0 < n) where
    here : (i : ℕ) → i < n → get_or e.segs i none ≡ some (part i)
    here i h =
        let once : (copies i pre == 0) ≡ false = ground (arith, all.1 i, h) in
        v.buffers i ∙ if_no _ _ once

    next_lem : e.next ≡ n
    next_lem = ground (arith, all.1 (n - 1), v.above (n - 1), v.below, some_part)

    finished : complete e ≡ true
    finished = ground (arith, next_lem, v.counted, v.end_seen, all.0, all.1 (n - 1), some_part)

    payloads_lem : (hl i m : ℕ) → i + m ≤ n → payloads hl e.segs i m ≡ bodies hl part i m
    unfolding payloads bodies
    payloads_lem hl i zero h = refl
    payloads_lem hl i (suc m) h =
        ap₂ (λ (o : Option (List ℕ)) l. drop hl (bytes_of o) ++ l) (here i (omega (arith, h)))
          (payloads_lem hl (i + 1) m (omega (arith, h)))

    any_short_lem :
        (hl i m : ℕ)
        → ((j : ℕ) → j < n → hl ≤ length (part j))
        → i + m ≤ n
        → any_short hl e.segs i m ≡ false
    unfolding any_short
    any_short_lem hl i zero backed h = refl
    any_short_lem hl i (suc m) backed h =
        let long : ltb (length (part i)) hl ≡ false = ground (arith, backed i (omega (arith, h))) in
        ap₂ (λ (o : Option (List ℕ)) r. ltb (length (bytes_of o)) hl || r)
          (here i (omega (arith, h))) (any_short_lem hl (i + 1) m backed (omega (arith, h)))
        ∙ ap (λ b. b || false) long

    pub reassembled :
        (hl : ℕ)
        → ((j : ℕ) → j < n → hl ≤ length (part j))
        → reassemble hl true e ≡ (cleared, some (whole hl part n))
    unfolding reassemble
    reassembled hl backed =
        let up_to : 1 + (n - 1) ≤ n = omega (arith, some_part) in
        let whole_lem : bytes_of (get_or e.segs 0 none) ++ payloads hl e.segs 1 (n - 1)
            ≡ whole hl part n =
          ap₂ (λ (o : Option (List ℕ)) l. bytes_of o ++ l) (here 0 some_part)
            (payloads_lem hl 1 (n - 1) up_to) in
        if_no _ _ (ap not finished)
        ∙ ap
            (λ m. if any_short hl e.segs 1 (m - 1) then (cleared, none) else (
              cleared,
              some (bytes_of (get_or e.segs 0 none) ++ payloads hl e.segs 1 (m - 1)),
            ))
            next_lem
        ∙ if_no _ _ (any_short_lem hl 1 (n - 1) backed up_to)
        ∙ ap (λ m. (cleared, some m)) whole_lem

  pub waits : (hl : ℕ) → length pre < n → reassemble hl true e ≡ (e, none)
  unfolding reassemble
  waits hl h = if_yes _ _ (ap not (unfinished h))

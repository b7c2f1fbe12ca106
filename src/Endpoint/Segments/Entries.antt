-- ===== src/Endpoint/Segments/Entries.antt =====
-- What an entry holds while the segments of one message arrive, in any order.
use x_fapi.Prelude.{
  ℕ, zero, suc, ◌+◌, ◌-◌, ◌≤◌, ◌<◌, ◌≡◌, ◌≢◌, refl, sym, ap, ◌∙◌, subst, true, false, List, [], ◌∷◌,
}
use x_fapi.Prelude.{
  Option, none, some, ltb, ◌==◌, if◌then◌else◌, if_yes, if_no, length, get_or, set, replicate,
  copies, get-set, get-set_other, length-set, length-replicate, arith, ◌⊎◌, inl, inr,
}
use x_fapi.Endpoint.Segments.{Entry, cleared, started, store, marked}

pub length-cleared : length (cleared.segs) ≡ 128
unfolding cleared
length-cleared = length-replicate {A = Option (List ℕ)} 128 none

get-replicate : (n i : ℕ) → get_or (replicate {A = Option (List ℕ)} n none) i none ≡ none
get-replicate zero i = refl
get-replicate (suc n) zero = refl
get-replicate (suc n) (suc i) = get-replicate n i

equal_or_not : (a b : ℕ) → (a ≡ b) ⊎ (a ≢ b)
equal_or_not a b = ground arith

-- A message of `n` segments; `part i` is the datagram with segment `i`.
module _ (part : ℕ → List ℕ) (n : ℕ) where
  -- The buffer at place `i` when the segments `pre` have arrived.
  abbrev pub buffered : List ℕ → ℕ → Option (List ℕ)
  buffered pre i = if copies i pre == 0 then none else some (part i)

  -- The state of an entry when the segments `pre` have arrived.
  pub record Holds (pre : List ℕ) (e : Entry) : Type 0 where
    pub in_use : e.active ≡ true
    pub size : length e.segs ≡ 128
    pub buffers : (i : ℕ) → get_or e.segs i none ≡ buffered pre i
    pub counted : e.present ≡ length pre
    pub above : (i : ℕ) → e.next ≤ i → copies i pre ≡ 0
    pub below : e.next ≤ n
    pub end_seen : e.have_last ≡ ltb 0 (copies (n - 1) pre)

  pub started-Holds : (seq : ℕ) → Holds [] (started seq)
  unfolding started cleared
  started-Holds seq = record {
    in_use = refl;
    size = length-cleared;
    buffers = λ i. get-replicate 128 i;
    counted = refl;
    above = λ i h. refl;
    below = omega arith;
    end_seen = refl;
  }

  -- The entry with one more segment.
  abbrev pub grown : Entry → ℕ → Entry
  grown e i = record e {
    next = if ltb e.next (i + 1) then i + 1 else e.next;
    present = e.present + 1;
    segs = set e.segs i (some (part i));
  }

  pub store_lem :
      (pre : List ℕ) (e : Entry) (i : ℕ)
      → Holds pre e
      → copies i pre ≡ 0
      → store true e i (part i) ≡ some (grown e i)
  unfolding store
  store_lem pre e i v new =
      let absent : (copies i pre == 0) ≡ true = ground (arith, new) in
      ap (λ (o : Option (List ℕ)). elim o [ some old ↦ some e | none ↦ some (grown e i) ])
        (v.buffers i ∙ if_yes _ _ absent)

  grown-buffers :
      (pre : List ℕ) (e : Entry) (i j : ℕ)
      → Holds pre e
      → i < 128
      → (j ≡ i) ⊎ (j ≢ i)
      → get_or (set e.segs i (some (part i))) j none ≡ buffered (i ∷ pre) j
  grown-buffers pre e i j v low (inl same) =
      let there : (copies i (i ∷ pre) == 0) ≡ false = ground arith in
      subst (λ j. get_or (set e.segs i (some (part i))) j none ≡ buffered (i ∷ pre) j) (sym same)
        (get-set e.segs i (some (part i)) none (omega (arith, low, v.size)) ∙ sym (if_no _ _ there))
  grown-buffers pre e i j v low (inr other) =
      let unchanged : copies j pre ≡ copies j (i ∷ pre) = ground (arith, other) in
      get-set_other e.segs j i (some (part i)) none other
      ∙ v.buffers j
      ∙ ap (λ k. if k == 0 then none else some (part j)) unchanged

  pub grown-Holds :
      (more i : ℕ) (pre : List ℕ) (e : Entry)
      → Holds pre e
      → copies i pre ≡ 0
      → i < n
      → n ≤ 128
      → (more == 0) ≡ (i + 1 == n)
      → Holds (i ∷ pre) (marked more (grown e i))
  grown-Holds more i pre e v new low few mark = record {
    in_use = v.in_use;
    size = length-set e.segs i (some (part i)) ∙ v.size;
    buffers = λ j. grown-buffers pre e i j v (omega (arith, low, few)) (equal_or_not j i);
    counted = omega (arith, v.counted);
    above = λ j h. let le : e.next ≤ j = ground (arith, h) in ground (arith, h, v.above j le);
    below = ground (arith, v.below);
    end_seen = ground (arith, v.end_seen, mark, low);
  }

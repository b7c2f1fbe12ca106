-- ===== src/Request/Config/Heap/Track.antt =====
-- A block on the heap under the calls of the allocator.
use x_fapi.Prelude.{
  ℕ, zero, suc, ◌+◌, ◌<◌, ◌≡◌, refl, ap, ◌∙◌, Bool, true, false, List, [], ◌∷◌, ◌++◌, ◌&&◌, Option,
  none, some, ◌==◌, ltb, leb, if◌then◌else◌, arith, inl, inr, Bool-cases, length, some_value,
}
use x_fapi.Request.Config.{HeapOp, alloc, release, request, slot_list, alloc_slots, free_slots}

-- Block `b` under a call, from whether it is live: none for a block that is allocated while it is live, or
-- freed while it is not.
unfoldable pub touch : ℕ → Bool → HeapOp → Option Bool
touch b live (alloc a) = if a == b then (if live then none else some true) else some live
touch b live (release a) = if a == b then (if live then some false else none) else some live

-- Block `b` behind a list of calls.
unfoldable pub track : ℕ → Bool → List HeapOp → Option Bool
track b live [] = some live
track b live (op ∷ ops) = elim (touch b live op) [ none ↦ none | some now ↦ track b now ops ]

pub track-append :
    (b : ℕ) (live now : Bool) (xs ys : List HeapOp)
    → track b live xs ≡ some now
    → track b live (xs ++ ys) ≡ track b now ys
unfolding track
track-append b live now [] ys e = ap (λ l. track b l ys) (some_value e)
track-append b live now (x ∷ xs) ys e =
    onward (λ l h. track-append b l now xs ys h) (touch b live x) e
  where
    onward :
        ((l : Bool) → track b l xs ≡ some now → track b l (xs ++ ys) ≡ track b now ys)
        → (o : Option Bool) → elim o [ none ↦ none | some l ↦ track b l xs ] ≡ some now
        → elim o [ none ↦ none | some l ↦ track b l (xs ++ ys) ] ≡ track b now ys
    onward ih none h = absurd (cc)
    onward ih (some l) h = ih l h

-- Block `b` lies before the slots from `s` on.
pub alloc_elsewhere :
    (b : ℕ) (live : Bool) (mem : ℕ → Bool) (s n : ℕ)
    → b < 3 + s
    → track b live (alloc_slots mem s n).0 ≡ some live
unfolding track touch alloc_slots
alloc_elsewhere b live mem s zero h = refl
alloc_elsewhere b live mem s (suc n) h =
    let ih : track b live (alloc_slots mem (s + 1) n).0 ≡ some live =
      alloc_elsewhere b live mem (s + 1) n (omega arith) in
    elim (Bool-cases (mem (slot_list s))) [
      | inl got ↦ rw got (ground (arith, ih))
      | inr failed ↦ rw failed refl
    ]

pub free_elsewhere :
    (b : ℕ) (live : Bool) (s n : ℕ) → b < 3 + s → track b live (free_slots s n) ≡ some live
unfolding track touch free_slots
free_elsewhere b live s zero h = refl
free_elsewhere b live s (suc n) h =
    let ih : track b live (free_slots (s + 1) n) ≡ some live =
      free_elsewhere b live (s + 1) n (omega arith) in
    ground (arith, ih)

-- One of the slots from `s` on, `n` of them.
abbrev pub in_range : ℕ → ℕ → ℕ → Bool
in_range b s n = leb (3 + s) b && ltb b (3 + s + n)

pub track-alloc_slots :
    (b : ℕ) (mem : ℕ → Bool) (s n : ℕ)
    → track b false (alloc_slots mem s n).0 ≡ some (in_range b s (length (alloc_slots mem s n).0))
unfolding track touch alloc_slots
track-alloc_slots b mem s zero = ground arith
track-alloc_slots b mem s (suc n) =
    let ih : _ ≡ _ = track-alloc_slots b mem (s + 1) n in
    elim (Bool-cases (mem (slot_list s))) [
      | inl got ↦ rw got (elim (Bool-cases (slot_list s == b)) [
        | inl here ↦
            let after : track b true (alloc_slots mem (s + 1) n).0 ≡ some true =
              alloc_elsewhere b true mem (s + 1) n (ground arith) in
            ground (arith, after)
        | inr other ↦ ground (arith, ih)
      ])
      | inr failed ↦ rw failed (ground arith)
    ]

pub track-free_slots : (b s n : ℕ) → track b (in_range b s n) (free_slots s n) ≡ some false
unfolding track touch free_slots
track-free_slots b s zero = ground arith
track-free_slots b s (suc n) =
    let ih : track b (in_range b (s + 1) n) (free_slots (s + 1) n) ≡ some false =
      track-free_slots b (s + 1) n in
    elim (Bool-cases (slot_list s == b)) [
      | inl here ↦
          let after : track b false (free_slots (s + 1) n) ≡ some false =
            free_elsewhere b false (s + 1) n (ground arith) in
          let live : in_range b s (suc n) ≡ true = ground arith in rw live (ground (arith, after))
      | inr other ↦
          let same : in_range b s (suc n) ≡ in_range b (s + 1) n = ground arith in
          rw same (ground (arith, ih))
    ]

-- How many slots were allocated: all, or those before the one that failed.
pub stopped :
    (mem : ℕ → Bool) (s n : ℕ)
    → s + length (alloc_slots mem s n).0
      ≡ elim (alloc_slots mem s n).1 [ none ↦ s + n | some q ↦ q ]
unfolding alloc_slots
stopped mem s zero = refl
stopped mem s (suc n) = ground (arith, stopped mem (s + 1) n)

abbrev pub done : List HeapOp
done = release request ∷ []

pub track-cons :
    (b : ℕ) (l m : Bool) (op : HeapOp) (ops : List HeapOp)
    → touch b l op ≡ some m
    → track b l (op ∷ ops) ≡ track b m ops
unfolding track
track-cons b l m op ops e =
    ap (λ (o : Option Bool). elim o [ none ↦ none | some now ↦ track b now ops ]) e

pub track-two :
    (b : ℕ) (l m k : Bool) (op next : HeapOp) (ops : List HeapOp)
    → touch b l op ≡ some m
    → touch b m next ≡ some k
    → track b l (op ∷ next ∷ ops) ≡ track b k ops
track-two b l m k op next ops e f = track-cons b l m op (next ∷ ops) e ∙ track-cons b m k next ops f

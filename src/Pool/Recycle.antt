-- ===== src/Pool/Recycle.antt =====
-- A slot indication: the oldest slot's blocks go to the free stack, and the slots move up by one.
use x_fapi.Prelude.{
  ℕ, zero, suc, ◌+◌, ◌≤◌, ◌<◌, ◌≡◌, refl, sym, ap, ap₂, subst, ◌∙◌, List, [], ◌∷◌, ◌++◌, append-nil,
  append_assoc,
}
use x_fapi.Prelude.{
  arith, length, get_or, set, take, drop, All, length-set, length-append, length-drop, take-set,
  drop-get, copies, copies-append,
}
use x_fapi.Pool.{Slot, Pool, no_slot, emptied, recycle, shift, on_slot_indication}
use x_fapi.Pool.Laws.{All-get}
use x_fapi.Pool.View.{free, held, all_held, blocks, total_held, IsSlot, IsPool}

length-recycle :
    (b : List ℕ) (i n : ℕ) (fl : List ℕ) (top : ℕ) → length (recycle b i n fl top).0 ≡ length fl
unfolding recycle
length-recycle b i zero fl top = refl
length-recycle b i (suc n) fl top =
    length-recycle b (i + 1) n (set fl top (get_or b i 0)) (top + 1)
    ∙ length-set fl top (get_or b i 0)

recycle-top : (b : List ℕ) (i n : ℕ) (fl : List ℕ) (top : ℕ) → (recycle b i n fl top).1 ≡ top + n
unfolding recycle
recycle-top b i zero fl top = omega arith
recycle-top b i (suc n) fl top =
    omega (arith, recycle-top b (i + 1) n (set fl top (get_or b i 0)) (top + 1))

-- The loop pushes the part of the array that is in use.
recycle_lem :
    (b : List ℕ) (i n : ℕ) (fl : List ℕ) (top : ℕ)
    → i + n ≤ length b
    → top + n ≤ length fl
    → take (top + n) (recycle b i n fl top).0 ≡ take top fl ++ take n (drop i b)
unfolding recycle
recycle_lem b i zero fl top h k =
    let e : top + 0 ≡ top = omega arith in ap (λ m. take m fl) e ∙ sym (append-nil (take top fl))
recycle_lem b i (suc n) fl top h k =
    let e : top + suc n ≡ (top + 1) + n = omega arith in
    let room : (top + 1) + n ≤ length (set fl top (get_or b i 0)) =
      omega (arith, length-set fl top (get_or b i 0)) in
    ap (λ m. take m (recycle b (i + 1) n (set fl top (get_or b i 0)) (top + 1)).0) e
    ∙ recycle_lem b (i + 1) n (set fl top (get_or b i 0)) (top + 1) (omega arith) room
    ∙ ap (λ l. l ++ take n (drop (i + 1) b)) (take-set fl top (get_or b i 0) (omega arith))
    ∙ append_assoc (take top fl) (get_or b i 0 ∷ []) (take n (drop (i + 1) b))
    ∙ ap (λ l. take top fl ++ take (suc n) l) (sym (drop-get b i 0 (omega arith)))

shift-suc : (n k : ℕ) (s : Slot) (ss : List Slot) → shift n (k + 1) (s ∷ ss) ≡ s ∷ shift n k ss
unfolding shift
shift-suc zero k s ss = refl
shift-suc (suc n) k s ss =
    let e : k + 1 ≡ suc k = omega arith in
    let f : k + 1 + 1 ≡ suc (k + 1) = omega arith in
    ap₂ (λ i j. shift n (k + 1 + 1) (set (s ∷ ss) i (get_or (s ∷ ss) j no_slot))) e f
    ∙ shift-suc n (k + 1) s (set ss k (get_or ss (k + 1) no_slot))

-- The loop that moves up all slots of a list repeats the last one.
shift_lem :
    (s : Slot) (ss : List Slot)
    → shift (length ss) 0 (s ∷ ss) ≡ ss ++ (get_or (s ∷ ss) (length ss) no_slot ∷ [])
unfolding shift
shift_lem s [] = refl
shift_lem s (t ∷ ss) = shift-suc (length ss) 0 t (t ∷ ss) ∙ ap (λ l. t ∷ l) (shift_lem t ss)

empty_last : (ss : List Slot) (s t : Slot) → set (ss ++ (s ∷ [])) (length ss) t ≡ ss ++ (t ∷ [])
empty_last [] s t = refl
empty_last (x ∷ ss) s t = ap (λ l. x ∷ l) (empty_last ss s t)

get_last : (ss : List Slot) (s : Slot) → get_or (ss ++ (s ∷ [])) (length ss) no_slot ≡ s
get_last [] s = refl
get_last (x ∷ ss) s = get_last ss s

emptied_same :
    (x : Slot) (ss : List Slot) (n : ℕ)
    → emptied (get_or (emptied x ∷ ss) n no_slot) ≡ emptied (get_or (x ∷ ss) n no_slot)
emptied_same x ss zero = refl
emptied_same x ss (suc n) = refl

abbrev shifted : ℕ → List Slot → List Slot
shifted n ss =
    let moved = shift n 0 (set ss 0 (emptied (get_or ss 0 no_slot))) in
    set moved n (emptied (get_or moved n no_slot))

-- All slots move up, and the last is empty.
shifted_lem :
    (n : ℕ) (ss : List Slot)
    → length ss ≡ suc n
    → shifted n ss ≡ drop 1 ss ++ (emptied (get_or ss n no_slot) ∷ [])
shifted_lem n [] l = absurd (omega arith)
shifted_lem n (x ∷ ss) l =
    let m : length ss ≡ n = omega arith in
    subst (λ (k : ℕ). shifted k (x ∷ ss) ≡ ss ++ (emptied (get_or (x ∷ ss) k no_slot) ∷ [])) m
      (ap (λ (t : List Slot). set t (length ss) (emptied (get_or t (length ss) no_slot)))
          (shift_lem (emptied x) ss)
        ∙ empty_last ss _ _
        ∙ ap (λ t. ss ++ (emptied t ∷ [])) (get_last ss _)
        ∙ ap (λ t. ss ++ (t ∷ [])) (emptied_same x ss (length ss)))

total_held-drop :
    (ss : List Slot)
    → 0 < length ss
    → total_held ss ≡ (get_or ss 0 no_slot).count + total_held (drop 1 ss)
unfolding total_held
total_held-drop [] h = absurd (omega arith)
total_held-drop (s ∷ ss) h = refl

all_held-drop :
    (ss : List Slot)
    → 0 < length ss
    → all_held ss ≡ held (get_or ss 0 no_slot) ++ all_held (drop 1 ss)
unfolding all_held
all_held-drop [] h = absurd (omega arith)
all_held-drop (s ∷ ss) h = refl

total_held-append_empty :
    (ss : List Slot) (s : Slot) → total_held (ss ++ (emptied s ∷ [])) ≡ total_held ss
unfolding total_held
total_held-append_empty [] s = refl
total_held-append_empty (x ∷ ss) s = ap (λ n. x.count + n) (total_held-append_empty ss s)

all_held-append_empty :
    (ss : List Slot) (s : Slot) → all_held (ss ++ (emptied s ∷ [])) ≡ all_held ss
unfolding all_held
all_held-append_empty [] s = refl
all_held-append_empty (x ∷ ss) s = ap (λ l. held x ++ l) (all_held-append_empty ss s)

All-drop : (P : Slot → Type 0) (ss : List Slot) → All P ss → All P (drop 1 ss)
All-drop P [] a = tt
All-drop P (s ∷ ss) a = a.1

All-append_one :
    (P : Slot → Type 0) (ss : List Slot) (s : Slot) → All P ss → P s → All P (ss ++ (s ∷ []))
All-append_one P [] s a q = (q, tt)
All-append_one P (x ∷ ss) s a q = (a.0, All-append_one P ss s a.1 q)

-- What an indication does to what the pool stands for.
module _ (p : Pool) (v : IsPool p) where
  abbrev oldest : Slot
  oldest = get_or p.slots 0 no_slot

  oldest-IsSlot : IsSlot oldest
  oldest-IsSlot = All-get IsSlot p.slots 0 (omega (arith, v.depth)) v.slots_ok

  room : p.free_top + oldest.count ≤ 2048
  room = omega (arith, v.total, total_held-drop p.slots (omega (arith, v.depth)))

  pub tick-slots :
      (on_slot_indication p).slots ≡ drop 1 p.slots ++ (emptied (get_or p.slots 15 no_slot) ∷ [])
  unfolding on_slot_indication
  tick-slots = shifted_lem 15 p.slots v.depth

  pub tick-top : (on_slot_indication p).free_top ≡ p.free_top + oldest.count
  unfolding on_slot_indication
  tick-top = recycle-top oldest.buffers 0 oldest.count p.free_list p.free_top

  pub tick-free : free (on_slot_indication p) ≡ free p ++ held oldest
  unfolding on_slot_indication
  tick-free =
      ap (λ n. take n (recycle oldest.buffers 0 oldest.count p.free_list p.free_top).0) tick-top
      ∙ recycle_lem oldest.buffers 0 oldest.count p.free_list p.free_top
          (omega (arith, oldest-IsSlot)) (omega (arith, room, v.list_size))

  tick-list : length (on_slot_indication p).free_list ≡ length p.free_list
  unfolding on_slot_indication
  tick-list = length-recycle oldest.buffers 0 oldest.count p.free_list p.free_top

  tick-total : total_held (on_slot_indication p).slots ≡ total_held (drop 1 p.slots)
  tick-total =
      ap total_held tick-slots
      ∙ total_held-append_empty (drop 1 p.slots) (get_or p.slots 15 no_slot)

  tick-held : all_held (on_slot_indication p).slots ≡ all_held (drop 1 p.slots)
  tick-held =
      ap all_held tick-slots ∙ all_held-append_empty (drop 1 p.slots) (get_or p.slots 15 no_slot)

  tick-depth : length (on_slot_indication p).slots ≡ 16
  tick-depth =
      ap (length {A = Slot}) tick-slots
      ∙ omega (
        arith,
        length-append {A = Slot} (drop 1 p.slots) (emptied (get_or p.slots 15 no_slot) ∷ []),
        length-drop {A = Slot} 1 p.slots,
        v.depth,
      )

  pub copies-tick_free :
      (a : ℕ) → copies a (free (on_slot_indication p)) ≡ copies a (free p) + copies a (held oldest)
  copies-tick_free a = ap (copies a) tick-free ∙ copies-append a (free p) (held oldest)

  tick-once : (a : ℕ) → copies a (blocks (on_slot_indication p)) ≡ copies a (blocks p)
  tick-once a = omega (
    arith,
    copies-append a (free (on_slot_indication p)) (all_held (on_slot_indication p).slots),
    copies-append a (free p) (all_held p.slots),
    copies-tick_free a,
    ap (copies a) tick-held,
    ap (copies a) (all_held-drop p.slots (omega (arith, v.depth))),
    copies-append a (held oldest) (all_held (drop 1 p.slots)),
  )

  pub tick-IsPool : IsPool (on_slot_indication p)
  tick-IsPool =
      let last : IsSlot (get_or p.slots 15 no_slot) =
        All-get IsSlot p.slots 15 (omega (arith, v.depth)) v.slots_ok in
      record {
        list_size = tick-list ∙ v.list_size;
        depth = tick-depth;
        slots_ok = subst (All IsSlot) (sym tick-slots) (
            All-append_one IsSlot (drop 1 p.slots) (emptied (get_or p.slots 15 no_slot))
              (All-drop IsSlot p.slots v.slots_ok) (last.0, omega arith));
        total = omega (
          arith,
          v.total,
          tick-top,
          tick-total,
          total_held-drop p.slots (omega (arith, v.depth)),
        );
        once = λ a. tick-once a ∙ v.once a;
      }

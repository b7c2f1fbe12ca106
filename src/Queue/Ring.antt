-- ===== src/Queue/Ring.antt =====
-- The items of the ring, as a window on its buffer.
use x_fapi.Prelude.{
  ℕ, zero, suc, ◌+◌, ◌-◌, ◌%◌, ◌≤◌, ◌<◌, ◌≡◌, ◌≢◌, refl, ap, ap₂, ◌∙◌, List, [], ◌∷◌, ◌++◌, arith,
}
use x_fapi.Prelude.{get_or, set, length}
use x_fapi.Queue.{Queue}

-- `n` items of the ring, from a position on.
unfoldable pub window : List ℕ → ℕ → ℕ → List ℕ
window buffer head zero = []
window buffer head (suc n) = get_or buffer head 0 ∷ window buffer ((head + 1) % 50) n

pub length-window : (buffer : List ℕ) (head n : ℕ) → length (window buffer head n) ≡ n
unfolding window
length-window buffer head zero = refl
length-window buffer head (suc n) = ap suc (length-window buffer ((head + 1) % 50) n)

pub get-set : (l : List ℕ) (i v : ℕ) → i < length l → get_or (set l i v) i 0 ≡ v
get-set [] i v h = absurd (omega arith)
get-set (x ∷ l) zero v h = refl
get-set (x ∷ l) (suc i) v h = get-set l i v (omega arith)

get-set_other : (l : List ℕ) (i j v : ℕ) → i ≢ j → get_or (set l j v) i 0 ≡ get_or l i 0
get-set_other [] i j v h = refl
get-set_other (x ∷ l) zero zero v h = absurd (h refl)
get-set_other (x ∷ l) zero (suc j) v h = refl
get-set_other (x ∷ l) (suc i) zero v h = refl
get-set_other (x ∷ l) (suc i) (suc j) v h = get-set_other l i j v (λ e. h (ap suc e))

-- A write behind the window does not touch it.
pub window-set :
    (l : List ℕ) (head n m t v : ℕ)
    → head < 50
    → n ≤ m
    → m < 50
    → t ≡ (head + m) % 50
    → window (set l t v) head n ≡ window l head n
unfolding window
window-set l head zero m t v h k s e = refl
window-set l head (suc n) m t v h k s e =
    let apart : head ≢ t = omega arith in
    ap₂ (λ x xs. x ∷ xs) (get-set_other l head t v apart)
      (window-set l ((head + 1) % 50) n (m - 1) t v (omega arith) (omega arith) (omega arith)
        (omega arith))

pub window-suc :
    (l : List ℕ) (head n : ℕ)
    → head < 50
    → window l head (n + 1) ≡ window l head n ++ (get_or l ((head + n) % 50) 0 ∷ [])
unfolding window
window-suc l head zero h =
    let here : head ≡ (head + 0) % 50 = omega arith in ap (λ i. get_or l i 0 ∷ []) here
window-suc l head (suc n) h =
    let more : suc n + 1 ≡ suc (n + 1) = omega arith in
    let there : ((head + 1) % 50 + n) % 50 ≡ (head + suc n) % 50 = omega arith in
    ap (window l head) more
    ∙ ap (λ xs. get_or l head 0 ∷ xs)
        (window-suc l ((head + 1) % 50) n (omega arith)
          ∙ ap (λ i. window l ((head + 1) % 50) n ++ (get_or l i 0 ∷ [])) there)

-- The invariant.
pub record IsRing (q : Queue) : Type 0 where
  pub full_buffer : length q.buffer ≡ 50
  pub head_in : q.head < 50
  pub bounded : q.count ≤ 50
  pub tail_at : q.tail ≡ (q.head + q.count) % 50

abbrev pub items : Queue → List ℕ
items q = window q.buffer q.head q.count

-- ===== src/Prelude/Arrays.antt =====
-- Arrays: a list that is written at an index, with a part that is in use; and how often a value occurs.
use Prim.Native.Nat.{ℕ, zero, suc, ◌+◌, ◌<◌}
use mathlib.Core.Path.{◌≡◌, refl, sym, ap, ◌∙◌}
use mathlib.Core.Logic.{◌≢◌}
use mathlib.Core.Option.{Option, none, some}
use mathlib.Core.List.{List, [], ◌∷◌, ◌++◌}
use native.Mathlib.Omega.{arith}
use x_fapi.Prelude.Lists.{length, get_or, set, take, drop}
use x_fapi.Prelude.Tests.{◌==◌, if◌then◌else◌}

module _ {ℓ} {A : Type ℓ} where
  pub get-set : (l : List A) (i : ℕ) (v d : A) → i < length l → get_or (set l i v) i d ≡ v
  get-set [] i v d h = absurd (omega arith)
  get-set (x ∷ l) zero v d h = refl
  get-set (x ∷ l) (suc i) v d h = get-set l i v d (omega arith)

  pub get-set_other :
      (l : List A) (i j : ℕ) (v d : A) → i ≢ j → get_or (set l j v) i d ≡ get_or l i d
  get-set_other [] i j v d h = refl
  get-set_other (x ∷ l) zero zero v d h = absurd (h refl)
  get-set_other (x ∷ l) zero (suc j) v d h = refl
  get-set_other (x ∷ l) (suc i) zero v d h = refl
  get-set_other (x ∷ l) (suc i) (suc j) v d h = get-set_other l i j v d (λ e. h (ap suc e))

  take-suc_self :
      (xs : List A) (n : ℕ) (d : A)
      → n < length xs
      → take (suc n) xs ≡ take n xs ++ (get_or xs n d ∷ [])
  take-suc_self [] n d h = absurd (omega arith)
  take-suc_self (x ∷ xs) zero d h = refl
  take-suc_self (x ∷ xs) (suc n) d h = ap (λ l. x ∷ l) (take-suc_self xs n d (omega arith))

  -- The part in use, with one more element.
  pub take-suc :
      (xs : List A) (n : ℕ) (d : A)
      → n < length xs
      → take (n + 1) xs ≡ take n xs ++ (get_or xs n d ∷ [])
  take-suc xs n d h =
      let e : n + 1 ≡ suc n = omega arith in ap (λ k. take k xs) e ∙ take-suc_self xs n d h

  take-set_self :
      (xs : List A) (n : ℕ) (v : A)
      → n < length xs
      → take (suc n) (set xs n v) ≡ take n xs ++ (v ∷ [])
  take-set_self [] n v h = absurd (omega arith)
  take-set_self (x ∷ xs) zero v h = refl
  take-set_self (x ∷ xs) (suc n) v h = ap (λ l. x ∷ l) (take-set_self xs n v (omega arith))

  -- A write behind the part in use, which then takes it in.
  pub take-set :
      (xs : List A) (n : ℕ) (v : A)
      → n < length xs
      → take (n + 1) (set xs n v) ≡ take n xs ++ (v ∷ [])
  take-set xs n v h =
      let e : n + 1 ≡ suc n = omega arith in
      ap (λ k. take k (set xs n v)) e ∙ take-set_self xs n v h

  pub drop-get :
      (xs : List A) (n : ℕ) (d : A) → n < length xs → drop n xs ≡ get_or xs n d ∷ drop (n + 1) xs
  drop-get [] n d h = absurd (omega arith)
  drop-get (x ∷ xs) zero d h = refl
  drop-get (x ∷ xs) (suc n) d h =
      let e : suc n + 1 ≡ suc (n + 1) = omega arith in
      drop-get xs n d (omega arith) ∙ ap (λ k. get_or xs n d ∷ drop k (x ∷ xs)) (sym e)

-- How often a number is in a list.
abbrev pub copies : ℕ → List ℕ → ℕ
copies b [] = 0
copies b (i ∷ more) = copies b more + (if i == b then 1 else 0)

-- 1 for a place that holds `b`.
abbrev pub held_by : ℕ → Option ℕ → ℕ
held_by b none = 0
held_by b (some i) = if i == b then 1 else 0

pub copies-append : (b : ℕ) (l more : List ℕ) → copies b (l ++ more) ≡ copies b l + copies b more
copies-append b [] more = ground arith
copies-append b (i ∷ l) more = let ih : _ ≡ _ = copies-append b l more in ground (arith, ih)

pub some_value {ℓ} : {A : Type ℓ} {a b : A} → some a ≡ some b → a ≡ b
some_value {A} {a} e = ap (λ (o : Option A). elim o [ none ↦ a | some x ↦ x ]) e

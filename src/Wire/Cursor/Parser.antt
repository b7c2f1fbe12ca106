-- ===== src/Wire/Cursor/Parser.antt =====
-- The specification side of the cursor: a parser that fails at once, over the bytes still to be read.
use mathlib.Core.Path.{fun_ext}
use x_fapi.Prelude.{
  refl, ◌≤◌, ◌≡◌, arith, ℕ, zero, suc, ◌%◌, ◌^◌, Option, none, some, List, [], ◌∷◌,
}
use x_fapi.Prelude.{leb, if◌then◌else◌, take, drop, length, get_or}
use x_fapi.Wire.Bytes.{le, be}

abbrev pub Parser {ℓ} : Type ℓ → Type ℓ
Parser A = List ℕ → Option (A × List ℕ)

abbrev pub pure {ℓ} : {A : Type ℓ} → A → Parser A
pure a bs = some (a, bs)

abbrev pub fail {ℓ} : {A : Type ℓ} → Parser A
fail bs = none

infixl 5 ◌>>=◌ ◌>>◌
unfoldable pub ◌>>=◌ {ℓ κ} : {A : Type ℓ} {B : Type κ} → Parser A → (A → Parser B) → Parser B
(p >>= f) bs = elim (p bs) [ none ↦ none | some (a, rest) ↦ f a rest ]

unfoldable pub ◌>>◌ {ℓ κ} : {A : Type ℓ} {B : Type κ} → Parser A → Parser B → Parser B
(p >> q) bs = elim (p bs) [ none ↦ none | some (a, rest) ↦ q rest ]

-- The next `n` bytes, read as `f` says.
unfoldable pub field {ℓ} : {A : Type ℓ} → ℕ → (List ℕ → A) → Parser A
field n f bs = if leb n (length bs) then some (f (take n bs), drop n bs) else none

-- The first byte of what `field` hands over.
abbrev pub first : List ℕ → ℕ
first bs = get_or bs 0 0

abbrev pub byte : Parser ℕ
byte = field 1 first

abbrev pub le_uint : ℕ → Parser ℕ
le_uint n = field n le

abbrev pub be_u16 : Parser ℕ
be_u16 = field 2 (λ bs. be 0 bs % 2 ^ 16)

abbrev pub be_u32 : Parser ℕ
be_u32 = field 4 (be 0)

abbrev pub bytes : ℕ → Parser (List ℕ)
bytes n = field n (λ bs. bs)

abbrev pub skip : ℕ → Parser (Unit {0})
skip n = field n (λ bs. tt)

abbrev pub prepend {ℓ} : {A : Type ℓ} → A → Option (List A × List ℕ) → Option (List A × List ℕ)
prepend a none = none
prepend a (some (more, rest)) = some (a ∷ more, rest)

-- `n` times.
unfoldable pub times {ℓ} : {A : Type ℓ} → ℕ → Parser A → Parser (List A)
times zero p bs = some ([], bs)
times (suc n) p bs = elim (p bs) [ none ↦ none | some (a, rest) ↦ prepend a (times n p rest) ]

pub field_lem {ℓ} :
    {A : Type ℓ} (n : ℕ) (f : List ℕ → A) (bs : List ℕ)
    → n ≤ length bs
    → field n f bs ≡ some (f (take n bs), drop n bs)
unfolding field
field_lem n f bs h = ground arith

module _ {A : Type 0} (n : ℕ) (p : Parser A) where
  prepend_as_map :
      (a : A) (o : Option (List A × List ℕ))
      → prepend a o ≡ elim o [ none ↦ none | some (more, rest) ↦ some (a ∷ more, rest) ]
  prepend_as_map a none = refl
  prepend_as_map a (some (more, rest)) = refl

  times_case :
      (o : Option (A × List ℕ))
      → elim o [ none ↦ none | some (a, rest) ↦ prepend a (times n p rest) ] ≡ elim o [
        | none ↦ none
        | some (a, rest) ↦ elim (times n p rest) [
          | none ↦ none
          | some (more, ds) ↦ some (a ∷ more, ds)
        ]
      ]
  times_case none = refl
  times_case (some (a, rest)) = prepend_as_map a (times n p rest)

  -- `times` as a chain of binds.
  pub times-suc : times (suc n) p ≡ (p >>= λ a. (times n p >>= λ more. pure (a ∷ more)))
  unfolding times ◌>>=◌
  times-suc = fun_ext (λ bs. times_case (p bs))

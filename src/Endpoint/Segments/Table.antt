-- ===== src/Endpoint/Segments/Table.antt =====
-- The table of sequences: an entry that was found or taken is found again.
use x_fapi.Prelude.{ℕ, zero, suc, ◌<◌, ◌≡◌, refl, sym, ap, ◌∙◌, Bool, true, List, [], ◌∷◌}
use x_fapi.Prelude.{
  Option, none, some, if_yes, if_no, length, set, Bool-cases, some_value, inl, inr, arith,
}
use x_fapi.Endpoint.Segments.{Entry, find, of_sequence, vacant, find_or_alloc, started}

abbrev next_place : Option ℕ → Option ℕ
next_place rest = elim rest [ none ↦ none | some k ↦ some (suc k) ]

place_lem :
    (rest : Option ℕ) (k : ℕ) → next_place rest ≡ some k → (j : ℕ) × (k ≡ suc j) × (rest ≡ some j)
place_lem none k e = absurd (cc)
place_lem (some j) k e = (j, sym (some_value e), refl)

no_place : (rest : Option ℕ) → next_place rest ≡ none → rest ≡ none
no_place none e = refl
no_place (some j) e = absurd (cc)

module _ (test : Entry → Bool) where
  -- What is found is in the table.
  pub find_bound : (t : List Entry) (k : ℕ) → find test t ≡ some k → k < length t
  unfolding find
  find_bound [] k e = absurd (cc)
  find_bound (x ∷ t) k e = elim (Bool-cases (test x)) [
    | inl passes ↦
        let first : some 0 ≡ some k = sym (if_yes _ _ passes) ∙ e in omega (arith, some_value first)
    | inr fails ↦
        let (j, kj, found) = place_lem (find test t) k (sym (if_no _ _ fails) ∙ e) in
        omega (arith, kj, find_bound t j found)
  ]

  -- The first entry that passes the test is the one that was made to.
  pub find-set :
      (t : List Entry) (k : ℕ) (e : Entry)
      → find test t ≡ none
      → k < length t
      → test e ≡ true
      → find test (set t k e) ≡ some k
  unfolding find
  find-set [] k e fails h passes = absurd (omega (arith, h))
  find-set (x ∷ t) zero e fails h passes = if_yes _ _ passes
  find-set (x ∷ t) (suc k) e fails h passes = elim (Bool-cases (test x)) [
    | inl passes_here ↦
        let first : ◌≡◌ {A = Option ℕ} (some 0) none = sym (if_yes _ _ passes_here) ∙ fails in
        absurd (cc)
    | inr fails_here ↦
        if_no _ _ fails_here
        ∙ ap next_place (
            find-set t k e (no_place (find test t) (sym (if_no _ _ fails_here) ∙ fails))
              (omega (arith, h)) passes)
  ]

-- An unknown sequence takes the first vacant place.
pub find_or_alloc_fresh :
    (t : List Entry) (seq k : ℕ)
    → find (of_sequence seq) t ≡ none
    → find vacant t ≡ some k
    → find_or_alloc t seq ≡ some (k, set t k (started seq))
unfolding find_or_alloc
find_or_alloc_fresh t seq k unknown free =
    ap
      (λ (o : Option ℕ). elim o [
        | some j ↦ some (j, t)
        | none ↦ elim (find vacant t) [ none ↦ none | some j ↦ some (j, set t j (started seq)) ]
      ])
      unknown
    ∙ ap (λ (o : Option ℕ). elim o [ none ↦ none | some j ↦ some (j, set t j (started seq)) ]) free

-- ===== src/Request/Gather.antt =====
-- The PDU loop of a request: read a PDU, stop at an error, else let it into the state.
use x_fapi.Prelude.{
  ℕ, zero, suc, ◌+◌, ◌-◌, ◌≡◌, refl, sym, ap, ◌∙◌, subst, Bool, true, false, List, [], ◌∷◌, ◌++◌,
  append-nil, append_assoc,
}
use x_fapi.Prelude.{
  Option, none, some, ltb, if◌then◌else◌, if_yes, if_no, length, take, length-append, take-nil,
  arith, ltb→ge, ltb→lt,
}
use x_fapi.Wire.Cursor.{Cursor, Rd}
use x_fapi.Wire.Cursor.Parser as P
use x_fapi.Wire.Cursor.Parser.{Parser}
use x_fapi.Wire.Cursor.Laws.{IsLive, view}
use x_fapi.Wire.Cursor.Faithful.{Faithful, Agrees}

-- `for (i = 0; i < n && !r.error; ++i) { …; if (r.error) break; … }`
unfoldable pub gather {ℓ κ} : {A : Type ℓ} {S : Type κ} → Rd A → (S → A → S) → ℕ → S → Rd S
gather m keep zero s r = (s, r)
gather m keep (suc n) s r =
    let (a, r') = m r in
    let rest = gather m keep n (keep s a) r' in
    if r.error then (s, r) else (if r'.error then (s, r') else rest)

-- One more element, while there is room for it.
unfoldable pub add {ℓ} : {A : Type ℓ} → ℕ → List A → A → List A
add max l a = if ltb (length l) max then l ++ (a ∷ []) else l

-- One more element if there is one.
unfoldable pub add_some {ℓ} : {A : Type ℓ} → ℕ → List A → Option A → List A
add_some max l none = l
add_some max l (some a) = add max l a

unfoldable pub folded {ℓ κ} : {A : Type ℓ} {S : Type κ} → (S → A → S) → S → List A → S
folded keep s [] = s
folded keep s (a ∷ more) = folded keep (keep s a) more

-- What `f` finds in a list.
unfoldable pub picked {ℓ κ} : {A : Type ℓ} {B : Type κ} → (A → Option B) → List A → List B
picked f [] = []
picked f (a ∷ more) = elim (f a) [ none ↦ picked f more | some b ↦ b ∷ picked f more ]

module _ {A B : Type 0} (max : ℕ) (f : A → Option B) where
  grown :
      (l more : List B) (b : B) (room : Bool)
      → ltb (length l) max ≡ room
      → add max l b ++ take (max - length (add max l b)) more
        ≡ l ++ take (max - length l) (b ∷ more)
  unfolding add
  grown l more b true e =
      let n : length (l ++ (b ∷ [])) ≡ length l + 1 = length-append l (b ∷ []) in
      let room : max - length l ≡ suc (max - length (l ++ (b ∷ []))) =
        omega (arith, n, ltb→lt (length l) max e) in
      rw (e, room) (append_assoc l (b ∷ []) (take (max - length (l ++ (b ∷ []))) more))
  grown l more b false e =
      let full : max - length l ≡ 0 = omega (arith, ltb→ge (length l) max e) in rw (e, full) refl

  step :
      (l : List B) (o : Option B) (ps : List A)
      → ((m : List B)
          → folded (λ l a. add_some max l (f a)) m ps ≡ m ++ take (max - length m) (picked f ps))
      → folded (λ l a. add_some max l (f a)) (add_some max l o) ps
        ≡ l ++ take (max - length l) (elim o [ none ↦ picked f ps | some b ↦ b ∷ picked f ps ])
  unfolding add_some
  step l none ps ih = ih l
  step l (some b) ps ih = ih (add max l b) ∙ grown l (picked f ps) b (ltb (length l) max) refl

  -- Adding one by one, while there is room, is keeping the first of what `f` finds.
  pub folded-picked :
      (ps : List A) (l : List B)
      → folded (λ l a. add_some max l (f a)) l ps ≡ l ++ take (max - length l) (picked f ps)
  unfolding folded picked
  folded-picked [] l = sym (ap (λ t. l ++ t) (take-nil (max - length l)) ∙ append-nil l)
  folded-picked (p ∷ ps) l = step l (f p) ps (folded-picked ps)

module _ {A S : Type 0} {m : Rd A} {p : Parser A} (fm : Faithful m p) (keep : S → A → S) where
  abbrev pub Ran : Cursor → S → S × Cursor → Option (List A × List ℕ) → Type 0
  Ran r s (got, r') none = (r'.error ≡ true) × (r'.len ≡ r.len)
  Ran r s (got, r') (some (ps, rest)) =
      (got ≡ folded keep s ps) × IsLive r' × (view r' ≡ rest) × (r'.len ≡ r.len)

  prepended :
      (r r1 : Cursor) (s : S) (b : A) (res : S × Cursor) (o : Option (List A × List ℕ))
      → r1.len ≡ r.len
      → Ran r1 (keep s b) res o
      → Ran r s res (P.prepend b o)
  unfolding folded
  prepended r r1 s b res none l (e, k) = (e, k ∙ l)
  prepended r r1 s b res (some (ps, rest)) l (e, live, ve, k) = (e, live, ve, k ∙ l)

  after :
      (n : ℕ) (s : S) (r : Cursor) (got : A × Cursor) (o : Option (A × List ℕ))
      → ((s : S) (r : Cursor) → IsLive r → Ran r s (gather m keep n s r) (P.times n p (view r)))
      → Agrees r got o
      → Ran r s
          (if got.1.error then (s, got.1) else gather m keep n (keep s got.0) got.1)
          (elim o [ none ↦ none | some (a, rest) ↦ P.prepend a (P.times n p rest) ])
  after n s r got none ih (e, w) = subst (λ t. Ran r s t none) (sym (if_yes _ _ e)) (e, w.same_len)
  after n s r got (some (b, rest)) ih (e, live, ve, w) =
      subst (λ t. Ran r s t (P.prepend b (P.times n p rest))) (sym (if_no _ _ live.fine))
        (prepended r got.1 s b _ _ w.same_len (
          subst (λ l. Ran got.1 (keep s b) (gather m keep n (keep s got.0) got.1) (P.times n p l))
            ve
            (subst
              (λ a.
                Ran got.1 (keep s a) (gather m keep n (keep s got.0) got.1)
                  (P.times n p (view got.1)))
              e (ih (keep s got.0) got.1 live))))

  pub gather_lem :
      (n : ℕ) (s : S) (r : Cursor) → IsLive r → Ran r s (gather m keep n s r) (P.times n p (view r))
  unfolding gather P.times folded
  gather_lem zero s r v = (refl, v, refl, refl)
  gather_lem (suc n) s r v =
      subst (λ t. Ran r s t (P.times (suc n) p (view r))) (sym (if_no _ _ v.fine))
        (after n s r (m r) (p (view r)) (gather_lem n) (fm.agrees r v))

-- ===== src/Request/Ul/Room.antt =====
-- Filling a list of limited room from several lists.
use x_fapi.Prelude.{
  ℕ, zero, suc, ◌+◌, ◌-◌, ◌≤◌, ◌≡◌, refl, sym, ap, ◌∙◌, Bool, true, false, List, [], ◌∷◌, ◌++◌,
}
use x_fapi.Prelude.{
  append-nil, append_assoc, ltb, length, take, take-nil, take-take_le, length-append, arith, ltb→ge,
  ltb→lt,
}
use x_fapi.Request.Ul.{emit}

-- Emitting while there is room is appending the first elements.
emit_step :
    {A : Type 0} (max : ℕ) (out : List A) (x : A) (xs : List A) (room : Bool)
    → ltb (length out) max ≡ room
    → emit max (out ++ (x ∷ [])) xs ≡ (out ++ (x ∷ [])) ++ take (max - length (out ++ (x ∷ []))) xs
    → emit max out (x ∷ xs) ≡ out ++ take (max - length out) (x ∷ xs)
unfolding emit
emit_step max out x xs true e ih =
    let n : length (out ++ (x ∷ [])) ≡ length out + 1 = length-append out (x ∷ []) in
    let room : max - length out ≡ suc (max - length (out ++ (x ∷ []))) =
      omega (arith, n, ltb→lt (length out) max e) in
    rw (e, room) (ih ∙ append_assoc out (x ∷ []) (take (max - length (out ++ (x ∷ []))) xs))
emit_step max out x xs false e ih =
    let full : max - length out ≡ 0 = omega (arith, ltb→ge (length out) max e) in
    rw (e, full) (sym (append-nil out))

emit_lem :
    {A : Type 0} (max : ℕ) (xs out : List A) → emit max out xs ≡ out ++ take (max - length out) xs
unfolding emit
emit_lem max [] out = sym (ap (λ l. out ++ l) (take-nil (max - length out)) ∙ append-nil out)
emit_lem max (x ∷ xs) out =
    emit_step max out x xs (ltb (length out) max) refl (emit_lem max xs (out ++ (x ∷ [])))

-- Cutting both parts first changes nothing.
take-take_both :
    {A : Type 0} (n k : ℕ) (xs ys : List A)
    → n ≤ k
    → take n xs ++ take (n - length (take n xs)) (take k ys) ≡ take n (xs ++ ys)
take-take_both zero k xs ys h = refl
take-take_both (suc n) k [] ys h =
    let all : suc n - 0 ≡ suc n = omega arith in rw all (take-take_le (suc n) k ys h)
take-take_both (suc n) k (x ∷ xs) ys h =
    let same : suc n - suc (length (take n xs)) ≡ n - length (take n xs) = omega arith in
    rw same (ap (λ l. x ∷ l) (take-take_both n k xs ys (omega arith)))

pub emit-take :
    {A : Type 0} (max : ℕ) (xs ys : List A)
    → emit max (take max xs) (take max ys) ≡ take max (xs ++ ys)
emit-take max xs ys =
    emit_lem max (take max ys) (take max xs) ∙ take-take_both max max xs ys (omega arith)

pub emit-nil : {A : Type 0} (max : ℕ) (xs : List A) → emit max [] xs ≡ take max xs
emit-nil max xs =
    emit_lem max xs [] ∙ (let all : max - 0 ≡ max = omega arith in ap (λ k. take k xs) all)

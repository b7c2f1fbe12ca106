-- ===== src/Wire/Cursor/Faithful.antt =====
-- A read with a latched error is as good as a parser that fails at once: what it returns, where it
-- stops, and that it never looks outside the body.
use x_fapi.Prelude.{ℕ, ◌+◌, ◌≤◌, ◌<◌, ◌≡◌, refl, sym, ap, ◌∙◌, subst, Bool, true, false}
use x_fapi.Prelude.{Option, none, some, List, if◌then◌else◌}
use x_fapi.Prelude.{arith, length, take, drop, leb}
use x_fapi.Wire.Bytes.{bytes_at}
use x_fapi.Wire.Cursor.{Cursor, Rd, advance, return, ◌>>=◌, ◌>>◌}
use x_fapi.Wire.Cursor.Parser as P
use x_fapi.Wire.Cursor.Parser.{Parser, field, pure}
use x_fapi.Wire.Cursor.Laws.{
  IsLive, view, length-view, take-view, advance-IsLive, view-advance, advance_lem,
}

-- The cursor stays on the same body, and only moves forward inside it.
pub record Within (r r' : Cursor) : Type 0 where
  pub same_buf : r'.buf ≡ r.buf
  pub same_len : r'.len ≡ r.len
  pub forward : r.off ≤ r'.off
  pub bounded : r'.off ≤ r'.len

-- What a read left, against what the parser made of the bytes that were to be read.
abbrev pub Agrees : {A : Type 0} → Cursor → A × Cursor → Option (A × List ℕ) → Type 0
Agrees r (a, r') none = (r'.error ≡ true) × Within r r'
Agrees r (a, r') (some (b, rest)) = (a ≡ b) × IsLive r' × (view r' ≡ rest) × Within r r'

pub record Faithful {A : Type 0} (m : Rd A) (p : Parser A) : Type 0 where
  pub sticky : (r : Cursor) → r.error ≡ true → (m r).1 ≡ r
  pub agrees : (r : Cursor) → IsLive r → Agrees r (m r) (p (view r))

Within-trans : {r r' r'' : Cursor} → Within r r' → Within r' r'' → Within r r''
Within-trans w u = record {
  same_buf = u.same_buf ∙ w.same_buf;
  same_len = u.same_len ∙ w.same_len;
  forward = omega (arith, w.forward, u.forward);
  bounded = u.bounded;
}

pub Agrees-Within :
    {A : Type 0} {r r' : Cursor} (out : A × Cursor) (o : Option (A × List ℕ))
    → Within r r'
    → Agrees r' out o
    → Agrees r out o
Agrees-Within out none w (e, u) = (e, Within-trans w u)
Agrees-Within out (some (b, rest)) w (e, live, ve, u) = (e, live, ve, Within-trans w u)

pub bind-Agrees :
    {A B : Type 0} {f : A → Rd B} {g : A → Parser B}
    → ((a : A) → Faithful (f a) (g a))
    → (r : Cursor) (out : A × Cursor) (o : Option (A × List ℕ)) → Agrees r out o
    → Agrees r (f out.0 out.1) (elim o [ none ↦ none | some (a, rest) ↦ g a rest ])
bind-Agrees ff r out none (e, w) = rw ((ff out.0).sticky out.1 e) (e, w)
bind-Agrees {A} {f} {g} ff r out (some (b, rest)) (e, live, ve, w) =
    Agrees-Within (f out.0 out.1) (g b rest) w (
      subst (λ (x : A). Agrees out.1 (f out.0 out.1) (g x rest)) e
        (subst (λ (l : List ℕ). Agrees out.1 (f out.0 out.1) (g out.0 l)) ve
          ((ff out.0).agrees out.1 live)))

pub bind :
    {A B : Type 0} {m : Rd A} {p : Parser A} {f : A → Rd B} {g : A → Parser B}
    → Faithful m p
    → ((a : A) → Faithful (f a) (g a))
    → Faithful (m >>= f) (P.◌>>=◌ p g)
unfolding ◌>>=◌ P.◌>>=◌
bind {m} {p} fm ff = record {
  sticky =
      λ r e. (ff (m r).0).sticky (m r).1 (ap (λ c. c.error) (fm.sticky r e) ∙ e) ∙ fm.sticky r e;
  agrees = λ r v. bind-Agrees ff r (m r) (p (view r)) (fm.agrees r v);
}

pub then_do :
    {A B : Type 0} {m : Rd A} {p : Parser A} {n : Rd B} {q : Parser B}
    → Faithful m p
    → Faithful n q
    → Faithful (m >> n) (P.◌>>◌ p q)
unfolding ◌>>◌ P.◌>>◌
then_do {m} {p} fm fn = record {
  sticky = λ r e. fn.sticky (m r).1 (ap (λ c. c.error) (fm.sticky r e) ∙ e) ∙ fm.sticky r e;
  agrees = λ r v. bind-Agrees (λ a. fn) r (m r) (p (view r)) (fm.agrees r v);
}

pub Within-refl : {r : Cursor} {b : Bool} → IsLive r → Within r (record r { error = b })
Within-refl v = record {
  same_buf = refl;
  same_len = refl;
  forward = omega arith;
  bounded = v.inside;
}

pub ret : {A : Type 0} (a : A) → Faithful (return a) (pure a)
ret a = record { sticky = λ r e. refl; agrees = λ r v. (refl, v, refl, Within-refl v) }

pub branch :
    {A : Type 0} (b : Bool) {m n : Rd A} {p q : Parser A}
    → Faithful m p
    → Faithful n q
    → Faithful (if b then m else n) (if b then p else q)
branch true fm fn = fm
branch false fm fn = fn

-- A read that takes `n` bytes or latches the error.
pub record Grabs {A : Type 0} (m : Rd A) (n : ℕ) (f : List ℕ → A) (d : A) : Type 0 where
  pub stuck : (r : Cursor) → r.error ≡ true → m r ≡ (d, r)
  pub enough :
      (r : Cursor) → IsLive r → r.off + n ≤ r.len → m r ≡ (f (bytes_at r.buf r.off n), advance r n)
  pub overrun : (r : Cursor) → IsLive r → r.len < r.off + n → m r ≡ (d, record r { error = true })

pub moved : {r : Cursor} (n : ℕ) → IsLive r → r.off + n ≤ r.len → Within r (advance r n)
moved n v h = record {
  same_buf = refl;
  same_len = refl;
  forward = omega (arith, advance_lem v n h);
  bounded = omega (arith, advance_lem v n h);
}

module _ {A : Type 0} {m : Rd A} (n : ℕ) (f : List ℕ → A) (d : A)
    (enough : (r : Cursor)
      → IsLive r
      → r.off + n ≤ r.len
      → m r ≡ (f (bytes_at r.buf r.off n), advance r n))
    (overrun : (r : Cursor)
      → IsLive r
      → r.len < r.off + n
      → m r ≡ (d, record r { error = true })) where
  by_size :
      (r : Cursor)
      → IsLive r
      → (b : Bool) → leb n (length (view r)) ≡ b
      → Agrees r (m r) (if b then some (f (take n (view r)), drop n (view r)) else none)
  by_size r v true e =
      let fits : r.off + n ≤ r.len = ground (arith, length-view v) in
      rw (enough r v fits) (
        ap f (sym (take-view v n fits)),
        advance-IsLive v n fits,
        view-advance v n fits,
        moved n v fits,
      )
  by_size r v false e =
      let over : r.len < r.off + n = ground (arith, length-view v) in
      rw (overrun r v over) (refl, Within-refl v)

  pub takes : (r : Cursor) → IsLive r → Agrees r (m r) (field n f (view r))
  unfolding field
  takes r v = by_size r v (leb n (length (view r))) refl

pub grab :
    {A : Type 0} {m : Rd A} {n : ℕ} {f : List ℕ → A} {d : A}
    → Grabs m n f d
    → Faithful m (field n f)
grab {A} {n} {f} {d} g = record {
  sticky = λ r e. ap (λ (o : A × Cursor). o.1) (g.stuck r e);
  agrees = takes n f d g.enough g.overrun;
}

-- A read whose continuation keeps a latched error only at the value that a failed read returns, or
-- agrees with its parser only at values that the field can have.
pub grab_bind :
    {A B : Type 0} {m : Rd A} {n : ℕ} {h : List ℕ → A} {d : A} (f : A → Rd B) (k : A → Parser B)
    (R : A → Type 0)
    → Grabs m n h d
    → ((r : Cursor) → r.error ≡ true → (f d r).1 ≡ r)
    → ((bs : List ℕ) → R (h bs))
    → ((a : A) → R a → (r : Cursor) → IsLive r → Agrees r (f a r) (k a (view r)))
    → Faithful (m >>= f) (P.◌>>=◌ (field n h) k)
unfolding ◌>>=◌ P.◌>>=◌ field
grab_bind {A} {B} {m} {n} {h} {d} f k R g stuck range agree = record {
  sticky = λ r e. ap (λ (o : A × Cursor). (f o.0 o.1).1) (g.stuck r e) ∙ stuck r e;
  agrees = λ r v. split r v (leb n (length (view r))) refl;
}
  where
    split :
        (r : Cursor)
        → IsLive r
        → (b : Bool) → leb n (length (view r)) ≡ b
        → Agrees r
            (f (m r).0 (m r).1)
            (elim (if◌then◌else◌ {A = Option (A × List ℕ)} b
              (some (h (take n (view r)), drop n (view r)))
              none) [ none ↦ none | some (a, rest) ↦ k a rest ])
    split r v true e =
        let fits : r.off + n ≤ r.len = ground (arith, length-view v) in
        rw (g.enough r v fits, ← take-view v n fits, ← view-advance v n fits)
          (Agrees-Within _ _ (moved n v fits)
            (agree (h (take n (view r))) (range _) (advance r n) (advance-IsLive v n fits)))
    split r v false e =
        let over : r.len < r.off + n = ground (arith, length-view v) in
        rw (g.overrun r v over, stuck (record r { error = true }) refl) (refl, Within-refl v)

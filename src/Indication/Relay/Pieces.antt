-- ===== src/Indication/Relay/Pieces.antt =====
-- Rounds that read and write in turn, built from pieces: each keeps a latched error, and otherwise
-- leaves the writes for what its parser returns.
use x_fapi.Prelude.{ℕ, ◌≡◌, refl, ap, ◌∙◌, subst, Bool, true, false, List}
use x_fapi.Prelude.{Option, none, some, if◌then◌else◌, if_yes}
use x_fapi.Wire.Cursor.{Cursor, Rd}
use x_fapi.Wire.Cursor.Parser as P
use x_fapi.Wire.Cursor.Parser.{Parser}
use x_fapi.Wire.Cursor.Laws.{view}
use x_fapi.Wire.Cursor.Faithful.{Faithful, Agrees}
use x_fapi.Wire.Writer.{Writer, ◌⨾◌}
use x_fapi.Indication.Relay.{Round, read_write}
use x_fapi.Indication.Relay.Laws.{Relays, RoundRelays, read_write_lem}

pub record Piece {A : Type 0} (round : Round) (p : Parser A) (enc : A → Writer → Writer)
    : Type 0 where
  pub sticky : (r : Cursor) (w : Writer) → r.error ≡ true → (round r w).0.error ≡ true
  pub relays : RoundRelays round p enc

-- A read whose value says what comes next.
abbrev pub read_then : {A : Type 0} → Rd A → (A → Round) → Round
read_then m k r w = let (a, r') = m r in k a r' w

abbrev pub in_turn : Round → Round → Round
in_turn a b r w = let (r', w') = a r w in b r' w'

abbrev pub write_first : (Writer → Writer) → Round → Round
write_first e a r w = a r (e w)

abbrev pub mapped : {A B : Type 0} → (A → B) → Parser A → Parser B
mapped h p = P.◌>>=◌ p (λ a. P.pure (h a))

pub reads_writes :
    {A : Type 0} {m : Rd A} {p : Parser A} (enc : A → Writer → Writer)
    → Faithful m p
    → Piece (read_write m enc) p enc
unfolding read_write
reads_writes {m} enc fm = record {
  sticky = λ r w e.
      let kept : (m r).1.error ≡ true = ap (λ c. c.error) (fm.sticky r e) ∙ e in
      ap (λ (o : Cursor × Writer). o.0.error) (if_yes ((m r).1, w) _ kept) ∙ kept;
  relays = read_write_lem enc fm;
}

pub writes_only :
    {A : Type 0} (a : A) (enc : A → Writer → Writer) → Piece (λ r w. (r, enc a w)) (P.pure a) enc
writes_only a enc = record { sticky = λ r w h. h; relays = λ r w v. (v, refl, refl) }

pub fails :
    {A : Type 0} (enc : A → Writer → Writer)
    → Piece (λ r w. (record r { error = true }, w)) P.fail enc
fails enc = record { sticky = λ r w h. refl; relays = λ r w v. refl }

pub Piece-choice :
    {A : Type 0} (b : Bool) {x y : Round} {p q : Parser A} {enc : A → Writer → Writer}
    → Piece x p enc
    → Piece y q enc
    → Piece (λ r w. if b then x r w else y r w) (if b then p else q) enc
Piece-choice true px py = px
Piece-choice false px py = py

module _ {A B : Type 0} (h : A → B) (enc : B → Writer → Writer) where
  map-Relays :
      (w : Writer) (out : Cursor × Writer) (o : Option (A × List ℕ))
      → Relays (λ a. enc (h a)) w out o
      → Relays enc w out (elim o [ none ↦ none | some (a, rest) ↦ some (h a, rest) ])
  map-Relays w out none e = e
  map-Relays w out (some (a, rest)) e = e

  pub Piece-map :
      {round : Round} {p : Parser A} → Piece round p (λ a. enc (h a)) → Piece round (mapped h p) enc
  unfolding P.◌>>=◌
  Piece-map {round} {p} q = record {
    sticky = q.sticky;
    relays = λ r w v. map-Relays w (round r w) (p (view r)) (q.relays r w v);
  }

pub Piece-write :
    {A : Type 0} {round : Round} {p : Parser A} {enc : A → Writer → Writer} (e : Writer → Writer)
    → Piece round p enc
    → Piece (write_first e round) p (λ a. e ⨾ enc a)
unfolding ◌⨾◌
Piece-write {round} {p} {enc} e q = record {
  sticky = λ r w h. q.sticky r (e w) h;
  relays = λ r w v. shift w (round r (e w)) (p (view r)) (q.relays r (e w) v);
}
  where
    shift :
        (w : Writer) (out : Cursor × Writer) (o : _)
        → Relays enc (e w) out o
        → Relays (λ a. e ⨾ enc a) w out o
    shift w out none h = h
    shift w out (some x) h = h

module _ {A B : Type 0} {k : A → Round} {q : A → Parser B} {enc : B → Writer → Writer}
    (pieces : (a : A) → Piece (k a) (q a) enc) where
  read-Relays :
      (r : Cursor) (w : Writer) (out : A × Cursor) (o : Option (A × List ℕ))
      → Agrees r out o
      → Relays enc w (k out.0 out.1 w) (elim o [ none ↦ none | some (a, rest) ↦ q a rest ])
  read-Relays r w out none (e, u) = (pieces out.0).sticky out.1 w e
  read-Relays r w out (some (a, rest)) (e, live, ve, u) =
      subst (λ (x : A). Relays enc w (k out.0 out.1 w) (q x rest)) e
        (subst (λ (l : List ℕ). Relays enc w (k out.0 out.1 w) (q out.0 l)) ve
          ((pieces out.0).relays out.1 w live))

  pub Piece-read :
      {m : Rd A} {p : Parser A} → Faithful m p → Piece (read_then m k) (P.◌>>=◌ p q) enc
  unfolding P.◌>>=◌
  Piece-read {m} {p} fm = record {
    sticky = λ r w e. (pieces (m r).0).sticky (m r).1 w (ap (λ c. c.error) (fm.sticky r e) ∙ e);
    relays = λ r w v. read-Relays r w (m r) (p (view r)) (fm.agrees r v);
  }

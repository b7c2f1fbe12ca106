-- ===== src/Indication/Relay/InTurn.antt =====
-- Two pieces, one after the other.
use x_fapi.Prelude.{ℕ, ◌≡◌, ap, ◌∙◌, subst, List, Option, none, some}
use x_fapi.Wire.Cursor.{Cursor}
use x_fapi.Wire.Cursor.Parser as P
use x_fapi.Wire.Cursor.Parser.{Parser}
use x_fapi.Wire.Cursor.Laws.{view}
use x_fapi.Wire.Writer.{Writer, ◌⨾◌}
use x_fapi.Indication.Relay.{Round}
use x_fapi.Indication.Relay.Laws.{Relays}
use x_fapi.Indication.Relay.Pieces.{Piece, in_turn, mapped}

abbrev pub both : {A B : Type 0} → Parser A → Parser B → Parser (A × B)
both p q = P.◌>>=◌ p (λ a. mapped (λ b. (a, b)) q)

abbrev pub enc_both :
    {A B : Type 0} → (A → Writer → Writer) → (B → Writer → Writer) → A × B → Writer → Writer
enc_both e f (a, b) = e a ⨾ f b

module _ {A B : Type 0} {x y : Round} {p : Parser A} {q : Parser B} {e : A → Writer → Writer}
    {f : B → Writer → Writer} (px : Piece x p e) (py : Piece y q f) where
  second :
      (w w' : Writer) (a : A) (out : Cursor × Writer) (o : Option (B × List ℕ))
      → w' ≡ e a w
      → Relays f w' out o
      → Relays (enc_both e f) w out (elim o [ none ↦ none | some (b, rest) ↦ some ((a, b), rest) ])
  unfolding ◌⨾◌
  second w w' a out none h r = r
  second w w' a out (some (b, rest)) h (live, ve, we) = (live, ve, we ∙ ap (f b) h)

  first_then :
      (w : Writer) (out : Cursor × Writer) (o : Option (A × List ℕ))
      → Relays e w out o
      → Relays (enc_both e f) w (y out.0 out.1) (elim o [
        | none ↦ none
        | some (a, rest) ↦ elim (q rest) [ none ↦ none | some (b, more) ↦ some ((a, b), more) ]
      ])
  first_then w out none h = py.sticky out.0 out.1 h
  first_then w out (some (a, rest)) (live, ve, we) =
      second w out.1 a (y out.0 out.1) (q rest) we (
        subst (λ (l : List ℕ). Relays f out.1 (y out.0 out.1) (q l)) ve
          (py.relays out.0 out.1 live))

  pub Piece-both : Piece (in_turn x y) (both p q) (enc_both e f)
  unfolding P.◌>>=◌
  Piece-both = record {
    sticky = λ r w h. py.sticky (x r w).0 (x r w).1 (px.sticky r w h);
    relays = λ r w v. first_then w (x r w) (p (view r)) (px.relays r w v);
  }

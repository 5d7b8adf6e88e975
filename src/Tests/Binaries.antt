-- ===== src/Tests/Binaries.antt =====
-- The theorems on the binaries and on the texts that they print.
use sternhamla_server.Prelude.{
  ℕ, ◌≡◌, ◌↔◌, inl, refl, none, some, List, [], ◌∷◌, ◌∈◌, first?, replicate, ok, nat_eq,
}
use sternhamla_server.Board.Hex.{HexIdx}
use sternhamla_server.Board.Cells.{cell}
use sternhamla_server.Game.{GameError}
use sternhamla_server.Display.{Text, display_game, status_text}
use sternhamla_server.Display.Cells.{display_game_iff}
use sternhamla_server.Playground.{Chance, playground}
use sternhamla_server.Playground.Outcome.{IsChance, Ended, playground-Ended}
use sternhamla_server.Tests.{game, game_inv, after}

-- A number as so many strokes.
strokes : ℕ → Text
strokes n = replicate n 124

display_game_iff_example :
    (t : Text) × (display_game strokes {E = GameError} game ≡ ok t)
    × ((display_game strokes {E = GameError} after.0.0 ≡ ok t) ↔ (
        ((k : HexIdx) → cell game.board k ≡ cell after.0.0.board k)
        × (status_text strokes game.status ≡ status_text strokes after.0.0.status)))
display_game_iff_example =
    display_game_iff strokes GameError game after.0.0 game_inv.star.square after.2.3.inv.star.square

first-mem : {A : Type 0} (l : List A) (a : A) → first? l ≡ some a → a ∈ l
first-mem [] a e = absurd (cc)
first-mem (x ∷ l) a e = inl (cc)

first_none : {A : Type 0} (l : List A) → first? l ≡ none → l ≡ []
first_none [] e = refl
first_none (x ∷ l) e = absurd (cc)

-- Draws the first, and leaves the order.
abbrev first_choice : Chance
first_choice = record {
  choose_movement = first?;
  choose = first?;
  sorted_unstable_by_key = λ key l. l;
  sample = 2;
}

first_choice-IsChance : IsChance first_choice
first_choice-IsChance = record {
  chosen_movement = first-mem;
  no_movement = first_none;
  chosen = first-mem;
  nothing_chosen = first_none;
  sorted = λ key l m h. h;
}

playground-Ended_example : Ended (playground {E = GameError} (λ n. first_choice))
playground-Ended_example =
    playground-Ended GameError (λ n. first_choice) (λ n. first_choice-IsChance)

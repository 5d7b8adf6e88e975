-- ===== src/Board/Setup.antt =====
-- `empty`, `with_pieces` and `new`: which cells the star has, and where the pieces stand at the
-- start.
use sternhamla_server.Prelude.{
  ℕ, ◌≡◌, refl, ◌∙◌, inl, inr, ltb, not, ◌&&◌, ◌*◌, Bool, true, none, some, List, [], ◌∷◌, contains,
  replicate, length-replicate, Distinct, ◌∈◌, All, every, every_sound, all_distinct,
  all_distinct_sound, get_elem?, zero, suc, ◌+◌, ok_unchecked, ap, Returns-imp, Returns-bind,
  Returns-ok_unchecked, ok, Returns, if◌then◌else◌, contains-mem, arith,
}
use sternhamla_server.Player.{Player, player1, player2, player_eq}
use sternhamla_server.Board.{
  Board, Position, PiecePlacementError, fill_valid, empty, set_piece, place_pieces, with_pieces,
  new,
}
use sternhamla_server.Board.Hex.{HexIdx, Inside, board_length, idx_eq, idx_beq_iff}
use sternhamla_server.Board.Lut.{
  valid_positions, player1_starting_positions, player2_starting_positions,
}
use sternhamla_server.Board.Cells.{
  flatten, IsSquare, cell, put, get-cell, write-put, put-IsSquare, cell-put, Inside-of_cell,
}

module _ {T : Type 0} where
  -- The cells of `is` hold `v`, and the others are those of `b`.
  pub record Filled (b : Board T) (is : List HexIdx) (v : Position T) (b' : Board T) : Type 0 where
    pub square : IsSquare b'
    pub cells : (k : HexIdx) → cell b' k ≡ (if contains is k then v else cell b k)

  fill_valid-Filled :
      (E : Type 0) (b : Board T) (is : List HexIdx)
      → IsSquare b
      → All Inside is
      → Returns (Filled b is (some none)) (fill_valid {E = E} b is)
  unfolding fill_valid
  fill_valid-Filled E b [] sq h = record { square = sq; cells = λ k. refl }
  fill_valid-Filled E b (i ∷ is) sq h = rw (write-put E b i (some none) sq h.0) (
      Returns-imp (Filled (put b i (some none)) is (some none)) (Filled b (i ∷ is) (some none)) _
        (λ b' f. record {
          square = f.square;
          cells = λ k. ground (arith, f.cells k, cell-put b i k (some none) sq h.0);
        })
        (fill_valid-Filled E (put b i (some none)) is (put-IsSquare b i (some none) sq) h.1))

  set_piece_lem :
      (b : Board T) (i : HexIdx) (piece : T)
      → IsSquare b
      → cell b i ≡ some none
      → set_piece b i piece ≡ ok (put b i (some (some piece)))
  unfolding set_piece
  set_piece_lem b i piece sq h =
      let inside = Inside-of_cell b i none sq h in
      rw (get-cell b i sq inside, h)
        (write-put PiecePlacementError b i (some (some piece)) sq inside)

  place_pieces-Filled :
      (b : Board T) (is : List HexIdx) (piece : T)
      → IsSquare b
      → Distinct is
      → ((k : HexIdx) → k ∈ is → cell b k ≡ some none)
      → (b' : Board T) × (place_pieces b is piece ≡ (ok tt, b'))
        × Filled b is (some (some piece)) b'
  unfolding place_pieces
  place_pieces-Filled b [] piece sq d h = (b, refl, record { square = sq; cells = λ k. refl })
  place_pieces-Filled b (i ∷ is) piece sq d h =
      let first = set_piece_lem b i piece sq (h i (inl refl)) in
      let inside = Inside-of_cell b i none sq (h i (inl refl)) in
      let v = some (some piece) in
      let (b', run, f) =
        place_pieces-Filled (put b i v) is piece (put-IsSquare b i v sq) d.1
          (λ k m. ground (arith, cell-put b i k v sq inside, h k (inr m), d.0, idx_beq_iff i k)) in
      (
        b',
        rw (first, place_pieces) run,
        record {
          square = f.square;
          cells = λ k. ground (
            arith,
            f.cells k,
            cell-put b i k v sq inside,
            idx_beq_iff i k,
            d.0,
            contains-mem is k,
          );
        },
      )

  with_pieces-Filled :
      (b : Board T) (piece : T) (is : List HexIdx)
      → IsSquare b
      → Distinct is
      → ((k : HexIdx) → k ∈ is → cell b k ≡ some none)
      → Returns (Filled b is (some (some piece))) (with_pieces b piece is)
  unfolding with_pieces
  with_pieces-Filled b piece is sq d h =
      let (b', run, f) = place_pieces-Filled b is piece sq d h in rw (run, with_pieces) f

abbrev is_inside : HexIdx → Bool
is_inside (i, j) = ltb i board_length && ltb j board_length

All-of_every : (is : List HexIdx) → every is_inside is ≡ true → All Inside is
unfolding every
All-of_every [] h = tt
All-of_every ((i, j) ∷ is) h = (ground arith, All-of_every is (ground arith))

valid-Inside : All Inside valid_positions
valid-Inside = All-of_every valid_positions checked
  where
    checked : every is_inside valid_positions ≡ true
    checked = unfold every valid_positions in refl

pub starts_valid :
    (every (contains valid_positions) player1_starting_positions ≡ true)
    × (every (contains valid_positions) player2_starting_positions ≡ true)
unfolding every valid_positions player1_starting_positions player2_starting_positions
starts_valid = (refl, refl)

starts_apart :
    every (λ k. not (contains player1_starting_positions k)) player2_starting_positions ≡ true
unfolding every player1_starting_positions player2_starting_positions
starts_apart = refl

pub starts-Distinct : Distinct player1_starting_positions × Distinct player2_starting_positions
starts-Distinct = (
  all_distinct_sound player1_starting_positions first,
  all_distinct_sound player2_starting_positions second,
)
  where
    first : all_distinct player1_starting_positions ≡ true
    first = unfold all_distinct player1_starting_positions in refl

    second : all_distinct player2_starting_positions ≡ true
    second = unfold all_distinct player2_starting_positions in refl

pub valid-Distinct : Distinct valid_positions
valid-Distinct = all_distinct_sound valid_positions checked
  where
    checked : all_distinct valid_positions ≡ true
    checked = unfold all_distinct valid_positions in refl

-- A board with no piece: the star, and nothing around it.
abbrev empty_cell : {T : Type 0} → HexIdx → Position T
empty_cell k = if contains valid_positions k then some none else none

get_elem?-blank :
    {T : Type 0} (n i : ℕ) → flatten (get_elem? (replicate {A = Position T} n none) i) ≡ none
get_elem?-blank zero i = refl
get_elem?-blank (suc n) zero = refl
get_elem?-blank (suc n) (suc i) = get_elem?-blank n i

blank-cell :
    {T : Type 0} (n : ℕ) (k : HexIdx) → cell {T = T} (record { cells = replicate n none }) k ≡ none
unfolding cell
blank-cell {T} n (i, j) = ground (arith, get_elem?-blank {T = T} n (i * board_length + j))

empty-cell :
    (T E : Type 0)
    → Returns (λ b. IsSquare b × ((k : HexIdx) → cell b k ≡ empty_cell k)) (empty {T = T} {E = E})
unfolding empty
empty-cell T E =
    Returns-imp (Filled _ valid_positions (some none)) _ _
      (λ b f. (
        f.square,
        λ k.
            f.cells k
            ∙ ap (λ c. if contains valid_positions k then some none else c)
                (blank-cell {T = T} (board_length * board_length) k),
      ))
      (fill_valid-Filled E _ valid_positions
        (length-replicate {A = Position T} (board_length * board_length) none) valid-Inside)

-- The cells at the start.
abbrev pub start_cell : HexIdx → Position Player
start_cell k =
    if contains player1_starting_positions k
    then some (some player1)
    else if contains player2_starting_positions k
    then some (some player2)
    else if contains valid_positions k
    then some none
    else none

-- `Board::new` returns, without undefined behaviour, a board of 17 * 17 cells, in which the
-- starting positions of the players have their pieces, the other cells of the star are empty, and
-- all others are off the board.
pub new-start_cell :
    (E : Type 0)
    → Returns (λ b. IsSquare b × ((k : HexIdx) → cell b k ≡ start_cell k)) (new {E = E})
unfolding new
new-start_cell E = Returns-bind _ _ empty _ (empty-cell Player E) λ b fb.
    Returns-bind _ _ (ok_unchecked (with_pieces b player1 player1_starting_positions)) _
      (Returns-ok_unchecked E (Filled b player1_starting_positions (some (some player1))) _ (
        with_pieces-Filled b player1 player1_starting_positions fb.0 starts-Distinct.0
          (λ k m. rw (fb.1 k, every_sound (contains valid_positions) _ k starts_valid.0 m))))
      λ b1 f1.
        Returns-imp (Filled b1 player2_starting_positions (some (some player2))) _ _
          (λ b2 f2. (
            f2.square,
            λ k. ground (
              arith,
              f2.cells k,
              f1.cells k,
              fb.1 k,
              contains-mem player2_starting_positions k,
              every_sound (λ (k : HexIdx). not (contains player1_starting_positions k))
                  player2_starting_positions k starts_apart,
            ),
          ))
          (Returns-ok_unchecked E (Filled b1 player2_starting_positions (some (some player2))) _ (
            with_pieces-Filled b1 player2 player2_starting_positions f1.square starts-Distinct.1
              (λ k m. ground (
                arith,
                f1.cells k,
                fb.1 k,
                every_sound (contains valid_positions) _ k starts_valid.1 m,
                every_sound (λ (k : HexIdx). not (contains player1_starting_positions k)) _ k
                    starts_apart m,
              ))))

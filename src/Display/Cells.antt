-- ===== src/Display/Cells.antt =====
-- src/sternhalma/board/mod.rs, `Display for Board<Player>`: what a text says of the board.
use native.Mathlib.Decide.{dec_lt}
use sternhamla_server.Prelude.{
  ℕ, zero, suc, ◌+◌, ◌<◌, ◌≤◌, ◌≡◌, ◌↔◌, refl, sym, ap, ◌∙◌, inl, inr, none, some, List, [], ◌∷◌,
  ◌++◌, ◌∈◌, replicate, Exec, ok, flat_map, Option-cases, arith, ◌==◌, nat_eq, append_assoc,
  append-nil, append_cancel_left, if◌then◌else◌,
}
use sternhamla_server.Player.{Player, player1, player2}
use sternhamla_server.Board.{Board, Position}
use sternhamla_server.Board.Hex.{HexIdx, Inside, board_length}
use sternhamla_server.Board.Cells.{IsSquare, cell, index-cell, Inside-of_cell}
use sternhamla_server.Game.{Game}
use sternhamla_server.Display.{
  Text, codes, coordinates, range_from, position_text, cell_text, board_line, board_lines,
  display_board, status_text, display_game,
}

drop : ℕ → Text → Text
drop zero t = t
drop (suc n) [] = []
drop (suc n) (c ∷ t) = drop n t

-- Reads the cell that a text begins with.
read_cell : Text → Position Player × Text
unfolding drop
read_cell [] = (none, [])
read_cell (c ∷ t) =
    if c == 9899
    then (some none, drop 1 t)
    else if c == 128309
    then (some (some player1), drop 1 t)
    else if c == 128308
    then (some (some player2), drop 1 t)
    else (none, drop 6 t)

read_cell-position_text :
    (p : Position Player) (r : Text) → read_cell (position_text p ++ r) ≡ (p, r)
unfolding read_cell drop
read_cell-position_text none r = refl
read_cell-position_text (some none) r = refl
read_cell-position_text (some (some player1)) r = refl
read_cell-position_text (some (some player2)) r = refl

-- The texts of two cells are different, and none begins the other.
position_text-inj :
    (p q : Position Player) (r s : Text)
    → position_text p ++ r ≡ position_text q ++ s
    → (p ≡ q) × (r ≡ s)
position_text-inj p q r s e =
    let same = sym (read_cell-position_text p r) ∙ ap read_cell e ∙ read_cell-position_text q s in
    (ap (λ x. x.0) same, ap (λ x. x.1) same)

-- The texts that the loops make, of the cells as a function.
line_text : (ℕ → Position Player) → List ℕ → Text
line_text f [] = []
line_text f (j ∷ js) = position_text (f j) ++ line_text f js

lines_text : (HexIdx → Position Player) → List ℕ → Text
unfolding line_text
lines_text f [] = []
lines_text f (i ∷ is) =
    (replicate i 32 ++ line_text (λ j. f (i, j)) coordinates ++ codes "\n") ++ lines_text f is

regroup : (a b n l t : Text) → (((a ++ b) ++ n) ++ l) ++ t ≡ a ++ (b ++ (n ++ (l ++ t)))
regroup a b n l t =
    append_assoc ((a ++ b) ++ n) l t
    ∙ append_assoc (a ++ b) n (l ++ t)
    ∙ append_assoc a b (n ++ (l ++ t))

line_text-inj :
    (f g : ℕ → Position Player) (js : List ℕ) (r s : Text)
    → line_text f js ++ r ≡ line_text g js ++ s
    → ((j : ℕ) → j ∈ js → f j ≡ g j) × (r ≡ s)
unfolding line_text
line_text-inj f g [] r s e = ((λ j m. absurd m), e)
line_text-inj f g (i ∷ js) r s e =
    let (first, later) = position_text-inj (f i) (g i) (line_text f js ++ r) (line_text g js ++ s) (
      sym (append_assoc (position_text (f i)) (line_text f js) r)
      ∙ e
      ∙ append_assoc (position_text (g i)) (line_text g js) s) in
    let (others, rest) = line_text-inj f g js r s later in
    ((λ j m. elim m [ inl same ↦ rw same first | inr old ↦ others j old ]), rest)

lines_text-inj :
    (f g : HexIdx → Position Player) (is : List ℕ) (r s : Text)
    → lines_text f is ++ r ≡ lines_text g is ++ s
    → ((i j : ℕ) → i ∈ is → j ∈ coordinates → f (i, j) ≡ g (i, j)) × (r ≡ s)
unfolding lines_text drop
lines_text-inj f g [] r s e = ((λ i j m n. absurd m), e)
lines_text-inj f g (k ∷ is) r s e =
    let (first, later) =
      line_text-inj (λ j. f (k, j)) (λ j. g (k, j)) coordinates _ _
        (append_cancel_left (replicate k 32) _ _ (sym (shape r f) ∙ e ∙ shape s g)) in
    let (others, rest) = lines_text-inj f g is r s (ap (drop 1) later) in
    ((λ i j m n. elim m [ inl same ↦ rw same (first j n) | inr old ↦ others i j old n ]), rest)
  where
    shape :
        (t : Text) (h : HexIdx → Position Player)
        → lines_text h (k ∷ is) ++ t
          ≡ replicate k 32
            ++ (line_text (λ j. h (k, j)) coordinates ++ (codes "\n" ++ (lines_text h is ++ t)))
    shape t h =
        regroup (replicate k 32) (line_text (λ j. h (k, j)) coordinates) (codes "\n")
          (lines_text h is) t

module _ {E : Type 0} where
  loop_line :
      (cell_text : ℕ → Exec E Text) (f : ℕ → Position Player) (js : List ℕ)
      → ((j : ℕ) → j ∈ js → cell_text j ≡ ok (position_text (f j)))
      → flat_map cell_text js ≡ ok (line_text f js)
  unfolding flat_map line_text
  loop_line cell_text f [] h = refl
  loop_line cell_text f (j ∷ js) h =
      rw (h j (inl refl), loop_line cell_text f js (λ k m. h k (inr m))) refl

  loop_lines :
      (line : ℕ → Exec E Text) (f : HexIdx → Position Player) (is : List ℕ)
      → ((i : ℕ)
          → i ∈ is
          → line i ≡ ok (replicate i 32 ++ line_text (λ j. f (i, j)) coordinates ++ codes "\n"))
      → flat_map line is ≡ ok (lines_text f is)
  unfolding flat_map lines_text
  loop_lines line f [] h = refl
  loop_lines line f (i ∷ is) h = rw (h i (inl refl), loop_lines line f is (λ k m. h k (inr m))) refl

below : (i n : ℕ) (j : ℕ) → j ∈ range_from i n → j < i + n
below i zero j m = absurd m
below i (suc n) j (inl e) = omega arith
below i (suc n) j (inr m) = omega (arith, below (suc i) n j m)

within : (j : ℕ) → j < board_length → j ∈ coordinates
within j h = reach 0 board_length (omega arith) h
  where
    reach : (i n : ℕ) → i ≤ j → j < i + n → j ∈ range_from i n
    reach i zero a b = absurd (omega arith)
    reach i (suc n) a b = elim (dec_lt i j) [
      | yes more ↦ inr (reach (suc i) n (omega arith) (omega arith))
      | no last ↦ inl (omega arith)
    ]

display_board-lines :
    (E : Type 0) (b : Board Player)
    → IsSquare b
    → display_board {E = E} b ≡ ok (lines_text (cell b) coordinates)
unfolding display_board board_lines board_line cell_text
display_board-lines E b sq = loop_lines _ (cell b) coordinates line
  where
    shown :
        (i : ℕ)
        → i ∈ coordinates
        → (j : ℕ) → j ∈ coordinates
        → cell_text {E = E} b (i, j) ≡ ok (position_text (cell b (i, j)))
    shown i m j n = rw (cell_text, index-cell E b (i, j) sq (below 0 17 i m, below 0 17 j n)) refl

    line :
        (i : ℕ)
        → i ∈ coordinates
        → board_line (cell_text {E = E} b) i
          ≡ ok (replicate i 32 ++ line_text (λ j. cell b (i, j)) coordinates ++ codes "\n")
    line i m =
        rw
          (
            board_line,
            loop_line {E = E} (λ j. cell_text b (i, j)) (λ j. cell b (i, j)) coordinates
                (shown i m),
          )
          refl

-- A cell off the square is off the board.
cells_outside :
    (b b' : Board Player)
    → IsSquare b
    → IsSquare b'
    → ((k : HexIdx) → Inside k → cell b k ≡ cell b' k)
    → (k : HexIdx) → cell b k ≡ cell b' k
cells_outside b b' sq sq' h k = elim (Option-cases (cell b k)) [
  | inr (o, found) ↦ h k (Inside-of_cell b k o sq found)
  | inl off ↦ elim (Option-cases (cell b' k)) [
    | inr (o, found) ↦ h k (Inside-of_cell b' k o sq' found)
    | inl off' ↦ off ∙ sym off'
  ]
]

lines_iff :
    (b b' : Board Player) (r s : Text)
    → IsSquare b
    → IsSquare b'
    → (lines_text (cell b) coordinates ++ r ≡ lines_text (cell b') coordinates ++ s)
      ↔ (((k : HexIdx) → cell b k ≡ cell b' k) × (r ≡ s))
lines_iff b b' r s sq sq' = (
  λ e.
      let (cells, rest) = lines_text-inj (cell b) (cell b') coordinates r s e in
      (
        cells_outside b b' sq sq'
            (λ k inside. cells k.0 k.1 (within k.0 inside.0) (within k.1 inside.1)),
        rest,
      ),
  λ (h, e). λ i. lines_text (λ k. h k i) coordinates ++ e i,
)

same_text : {E : Type 0} {x y : Text} (r : Exec E Text) → r ≡ ok y → r ≡ ok x → x ≡ y
same_text r h g = cc

-- On boards of 17 * 17 cells `Display` returns a text, and another board has the same text exactly
-- when all its cells are the same.
pub display_board_iff :
    (E : Type 0) (b b' : Board Player)
    → IsSquare b
    → IsSquare b'
    → (t : Text) × (display_board {E = E} b ≡ ok t)
      × ((display_board {E = E} b' ≡ ok t) ↔ ((k : HexIdx) → cell b k ≡ cell b' k))
display_board_iff E b b' sq sq' =
    let lines = lines_iff b b' [] [] sq sq' in
    (
      lines_text (cell b) coordinates,
      display_board-lines E b sq,
      (
        λ e.
            (lines.0
              (append-nil _ ∙ same_text _ (display_board-lines E b' sq') e ∙ sym (append-nil _))).0,
        λ h.
            display_board-lines E b' sq'
            ∙ ap ok (sym (sym (append-nil _) ∙ lines.1 (h, refl) ∙ append-nil _)),
      ),
    )

-- `Display` of a game whose board has 17 * 17 cells returns a text, and another such game has the
-- same text exactly when the cells are the same and the texts of the status are, however numbers
-- are written.
pub display_game_iff :
    (decimal : ℕ → Text) (E : Type 0) (g g' : Game)
    → IsSquare g.board
    → IsSquare g'.board
    → (t : Text) × (display_game decimal {E = E} g ≡ ok t)
      × ((display_game decimal {E = E} g' ≡ ok t) ↔ (
          ((k : HexIdx) → cell g.board k ≡ cell g'.board k)
          × (status_text decimal g.status ≡ status_text decimal g'.status)))
unfolding display_game
display_game_iff decimal E g g' sq sq' =
    let status = status_text decimal g.status in
    let status' = status_text decimal g'.status in
    let lines = lines_iff g.board g'.board status status' sq sq' in
    (
      lines_text (cell g.board) coordinates ++ status,
      shown g sq,
      (
        λ e. lines.0 (same_text (display_game decimal g') (shown g' sq') e),
        λ h. shown g' sq' ∙ ap ok (sym (lines.1 h)),
      ),
    )
  where
    shown :
        (g : Game)
        → IsSquare g.board
        → display_game decimal {E = E} g
          ≡ ok (lines_text (cell g.board) coordinates ++ status_text decimal g.status)
    shown g sq = rw (display_board-lines E g.board sq) refl

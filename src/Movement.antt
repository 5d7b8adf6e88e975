-- ===== src/Movement.antt =====
-- src/sternhalma/board/movement.rs: the moves of a piece, their enumeration, validation and
-- application.
pub mod Hops
pub mod Paths
pub mod Available
pub mod Player
pub mod Validate
pub mod Apply
use mathlib.Core.List.{flatten}
use package.sternhamla_server.Prelude.{
  ℕ, zero, suc, Bool, true, false, ◌||◌, Option, none, some, List, [], ◌∷◌, ◌++◌, length, first?,
  last?, contains, Exec, ok, err, Opt, nothing, ◌>>=◌, ◌>>◌, map_err, ok_or, unwrap, some_unchecked,
  ok_unchecked, filter_map, flat_map, Eq, ◌==◌,
}
use package.sternhamla_server.Board.{Board, write, get, iter_player_indices}
use package.sternhamla_server.Board.Direction.{HexDirection, directions, nearest_neighbor}
use package.sternhamla_server.Board.Hex.{HexIdx, idx_eq}

pub data Movement : Type 0 where
  move : HexIdx → HexIdx → Movement
  hops : List HexIdx → Movement

unfoldable pub Movement_contains : Movement → HexIdx → Bool
Movement_contains (move from to) idx = from == idx || to == idx
Movement_contains (hops path) idx = contains path idx

pub data MovementError : Type 0 where
  empty_init : MovementError
  invalid_index occupied : HexIdx → MovementError
  short_hopping : ℕ → MovementError

-- `[from, to]`.
abbrev pub MovementIndices : Type 0
MovementIndices = HexIdx × HexIdx

-- `movement.into()`.
unfoldable pub to_indices : {E : Type 0} → Movement → Exec E MovementIndices
to_indices (move from to) = ok (from, to)
to_indices (hops path) = do from ← unwrap (first? path); to ← unwrap (last? path); ok (from, to)

module _ {T : Type 0} where
  -- The closure of `available_hops_from`.
  unfoldable pub hop_towards : Board T → HexIdx → HexDirection → Opt HexIdx
  unfolding nearest_neighbor
  hop_towards b idx d = do
    (nn_idx, nn_pos) ← nearest_neighbor b idx d
    elim nn_pos [
      | none ↦ nothing
      | some _ ↦ do
        (nnn_idx, nnn_pos) ← nearest_neighbor b nn_idx d
        elim nnn_pos [ some _ ↦ nothing | none ↦ ok nnn_idx ]
    ]

  unfoldable pub available_hops_from : {E : Type 0} → Board T → HexIdx → Exec E (List HexIdx)
  unfolding filter_map hop_towards
  available_hops_from b idx = filter_map (hop_towards b idx) directions

-- `path.get(1..)`.
abbrev pub get_from_1 : List HexIdx → Option (List HexIdx)
get_from_1 [] = none
get_from_1 (i ∷ is) = some is

-- The body of the loop of `collect_hop_paths_from`, over the recursive call.
unfoldable pub extend_path :
    {E : Type 0}
    → (List HexIdx → Exec E (List Movement))
    → List HexIdx
    → HexIdx
    → Exec E (List Movement)
extend_path further path next = elim (contains path next) [
  | true ↦ ok []
  | false ↦ do
    let next_path = path ++ next ∷ []
    more ← further next_path
    ok (hops next_path ∷ more)
]

-- One more than the cells of the square.
abbrev pub hop_fuel : ℕ
hop_fuel = 290

module _ {T : Type 0} where
  -- The fuel bounds the depth of the recursion.
  unfoldable pub collect_hop_paths_from :
      {E : Type 0} → ℕ → Board T → List HexIdx → Exec E (List Movement)
  unfolding available_hops_from flat_map extend_path
  collect_hop_paths_from zero b path = Exec.stuck
  collect_hop_paths_from (suc fuel) b path = do
    last ← unwrap (last? path)
    next ← available_hops_from b last
    flat_map (extend_path (λ p. collect_hop_paths_from fuel b p) path) next

  -- The closure of `available_movements_from`.
  unfoldable pub movements_towards : Board T → HexIdx → HexDirection → Opt (List Movement)
  unfolding collect_hop_paths_from nearest_neighbor
  movements_towards b idx d = do
    (nn_idx, nn_pos) ← nearest_neighbor b idx d
    elim nn_pos [
      | none ↦ ok (move idx nn_idx ∷ [])
      | some _ ↦ do
        (nnn_idx, nnn_pos) ← nearest_neighbor b nn_idx d
        elim nnn_pos [
          | some _ ↦ nothing
          | none ↦ do
            let initial_hop = idx ∷ nnn_idx ∷ []
            further ← collect_hop_paths_from hop_fuel b initial_hop
            ok (hops initial_hop ∷ further)
        ]
    ]

  unfoldable pub available_movements_from : {E : Type 0} → Board T → HexIdx → Exec E (List Movement)
  unfolding movements_towards filter_map
  available_movements_from b idx =
      filter_map (movements_towards b idx) directions >>= λ found. ok (flatten found)

  unfoldable pub iter_player_movements :
      {E : Type 0} ⦃e : Eq T⦄ → Board T → T → Exec E (List Movement)
  unfolding iter_player_indices available_movements_from flat_map
  iter_player_movements b player = do
    indices ← iter_player_indices b player
    flat_map (available_movements_from b) indices

  -- The check of one index of a path after the first.
  unfoldable pub check_hop : Board T → HexIdx → Exec MovementError (Unit {0})
  unfolding get
  check_hop b idx = do
    pos ← map_err (λ _. invalid_index idx) (get b idx)
    elim pos [ some _ ↦ err (occupied idx) | none ↦ ok tt ]

  -- `find_map(..)` stops at the first error.
  unfoldable pub check_hops : Board T → List HexIdx → Exec MovementError (Unit {0})
  unfolding check_hop
  check_hops b [] = ok tt
  check_hops b (i ∷ is) = check_hop b i >> check_hops b is

  unfoldable pub validate_movement : Board T → Movement → Exec MovementError (Movement × T)
  unfolding get check_hops
  validate_movement b (move from to) = do
    start ← map_err (λ e. invalid_index e.idx) (get b from)
    player ← ok_or empty_init start
    target ← map_err (λ _. invalid_index from) (get b to)
    elim target [ some _ ↦ err (occupied to) | none ↦ ok (move from to, player) ]
  validate_movement b (hops path) = do
    start ← ok_or (short_hopping (length path)) (first? path)
    cell ← map_err (λ _. invalid_index start) (get b start)
    player ← ok_or empty_init cell
    rest ← ok_or (short_hopping (length path)) (get_from_1 path)
    check_hops b rest
    ok (hops path, player)

  unfoldable pub apply_movement_unchecked :
      {E : Type 0} → Board T → MovementIndices → Exec E (Board T)
  unfolding get write
  apply_movement_unchecked b (from, to) = do
    pos ← ok_unchecked (get b from)
    piece ← some_unchecked pos
    taken ← write b from (some none)
    _ ← ok_unchecked (get taken to)
    write taken to (some (some piece))

  unfoldable pub apply_movement : Board T → Movement → Exec MovementError (Board T)
  unfolding validate_movement to_indices apply_movement_unchecked
  apply_movement b m = do
    (movement, _) ← validate_movement b m
    indices ← to_indices movement
    apply_movement_unchecked b indices

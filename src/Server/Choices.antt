-- ===== src/Server/Choices.antt =====
-- src/server/mod.rs, `handle_turn`: the choice that ends a turn.
use sternhamla_server.Prelude.{
  ◌⊎◌, ℕ, ◌+◌, ◌<◌, ◌≡◌, ◌↔◌, Bool, true, none, List, ◌∈◌, All, length, get_elem?-mem, ok,
  Returns-elim, Returns_of_ok, Eq,
}
use sternhamla_server.Player.{Player, player_eq}
use sternhamla_server.Board.Hex.{HexIdx}
use sternhamla_server.Movement.{MovementIndices}
use sternhamla_server.Game.{Game, GameStatus, playing, Scores, status_scores, usize_limit}
use sternhamla_server.Game.Invariant.{Inv}
use sternhamla_server.Messages.{ServerBroadcast}
use sternhamla_server.Server.{get, Server, announced, emit}
use sternhamla_server.Server.{not_broadcast}
use sternhamla_server.Server.Turn.{TurnEvent, played, bail, turn_step, handle_turn, available_moves}
use sternhamla_server.Server.Moves.{available_moves-Playable}
use sternhamla_server.Server.Steps.{Paired}
use sternhamla_server.Server.Turns.{handle_turn-offered}
use sternhamla_server.Server.Choosing.{
  Delivered, chosen, unheard, Ends, choose-played, choose-unheard, opened-Ends,
}
use sternhamla_server.Rules.{MayMove, Turn as RuleTurn}
use sternhamla_server.Rules.Chains.{pieces_on}
use sternhamla_server.Rules.Moves.{available_moves-MayMove}
use sternhamla_server.Rules.Refine.{match_of, Played-Turn}

module _ (unique : List MovementIndices → List MovementIndices)
    (same_elements : (l : List MovementIndices) (m : MovementIndices) → (m ∈ unique l) ↔ (m ∈ l))
    (current : Player) (g : Game) (turns : ℕ) (scores : Scores) (inv : Inv g)
    (going : g.status ≡ playing current turns scores) (small : turns + 1 < usize_limit)
    {Uuid Sender : Type 0} ⦃e : Eq Uuid⦄ where
  -- In a game that satisfies the invariant and goes on, with a turn counter that stays below 2^64
  -- and with each player either present or marked as disconnected, let the message that opens the
  -- turn go through, if one is sent, and let `handle_turn` receive any messages from open
  -- channels, each with an answer or a broadcast that goes through, and among them a choice of
  -- the player to move that is an index of the list of moves. Then `handle_turn` returns: a
  -- listed move was made and announced last. `unique` keeps the elements of a list and adds none.
  pub handle_turn-Ends :
      (sent : Bool) (evs : List (TurnEvent Uuid Sender × Bool)) (s : Server Uuid Sender)
      (movements : List MovementIndices) (n : ℕ)
      → available_moves {E = Unit {0}} unique g ≡ ok movements
      → n < length movements
      → All Delivered evs
      → chosen current n ∈ evs
      → Paired s
      → (sent ≡ true) ⊎ (get s.clients_tx current ≡ none)
      → Ends movements current g (handle_turn unique sent current g evs s)
  handle_turn-Ends sent evs s movements n found listed open_channels there h opens =
      let playable = Returns_of_ok _ _ movements found (
        available_moves-Playable unique same_elements g current turns scores inv going
          (Unit {0})) in
      rw
        (handle_turn-offered movements current g turns scores inv going small playable unique found
          sent evs s)
        (opened-Ends movements current g turns scores inv going small playable sent n listed evs s
          open_channels there h opens)

  -- In a game that satisfies the invariant and goes on, with a turn counter that stays below
  -- 2^64, let the rules allow the player to move to go from `a` to `c`. Then some index of the
  -- list of moves stands for it. If the broadcast of the move goes through, the message that
  -- chooses this index ends the turn, and in the game after it the invariant holds and one turn
  -- of the rules from `a` to `c` was made; the move is announced, and nothing else of the server
  -- changes. If it does not go through, the turn fails with the error about the broadcast and the
  -- server is as it was. `unique` keeps the elements of a list and adds none.
  pub turn_step-RuleTurn :
      (a c : HexIdx)
      → MayMove (pieces_on g.board) current a c
      → (s : Server Uuid Sender)
      → (movements : List MovementIndices) × (n : ℕ) × (g' : Game) × (status : GameStatus)
        × (available_moves {E = Unit {0}} unique g ≡ ok movements)
        × (turn_step movements current g (chosen current n) s
            ≡ played g' status (
                emit s
                  (announced (ServerBroadcast.movement current (a, c) (status_scores status)))))
        × Inv g'
        × RuleTurn (match_of g) a c (match_of g')
        × (turn_step movements current g (unheard current n) s ≡ bail not_broadcast s)
  turn_step-RuleTurn a c may s =
      let (movements, found, rules) = Returns-elim _ _ (
        available_moves-MayMove unique same_elements (Unit {0}) g current turns scores inv going) in
      let playable = Returns_of_ok _ _ movements found (
        available_moves-Playable unique same_elements g current turns scores inv going
          (Unit {0})) in
      let (n, at_n) = get_elem?-mem movements (a, c) ((rules a c).1 may) in
      let (g', status, ended, made) =
        choose-played movements current g turns scores inv going small playable n (a, c) s at_n in
      (
        movements,
        n,
        g',
        status,
        found,
        ended,
        made.inv,
        Played-Turn g current turns scores a c (g', status) inv going may made,
        choose-unheard movements current g turns scores inv going small playable n (a, c) s at_n,
      )

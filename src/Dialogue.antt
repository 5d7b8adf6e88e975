-- ===== src/Dialogue.antt =====
-- A turn from end to end: the server's list of moves, what the client task of the player makes of it,
-- the choice of the remote client, and what both remote clients are told of it.
use sternhamla_server.Prelude.{
  ℕ, ◌+◌, ◌<◌, ◌≡◌, ◌↔◌, refl, ◌∙◌, ap, inl, inr, true, Option, some, List, [], ◌∷◌, ◌++◌, ◌∈◌, All,
  length, get_elem?, get_elem?_total, mem-get_elem?, ok, Returns_of_ok, Eq,
}
use mathlib.Core.Option as Options
use sternhamla_server.Player.{Player, player1}
use sternhamla_server.Board.Cells.{Inside-of_cell}
use sternhamla_server.Movement.{MovementIndices}
use sternhamla_server.Game.{Game, GameStatus, playing, Scores, status_scores, usize_limit}
use sternhamla_server.Game.Invariant.{Inv, Played}
use sternhamla_server.Messages.{
  ServerMessage, ServerBroadcast, ClientRequest, RemoteOutMessage, RemoteInMessage,
}
use sternhamla_server.Client.{
  ClientError, Outbox, relative_player, relative_scores, handle_server_message,
  handle_remote_message, handle_server_broadcast,
}
use sternhamla_server.Client.Relative.{turned_ends, relative_view}
use sternhamla_server.Client.Views.{
  EndsInside, handle_server_message-choices, translate_broadcast-turned,
}
use sternhamla_server.Server.{Server, announced, emit}
use sternhamla_server.Server.Turn.{available_moves, played, turn_step}
use sternhamla_server.Server.Moves.{Playable, available_moves-Playable}
use sternhamla_server.Server.Choosing.{chosen, choose-played}

-- The remote client of the player is shown a list with the entries of the list of moves as the
-- player sees them. It answers with the number of the entry `mine`; its client task asks the server
-- for the same number; the server makes a move and announces it; and the remote client is told that
-- player 1, which is itself, has made the move `mine`. The remote client of any player is told the
-- same move as that player sees it.
pub record Dialogue {Uuid Sender : Type 0} ⦃e : Eq Uuid⦄ (movements : List MovementIndices)
    (current : Player) (g : Game) (n : ℕ) (s : Server Uuid Sender) (o : Outbox Uuid) : Type 0 where
  pub shown : List MovementIndices
  pub mine : MovementIndices
  pub listing :
      handle_server_message true current (ServerMessage.turn movements) o
      ≡ ok (record o { remote = o.remote ++ RemoteOutMessage.turn shown ∷ [] })
  pub entries :
      (k : ℕ) → get_elem? shown k ≡ Options.map (turned_ends current) (get_elem? movements k)
  pub entry : get_elem? shown n ≡ some mine
  pub request :
      handle_remote_message true current (RemoteInMessage.choice n) o
      ≡ ok (record o {
        server = o.server ++ record { player = current; request = ClientRequest.choice n } ∷ [];
      })
  pub move : MovementIndices
  pub after : Game
  pub status : GameStatus
  pub listed : get_elem? movements n ≡ some move
  pub made : Played g current move.0 move.1 (after, status)
  pub broadcast :
      turn_step movements current g (chosen current n) s
      ≡ played after status
          (emit s (announced (ServerBroadcast.movement current move (status_scores status))))
  pub told_all :
      (q : Player) (o' : Outbox Uuid)
      → handle_server_broadcast true q
          (ServerBroadcast.movement current move (status_scores status))
          o'
        ≡ ok (record o' {
          remote =
              o'.remote
              ++ RemoteOutMessage.movement
                  (relative_player q current)
                  (turned_ends q move)
                  (relative_scores q (status_scores status))
                ∷ [];
        })
  pub told_mover : (relative_player current current ≡ player1) × (turned_ends current move ≡ mine)

Playable-EndsInside :
    (g : Game) (p : Player) (m : MovementIndices) → Inv g → Playable g p m → EndsInside m
Playable-EndsInside g p m inv (start, free) =
    let from = Inside-of_cell g.board m.0 (some p) inv.star.square start in
    (
      from,
      elim free [
        | inl empty ↦ Inside-of_cell g.board m.1 Option.none inv.star.square empty
        | inr back ↦ rw back from
      ],
    )

each_entry : {A : Type 0} (P : A → Type 0) (xs : List A) → ((x : A) → x ∈ xs → P x) → All P xs
each_entry P [] h = tt
each_entry P (x ∷ xs) h = (h x (inl refl), each_entry P xs (λ y m. h y (inr m)))

module _ (unique : List MovementIndices → List MovementIndices)
    (same_elements : (l : List MovementIndices) (m : MovementIndices) → (m ∈ unique l) ↔ (m ∈ l))
    (current : Player) (g : Game) (turns : ℕ) (scores : Scores) (inv : Inv g)
    (going : g.status ≡ playing current turns scores) (small : turns + 1 < usize_limit)
    {Uuid Sender : Type 0} ⦃e : Eq Uuid⦄ where
  -- In a game that satisfies the invariant and goes on, with a turn counter that stays below
  -- 2^64, let n be an index of the list of moves, and let all sends go through. Then the remote
  -- client of the player to move is shown the moves of the list as the player sees them; its
  -- choice of the n-th reaches the server; the server makes the n-th move of its own list and
  -- announces it; and each remote client is told this move as its player sees it: the one that
  -- chose is told that player 1 made the very move that it was shown as the n-th. `unique` keeps
  -- the elements of a list and adds none.
  pub choice-Dialogue :
      (movements : List MovementIndices) (n : ℕ) (s : Server Uuid Sender) (o : Outbox Uuid)
      → available_moves {E = Unit {0}} unique g ≡ ok movements
      → n < length movements
      → Dialogue movements current g n s o
  unfolding handle_server_broadcast handle_remote_message
  choice-Dialogue movements n s o found inside =
      let playable = Returns_of_ok _ _ movements found (
        available_moves-Playable unique same_elements g current turns scores inv going
          (Unit {0})) in
      let on_square =
        each_entry EndsInside movements
          (λ m at_m. Playable-EndsInside g current m inv (playable m at_m)) in
      let (shown, listing, entries) = handle_server_message-choices current movements o on_square in
      let (m, at_n) = get_elem?_total movements n inside in
      let (g', status, ended, made) =
        choose-played movements current g turns scores inv going small playable n m s at_n in
      record {
        shown = shown;
        mine = turned_ends current m;
        listing = listing;
        entries = entries;
        entry = entries n ∙ ap (Options.map (turned_ends current)) at_n;
        request = refl;
        move = m;
        after = g';
        status = status;
        listed = at_n;
        made = made;
        broadcast = ended;
        told_all = λ q o'.
            rw
              (translate_broadcast-turned {Uuid = Uuid} ClientError q current m
                (status_scores status)
                (Playable-EndsInside g current m inv
                  (playable m (mem-get_elem? movements n m at_n))))
              refl;
        told_mover = ((relative_view current current (status_scores status)).0, refl);
      }

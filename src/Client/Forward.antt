-- ===== src/Client/Forward.antt =====
-- `run` of a client task: exactly what it asks of the server.
use sternhamla_server.Prelude.{
  All, ◌≡◌, refl, sym, ◌∙◌, ap, Bool, true, false, List, [], ◌∷◌, ◌++◌, append_assoc, append-nil,
}
use sternhamla_server.Player.{Player}
use sternhamla_server.Messages.{ClientRequest, ClientMessage}
use sternhamla_server.Client.Events.{forward, EndsIn, Passes, Steps, select-Steps}
use sternhamla_server.Client.{
  Outbox, Received, Next, continue, break, bail, crash, Ending, waiting, finished, crashed, failed,
  select, say_goodbye, run,
}

abbrev pub farewell : Player → Bool → List ClientMessage
farewell self true = record { player = self; request = ClientRequest.disconnect } ∷ []
farewell self false = []

-- What a run asks at its end.
abbrev pub last_words : Player → Bool → Ending → List ClientMessage
last_words self sent finished = farewell self sent
last_words self sent _ = []

module _ {Uuid : Type 0} where
  abbrev pub forwarded : Player → List (Received Uuid × Bool) → List ClientMessage
  forwarded self [] = []
  forwarded self (r ∷ rs) = forward self r ++ forwarded self rs

  -- The run has an event that ended it, and before it were only events that do not.
  pub record Ended (self : Player) (rs : List (Received Uuid × Bool)) (o o' : Outbox Uuid)
      (x : Ending) : Type 0 where
    pub before : List (Received Uuid × Bool)
    pub after : List (Received Uuid × Bool)
    pub last : Received Uuid × Bool
    pub split : rs ≡ before ++ last ∷ after
    pub passed : All Passes before
    pub ends : EndsIn last x
    pub asked : o'.server ≡ o.server ++ (forwarded self before ++ last_words self last.1 x)

  abbrev pub Forwards :
      Player → List (Received Uuid × Bool) → Outbox Uuid → Outbox Uuid × Ending → Type 0
  Forwards self rs o (o', waiting) = All Passes rs × (o'.server ≡ o.server ++ forwarded self rs)
  Forwards self rs o (o', finished) = Ended self rs o o' finished
  Forwards self rs o (o', failed x) = Ended self rs o o' (failed x)
  Forwards self rs o (o', crashed) = Ended self rs o o' crashed

  regroup :
      (o o' : Outbox Uuid) (l xs ys : List ClientMessage)
      → o'.server ≡ o.server ++ xs
      → l ≡ o'.server ++ ys
      → l ≡ o.server ++ (xs ++ ys)
  regroup o o' l xs ys h g = g ∙ ap (λ x. x ++ ys) h ∙ append_assoc o.server xs ys

  -- An event before the others.
  prepend-Ended :
      (self : Player) (r : Received Uuid × Bool) (rs : List (Received Uuid × Bool))
      (o o' : Outbox Uuid)
      → Passes r
      → o'.server ≡ o.server ++ forward self r
      → (x : Outbox Uuid) (n : Ending) → Ended self rs o' x n
      → Ended self (r ∷ rs) o x n
  prepend-Ended self r rs o o' pass h x n f = record {
    before = r ∷ f.before;
    after = f.after;
    last = f.last;
    split = ap (λ l. r ∷ l) f.split;
    passed = (pass, f.passed);
    ends = f.ends;
    asked =
        regroup o o' x.server (forward self r) _ h f.asked
        ∙ ap (λ l. o.server ++ l)
            (sym (
              append_assoc (forward self r) (forwarded self f.before)
                (last_words self f.last.1 n)));
  }

  prepend :
      (self : Player) (r : Received Uuid × Bool) (rs : List (Received Uuid × Bool))
      (o o' : Outbox Uuid)
      → Passes r
      → o'.server ≡ o.server ++ forward self r
      → (x : Outbox Uuid × Ending) → Forwards self rs o' x
      → Forwards self (r ∷ rs) o x
  prepend self r rs o o' pass h (x, waiting) f =
      ((pass, f.0), regroup o o' x.server (forward self r) (forwarded self rs) h f.1)
  prepend self r rs o o' pass h (x, finished) f = prepend-Ended self r rs o o' pass h x finished f
  prepend self r rs o o' pass h (x, failed e) f = prepend-Ended self r rs o o' pass h x (failed e) f
  prepend self r rs o o' pass h (x, crashed) f = prepend-Ended self r rs o o' pass h x crashed f

  -- The event that ends the run, when it comes first.
  first-Ended :
      (self : Player) (r : Received Uuid × Bool) (rs : List (Received Uuid × Bool))
      (o o' : Outbox Uuid) (x : Ending)
      → EndsIn r x
      → o'.server ≡ o.server ++ last_words self r.1 x
      → Ended self (r ∷ rs) o o' x
  first-Ended self r rs o o' x ends asked = record {
    before = [];
    after = rs;
    last = r;
    split = refl;
    passed = tt;
    ends = ends;
    asked = asked;
  }

  goodbye :
      (sent : Bool) (self : Player) (o o' : Outbox Uuid)
      → o' ≡ o
      → (say_goodbye sent self o').server ≡ o.server ++ farewell self sent
  goodbye true self o o' same = rw same refl
  goodbye false self o o' same = rw (same, append-nil o.server) refl

  -- Whatever a client task receives and whichever sends fail, it ends only by an event that ends
  -- it, and before that one, or as long as it waits, come only events that do not: it ends with
  -- an error when the channel of the server or the broadcast is closed, or when a message to the
  -- remote client cannot be sent; it finishes when the stream of the remote client has ended; and
  -- only where it shows a message may it panic. It asks of the server, in order and nothing else,
  -- each choice that it received by then and whose sending goes through; if it finishes and this
  -- sending goes through, it adds the request to disconnect.
  pub run-Forwards :
      (self : Player) (rs : List (Received Uuid × Bool)) (o : Outbox Uuid)
      → Forwards self rs o (run self rs o)
  unfolding run Steps
  run-Forwards self [] o = (tt, sym (append-nil o.server))
  run-Forwards self ((r, sent) ∷ rs) o =
      after_step (select sent self r o) (select-Steps self r sent o) (λ o'. run-Forwards self rs o')
    where
      after_step :
          (n : Next Uuid)
          → Steps self (r, sent) o n
          → ((o' : Outbox Uuid) → Forwards self rs o' (run self rs o'))
          → Forwards self ((r, sent) ∷ rs) o (elim n [
            | continue o' ↦ run self rs o'
            | break o' ↦ (say_goodbye sent self o', finished)
            | bail e ↦ (o, failed e)
            | crash ↦ (o, crashed)
          ])
      after_step (continue o') step later =
          prepend self (r, sent) rs o o' step.0 step.1 (run self rs o') (later o')
      after_step (break o') step later =
          first-Ended self (r, sent) rs o (say_goodbye sent self o') finished step.0
            (goodbye sent self o o' step.1)
      after_step (bail x) step later =
          first-Ended self (r, sent) rs o o (failed x) step (sym (append-nil o.server))
      after_step crash step later =
          first-Ended self (r, sent) rs o o crashed step (sym (append-nil o.server))

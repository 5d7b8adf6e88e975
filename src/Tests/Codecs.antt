-- ===== src/Tests/Codecs.antt =====
-- The theorems on the codecs and the transports, for a length-delimited framing whose head is one
-- number, and for a serialization of the messages of a client.
use sternhamla_server.Prelude.{
  ℕ, zero, suc, ◌<◌, ◌≡◌, ◌≢◌, refl, ap, true, false, Option, none, some, List, [], ◌∷◌, ◌++◌,
  length, length-append, map, Exec, ok, err, leb, if◌then◌else◌, arith,
}
use sternhamla_server.Player.{player1}
use sternhamla_server.Messages.{RemoteOutMessage, RemoteInMessage}
use sternhamla_server.Codec.{
  Bytes, Cbor, IsCbor, Framing, IsFraming, CodecError, deserialized, decode_message, frame_payload,
  encode_message, server_decode, server_encode, client_decode, client_encode,
}
use sternhamla_server.Handshake.{Surroundings, closed}
use sternhamla_server.Socket.{read_message, handle_ws, handle_tcp}
use sternhamla_server.Socket.Transports.{Serialized, binaries, handle_ws-handle_tcp}
use sternhamla_server.Codec.Stream.{
  encode_all, Reads, start, arrive, wait, item, InOrder, client_to_server, server_to_client,
}

take : ℕ → Bytes → Bytes
take zero xs = []
take (suc n) [] = []
take (suc n) (x ∷ xs) = x ∷ take n xs

drop : ℕ → Bytes → Bytes
drop zero xs = xs
drop (suc n) [] = []
drop (suc n) (x ∷ xs) = drop n xs

take-append : (b rest : Bytes) → take (length b) (b ++ rest) ≡ b
unfolding take
take-append [] rest = refl
take-append (x ∷ b) rest = ap (λ l. x ∷ l) (take-append b rest)

drop-append : (b rest : Bytes) → drop (length b) (b ++ rest) ≡ rest
unfolding drop
drop-append [] rest = refl
drop-append (x ∷ b) rest = drop-append b rest

-- The state is the head that has been read.
body : ℕ → Bytes → Option ℕ × Bytes × Exec (Unit {0}) (Option Bytes)
unfolding take drop
body n src =
    if leb n (length src)
    then (none, drop n src, ok (some (take n src)))
    else (some n, src, ok none)

unframe : Option ℕ → Bytes → Option ℕ × Bytes × Exec (Unit {0}) (Option Bytes)
unfolding body
unframe none [] = (none, [], ok none)
unframe none (n ∷ src) = body n src
unframe (some n) src = body n src

abbrev framing : Framing (Option ℕ)
framing = record { new = none; decode = unframe; encode = λ f b dst. (f, ok (dst ++ length b ∷ b)) }

abbrev frame : Bytes → Bytes
frame b = length b ∷ b

abbrev pending : Option ℕ → Bytes
pending none = []
pending (some n) = n ∷ []

tail_of :
    (n : ℕ) (b src rest : Bytes)
    → n ∷ src ≡ length b ∷ (b ++ rest)
    → (n ≡ length b) × (src ≡ b ++ rest)
tail_of n b src rest e = (cc, cc)

body_whole :
    (n : ℕ) (b src rest : Bytes)
    → n ∷ src ≡ length b ∷ (b ++ rest)
    → body n src ≡ (none, rest, ok (some b))
unfolding body
body_whole n b src rest e =
    let (same, follows) = tail_of n b src rest e in
    let enough : leb (length b) (length (b ++ rest)) ≡ true =
      ground (arith, length-append b rest) in
    rw (same, follows, enough, take-append b rest, drop-append b rest) refl

nonempty : (more : Bytes) → more ≢ [] → 0 < length more
nonempty [] h = absurd (h refl)
nonempty (x ∷ more) h = omega arith

body_part :
    (n : ℕ) (b src more : Bytes)
    → n ∷ (src ++ more) ≡ length b ∷ b
    → more ≢ []
    → body n src ≡ (some n, src, ok none)
unfolding body
body_part n b src more e h =
    let same : n ≡ length b = cc in
    let all : src ++ more ≡ b = cc in
    let short : leb n (length src) ≡ false =
      ground (arith, length-append src more, nonempty more h, same, ap length all) in
    rw short refl

written : (x y : Bytes) (r : Exec (Unit {0}) Bytes) → r ≡ ok x → r ≡ ok y → y ≡ x
written x y r h g = cc

framing-IsFraming : IsFraming framing frame pending
unfolding unframe
framing-IsFraming = record {
  fresh = refl;
  writes = λ f b dst dst' e. written (dst ++ frame b) dst' (ok (dst ++ frame b)) refl e;
  whole = λ f f' b src dst dst' rest e s. whole f b src rest s;
  part = λ f f' b src dst dst' more e s h. part f b src more s h;
  silent = silent;
}
  where
    whole :
        (f : Option ℕ) (b src rest : Bytes)
        → pending f ++ src ≡ frame b ++ rest
        → (g : Option ℕ) × (unframe f src ≡ (g, rest, ok (some b))) × (pending g ≡ [])
    whole none b [] rest e = absurd (cc)
    whole none b (n ∷ src) rest e = (none, body_whole n b src rest e, refl)
    whole (some n) b src rest e = (none, body_whole n b src rest e, refl)

    part :
        (f : Option ℕ) (b src more : Bytes)
        → (pending f ++ src) ++ more ≡ frame b
        → more ≢ []
        → (g : Option ℕ) × (left : Bytes) × (unframe f src ≡ (g, left, ok none))
          × (pending g ++ left ≡ pending f ++ src)
    part none b [] more e h = (none, [], refl, refl)
    part none b (n ∷ src) more e h = (some n, src, body_part n b src more e h, refl)
    part (some n) b src more e h = (some n, src, body_part n b src more e h, refl)

    silent :
        (f : Option ℕ) (src : Bytes)
        → pending f ++ src ≡ []
        → (g : Option ℕ) × (left : Bytes) × (unframe f src ≡ (g, left, ok none))
          × (pending g ++ left ≡ [])
    silent none [] e = (none, [], refl, refl)
    silent none (n ∷ src) e = absurd (cc)
    silent (some n) src e = absurd (cc)

write_in : RemoteInMessage ℕ → Exec (Unit {0}) Bytes
write_in RemoteInMessage.hello = ok (0 ∷ [])
write_in (RemoteInMessage.reconnect u) = ok (1 ∷ u ∷ [])
write_in (RemoteInMessage.choice n) = ok (2 ∷ n ∷ [])

read_in : Bytes → Exec (Unit {0}) (RemoteInMessage ℕ)
read_in (zero ∷ b) = ok RemoteInMessage.hello
read_in (suc zero ∷ u ∷ b) = ok (RemoteInMessage.reconnect u)
read_in (suc (suc zero) ∷ n ∷ b) = ok (RemoteInMessage.choice n)
read_in _ = err tt

abbrev incoming : Cbor (RemoteInMessage ℕ)
incoming = record { into_writer = write_in; from_reader = read_in }

incoming-IsCbor : IsCbor incoming
unfolding write_in read_in
incoming-IsCbor = record { reads = reads }
  where
    reads : (m : RemoteInMessage ℕ) (b : Bytes) → write_in m ≡ ok b → read_in b ≡ ok m
    reads RemoteInMessage.hello b e = rw (written _ b _ refl e) refl
    reads (RemoteInMessage.reconnect u) b e = rw (written _ b _ refl e) refl
    reads (RemoteInMessage.choice n) b e = rw (written _ b _ refl e) refl

-- Of the messages of the server, two.
write_out : RemoteOutMessage ℕ → Exec (Unit {0}) Bytes
write_out (RemoteOutMessage.welcome u) = ok (0 ∷ u ∷ [])
write_out RemoteOutMessage.disconnect = ok (1 ∷ [])
write_out _ = err tt

read_out : Bytes → Exec (Unit {0}) (RemoteOutMessage ℕ)
read_out (zero ∷ u ∷ b) = ok (RemoteOutMessage.welcome u)
read_out (suc zero ∷ b) = ok RemoteOutMessage.disconnect
read_out _ = err tt

abbrev outgoing : Cbor (RemoteOutMessage ℕ)
outgoing = record { into_writer = write_out; from_reader = read_out }

outgoing-IsCbor : IsCbor outgoing
unfolding write_out read_out
outgoing-IsCbor = record { reads = reads }
  where
    reads : (m : RemoteOutMessage ℕ) (b : Bytes) → write_out m ≡ ok b → read_out b ≡ ok m
    reads (RemoteOutMessage.welcome u) b e = rw (written _ b _ refl e) refl
    reads RemoteOutMessage.disconnect b e = rw (written _ b _ refl e) refl
    reads (RemoteOutMessage.reject u) b e = absurd (cc)
    reads (RemoteOutMessage.turn u) b e = absurd (cc)
    reads (RemoteOutMessage.movement p m u) b e = absurd (cc)
    reads (RemoteOutMessage.game_finished u) b e = absurd (cc)

abbrev messages : List (RemoteInMessage ℕ)
messages = RemoteInMessage.hello ∷ RemoteInMessage.choice 5 ∷ []

abbrev wire : Bytes
wire = 1 ∷ 0 ∷ 2 ∷ 2 ∷ 5 ∷ []

sent : encode_all (client_encode framing incoming outgoing) none messages [] ≡ ok wire
unfolding encode_all client_encode encode_message frame_payload write_in
sent = refl

abbrev decode : Option ℕ → Bytes → Option ℕ × Bytes × Exec CodecError (Option (RemoteInMessage ℕ))
decode = server_decode framing incoming outgoing

-- The bytes arrive in three chunks, the first two of which end inside a frame.
arrived : Reads none decode wire (record { codec = none; buffer = []; items = messages })
unfolding server_decode decode_message deserialized unframe body take drop read_in
arrived =
    let first = wait (1 ∷ []) [] _ (some 1) (arrive [] (1 ∷ []) _ start) refl in
    let second =
      item (1 ∷ 0 ∷ 2 ∷ []) (2 ∷ []) _ none RemoteInMessage.hello
        (arrive (1 ∷ []) (0 ∷ 2 ∷ []) _ first) refl in
    let third = wait (1 ∷ 0 ∷ 2 ∷ []) [] _ (some 2) second refl in
    item wire [] _ none (RemoteInMessage.choice 5) (arrive (1 ∷ 0 ∷ 2 ∷ []) (2 ∷ 5 ∷ []) _ third)
      refl

drained : decode none [] ≡ (none, [], ok none)
unfolding server_decode decode_message deserialized unframe
drained = refl

client_to_server_example :
    InOrder none decode messages [] (record { codec = none; buffer = []; items = messages })
client_to_server_example =
    client_to_server framing incoming outgoing frame pending framing-IsFraming incoming-IsCbor
      messages wire wire [] _ sent refl arrived

abbrev answers : List (RemoteOutMessage ℕ)
answers = RemoteOutMessage.welcome 7 ∷ RemoteOutMessage.disconnect ∷ []

abbrev answer_wire : Bytes
answer_wire = 2 ∷ 0 ∷ 7 ∷ 1 ∷ 1 ∷ []

answered : encode_all (server_encode framing incoming outgoing) none answers [] ≡ ok answer_wire
unfolding encode_all server_encode encode_message frame_payload write_out
answered = refl

abbrev answer_decode :
    Option ℕ → Bytes → Option ℕ × Bytes × Exec CodecError (Option (RemoteOutMessage ℕ))
answer_decode = client_decode framing incoming outgoing

-- All of the first message has arrived, and the head of the second.
answers_arrived :
    Reads none answer_decode
      (2 ∷ 0 ∷ 7 ∷ 1 ∷ [])
      (record { codec = none; buffer = 1 ∷ []; items = RemoteOutMessage.welcome 7 ∷ [] })
unfolding client_decode decode_message deserialized unframe body take drop read_out
answers_arrived =
    item (2 ∷ 0 ∷ 7 ∷ 1 ∷ []) (1 ∷ []) _ none (RemoteOutMessage.welcome 7)
      (arrive [] (2 ∷ 0 ∷ 7 ∷ 1 ∷ []) _ start) refl

server_to_client_example :
    InOrder none answer_decode answers
      (1 ∷ [])
      (record { codec = none; buffer = 1 ∷ []; items = RemoteOutMessage.welcome 7 ∷ [] })
server_to_client_example =
    server_to_client framing incoming outgoing frame pending framing-IsFraming outgoing-IsCbor
      answers answer_wire (2 ∷ 0 ∷ 7 ∷ 1 ∷ []) (1 ∷ []) _ answered refl answers_arrived

around : Surroundings ℕ ℕ
around = record {
  first = closed;
  main_open = true;
  answer = some (some player1);
  sink_open = true;
  notified = true;
  new_v4 = 10;
  server_tx = 1;
}

abbrev payloads : List Bytes
payloads = (0 ∷ []) ∷ (2 ∷ 5 ∷ []) ∷ []

serialized : Serialized incoming messages payloads
unfolding write_in
serialized = (0 ∷ [], (2 ∷ 5 ∷ []) ∷ [], refl, refl, (2 ∷ 5 ∷ [], [], refl, refl, refl))

handle_ws-handle_tcp_example :
    (messages ≡ messages)
    × (map (read_message {E = Unit {0}} incoming) (binaries payloads) ≡ map ok messages)
    × (handle_ws {E = Unit {0}} {F = Unit {0}} incoming around (binaries payloads)
        ≡ handle_tcp around (map ok messages))
handle_ws-handle_tcp_example =
    handle_ws-handle_tcp framing incoming outgoing frame pending framing-IsFraming incoming-IsCbor
      messages payloads wire _ none [] serialized sent arrived drained around

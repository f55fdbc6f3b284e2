-- ===== src/Tests/Chat.antt =====
-- Examples of the conversations: a node, a peer, and a few messages.
use decentralized_p2p_chat_s.Base.{
  ℕ, zero, suc, ◌^◌, ◌≤◌, ◌<◌, ◌≡◌, ◌≢◌, refl, true, false, List, [], ◌∷◌, ◌++◌, none, some, arith,
  Bytes, bytes_eq, ◌+◌,
}
use decentralized_p2p_chat_s.Base.Dict.{lookup}
use decentralized_p2p_chat_s.Base.Int.{pos}
use decentralized_p2p_chat_s.Text.{trim_space}
use decentralized_p2p_chat_s.Security.Replay.Spec.{contains}
use decentralized_p2p_chat_s.Protocol.{Envelope, type_chat}
use decentralized_p2p_chat_s.Manager.{Env, Manager, conversation_id}
use decentralized_p2p_chat_s.Manager.Receive.{is_blank, handle_envelope}
use decentralized_p2p_chat_s.Manager.Receive.Frame.{heard}
use decentralized_p2p_chat_s.Manager.Receive.Inbox.{countdown}
use decentralized_p2p_chat_s.Manager.Receive.Order.{last_seq}
use decentralized_p2p_chat_s.Manager.Receive.Delivery.{IsOurs, IsGenuine, handle_all, numbers}
use decentralized_p2p_chat_s.Manager.Receive.Blocked.{blank_blocks}
use decentralized_p2p_chat_s.Manager.Receive.Bounds.{IsBounded, handle_all-IsBounded}
use decentralized_p2p_chat_s.Manager.Streams.{chosen_peer, set_active, add_stream, forget_peer}
use decentralized_p2p_chat_s.Manager.Streams.Connect.{
  connected_in_order, IsForgotten, IsKept, forget_peer_lem,
}
use decentralized_p2p_chat_s.Manager.Streams.Active.{Event, Events}
use decentralized_p2p_chat_s.Manager.Streams.Active
use decentralized_p2p_chat_s.Tests.Security.{toy_cipher, sender}

abbrev pub own : Bytes
own = 1 ∷ []

abbrev pub peer : Bytes
peer = 2 ∷ []

abbrev pub zeros : ℕ → Bytes
zeros zero = []
zeros (suc n) = 0 ∷ zeros n

abbrev pub toy_env : Env
toy_env = record {
  json = record { is_json = λ text. true; marshal = λ e. some (3 ∷ []); unmarshal = λ text. none };
  bodies = record {
    marshal_chat = λ text. some text;
    marshal_ack = λ id. some id;
    marshal_control = λ body. none;
    unmarshal_chat = λ text. some text;
    unmarshal_ack = λ text. some text;
    unmarshal_control = λ text. none;
  };
  cipher = toy_cipher;
  id_string = λ p. p;
  digest = λ text. text;
  random = λ n. some (zeros 16);
  clock = λ n. 1000;
  can_write = λ stream n. true;
}

-- A node without a connection, and one that is connected to the peer.
abbrev pub alone : Manager
alone = record {
  node = some own;
  streams = [];
  sessions = [];
  active = [];
  send_seq = [];
  recv_seq = [];
  recv_buffer = [];
  pending = [];
  local_nick = [];
  peer_nicks = [];
  concurrent_received = 0;
  draws = 0;
  effects = [];
}

abbrev pub connected : Manager
connected = record alone { streams = (peer, 7) ∷ []; sessions = (peer, sender) ∷ []; active = peer }

abbrev pub message : ℕ → Bytes → Envelope
message n text = record {
  version = pos 2;
  typ = type_chat;
  id = 5 ∷ n ∷ [];
  conversation = conversation_id toy_env own peer;
  sender = peer;
  timestamp = pos 1000;
  sequence = n;
  body = text;
}

abbrev text_of : ℕ → Bytes
text_of n = 104 ∷ []

shows : is_blank (104 ∷ []) ≡ false
unfolding is_blank trim_space
shows = refl

message-IsOurs : (n : ℕ) (text : Bytes) → IsOurs toy_env peer own (message n text)
message-IsOurs n text = record { chat = refl; conversation = refl; sender = refl }

message-IsGenuine :
    (n : ℕ) → 1 ≤ n → n < 2 ^ 64 → IsGenuine toy_env peer own text_of [] (message n (104 ∷ []))
message-IsGenuine n h k = record {
  ours = message-IsOurs n (104 ∷ []);
  honest = record { carries = (refl, shows); positive = h; fits = k };
}

-- The second message comes first, and the first one twice.
abbrev arrivals : List Envelope
arrivals = message 2 (104 ∷ []) ∷ message 1 (104 ∷ []) ∷ message 1 (104 ∷ []) ∷ []

connected_in_order_example :
    let start = add_stream toy_env alone peer 7 (some sender) in
    let n = last_seq (handle_all toy_env peer start arrivals) peer in
    (heard peer (handle_all toy_env peer start arrivals).effects ≡ countdown text_of n ++ [])
    × ((k : ℕ) → 1 ≤ k → k ≤ n → contains k (numbers toy_env peer [] start arrivals) ≡ true)
    × (n + 1 < 2 ^ 64 → contains (n + 1) (numbers toy_env peer [] start arrivals) ≡ false)
connected_in_order_example =
    connected_in_order toy_env peer alone own text_of 7 sender arrivals refl (
      message-IsGenuine 2 (omega arith) (omega arith),
      (
        message-IsGenuine 1 (omega arith) (omega arith),
        (message-IsGenuine 1 (omega arith) (omega arith), tt),
      ),
    )

handle_all-IsBounded_example : IsBounded toy_env peer (handle_all toy_env peer alone arrivals)
unfolding lookup
handle_all-IsBounded_example = handle_all-IsBounded toy_env peer alone arrivals (omega arith)

blank : is_blank (32 ∷ []) ≡ true
unfolding is_blank trim_space
blank = refl

first_number : last_seq connected peer ≡ 0
unfolding lookup
first_number = refl

blank_blocks_example :
    (handle_envelope toy_env connected peer (message 1 (32 ∷ [])) ≡ connected)
    × (last_seq
          (handle_all toy_env peer connected (message 1 (32 ∷ []) ∷ message 2 (104 ∷ []) ∷ []))
          peer
        ≡ last_seq connected peer)
    × (heard peer
          (handle_all toy_env peer connected
            (message 1 (32 ∷ []) ∷ message 2 (104 ∷ []) ∷ [])).effects
        ≡ heard peer connected.effects)
blank_blocks_example =
    blank_blocks toy_env peer connected own (32 ∷ []) (message 1 (32 ∷ []))
      (message 2 (104 ∷ []) ∷ []) refl (message-IsOurs 1 (32 ∷ [])) (omega (arith, first_number))
      refl blank
      (record { ours = message-IsOurs 2 (104 ∷ []); later = omega (arith, first_number) }, tt)

forget_peer_lem_example :
    IsForgotten (forget_peer connected peer) peer
    × ((other : Bytes) → other ≢ peer → IsKept connected (forget_peer connected peer) other)
    × (connected.active ≡ peer → (forget_peer connected peer).active ≡ [])
    × (connected.active ≢ peer → (forget_peer connected peer).active ≡ connected.active)
    × ((forget_peer connected peer).peer_nicks ≡ connected.peer_nicks)
forget_peer_lem_example = forget_peer_lem connected peer

abbrev joined : Manager
joined = add_stream toy_env alone peer 7 (some sender)

abbrev after_switch : Manager
after_switch = set_active joined (chosen_peer toy_env joined (some (pos 1)))

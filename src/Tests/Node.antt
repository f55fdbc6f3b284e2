-- ===== src/Tests/Node.antt =====
-- Examples of the whole node: dialling, requests, the console, the bridge and the key file.
use decentralized_p2p_chat_s.Base.{
  All, suc, ◌+◌, ◌≡◌, ◌≢◌, refl, sym, true, false, [], ◌∷◌, ◌++◌, none, some, Result, ok, arith,
  nat_eq, bytes_eq, Bytes, codes, length, ◌==◌, ◌||◌,
}
use decentralized_p2p_chat_s.Base.Dict.{lookup, insert}
use decentralized_p2p_chat_s.Text.{has_prefix, trim_space, trim_prefix}
use decentralized_p2p_chat_s.Storage.{missing, written, write_file}
use decentralized_p2p_chat_s.Base64.RoundTrip.{IsByte}
use decentralized_p2p_chat_s.Security.Handshake.{line_of}
use decentralized_p2p_chat_s.Manager.{closed, emit}
use decentralized_p2p_chat_s.Node.Start.Laws.{uninvited}
use decentralized_p2p_chat_s.Approvals.{open_request}
use decentralized_p2p_chat_s.Approvals.Laws.{Steps, no_requests}
use decentralized_p2p_chat_s.Approvals.Laws as Requests
use decentralized_p2p_chat_s.Manager.Receive.{take_next, drain, drain_receive_buffer}
use decentralized_p2p_chat_s.Manager.Receive.Order.{buffer_of}
use decentralized_p2p_chat_s.Manager.Receive.Ends.{drain_receive_buffer-ends}
use decentralized_p2p_chat_s.Manager.Streams.{read_line}
use decentralized_p2p_chat_s.Manager.Dial.{Attempt, invalid_address, arrives, dial, first_line}
use decentralized_p2p_chat_s.Manager.Dial.Streams.{Settles, Accepted, dial-Settles}
use decentralized_p2p_chat_s.Identity.{Disk, KeyEnv, KeyError, load_or_generate_key}
use decentralized_p2p_chat_s.Identity.Laws.{IsLawful, second_start}
use decentralized_p2p_chat_s.Web.{
  HttpRequest, handle_web_socket, add_client, upgraded, broadcast, error_message,
}
use decentralized_p2p_chat_s.Web.Server.{new_web_client}
use decentralized_p2p_chat_s.Web.Guarded.{Served, IsGuarded}
use decentralized_p2p_chat_s.Web.Clients.{Steps-IsGuarded}
use decentralized_p2p_chat_s.Web.Clients
use decentralized_p2p_chat_s.Node.{Outside, Node, run}
use decentralized_p2p_chat_s.Node.Bridge.{run-unsaved}
use decentralized_p2p_chat_s.Node.Socket.{WsMessage, Network, handle_ws_message}
use decentralized_p2p_chat_s.Node.Socket.Laws.{Changes, handle_ws_message-Changes}
use decentralized_p2p_chat_s.Node.Console.{handle_input}
use decentralized_p2p_chat_s.Node.Console.Laws.{answer_line, typed_answer}
use decentralized_p2p_chat_s.Node.Incoming.{requested_nick, request_arrives, request_ends}
use decentralized_p2p_chat_s.Node.Incoming.Stale.{kept_requests, kept_as, request_stays}
use decentralized_p2p_chat_s.Node.Incoming.Laws.{request_ends-Settles}
use decentralized_p2p_chat_s.Tests.Security.{sender}
use decentralized_p2p_chat_s.Tests.Storage.{toy_history}
use decentralized_p2p_chat_s.Tests.Chat.{toy_env, peer, alone, connected}

abbrev attempt : Attempt
attempt = record {
  connects = true;
  stream = some 7;
  reply = arrives (codes "__ACCEPT__" ++ 10 ∷ []);
  handshaken = some sender;
}

no_stream : lookup peer alone.streams ≡ none
unfolding lookup
no_stream = refl

dial-Settles_example :
    Settles toy_env peer 7 (Accepted attempt.reply) alone (dial toy_env alone peer attempt)
dial-Settles_example = dial-Settles toy_env peer 7 alone attempt no_stream refl refl

drain_receive_buffer-ends_example :
    (take_next (drain_receive_buffer toy_env connected peer) peer ≡ none)
    × (drain toy_env (suc (length (buffer_of connected peer)) + 3) connected peer
        ≡ drain_receive_buffer toy_env connected peer)
drain_receive_buffer-ends_example = drain_receive_buffer-ends toy_env peer connected 3

-- Keys that are their own encoding.
abbrev toy_keys : KeyEnv
toy_keys = record {
  PrivKey = Bytes;
  marshal = λ key. some key;
  unmarshal = λ content. some content;
  home = some (codes "/home");
  join = λ dir name. dir ++ b'/' ∷ name;
}

toy_keys-IsLawful : IsLawful toy_keys
toy_keys-IsLawful = record { read_back = λ key content h. sym h }

abbrev first_start : Disk × Result KeyError Bytes
first_start =
    load_or_generate_key toy_keys [] [] (codes "/data") true false (some (codes "key")) written

first_start_ok :
    load_or_generate_key toy_keys [] [] (codes "/data") true false (some (codes "key")) written
    ≡ (first_start.0, ok (codes "key"))
unfolding load_or_generate_key codes write_file
first_start_ok = refl

second_start_example :
    load_or_generate_key toy_keys first_start.0 [] (codes "/data") true true none written
    ≡ (first_start.0, ok (codes "key"))
second_start_example =
    second_start toy_keys toy_keys-IsLawful [] first_start.0 [] (codes "/data") true
      (some (codes "key")) none written written (codes "key") first_start_ok

abbrev request : HttpRequest
request = record { origin = []; token = codes "secret" }

abbrev nobody : Served
nobody = record { client = new_web_client (codes "secret"); made_from = [] }

abbrev somebody : Served
somebody = record {
  client = add_client (new_web_client (codes "secret")) 4 0;
  made_from = insert 4 request [];
}

admitted :
    handle_web_socket (some nobody.client) 9090 request true 4 0 ≡ (some somebody.client, upgraded)
unfolding handle_web_socket codes bytes_eq new_web_client
admitted = refl

Steps-IsGuarded_example :
    IsGuarded 9090
      (codes "secret")
      (record somebody { client = broadcast somebody.client (error_message []) })
Steps-IsGuarded_example =
    Steps-IsGuarded 9090 (codes "secret")
      (record somebody { client = broadcast somebody.client (error_message []) })
      (Clients.goes_on nobody somebody _
        (Clients.admits nobody somebody.client request true 4 0 admitted)
        (Clients.goes_on somebody _ _ (Clients.tells somebody (error_message [])) (
          Clients.stays
            (record somebody { client = broadcast somebody.client (error_message []) }))))

-- A node whose stores are empty and whose bridge could not be started.
abbrev outside : Outside
outside = record {
  env = toy_env;
  decode_id = λ text. some text;
  peers = record { marshal = λ peers. some []; unmarshal = λ text. none };
  verifications = record { marshal = λ records. some []; unmarshal = λ text. none };
  history = toy_history;
  safety = record { pub_key = λ peer. none; id_string = λ peer. peer; digest = λ text. text };
  nanos = λ n. n;
  outcome = λ n. written;
  nonce = λ n. none;
  replaced = λ n. true;
}

abbrev node : Node
node = record {
  manager = connected;
  approvals = no_requests;
  peer_store = some missing;
  verification_store = some missing;
  history_store = some [];
  web = none;
}

abbrev network : Network
network = record {
  parse_address = λ text. invalid_address;
  attempt = attempt;
  has_dht = false;
  search = none;
  arrivals = 0;
  find_peer = λ text. none;
  can_remove = true;
}

run-unsaved_example :
    (run outside node (λ m. read_line toy_env m peer 7 (some (codes "line")))).history_store
    ≡ some []
run-unsaved_example =
    run-unsaved outside node (λ m. read_line toy_env m peer 7 (some (codes "line"))) refl

abbrev saving : WsMessage
saving = record {
  typ = codes "save_peer";
  payload = record {
    to = [];
    content = [];
    address = [];
    peer_id = peer;
    accepted = false;
    nickname = codes "friend";
    verified = false;
  };
}

handle_ws_message-Changes_example :
    Changes
      (saving.typ == codes "save_peer" || saving.typ == codes "remove_peer")
      (saving.typ == codes "set_verification")
      (saving.typ == codes "connection_response")
      node
      (handle_ws_message outside network node saving)
handle_ws_message-Changes_example = handle_ws_message-Changes outside network node saving

typed_answer_example :
    let opened = open_request no_requests peer in
    let asked : Node = record node { approvals = opened.0 } in
    let typed = handle_input outside network asked (answer_line true opened.1.num) in
    (lookup opened.1.channel typed.approvals.answers ≡ some true)
    × (typed ≡ record node { approvals = typed.approvals })
typed_answer_example =
    typed_answer outside network node peer true (Requests.stays no_requests)
      (unfold open_request in omega arith)

abbrev asked_node : Node
asked_node = record node { approvals = (open_request no_requests peer).0 }

-- The time is over, and there is no answer.
request_ends-Settles_example :
    Settles toy_env peer 7
      ((lookup (open_request no_requests peer).1.channel asked_node.approvals.answers ≡ some true)
        × (some sender ≢ none))
      connected
      (request_ends outside asked_node (open_request no_requests peer).1 7 (some sender)).manager
unfolding open_request
request_ends-Settles_example =
    request_ends-Settles outside asked_node (open_request no_requests peer).1 7 (some sender)

-- The node with a bridge.
abbrev bridged : Node
bridged = record node { web = some (new_web_client (codes "secret")) }

abbrev request_text : Bytes
request_text = codes "__CONNREQ__:bob" ++ 10 ∷ []

asks : requested_nick toy_env peer (first_line request_text) ≡ some (codes "bob")
unfolding requested_nick first_line codes bytes_eq has_prefix trim_space trim_prefix
asks = refl

request_stays_example :
    let asked = (request_arrives outside bridged peer 7 request_text).0 in
    kept_requests
      (request_ends outside
        (record asked { approvals = no_requests })
        (open_request no_requests peer).1
        7
        none).web
    ≡ (new_web_client (codes "secret")).pending_requests ++ kept_as outside peer (codes "bob") ∷ []
request_stays_example =
    request_stays outside bridged (new_web_client (codes "secret")) peer 7 request_text
      (codes "bob") no_requests none (open_request no_requests peer).1 refl asks

key_bytes : All IsByte (1 ∷ 2 ∷ 3 ∷ [])
key_bytes = ground arith

uninvited_example :
    request_arrives outside node peer 7 (line_of (1 ∷ 2 ∷ 3 ∷ []) ++ codes "more")
    ≡ (record node { manager = emit connected (closed 7) }, none)
uninvited_example = uninvited outside node peer 7 (1 ∷ 2 ∷ 3 ∷ []) (codes "more") key_bytes

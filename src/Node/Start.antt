-- ===== src/Node/Start.antt =====
-- main.go: `newStreamManager`, and `main` up to the point where the user can type.
pub mod Laws
use decentralized_p2p_chat_s.Base.{
  ℕ, ◌≡◌, Bool, true, false, List, [], ◌∷◌, Option, none, some, eqb, if◌then◌else◌, Bytes, length,
  codes,
}
use decentralized_p2p_chat_s.Storage.{File}
use decentralized_p2p_chat_s.Storage.History.{Directory}
use decentralized_p2p_chat_s.Security.Session.{Session}
use decentralized_p2p_chat_s.Discovery.{Contact, bootstrap}
use decentralized_p2p_chat_s.Approvals.{Approvals}
use decentralized_p2p_chat_s.Manager.{Env, Manager}
use decentralized_p2p_chat_s.Manager.Streams.{add_stream}
use decentralized_p2p_chat_s.Web.{WebClient}
use decentralized_p2p_chat_s.Node.{Outside, Node, run}

-- `newStreamManager`: the conversations, and the requests.
unfoldable pub new_stream_manager : Option Bytes → Manager
new_stream_manager own = record {
  node = own;
  streams = [];
  sessions = [];
  active = [];
  send_seq = [];
  recv_seq = [];
  recv_buffer = [];
  pending = [];
  local_nick = [];
  peer_nicks = [];
  concurrent_received = 0;
  draws = 0;
  effects = [];
}

unfoldable pub new_approvals : Approvals
new_approvals = record {
  pending_approvals = [];
  request_nums = [];
  next_request_num = 0;
  answers = [];
  allocated = 0;
}

-- What the calls of `main` come to: the identifier of the node that `CreateNode` makes, whether the
-- key has raw bytes, the files of the stores that can be opened, the client that `StartWebServer`
-- stores, and the DHT.
pub record Opening : Type 0 where
  pub created : Option Bytes
  pub raw_key : Bool
  pub peers : Option File
  pub verifications : Option File
  pub history : Option Directory
  pub web : Option WebClient
  pub has_dht : Bool
  pub dht_ready : Bool
  pub contacts : List Contact

-- The peer of an address on the command line: whether it is reached, and the stream to it.
pub record FirstPeer : Type 0 where
  pub peer : Bytes
  pub connects : Bool
  pub stream : Option ℕ
  pub handshaken : Option Session

-- The name that a node gives of itself.
abbrev pub own_nick : Bytes → Bytes
own_nick identity_name = if eqb (length identity_name) 0 then codes "anon" else identity_name

abbrev if_key {ℓ} : {A : Type ℓ} → Bool → Option A → Option A
if_key true store = store
if_key false store = none

-- The node before the DHT is set up.
unfoldable pub open_node : Bytes → Bytes → Opening → Node
unfolding new_stream_manager new_approvals
open_node identity_name own o = record {
  manager = record (new_stream_manager (some own)) { local_nick = own_nick identity_name };
  approvals = new_approvals;
  peer_store = if_key o.raw_key o.peers;
  verification_store = if_key o.raw_key o.verifications;
  history_store = if_key o.raw_key o.history;
  web = o.web;
}

module _ (out : Outside) where
  -- The part of `main` on the address of the command line, if there is one.
  unfoldable pub join_first : Node → Option FirstPeer → Option Node
  join_first n none = some n
  join_first n (some first) =
      if first.connects
      then elim first.stream [
        | none ↦ none
        | some stream ↦
            some (run out n (λ m. add_stream out.env m first.peer stream first.handshaken))
      ]
      else none

  -- `main` up to the reading of the input; `none` is a program that has ended.
  unfoldable pub start : Bytes → Opening → Option FirstPeer → Option Node
  unfolding open_node join_first
  start identity_name o first = elim o.created [
    | none ↦ none
    | some own ↦
        if o.has_dht
        then (if bootstrap o.dht_ready o.contacts
            then join_first (open_node identity_name own o) first
            else none)
        else none
  ]

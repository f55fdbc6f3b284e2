-- ===== src/Conversation/Links.antt =====
-- When two nodes are connected to each other, with room for more messages.
use decentralized_p2p_chat_s.Base.{ℕ, ◌+◌, ◌^◌, ◌<◌, ◌≡◌, bytes_eq, nat_eq, Bytes}
use decentralized_p2p_chat_s.Security.Session.{Session}
use decentralized_p2p_chat_s.Security.Session.Channel.{Matches}
use decentralized_p2p_chat_s.Manager.{Manager}
use decentralized_p2p_chat_s.Conversation.{Host, at_host, End}
use decentralized_p2p_chat_s.Conversation.Steps.{Ready}

-- Two nodes that are connected to each other. Their sessions match, each has shown all that the other
-- sent, and there is room for a number of further messages before a counter reaches 2 ^ 64.
pub record Linked (here there : End) (room : ℕ) (key back : Bytes) (a b : Manager) : Type 0 where
  pub s : Session
  pub t : Session
  pub n : ℕ
  pub k : ℕ
  pub first : Ready here.own there.own here.stream s n k a
  pub second : Ready there.own here.own there.stream t k n b
  pub out : Matches s t key
  pub ret : Matches t s back
  pub level : t.replay.recv_max ≡ s.send_ctr
  pub level_back : s.replay.recv_max ≡ t.send_ctr
  pub room_s : s.send_ctr + room < 2 ^ 64
  pub room_t : t.send_ctr + room < 2 ^ 64
  pub room_n : n + room < 2 ^ 64
  pub room_k : k + room < 2 ^ 64

pub Linked-swap :
    {here there : End} {room : ℕ} {key back : Bytes} {a b : Manager}
    → Linked here there room key back a b
    → Linked there here room back key b a
Linked-swap l = record {
  s = l.t;
  t = l.s;
  n = l.k;
  k = l.n;
  first = l.second;
  second = l.first;
  out = l.ret;
  ret = l.out;
  level = l.level_back;
  level_back = l.level;
  room_s = l.room_t;
  room_t = l.room_s;
  room_n = l.room_k;
  room_k = l.room_n;
}

-- That two nodes are linked does not depend on their hosts.
pub Linked-at_host :
    {here there : End} {room : ℕ} {key back : Bytes} {a b : Manager} (h k : Host)
    → Linked here there room key back a b
    → Linked (at_host here h) (at_host there k) room key back a b
Linked-at_host h k l = record {
  s = l.s;
  t = l.t;
  n = l.n;
  k = l.k;
  first = l.first;
  second = l.second;
  out = l.out;
  ret = l.ret;
  level = l.level;
  level_back = l.level_back;
  room_s = l.room_s;
  room_t = l.room_t;
  room_n = l.room_n;
  room_k = l.room_k;
}

-- ===== src/Tests/Storage.antt =====
-- Examples of the stores, with JSON packages that know the empty list and one list of one entry.
use decentralized_p2p_chat_s.Base.{
  ◌≡◌, ◌≢◌, ◌↔◌, refl, Bool, true, false, ◌&&◌, List, [], ◌∷◌, Option, none, some, ok, err, Bytes,
  codes, if◌then◌else◌, eqb, ◌==◌, bytes_eq,
}
use decentralized_p2p_chat_s.Base.Dict.{lookup}
use decentralized_p2p_chat_s.Storage.{unreadable, Codec, StoreError}
use decentralized_p2p_chat_s.Storage.Peers.{TrustedPeer}
use decentralized_p2p_chat_s.Storage.Verified.{Verification}
use decentralized_p2p_chat_s.Storage.Verified.Laws as VerifiedLaws
use decentralized_p2p_chat_s.Storage.History.{
  StoredMsg, HistoryEnv, Directory, save_message, load_history, clear_history, validate_peer_id,
}
use decentralized_p2p_chat_s.Storage.History.Names.{IsPlain, validate_peer_id-IsPlain}
use decentralized_p2p_chat_s.Storage.History.Laws.{save_message_failed, clear_history-load}
use decentralized_p2p_chat_s.Storage.History.Laws as HistoryLaws
use decentralized_p2p_chat_s.Tests.Security.{toy_cipher}

abbrev friend : TrustedPeer
friend = record { peer_id = 1 ∷ []; nickname = 2 ∷ []; saved_at = 5 }

abbrev is_friend : TrustedPeer → Bool
is_friend p = p.peer_id == 1 ∷ [] && p.nickname == 2 ∷ [] && eqb p.saved_at 5

abbrev write_peers : List TrustedPeer → Option Bytes
write_peers [] = some (0 ∷ [])
write_peers (p ∷ []) = if is_friend p then some (1 ∷ []) else none
write_peers (p ∷ q ∷ peers) = none

abbrev read_peers : Bytes → Option (List TrustedPeer)
read_peers [] = none
read_peers (a ∷ s) = if eqb a 0 then some [] else some (friend ∷ [])

abbrev peer_codec : Codec (List TrustedPeer)
peer_codec = record { marshal = write_peers; unmarshal = read_peers }

abbrev known : Verification
known = record { peer_id = 1 ∷ []; verified = true; updated_at = 5 }

abbrev is_known : Verification → Bool
is_known r = r.peer_id == 1 ∷ [] && r.verified && eqb r.updated_at 5

abbrev write_marks : List Verification → Option Bytes
write_marks [] = some (0 ∷ [])
write_marks (r ∷ []) = if is_known r then some (1 ∷ []) else none
write_marks (r ∷ q ∷ rs) = none

abbrev read_marks : Bytes → Option (List Verification)
read_marks [] = none
read_marks (a ∷ s) = if eqb a 0 then some [] else some (known ∷ [])

abbrev mark_codec : Codec (List Verification)
mark_codec = record { marshal = write_marks; unmarshal = read_marks }

abbrev greeting : StoredMsg
greeting = record {
  id = 1 ∷ [];
  from = 2 ∷ [];
  from_name = 3 ∷ [];
  content = 4 ∷ [];
  timestamp = 5;
  is_own = true;
}

abbrev is_greeting : StoredMsg → Bool
is_greeting m =
    m.id == 1 ∷ []
    && m.from == 2 ∷ []
    && m.from_name == 3 ∷ []
    && m.content == 4 ∷ []
    && eqb m.timestamp 5
    && m.is_own

abbrev write_history_json : List StoredMsg → Option Bytes
write_history_json [] = some (0 ∷ [])
write_history_json (m ∷ []) = if is_greeting m then some (1 ∷ []) else none
write_history_json (m ∷ n ∷ ms) = none

abbrev read_history_json : Bytes → Option (List StoredMsg)
read_history_json [] = none
read_history_json (a ∷ s) = if eqb a 0 then some [] else some (greeting ∷ [])

abbrev pub toy_history : HistoryEnv
toy_history = record {
  codec = record { marshal = write_history_json; unmarshal = read_history_json };
  cipher = toy_cipher;
  key_of = λ peer. some peer;
}

abbrev twelve : Bytes
twelve = 0 ∷ 0 ∷ 0 ∷ 0 ∷ 0 ∷ 0 ∷ 0 ∷ 0 ∷ 0 ∷ 0 ∷ 0 ∷ 0 ∷ []

abbrev torn_dir : Directory
torn_dir = (9 ∷ codes ".enc", unreadable) ∷ []

save_message_failed_example :
    ((save_message toy_history (some twelve) true torn_dir (9 ∷ []) greeting).1 ≡ false
      → (save_message toy_history (some twelve) true torn_dir (9 ∷ []) greeting).0 ≡ torn_dir)
    × ((e : StoreError)
        → load_history toy_history torn_dir (9 ∷ []) ≡ err e
        → save_message toy_history (some twelve) true torn_dir (9 ∷ []) greeting
          ≡ (torn_dir, false))
save_message_failed_example =
    save_message_failed toy_history (some twelve) true torn_dir (9 ∷ []) greeting

clears : (clear_history true torn_dir (9 ∷ [])).1 ≡ true
unfolding clear_history validate_peer_id bytes_eq codes lookup
clears = refl

clear_history-load_example :
    (load_history toy_history (clear_history true torn_dir (9 ∷ [])).0 (9 ∷ []) ≡ ok [])
    × ((other : Bytes)
        → other ≢ 9 ∷ []
        → load_history toy_history (clear_history true torn_dir (9 ∷ [])).0 other
          ≡ load_history toy_history torn_dir other)
clear_history-load_example = clear_history-load toy_history true torn_dir (9 ∷ []) clears

validate_peer_id-IsPlain_example :
    (validate_peer_id (codes "../victim") ≡ true) ↔ IsPlain (codes "../victim")
validate_peer_id-IsPlain_example = validate_peer_id-IsPlain (codes "../victim")

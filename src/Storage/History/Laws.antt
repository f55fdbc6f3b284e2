-- ===== src/Storage/History/Laws.antt =====
-- What is saved is loaded, and what cannot be read is never overwritten.
use decentralized_p2p_chat_s.Base.{
  ◌≡◌, ◌≢◌, ap, Bool, true, false, List, [], Option, some, ok, err, arith, bytes_eq, if◌then◌else◌,
  Bytes, length,
}
use decentralized_p2p_chat_s.Base.Dict.{lookup, insert, lookup-erase}
use decentralized_p2p_chat_s.Storage.{
  File, Codec, StoreError, holds, bad_peer_id, short_file, no_decryption,
}
use decentralized_p2p_chat_s.Storage
use decentralized_p2p_chat_s.Storage.History.{
  StoredMsg, Directory, HistoryEnv, validate_peer_id, file_name, nonce_size, read_data,
  load_history, encrypt_file, write_history, save_message, clear_history,
}
use decentralized_p2p_chat_s.Storage.History.Names.{file_name_inj}

-- What the parameters do: the cipher opens what it sealed under the same key and nonce, JSON reads
-- back what it wrote, and the nonce is as long as was asked for.
pub record IsLawful (env : HistoryEnv) (random : Option Bytes) : Type 0 where
  pub json : Storage.IsLawful env.codec
  pub open-seal :
      (key nonce plain : Bytes)
      → env.cipher.open_sealed key nonce (env.cipher.seal key nonce plain) ≡ some plain
  pub nonce_length : (nonce : Bytes) → random ≡ some nonce → length nonce ≡ nonce_size

module _ (env : HistoryEnv) (random : Option Bytes) (lawful : IsLawful env random) where
  abbrev saved : Bool → Directory → Bytes → StoredMsg → Directory × Bool
  saved replaced dir peer_id msg = save_message env random replaced dir peer_id msg

  -- A save that succeeds has replaced one file.
  record IsReplaced (dir : Directory) (peer_id : Bytes) (msgs : List StoredMsg) (after : Directory)
      : Type 0 where
    valid : validate_peer_id peer_id ≡ true
    out : Bytes
    encrypted : encrypt_file env random peer_id msgs ≡ ok out
    stored : after ≡ insert (file_name peer_id) (holds out) dir

-- Whatever the parameters do: a save that fails changes nothing, and it fails if the conversation
-- cannot be loaded, so that a file that cannot be read is never overwritten.
pub save_message_failed :
    (env : HistoryEnv) (random : Option Bytes) (replaced : Bool) (dir : Directory) (peer_id : Bytes)
    (msg : StoredMsg)
    → ((save_message env random replaced dir peer_id msg).1 ≡ false
        → (save_message env random replaced dir peer_id msg).0 ≡ dir)
      × ((e : StoreError)
          → load_history env dir peer_id ≡ err e
          → save_message env random replaced dir peer_id msg ≡ (dir, false))
unfolding save_message write_history
save_message_failed env random replaced dir peer_id msg = (λ h. ground arith, λ e h. ground arith)

-- A conversation that is cleared is empty, and no other one changes.
pub clear_history-load :
    (env : HistoryEnv) (can_remove : Bool) (dir : Directory) (peer_id : Bytes)
    → (clear_history can_remove dir peer_id).1 ≡ true
    → (load_history env (clear_history can_remove dir peer_id).0 peer_id ≡ ok [])
      × ((other : Bytes)
          → other ≢ peer_id
          → load_history env (clear_history can_remove dir peer_id).0 other
            ≡ load_history env dir other)
unfolding clear_history load_history read_data
clear_history-load env can_remove dir peer_id h = (
  ground (arith, lookup-erase (file_name peer_id) (file_name peer_id) dir),
  λ other apart.
      ap (λ f. if validate_peer_id other then read_data env other f else err bad_peer_id)
        (elsewhere other apart),
)
  where
    elsewhere :
        (other : Bytes)
        → other ≢ peer_id
        → lookup (file_name other) (clear_history can_remove dir peer_id).0
          ≡ lookup (file_name other) dir
    elsewhere other apart =
        let names : file_name other ≢ file_name peer_id =
          λ e. apart (file_name_inj other peer_id e) in
        ground (arith, names, lookup-erase (file_name other) (file_name peer_id) dir)

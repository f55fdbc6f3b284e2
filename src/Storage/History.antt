-- ===== src/Storage/History.antt =====
-- storage/history.go: `HistoryStore`, one encrypted file for each conversation. The mutex is not
-- modelled. Key derivation (HKDF) and the cipher are parameters.
pub mod Names
pub mod Laws
use mathlib.Core.List.{reverse}
use decentralized_p2p_chat_s.Base.{
  ℕ, zero, suc, ◌+◌, ◌-◌, ◌≡◌, refl, Bool, true, false, not, ◌&&◌, ◌||◌, List, [], ◌∷◌, ◌++◌,
  Option, none, some, Result, ok, err, ◌>>=◌, ◌>>◌, guard, or_fail, leb, eqb, ◌==◌, bytes_eq,
  if◌then◌else◌, Bytes, codes, length, take, drop,
}
use decentralized_p2p_chat_s.Base.Dict.{Dict, lookup, insert, erase}
use decentralized_p2p_chat_s.Text.{has_prefix}
use decentralized_p2p_chat_s.Security.Session.{Cipher}
use decentralized_p2p_chat_s.Storage.{
  File, Codec, StoreError, missing, unreadable, holds, no_access, bad_json, bad_peer_id, short_file,
  no_key, no_decryption, not_written,
}

-- The time is in nanoseconds.
pub record StoredMsg : Type 0 where
  pub id : Bytes
  pub from : Bytes
  pub from_name : Bytes
  pub content : Bytes
  pub timestamp : ℕ
  pub is_own : Bool

-- The names in the history directory. A name that is not there is a file that does not exist.
abbrev pub Directory : Type 0
Directory = Dict Bytes File

-- `key_of` is `deriveKey` at the node's private key; `none` is an error of it or of the cipher.
pub record HistoryEnv : Type 0 where
  pub codec : Codec (List StoredMsg)
  pub cipher : Cipher
  pub key_of : Bytes → Option Bytes

-- `strings.ContainsAny` at the two separators.
unfoldable pub has_separator : Bytes → Bool
has_separator [] = false
has_separator (a ∷ s) = eqb a b'/' || eqb a b'\\' || has_separator s

-- `strings.Contains` at two dots.
unfoldable pub has_dots : Bytes → Bool
has_dots [] = false
has_dots (a ∷ []) = false
has_dots (a ∷ b ∷ s) = (eqb a b'.' && eqb b b'.') || has_dots (b ∷ s)

-- `validatePeerID`: whether the error is nil.
unfoldable pub validate_peer_id : Bytes → Bool
unfolding has_separator has_dots
validate_peer_id peer_id =
    not (eqb (length peer_id) 0)
    && not (peer_id == codes "." || peer_id == codes "..")
    && not (has_separator peer_id || has_dots peer_id)

abbrev pub suffix : Bytes
suffix = codes ".enc"

-- `filePath`, within the directory.
abbrev pub file_name : Bytes → Bytes
file_name peer_id = peer_id ++ suffix

abbrev pub nonce_size : ℕ
nonce_size = 12

-- Decrypts and parses the bytes of a file.
unfoldable pub decrypt_file : HistoryEnv → Bytes → Bytes → Result StoreError (List StoredMsg)
decrypt_file env peer_id content = do
  key ← or_fail (env.key_of peer_id) no_key
  guard (leb nonce_size (length content)) short_file
  plain ←
      or_fail (env.cipher.open_sealed key (take nonce_size content) (drop nonce_size content))
        no_decryption
  or_fail (env.codec.unmarshal plain) bad_json

unfoldable pub read_data : HistoryEnv → Bytes → Option File → Result StoreError (List StoredMsg)
unfolding decrypt_file
read_data env peer_id none = ok []
read_data env peer_id (some missing) = ok []
read_data env peer_id (some unreadable) = err no_access
read_data env peer_id (some (holds content)) = decrypt_file env peer_id content

-- `readFile`, which is all of `LoadHistory`.
unfoldable pub load_history : HistoryEnv → Directory → Bytes → Result StoreError (List StoredMsg)
unfolding read_data
load_history env dir peer_id =
    if validate_peer_id peer_id
    then read_data env peer_id (lookup (file_name peer_id) dir)
    else err bad_peer_id

-- The bytes of a file: the nonce, and the list under the peer's key.
unfoldable pub encrypt_file :
    HistoryEnv → Option Bytes → Bytes → List StoredMsg → Result StoreError Bytes
encrypt_file env random peer_id msgs = do
  plain ← or_fail (env.codec.marshal msgs) bad_json
  key ← or_fail (env.key_of peer_id) no_key
  nonce ← or_fail random no_key
  ok (nonce ++ env.cipher.seal key nonce plain)

-- `writeFile`: the directory, and whether the error is nil. `replaced` says that every step on the
-- temporary file succeeded, up to `os.Rename`.
unfoldable pub write_history :
    HistoryEnv → Option Bytes → Bool → Directory → Bytes → List StoredMsg → Directory × Bool
unfolding encrypt_file
write_history env random replaced dir peer_id msgs =
    if validate_peer_id peer_id
    then elim (encrypt_file env random peer_id msgs) [
      | err e ↦ (dir, false)
      | ok out ↦
          if replaced then (insert (file_name peer_id) (holds out) dir, true) else (dir, false)
    ]
    else (dir, false)

-- `SaveMessage`
unfoldable pub save_message :
    HistoryEnv → Option Bytes → Bool → Directory → Bytes → StoredMsg → Directory × Bool
unfolding write_history
save_message env random replaced dir peer_id msg =
    if validate_peer_id peer_id
    then elim (load_history env dir peer_id) [
      | err e ↦ (dir, false)
      | ok msgs ↦ write_history env random replaced dir peer_id (msgs ++ msg ∷ [])
    ]
    else (dir, false)

-- `ClearHistory`; a file that does not exist is no error.
unfoldable pub clear_history : Bool → Directory → Bytes → Directory × Bool
clear_history can_remove dir peer_id =
    if validate_peer_id peer_id
    then elim (lookup (file_name peer_id) dir) [
      | none ↦ (dir, true)
      | some f ↦ if can_remove then (erase (file_name peer_id) dir, true) else (dir, false)
    ]
    else (dir, false)

-- `LoadAllHistories`, from the names that `os.ReadDir` gives, each with `IsDir`. What cannot be read
-- and what is empty is left out.
unfoldable pub load_all_histories :
    HistoryEnv → Directory → List (Bytes × Bool) → Dict Bytes (List StoredMsg)
load_all_histories env dir [] = []
load_all_histories env dir ((name, is_dir) ∷ names) =
    let rest = load_all_histories env dir names in
    if is_dir || not (has_prefix (reverse name) (reverse suffix))
    then rest
    else (let peer_id = take (length name - length suffix) name in
        elim (load_history env dir peer_id) [
          | err e ↦ rest
          | ok msgs ↦ if eqb (length msgs) 0 then rest else insert peer_id msgs rest
        ])

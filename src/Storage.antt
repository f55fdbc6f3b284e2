-- ===== src/Storage.antt =====
-- storage/: what the node keeps on disk.
pub mod Peers
pub mod History
pub mod Verified
use decentralized_p2p_chat_s.Base.{
  ◌≡◌, Bool, true, false, List, [], ◌∷◌, Option, none, some, Result, ok, err, or_fail, Bytes,
  Option-cases, inl, inr, arith,
}

-- A file: it does not exist, it cannot be read, or it holds bytes.
pub data File : Type 0 where
  missing unreadable : File
  holds : Bytes → File

-- `encoding/json` at one type; `none` is an error.
pub record Codec (A : Type 0) : Type 0 where
  pub marshal : A → Option Bytes
  pub unmarshal : Bytes → Option A

-- What is written is read back.
pub record IsLawful {A : Type 0} (codec : Codec A) : Type 0 where
  pub round_trip :
      (a : A) (text : Bytes) → codec.marshal a ≡ some text → codec.unmarshal text ≡ some a

pub data StoreError : Type 0 where
  no_access bad_json no_number bad_peer_id short_file no_key no_decryption not_written : StoreError

-- Reads a file that holds a list; one that does not exist stands for the empty list.
unfoldable pub load : {A : Type 0} → Codec (List A) → File → Result StoreError (List A)
load codec missing = ok []
load codec unreadable = err no_access
load codec (holds text) = or_fail (codec.unmarshal text) bad_json

-- The list that `x, _ := load()` gives.
unfoldable pub loaded : {A : Type 0} → Codec (List A) → File → List A
unfolding load
loaded codec f = elim (load codec f) [ ok xs ↦ xs | err e ↦ [] ]

-- How an attempt to write a file ends. `os.WriteFile` may leave a part of the bytes behind; a file
-- that is replaced by `os.Rename` is left alone when a step before it fails.
pub data Outcome : Type 0 where
  written refused : Outcome
  torn : Bytes → Outcome

-- The file, and whether the error is nil.
unfoldable pub write_file : Outcome → File → Bytes → File × Bool
write_file written f text = (holds text, true)
write_file refused f text = (f, false)
write_file (torn part) f text = (holds part, false)

unfoldable pub save : {A : Type 0} → Codec (List A) → Outcome → File → List A → File × Bool
unfolding write_file
save codec outcome f xs = elim (codec.marshal xs) [
  | none ↦ (f, false)
  | some text ↦ write_file outcome f text
]

-- What was saved is loaded.
pub load-save :
    {A : Type 0} (codec : Codec (List A)) (outcome : Outcome) (f : File) (xs : List A)
    → IsLawful codec
    → (save codec outcome f xs).1 ≡ true
    → load codec (save codec outcome f xs).0 ≡ ok xs
unfolding save load write_file
load-save codec outcome f xs lawful h = elim (Option-cases (codec.marshal xs)) [
  | inl e ↦ ground arith
  | inr (text, e) ↦ ground (arith, lawful.round_trip xs text e)
]

-- ===== src/Identity.antt =====
-- main.go: the file that holds the node's private key. Key generation and the encoding of keys
-- (`go-libp2p/core/crypto`) and the file system are parameters.
pub mod Laws
use decentralized_p2p_chat_s.Base.{
  ◌≡◌, Bool, true, false, not, List, [], ◌∷◌, ◌++◌, Option, none, some, Result, ok, err, ◌>>=◌,
  ◌>>◌, guard, or_fail, eqb, bytes_eq, if◌then◌else◌, Bytes, length, codes, ◌+◌,
}
use decentralized_p2p_chat_s.Base.Dict.{Dict, lookup, insert}
use decentralized_p2p_chat_s.Storage.{File, missing, unreadable, holds, Outcome, write_file}

-- The files by their paths. A path that is not there is a file that does not exist.
abbrev pub Disk : Type 0
Disk = Dict Bytes File

-- `MarshalPrivateKey` and `UnmarshalPrivateKey` of a private key, `os.UserHomeDir`, and `filepath.Join`
-- of two names.
pub record KeyEnv : Type 1 where
  pub PrivKey : Type 0
  pub marshal : PrivKey → Option Bytes
  pub unmarshal : Bytes → Option PrivKey
  pub home : Option Bytes
  pub join : Bytes → Bytes → Bytes

pub data KeyError : Type 0 where
  no_home no_directory no_generation no_encoding not_saved not_read not_a_key : KeyError

-- The name of the key file.
unfoldable pub key_file : Bytes → Bytes
key_file custom_name =
    if eqb (length custom_name) 0
    then codes "identity.key"
    else codes "identity_" ++ custom_name ++ codes ".key"

module _ (env : KeyEnv) where
  -- The directory of `getIdentityPath`.
  abbrev pub config_dir : Bytes → Result KeyError Bytes
  config_dir data_dir =
      if eqb (length data_dir) 0
      then (do home ← or_fail env.home no_home; ok (env.join home (codes ".p2pchat")))
      else ok data_dir

  -- `getIdentityPath`; the flag says that `os.MkdirAll` succeeds.
  unfoldable pub get_identity_path : Bytes → Bytes → Bool → Result KeyError Bytes
  unfolding key_file
  get_identity_path custom_name data_dir can_make = do
    dir ← config_dir data_dir
    guard can_make no_directory
    ok (env.join dir (key_file custom_name))

  -- `loadKey`
  unfoldable pub load_key : Disk → Bytes → Result KeyError env.PrivKey
  load_key disk path = elim (lookup path disk) [
    | none ↦ err not_read
    | some missing ↦ err not_read
    | some unreadable ↦ err not_read
    | some (holds content) ↦ or_fail (env.unmarshal content) not_a_key
  ]

  file_at : Disk → Bytes → File
  file_at disk path = elim (lookup path disk) [ none ↦ missing | some f ↦ f ]

  -- The end of `generateAndSaveKey`: the encoded key is written.
  unfoldable pub save_key :
      Disk → Bytes → env.PrivKey → Outcome → Option Bytes → Disk × Result KeyError env.PrivKey
  unfolding file_at
  save_key disk path key outcome none = (disk, err no_encoding)
  save_key disk path key outcome (some content) =
      let (f, saved) = write_file outcome (file_at disk path) content in
      (insert path f disk, if saved then ok key else err not_saved)

  -- `generateAndSaveKey`, from the key that is generated, if it is.
  unfoldable pub generate_and_save_key :
      Disk → Bytes → Option env.PrivKey → Outcome → Disk × Result KeyError env.PrivKey
  unfolding save_key
  generate_and_save_key disk path none outcome = (disk, err no_generation)
  generate_and_save_key disk path (some key) outcome =
      save_key disk path key outcome (env.marshal key)

  -- Whether `os.Stat` succeeds; it may fail for a file that exists.
  unfoldable pub load_or_generate_at :
      Disk
      → Bytes
      → (stat_ok : Bool) → Option env.PrivKey
      → Outcome
      → Disk × Result KeyError env.PrivKey
  unfolding load_key generate_and_save_key
  load_or_generate_at disk path true generated outcome = (disk, load_key disk path)
  load_or_generate_at disk path false generated outcome =
      generate_and_save_key disk path generated outcome

  -- `loadOrGenerateKey`
  unfoldable pub load_or_generate_key :
      Disk
      → Bytes
      → Bytes
      → (can_make stat_ok : Bool) → Option env.PrivKey
      → Outcome
      → Disk × Result KeyError env.PrivKey
  unfolding get_identity_path load_or_generate_at
  load_or_generate_key disk custom_name data_dir can_make stat_ok generated outcome =
      elim (get_identity_path custom_name data_dir can_make) [
        | err e ↦ (disk, err e)
        | ok path ↦ load_or_generate_at disk path stat_ok generated outcome
      ]

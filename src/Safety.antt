-- ===== src/Safety.antt =====
-- verification.go: `safetyNumber`, the fingerprint that two users compare.
pub mod Laws
use decentralized_p2p_chat_s.Base.{
  ℕ, zero, suc, ◌+◌, ◌*◌, ◌/◌, ◌%◌, ◌^◌, ◌≡◌, refl, Bool, true, false, List, [], ◌∷◌, ◌++◌, Option,
  none, some, Result, ok, err, ◌>>=◌, ◌>>◌, guard, or_fail, not, ◌==◌, bytes_eq, bytes_lt,
  if◌then◌else◌, Bytes, codes, length,
}

-- A public key: the number of its type, and `Raw`, where `none` is an error.
pub record PublicKey : Type 0 where
  pub key_type : ℕ
  pub raw : Option Bytes

-- The peerstore's `PubKey`, `peer.ID.String` and SHA-256.
pub record SafetyEnv : Type 0 where
  pub pub_key : Bytes → Option PublicKey
  pub id_string : Bytes → Bytes
  pub digest : Bytes → Bytes

pub data SafetyError : Type 0 where
  no_peerstore itself no_local_key no_remote_key no_local_bytes no_remote_bytes : SafetyError

pub record KeyEntry : Type 0 where
  pub id : Bytes
  pub key_type : ℕ
  pub raw : Bytes

-- `binary.BigEndian.PutUint32`
abbrev put_uint32 : ℕ → Bytes
put_uint32 n = (n / 2 ^ 24) % 256 ∷ (n / 2 ^ 16) % 256 ∷ (n / 2 ^ 8) % 256 ∷ n % 256 ∷ []

-- `binary.BigEndian.Uint32` of the first four bytes.
uint32 : Bytes → ℕ
uint32 (a ∷ b ∷ c ∷ d ∷ s) = a * 2 ^ 24 + b * 2 ^ 16 + c * 2 ^ 8 + d
uint32 s = 0

-- What is hashed of an entry.
entry_bytes : KeyEntry → Bytes
entry_bytes e = put_uint32 (e.key_type % 2 ^ 32) ++ put_uint32 (length e.raw % 2 ^ 32) ++ e.raw

-- `sort.Slice` on the two entries.
unfoldable pub sort_entries : KeyEntry → KeyEntry → KeyEntry × KeyEntry
sort_entries a b = if bytes_lt b.id a.id then (b, a) else (a, b)

abbrev safety_number_domain : Bytes
safety_number_domain = codes "agdas-safety-number-v1"

unfoldable pub seed_of : SafetyEnv → KeyEntry × KeyEntry → Bytes
unfolding entry_bytes
seed_of env (a, b) = env.digest (safety_number_domain ++ entry_bytes a ++ entry_bytes b)

abbrev digit : ℕ → ℕ
digit n = 48 + n % 10

-- `fmt.Sprintf("%05d", n)`, for a number below 100000.
abbrev group_digits : ℕ → Bytes
group_digits n =
    digit (n / 10000) ∷ digit (n / 1000) ∷ digit (n / 100) ∷ digit (n / 10) ∷ digit n ∷ []

-- One round of the loop.
group : SafetyEnv → Bytes → ℕ → Bytes
unfolding uint32
group env seed i = group_digits (uint32 (env.digest (seed ++ i % 256 ∷ [])) % 100000)

-- The groups from a number on, joined by spaces.
groups : SafetyEnv → Bytes → ℕ → ℕ → Bytes
unfolding group
groups env seed i zero = []
groups env seed i (suc zero) = group env seed i
groups env seed i (suc (suc n)) = group env seed i ++ b' ' ∷ groups env seed (suc i) (suc n)

abbrev safety_number_groups : ℕ
safety_number_groups = 12

-- `safetyNumber`. The flag says whether there is a peerstore.
unfoldable pub safety_number : SafetyEnv → Bool → Bytes → Bytes → Result SafetyError Bytes
unfolding sort_entries seed_of groups
safety_number env has_store local remote = do
  guard has_store no_peerstore
  guard (not (local == remote)) itself
  local_key ← or_fail (env.pub_key local) no_local_key
  remote_key ← or_fail (env.pub_key remote) no_remote_key
  local_raw ← or_fail local_key.raw no_local_bytes
  remote_raw ← or_fail remote_key.raw no_remote_bytes
  let entries =
      sort_entries
        (record { id = env.id_string local; key_type = local_key.key_type; raw = local_raw })
        (record { id = env.id_string remote; key_type = remote_key.key_type; raw = remote_raw })
  ok (groups env (seed_of env entries) 0 safety_number_groups)

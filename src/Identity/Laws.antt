-- ===== src/Identity/Laws.antt =====
-- Starting a second time.
use decentralized_p2p_chat_s.Base.{
  ◌≡◌, refl, subst, ap, Bool, true, false, Option, none, some, Result, ok, err, bytes_eq, Bytes,
}
use decentralized_p2p_chat_s.Base.Dict.{lookup, lookup-insert_self}
use decentralized_p2p_chat_s.Storage.{holds, Outcome, written, refused, torn, write_file}
use decentralized_p2p_chat_s.Identity.{
  Disk, KeyEnv, KeyError, get_identity_path, load_key, generate_and_save_key, load_or_generate_at,
  load_or_generate_key, save_key,
}

-- What the documentation of the key encoding promises.
pub record IsLawful (env : KeyEnv) : Type 0 where
  pub read_back :
      (key : env.PrivKey) (content : Bytes)
      → env.marshal key ≡ some content
      → env.unmarshal content ≡ some key

module _ (env : KeyEnv) (lawful : IsLawful env) where
  load_key-holds :
      (disk : Disk) (path content : Bytes) (key : env.PrivKey)
      → env.unmarshal content ≡ some key
      → lookup path disk ≡ some (holds content)
      → load_key env disk path ≡ ok key
  unfolding load_key
  load_key-holds disk path content key read there = rw (there, load_key) (rw read refl)

  module _ (disk disk' : Disk) (path : Bytes) (key : env.PrivKey) where
    load-save_key :
        (made : env.PrivKey) (outcome : Outcome) (content : Option Bytes)
        → env.marshal made ≡ content
        → save_key env disk path made outcome content ≡ (disk', ok key)
        → load_key env disk' path ≡ ok key
    unfolding save_key write_file
    load-save_key made written (some content) e h =
        load_key-holds disk' path content key
          (lawful.read_back key content (subst (λ k. env.marshal k ≡ some content) (cc h) e))
          (subst (λ d. lookup path d ≡ some (holds content)) (cc h)
            (lookup-insert_self path (holds content) disk))
    load-save_key made refused (some content) e h = let bad : ⊥ = cc h in absurd bad
    load-save_key made (torn part) (some content) e h = let bad : ⊥ = cc h in absurd bad
    load-save_key made outcome none e h = let bad : ⊥ = cc h in absurd bad

    load-generate :
        (generated : Option env.PrivKey) (outcome : Outcome)
        → generate_and_save_key env disk path generated outcome ≡ (disk', ok key)
        → load_key env disk' path ≡ ok key
    unfolding generate_and_save_key
    load-generate none outcome h = let bad : ⊥ = cc h in absurd bad
    load-generate (some made) outcome h = load-save_key made outcome (env.marshal made) refl h

  -- A start that finds no key file and succeeds leaves a disk on which the next start that finds the
  -- file has the same key and changes nothing, whatever key it would generate.
  pub second_start :
      (disk disk' : Disk) (custom_name data_dir : Bytes) (can_make : Bool)
      (generated other : Option env.PrivKey) (outcome later : Outcome) (key : env.PrivKey)
      → load_or_generate_key env disk custom_name data_dir can_make false generated outcome
        ≡ (disk', ok key)
      → load_or_generate_key env disk' custom_name data_dir can_make true other later
        ≡ (disk', ok key)
  unfolding load_or_generate_key load_or_generate_at
  second_start disk disk' custom_name data_dir can_make generated other outcome later key h =
      go (get_identity_path env custom_name data_dir can_make) h
    where
      go :
          (p : Result KeyError Bytes)
          → (elim p as (λ _. Disk × Result KeyError env.PrivKey) [
            | err e ↦ (disk, err e)
            | ok path ↦ load_or_generate_at env disk path false generated outcome
          ])
            ≡ (disk', ok key)
          → (elim p as (λ _. Disk × Result KeyError env.PrivKey) [
            | err e ↦ (disk', err e)
            | ok path ↦ load_or_generate_at env disk' path true other later
          ])
            ≡ (disk', ok key)
      go (err e) h = let bad : ⊥ = cc h in absurd bad
      go (ok path) h = ap (λ r. (disk', r)) (load-generate disk disk' path key generated outcome h)

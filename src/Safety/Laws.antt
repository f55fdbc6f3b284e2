-- ===== src/Safety/Laws.antt =====
-- Both users see the same number, and it has the form that they expect.
use decentralized_p2p_chat_s.Base.{
  ℕ, zero, suc, ◌+◌, ◌*◌, ◌≤◌, ◌≡◌, ◌≢◌, refl, sym, ap, subst, ◌∙◌, Bool, true, ◌∷◌, some, ok,
  guard, or_fail, >>=-eq-ok, or_fail-eq-ok, guard-eq-ok, arith, not, ◌==◌, bytes_eq, bytes_lt_asymm,
  bytes_lt_connected, Bytes, length, length-append, All, All-append, ◌⊎◌, inl, inr,
}
use decentralized_p2p_chat_s.Safety.{
  PublicKey, SafetyEnv, KeyEntry, no_peerstore, itself, no_local_key, no_remote_key, no_local_bytes,
  no_remote_bytes, sort_entries, seed_of, group, digit, groups, safety_number,
}

sort_entries_comm : (a b : KeyEntry) → a.id ≢ b.id → sort_entries a b ≡ sort_entries b a
unfolding sort_entries
sort_entries_comm a b apart =
    ground (arith, bytes_lt_asymm a.id b.id, bytes_lt_asymm b.id a.id, bytes_lt_connected a.id b.id)

-- The bytes of a safety number.
abbrev pub IsShown : ℕ → Type 0
IsShown c = (c ≡ b' ') ⊎ ((48 ≤ c) × (c ≤ 57))

digit-IsShown : (n : ℕ) → IsShown (digit n)
digit-IsShown n = inr (omega arith, omega arith)

group-IsShown : (env : SafetyEnv) (seed : Bytes) (i : ℕ) → All IsShown (group env seed i)
unfolding group
group-IsShown env seed i = (
  digit-IsShown _,
  (digit-IsShown _, (digit-IsShown _, (digit-IsShown _, (digit-IsShown _, tt)))),
)

length-group : (env : SafetyEnv) (seed : Bytes) (i : ℕ) → length (group env seed i) ≡ 5
unfolding group
length-group env seed i = refl

groups-IsShown : (env : SafetyEnv) (seed : Bytes) (i n : ℕ) → All IsShown (groups env seed i n)
unfolding groups
groups-IsShown env seed i zero = tt
groups-IsShown env seed i (suc zero) = group-IsShown env seed i
groups-IsShown env seed i (suc (suc n)) =
    All-append IsShown (group env seed i) (b' ' ∷ groups env seed (suc i) (suc n))
      (group-IsShown env seed i) (inl refl, groups-IsShown env seed (suc i) (suc n))

length-groups :
    (env : SafetyEnv) (seed : Bytes) (i n : ℕ) → length (groups env seed i (suc n)) ≡ 6 * n + 5
unfolding groups
length-groups env seed i zero = length-group env seed i
length-groups env seed i (suc n) = omega (
  arith,
  length-append (group env seed i) (b' ' ∷ groups env seed (suc i) (suc n)),
  length-group env seed i,
  length-groups env seed (suc i) n,
)

module _ (env : SafetyEnv) where
  -- All that a safety number of two peers depends on.
  record IsComputed (a b : Bytes) (s : Bytes) : Type 0 where
    apart : a ≢ b
    key_a : PublicKey
    key_b : PublicKey
    raw_a : Bytes
    raw_b : Bytes
    has_a : env.pub_key a ≡ some key_a
    has_b : env.pub_key b ≡ some key_b
    bytes_a : key_a.raw ≡ some raw_a
    bytes_b : key_b.raw ≡ some raw_b
    number :
        groups env
          (seed_of env (
            sort_entries
              (record { id = env.id_string a; key_type = key_a.key_type; raw = raw_a })
              (record { id = env.id_string b; key_type = key_b.key_type; raw = raw_b })))
          0
          12
        ≡ s

  to_computed :
      (store : Bool) (a b s : Bytes)
      → safety_number env store a b ≡ ok s
      → (store ≡ true) × IsComputed a b s
  unfolding safety_number
  to_computed store a b s h =
      let (_, has_store, h₁) = >>=-eq-ok (guard store no_peerstore) _ h in
      let (_, apart, h₂) = >>=-eq-ok (guard (not (a == b)) itself) _ h₁ in
      let (ka, has_a, h₃) = >>=-eq-ok (or_fail (env.pub_key a) no_local_key) _ h₂ in
      let (kb, has_b, h₄) = >>=-eq-ok (or_fail (env.pub_key b) no_remote_key) _ h₃ in
      let (ra, bytes_a, h₅) = >>=-eq-ok (or_fail ka.raw no_local_bytes) _ h₄ in
      let (rb, bytes_b, h₆) = >>=-eq-ok (or_fail kb.raw no_remote_bytes) _ h₅ in
      (
        guard-eq-ok store _ has_store,
        record {
          apart = differ (guard-eq-ok (not (a == b)) _ apart);
          key_a = ka;
          key_b = kb;
          raw_a = ra;
          raw_b = rb;
          has_a = or_fail-eq-ok _ _ has_a;
          has_b = or_fail-eq-ok _ _ has_b;
          bytes_a = or_fail-eq-ok _ _ bytes_a;
          bytes_b = or_fail-eq-ok _ _ bytes_b;
          number = cc h₆;
        },
      )
    where
      differ : not (a == b) ≡ true → a ≢ b
      differ h e = ground arith

  from_computed : (a b s : Bytes) → IsComputed a b s → safety_number env true a b ≡ ok s
  unfolding safety_number
  from_computed a b s c = ground (arith, c.apart, c.has_a, c.has_b, c.bytes_a, c.bytes_b, c.number)

  swap-IsComputed :
      (a b s : Bytes) → env.id_string a ≢ env.id_string b → IsComputed a b s → IsComputed b a s
  swap-IsComputed a b s apart c = record {
    apart = λ e. c.apart (sym e);
    key_a = c.key_b;
    key_b = c.key_a;
    raw_a = c.raw_b;
    raw_b = c.raw_a;
    has_a = c.has_b;
    has_b = c.has_a;
    bytes_a = c.bytes_b;
    bytes_b = c.bytes_a;
    number =
        ap (λ p. groups env (seed_of env p) 0 12) (sort_entries_comm _ _ (λ e. apart (sym e)))
        ∙ c.number;
  }

  -- Two peers whose identifiers are written differently compute the same safety number: twelve
  -- groups of five digits with spaces between them, seventy-one characters in all.
  pub safety_number_comm :
      (store : Bool) (local remote s : Bytes)
      → env.id_string local ≢ env.id_string remote
      → safety_number env store local remote ≡ ok s
      → (safety_number env store remote local ≡ ok s) × (length s ≡ 71) × All IsShown s
  safety_number_comm store local remote s apart h =
      let (there, c) = to_computed store local remote s h in
      (
        ap (λ b. safety_number env b remote local) there
            ∙ from_computed remote local s (swap-IsComputed local remote s apart c),
        ap length (sym c.number) ∙ length-groups env _ 0 11,
        subst (All IsShown) c.number (groups-IsShown env _ 0 12),
      )

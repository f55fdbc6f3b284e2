-- ===== src/Storage/History/Names.antt =====
-- Which names of files a conversation can have.
use decentralized_p2p_chat_s.Base.{
  ◌≡◌, ◌≢◌, ◌↔◌, refl, sym, ap, ◌∙◌, true, false, [], ◌∷◌, ◌++◌, arith, bytes_eq, Bytes, codes,
  length, length-append, take, take-length-append, All, cons_eq,
}
use decentralized_p2p_chat_s.Storage.History.{
  has_separator, has_dots, validate_peer_id, suffix, file_name,
}

-- A name that stays in its directory: it is not empty and not a single dot, and has no separator and
-- no two dots in a row.
pub record IsPlain (s : Bytes) : Type 0 where
  pub nonempty : s ≢ []
  pub not_here : s ≢ codes "."
  pub no_separator : All (λ a. (a ≢ b'/') × (a ≢ b'\\')) s
  pub no_dots : (before after : Bytes) → s ≢ before ++ b'.' ∷ b'.' ∷ after

has_separator-All : (s : Bytes) → has_separator s ≡ false → All (λ a. (a ≢ b'/') × (a ≢ b'\\')) s
unfolding has_separator
has_separator-All [] h = tt
has_separator-All (a ∷ s) h =
    let apart : (a ≢ b'/') × (a ≢ b'\\') = ground arith in
    (apart, has_separator-All s (ground arith))

All-has_separator : (s : Bytes) → All (λ a. (a ≢ b'/') × (a ≢ b'\\')) s → has_separator s ≡ false
unfolding has_separator
All-has_separator [] h = refl
All-has_separator (a ∷ s) h = ground (arith, h.0, All-has_separator s h.1)

has_dots-at : (before after : Bytes) → has_dots (before ++ b'.' ∷ b'.' ∷ after) ≡ true
unfolding has_dots
has_dots-at [] after = refl
has_dots-at (a ∷ []) after = ground arith
has_dots-at (a ∷ b ∷ s) after = ground (arith, has_dots-at (b ∷ s) after)

no_dots-has_dots :
    (s : Bytes) → ((before after : Bytes) → s ≢ before ++ b'.' ∷ b'.' ∷ after) → has_dots s ≡ false
unfolding has_dots
no_dots-has_dots [] h = refl
no_dots-has_dots (a ∷ []) h = refl
no_dots-has_dots (a ∷ b ∷ s) h =
    let rest : has_dots (b ∷ s) ≡ false =
      no_dots-has_dots (b ∷ s) (λ before after e. h (a ∷ before) after (ap (λ t. a ∷ t) e)) in
    let apart : a ≡ b'.' → b ≡ b'.' → ⊥ = λ e e'. h [] s (cons_eq e (cons_eq e' refl)) in
    ground (arith, rest, apart)

-- `file_name` keeps names apart.
pub file_name_inj : (s t : Bytes) → file_name s ≡ file_name t → s ≡ t
file_name_inj s t h =
    sym (take-length-append s suffix)
    ∙ ap (take (length s)) h
    ∙ ap (λ n. take n (t ++ suffix)) same
    ∙ take-length-append t suffix
  where
    same : length s ≡ length t
    same = omega (arith, ap length h, length-append s suffix, length-append t suffix)

not_parent : (s : Bytes) → IsPlain s → s ≢ codes ".."
unfolding codes
not_parent s p = p.no_dots [] []

-- An identifier is accepted exactly if it names a file that lies in the directory itself.
pub validate_peer_id-IsPlain : (s : Bytes) → (validate_peer_id s ≡ true) ↔ IsPlain s
unfolding validate_peer_id
validate_peer_id-IsPlain s = (to, from)
  where
    to : validate_peer_id s ≡ true → IsPlain s
    to h = record {
      nonempty = λ e. ground arith;
      not_here = λ e. ground arith;
      no_separator = has_separator-All s (ground arith);
      no_dots = λ before after e.
          let bad : has_dots s ≡ true = ap has_dots e ∙ has_dots-at before after in ground arith;
    }

    from : IsPlain s → validate_peer_id s ≡ true
    from p = ground (
      arith,
      p.nonempty,
      p.not_here,
      not_parent s p,
      All-has_separator s p.no_separator,
      no_dots-has_dots s p.no_dots,
    )

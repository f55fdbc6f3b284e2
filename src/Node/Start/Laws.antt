-- ===== src/Node/Start/Laws.antt =====
-- The address of the command line, seen from the other side.
use mathlib.Core.List.{append_assoc}
use decentralized_p2p_chat_s.Base.{
  ℕ, ◌≡◌, ◌≢◌, refl, ap, false, [], ◌∷◌, ◌++◌, Option, none, some, eqb, arith, nat_eq, bytes_eq,
  Bytes, All, codes, if_ind, option_ind, ◌/◌,
}
use decentralized_p2p_chat_s.Text.{has_prefix}
use decentralized_p2p_chat_s.Text.Trim.{IsGraphic, trim_space_graphic}
use decentralized_p2p_chat_s.Base64.{std, encode, encode_char}
use decentralized_p2p_chat_s.Base64.RoundTrip.{IsByte, encode-IsGraphic}
use decentralized_p2p_chat_s.Security.Handshake.{line_of}
use decentralized_p2p_chat_s.Manager.{Env, closed, emit}
use decentralized_p2p_chat_s.Manager.Dial.{conn_req_prefix, before_newline, first_line}
use decentralized_p2p_chat_s.Node.{Outside, Node}
use decentralized_p2p_chat_s.Node.Incoming.{requested_nick, request_arrives}

before_newline-line : (s rest : Bytes) → All IsGraphic s → before_newline (s ++ 10 ∷ rest) ≡ some s
unfolding before_newline
before_newline-line [] rest h =
    option_ind (λ (o : Option Bytes). o ≡ some []) (before_newline rest) refl (λ line _. refl)
before_newline-line (a ∷ s) rest h = rw (before_newline-line s rest h.1) (ground arith)

first_line-line : (s rest : Bytes) → All IsGraphic s → first_line (s ++ 10 ∷ rest) ≡ some s
unfolding first_line
first_line-line s rest h =
    rw (before_newline-line s rest h, first_line) (ap some (trim_space_graphic s h))

encode_char-plain : (v : ℕ) → encode_char std v ≢ b'_'
unfolding encode_char
encode_char-plain v h = ground arith

plain_front : (x : ℕ) (s : Bytes) → x ≢ b'_' → has_prefix (x ∷ s) conn_req_prefix ≡ false
unfolding has_prefix codes
plain_front x s other =
    if_ind (λ b. b ≡ false) (eqb x b'_') (λ h. absurd (other (ground arith))) (λ _. refl)

-- Base64 text of the standard alphabet asks for no connection.
has_prefix-encode : (s : Bytes) → has_prefix (encode std s) conn_req_prefix ≡ false
unfolding encode
has_prefix-encode [] = unfold has_prefix codes in refl
has_prefix-encode (a ∷ []) = plain_front _ _ (encode_char-plain (a / 4))
has_prefix-encode (a ∷ b ∷ []) = plain_front _ _ (encode_char-plain (a / 4))
has_prefix-encode (a ∷ b ∷ c ∷ s) = plain_front _ _ (encode_char-plain (a / 4))

requested_nick-other :
    (env : Env) (peer line : Bytes)
    → has_prefix line conn_req_prefix ≡ false
    → requested_nick env peer (some line) ≡ none
unfolding requested_nick
requested_nick-other env peer line h = rw (h, requested_nick) refl

module _ (out : Outside) where
  -- A peer that starts the handshake at once, as `main` does for the address of the command line, is
  -- never asked about and never connected: the other side takes its key for the first line, and
  -- closes the stream, whatever else the peer sends.
  pub uninvited :
      (n : Node) (peer : Bytes) (stream : ℕ) (pub_key rest : Bytes)
      → All IsByte pub_key
      → request_arrives out n peer stream (line_of pub_key ++ rest)
        ≡ (record n { manager = emit n.manager (closed stream) }, none)
  unfolding request_arrives
  uninvited n peer stream pub_key rest bytes =
      rw
        (
          append_assoc (encode std pub_key) (10 ∷ []) rest,
          first_line-line (encode std pub_key) rest (encode-IsGraphic std pub_key bytes),
          requested_nick-other out.env peer (encode std pub_key) (has_prefix-encode pub_key),
          request_arrives,
        )
        refl

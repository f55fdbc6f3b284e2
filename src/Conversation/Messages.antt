-- ===== src/Conversation/Messages.antt =====
-- A chat message and its acknowledgement, with all that the two ends need to know of them.
use decentralized_p2p_chat_s.Base.{
  ℕ, ◌≤◌, ◌≡◌, ◌≢◌, refl, sym, ap, ◌∙◌, false, some, bytes_eq, Bytes, length, codes, inl, inr,
}
use decentralized_p2p_chat_s.Base64.{raw_url}
use decentralized_p2p_chat_s.Base64
use decentralized_p2p_chat_s.Protocol.{Envelope, type_chat, type_ack}
use decentralized_p2p_chat_s.Manager.{
  Env, Manager, conversation_id, new_chat_envelope, new_ack_envelope,
}
use decentralized_p2p_chat_s.Manager.Receive.{is_blank}
use decentralized_p2p_chat_s.Manager.Receive.Delivery.{IsOurs}
use decentralized_p2p_chat_s.Conversation.{on, End, IsHealthy, IsBody, IsFaithful}
use decentralized_p2p_chat_s.Conversation.Built.{
  IsNamed, conversation_id_comm, IsWired, drafted-IsWired, chat_built, ack_built,
}

-- A text that is shown, and whose JSON is read back.
pub record IsSendable (env : Env) (text : Bytes) : Type 0 where
  pub body : Bytes
  pub marshalled : env.bodies.marshal_chat text ≡ some body
  pub read_back : env.bodies.unmarshal_chat body ≡ some text
  pub is_body : IsBody env body
  pub visible : is_blank text ≡ false

-- An end whose host is healthy and whose name can stand in an envelope.
pub record IsSound (env : Env) (start : ℕ) (end_of : End) : Type 0 where
  pub healthy : IsHealthy start end_of.host
  pub named : IsNamed env end_of.own

module _ (env : Env) (faithful : IsFaithful env) (start : ℕ) (here there : End) where
  -- The chat envelope of a text.
  pub record Message (m : Manager) (sequence : ℕ) (text : Bytes) : Type 0 where
    pub raw : Bytes
    pub sixteen : length raw ≡ 16
    pub envelope : Envelope
    pub line : Bytes
    pub made : new_chat_envelope (on env here.host) m there.own sequence text ≡ some envelope
    pub wired : IsWired env faithful start envelope line
    pub ours : IsOurs (on env there.host) here.own there.own envelope
    pub numbered : envelope.sequence ≡ sequence
    pub identified : envelope.id ≡ Base64.encode raw_url raw
    pub carried : env.bodies.unmarshal_chat envelope.body ≡ some text

  pub message :
      (m : Manager) (sequence : ℕ) (text : Bytes)
      → IsSound env start here
      → IsSendable env text
      → m.node ≡ some here.own
      → 1 ≤ sequence
      → Message m sequence text
  message m sequence text sound sendable node positive =
      let (raw, sixteen, made) =
        chat_built env faithful start here.host sound.healthy here.own there.own sound.named m
          sequence text sendable.body node sendable.marshalled sendable.is_body positive in
      let (line, wired) =
        drafted-IsWired env faithful start here.host sound.healthy here.own there.own sound.named
          m.draws type_chat sequence raw sendable.body (inl refl) (λ _. positive) sixteen
          sendable.is_body in
      record {
        raw = raw;
        sixteen = sixteen;
        envelope = _;
        line = line;
        made = made;
        wired = wired;
        ours = record {
          chat = refl;
          conversation = conversation_id_comm env here.host there.host here.own there.own;
          sender = refl;
        };
        numbered = refl;
        identified = refl;
        carried = sendable.read_back;
      }

  -- The acknowledgement that the first end sends of a message of the other one.
  pub record Answer (m : Manager) (id : Bytes) : Type 0 where
    pub envelope : Envelope
    pub line : Bytes
    pub made : new_ack_envelope (on env here.host) m there.own id ≡ some envelope
    pub wired : IsWired env faithful start envelope line
    pub typed : envelope.typ ≡ type_ack
    pub conversed : envelope.conversation ≡ conversation_id (on env there.host) there.own here.own
    pub sent_by : envelope.sender ≡ env.id_string here.own
    pub carried : env.bodies.unmarshal_ack envelope.body ≡ some id

  pub answer :
      (m : Manager) (id raw : Bytes)
      → IsSound env start here
      → m.node ≡ some here.own
      → length raw ≡ 16
      → id ≡ Base64.encode raw_url raw
      → Answer m id
  answer m id raw sound node sixteen same =
      let (body, marshalled, read_back, is_body) = faithful.ack raw sixteen in
      let (drawn, sixteen', made) =
        ack_built env faithful start here.host sound.healthy here.own there.own sound.named m id
          body node (ap env.bodies.marshal_ack same ∙ marshalled) is_body in
      let (line, wired) =
        drafted-IsWired env faithful start here.host sound.healthy here.own there.own sound.named
          m.draws type_ack 0 drawn body (inr (inl refl)) (λ c. absurd (apart c)) sixteen' is_body in
      record {
        envelope = _;
        line = line;
        made = made;
        wired = wired;
        typed = refl;
        conversed = conversation_id_comm env here.host there.host here.own there.own;
        sent_by = refl;
        carried = read_back ∙ ap some (sym same);
      }
    where
      apart : type_ack ≢ type_chat
      apart same = unfold codes in cc same

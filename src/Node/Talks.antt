-- ===== src/Node/Talks.antt =====
-- The conversations do not depend on what the bridge is told.
use mathlib.Core.List.{reverse}
use decentralized_p2p_chat_s.Base.{
  ◌≡◌, refl, ◌∙◌, Bool, true, false, List, [], ◌∷◌, ◌++◌, nat_eq, bytes_eq, Bytes, option_ind,
  result_ind,
}
use decentralized_p2p_chat_s.Storage.History.{StoredMsg, load_history}
use decentralized_p2p_chat_s.Manager.{
  Manager, Effect, wrote, closed, chat_shown, own_message, web_error, peers_changed, history_asked,
  disconnected, rejected, reconnecting, request_shown, printed,
}
use decentralized_p2p_chat_s.Node.{
  Outside, Node, save_to_history, save_if, add_message, notify_web_message, notify_peer_history,
  show_history, notify, notify_all, run,
}

-- The conversations of two states are the same.
pub record SameTalks (m k : Manager) : Type 0 where
  pub streams : k.streams ≡ m.streams
  pub sessions : k.sessions ≡ m.sessions
  pub active : k.active ≡ m.active
  pub effects : k.effects ≡ m.effects

SameTalks-refl : (m : Manager) → SameTalks m m
SameTalks-refl m = record { streams = refl; sessions = refl; active = refl; effects = refl }

SameTalks-trans : {m k l : Manager} → SameTalks m k → SameTalks k l → SameTalks m l
SameTalks-trans p q = record {
  streams = q.streams ∙ p.streams;
  sessions = q.sessions ∙ p.sessions;
  active = q.active ∙ p.active;
  effects = q.effects ∙ p.effects;
}

talks :
    {m k : Manager}
    → k.streams ≡ m.streams
    → k.sessions ≡ m.sessions
    → k.active ≡ m.active
    → k.effects ≡ m.effects
    → SameTalks m k
talks p q r s = record { streams = p; sessions = q; active = r; effects = s }

module _ (out : Outside) where
  -- What the bridge is told changes nothing of the conversations.
  abbrev Deaf : Node → Node → Type 0
  Deaf n k = SameTalks n.manager k.manager

  save_if-Deaf :
      (b : Bool) (n : Node) (peer_id : Bytes) (msg : _) → Deaf n (save_if out b n peer_id msg)
  unfolding save_if save_to_history
  save_if-Deaf true n peer_id msg =
      option_ind (Deaf n) n.history_store (SameTalks-refl n.manager)
        (λ dir _. talks refl refl refl refl)
  save_if-Deaf false n peer_id msg = SameTalks-refl n.manager

  web_message-Deaf :
      (n : Node) (from from_name content : Bytes) (is_own : Bool) (conversation : Bytes)
      (persist : Bool)
      → Deaf n (notify_web_message out n from from_name content is_own conversation persist)
  unfolding notify_web_message add_message
  web_message-Deaf n from from_name content is_own conversation persist =
      option_ind (Deaf n) n.web (SameTalks-refl n.manager) (λ wc _.
        let s = save_if-Deaf _ _ conversation _ in talks s.streams s.sessions s.active s.effects)

  notify_peer_history-Deaf :
      (n : Node) (peer_id : Bytes) (msgs : List StoredMsg)
      → Deaf n (notify_peer_history out n peer_id msgs)
  unfolding notify_peer_history
  notify_peer_history-Deaf n peer_id [] = SameTalks-refl n.manager
  notify_peer_history-Deaf n peer_id (msg ∷ msgs) = SameTalks-refl n.manager

  show_history-Deaf : (n : Node) (peer_id : Bytes) → Deaf n (show_history out n peer_id)
  unfolding show_history
  show_history-Deaf n peer_id =
      option_ind (Deaf n) n.history_store (SameTalks-refl n.manager) (λ dir _.
        result_ind (Deaf n) (load_history out.history dir peer_id)
          (λ msgs _. notify_peer_history-Deaf n peer_id msgs) (λ e. SameTalks-refl n.manager))

  notify-Deaf : (n : Node) (e : Effect) → Deaf n (notify out n e)
  unfolding notify
  notify-Deaf n (wrote stream line) = SameTalks-refl n.manager
  notify-Deaf n (closed stream) = SameTalks-refl n.manager
  notify-Deaf n (printed text) = SameTalks-refl n.manager
  notify-Deaf n (chat_shown from name text) = web_message-Deaf n from name text false from true
  notify-Deaf n (own_message to text) = web_message-Deaf n _ _ text true _ false
  notify-Deaf n (web_error text) = SameTalks-refl n.manager
  notify-Deaf n peers_changed = SameTalks-refl n.manager
  notify-Deaf n (history_asked peer) = show_history-Deaf n _
  notify-Deaf n (disconnected peer) = SameTalks-refl n.manager
  notify-Deaf n (rejected peer_id) = SameTalks-refl n.manager
  notify-Deaf n (reconnecting peer_id status) = SameTalks-refl n.manager
  notify-Deaf n (request_shown peer_id short nick) =
      option_ind (Deaf n) n.web (SameTalks-refl n.manager) (λ wc _. talks refl refl refl refl)

  notify_all-Deaf : (n : Node) (es : List Effect) → Deaf n (notify_all out n es)
  unfolding notify_all
  notify_all-Deaf n [] = SameTalks-refl n.manager
  notify_all-Deaf n (e ∷ es) =
      SameTalks-trans (notify-Deaf n e) (notify_all-Deaf (notify out n e) es)

  -- The conversations after a step, as they are without the bridge.
  pub run-SameTalks :
      (n : Node) (step : Manager → Manager)
      → let m = step (record n.manager { effects = [] }) in
        SameTalks (record m { effects = m.effects ++ n.manager.effects }) (run out n step).manager
  unfolding run
  run-SameTalks n step =
      notify_all-Deaf
        (record n {
          manager = record (step (record n.manager { effects = [] })) {
            effects = (step (record n.manager { effects = [] })).effects ++ n.manager.effects;
          };
        })
        (reverse (step (record n.manager { effects = [] })).effects)

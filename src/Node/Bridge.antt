-- ===== src/Node/Bridge.antt =====
-- What the calls of web.go can change of the node.
use mathlib.Core.List.{reverse}
use decentralized_p2p_chat_s.Base.{
  ◌≡◌, refl, sym, subst, ap, ◌∙◌, Bool, true, false, List, [], ◌∷◌, ◌++◌, none, some, bytes_eq,
  Bytes, option_ind, result_ind,
}
use decentralized_p2p_chat_s.Storage.History.{StoredMsg, load_history}
use decentralized_p2p_chat_s.Manager.{
  Manager, Effect, wrote, closed, chat_shown, own_message, web_error, peers_changed, history_asked,
  disconnected, rejected, reconnecting, request_shown, printed,
}
use decentralized_p2p_chat_s.Web.{WebClient}
use decentralized_p2p_chat_s.Node.{
  Outside, Node, save_to_history, save_if, add_message, notify_web_message, notify_peer_history,
  show_history, notify, notify_all, run,
}

-- The stores that only the user writes, and the requests, are the same in two nodes.
pub record IsCalm (n m : Node) : Type 0 where
  pub peers : m.peer_store ≡ n.peer_store
  pub verifications : m.verification_store ≡ n.verification_store
  pub approvals : m.approvals ≡ n.approvals

pub IsCalm-refl : (n : Node) → IsCalm n n
IsCalm-refl n = record { peers = refl; verifications = refl; approvals = refl }

pub IsCalm-trans : {n m o : Node} → IsCalm n m → IsCalm m o → IsCalm n o
IsCalm-trans p q = record {
  peers = q.peers ∙ p.peers;
  verifications = q.verifications ∙ p.verifications;
  approvals = q.approvals ∙ p.approvals;
}

-- Two nodes with the same stores and requests.
abbrev pub calm :
    {n m : Node}
    → m.peer_store ≡ n.peer_store
    → m.verification_store ≡ n.verification_store
    → m.approvals ≡ n.approvals
    → IsCalm n m
calm p q r = record { peers = p; verifications = q; approvals = r }

module _ (out : Outside) where
  pub save_to_history-IsCalm :
      (n : Node) (peer_id : Bytes) (msg : StoredMsg) → IsCalm n (save_to_history out n peer_id msg)
  unfolding save_to_history
  save_to_history-IsCalm n peer_id msg =
      option_ind (IsCalm n) n.history_store (IsCalm-refl n) (λ dir h. calm refl refl refl)

  save_if-IsCalm :
      (b : Bool) (n : Node) (peer_id : Bytes) (msg : StoredMsg)
      → IsCalm n (save_if out b n peer_id msg)
  unfolding save_if
  save_if-IsCalm true n peer_id msg = save_to_history-IsCalm n peer_id msg
  save_if-IsCalm false n peer_id msg = IsCalm-refl n

  add_message-IsCalm :
      (n : Node) (wc : WebClient) (from from_name content : Bytes) (is_own : Bool)
      (conversation : Bytes) (persist : Bool)
      → IsCalm n (add_message out n wc from from_name content is_own conversation persist)
  unfolding add_message
  add_message-IsCalm n wc from from_name content is_own conversation persist =
      let saved = save_if-IsCalm _ _ conversation _ in
      calm saved.peers saved.verifications saved.approvals

  pub notify_web_message-IsCalm :
      (n : Node) (from from_name content : Bytes) (is_own : Bool) (conversation : Bytes)
      (persist : Bool)
      → IsCalm n (notify_web_message out n from from_name content is_own conversation persist)
  unfolding notify_web_message
  notify_web_message-IsCalm n from from_name content is_own conversation persist =
      option_ind (IsCalm n) n.web (IsCalm-refl n)
        (λ wc h. add_message-IsCalm n wc from from_name content is_own conversation persist)

  notify_peer_history-IsCalm :
      (n : Node) (peer_id : Bytes) (msgs : List StoredMsg)
      → IsCalm n (notify_peer_history out n peer_id msgs)
  unfolding notify_peer_history
  notify_peer_history-IsCalm n peer_id [] = IsCalm-refl n
  notify_peer_history-IsCalm n peer_id (msg ∷ msgs) = calm refl refl refl

  show_history-IsCalm : (n : Node) (peer_id : Bytes) → IsCalm n (show_history out n peer_id)
  unfolding show_history
  show_history-IsCalm n peer_id = option_ind (IsCalm n) n.history_store (IsCalm-refl n) (λ dir _.
      result_ind (IsCalm n) (load_history out.history dir peer_id)
        (λ msgs _. notify_peer_history-IsCalm n peer_id msgs) (λ e. IsCalm-refl n))

  notify-IsCalm : (n : Node) (e : Effect) → IsCalm n (notify out n e)
  unfolding notify
  notify-IsCalm n (wrote stream line) = IsCalm-refl n
  notify-IsCalm n (closed stream) = IsCalm-refl n
  notify-IsCalm n (printed text) = IsCalm-refl n
  notify-IsCalm n (chat_shown from name text) =
      notify_web_message-IsCalm n from name text false from true
  notify-IsCalm n (own_message to text) = notify_web_message-IsCalm n _ _ text true _ false
  notify-IsCalm n (web_error text) = calm refl refl refl
  notify-IsCalm n peers_changed = calm refl refl refl
  notify-IsCalm n (history_asked peer) = show_history-IsCalm n _
  notify-IsCalm n (disconnected peer) = calm refl refl refl
  notify-IsCalm n (rejected peer_id) = calm refl refl refl
  notify-IsCalm n (reconnecting peer_id status) = calm refl refl refl
  notify-IsCalm n (request_shown peer_id short nick) =
      option_ind (IsCalm n) n.web (IsCalm-refl n) (λ wc h. calm refl refl refl)

  notify_all-IsCalm : (n : Node) (es : List Effect) → IsCalm n (notify_all out n es)
  unfolding notify_all
  notify_all-IsCalm n [] = IsCalm-refl n
  notify_all-IsCalm n (e ∷ es) =
      IsCalm-trans (notify-IsCalm n e) (notify_all-IsCalm (notify out n e) es)

  -- A step of the conversations, with all that it tells the bridge.
  pub run-IsCalm : (n : Node) (step : Manager → Manager) → IsCalm n (run out n step)
  unfolding run
  run-IsCalm n step = IsCalm-trans (calm refl refl refl) (
      notify_all-IsCalm
        (record n {
          manager = record (step (record n.manager { effects = [] })) {
            effects = (step (record n.manager { effects = [] })).effects ++ n.manager.effects;
          };
        })
        (reverse (step (record n.manager { effects = [] })).effects))

  web_message-unsaved :
      (n : Node) (from from_name content : Bytes) (is_own : Bool) (conversation : Bytes)
      (persist : Bool)
      → n.web ≡ none
      → notify_web_message out n from from_name content is_own conversation persist ≡ n
  unfolding notify_web_message
  web_message-unsaved n from from_name content is_own conversation persist h =
      ap
        (λ web. elim web as (λ _. Node) [
          | none ↦ n
          | some wc ↦ add_message out n wc from from_name content is_own conversation persist
        ])
        h

  -- The history and the bridge of a node without a bridge.
  abbrev IsUnsaved : Node → Node → Type 0
  IsUnsaved n m = (m.history_store ≡ n.history_store) × (m.web ≡ none)

  notify_peer_history-IsUnsaved :
      (n : Node) (peer_id : Bytes) (msgs : List StoredMsg)
      → n.web ≡ none
      → IsUnsaved n (notify_peer_history out n peer_id msgs)
  unfolding notify_peer_history
  notify_peer_history-IsUnsaved n peer_id [] h = (refl, h)
  notify_peer_history-IsUnsaved n peer_id (msg ∷ msgs) h = rw h (refl, refl)

  show_history-IsUnsaved :
      (n : Node) (peer_id : Bytes) → n.web ≡ none → IsUnsaved n (show_history out n peer_id)
  unfolding show_history
  show_history-IsUnsaved n peer_id h =
      option_ind (IsUnsaved n) n.history_store (refl, h)
        (λ dir _.
          result_ind (IsUnsaved n) (load_history out.history dir peer_id)
            (λ msgs _. notify_peer_history-IsUnsaved n peer_id msgs h) (λ e. (refl, h)))

  notify-IsUnsaved : (n : Node) (e : Effect) → n.web ≡ none → IsUnsaved n (notify out n e)
  unfolding notify
  notify-IsUnsaved n (wrote stream line) h = (refl, h)
  notify-IsUnsaved n (closed stream) h = (refl, h)
  notify-IsUnsaved n (printed text) h = (refl, h)
  notify-IsUnsaved n (chat_shown from name text) h =
      subst (IsUnsaved n) (sym (web_message-unsaved n from name text false from true h)) (refl, h)
  notify-IsUnsaved n (own_message to text) h =
      subst (IsUnsaved n) (sym (web_message-unsaved n _ _ text true _ false h)) (refl, h)
  notify-IsUnsaved n (web_error text) h = rw h (refl, refl)
  notify-IsUnsaved n peers_changed h = rw h (refl, refl)
  notify-IsUnsaved n (history_asked peer) h = show_history-IsUnsaved n _ h
  notify-IsUnsaved n (disconnected peer) h = rw h (refl, refl)
  notify-IsUnsaved n (rejected peer_id) h = rw h (refl, refl)
  notify-IsUnsaved n (reconnecting peer_id status) h = rw h (refl, refl)
  notify-IsUnsaved n (request_shown peer_id short nick) h =
      option_ind (IsUnsaved n) n.web (refl, h)
        (λ wc there. let bad : ⊥ = cc (h, there) in absurd bad)

  notify_all-IsUnsaved :
      (n : Node) (es : List Effect) → n.web ≡ none → IsUnsaved n (notify_all out n es)
  unfolding notify_all
  notify_all-IsUnsaved n [] h = (refl, h)
  notify_all-IsUnsaved n (e ∷ es) h =
      let first = notify-IsUnsaved n e h in
      let rest = notify_all-IsUnsaved (notify out n e) es first.1 in (rest.0 ∙ first.0, rest.1)

  -- Without a bridge no step of the conversations saves anything to the history, whatever messages it
  -- shows.
  pub run-unsaved :
      (n : Node) (step : Manager → Manager)
      → n.web ≡ none
      → (run out n step).history_store ≡ n.history_store
  unfolding run
  run-unsaved n step h =
      (notify_all-IsUnsaved
        (record n {
          manager = record (step (record n.manager { effects = [] })) {
            effects = (step (record n.manager { effects = [] })).effects ++ n.manager.effects;
          };
        })
        (reverse (step (record n.manager { effects = [] })).effects) h).0

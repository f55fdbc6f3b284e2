-- ===== src/Node/Console.antt =====
-- main.go and verification.go: `HandleInput`, `handleCommand` and the commands that are not in
-- Manager. What is printed is an effect of the conversations.
pub mod Laws
use decentralized_p2p_chat_s.Base.{
  ℕ, zero, suc, ◌+◌, ◌-◌, ◌*◌, ◌≡◌, refl, Bool, true, false, not, ◌||◌, List, [], ◌∷◌, ◌++◌, Option,
  none, some, Result, ok, err, ltb, eqb, ◌==◌, bytes_eq, if◌then◌else◌, Bytes, length, codes,
  get_elem?,
}
use decentralized_p2p_chat_s.Base.Dict.{Dict, lookup}
use decentralized_p2p_chat_s.Base.Int.{ℤ, pos, negsuc}
use decentralized_p2p_chat_s.Text.{has_prefix}
use decentralized_p2p_chat_s.Text.Fields.{fields, scan_int}
use decentralized_p2p_chat_s.Protocol.{Envelope}
use decentralized_p2p_chat_s.Storage.{File, Outcome, load}
use decentralized_p2p_chat_s.Storage.Peers.{TrustedPeer, save_peer, remove_peer_by_num}
use decentralized_p2p_chat_s.Storage.Verified.{set_verified, is_verified}
use decentralized_p2p_chat_s.Storage.History.{StoredMsg}
use decentralized_p2p_chat_s.Safety.{safety_number}
use decentralized_p2p_chat_s.Approvals.{respond_by_num}
use decentralized_p2p_chat_s.Discovery.{list_found, discover_peers}
use decentralized_p2p_chat_s.Manager.{
  ControlBody, Env, Manager, own_message, printed, or_else, emit, draw, display_name, send_control,
}
use decentralized_p2p_chat_s.Manager.Pending.{send_chat}
use decentralized_p2p_chat_s.Manager.Receive.{control_latency_ping, control_concurrent_test}
use decentralized_p2p_chat_s.Manager.Streams.{
  forget_peer, sorted_peers, switch_peer, disconnect_active,
}
use decentralized_p2p_chat_s.Manager.Dial.{connect_to_peer}
use decentralized_p2p_chat_s.Node.{
  Outside, Node, next_draw, notify_trusted_peers, broadcast_verified_peers, save_to_history, run,
}
use decentralized_p2p_chat_s.Node.Socket.{Network, own_id}
use decentralized_p2p_chat_s.Node.Probes.{run_latency_test, run_concurrent_test}
use decentralized_p2p_chat_s.Node.Lists.{show_peers, show_saved_peers, show_found_peers}
use decentralized_p2p_chat_s.Node.Saved.{
  print, save_typed_peer, rename_saved_peer, remove_saved_peer,
}

-- `num := 0; fmt.Sscanf(arg, "%d", &num)`
abbrev pub number_of : Bytes → ℤ
number_of arg = or_else (scan_int arg) (pos 0)

abbrev lower : ℕ → ℕ
lower a = if ltb a 65 || ltb 90 a then a else a + 32

-- `strings.ToLower`, as far as the result can be a word of ASCII letters: beside A to Z, the Kelvin sign
-- and the dotted I are the two characters whose small letters are in ASCII. The rest stays.
to_lower : Bytes → Bytes
unfolding has_prefix
to_lower s = lower_from zero s
  where
    -- From a number of bytes to skip.
    lower_from : ℕ → Bytes → Bytes
    lower_from skipped [] = []
    lower_from (suc skipped) (a ∷ s) = lower_from skipped s
    lower_from zero (a ∷ s) =
        let after_kelvin = lower_from 2 s in
        let after_dotted = lower_from 1 s in
        let rest = lower_from zero s in
        if has_prefix (a ∷ s) (226 ∷ 132 ∷ 170 ∷ [])
        then b'k' ∷ after_kelvin
        else if has_prefix (a ∷ s) (196 ∷ 176 ∷ [])
        then b'i' ∷ after_dotted
        else lower a ∷ rest

module _ (out : Outside) where
  -- `SetVerified` and what follows it in `showSafetyNumber`; the status is shown if it was saved.
  mark_verified : Node → Bytes → Bool → Node
  mark_verified n peer verified = elim n.verification_store [
    | none ↦ print n (codes "Verification storage is not available.")
    | some f ↦
        let k = n.manager.draws in
        let (f', saved) =
          set_verified out.verifications (out.outcome k) (out.nanos k) f (out.env.id_string peer)
            verified in
        let n' : Node = next_draw (record n { verification_store = some f' }) in
        if saved
        then print (broadcast_verified_peers out n') (codes "Safety number")
        else print n' (codes "Could not save verification")
  ]

  -- `showSafetyNumber` from the point where the number is known.
  unfoldable pub verify_with : Node → Bytes → List Bytes → Node
  unfolding mark_verified to_lower
  verify_with n peer [] = print n (codes "Safety number")
  verify_with n peer (arg ∷ args) =
      let word = to_lower arg in
      if word == codes "ok" || word == codes "verify"
      then mark_verified n peer true
      else if word == codes "remove" || word == codes "clear"
      then mark_verified n peer false
      else print n (codes "Usage: '/verify [ok|remove]'")

  -- `showSafetyNumber`
  unfoldable pub show_safety_number : Node → List Bytes → Node
  unfolding verify_with
  show_safety_number n args =
      let peer = n.manager.active in
      if eqb (length peer) 0
      then print n (codes "No active peer. Use '/switch <number>' first.")
      else elim n.manager.node [
        | none ↦ print n (codes "Could not compute the safety number")
        | some own ↦ elim (safety_number out.safety true own peer) [
          | err e ↦ print n (codes "Could not compute the safety number")
          | ok number ↦ verify_with n peer args
        ]
      ]

  abbrev usage : Node → Node
  usage n = print n (codes "Usage")

  -- The cases "/accept" and "/reject".
  unfoldable pub answer_request : Node → List Bytes → Bool → Node
  answer_request n [] accepted = usage n
  answer_request n (arg ∷ args) accepted = elim (number_of arg) [
    | pos zero ↦ print n (codes "Invalid request number")
    | pos (suc k) ↦ record n { approvals = (respond_by_num n.approvals (suc k) accepted).0 }
    | negsuc k ↦ print n (codes "No pending request with that number")
  ]

  -- The cases "/rename" and "/remove".
  unfoldable pub rename_command : Node → List Bytes → Node
  unfolding rename_saved_peer
  rename_command n (arg ∷ nick ∷ args) = elim (number_of arg) [
    | pos zero ↦ print n (codes "Invalid number")
    | pos (suc k) ↦ rename_saved_peer out n (pos (suc k)) nick
    | negsuc k ↦ rename_saved_peer out n (negsuc k) nick
  ]
  rename_command n args = usage n

  unfoldable pub remove_command : Node → List Bytes → Node
  unfolding remove_saved_peer
  remove_command n [] = usage n
  remove_command n (arg ∷ args) = elim (number_of arg) [
    | pos zero ↦ print n (codes "Invalid number")
    | pos (suc k) ↦ remove_saved_peer out n (pos (suc k))
    | negsuc k ↦ remove_saved_peer out n (negsuc k)
  ]

  -- The case "/save".
  unfoldable pub save_command : Node → List Bytes → Node
  unfolding save_typed_peer
  save_command n [] = usage n
  save_command n (peer ∷ []) = save_typed_peer out n peer []
  save_command n (peer ∷ nick ∷ args) = save_typed_peer out n peer nick

  -- A case with one argument that acts on the conversations.
  abbrev with_arg : Node → List Bytes → (Bytes → Manager → Manager) → Node
  with_arg n [] step = usage n
  with_arg n (arg ∷ args) step = run out n (step arg)

  -- `handleCommand`, from the words of the line. What the code starts as a goroutine has its turn at
  -- once.
  unfoldable pub run_command : Network → Node → List Bytes → Node
  unfolding answer_request rename_command remove_command save_command show_safety_number
  run_command net n [] = n
  run_command net n (word ∷ args) =
      if word == codes "/list"
      then show_peers out n
      else if word == codes "/switch"
      then with_arg n args (λ arg m. switch_peer out.env m (scan_int arg))
      else if word == codes "/connect"
      then with_arg n args (λ arg m. connect_to_peer out.env m (net.parse_address arg) net.attempt)
      else if word == codes "/disconnect"
      then run out n disconnect_active
      else if word == codes "/discover"
      then show_found_peers out net n
      else if word == codes "/accept"
      then answer_request n args true
      else if word == codes "/reject"
      then answer_request n args false
      else if word == codes "/peers"
      then show_saved_peers out n
      else if word == codes "/save"
      then save_command n args
      else if word == codes "/rename"
      then rename_command n args
      else if word == codes "/remove"
      then remove_command n args
      else if word == codes "/verify"
      then show_safety_number n args
      else if word == codes "/latencytest"
      then with_arg n args (λ arg m. run_latency_test out.env m arg)
      else if word == codes "/concurrenttest"
      then run out n (run_concurrent_test out.env)
      else if word == codes "/help"
      then print n (codes "Available Commands")
      else print n (codes "Unknown command")

  unfoldable pub handle_command : Network → Node → Bytes → Node
  unfolding run_command
  handle_command net n line = run_command net n (fields line)

  -- The message as it is kept in the history.
  abbrev own_stored : Node → Envelope → Bytes → StoredMsg
  own_stored n e text = record {
    id = e.id;
    from = own_id out.env n.manager;
    from_name = n.manager.local_nick;
    content = text;
    timestamp = milli_to_nano e.timestamp;
    is_own = true;
  }
    where
      milli_to_nano : ℤ → ℕ
      milli_to_nano (pos t) = t * 1000000
      milli_to_nano (negsuc t) = 0

  -- The rest of the loop's body in `HandleInput`: the text is sent to the active peer.
  unfoldable pub send_input : Node → Bytes → Node
  send_input n text =
      let peer = n.manager.active in
      if eqb (length peer) 0
      then print n (codes "No active peer")
      else (let (m, result) = send_chat out.env n.manager peer text in
          let n' : Node = record n { manager = m } in
          elim result [
            | none ↦ run out (print n' (codes "Error")) (λ m. forget_peer m peer)
            | some e ↦
                run out (save_to_history out n' (out.env.id_string peer) (own_stored n' e text))
                  (λ m. emit m (own_message peer text))
          ])

  -- One line of `HandleInput`.
  unfoldable pub handle_input : Network → Node → Bytes → Node
  unfolding handle_command send_input
  handle_input net n [] = send_input n []
  handle_input net n (a ∷ text) =
      if eqb a b'/' then handle_command net n (a ∷ text) else send_input n (a ∷ text)

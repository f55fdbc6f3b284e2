-- ===== src/Node/Console/Laws.antt =====
-- What the user types reaches the connection request that is meant.
use decentralized_p2p_chat_s.Base.{
  ℕ, zero, suc, ◌^◌, ◌≤◌, ◌<◌, ◌≡◌, ◌≢◌, refl, sym, ap, ◌∙◌, Bool, true, false, List, [], ◌∷◌, ◌++◌,
  some, arith, nat_eq, bytes_eq, Bytes, All, codes,
}
use decentralized_p2p_chat_s.Base.Dict.{lookup}
use decentralized_p2p_chat_s.Text.Trim.{IsGraphic}
use decentralized_p2p_chat_s.Text.Fields.{decimal, fields}
use decentralized_p2p_chat_s.Text.Fields.Laws.{
  fields_pair, scan_int-decimal, decimal-ne-nil, decimal-IsGraphic,
}
use decentralized_p2p_chat_s.Approvals.{open_request, respond_by_num}
use decentralized_p2p_chat_s.Approvals.Laws.{Steps, no_requests, request_answered}
use decentralized_p2p_chat_s.Node.{Outside, Node}
use decentralized_p2p_chat_s.Node.Socket.{Network}
use decentralized_p2p_chat_s.Node.Console.{
  answer_request, run_command, handle_command, handle_input,
}

-- The command that answers a request.
abbrev pub answer_word : Bool → Bytes
answer_word true = codes "/accept"
answer_word false = codes "/reject"

-- What the user types to answer the request of a number.
abbrev pub answer_line : Bool → ℕ → Bytes
answer_line accepted num = answer_word accepted ++ b' ' ∷ decimal num

answer_word-IsGraphic : (accepted : Bool) → All IsGraphic (answer_word accepted)
unfolding codes
answer_word-IsGraphic true = ground arith
answer_word-IsGraphic false = ground arith

answer_word-ne-nil : (accepted : Bool) → answer_word accepted ≢ []
unfolding codes
answer_word-ne-nil true h = cc h
answer_word-ne-nil false h = cc h

fields-answer_line :
    (accepted : Bool) (num : ℕ)
    → fields (answer_line accepted num) ≡ answer_word accepted ∷ decimal num ∷ []
fields-answer_line accepted num =
    fields_pair (answer_word accepted) (decimal num) (answer_word-IsGraphic accepted)
      (decimal-IsGraphic num) (answer_word-ne-nil accepted) (decimal-ne-nil num)

module _ (out : Outside) (net : Network) where
  run_command-answer :
      (n : Node) (accepted : Bool) (args : List Bytes)
      → run_command out net n (answer_word accepted ∷ args) ≡ answer_request out n args accepted
  unfolding run_command codes bytes_eq
  run_command-answer n true args = refl
  run_command-answer n false args = refl

  answer_request-decimal :
      (n : Node) (accepted : Bool) (num : ℕ)
      → suc num < 2 ^ 63
      → answer_request out n (decimal (suc num) ∷ []) accepted
        ≡ record n { approvals = (respond_by_num n.approvals (suc num) accepted).0 }
  unfolding answer_request
  answer_request-decimal n accepted num fits =
      rw (scan_int-decimal (suc num) fits, answer_request) refl

  handle_input-command :
      (n : Node) (accepted : Bool) (num : ℕ)
      → handle_input out net n (answer_line accepted num)
        ≡ handle_command out net n (answer_line accepted num)
  unfolding handle_input codes
  handle_input-command n true num = refl
  handle_input-command n false num = refl

  -- The line that answers a number does what the response by that number does.
  answer_typed :
      (n : Node) (accepted : Bool) (num : ℕ)
      → 1 ≤ num
      → num < 2 ^ 63
      → handle_input out net n (answer_line accepted num)
        ≡ record n { approvals = (respond_by_num n.approvals num accepted).0 }
  unfolding handle_command
  answer_typed n accepted zero positive fits = absurd (omega arith)
  answer_typed n accepted (suc num) positive fits =
      handle_input-command n accepted (suc num)
      ∙ ap (run_command out net n) (fields-answer_line accepted (suc num))
      ∙ run_command-answer n accepted (decimal (suc num) ∷ [])
      ∙ answer_request-decimal n accepted num fits

  -- In any state of the requests that a node can reach, the line "/accept" or "/reject" with the
  -- number of a new request, below 2 ^ 63, puts the user's answer in the channel of that request, and
  -- changes nothing but the requests.
  pub typed_answer :
      (n : Node) (peer : Bytes) (accepted : Bool)
      → Steps no_requests n.approvals
      → let opened = open_request n.approvals peer in
        let asked : Node = record n { approvals = opened.0 } in
        let typed = handle_input out net asked (answer_line accepted opened.1.num) in
        opened.1.num < 2 ^ 63
        → (lookup opened.1.channel typed.approvals.answers ≡ some accepted)
          × (typed ≡ record n { approvals = typed.approvals })
  typed_answer n peer accepted reached fits =
      let opened = open_request n.approvals peer in
      let same =
        answer_typed (record n { approvals = opened.0 }) accepted opened.1.num
          (unfold open_request in omega arith) fits in
      (
        ap (λ t. lookup opened.1.channel t.approvals.answers) same
            ∙ (request_answered n.approvals peer accepted reached).2,
        same ∙ ap (λ t. record n { approvals = t.approvals }) (sym same),
      )

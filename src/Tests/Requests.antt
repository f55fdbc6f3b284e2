-- ===== src/Tests/Requests.antt =====
-- Examples of connection requests.
use decentralized_p2p_chat_s.Base.{ℕ, ◌≡◌, ◌≢◌, true, false, [], ◌∷◌, none, some, nat_eq, bytes_eq}
use decentralized_p2p_chat_s.Base.Dict.{lookup}
use decentralized_p2p_chat_s.Approvals.{open_request, close_request, respond, respond_by_num}
use decentralized_p2p_chat_s.Approvals.Laws.{
  no_requests, opens, stays, goes_on, request_answered, second_request_lost,
}

request_answered_example :
    let s = (open_request no_requests (1 ∷ [])).0 in
    let opened = open_request s (2 ∷ []) in
    let answered = respond_by_num opened.0 opened.1.num true in
    (lookup opened.1.num s.request_nums ≡ none)
    × (answered.1 ≡ true)
    × (lookup opened.1.channel answered.0.answers ≡ some true)
    × ((other : ℕ)
        → other ≢ opened.1.channel
        → lookup other answered.0.answers ≡ lookup other s.answers)
request_answered_example = request_answered (open_request no_requests (1 ∷ [])).0 (2 ∷ []) true (
    goes_on no_requests (open_request no_requests (1 ∷ [])).0 (open_request no_requests (1 ∷ [])).0
      (opens no_requests (1 ∷ [])) (stays (open_request no_requests (1 ∷ [])).0))

second_request_lost_example :
    let first = open_request no_requests (1 ∷ []) in
    let second = open_request first.0 (1 ∷ []) in
    let left = close_request second.0 first.1 in
    (lookup second.1.num left.request_nums ≡ some (1 ∷ []))
    × (respond_by_num left second.1.num true ≡ (left, false))
    × (respond left (1 ∷ []) true ≡ (left, false))
second_request_lost_example = second_request_lost no_requests (1 ∷ []) true

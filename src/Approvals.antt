-- ===== src/Approvals.antt =====
-- main.go: the approval of incoming connections, `HandleIncomingStream` and the two functions that
-- respond to a request. A step is a section under the mutex.
pub mod Laws
use decentralized_p2p_chat_s.Base.{
  ℕ, suc, ◌+◌, ◌≡◌, refl, Bool, true, false, List, [], ◌∷◌, Option, none, some, eqb, ◌==◌, nat_eq,
  bytes_eq, if◌then◌else◌, Bytes, length,
}
use decentralized_p2p_chat_s.Base.Dict.{Dict, lookup, insert, erase}

-- `pending_approvals` has the channel of each peer, and `answers` the value in a channel of capacity
-- one. A channel is known by the number of its allocation.
pub record Approvals : Type 0 where
  pub pending_approvals : Dict Bytes ℕ
  pub request_nums : Dict ℕ Bytes
  pub next_request_num : ℕ
  pub answers : Dict ℕ Bool
  pub allocated : ℕ

-- A request that waits: its peer, its number and its channel.
pub record Request : Type 0 where
  pub peer : Bytes
  pub num : ℕ
  pub channel : ℕ

-- `HandleIncomingStream` up to the wait.
unfoldable pub open_request : Approvals → Bytes → Approvals × Request
open_request s peer =
    let num = s.next_request_num + 1 in
    (
      record s {
        next_request_num = num;
        pending_approvals = insert peer s.allocated s.pending_approvals;
        request_nums = insert num peer s.request_nums;
        allocated = s.allocated + 1;
      },
      record { peer = peer; num = num; channel = s.allocated },
    )

-- The cleanup of `HandleIncomingStream`, after the answer or the timeout.
unfoldable pub close_request : Approvals → Request → Approvals
close_request s r =
    let nums = erase r.num s.request_nums in
    record s {
      pending_approvals = erase r.peer s.pending_approvals;
      request_nums = nums;
      next_request_num = if eqb (length nums) 0 then 0 else s.next_request_num;
    }

-- `ch <- accepted`; a second value waits until the first one is taken, and does not arrive.
unfoldable pub put_answer : Approvals → ℕ → Bool → Approvals
put_answer s channel accepted = elim (lookup channel s.answers) [
  | none ↦ record s { answers = insert channel accepted s.answers }
  | some old ↦ s
]

-- `RespondToConnectionRequest`, after `peerstore.Decode`. The flag says that a channel was found.
unfoldable pub respond : Approvals → Bytes → Bool → Approvals × Bool
unfolding put_answer
respond s peer accepted = elim (lookup peer s.pending_approvals) [
  | none ↦ (s, false)
  | some channel ↦ (put_answer s channel accepted, true)
]

-- `RespondToConnectionRequestByNum`
unfoldable pub respond_by_num : Approvals → ℕ → Bool → Approvals × Bool
unfolding respond
respond_by_num s num accepted = elim (lookup num s.request_nums) [
  | none ↦ (s, false)
  | some peer ↦ respond s peer accepted
]

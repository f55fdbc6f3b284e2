-- ===== src/Web/Guarded.antt =====
-- The connections that the bridge may write to, and what writing does to them.
use decentralized_p2p_chat_s.Base.{
  option_ind, ℕ, ◌≡◌, ◌≢◌, ◌↔◌, refl, ◌∙◌, Bool, true, List, [], ◌∷◌, none, some, arith, ◌==◌,
  nat_eq, bytes_eq, Bytes, All, Option-cases, Bool-cases, inl, inr,
}
use decentralized_p2p_chat_s.Base.Dict.{Dict, lookup, insert, lookup-insert}
use decentralized_p2p_chat_s.Web.{
  PendingRequest, Frame, WebClient, HttpRequest, origin_allowed, send_to_client, send_to_all,
  broadcast, send_requests, connection_request,
}

-- The bridge, and the request from which each connection was made.
pub record Served : Type 0 where
  pub client : WebClient
  pub made_from : Dict ℕ HttpRequest

module _ (port : ℕ) (token : Bytes) where
  -- A connection whose request had the token, and no origin or one of the bridge's own.
  pub record IsAdmitted (made_from : Dict ℕ HttpRequest) (conn : ℕ) : Type 0 where
    pub request : HttpRequest
    pub there : lookup conn made_from ≡ some request
    pub token_given : request.token ≡ token
    pub token_set : token ≢ []
    pub from_here : origin_allowed request port ≡ true

  -- The clients have mutexes, and no other connection has. All that has a mutex, and all that was
  -- written to, is admitted.
  pub record IsGuarded (s : Served) : Type 0 where
    pub same_token : s.client.token ≡ token
    pub paired :
        (conn : ℕ) → (lookup conn s.client.clients ≡ none) ↔ (lookup conn s.client.write_mu ≡ none)
    pub holders :
        (conn mu : ℕ) → lookup conn s.client.write_mu ≡ some mu → IsAdmitted s.made_from conn
    pub written : All (λ f. IsAdmitted s.made_from f.0) s.client.frames

  -- Two bridges of which the second has only written more.
  pub send_to_client-IsGuarded :
      (s : Served) (conn : ℕ) (frame : Frame)
      → IsGuarded s
      → IsGuarded (record s { client = send_to_client s.client conn frame })
  unfolding send_to_client
  send_to_client-IsGuarded s conn frame g = elim (Option-cases (lookup conn s.client.write_mu)) [
    | inl h ↦ rw (h, send_to_client) g
    | inr (mu, h) ↦
        rw (h, send_to_client)
          (record {
            same_token = g.same_token;
            paired = g.paired;
            holders = g.holders;
            written = (g.holders conn mu h, g.written);
          })
  ]

  send_to_all-IsGuarded :
      (s : Served) (clients : Dict ℕ Bool) (frame : Frame)
      → IsGuarded s
      → IsGuarded (record s { client = send_to_all s.client clients frame })
  unfolding send_to_all
  send_to_all-IsGuarded s [] frame g = g
  send_to_all-IsGuarded s ((conn, _) ∷ clients) frame g =
      send_to_all-IsGuarded (record s { client = send_to_client s.client conn frame }) clients frame
        (send_to_client-IsGuarded s conn frame g)

  pub broadcast-IsGuarded :
      (s : Served) (frame : Frame)
      → IsGuarded s
      → IsGuarded (record s { client = broadcast s.client frame })
  unfolding broadcast
  broadcast-IsGuarded s frame g = send_to_all-IsGuarded s s.client.clients frame g

  pub send_requests-IsGuarded :
      (s : Served) (conn : ℕ) (requests : List PendingRequest)
      → IsGuarded s
      → IsGuarded (record s { client = send_requests s.client conn requests })
  unfolding send_requests
  send_requests-IsGuarded s conn [] g = g
  send_requests-IsGuarded s conn (r ∷ requests) g =
      send_requests-IsGuarded
        (record s { client = send_to_client s.client conn (connection_request r) }) conn requests
        (send_to_client-IsGuarded s conn (connection_request r) g)

  pub IsAdmitted-insert :
      (made_from : Dict ℕ HttpRequest) (conn new : ℕ) (r : HttpRequest)
      → r.token ≡ token
      → token ≢ []
      → origin_allowed r port ≡ true
      → (conn ≢ new → IsAdmitted made_from conn)
      → IsAdmitted (insert new r made_from) conn
  IsAdmitted-insert made_from conn new r given set allowed old = elim (Bool-cases (conn == new)) [
    | inl same ↦ record {
      request = r;
      there = lookup-insert conn new r made_from ∙ rw same refl;
      token_given = given;
      token_set = set;
      from_here = allowed;
    }
    | inr apart ↦
        let a = old (ground arith) in
        record {
          request = a.request;
          there = lookup-insert conn new r made_from ∙ rw apart a.there;
          token_given = a.token_given;
          token_set = a.token_set;
          from_here = a.from_here;
        }
  ]

send_to_client-pending_requests :
    (wc : WebClient) (conn : ℕ) (frame : Frame)
    → (send_to_client wc conn frame).pending_requests ≡ wc.pending_requests
unfolding send_to_client
send_to_client-pending_requests wc conn frame =
    option_ind (λ (w : WebClient). w.pending_requests ≡ wc.pending_requests)
      (lookup conn wc.write_mu) refl (λ mu _. refl)

send_to_all-pending_requests :
    (wc : WebClient) (clients : Dict ℕ Bool) (frame : Frame)
    → (send_to_all wc clients frame).pending_requests ≡ wc.pending_requests
unfolding send_to_all
send_to_all-pending_requests wc [] frame = refl
send_to_all-pending_requests wc ((conn, _) ∷ clients) frame =
    send_to_all-pending_requests (send_to_client wc conn frame) clients frame
    ∙ send_to_client-pending_requests wc conn frame

-- Writing to the clients leaves the kept requests.
pub broadcast-pending_requests :
    (wc : WebClient) (frame : Frame) → (broadcast wc frame).pending_requests ≡ wc.pending_requests
unfolding broadcast
broadcast-pending_requests wc frame = send_to_all-pending_requests wc wc.clients frame

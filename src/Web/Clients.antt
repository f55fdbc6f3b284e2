-- ===== src/Web/Clients.antt =====
-- Who can become a client of the bridge, and to whom it writes.
use decentralized_p2p_chat_s.Base.{
  ℕ, ◌≡◌, ◌≢◌, refl, sym, subst, ◌∙◌, Bool, true, List, [], some, arith, nat_eq, bytes_eq, Bytes,
  All-map,
}
use decentralized_p2p_chat_s.Base.Dict.{lookup, insert, lookup-insert, lookup-erase}
use decentralized_p2p_chat_s.Web.Server.{new_web_client}
use decentralized_p2p_chat_s.Web.{
  Upgrade, upgraded, WebMsg, PendingRequest, PeerEntry, Frame, WebClient, HttpRequest,
  origin_allowed, authorized, broadcast, add_client, remove_client, handle_web_socket, keep_message,
  keep_request, remove_pending_request, send_state, connection_request, new_message,
}
use decentralized_p2p_chat_s.Web.Guarded.{
  Served, IsAdmitted, IsGuarded, send_to_client-IsGuarded, broadcast-IsGuarded,
  send_requests-IsGuarded, IsAdmitted-insert,
}

-- One step of the bridge, which listens on a port.
pub data Step (port : ℕ) : Served → Served → Type 0 where
  admits :
      (s : Served) (wc : WebClient) (r : HttpRequest) (upgrades : Bool) (conn mu : ℕ)
      → handle_web_socket (some s.client) port r upgrades conn mu ≡ (some wc, upgraded)
      → Step port s (record { client = wc; made_from = insert conn r s.made_from })
  turns_away :
      (s : Served) (wc : WebClient) (r : HttpRequest) (upgrades : Bool) (conn mu : ℕ)
      (how : Upgrade)
      → handle_web_socket (some s.client) port r upgrades conn mu ≡ (some wc, how)
      → how ≢ upgraded
      → Step port s (record s { client = wc })
  leaves : (s : Served) (conn : ℕ) → Step port s (record s { client = remove_client s.client conn })
  tells :
      (s : Served) (frame : Frame) → Step port s (record s { client = broadcast s.client frame })
  greets :
      (s : Served) (conn : ℕ) (own : Bytes) (addresses : List Bytes) (nick : Bytes)
      (peers : List PeerEntry) (verified : List Bytes)
      → Step port s
          (record s { client = send_state s.client conn own addresses nick peers verified })
  keeps_message :
      (s : Served) (msg : WebMsg) → Step port s (record s { client = keep_message s.client msg })
  keeps_request :
      (s : Served) (r : PendingRequest)
      → Step port s (record s { client = keep_request s.client r })
  removes_request :
      (s : Served) (peer_id : Bytes)
      → Step port s (record s { client = remove_pending_request s.client peer_id })

pub data Steps (port : ℕ) : Served → Served → Type 0 where
  stays : (s : Served) → Steps port s s
  goes_on : (s t u : Served) → Step port s t → Steps port t u → Steps port s u

module _ (port : ℕ) (token : Bytes) where
  module _ (s : Served) (wc : WebClient) (r : HttpRequest) (upgrades : Bool) (conn mu : ℕ) where
    admitted :
        handle_web_socket (some s.client) port r upgrades conn mu ≡ (some wc, upgraded)
        → (wc ≡ add_client s.client conn mu)
          × (r.token ≡ s.client.token)
          × (s.client.token ≢ [])
          × (origin_allowed r port ≡ true)
    unfolding handle_web_socket authorized
    admitted h = ground arith

    turned_away :
        (how : Upgrade)
        → handle_web_socket (some s.client) port r upgrades conn mu ≡ (some wc, how)
        → how ≢ upgraded
        → wc ≡ s.client
    unfolding handle_web_socket authorized
    turned_away how h other = ground arith

    new_admitted :
        r.token ≡ s.client.token
        → s.client.token ≢ []
        → origin_allowed r port ≡ true
        → IsGuarded port token s
        → (c : ℕ) → (c ≢ conn → IsAdmitted port token s.made_from c)
        → IsAdmitted port token (insert conn r s.made_from) c
    new_admitted given set allowed g c old =
        IsAdmitted-insert port token s.made_from c conn r (given ∙ g.same_token)
          (subst (λ t. t ≢ []) g.same_token set) allowed old

    admits-IsGuarded :
        handle_web_socket (some s.client) port r upgrades conn mu ≡ (some wc, upgraded)
        → IsGuarded port token s
        → IsGuarded port token (record { client = wc; made_from = insert conn r s.made_from })
    unfolding add_client
    admits-IsGuarded h g =
        let (same, given, set, allowed) = admitted h in
        subst
          (λ wc.
            IsGuarded port token (record { client = wc; made_from = insert conn r s.made_from }))
          (sym same)
          (record {
            same_token = g.same_token;
            paired = λ c. ground (
              arith,
              lookup-insert c conn true s.client.clients,
              lookup-insert c conn mu s.client.write_mu,
              g.paired c,
            );
            holders = λ c m h. new_admitted given set allowed g c (λ apart.
                g.holders c m (ground (arith, lookup-insert c conn mu s.client.write_mu)));
            written =
                All-map (λ f a. new_admitted given set allowed g f.0 (λ _. a)) s.client.frames
                  g.written;
          })

  remove_client-IsGuarded :
      (s : Served) (conn : ℕ)
      → IsGuarded port token s
      → IsGuarded port token (record s { client = remove_client s.client conn })
  unfolding remove_client
  remove_client-IsGuarded s conn g = record {
    same_token = g.same_token;
    paired = λ c. ground (
      arith,
      lookup-erase c conn s.client.clients,
      lookup-erase c conn s.client.write_mu,
      g.paired c,
    );
    holders = λ c m h. g.holders c m (ground (arith, lookup-erase c conn s.client.write_mu));
    written = g.written;
  }

  -- Changes to the messages and requests that are kept.
  kept-IsGuarded :
      (s : Served) (messages : List WebMsg) (requests : List PendingRequest)
      → IsGuarded port token s
      → IsGuarded port token (record s {
        client = record s.client { messages = messages; pending_requests = requests };
      })
  kept-IsGuarded s messages requests g = record {
    same_token = g.same_token;
    paired = g.paired;
    holders = g.holders;
    written = g.written;
  }

  Step-IsGuarded : (s t : Served) → Step port s t → IsGuarded port token s → IsGuarded port token t
  Step-IsGuarded _ _ (admits s wc r upgrades conn mu h) g =
      admits-IsGuarded s wc r upgrades conn mu h g
  Step-IsGuarded _ _ (turns_away s wc r upgrades conn mu how h other) g =
      subst (λ c. IsGuarded port token (record s { client = c }))
        (sym (turned_away s wc r upgrades conn mu how h other)) g
  Step-IsGuarded _ _ (leaves s conn) g = remove_client-IsGuarded s conn g
  Step-IsGuarded _ _ (tells s frame) g = broadcast-IsGuarded port token s frame g
  Step-IsGuarded _ _ (greets s conn own addresses nick peers verified) g =
      unfold send_state in
      send_requests-IsGuarded port token _ conn s.client.pending_requests (
        send_to_client-IsGuarded port token _ conn _ (
          send_to_client-IsGuarded port token _ conn _
            (send_to_client-IsGuarded port token s conn _ g)))
  Step-IsGuarded _ _ (keeps_message s msg) g =
      unfold keep_message in
      broadcast-IsGuarded port token _ (new_message msg) (kept-IsGuarded s _ _ g)
  Step-IsGuarded _ _ (keeps_request s r) g =
      unfold keep_request in
      broadcast-IsGuarded port token _ (connection_request r) (kept-IsGuarded s _ _ g)
  Step-IsGuarded _ _ (removes_request s peer_id) g =
      unfold remove_pending_request in kept-IsGuarded s _ _ g

  new-IsGuarded : IsGuarded port token (record { client = new_web_client token; made_from = [] })
  unfolding new_web_client lookup
  new-IsGuarded = record {
    same_token = refl;
    paired = λ c. (λ h. refl, λ h. refl);
    holders = λ c m h. let bad : ⊥ = cc h in absurd bad;
    written = tt;
  }

  -- Whatever requests, messages and departures the bridge meets: a connection has a mutex exactly if
  -- it is a client, and every connection that is a client or was ever written to was made by a request
  -- that gave the token, which is not empty, from an origin that is allowed.
  pub Steps-IsGuarded :
      (s : Served)
      → Steps port (record { client = new_web_client token; made_from = [] }) s
      → IsGuarded port token s
  Steps-IsGuarded s r = go _ s r new-IsGuarded
    where
      go : (s t : Served) → Steps port s t → IsGuarded port token s → IsGuarded port token t
      go _ _ (stays s) g = g
      go _ _ (goes_on s t u e r) g = go t u r (Step-IsGuarded s t e g)

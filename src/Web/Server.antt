-- ===== src/Web/Server.antt =====
-- web.go: `newAPIToken`, `writeAPIConfig` and `StartWebServer`.
use decentralized_p2p_chat_s.Base.{
  ℕ, Bool, false, not, ◌||◌, [], ◌∷◌, ◌++◌, Option, none, some, eqb, nat_eq, bytes_eq,
  if◌then◌else◌, Bytes, length, codes,
}
use decentralized_p2p_chat_s.Base.Dict.{Dict, lookup, insert}
use decentralized_p2p_chat_s.Text.Fields.{decimal}
use decentralized_p2p_chat_s.Base64.{raw_url}
use decentralized_p2p_chat_s.Base64
use decentralized_p2p_chat_s.Storage.{File, Outcome, missing, write_file}
use decentralized_p2p_chat_s.Web.{WebClient}

-- `newAPIToken`, from the 32 bytes that `rand.Read` gives, if it does.
unfoldable pub new_api_token : Option Bytes → Option Bytes
new_api_token none = none
new_api_token (some raw) = some (Base64.encode raw_url raw)

-- `writeAPIConfig`: the files of the data directory, and whether the error is nil.
unfoldable pub write_api_config :
    Dict Bytes File → Bytes → Bool → Outcome → Outcome → ℕ → Bytes → Dict Bytes File × Bool
write_api_config dir data_dir can_make token_outcome port_outcome port token =
    if eqb (length data_dir) 0 || not can_make
    then (dir, false)
    else (let (f, token_written) =
          write_file token_outcome (or_missing (lookup (codes "api.token") dir))
            (token ++ 10 ∷ []) in
        let dir' = insert (codes "api.token") f dir in
        if token_written
        then (let (g, port_written) =
              write_file port_outcome (or_missing (lookup (codes "api.port") dir'))
                (decimal port ++ 10 ∷ []) in
            (insert (codes "api.port") g dir', port_written))
        else (dir', false))
  where
    or_missing : Option File → File
    or_missing none = missing
    or_missing (some f) = f

-- The client that `StartWebServer` stores, if it has a listener and a token.
unfoldable pub new_web_client : Bytes → WebClient
new_web_client token = record {
  clients = [];
  write_mu = [];
  messages = [];
  pending_requests = [];
  token = token;
  frames = [];
}

-- `StartWebServer`: the client that is stored, the files, and whether requests are served. The port is
-- the one that is listened on.
unfoldable pub start_web_server :
    Dict Bytes File
    → Bytes
    → Bool
    → Option Bytes
    → Bool
    → Outcome
    → Outcome
    → Option WebClient × Dict Bytes File × Bool
unfolding new_api_token write_api_config new_web_client
start_web_server dir data_dir listens random can_make token_outcome port_outcome =
    if listens
    then elim (new_api_token random) [
      | none ↦ (none, dir, false)
      | some token ↦
          let (dir', configured) =
            write_api_config dir data_dir can_make token_outcome port_outcome 9090 token in
          (some (new_web_client token), dir', configured)
    ]
    else (none, dir, false)

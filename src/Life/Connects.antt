-- ===== src/Life/Connects.antt =====
-- src/client.c: the functions that connect a client and start its worker thread, and the lookup of the
-- name of a host.
use libpomelo.Common.{
  ℕ, ◌%◌, ◌^◌, Bool, true, false, not, ◌||◌, Option, none, some, List, [], ◌∷◌, ◌==◌, if◌then◌else◌,
}
use libpomelo.Common.Outcome.{Outcome, ok, ◌>>=◌, defined}
use libpomelo.Client.{connected_cb, connect3_cb, user_cb, Client}
use libpomelo.Client.Connect.{Connecting, connect}
use libpomelo.Client.Handshake.{is_working}

-- `addrinfo`: the family, and the four bytes of the address of a socket.
pub record AddrInfo : Type 0 where
  pub family : ℕ
  pub address : List ℕ

-- `sockaddr_in`
pub record SockaddrIn : Type 0 where
  pub port : ℕ
  pub host : List ℕ

-- AF_INET
abbrev pub af_inet : ℕ
af_inet = 2

-- The loop over the answers: the first address of the family, with the port.
unfoldable pub first_inet : ℕ → List AddrInfo → Option SockaddrIn
first_inet port [] = none
first_inet port (a ∷ rest) =
    if a.family == af_inet
    then some (record { port = port % 2 ^ 16; host = a.address })
    else first_inet port rest

-- `pc_client_dns_resolve`; `found` is what `getaddrinfo` gives.
abbrev pub dns_resolve : Option (List AddrInfo) → ℕ → Option SockaddrIn
dns_resolve none port = none
dns_resolve (some found) port = first_inet port found

module _ {J : Type 0} where
  -- `pc_client_connect`: what the worker thread does until it wakes the caller is `worker`. `request`
  -- says that the connect request could be made.
  abbrev pub waited : (Client J → Outcome (Client J)) → Client J × Bool → Outcome (Client J × Bool)
  waited worker (c, false) = ok (c, false)
  waited worker (c, true) = worker c >>= (λ c₁. ok (c₁, is_working c₁.state))

  unfoldable pub client_connect :
      (Client J → Outcome (Client J)) → Connecting → Bool → Client J → Outcome (Client J × Bool)
  client_connect worker env request c =
      if request then connect env true none connected_cb c >>= waited worker else ok (c, false)

  -- `pc_client_connect2`, of which the request is the user's, and `pc_client_connect3`: they return when
  -- the worker thread was started. A client that reconnects copies the address of the request first.
  abbrev pub client_connect2 : Connecting → Bool → Client J → Outcome (Client J × Bool)
  client_connect2 env valid c =
      defined (not c.enable_reconnect || valid) (connect env valid none user_cb c)

  abbrev pub client_connect3 : Connecting → Bool → Client J → Outcome (Client J × Bool)
  client_connect3 env request c =
      if request then connect env true none connect3_cb c else ok (c, false)

  -- `pc_client_connect4`
  abbrev pub connect_to :
      Connecting → Bool → Option SockaddrIn → Client J → Outcome (Client J × Bool)
  connect_to env request none c = ok (c, false)
  connect_to env request (some addr) c = client_connect3 env request c

  unfoldable pub client_connect4 :
      Connecting → Bool → Option (List AddrInfo) → ℕ → Client J → Outcome (Client J × Bool)
  client_connect4 env request found port c = connect_to env request (dns_resolve found port) c

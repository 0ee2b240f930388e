-- ===== src/Client/Attempts.antt =====
-- The attempts of a client to connect again: src/client.c and src/network.c, as long as they
-- fail before the handshake request is sent.
use libpomelo.Client.{Client}
use libpomelo.Client.Connect.{reconnect_timer_cb}
use libpomelo.Common.{arith}
use libpomelo.Common.{arith}
use libpomelo.Client.Connect.{reconnect_timer_cb}
use libpomelo.Client.Retried.{Retried}

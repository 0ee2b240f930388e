-- ===== src/Client/Sample.antt =====
-- Clients in some of their states, for the runs.
use libpomelo.Common.{ℕ, Bool, true, false, none, some, [], ◌∷◌, replicate}
use libpomelo.HashMap.{Map}
use libpomelo.Package.{parser_init}
use libpomelo.Protobuf.Sample.{Value, values, built}
use libpomelo.Reconnect.{Backoff}
use libpomelo.Client.{
  inited, connecting, connected, working, tp_inited, tp_connecting, tp_working, tp_freed,
  connected_cb, Timer, idle, Request, sent, Client, put,
}
use libpomelo.Client.Connect.{Asking, Connecting, Writing}

abbrev pub plenty : ℕ → Bool
plenty n = true

abbrev pub dice : ℕ → ℕ
dice n = 5

abbrev pub timer : Timer
timer = record { active = false; repeat = 0 }

abbrev pub delays : Backoff
delays = record {
  reconnecting = false;
  reconnects = 0;
  reconnect_delay = 2;
  reconnect_delay_max = 30;
  enable_exp_backoff = false;
  max_reconnects_incr = 16;
}

abbrev pub no_requests : Map Request
no_requests = record { capacity = 256; buckets = replicate 256 [] }

-- As `pc_client_new` makes it, with the timers that are pointers.
abbrev pub new_client : Client Value
new_client = record {
  state = inited;
  transport = none;
  transports = λ i. tp_freed;
  next_transport = 0;
  conn_req = none;
  heartbeat = some 0;
  timeout = some 0;
  heartbeat_timer = some timer;
  timeout_timer = some timer;
  handshake_timer = some timer;
  reconnect_timer = idle;
  close_async = true;
  parser = parser_init;
  requests = no_requests;
  handshake_opts = none;
  route_to_code = none;
  code_to_route = none;
  server_protos = none;
  client_protos = none;
  proto_ver = none;
  proto_read_dir = none;
  proto_write_dir = none;
  files = λ path. none;
  enable_reconnect = false;
  backoff = delays;
  rands = 0;
  calls = [];
}

abbrev pub fine : Connecting
fine = record {
  connect_req = true;
  pointers = true;
  transport_memory = true;
  socket_memory = true;
  tcp_init = true;
  tcp_connect = true;
}

abbrev pub writes : Writing
writes = record { req = true; attach = true; write = true }

abbrev pub connecting_client : Client Value
connecting_client = record new_client {
  state = connecting;
  transports = put (put new_client.transports 0 tp_inited) 0 tp_connecting;
  next_transport = 1;
  conn_req = some connected_cb;
}

-- Its handshake is under way.
abbrev pub connected_client : Client Value
connected_client = record connecting_client {
  state = connected;
  transport = some 0;
  transports = put connecting_client.transports 0 tp_working;
  handshake_timer = some (record timer { active = true });
  calls = sent 1 ∷ [];
}

abbrev pub working_client : Client Value
working_client = record connected_client { state = working; conn_req = none }

-- A request whose text is one byte.
abbrev pub greeting : Asking Value
greeting = record {
  body = some built.object;
  sys = some built.object;
  get = values.object_get;
  put = λ v key w. built.put v key w;
  text = built.text_value;
  dumps = λ v. some (123 ∷ []);
  malloc = plenty;
}

-- ===== src/Peer/Ends.antt =====
-- The events that end the connection of a client.
use poplar.Prelude.{ℕ}
use poplar.Peer.{Peer, ClientInfo, client_connection_error, client_connection_break}
use poplar.Peer.Machine.{Handler, client_stop, client_error}
use poplar.Peer.WellFormed.{WellFormed}

-- pop_tcp_client_event_stop and pop_tcp_client_event_conection_error
pub data End : Type 0 where
  stopped failed : End

abbrev pub event_of : End → ℕ
event_of stopped = 2
event_of failed = 4

abbrev pub handler_of : End → Handler
handler_of stopped = client_stop
handler_of failed = client_error

-- What the peer's queue of information then holds.
abbrev pub info_of : End → ClientInfo
info_of stopped = client_connection_break
info_of failed = client_connection_error

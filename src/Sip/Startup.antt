-- ===== src/Sip/Startup.antt =====
-- internal/sip/server.go: what Start opens and Close closes.
pub mod Released
mod Tests
use sip_relay.Prelude.{Bool, true, false, not, ◌&&◌, ◌||◌, if◌then◌else◌}

-- A client, a server or a socket that the server may hold: its field is nil, or it is open or closed.
pub data Handle : Type 0 where
  unset opened shut : Handle

-- The handles of `Server`, and its flag `stopped`. The client of the call log stands for all of
-- `calllog.Clients`.
pub record Handles : Type 0 where
  pub call_log : Handle
  pub ua : Handle
  pub cli : Handle
  pub srv : Handle
  pub udp : Handle
  pub tcp : Handle
  pub stopped : Bool

abbrev pub no_handles : Handles
no_handles = record {
  call_log = Handle.unset;
  ua = Handle.unset;
  cli = Handle.unset;
  srv = Handle.unset;
  udp = Handle.unset;
  tcp = Handle.unset;
  stopped = false;
}

-- Which steps of `Start` succeed.
pub record Starting : Type 0 where
  pub clients_made : Bool
  pub ua_made : Bool
  pub cli_made : Bool
  pub srv_made : Bool
  pub resolved : Bool
  pub udp_listens : Bool
  pub tcp_listens : Bool

abbrev pub with_call_log : Bool → Handles → Handles
with_call_log made h = if made then record h { call_log = Handle.opened } else h

abbrev pub with_ua : Handles → Handles
with_ua h = record h { ua = Handle.opened }

abbrev pub with_cli : Handles → Handles
with_cli h = record h { cli = Handle.opened }

abbrev pub with_srv : Handles → Handles
with_srv h = record h { srv = Handle.opened }

abbrev pub with_udp : Handle → Handles → Handles
with_udp state h = record h { udp = state }

abbrev pub with_tcp : Handles → Handles
with_tcp h = record h { tcp = Handle.opened }

-- The listeners of `Start`. If the TCP port cannot be had, the UDP socket is closed, and its field stays.
abbrev pub listen : Starting → Handles → Handles × Bool
listen a h =
    if not a.resolved
    then (h, false)
    else if not a.udp_listens
    then (h, false)
    else if not a.tcp_listens
    then (with_udp Handle.shut h, false)
    else (with_tcp (with_udp Handle.opened h), true)

-- `Start`, and whether it returns nil.
unfoldable pub start_server : Starting → Handles → Handles × Bool
start_server a h0 =
    let h1 = with_call_log a.clients_made h0 in
    if not a.ua_made
    then (h1, false)
    else let h2 = with_ua h1 in
      if not a.cli_made
      then (h2, false)
      else let h3 = with_cli h2 in if not a.srv_made then (h3, false) else listen a (with_srv h3)

-- A close of a handle whose field is not nil.
abbrev pub close_handle : Handle → Handle
close_handle Handle.unset = Handle.unset
close_handle Handle.opened = Handle.shut
close_handle Handle.shut = Handle.shut

-- `Server.Close`, apart from the calls
unfoldable pub close_handles : Handles → Handles
close_handles h = if h.stopped then h else (record h {
  stopped = true;
  udp = close_handle h.udp;
  tcp = close_handle h.tcp;
  srv = close_handle h.srv;
  cli = close_handle h.cli;
  ua = close_handle h.ua;
  call_log = close_handle h.call_log;
})

-- ===== src/Sip/Startup/Tests.antt =====
-- A server whose TCP port is taken.
use sip_relay.Prelude.{◌≡◌, refl, true, false}
use sip_relay.Sip.Startup.{Handle, no_handles, Starting, start_server}

abbrev taken : Starting
taken = record {
  clients_made = false;
  ua_made = true;
  cli_made = true;
  srv_made = true;
  resolved = true;
  udp_listens = true;
  tcp_listens = false;
}

taken_port_closed :
    let r = start_server taken no_handles in
    (r.1 ≡ false) × (r.0.udp ≡ Handle.shut) × (r.0.tcp ≡ Handle.unset)
unfolding start_server
taken_port_closed = (refl, refl, refl)

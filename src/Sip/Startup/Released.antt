-- ===== src/Sip/Startup/Released.antt =====
-- internal/sip/server.go: what is open after Start, and after Close.
use sip_relay.Prelude.{◌≡◌, ◌≢◌, refl, Bool, true, false, ◌&&◌, arith}
use sip_relay.Sip.Startup.{
  Handle, Handles, no_handles, Starting, start_server, close_handle, close_handles,
}

-- Nothing is open.
pub record AllReleased (h : Handles) : Type 0 where
  pub no_call_log : h.call_log ≢ Handle.opened
  pub no_ua : h.ua ≢ Handle.opened
  pub no_cli : h.cli ≢ Handle.opened
  pub no_srv : h.srv ≢ Handle.opened
  pub no_udp : h.udp ≢ Handle.opened
  pub no_tcp : h.tcp ≢ Handle.opened

-- Every step that `Start` needs succeeds; the call log is not one of them.
abbrev pub is_ready : Starting → Bool
is_ready a =
    a.ua_made && (a.cli_made && (a.srv_made && (a.resolved && (a.udp_listens && a.tcp_listens))))

close_handle-shut : (h : Handle) → close_handle h ≢ Handle.opened
close_handle-shut Handle.unset = λ e. cc
close_handle-shut Handle.opened = λ e. cc
close_handle-shut Handle.shut = λ e. cc

close_handles-AllReleased : (h : Handles) → h.stopped ≡ false → AllReleased (close_handles h)
unfolding close_handles
close_handles-AllReleased h e = rw e (record {
  no_call_log = close_handle-shut h.call_log;
  no_ua = close_handle-shut h.ua;
  no_cli = close_handle-shut h.cli;
  no_srv = close_handle-shut h.srv;
  no_udp = close_handle-shut h.udp;
  no_tcp = close_handle-shut h.tcp;
})

close_handles-again :
    (h : Handles) → h.stopped ≡ false → close_handles (close_handles h) ≡ close_handles h
unfolding close_handles
close_handles-again h e = rw e refl

start_server-stopped : (a : Starting) (h : Handles) → (start_server a h).0.stopped ≡ h.stopped
unfolding start_server
start_server-stopped a h = ground arith

start_server-ready : (a : Starting) (h : Handles) → (start_server a h).1 ≡ is_ready a
unfolding start_server
start_server-ready a h = ground arith

start_server-sockets :
    (a : Starting)
    → (start_server a no_handles).1 ≡ false
    → ((start_server a no_handles).0.udp ≢ Handle.opened)
      × ((start_server a no_handles).0.tcp ≢ Handle.opened)
unfolding start_server
start_server-sockets a h = ground arith

start_server-listens :
    (a : Starting)
    → (start_server a no_handles).1 ≡ true
    → ((start_server a no_handles).0.udp ≡ Handle.opened)
      × ((start_server a no_handles).0.tcp ≡ Handle.opened)
unfolding start_server
start_server-listens a h = ground arith

-- Start of a new server succeeds exactly when every step but that of the call log does, and then both
-- sockets are open; if it fails, at whichever step, neither is. In either case Close then leaves nothing
-- open, and a second Close changes nothing.
pub start_server-released :
    (a : Starting)
    → let r = start_server a no_handles in
      let closed = close_handles r.0 in
      (r.1 ≡ is_ready a)
      × (r.1 ≡ true → (r.0.udp ≡ Handle.opened) × (r.0.tcp ≡ Handle.opened))
      × (r.1 ≡ false → (r.0.udp ≢ Handle.opened) × (r.0.tcp ≢ Handle.opened))
      × AllReleased closed
      × (close_handles closed ≡ closed)
start_server-released a =
    let h = (start_server a no_handles).0 in
    (
      start_server-ready a no_handles,
      start_server-listens a,
      start_server-sockets a,
      close_handles-AllReleased h (start_server-stopped a no_handles),
      close_handles-again h (start_server-stopped a no_handles),
    )

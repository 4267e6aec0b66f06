-- ===== src/Websocket/Connect/Tests.antt =====
-- A backend that has one session, on a small network.
use Prim.Native.String.{◌++◌ as str_append}
use text.Mathlib.Text.{◌==◌ as str_eq}
use sip_relay.Prelude.{
  ℕ, ◌≡◌, refl, inl, inr, true, false, none, some, List, [], ◌∷◌, arith, if◌then◌else◌,
}
use sip_relay.Prelude.Int.{ℤ, pos}
use sip_relay.Config.{WebSocketConfig}
use sip_relay.Audio.{new_decoder, decode_all, decode, pairs, encode_mulaw}
use sip_relay.Audio.Resample.{new_resampler}
use sip_relay.Audio.Resample.Whole.{IsResampled}
use sip_relay.Audio.Resample.Chunking.{filtered_by}
use sip_relay.Audio.Transcode.{telephony_rate}
use sip_relay.Audio.Transcode.Tests.{toy, down_exact}
use sip_relay.Websocket.{WireEvent, Stream, Frame, Emit, kind_of, recv_loop}
use sip_relay.Websocket.Connect.{First, Net, Refusal, Transcoder, new_stream, dial_websocket}
use sip_relay.Websocket.Connect.Playback.{binaries, audio_of, transcode_frame, recv_loop-whole}
use sip_relay.Websocket.Connect.Ready.{HoldsConn, IsDialed, dial_websocket-IsDialed}

abbrev conf : WebSocketConfig
conf = record {
  base_url = "http://b";
  session_timeout = pos 5;
  connect_timeout = pos 5;
  max_message_bytes = pos 1000;
  transcode = record {
    input = record { enabled = false; sample_rate = pos 0 };
    output = record { enabled = false; sample_rate = pos 0 };
  };
}

abbrev ready : WireEvent
ready = record { type = "ready"; session_id = "id1"; text = []; delta = [] }

-- A network on which the socket says this first.
abbrev net : First → Net
net first = record {
  parse_url =
      λ s. some (record { scheme = "http"; host = "b"; path = s; raw_query = ""; fragment = "" });
  print_url = λ u. str_append u.scheme u.path;
  path_escape = λ s. s;
  new_request = λ s. true;
  post = λ s.
      if str_eq s "http/api/v1/telephony/session"
      then some (record { status = 200; session_id = some "id1" })
      else none;
  is_uuid = λ s. str_eq s "id1";
  dial = λ s. if str_eq s "wshttp/api/v1/telephony/ws/id1" then some first else none;
}

dial_websocket-IsDialed_example :
    let d = dial_websocket toy (net (First.message (some ready))) conf in
    HoldsConn d
    × ((s : Stream (Transcoder ℕ))
        → d.result ≡ inr s
        → IsDialed toy (net (First.message (some ready))) conf d s)
dial_websocket-IsDialed_example =
    dial_websocket-IsDialed toy (net (First.message (some ready))) conf

connected :
    (dial_websocket toy (net (First.message (some ready))) conf).result ≡ inr (new_stream toy conf)
unfolding dial_websocket
connected = refl

wrong_session :
    (dial_websocket toy
      (net (First.message (some (record ready { session_id = "id2" }))))
      conf).result
    ≡ inl Refusal.not_ready
unfolding dial_websocket
wrong_session = refl

untyped :
    (dial_websocket toy
      (net (First.message (some (record ready { type = "" }))))
      conf).conn.conn_open
    ≡ false
unfolding dial_websocket
untyped = refl

-- A backend that speaks 24 kHz.
abbrev speaking : WebSocketConfig
speaking = record conf {
  transcode = record {
    input = record { enabled = false; sample_rate = pos 0 };
    output = record { enabled = true; sample_rate = pos 24000 };
  };
}

abbrev says : WireEvent
says = record { type = "bot_transcript"; session_id = ""; text = []; delta = 72 ∷ [] }

-- Nine samples, cut in the middle of the second, with a transcript between.
abbrev spoken : List Frame
spoken =
    Frame.binary_frame (1 ∷ 0 ∷ 2 ∷ []) Emit.taken
    ∷ Frame.text_frame (some says) Emit.taken
    ∷ Frame.binary_frame (0 ∷ 3 ∷ 0 ∷ 4 ∷ 0 ∷ 5 ∷ 0 ∷ 6 ∷ 0 ∷ 7 ∷ 0 ∷ 8 ∷ 0 ∷ 9 ∷ 0 ∷ []) Emit.taken
    ∷ []

recv_loop-whole_example :
    let r = recv_loop (transcode_frame toy 9) spoken (new_stream toy speaking) in
    (out : List ℤ) × (r.1 ≡ true)
    × (audio_of r.0.emitted ≡ encode_mulaw [] out)
    × IsResampled toy down_exact
        (filtered_by toy
          (new_resampler toy (pos 24000) telephony_rate).lp
          (decode_all new_decoder [] (binaries spoken)).1)
        out
unfolding new_resampler decode_all decode pairs kind_of
recv_loop-whole_example =
    recv_loop-whole toy 9 speaking down_exact spoken refl (refl, (refl, refl, (refl, tt)))
      (omega arith)

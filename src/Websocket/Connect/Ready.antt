-- ===== src/Websocket/Connect/Ready.antt =====
-- internal/websocket/stream.go: what a dial leaves, and what stands behind a stream.
use Prim.Native.String.{String, ◌++◌ as str_append}
use text.Mathlib.Text.{◌==◌ as str_eq}
use text.Mathlib.TextEquality.{eq_iff}
use sip_relay.Prelude.{
  ◌≡◌, refl, sym, ap, ◌∙◌, inl, inr, Bool, true, false, Option, none, some, ◌==◌, ==_iff,
  Bool-cases, if◌then◌else◌,
}
use sip_relay.Config.{Url, WebSocketConfig, is_empty}
use sip_relay.Audio.Float.{Float}
use sip_relay.Websocket.{WireEvent, Stream}
use sip_relay.Websocket.Connect.{
  session_path, websocket_path, First, Response, Net, Refusal, endpoint_url, print_at, Result,
  ◌>>=◌, ◌>>◌, guard, need, create_session, decode_event, websocket_url, Dialed, Transcoder,
  new_stream, dialed_at, on_event, on_first, on_dial, on_url, connect, on_session, dial_websocket,
}

-- The connection is open exactly if there is a stream.
abbrev pub HoldsConn : {T : Type 0} → Dialed T → Type 0
HoldsConn d = elim d.result [ inl e ↦ d.conn.conn_open ≡ false | inr s ↦ d.conn.conn_open ≡ true ]

-- What a success of a chain comes from.
module _ {A : Type 0} where
  bind-inr :
      {B : Type 0} (m : Result A) (f : A → Result B) (b : B)
      → (m >>= f) ≡ inr b
      → (a : A) × (m ≡ inr a) × (f a ≡ inr b)
  bind-inr (inl e) f b h = cc
  bind-inr (inr a) f b h = (a, refl, h)

  need-bind :
      {B : Type 0} (o : Option A) (e : Refusal) (f : A → Result B) (b : B)
      → (need o e >>= f) ≡ inr b
      → (a : A) × (o ≡ some a) × (f a ≡ inr b)
  need-bind none e f b h = cc
  need-bind (some a) e f b h = (a, refl, h)

guard-bind :
    {B : Type 0} (c : Bool) (e : Refusal) (k : Result B) (b : B)
    → (guard c e >> k) ≡ inr b
    → (c ≡ true) × (k ≡ inr b)
guard-bind true e k b h = (refl, h)
guard-bind false e k b h = cc

guard-inr : (c : Bool) (e : Refusal) (t : Unit {0}) → guard c e ≡ inr t → c ≡ true
guard-inr true e t h = refl
guard-inr false e t h = cc

-- A URL with another path, and no query or fragment.
abbrev pub placed : String → Url → Url
placed path u = record {
  scheme = u.scheme;
  host = u.host;
  path = path;
  raw_query = "";
  fragment = "";
}

-- What an endpoint is made of.
endpoint_url-placed :
    (net : Net) (base_url path : String) (raw : String)
    → endpoint_url net base_url path ≡ some raw
    → (base : Url) × (net.parse_url base_url ≡ some base) × (raw ≡ net.print_url (placed path base))
unfolding endpoint_url
endpoint_url-placed net base_url path raw h = printed (net.parse_url base_url) refl h
  where
    printed :
        (o : Option Url)
        → net.parse_url base_url ≡ o
        → print_at net path o ≡ some raw
        → (base : Url) × (net.parse_url base_url ≡ some base)
          × (raw ≡ net.print_url (placed path base))
    printed none e h = cc
    printed (some base) e h = (base, e, cc)

-- What stands behind a session ID.
pub record IsSession (net : Net) (conf : WebSocketConfig) (session_id : String) : Type 0 where
  pub endpoint : String
  pub response : Response
  pub base : Url
  pub base_parsed : net.parse_url conf.base_url ≡ some base
  pub endpoint_of_base : endpoint ≡ net.print_url (placed "/api/v1/telephony/session" base)
  pub posted : net.post endpoint ≡ some response
  pub ok_status : response.status ≡ 200
  pub in_body : response.session_id ≡ some session_id
  pub uuid : net.is_uuid session_id ≡ true

create_session-IsSession :
    (net : Net) (conf : WebSocketConfig) (session_id : String)
    → create_session net conf ≡ inr session_id
    → IsSession net conf session_id
unfolding create_session
create_session-IsSession net conf session_id h =
    let (endpoint, e, h1) =
      need-bind (endpoint_url net conf.base_url session_path) Refusal.bad_url _ session_id h in
    let (made, h2) = guard-bind (net.new_request endpoint) Refusal.bad_request _ session_id h1 in
    let (response, p, h3) = need-bind (net.post endpoint) Refusal.no_response _ session_id h2 in
    let (status, h4) = guard-bind (response.status == 200) Refusal.bad_status _ session_id h3 in
    let (id, body, h5) = need-bind response.session_id Refusal.bad_body _ session_id h4 in
    let (uuid, h6) = guard-bind (net.is_uuid id) Refusal.bad_session_id _ session_id h5 in
    let same : id ≡ session_id = cc in
    let (base, parsed, at) = endpoint_url-placed net conf.base_url session_path endpoint e in
    record {
      endpoint = endpoint;
      base = base;
      base_parsed = parsed;
      response = response;
      endpoint_of_base = at;
      posted = p;
      ok_status = (==_iff response.status 200).0 status;
      in_body = body ∙ ap some same;
      uuid = ap net.is_uuid (sym same) ∙ uuid;
    }

-- A first message that `connect` takes: the ready event of the session.
abbrev pub IsReady : String → First → Type 0
IsReady session_id first =
    (e : WireEvent) × (first ≡ First.message (some e))
    × (e.type ≡ "ready")
    × (e.session_id ≡ session_id)

-- The URL of a session: the WebSocket path below the base, with the scheme ws for http, and else wss.
pub record IsSessionUrl (net : Net) (conf : WebSocketConfig) (session_id : String) (url : Url)
    : Type 0 where
  pub base : Url
  pub reread : Url
  pub base_parsed : net.parse_url conf.base_url ≡ some base
  pub path_of_session :
      net.parse_url (
        net.print_url
          (placed (str_append "/api/v1/telephony/ws/" (net.path_escape session_id)) base))
      ≡ some reread
  pub socket_scheme :
      url ≡ record reread { scheme = if str_eq reread.scheme "http" then "ws" else "wss" }

websocket_url-IsSessionUrl :
    (net : Net) (conf : WebSocketConfig) (session_id : String) (url : Url)
    → websocket_url net conf session_id ≡ inr url
    → IsSessionUrl net conf session_id url
unfolding websocket_url
websocket_url-IsSessionUrl net conf session_id url h =
    let path = str_append websocket_path (net.path_escape session_id) in
    let (raw, e, h1) = need-bind (endpoint_url net conf.base_url path) Refusal.bad_url _ url h in
    let (reread, p, h2) = need-bind (net.parse_url raw) Refusal.bad_url _ url h1 in
    let (base, parsed, at) = endpoint_url-placed net conf.base_url path raw e in
    record {
      base = base;
      reread = reread;
      base_parsed = parsed;
      path_of_session = ap net.parse_url (sym at) ∙ p;
      socket_scheme = cc;
    }

module _ {F : Type 0} (float : Float F) where
  -- What stands behind a stream.
  pub record IsDialed (net : Net) (conf : WebSocketConfig) (d : Dialed (Transcoder F))
      (s : Stream (Transcoder F)) : Type 0 where
    pub session_id : String
    pub session : IsSession net conf session_id
    pub url : Url
    pub url_of_session : IsSessionUrl net conf session_id url
    pub dialed_there : d.conn.dialed ≡ some url
    pub first : First
    pub answered : net.dial (net.print_url url) ≡ some first
    pub ready : IsReady session_id first
    pub fresh : s ≡ new_stream float conf

  -- What holds of a dial that has got this far.
  abbrev Leaves : Net → WebSocketConfig → Dialed (Transcoder F) → Type 0
  Leaves net conf d =
      HoldsConn d × ((s : Stream (Transcoder F)) → d.result ≡ inr s → IsDialed net conf d s)

  module _ (net : Net) (conf : WebSocketConfig) (session_id : String)
      (v : IsSession net conf session_id) where
    event-Leaves :
        (u : Url) (first : First) (o : Option WireEvent)
        → IsSessionUrl net conf session_id u
        → net.dial (net.print_url u) ≡ some first
        → ((e : WireEvent) → o ≡ some e → first ≡ First.message (some e))
        → Leaves net conf (on_event float conf session_id (dialed_at float u) o)
    event-Leaves u first none url answer h = (refl, λ s r. cc)
    event-Leaves u first (some e) url answer h = elim (Bool-cases (str_eq e.type "error")) [
      | inl bad ↦ rw bad (refl, λ s r. cc)
      | inr fine ↦ rw fine (elim (Bool-cases (str_eq e.type "ready")) [
        | inr other ↦ rw other (refl, λ s r. cc)
        | inl ready ↦ rw ready (elim (Bool-cases (str_eq e.session_id session_id)) [
          | inr foreign ↦ rw foreign (refl, λ s r. cc)
          | inl same ↦ rw same (
            refl,
            λ s r. record {
              session_id = session_id;
              session = v;
              url = u;
              url_of_session = url;
              dialed_there = refl;
              first = first;
              answered = answer;
              ready = (
                e,
                h e refl,
                (eq_iff e.type "ready").0 ready,
                (eq_iff e.session_id session_id).0 same,
              );
              fresh = cc;
            },
          )
        ])
      ])
    ]

    decoded :
        (m : Option WireEvent) (e : WireEvent)
        → decode_event m ≡ some e
        → First.message m ≡ First.message (some e)
    unfolding decode_event
    decoded none e h = cc
    decoded (some a) e h = elim (Bool-cases (is_empty a.type)) [
      | inl empty ↦ let wrong : none ≡ some e = rw empty at h in cc wrong
      | inr typed ↦ let same : some a ≡ some e = rw typed at h in ap First.message same
    ]

    first-Leaves :
        (u : Url) (first : First)
        → IsSessionUrl net conf session_id u
        → net.dial (net.print_url u) ≡ some first
        → Leaves net conf (on_first float conf session_id (dialed_at float u) first)
    unfolding on_first
    first-Leaves u First.failed url answer = (refl, λ s r. cc)
    first-Leaves u First.other url answer = (refl, λ s r. cc)
    first-Leaves u (First.message m) url answer =
        event-Leaves u (First.message m) (decode_event m) url answer (decoded m)

    on_dial-Leaves :
        (u : Url) (o : Option First)
        → IsSessionUrl net conf session_id u
        → net.dial (net.print_url u) ≡ o
        → Leaves net conf (on_dial float conf session_id u o)
    on_dial-Leaves u none url answer = (refl, λ s r. cc)
    on_dial-Leaves u (some first) url answer = first-Leaves u first url answer

    on_url-Leaves :
        (m : Result Url)
        → websocket_url net conf session_id ≡ m
        → Leaves net conf (on_url float net conf session_id m)
    on_url-Leaves (inl e) h = (refl, λ s r. cc)
    on_url-Leaves (inr u) h =
        on_dial-Leaves u (net.dial (net.print_url u))
          (websocket_url-IsSessionUrl net conf session_id u h) refl

  on_session-Leaves :
      (net : Net) (conf : WebSocketConfig) (m : Result String)
      → create_session net conf ≡ m
      → Leaves net conf (on_session float net conf m)
  unfolding connect
  on_session-Leaves net conf (inl e) h = (refl, λ s r. cc)
  on_session-Leaves net conf (inr session_id) h =
      on_url-Leaves net conf session_id (create_session-IsSession net conf session_id h)
        (websocket_url net conf session_id) refl

  -- A dial that returns an error leaves no connection open, whatever failed. A dial that returns a stream
  -- leaves its connection open, and then the POST to /api/v1/telephony/session below the base URL was
  -- answered with 200 and a session ID that is a UUID, the WebSocket was dialed at the base URL's
  -- /api/v1/telephony/ws/ with that ID, escaped, as ws for http and else as wss, and its first message was
  -- the ready event of that session; nothing has passed through the stream yet.
  pub dial_websocket-IsDialed :
      (net : Net) (conf : WebSocketConfig)
      → let d = dial_websocket float net conf in
        HoldsConn d × ((s : Stream (Transcoder F)) → d.result ≡ inr s → IsDialed net conf d s)
  unfolding dial_websocket
  dial_websocket-IsDialed net conf = on_session-Leaves net conf (create_session net conf) refl

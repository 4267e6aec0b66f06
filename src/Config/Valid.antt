-- ===== src/Config/Valid.antt =====
-- internal/config/config.go: what a configuration that validates offers the code that reads it.
use Prim.Native.String.{String}
use text.Mathlib.Text.{◌==◌ as str_eq}
use text.Mathlib.TextEquality.{eq_iff}
use sip_relay.Prelude.{
  ℕ, ◌≤◌, ◌<◌, ◌≡◌, ◌≢◌, refl, sym, subst, ◌⊎◌, inl, inr, Bool, true, false, Option, none, some,
  List, [], ◌∷◌, ◌||◌, not, arith, Bool-cases, Option-cases,
}
use sip_relay.Prelude.Int.{ℤ, pos, negsuc, leb_ℤ, ltb_ℤ}
use sip_relay.Prelude.Maps.{lookup}
use sip_relay.Config.{
  Parsers, Config, ConfigError, CesConfig, WebSocketConfig, ExtensionConfig, Loaded,
  resolve_profile, route_of, fails_if, ◌orelse◌, is_empty, validate_ces, validate_websocket,
  validate_ces_profile, validate_websocket_profile, validate_route, validate_extensions, validate,
  load, apply_defaults,
}

-- The profile that a route names exists under its backend, and is valid.
abbrev pub IsRouted : Parsers → Config → ExtensionConfig → Type 0
IsRouted ps c route =
    ((route.backend ≡ "ces")
      × ((profile : CesConfig) × (lookup (resolve_profile route) c.ces ≡ some profile)
          × (validate_ces profile ≡ none)))
    ⊎ ((route.backend ≡ "websocket")
        × ((profile : WebSocketConfig) × (lookup (resolve_profile route) c.websocket ≡ some profile)
            × (validate_websocket ps profile ≡ none)))

orelse-none : (a b : Option ConfigError) → (a orelse b) ≡ none → (a ≡ none) × (b ≡ none)
orelse-none none b h = (refl, h)
orelse-none (some e) b h = cc

fails_if-none : (b : Bool) (e : ConfigError) → fails_if b e ≡ none → b ≡ false
fails_if-none true e h = cc
fails_if-none false e h = refl

ces_found :
    (o : Option CesConfig)
    → validate_ces_profile o ≡ none
    → (profile : CesConfig) × (o ≡ some profile) × (validate_ces profile ≡ none)
unfolding validate_ces_profile
ces_found none h = cc
ces_found (some c) h = (c, refl, h)

websocket_found :
    (ps : Parsers) (o : Option WebSocketConfig)
    → validate_websocket_profile ps o ≡ none
    → (profile : WebSocketConfig) × (o ≡ some profile) × (validate_websocket ps profile ≡ none)
unfolding validate_websocket_profile
websocket_found ps none h = cc
websocket_found ps (some c) h = (c, refl, h)

validate_route_lem :
    (ps : Parsers) (c : Config) (route : ExtensionConfig)
    → validate_route ps c route ≡ none
    → IsRouted ps c route
unfolding validate_route
validate_route_lem ps c route h = elim (Bool-cases (str_eq route.backend "ces")) [
  | inl e ↦ inl ((eq_iff _ _).0 e, ces_found (lookup (resolve_profile route) c.ces) (rw e at h))
  | inr e ↦ elim (Bool-cases (str_eq route.backend "websocket")) [
    | inl w ↦ inr (
      (eq_iff _ _).0 w,
      websocket_found ps (lookup (resolve_profile route) c.websocket) (rw (e, w) at h),
    )
    | inr w ↦ let bad : some ConfigError.backend_name ≡ none = rw (e, w) at h in cc
  ]
]

validate_extensions_lem :
    (ps : Parsers) (c : Config) (extensions : List (String × ExtensionConfig)) (extension : String)
    {route : ExtensionConfig}
    → validate_extensions ps c extensions ≡ none
    → lookup extension extensions ≡ some route
    → IsRouted ps c route
unfolding validate_extensions
validate_extensions_lem ps c [] extension h l = cc
validate_extensions_lem ps c ((k, r) ∷ rest) extension {route} h l =
    let (_, h') = orelse-none (fails_if (is_empty k) ConfigError.empty_extension) _ h in
    let (here, later) = orelse-none (validate_route ps c r) _ h' in
    elim (Bool-cases (str_eq k extension)) [
      | inl e ↦
          let found : some r ≡ some route = rw e at l in
          let same : r ≡ route = cc found in
          subst (IsRouted ps c) same (validate_route_lem ps c r here)
      | inr e ↦ validate_extensions_lem ps c rest extension later (rw e at l)
    ]

-- What the relay relies on when it runs under a configuration.
pub record IsUsable (ps : Parsers) (c : Config) : Type 0 where
  pub sip_port : (n : ℕ) × (c.sip.listen_port ≡ pos n) × (0 < n) × (n ≤ 65535)
  pub media_addr : ps.is_addr c.sip.advertised_ip ≡ true
  pub rtp_addr : ps.is_addr c.rtp.listen_ip ≡ true
  pub rtp_ports :
      (low : ℕ) × (high : ℕ) × (c.rtp.port_min ≡ pos low)
      × (c.rtp.port_max ≡ pos high)
      × (0 < low)
      × (low ≤ high)
      × (high ≤ 65535)
  pub initial_timeout : (n : ℕ) × (c.rtp.media_timeout_initial ≡ pos n) × (0 < n)
  pub timeout : (n : ℕ) × (c.rtp.media_timeout ≡ pos n) × (0 < n)
  pub routes :
      (extension : String) (route : ExtensionConfig)
      → route_of c extension ≡ some route
      → IsRouted ps c route

positive : (n : ℤ) → leb_ℤ n (pos 0) ≡ false → (k : ℕ) × (n ≡ pos k) × (0 < k)
positive (pos k) h = (k, refl, ground arith)
positive (negsuc k) h = absurd (ground arith)

||-false : (a b : Bool) → (a || b) ≡ false → (a ≡ false) × (b ≡ false)
||-false a b h = ground arith

not-false : (b : Bool) → not b ≡ false → b ≡ true
not-false b h = ground arith

in_range :
    (n : ℤ)
    → (leb_ℤ n (pos 0) || ltb_ℤ (pos 65535) n) ≡ false
    → (k : ℕ) × (n ≡ pos k) × (0 < k) × (k ≤ 65535)
in_range (pos k) h = (k, refl, ground arith, ground arith)
in_range (negsuc k) h = absurd (ground arith)

ports_in_range :
    (a b : ℤ)
    → (leb_ℤ a (pos 0) || ltb_ℤ b a || ltb_ℤ (pos 65535) b) ≡ false
    → (low : ℕ) × (high : ℕ) × (a ≡ pos low)
      × (b ≡ pos high)
      × (0 < low)
      × (low ≤ high)
      × (high ≤ 65535)
ports_in_range (pos a) (pos b) h = (a, b, refl, refl, ground arith, ground arith, ground arith)
ports_in_range (pos a) (negsuc b) h = absurd (ground arith)
ports_in_range (negsuc a) b h = absurd (ground arith)

-- A configuration that validates has a SIP port between 1 and 65535, addresses that parse, a range of
-- RTP ports between 1 and 65535 that is not empty, positive media timeouts, and, for each extension, a
-- profile that exists under the backend of its route and is valid itself.
pub validate-IsUsable : (ps : Parsers) (c : Config) → validate ps c ≡ none → IsUsable ps c
unfolding validate route_of
validate-IsUsable ps c h0 =
    let (port, h1) = orelse-none _ _ h0 in
    let (addr, h2) = orelse-none _ _ h1 in
    let (rtp, h3) = orelse-none _ _ h2 in
    let (ports, h4) = orelse-none _ _ h3 in
    let (times, h5) = orelse-none _ _ h4 in
    let (_, h6) = orelse-none _ _ h5 in
    let (routes, _) = orelse-none (validate_extensions ps c c.extensions) _ h6 in
    let (initial, media) = ||-false _ _ (fails_if-none _ _ times) in
    record {
      sip_port = in_range _ (fails_if-none _ _ port);
      media_addr = not-false _ (fails_if-none _ _ addr);
      rtp_addr = not-false _ (fails_if-none _ _ rtp);
      rtp_ports = ports_in_range _ _ (fails_if-none _ _ ports);
      initial_timeout = positive _ initial;
      timeout = positive _ media;
      routes = λ extension route l. validate_extensions_lem ps c c.extensions extension routes l;
    }

load_valid :
    (ps : Parsers) (path : String) (d : Config) {c : Config}
    → load ps path (some d) ≡ Loaded.loaded c
    → (validate ps c ≡ none) × (c ≡ apply_defaults d)
unfolding load
load_valid ps path d {c} h = elim (Bool-cases (is_empty path)) [
  | inl e ↦
      let bad : Loaded.rejected ConfigError.no_path ≡ Loaded.loaded c = rw (e, load) at h in cc bad
  | inr e ↦ elim (Option-cases (validate ps (apply_defaults d))) [
    | inl v ↦
        let good : Loaded.loaded (apply_defaults d) ≡ Loaded.loaded c = rw (e, v, load) at h in
        let same : apply_defaults d ≡ c = cc good in
        (subst (λ x. validate ps x ≡ none) same v, sym same)
    | inr (x, v) ↦ let bad : Loaded.rejected x ≡ Loaded.loaded c = rw (e, v, load) at h in cc bad
  ]
]

unread : (ps : Parsers) (path : String) {c : Config} → load ps path none ≢ Loaded.loaded c
unfolding load
unread ps path h = ground arith

-- What Load returns is usable, and is the decoded file with the defaults of its profiles filled in.
pub load-IsUsable :
    (ps : Parsers) (path : String) (decoded : Option Config) {c : Config}
    → load ps path decoded ≡ Loaded.loaded c
    → IsUsable ps c × ((d : Config) × (decoded ≡ some d) × (c ≡ apply_defaults d))
load-IsUsable ps path none h = absurd (unread ps path h)
load-IsUsable ps path (some d) {c} h =
    let (valid, same) = load_valid ps path d h in (validate-IsUsable ps c valid, (d, refl, same))

-- ===== src/Config/Minimal.antt =====
-- internal/config/config.go: a file that says no more than it must.
use Prim.Native.String.{String}
use text.Mathlib.Text.{◌==◌ as str_eq}
use sip_relay.Prelude.{
  ◌≡◌, refl, sym, ap, ◌∙◌, inl, inr, true, false, Option, none, some, List, [], ◌∷◌, if◌then◌else◌,
  Bool-cases,
}
use sip_relay.Config.{
  ◌orelse◌, is_empty, Parsers, Config, CesConfig, WebSocketConfig, ExtensionConfig, ConfigError,
  validate_extensions, validate, validate_route, apply_ces_defaults, map_values, default_config,
  apply_defaults, Loaded, load, validate_ces, validate_ces_profile, resolve_profile,
}
use text.Mathlib.TextEquality.{eq_iff}
use sip_relay.Prelude.Maps.{lookup}

-- What the decoder makes of a file that gives extensions and profiles only.
abbrev pub minimal :
    List (String × CesConfig)
    → List (String × WebSocketConfig)
    → List (String × ExtensionConfig)
    → Config
minimal ces websocket extensions = record default_config {
  ces = ces;
  websocket = websocket;
  extensions = extensions;
}

-- The two addresses of the defaults parse.
abbrev pub KnowsDefaults : Parsers → Type 0
KnowsDefaults ps = (ps.is_addr "127.0.0.1" ≡ true) × (ps.is_addr "0.0.0.0" ≡ true)

orelse-nil : (o : Option ConfigError) → (o orelse none) ≡ o
orelse-nil none = refl
orelse-nil (some e) = refl

minimal_valid :
    (ps : Parsers) (ces : List (String × CesConfig)) (websocket : List (String × WebSocketConfig))
    (e : String × ExtensionConfig) (es : List (String × ExtensionConfig))
    → KnowsDefaults ps
    → let c = apply_defaults (minimal ces websocket (e ∷ es)) in
      validate ps c ≡ validate_extensions ps c (e ∷ es)
unfolding validate apply_defaults default_config
minimal_valid ps ces websocket e es h = rw (h.0, h.1) (orelse-nil _)

-- An extension on CES, whose profile names a project and an app.
abbrev pub IsCesRoute : List (String × CesConfig) → String × ExtensionConfig → Type 0
IsCesRoute ces (extension, route) =
    (is_empty extension ≡ false)
    × (route.backend ≡ "ces")
    × ((c : CesConfig) × (lookup (resolve_profile route) ces ≡ some c)
        × (is_empty c.project_id ≡ false)
        × (is_empty c.app_id ≡ false))

abbrev pub AllCesRoutes : List (String × CesConfig) → List (String × ExtensionConfig) → Type 0
AllCesRoutes ces [] = Unit
AllCesRoutes ces (e ∷ es) = IsCesRoute ces e × AllCesRoutes ces es

lookup-map_values :
    {V : Type 0} (f : V → V) (k : String) (m : List (String × V)) (v : V)
    → lookup k m ≡ some v
    → lookup k (map_values f m) ≡ some (f v)
unfolding map_values
lookup-map_values f k [] v h = cc
lookup-map_values f k ((j, w) ∷ m) v h = elim (Bool-cases (str_eq j k)) [
  | inl e ↦
      let same : some w ≡ some v = sym (ap (λ b. if b then some w else lookup k m) e) ∙ h in
      rw e (ap some (ap f (some-injective w v same)))
  | inr e ↦
      let later : lookup k m ≡ some v = sym (ap (λ b. if b then some w else lookup k m) e) ∙ h in
      rw e (lookup-map_values f k m v later)
]
  where
    some-injective : {V : Type 0} (a b : V) → some a ≡ some b → a ≡ b
    some-injective a b h = cc

located : (s : String) → is_empty (if is_empty s then "us" else s) ≡ false
located s = elim (Bool-cases (is_empty s)) [ inl e ↦ rw e refl | inr e ↦ rw e e ]

defaults-ces : (c : Config) → (apply_defaults c).ces ≡ map_values apply_ces_defaults c.ces
unfolding apply_defaults
defaults-ces c = refl

-- The defaults fill in what validation asks for besides.
default_ces_valid :
    (c : CesConfig)
    → is_empty c.project_id ≡ false
    → is_empty c.app_id ≡ false
    → validate_ces (apply_ces_defaults c) ≡ none
unfolding validate_ces apply_ces_defaults
default_ces_valid c p a = rw (p, located c.location, a) refl

module _ (ps : Parsers) (ces : List (String × CesConfig)) (c : Config)
    (same : c.ces ≡ map_values apply_ces_defaults ces) where
  ces_route_valid :
      (e : String × ExtensionConfig) → IsCesRoute ces e → validate_route ps c e.1 ≡ none
  unfolding validate_route validate_ces_profile
  ces_route_valid (extension, route) (named, backend, (profile, found, project, app)) =
      let on_ces : str_eq route.backend "ces" ≡ true = (eq_iff route.backend "ces").1 backend in
      let known : lookup (resolve_profile route) c.ces ≡ some (apply_ces_defaults profile) =
        ap (lookup (resolve_profile route)) same
        ∙ lookup-map_values apply_ces_defaults (resolve_profile route) ces profile found in
      rw (on_ces, known) (default_ces_valid profile project app)

  ces_routes_valid :
      (es : List (String × ExtensionConfig))
      → AllCesRoutes ces es
      → validate_extensions ps c es ≡ none
  unfolding validate_extensions
  ces_routes_valid [] h = refl
  ces_routes_valid ((extension, route) ∷ es) h =
      let named = h.0.0 in
      rw (named, ces_route_valid (extension, route) h.0) (ces_routes_valid es h.1)

-- A file that gives at least one extension, every one with a name and on a CES profile of the file that
-- has a project and an app, loads; what is loaded is the file over the defaults, with the location, the
-- endpoint and the session prefix of each profile filled in.
pub load-minimal :
    (ps : Parsers) (path : String) (ces : List (String × CesConfig))
    (websocket : List (String × WebSocketConfig)) (e : String × ExtensionConfig)
    (es : List (String × ExtensionConfig))
    → KnowsDefaults ps
    → is_empty path ≡ false
    → AllCesRoutes ces (e ∷ es)
    → let c = minimal ces websocket (e ∷ es) in
      load ps path (some c) ≡ Loaded.loaded (apply_defaults c)
unfolding load
load-minimal ps path ces websocket e es knows named routes =
    let c = minimal ces websocket (e ∷ es) in
    let valid =
      minimal_valid ps ces websocket e es knows
      ∙ ces_routes_valid ps ces (apply_defaults c) (defaults-ces c) (e ∷ es) routes in
    rw (named, valid) refl

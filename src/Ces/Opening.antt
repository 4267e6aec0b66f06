-- ===== src/Ces/Opening.antt =====
-- internal/ces/stream.go: what a dial of CES leaves.
use Prim.Native.String.{String, ◌++◌ as str_append}
use sip_relay.Prelude.{◌≡◌, refl, Bool, true, not, ◌&&◌, [], ◌∷◌, inl, inr, Bool-cases}
use sip_relay.Config.{CesConfig}
use sip_relay.Ces.{
  ClientMessage, new_config_message, initial_text_input, client_options, Library, Dialed, undialed,
  dial_grpc,
}

-- The library answers every call of a dial well.
abbrev pub answers_well : Library → CesConfig → String → Bool
answers_well lib c session_id =
    lib.new_client (client_options c)
    && (lib.open_session (str_append "location=locations/" c.location)
        && (lib.takes (new_config_message c session_id)
            && lib.takes (ClientMessage.text_message initial_text_input)))

-- What a dial leaves: an open client, a live context and running loops exactly if it returns a stream.
pub record IsTidy (r : Dialed × Bool) : Type 0 where
  pub client : r.0.client_open ≡ r.1
  pub context : r.0.canceled ≡ not r.1
  pub loops : r.0.loops_started ≡ r.1

-- dialGRPC returns a stream exactly when the client library answers each of its calls well; then the
-- session has been sent the configuration of the session and the greeting, in this order, and nothing
-- else. If it returns an error, whichever call failed, no client is left open, the context is canceled
-- and no loop runs; with a stream it is the other way round.
pub dial_grpc_lem :
    (lib : Library) (c : CesConfig) (session_id : String)
    → let r = dial_grpc lib c session_id undialed in
      (r.1 ≡ answers_well lib c session_id)
      × IsTidy r
      × (r.1 ≡ true
          → r.0.sent
            ≡ new_config_message c session_id ∷ ClientMessage.text_message initial_text_input ∷ [])
unfolding dial_grpc
dial_grpc_lem lib c session_id = elim (Bool-cases (lib.new_client (client_options c))) [
  | inr a ↦ rw a (refl, record { client = refl; context = refl; loops = refl }, λ h. cc)
  | inl a ↦
      rw a (elim (Bool-cases (lib.open_session (str_append "location=locations/" c.location))) [
        | inr b ↦ rw b (refl, record { client = refl; context = refl; loops = refl }, λ h. cc)
        | inl b ↦ rw b (elim (Bool-cases (lib.takes (new_config_message c session_id))) [
          | inr d ↦ rw d (refl, record { client = refl; context = refl; loops = refl }, λ h. cc)
          | inl d ↦
              rw d (elim (Bool-cases (lib.takes (ClientMessage.text_message initial_text_input))) [
                | inr e ↦
                    rw e (refl, record { client = refl; context = refl; loops = refl }, λ h. cc)
                | inl e ↦
                    rw e (refl, record { client = refl; context = refl; loops = refl }, λ h. refl)
              ])
        ])
      ])
]

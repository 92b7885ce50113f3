-- ===== src/Network.antt =====
-- The transport of the WebSocket: main/network_mode.c. The SDK's transports are counted, so that a
-- leak shows; their settings other than the answer of `esp_transport_ws_set_config` are left out.
mod Tests
use gtw_jalles_websoket_blue.Prelude.{
  ℕ, ◌+◌, ◌-◌, ◌≡◌, refl, Bool, true, false, ◌&&◌, if◌then◌else◌, inl, inr, Bool-cases, arith,
}
use gtw_jalles_websoket_blue.Esp.{EspErr, esp_ok, no_mem, is_ok}

-- `gtw_websocket_transport_t`, and how many transports the SDK has given out.
pub record Transport : Type 0 where
  pub tls : Bool
  pub websocket : Bool
  pub live : ℕ

unfoldable pub gtw_websocket_transport_cleanup : Transport → Transport
gtw_websocket_transport_cleanup t = record {
  tls = false;
  websocket = false;
  live = t.live - (if t.websocket then 1 else 0) - (if t.tls then 1 else 0);
}

-- Whether the two transports could be made, and the answer to the settings.
pub record Making : Type 0 where
  pub tls_made : Bool
  pub websocket_made : Bool
  pub set_config : EspErr

unfoldable pub gtw_websocket_transport_init : Making → Transport → Transport × EspErr
gtw_websocket_transport_init m t =
    if m.tls_made
    then if m.websocket_made
      then if is_ok m.set_config
        then (both, esp_ok)
        else (gtw_websocket_transport_cleanup both, m.set_config)
      else (gtw_websocket_transport_cleanup secure, no_mem)
    else (record { tls = false; websocket = false; live = t.live }, no_mem)
  where
    secure : Transport
    secure = record { tls = true; websocket = false; live = t.live + 1 }

    both : Transport
    both = record { tls = true; websocket = true; live = t.live + 2 }

-- `gtw_websocket_transport_init` either succeeds with both transports, which
-- `gtw_websocket_transport_cleanup` gives back, or fails with neither and nothing left over.
pub gtw_websocket_transport_init_balanced :
    (m : Making) (t : Transport)
    → ((gtw_websocket_transport_init m t).0.tls ≡ is_ok (gtw_websocket_transport_init m t).1)
      × ((gtw_websocket_transport_init m t).0.websocket
          ≡ is_ok (gtw_websocket_transport_init m t).1)
      × ((gtw_websocket_transport_init m t).0.live
          ≡ t.live + (if is_ok (gtw_websocket_transport_init m t).1 then 2 else 0))
      × ((gtw_websocket_transport_cleanup (gtw_websocket_transport_init m t).0).live ≡ t.live)
unfolding gtw_websocket_transport_init gtw_websocket_transport_cleanup
gtw_websocket_transport_init_balanced m t = elim (Bool-cases m.tls_made) [
  | inr none_made ↦ simp none_made (refl, refl, omega arith, omega arith)
  | inl made ↦ elim (Bool-cases m.websocket_made) [
    | inr alone ↦ simp (made, alone) (refl, refl, omega arith, omega arith)
    | inl pair ↦ elim (Bool-cases (is_ok m.set_config)) [
      | inl set ↦ simp (made, pair, set) (refl, refl, refl, omega arith)
      | inr refused ↦ simp (made, pair, refused) (refl, refl, omega arith, omega arith)
    ]
  ]
]

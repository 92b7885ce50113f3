-- ===== src/Network/Tests.antt =====
-- A transport whose settings are refused.
use gtw_jalles_websoket_blue.Prelude.{◌+◌, ◌≡◌, true, false, if◌then◌else◌}
use gtw_jalles_websoket_blue.Esp.{no_mem, is_ok}
use gtw_jalles_websoket_blue.Network.{
  Transport, Making, gtw_websocket_transport_cleanup, gtw_websocket_transport_init,
  gtw_websocket_transport_init_balanced,
}

abbrev refused : Making
refused = record { tls_made = true; websocket_made = true; set_config = no_mem }

abbrev before : Transport
before = record { tls = false; websocket = false; live = 1 }

refused_settings :
    ((gtw_websocket_transport_init refused before).0.tls
      ≡ is_ok (gtw_websocket_transport_init refused before).1)
    × ((gtw_websocket_transport_init refused before).0.websocket
        ≡ is_ok (gtw_websocket_transport_init refused before).1)
    × ((gtw_websocket_transport_init refused before).0.live
        ≡ 1 + (if is_ok (gtw_websocket_transport_init refused before).1 then 2 else 0))
    × ((gtw_websocket_transport_cleanup (gtw_websocket_transport_init refused before).0).live ≡ 1)
refused_settings = gtw_websocket_transport_init_balanced refused before

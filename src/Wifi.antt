-- ===== src/Wifi.antt =====
-- lib/wifi/wifi_manager.hpp and wifi_manager.cpp: the connection to the network, and the access point
-- that the dashboard falls back to. The mutex exists once `begin` has made it; what other tasks call
-- comes between two rounds of the loop.
pub mod Access
pub mod Grace
use gathra_gateway.Prelude.{
  ℕ, ◌+◌, ◌-◌, ◌%◌, ◌^◌, ℤ, pos, Bool, true, false, not, ◌&&◌, ◌||◌, List, [], ◌++◌, none, some,
  take, drop, leb, ◌==◌, if◌then◌else◌,
}
use gathra_gateway.Build.{wifi_ssid_capacity, wifi_password_capacity}
use gathra_gateway.Text.{CString, strncpy, codes}
use gathra_gateway.Config.{GatewayConfig}
use gathra_gateway.Config.Url.{is_empty}

pub data WifiMode : Type 0 where
  sta ap_sta : WifiMode

-- The driver, the clock and the name service, with a state `E`. `prepare` are the settings that
-- `begin` makes.
pub record Driver (E : Type 0) : Type 0 where
  pub millis : E → E × ℕ
  pub connected : E → E × Bool
  pub prepare : E → E
  pub set_mode : E → WifiMode → E
  pub disconnect : E → E
  pub begin : E → List ℕ → List ℕ → E
  pub soft_ap : E → List ℕ → E × Bool
  pub soft_ap_disconnect : E → E
  pub mdns_begin : E → E × Bool
  pub mdns_add_service : E → E
  pub mdns_end : E → E
  pub local_ip : E → List ℕ
  pub rssi : E → ℤ

pub record WifiStatus : Type 0 where
  pub configured : Bool
  pub connected : Bool
  pub ssid : List ℕ
  pub local_ip : List ℕ
  pub rssi_dbm : ℤ
  pub reconnecting : Bool
  pub fallback_ap_active : Bool
  pub fallback_ap_ssid : List ℕ

-- `was_connected` is the variable of the loop.
pub record WifiManager (E : Type 0) : Type 0 where
  pub outside : E
  pub ssid : List ℕ
  pub password : List ℕ
  pub fallback_ap_ssid : List ℕ
  pub reconnect_interval_ms : ℕ
  pub fallback_after_ms : ℕ
  pub ap_grace_ms : ℕ
  pub reconnect_requested : Bool
  pub ap_active : Bool
  pub reconnecting : Bool
  pub disconnected_since_ms : ℕ
  pub connected_since_ms : ℕ
  pub last_reconnect_ms : ℕ
  pub was_connected : Bool

-- `now - since` on 32 bits
abbrev pub elapsed : ℕ → ℕ → ℕ
elapsed now since = (now + 2 ^ 32 - since) % 2 ^ 32

abbrev pub after_mac_prefix : CString → List ℕ
after_mac_prefix none = codes "UNKNOWN"
after_mac_prefix (some mac) = drop 6 mac

module _ {E : Type 0} (d : Driver E) where
  unfoldable pub apply_config : WifiManager E → GatewayConfig → WifiManager E
  apply_config w c = record w {
    ssid = strncpy c.wifi_ssid (wifi_ssid_capacity - 1);
    password = strncpy c.wifi_password (wifi_password_capacity - 1);
    reconnect_interval_ms = c.wifi_reconnect_interval_ms;
    fallback_after_ms = c.wifi_fallback_after_ms;
    ap_grace_ms = c.wifi_ap_grace_ms;
    reconnect_requested = true;
  }

  unfoldable pub request_reconnect : WifiManager E → WifiManager E
  request_reconnect w = record w { reconnect_requested = true }

  unfoldable pub status : WifiManager E → WifiManager E × WifiStatus
  status w =
      let (e, connected) = d.connected w.outside in
      (
        record w { outside = e },
        record {
          configured = not (is_empty w.ssid);
          connected = connected;
          ssid = strncpy w.ssid (wifi_ssid_capacity - 1);
          local_ip = if connected then strncpy (d.local_ip e) 15 else [];
          rssi_dbm = if connected then d.rssi e else pos 0;
          reconnecting = w.reconnecting;
          fallback_ap_active = w.ap_active;
          fallback_ap_ssid = strncpy w.fallback_ap_ssid 32;
        },
      )

  unfoldable pub start_fallback_ap : WifiManager E → WifiManager E
  start_fallback_ap w =
      let (e, started) = d.soft_ap (d.set_mode w.outside WifiMode.ap_sta) w.fallback_ap_ssid in
      if w.ap_active then w else record w { outside = e; ap_active = started }

  unfoldable pub stop_fallback_ap : WifiManager E → WifiManager E
  stop_fallback_ap w = if not w.ap_active then w else record w {
    outside = d.set_mode (d.soft_ap_disconnect w.outside) WifiMode.sta;
    ap_active = false;
  }

  -- An attempt with credentials.
  unfoldable pub connect_sta : WifiManager E → WifiManager E
  connect_sta w =
      let e = d.set_mode w.outside (if w.ap_active then WifiMode.ap_sta else WifiMode.sta) in
      let e' = d.begin (d.disconnect e) w.ssid w.password in
      let (e'', now) = d.millis e' in
      if w.disconnected_since_ms == 0
      then record w { outside = e''; reconnecting = true; disconnected_since_ms = now }
      else record w { outside = e'; reconnecting = true }

  -- `beginSta(ssid, password)`, with the credentials that the object has.
  unfoldable pub begin_sta : WifiManager E → WifiManager E
  begin_sta w =
      let (e, now) = d.millis w.outside in
      let w' = record w { outside = e; last_reconnect_ms = now } in
      if is_empty w.ssid
      then start_fallback_ap (record w' { outside = d.disconnect e; reconnecting = false })
      else connect_sta w'

  -- A connection that is new, and one that was lost.
  unfoldable pub note_change : WifiManager E → ℕ → Bool → WifiManager E
  note_change w now connected =
      let (e, begun) = d.mdns_begin w.outside in
      if connected && not w.was_connected
      then record w {
        outside = if begun then d.mdns_add_service e else e;
        connected_since_ms = now;
        reconnecting = false;
        was_connected = true;
      }
      else if not connected && w.was_connected
      then record w {
        outside = d.mdns_end w.outside;
        disconnected_since_ms = now;
        was_connected = false;
      }
      else w

  unfoldable pub retry : WifiManager E → ℕ → WifiManager E
  retry w now =
      if not (is_empty w.ssid) && leb w.reconnect_interval_ms (elapsed now w.last_reconnect_ms)
      then begin_sta w
      else w

  unfoldable pub fall_back : WifiManager E → ℕ → WifiManager E
  fall_back w now =
      if is_empty w.ssid || leb w.fallback_after_ms (elapsed now w.disconnected_since_ms)
      then start_fallback_ap w
      else w

  unfoldable pub while_disconnected : WifiManager E → ℕ → WifiManager E
  while_disconnected w now =
      let since = if w.disconnected_since_ms == 0 then now else w.disconnected_since_ms in
      fall_back (retry (record w { disconnected_since_ms = since }) now) now

  unfoldable pub while_connected : WifiManager E → ℕ → WifiManager E
  while_connected w now =
      let w' = record w { disconnected_since_ms = 0 } in
      if w.ap_active && leb w.ap_grace_ms (elapsed now w.connected_since_ms)
      then stop_fallback_ap w'
      else w'

  -- The loop's body from what was polled on.
  unfoldable pub respond : WifiManager E → ℕ → Bool → WifiManager E
  respond w now connected =
      let noted = note_change (record w { reconnect_requested = false }) now connected in
      let w' = if w.reconnect_requested then begin_sta noted else noted in
      if not connected then while_disconnected w' now else while_connected w' now

  unfoldable pub run_round : WifiManager E → WifiManager E
  run_round w =
      let (e, now) = d.millis w.outside in
      let (e', connected) = d.connected e in respond (record w { outside = e' }) now connected

  unfoldable pub begin : WifiManager E → GatewayConfig → CString → WifiManager E
  begin w config hardware_mac_compact =
      let named = record w {
        fallback_ap_ssid = strncpy (codes "GATHRA-GW-" ++ after_mac_prefix hardware_mac_compact) 32;
      } in
      let configured = apply_config named config in
      let (e, now) = d.millis (d.prepare configured.outside) in
      let w' = record configured { outside = e; disconnected_since_ms = now } in
      if is_empty w'.ssid then start_fallback_ap w' else begin_sta w'

-- ===== src/Examples/Wifi.antt =====
-- lib/wifi/wifi_manager.cpp: rounds of the loop.
use gathra_gateway.Prelude.{
  ℕ, ◌+◌, ◌≤◌, ◌≡◌, refl, arith, Bool, true, false, [], ◌∷◌, pos, leb, ◌||◌,
}
use gathra_gateway.Config.Url.{is_empty}
use gathra_gateway.Wifi.{
  Driver, WifiManager, elapsed, start_fallback_ap, stop_fallback_ap, connect_sta, begin_sta,
  note_change, retry, fall_back, while_disconnected, while_connected, respond, run_round,
}
use gathra_gateway.Wifi.Access.{rounds, rounds-active}
use gathra_gateway.Wifi.Grace.{up_since, run_round-inactive}

-- The clock, which goes on with each reading, and how often a connection was begun.
record Site : Type 0 where
  clock : ℕ
  begun : ℕ

-- A driver whose station is connected or not for good.
abbrev driver : Bool → Driver Site
driver connected = record {
  millis = λ e. (record e { clock = e.clock + 1 }, e.clock);
  connected = λ e. (e, connected);
  prepare = λ e. e;
  set_mode = λ e mode. e;
  disconnect = λ e. e;
  begin = λ e ssid password. record e { begun = e.begun + 1 };
  soft_ap = λ e ssid. (e, true);
  soft_ap_disconnect = λ e. e;
  mdns_begin = λ e. (e, true);
  mdns_add_service = λ e. e;
  mdns_end = λ e. e;
  local_ip = λ e. [];
  rssi = λ e. pos 0;
}

abbrev station : Bool → WifiManager Site
station connected = record {
  outside = record { clock = 70_000; begun = 0 };
  ssid = b'a' ∷ [];
  password = [];
  fallback_ap_ssid = b'g' ∷ [];
  reconnect_interval_ms = 15_000;
  fallback_after_ms = 60_000;
  ap_grace_ms = 30_000;
  reconnect_requested = false;
  ap_active = connected;
  reconnecting = false;
  disconnected_since_ms = 5;
  connected_since_ms = 5;
  last_reconnect_ms = 69_000;
  was_connected = connected;
}

due :
    (is_empty (station false).ssid
      || leb 60_000
          (elapsed ((driver false).millis (rounds (driver false) 1 (station false)).outside).1 5))
    ≡ true
unfolding rounds run_round respond note_change while_disconnected retry fall_back start_fallback_ap
due = refl

rounds-active_example :
    (run_round (driver false) (rounds (driver false) 1 (station false))).ap_active ≡ true
rounds-active_example =
    rounds-active (driver false) (λ e. refl) (λ e ssid. refl) 1 (station false) refl (omega arith)
      due

inactive : (run_round (driver true) (station true)).ap_active ≡ false
unfolding run_round respond note_change while_connected stop_fallback_ap
inactive = refl

run_round-inactive_example :
    (((driver true).connected ((driver true).millis (station true).outside).0).1 ≡ true)
    × ((station true).ap_grace_ms
        ≤ elapsed
            ((driver true).millis (station true).outside).1
            (up_since (driver true) (station true) ((driver true).millis (station true).outside).1))
run_round-inactive_example = run_round-inactive (driver true) (station true) refl inactive

-- A request begins two connections in one round, since the second test subtracts the time of the first
-- attempt from an earlier one.
twice :
    (run_round (driver false) (record (station false) { reconnect_requested = true })).outside.begun
    ≡ 2
unfolding run_round respond note_change while_disconnected retry fall_back start_fallback_ap
    begin_sta connect_sta
twice = refl

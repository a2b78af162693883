-- ===== src/Wifi/Grace.antt =====
-- lib/wifi/wifi_manager.cpp: when the access point is given up.
use gathra_gateway.Prelude.{
  ℕ, ◌≤◌, ◌≡◌, refl, subst, ◌∙◌, inl, inr, Bool, true, false, not, ◌&&◌, ◌||◌, arith, leb,
  if◌then◌else◌, Bool-cases,
}
use gathra_gateway.Config.Url.{is_empty}
use gathra_gateway.Wifi.{
  Driver, WifiManager, elapsed, start_fallback_ap, connect_sta, begin_sta, note_change, retry,
  fall_back, while_disconnected, while_connected, respond, run_round,
}

module _ {E : Type 0} (d : Driver E) where
  -- The access point is still active, and its grace is counted as before.
  record Kept (w v : WifiManager E) : Type 0 where
    active : v.ap_active ≡ true
    since : v.connected_since_ms ≡ w.connected_since_ms
    grace : v.ap_grace_ms ≡ w.ap_grace_ms

  start_fallback_ap-Kept : (w : WifiManager E) → w.ap_active ≡ true → Kept w (start_fallback_ap d w)
  unfolding start_fallback_ap
  start_fallback_ap-Kept w h = ground arith

  begin_sta-Kept : (w : WifiManager E) → w.ap_active ≡ true → Kept w (begin_sta d w)
  unfolding begin_sta connect_sta start_fallback_ap
  begin_sta-Kept w h = ground arith

  retry-active :
      (w : WifiManager E) (now : ℕ) → w.ap_active ≡ true → (retry d w now).ap_active ≡ true
  unfolding retry
  retry-active w now h =
      elim (Bool-cases
        (not (is_empty w.ssid) && leb w.reconnect_interval_ms (elapsed now w.last_reconnect_ms))) [
          | inl e ↦ rw e (begin_sta-Kept w h).active
          | inr e ↦ rw e h
        ]

  fall_back-active :
      (w : WifiManager E) (now : ℕ) → w.ap_active ≡ true → (fall_back d w now).ap_active ≡ true
  unfolding fall_back
  fall_back-active w now h =
      elim (Bool-cases
        (is_empty w.ssid || leb w.fallback_after_ms (elapsed now w.disconnected_since_ms))) [
          | inl e ↦ rw e (start_fallback_ap-Kept w h).active
          | inr e ↦ rw e h
        ]

  while_disconnected-active :
      (w : WifiManager E) (now : ℕ)
      → w.ap_active ≡ true
      → (while_disconnected d w now).ap_active ≡ true
  unfolding while_disconnected
  while_disconnected-active w now h = fall_back-active _ now (retry-active _ now h)

  while_connected-inactive :
      (w : WifiManager E) (now : ℕ)
      → w.ap_active ≡ true
      → (while_connected d w now).ap_active ≡ false
      → w.ap_grace_ms ≤ elapsed now w.connected_since_ms
  unfolding while_connected
  while_connected-inactive w now a =
      elim (Bool-cases (leb w.ap_grace_ms (elapsed now w.connected_since_ms))) [
        | inl e ↦ λ h. ground (arith, e)
        | inr e ↦ rw (a, e) (λ h. absurd (ground arith))
      ]

  -- When the connection of a round came up.
  pub up_since : WifiManager E → ℕ → ℕ
  up_since w now = if w.was_connected then w.connected_since_ms else now

  note_change_lem :
      (w : WifiManager E) (now : ℕ)
      → ((note_change d w now true).connected_since_ms ≡ up_since w now)
        × ((note_change d w now true).ap_grace_ms ≡ w.ap_grace_ms)
        × ((note_change d w now true).ap_active ≡ w.ap_active)
        × ((note_change d w now false).ap_active ≡ w.ap_active)
  unfolding note_change up_since
  note_change_lem w now = ground arith

  requested-Kept :
      (b : Bool) (w : WifiManager E) → w.ap_active ≡ true → Kept w (if b then begin_sta d w else w)
  requested-Kept true w h = begin_sta-Kept w h
  requested-Kept false w h = record { active = h; since = refl; grace = refl }

  respond-inactive :
      (w : WifiManager E) (now : ℕ) (connected : Bool)
      → w.ap_active ≡ true
      → (respond d w now connected).ap_active ≡ false
      → (connected ≡ true) × (w.ap_grace_ms ≤ elapsed now (up_since w now))
  unfolding respond up_since
  respond-inactive w now false a h =
      let start = record w { reconnect_requested = false } in
      let still =
        requested-Kept w.reconnect_requested (note_change d start now false)
          ((note_change_lem start now).3 ∙ a) in
      absurd (
        ground (
          arith,
          h,
          while_disconnected-active
              (if w.reconnect_requested
                then begin_sta d (note_change d start now false)
                else note_change d start now false)
              now still.active,
        ))
  respond-inactive w now true a h =
      let start = record w { reconnect_requested = false } in
      let (since, grace, up, down) = note_change_lem start now in
      let still = requested-Kept w.reconnect_requested (note_change d start now true) (up ∙ a) in
      let begun =
        if w.reconnect_requested
        then begin_sta d (note_change d start now true)
        else note_change d start now true in
      (
        refl,
        omega (
          arith,
          grace,
          still.grace,
          subst (λ (t : ℕ). begun.ap_grace_ms ≤ elapsed now t) (still.since ∙ since)
              (while_connected-inactive begun now still.active h),
        ),
      )

  -- A round in which the access point is given up found a connection, and one that had come up at least
  -- the time of grace before.
  pub run_round-inactive :
      (w : WifiManager E)
      → w.ap_active ≡ true
      → (run_round d w).ap_active ≡ false
      → ((d.connected (d.millis w.outside).0).1 ≡ true)
        × (w.ap_grace_ms ≤ elapsed (d.millis w.outside).1 (up_since w (d.millis w.outside).1))
  unfolding run_round up_since
  run_round-inactive w a h = respond-inactive _ _ _ a h

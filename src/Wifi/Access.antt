-- ===== src/Wifi/Access.antt =====
-- lib/wifi/wifi_manager.cpp: the dashboard can be reached, and the access point is given up only for a
-- connection that lasts.
use gathra_gateway.Prelude.{
  ℕ, zero, suc, ◌<◌, ◌≡◌, refl, ◌∙◌, inl, inr, Bool, true, false, not, ◌&&◌, ◌||◌, List, arith, leb,
  ◌==◌, if◌then◌else◌, Bool-cases,
}
use gathra_gateway.Config.Url.{is_empty}
use gathra_gateway.Wifi.{
  WifiMode, Driver, WifiManager, elapsed, start_fallback_ap, connect_sta, begin_sta, note_change,
  retry, fall_back, while_disconnected, respond, run_round,
}

module _ {E : Type 0} (d : Driver E) where
  -- What the steps of a round without a connection leave as it is.
  record Same (w v : WifiManager E) : Type 0 where
    ssid : v.ssid ≡ w.ssid
    fallback_after : v.fallback_after_ms ≡ w.fallback_after_ms
    since : v.disconnected_since_ms ≡ w.disconnected_since_ms
    lost : v.was_connected ≡ w.was_connected

  start_fallback_ap-Same : (w : WifiManager E) → Same w (start_fallback_ap d w)
  unfolding start_fallback_ap
  start_fallback_ap-Same w = ground arith

  begin_sta-Same : (w : WifiManager E) → 0 < w.disconnected_since_ms → Same w (begin_sta d w)
  unfolding begin_sta connect_sta start_fallback_ap
  begin_sta-Same w h = ground arith

  trans-Same : (u v w : WifiManager E) → Same u v → Same v w → Same u w
  trans-Same u v w a b = record {
    ssid = b.ssid ∙ a.ssid;
    fallback_after = b.fallback_after ∙ a.fallback_after;
    since = b.since ∙ a.since;
    lost = b.lost ∙ a.lost;
  }

  refl-Same : (w : WifiManager E) → Same w w
  refl-Same w = record { ssid = refl; fallback_after = refl; since = refl; lost = refl }

  retry-Same : (w : WifiManager E) (now : ℕ) → 0 < w.disconnected_since_ms → Same w (retry d w now)
  unfolding retry
  retry-Same w now h =
      elim (Bool-cases
        (not (is_empty w.ssid) && leb w.reconnect_interval_ms (elapsed now w.last_reconnect_ms))) [
          | inl e ↦ rw e (begin_sta-Same w h)
          | inr e ↦ rw e (refl-Same w)
        ]

  -- Whether the access point is due.
  is_due : WifiManager E → ℕ → Bool
  is_due w now = is_empty w.ssid || leb w.fallback_after_ms (elapsed now w.disconnected_since_ms)

  is_due-Same : (w v : WifiManager E) (now : ℕ) → Same w v → is_due v now ≡ is_due w now
  unfolding is_due
  is_due-Same w v now s = rw (s.ssid, s.fallback_after, s.since) refl

  fall_back-Same : (w : WifiManager E) (now : ℕ) → Same w (fall_back d w now)
  unfolding fall_back
  fall_back-Same w now =
      elim (Bool-cases
        (is_empty w.ssid || leb w.fallback_after_ms (elapsed now w.disconnected_since_ms))) [
          | inl e ↦ rw e (start_fallback_ap-Same w)
          | inr e ↦ rw e (refl-Same w)
        ]

  cleared : WifiManager E → WifiManager E
  cleared w = record w { reconnect_requested = false }

  -- The request that a round begins with.
  requested : WifiManager E → WifiManager E
  unfolding cleared
  requested w = if w.reconnect_requested then begin_sta d (cleared w) else cleared w

  cleared-Same : (w : WifiManager E) → Same w (cleared w)
  unfolding cleared
  cleared-Same w = record { ssid = refl; fallback_after = refl; since = refl; lost = refl }

  requested-Same : (w : WifiManager E) → 0 < w.disconnected_since_ms → Same w (requested w)
  unfolding requested cleared
  requested-Same w h = elim (Bool-cases w.reconnect_requested) [
    | inl e ↦ simp e (trans-Same w (cleared w) _ (cleared-Same w) (begin_sta-Same (cleared w) h))
    | inr e ↦ simp e (cleared-Same w)
  ]

  while_disconnected_lem :
      (w : WifiManager E) (now : ℕ)
      → 0 < w.disconnected_since_ms
      → while_disconnected d w now ≡ fall_back d (retry d w now) now
  unfolding while_disconnected
  while_disconnected_lem w now h =
      rw (let known : (w.disconnected_since_ms == 0) ≡ false = ground arith in known) refl

  note_change_lem :
      (w : WifiManager E) (now : ℕ) → w.was_connected ≡ false → note_change d w now false ≡ w
  unfolding note_change
  note_change_lem w now l = ground (arith, l)

  respond_lost :
      (w : WifiManager E) (now : ℕ)
      → w.was_connected ≡ false
      → 0 < w.disconnected_since_ms
      → respond d w now false ≡ fall_back d (retry d (requested w) now) now
  unfolding respond requested cleared
  respond_lost w now l h =
      rw (note_change_lem (cleared w) now l)
        (while_disconnected_lem (requested w) now (omega (arith, (requested-Same w h).since)))

  respond-Same :
      (w : WifiManager E) (now : ℕ)
      → w.was_connected ≡ false
      → 0 < w.disconnected_since_ms
      → Same w (respond d w now false)
  respond-Same w now l h =
      let first = requested-Same w h in
      let second = retry-Same (requested w) now (omega (arith, first.since)) in
      rw (respond_lost w now l h) (
        trans-Same w (requested w) _ first
          (trans-Same (requested w) (retry d (requested w) now) _ second (fall_back-Same _ now)))

  -- What a round has polled.
  polled : WifiManager E → WifiManager E
  polled w = record w { outside = (d.connected (d.millis w.outside).0).0 }

  polled-Same : (w : WifiManager E) → Same w (polled w)
  unfolding polled
  polled-Same w = record { ssid = refl; fallback_after = refl; since = refl; lost = refl }

  unfoldable pub rounds : ℕ → WifiManager E → WifiManager E
  rounds zero w = w
  rounds (suc n) w = rounds n (run_round d w)

  module _ (never : (e : E) → (d.connected e).1 ≡ false) where
    run_round_lem :
        (w : WifiManager E) → run_round d w ≡ respond d (polled w) (d.millis w.outside).1 false
    unfolding run_round polled
    run_round_lem w = rw (never (d.millis w.outside).0) refl

    run_round-Same :
        (w : WifiManager E)
        → w.was_connected ≡ false
        → 0 < w.disconnected_since_ms
        → Same w (run_round d w)
    run_round-Same w l h = rw (run_round_lem w) (
        trans-Same w (polled w) _ (polled-Same w) (
          respond-Same (polled w) _ ((polled-Same w).lost ∙ l)
            (omega (arith, (polled-Same w).since))))

    rounds-Same :
        (n : ℕ) (w : WifiManager E)
        → w.was_connected ≡ false
        → 0 < w.disconnected_since_ms
        → Same w (rounds n w)
    unfolding rounds
    rounds-Same zero w l h = refl-Same w
    rounds-Same (suc n) w l h =
        let first = run_round-Same w l h in
        trans-Same w (run_round d w) _ first
          (rounds-Same n (run_round d w) (first.lost ∙ l) (omega (arith, first.since)))

    module _ (works : (e : E) (ssid : List ℕ) → (d.soft_ap e ssid).1 ≡ true) where
      start_fallback_ap-active : (w : WifiManager E) → (start_fallback_ap d w).ap_active ≡ true
      unfolding start_fallback_ap
      start_fallback_ap-active w =
          ground (arith, works (d.set_mode w.outside WifiMode.ap_sta) w.fallback_ap_ssid)

      fall_back-active :
          (w : WifiManager E) (now : ℕ) → is_due w now ≡ true → (fall_back d w now).ap_active ≡ true
      unfolding fall_back is_due
      fall_back-active w now h = rw h (start_fallback_ap-active w)

      respond-active :
          (w : WifiManager E) (now : ℕ)
          → w.was_connected ≡ false
          → 0 < w.disconnected_since_ms
          → is_due w now ≡ true
          → (respond d w now false).ap_active ≡ true
      respond-active w now l h due =
          let first = requested-Same w h in
          let second = retry-Same (requested w) now (omega (arith, first.since)) in
          rw (respond_lost w now l h) (
            fall_back-active (retry d (requested w) now) now
              (is_due-Same w _ now (trans-Same w (requested w) _ first second) ∙ due))

      -- Let the station never connect and the access point start when it is asked to. Once a connection
      -- is known to be lost, then after any number of rounds the next one, if it comes when the time for
      -- the fallback has passed since the loss, or if there are no credentials, leaves the access point
      -- active.
      pub rounds-active :
          (n : ℕ) (w : WifiManager E)
          → w.was_connected ≡ false
          → 0 < w.disconnected_since_ms
          → (is_empty w.ssid
              || leb w.fallback_after_ms
                  (elapsed (d.millis (rounds n w).outside).1 w.disconnected_since_ms))
            ≡ true
          → (run_round d (rounds n w)).ap_active ≡ true
      rounds-active n w l h due =
          let v = rounds n w in
          let so_far = rounds-Same n w l h in
          let now_on = trans-Same w v (polled v) so_far (polled-Same v) in
          rw (run_round_lem v) (
            respond-active (polled v) (d.millis v.outside).1 (now_on.lost ∙ l)
              (omega (arith, now_on.since))
              (is_due-Same w (polled v) _ now_on ∙ (unfold is_due in due)))

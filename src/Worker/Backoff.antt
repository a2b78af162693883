-- ===== src/Worker/Backoff.antt =====
-- lib/backend/backend_worker.cpp: how long the task waits after failures.
use gathra_gateway.Prelude.{
  ℕ, zero, suc, ◌+◌, ◌*◌, ◌/◌, ◌%◌, ◌^◌, ◌≤◌, ◌<◌, ◌≡◌, refl, sym, ap, subst, ◌∙◌, ℤ, Bool, true,
  List, [], ◌∷◌, arith, length, leb, ne→==_false, if◌then◌else◌,
}
use native.Mathlib.Nat.{pow-succ', mod-lt}
use gathra_gateway.Config.{Floats, GatewayConfig, ConfigValidationCode, validate_config}
use gathra_gateway.Config.Rules.{IsWithinBounds, validate_config-IsWithinBounds}
use gathra_gateway.Queue.Durable.{Device, DurableQueue}
use gathra_gateway.Worker.Types.{GatewayIdentity, RuntimeConfig, Platform, Worker}
use gathra_gateway.Worker.Beat.{Heart}
use gathra_gateway.Worker.Round.{Wait, back_off}
use gathra_gateway.Worker.Status.{advanced, set_failure, count_failure, apply_config}

-- A failure that advances the backoff.
pub record Failure : Type 0 where
  pub http_status : ℤ
  pub message : List ℕ
  pub telemetry_operation : Bool

abbrev pub min : ℕ → ℕ → ℕ
min a b = if leb a b then a else b

double : (n k : ℕ) → n * 2 ^ suc k ≡ n * 2 ^ k * 2
double n k = rw (pow-succ' 2 k) (omega arith)

le-double : (n k : ℕ) → n ≤ n * 2 ^ k
le-double n zero = omega arith
le-double n (suc k) = omega (arith, double n k, le-double n k)

-- One more failure doubles the wait up to its bound.
advanced-min :
    (c : RuntimeConfig) (m : ℕ)
    → 0 < m
    → 0 < c.maximum_backoff_ms
    → c.maximum_backoff_ms < 2 ^ 32
    → advanced c (min m c.maximum_backoff_ms) ≡ min (m * 2) c.maximum_backoff_ms
unfolding advanced
advanced-min c m h o b = ground arith

module _ {S N E : Type 0} (p : Platform E (DurableQueue S N)) where
  unfoldable pub fail_all : Worker S N E → List Failure → Worker S N E
  fail_all w [] = w
  fail_all w (f ∷ fs) =
      fail_all (set_failure p w f.http_status f.message true f.telemetry_operation) fs

  set_failure_effect :
      (w : Worker S N E) (f : Failure)
      → ((set_failure p w f.http_status f.message true f.telemetry_operation).config ≡ w.config)
        × ((set_failure p w f.http_status f.message true
              f.telemetry_operation).status.current_backoff_ms
            ≡ advanced w.config w.status.current_backoff_ms)
  unfolding set_failure count_failure
  set_failure_effect w f = ground arith

  fail_all-min :
      (w : Worker S N E) (fs : List Failure) (k : ℕ)
      → 0 < w.config.initial_backoff_ms
      → w.config.initial_backoff_ms ≤ w.config.maximum_backoff_ms
      → w.config.maximum_backoff_ms < 2 ^ 32
      → w.status.current_backoff_ms
        ≡ min (w.config.initial_backoff_ms * 2 ^ k) w.config.maximum_backoff_ms
      → (fail_all w fs).status.current_backoff_ms
        ≡ min (w.config.initial_backoff_ms * 2 ^ (length fs + k)) w.config.maximum_backoff_ms
  unfolding fail_all
  fail_all-min w [] k h o b e =
      e
      ∙ ap (λ (t : ℕ). min (w.config.initial_backoff_ms * 2 ^ t) w.config.maximum_backoff_ms)
          (let counts : k ≡ 0 + k = omega arith in counts)
  fail_all-min w (f ∷ fs) k h o b e =
      let (same, waits) = set_failure_effect w f in
      let c = w.config in
      let w' = set_failure p w f.http_status f.message true f.telemetry_operation in
      let m = c.initial_backoff_ms * 2 ^ k in
      let doubled : w'.status.current_backoff_ms
          ≡ min (c.initial_backoff_ms * 2 ^ suc k) c.maximum_backoff_ms =
        waits
        ∙ ap (advanced c) e
        ∙ advanced-min c m (omega (arith, le-double c.initial_backoff_ms k)) (omega arith) b
        ∙ ap (λ (t : ℕ). min t c.maximum_backoff_ms) (sym (double c.initial_backoff_ms k)) in
      let counts : length fs + suc k ≡ suc (length fs) + k = omega arith in
      subst
        (λ (c' : RuntimeConfig).
          (fail_all w' fs).status.current_backoff_ms
          ≡ min (c'.initial_backoff_ms * 2 ^ (suc (length fs) + k)) c'.maximum_backoff_ms)
        same
        (fail_all-min w' fs (suc k) (rw same h) (rw same o) (rw same b) (rw same doubled)
          ∙ ap (λ (t : ℕ). min (w'.config.initial_backoff_ms * 2 ^ t) w'.config.maximum_backoff_ms)
              counts)

  first_wait :
      (w : Worker S N E) (c : GatewayConfig) (identity : GatewayIdentity) (f : Failure)
      → c.backend_initial_backoff_ms ≤ c.backend_maximum_backoff_ms
      → (set_failure p
          (apply_config p w c identity)
          f.http_status
          f.message
          true
          f.telemetry_operation).status.current_backoff_ms
        ≡ min (c.backend_initial_backoff_ms * 2 ^ 0) c.backend_maximum_backoff_ms
  unfolding set_failure count_failure advanced apply_config
  first_wait w c identity f o = ground arith

  first_config :
      (w : Worker S N E) (c : GatewayConfig) (identity : GatewayIdentity) (f : Failure)
      → (((set_failure p
            (apply_config p w c identity)
            f.http_status
            f.message
            true
            f.telemetry_operation).config.initial_backoff_ms)
          ≡ c.backend_initial_backoff_ms)
        × (((set_failure p
              (apply_config p w c identity)
              f.http_status
              f.message
              true
              f.telemetry_operation).config.maximum_backoff_ms)
            ≡ c.backend_maximum_backoff_ms)
  unfolding set_failure count_failure apply_config
  first_config w c identity f = ground arith

  wait_after :
      (w : Worker S N E) (c : GatewayConfig) (identity : GatewayIdentity) (f : Failure)
      (fs : List Failure)
      → IsWithinBounds c
      → (fail_all (apply_config p w c identity) (f ∷ fs)).status.current_backoff_ms
        ≡ min (c.backend_initial_backoff_ms * 2 ^ length fs) c.backend_maximum_backoff_ms
  unfolding fail_all
  wait_after w c identity f fs v =
      let w' =
        set_failure p (apply_config p w c identity) f.http_status f.message true
          f.telemetry_operation in
      let (low, high) = first_config w c identity f in
      let starts : w'.status.current_backoff_ms
          ≡ min (w'.config.initial_backoff_ms * 2 ^ 0) w'.config.maximum_backoff_ms =
        rw (low, high) (first_wait w c identity f v.backoff_order) in
      let counts : length fs + 0 ≡ length fs = omega arith in
      fail_all-min w' fs 0 (omega (arith, v.initial_low, low))
        (omega (arith, v.backoff_order, low, high)) (omega (arith, v.maximum_high, high)) starts
      ∙ rw (low, high, counts) refl

narrow : (n : ℕ) → n < 2 ^ 32 → n % 2 ^ 32 ≡ n
narrow n h = omega arith

-- The wait has at most a fifth on top of the backoff.
module _ {S N E F : Type 0} (dev : Device S N) (p : Platform E (DurableQueue S N))
    (heart : Heart E F) where
  back_off_wait :
      (w : Worker S N E)
      → 0 < w.status.current_backoff_ms
      → w.status.current_backoff_ms ≤ 300_000
      → (ms : ℕ) × ((back_off dev p heart w).1 ≡ Wait.notified ms)
        × (w.status.current_backoff_ms ≤ ms)
        × (ms ≤ w.status.current_backoff_ms + w.status.current_backoff_ms / 5)
  unfolding back_off
  back_off_wait w low high =
      let current = w.status.current_backoff_ms in
      let random = (heart.random w.outside).1 in
      let extra : random % (current / 5 + 1) < current / 5 + 1 = mod-lt random (omega arith) in
      (
        current + random % (current / 5 + 1),
        rw (ne→==_false current 0 (omega (arith, low))) (
            ap Wait.notified
              (narrow (current + random % (current / 5 + 1)) (omega (arith, extra, high)))),
        omega arith,
        omega (arith, extra),
      )

  -- After an accepted configuration is applied, the backoff after one failure and more is the initial
  -- one, doubled by each failure after the first, up to the maximum; it is from one second to five
  -- minutes. The wait that follows is at least the backoff and longer by a fifth of it at most.
  pub back_off-fail_all :
      (g : Floats) (w : Worker S N E) (c : GatewayConfig) (identity : GatewayIdentity) (f : Failure)
      (fs : List Failure)
      → validate_config g c ≡ ConfigValidationCode.ok
      → let failed = fail_all p (apply_config p w c identity) (f ∷ fs) in
        let current = failed.status.current_backoff_ms in
        (current ≡ min (c.backend_initial_backoff_ms * 2 ^ length fs) c.backend_maximum_backoff_ms)
        × (1_000 ≤ current)
        × (current ≤ 300_000)
        × ((ms : ℕ) × ((back_off dev p heart failed).1 ≡ Wait.notified ms)
            × (current ≤ ms)
            × (ms ≤ current + current / 5))
  back_off-fail_all g w c identity f fs valid =
      let v = validate_config-IsWithinBounds g c valid in
      let e = wait_after p w c identity f fs v in
      let m = le-double c.backend_initial_backoff_ms (length fs) in
      let failed = fail_all p (apply_config p w c identity) (f ∷ fs) in
      let low : 1_000 ≤ failed.status.current_backoff_ms =
        ground (arith, e, m, v.initial_low, v.backoff_order) in
      let high : failed.status.current_backoff_ms ≤ 300_000 = ground (arith, e, v.maximum_high) in
      (e, low, high, back_off_wait failed (omega (arith, low)) high)

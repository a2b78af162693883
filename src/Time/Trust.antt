-- ===== src/Time/Trust.antt =====
-- lib/time/time_manager.cpp: nothing trusts the clock before a plausible synchronization.
use gathra_gateway.Prelude.{
  ℕ, ◌≤◌, ◌≡◌, refl, ℤ, pos, negsuc, Bool, true, false, ◌||◌, List, [], ◌∷◌, Option, none, some,
  arith,
}
use gathra_gateway.Prelude.{is_negative, Bool-cases, inl, inr, Option-cases}
use gathra_gateway.Time.{
  TimeManager, not_synchronized, noted, observe_sync, snapshot_of, milliseconds, on_sntp_time_sync,
  now, run_round,
}

-- What happens to the manager: a notification of the SNTP client, or a round of the task.
pub data Call : Type 0 where
  notifies : Option (ℕ × ℕ) → Call
  rounds : Call

unfoldable pub call : TimeManager → Call → TimeManager
unfolding on_sntp_time_sync run_round
call m (Call.notifies value) = on_sntp_time_sync m value
call m Call.rounds = run_round m

unfoldable pub run : TimeManager → List Call → TimeManager
unfolding call
run m [] = m
run m (c ∷ cs) = run (call m c) cs

-- Whether a notification had a plausible time.
unfoldable pub is_plausible : Call → Bool
unfolding milliseconds
is_plausible Call.rounds = false
is_plausible (Call.notifies value) = elim (milliseconds value) [ none ↦ false | some t ↦ true ]

unfoldable pub any_plausible : List Call → Bool
unfolding is_plausible
any_plausible [] = false
any_plausible (c ∷ cs) = is_plausible c || any_plausible cs

-- Nothing was noted, so nothing is trusted.
record IsUnsynchronized (m : TimeManager) : Type 0 where
  untrusted : m.trusted ≡ false
  nothing : is_negative m.last_sntp_sync_unix_ms ≡ true

noted-IsUnsynchronized :
    (m : TimeManager) (t : Option ℕ)
    → elim t as (λ t. Bool) [ none ↦ false | some t ↦ true ] ≡ false
    → IsUnsynchronized m
    → IsUnsynchronized (noted m t)
noted-IsUnsynchronized m none h v = v
noted-IsUnsynchronized m (some t) h v = absurd (ground arith)

observe_sync-IsUnsynchronized :
    (m : TimeManager) (sync : ℤ)
    → is_negative sync ≡ true
    → IsUnsynchronized m
    → IsUnsynchronized (observe_sync m sync)
observe_sync-IsUnsynchronized m (pos n) h v = absurd (ground arith)
observe_sync-IsUnsynchronized m (negsuc n) h v = v

call-IsUnsynchronized :
    (m : TimeManager) (c : Call)
    → is_plausible c ≡ false
    → IsUnsynchronized m
    → IsUnsynchronized (call m c)
unfolding call is_plausible
call-IsUnsynchronized m (Call.notifies value) h v =
    noted-IsUnsynchronized m (milliseconds value) h v
call-IsUnsynchronized m Call.rounds h v =
    observe_sync-IsUnsynchronized m m.last_sntp_sync_unix_ms v.nothing v

run-IsUnsynchronized :
    (m : TimeManager) (cs : List Call)
    → any_plausible cs ≡ false
    → IsUnsynchronized m
    → IsUnsynchronized (run m cs)
unfolding run any_plausible
run-IsUnsynchronized m [] h v = v
run-IsUnsynchronized m (c ∷ cs) h v =
    run-IsUnsynchronized (call m c) cs (ground (arith, h))
      (call-IsUnsynchronized m c (ground (arith, h)) v)

late_enough : (value : Option (ℕ × ℕ)) {t : ℕ} → milliseconds value ≡ some t → 1_700_000_000_000 ≤ t
unfolding milliseconds
late_enough none h = absurd (ground arith)
late_enough (some (seconds, microseconds)) h = ground arith

snapshot_late :
    (value : Option (ℕ × ℕ))
    → (snapshot_of (milliseconds value)).trusted ≡ true
    → (t : ℕ) × ((snapshot_of (milliseconds value)).unix_ms ≡ pos t) × (1_700_000_000_000 ≤ t)
snapshot_late value = elim (Option-cases (milliseconds value)) [
  | inl e ↦ rw e (λ h. absurd (ground arith))
  | inr (t, e) ↦ rw e (λ h. (t, refl, late_enough value e))
]

-- A time is trusted only after the SNTP client had a plausible one, and then it is not before
-- 14 November 2023, whatever the system clock answers.
pub now-run :
    (cs : List Call) (value : Option (ℕ × ℕ))
    → (now (run not_synchronized cs) value).trusted ≡ true
    → (any_plausible cs ≡ true)
      × ((t : ℕ) × ((now (run not_synchronized cs) value).unix_ms ≡ pos t)
          × (1_700_000_000_000 ≤ t))
unfolding now
now-run cs value = elim (Bool-cases (run not_synchronized cs).trusted) [
  | inr e ↦ rw e (λ h. absurd (ground arith))
  | inl e ↦ rw e (λ h. (
    elim (Bool-cases (any_plausible cs)) [
      | inl p ↦ p
      | inr p ↦ absurd (
          ground (
            arith,
            e,
            (run-IsUnsynchronized not_synchronized cs p
                (record { untrusted = refl; nothing = refl })).untrusted,
          ))
    ],
    snapshot_late value h,
  ))
]

-- ===== src/Time.antt =====
-- lib/time/time_manager.hpp and time_manager.cpp: the time that the other components trust. The SNTP
-- client and the system clock are the platform's: a clock's answer is `none` where `gettimeofday`
-- fails, and has seconds and microseconds otherwise.
pub mod Trust
use gathra_gateway.Prelude.{
  ℕ, ◌+◌, ◌*◌, ◌/◌, ℤ, pos, negsuc, Bool, true, false, not, ◌&&◌, Option, none, some, ltb, ◌==◌,
  if◌then◌else◌,
}

pub record TrustedTimeSnapshot : Type 0 where
  pub trusted : Bool
  pub unix_ms : ℤ

pub record TimeStatus : Type 0 where
  pub trusted : Bool
  pub current_unix_ms : ℤ
  pub last_sync_unix_ms : ℤ

-- `last_sntp_sync_unix_ms` is the variable that the notification of the SNTP client writes, and
-- `observed_sync` the variable of the task's loop.
pub record TimeManager : Type 0 where
  pub trusted : Bool
  pub last_sync_unix_ms : ℤ
  pub last_sntp_sync_unix_ms : ℤ
  pub observed_sync : ℤ

abbrev pub untrusted : TrustedTimeSnapshot
untrusted = record { trusted = false; unix_ms = negsuc 0 }

abbrev pub not_synchronized : TimeManager
not_synchronized = record {
  trusted = false;
  last_sync_unix_ms = negsuc 0;
  last_sntp_sync_unix_ms = negsuc 0;
  observed_sync = negsuc 0;
}

-- The milliseconds of a time that is plausible; 63 bits hold them.
unfoldable pub milliseconds : Option (ℕ × ℕ) → Option ℕ
milliseconds none = none
milliseconds (some (seconds, microseconds)) =
    if ltb seconds 1_700_000_000 then none else some (seconds * 1_000 + microseconds / 1_000)

abbrev pub noted : TimeManager → Option ℕ → TimeManager
noted m none = m
noted m (some unix_ms) = record m { last_sntp_sync_unix_ms = pos unix_ms }

unfoldable pub on_sntp_time_sync : TimeManager → Option (ℕ × ℕ) → TimeManager
unfolding milliseconds
on_sntp_time_sync m value = noted m (milliseconds value)

abbrev pub snapshot_of : Option ℕ → TrustedTimeSnapshot
snapshot_of none = untrusted
snapshot_of (some unix_ms) = record { trusted = true; unix_ms = pos unix_ms }

unfoldable pub now : TimeManager → Option (ℕ × ℕ) → TrustedTimeSnapshot
unfolding milliseconds
now m value = if not m.trusted then untrusted else snapshot_of (milliseconds value)

unfoldable pub status : TimeManager → Option (ℕ × ℕ) → TimeStatus
unfolding now
status m value = record {
  trusted = (now m value).trusted;
  current_unix_ms = (now m value).unix_ms;
  last_sync_unix_ms = m.last_sync_unix_ms;
}

-- `sync != observedSync`, for a `sync` that is not negative
abbrev pub is_new : ℕ → ℤ → Bool
is_new sync (pos observed) = not (sync == observed)
is_new sync (negsuc n) = true

-- One round of `run`, with what the notification wrote.
abbrev pub observe_sync : TimeManager → ℤ → TimeManager
observe_sync m (negsuc n) = m
observe_sync m (pos sync) =
    if is_new sync m.observed_sync
    then record m { trusted = true; last_sync_unix_ms = pos sync; observed_sync = pos sync }
    else m

unfoldable pub run_round : TimeManager → TimeManager
run_round m = observe_sync m m.last_sntp_sync_unix_ms

-- ===== src/Metrics.antt =====
-- lib/metrics/running_statistics.hpp and running_statistics.cpp: a running mean with its extremes. The
-- type `double` and its arithmetic belong to the compiler: `Doubles` has what the source uses.
pub mod Extremes
use gathra_gateway.Prelude.{ℕ, ◌+◌, ◌-◌, ◌%◌, ◌^◌, ltb, ◌==◌, if◌then◌else◌}

pub record Doubles (F : Type 0) : Type 0 where
  pub zero : F
  pub of_uint64 : ℕ → F
  pub plus : F → F → F
  pub minus : F → F → F
  pub over : F → F → F

pub record RunningStatistics (F : Type 0) : Type 0 where
  pub count : ℕ
  pub minimum : ℕ
  pub maximum : ℕ
  pub average : F

pub record AckLatencyStatistics (F : Type 0) : Type 0 where
  pub rx_to_start : RunningStatistics F
  pub rx_to_complete : RunningStatistics F
  pub tx_duration : RunningStatistics F

module _ {F : Type 0} (d : Doubles F) where
  abbrev pub no_samples : RunningStatistics F
  no_samples = record { count = 0; minimum = 0; maximum = 0; average = d.zero }

  abbrev pub no_latencies : AckLatencyStatistics F
  no_latencies = record {
    rx_to_start = no_samples;
    rx_to_complete = no_samples;
    tx_duration = no_samples;
  }

  unfoldable pub record_sample : RunningStatistics F → ℕ → RunningStatistics F
  record_sample s sample =
      let count' = (s.count + 1) % 2 ^ 64 in
      if count' == 1
      then record {
        count = count';
        minimum = sample;
        maximum = sample;
        average = d.of_uint64 sample;
      }
      else record {
        count = count';
        minimum = if ltb sample s.minimum then sample else s.minimum;
        maximum = if ltb s.maximum sample then sample else s.maximum;
        average =
            d.plus s.average (d.over (d.minus (d.of_uint64 sample) s.average) (d.of_uint64 count'));
      }

  unfoldable pub record_latency : AckLatencyStatistics F → ℕ → ℕ → AckLatencyStatistics F
  unfolding record_sample
  record_latency s rx_to_start_us rx_to_complete_us =
      if ltb rx_to_complete_us rx_to_start_us then s else record {
        rx_to_start = record_sample s.rx_to_start rx_to_start_us;
        rx_to_complete = record_sample s.rx_to_complete rx_to_complete_us;
        tx_duration = record_sample s.tx_duration (rx_to_complete_us - rx_to_start_us);
      }

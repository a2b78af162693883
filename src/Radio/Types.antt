-- ===== src/Radio/Types.antt =====
-- lib/radio/radio_service.hpp: the state of the radio, and the chip that it drives.
use gathra_gateway.Prelude.{ℕ, ℤ, Bool, true, false, List}
use gathra_gateway.Time.{TrustedTimeSnapshot}
use gathra_gateway.Config.{RadioConfig}

-- A code of the driver: `RADIOLIB_ERR_NONE`, the two errors that the source names, and the others.
pub data RadioCode : Type 0 where
  fine crc_mismatch tx_timeout : RadioCode
  other : ℤ → RadioCode

abbrev pub is_fine : RadioCode → Bool
is_fine RadioCode.fine = true
is_fine _ = false

abbrev pub is_crc_mismatch : RadioCode → Bool
is_crc_mismatch RadioCode.crc_mismatch = true
is_crc_mismatch _ = false

pub data Dio0Action : Type 0 where
  none receive transmit : Dio0Action

-- The chip, its interrupt and the clocks, with a state `H`. `notify_take` is `ulTaskNotifyTake`, with
-- its limit in milliseconds. `frequency_error` is rounded to an integer.
pub record Chip (H : Type 0) : Type 0 where
  pub begin : H → RadioConfig → H × RadioCode
  pub set_crc : H → H × RadioCode
  pub standby : H → H
  pub start_receive : H → H × RadioCode
  pub start_transmit : H → List ℕ → H × RadioCode
  pub finish_transmit : H → H × RadioCode
  pub time_on_air : H → ℕ → ℕ
  pub packet_length : H → ℕ
  pub read_data : H → ℕ → H × List ℕ × RadioCode
  pub rssi : H → ℕ
  pub snr : H → ℕ
  pub frequency_error : H → ℤ
  pub set_received_action : H → H
  pub clear_received_action : H → H
  pub set_sent_action : H → H
  pub clear_sent_action : H → H
  pub notify_take : H → ℕ → H × ℕ
  pub now_us : H → H × ℕ
  pub now : H → H × TrustedTimeSnapshot

-- The statistics of the processor, which `diagnostics` adds, stay with the processor.
pub record RadioDiagnostics : Type 0 where
  pub ready : Bool
  pub state : List ℕ
  pub last_code : RadioCode
  pub config : RadioConfig
  pub received_packets : ℕ
  pub crc_errors : ℕ
  pub invalid_length_packets : ℕ
  pub read_errors : ℕ
  pub last_rssi_dbm : ℕ
  pub last_snr_db : ℕ
  pub last_frequency_error_hz : ℤ
  pub last_packet_length : ℕ
  pub last_rx_uptime_us : ℕ
  pub last_rx_unix_ms : ℤ
  pub commands_sent_count : ℕ

-- What the radio owns; its mutex exists once `begin` has made it, and is taken without a time limit.
pub record Radio (H : Type 0) : Type 0 where
  pub chip : H
  pub diagnostics : RadioDiagnostics
  pub dio0_action : Dio0Action

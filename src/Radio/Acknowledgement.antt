-- ===== src/Radio/Acknowledgement.antt =====
-- lib/radio/radio_service.cpp: `transmitAck`, the acknowledgement with the open command. The build is
-- the one without `GATHRA_HIL_SYNTHETIC`.
use gathra_gateway.Prelude.{
  ℕ, ◌+◌, ◌-◌, ◌/◌, ◌%◌, ◌^◌, ℤ, pos, negsuc, Bool, true, false, not, ◌&&◌, List, Option, none,
  some, length, ltb, leb, ◌==◌, if◌then◌else◌,
}
use gathra_gateway.Build.{radio_packet_capacity}
use gathra_gateway.Text.{codes}
use gathra_gateway.Time.{TrustedTimeSnapshot}
use gathra_gateway.Protocol.Types.{TelemetryPacket, AckCommandPacket}
use gathra_gateway.Protocol.Ack.{make_ack, encode_ack_command}
use gathra_gateway.Commands.Types.{GatewayCommand, Platform}
use gathra_gateway.Commands.{CommandBackend, CommandStore, pending_for_ack, mark_sent}
use gathra_gateway.Processor.Types.{AckTransmission}
use gathra_gateway.Processor.{no_ack}
use gathra_gateway.Worker.Status.{trusted_ms}
use gathra_gateway.Radio.Types.{RadioCode, is_fine, Dio0Action, Chip, Radio}
use gathra_gateway.Radio.Configuration.{start_receive_unlocked}

-- The seconds, where the time is trusted and has 32 bits.
abbrev pub seconds_of : ℤ → Option ℕ
seconds_of (negsuc n) = none
seconds_of (pos ms) = if leb (ms / 1_000) (2 ^ 32 - 1) then some (ms / 1_000) else none

abbrev pub trusted_seconds : TrustedTimeSnapshot → Option ℕ
trusted_seconds t = if t.trusted then seconds_of t.unix_ms else none

abbrev pub plain_ack : TelemetryPacket → Option ℕ → AckCommandPacket
plain_ack packet none = make_ack packet 0 false
plain_ack packet (some seconds) = make_ack packet seconds true

abbrev pub with_command : AckCommandPacket → Option GatewayCommand → AckCommandPacket
with_command ack none = ack
with_command ack (some pending) = record ack {
  command_id = pending.command_id;
  command_type = pending.type;
  poll_interval_minutes = pending.poll_interval_minutes;
  scheduled_maintenance_unix = pending.scheduled_maintenance_unix;
}

unfoldable pub ack_for :
    TelemetryPacket → TrustedTimeSnapshot → Option GatewayCommand → AckCommandPacket
ack_for packet timestamp pending =
    with_command (plain_ack packet (trusted_seconds timestamp)) pending

module _ {H : Type 0} (c : Chip H) where
  -- The interrupt is given to the transmission.
  unfoldable pub claim_for_transmission : H → Dio0Action → H
  claim_for_transmission h Dio0Action.none = c.set_sent_action h
  claim_for_transmission h _ = c.set_sent_action (c.clear_received_action h)

  abbrev pub air_limit_ms : H → ℕ → ℕ
  air_limit_ms h length =
      let timeout = (c.time_on_air h length / 1_000 + 1_000) % 2 ^ 32 in
      if ltb timeout 1_500 then 1_500 else timeout

  -- The transmission has been started: the chip, the code, and whether it was sent.
  unfoldable pub await_sent : H → ℕ → H × RadioCode × Bool
  await_sent h length =
      let (h', notified) = c.notify_take h (air_limit_ms h length) in
      let (h'', code) = c.finish_transmit h' in
      if ltb 0 notified
      then (h'', code, is_fine code)
      else (c.standby h', RadioCode.tx_timeout, false)

  unfoldable pub send_bytes : H → List ℕ → H × RadioCode × Bool
  unfolding await_sent
  send_bytes h bytes =
      let (h', code) = c.start_transmit h bytes in
      if is_fine code then await_sent h' (length bytes) else (h', code, false)

  -- From `setPacketSentAction` to the end of the transmission.
  unfoldable pub transmit : Radio H → List ℕ → Radio H × AckTransmission
  unfolding claim_for_transmission send_bytes start_receive_unlocked
  transmit r bytes =
      let (h, notified) = c.notify_take r.chip 0 in
      let (h', start) = c.now_us (claim_for_transmission h r.dio0_action) in
      let (h'', code, success) = send_bytes h' bytes in
      let (last, completed) = c.now_us h'' in
      let (r', restored) = start_receive_unlocked c (record r {
        chip = last;
        dio0_action = Dio0Action.transmit;
        diagnostics = record (r.diagnostics) { state = codes "ACK_TX"; last_code = code };
      }) in
      (
        r',
        record {
          attempted = true;
          success = success;
          receive_restored = restored;
          start_us = start;
          completed_us = completed;
        },
      )

module _ {H M : Type 0} (c : Chip H) (platform : Platform) (backend : CommandBackend M) where
  -- The command of an acknowledgement that was sent is recorded as sent.
  unfoldable pub record_sent :
      Radio H → CommandStore M → ℕ → AckTransmission → Radio H × CommandStore M × AckTransmission
  record_sent r commands command_id report =
      let (h, sent_at) = c.now r.chip in
      let (commands', marked) =
        mark_sent platform backend commands command_id (trusted_ms sent_at) in
      if report.success && report.receive_restored && not (command_id == 0)
      then (
        record r {
          chip = h;
          diagnostics = record (r.diagnostics) {
            commands_sent_count = (r.diagnostics.commands_sent_count + 1) % 2 ^ 64;
          };
        },
        commands',
        report,
      )
      else (r, commands, report)

  unfoldable pub transmit_encoded :
      Radio H → CommandStore M → ℕ → Option (List ℕ) → Radio H × CommandStore M × AckTransmission
  transmit_encoded r commands command_id none =
      let (r', restored) = start_receive_unlocked c r in
      (r', commands, record no_ack { receive_restored = restored })
  transmit_encoded r commands command_id (some bytes) =
      let (r', report) = transmit c r bytes in record_sent r' commands command_id report

  unfoldable pub transmit_ack :
      Radio H → CommandStore M → TelemetryPacket → Radio H × CommandStore M × AckTransmission
  transmit_ack r commands packet =
      let (h, timestamp) = c.now r.chip in
      let ack = ack_for packet timestamp (pending_for_ack commands) in
      transmit_encoded (record r { chip = h }) commands ack.command_id
        (encode_ack_command ack (some radio_packet_capacity))

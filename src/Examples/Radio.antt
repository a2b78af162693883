-- ===== src/Examples/Radio.antt =====
-- lib/radio/radio_service.cpp: a chip whose state is the time, and which does all that it is asked for.
use gathra_gateway.Prelude.{
  ℕ, ◌+◌, ◌≡◌, ◌⊎◌, refl, pos, negsuc, ℤ, Bool, true, false, List, [], ◌∷◌, Option, none, some,
  arith,
}
use gathra_gateway.Protocol.Types.{AckCommandPacket, CommandType, empty_telemetry}
use gathra_gateway.Protocol.Codes.{command_type_eq, command_code}
use gathra_gateway.Protocol.Header.{ok}
use gathra_gateway.Protocol.Ack.{decode_ack_command, ack_matches}
use gathra_gateway.Protocol.Telemetry.RoundTrip.{telemetry_bytes}
use gathra_gateway.Commands.Types.{CommandStoreRecord, state_eq}
use gathra_gateway.Commands.{
  CommandStore, begin, begin_fresh, initialize, pending_for_ack, mark_sent, create, commit, created,
}
use gathra_gateway.Config.{RadioConfig, default_radio}
use gathra_gateway.Processor.Types.{PacketProcessor}
use gathra_gateway.Radio.Types.{RadioCode, Dio0Action, Chip, Radio}
use gathra_gateway.Radio.Configuration.{
  apply_config, configure_and_receive, configure_unlocked, start_receive_unlocked,
}
use gathra_gateway.Radio.Acknowledgement.{transmit_ack}
use gathra_gateway.Radio.Reception.{World, Hardware, handle_physical_receive}
use gathra_gateway.Radio.Driver.{Seen, IsBeside, IsDriver, IsListening}
use gathra_gateway.Radio.Transmission.{Transmits}
use gathra_gateway.Radio.Rollback.{Receives, Accepts, apply_config-Receives}
use gathra_gateway.Radio.Listening.{handle_physical_receive-IsListening}
use gathra_gateway.Radio.Answer.{AreSendable, open_id}
use gathra_gateway.Radio.Sent.{transmit_ack-decode, transmit_ack-mark_sent}
use gathra_gateway.Examples.Protocol.{probe, probe-IsEncodable}
use gathra_gateway.Examples.Pairing.{with_probe}
use gathra_gateway.Examples.Commands.{small, flash, opened}
use gathra_gateway.Examples.Queue.{heard}
use gathra_gateway.Examples.Durable.{board, serving}
use gathra_gateway.Examples.Processor.{whole, no_counts}
use gathra_gateway.Examples.Config.{thousandths}

-- A chip that keeps the time and what is seen of it.
pub record Bench : Type 0 where
  pub time : ℕ
  pub seen : Seen

abbrev tick : Bench → Bench
tick h = record h { time = h.time + 1 }

abbrev wired : Bench → Dio0Action → Bench
wired h action = record h { seen = record (h.seen) { interrupt = action } }

abbrev mode : Bench → Bool → Bench
mode h on = record h { seen = record (h.seen) { receiving = on } }

-- The chip has one frame, of the probe.
abbrev obedient : Chip Bench
obedient = record {
  begin =
      λ h config. (record h { seen = record (h.seen) { settings = some config } }, RadioCode.fine);
  set_crc = λ h. (mode h false, RadioCode.fine);
  standby = λ h. mode h false;
  start_receive = λ h. (mode h true, RadioCode.fine);
  start_transmit = λ h bytes. (
    record h { seen = record (h.seen) { receiving = false; aired = bytes ∷ h.seen.aired } },
    RadioCode.fine,
  );
  finish_transmit = λ h. (tick h, RadioCode.fine);
  time_on_air = λ h length. 400_000;
  packet_length = λ h. 64;
  read_data = λ h length. (tick h, telemetry_bytes probe, RadioCode.fine);
  rssi = λ h. 0;
  snr = λ h. 0;
  frequency_error = λ h. pos 0;
  set_received_action = λ h. wired h Dio0Action.receive;
  clear_received_action = λ h. wired h Dio0Action.none;
  set_sent_action = λ h. wired h Dio0Action.transmit;
  clear_sent_action = λ h. wired h Dio0Action.none;
  notify_take = λ h limit. (tick h, 1);
  now_us = λ h. (tick h, h.time);
  now = λ h. (tick h, record { trusted = true; unix_ms = pos 1_790_000_000_000 });
}

abbrev same : (v : Seen) (on : Bool) → IsBeside v (record v { receiving = on })
same v on = record { interrupt = refl; settings = refl; aired = refl }

abbrev obedient-IsDriver : IsDriver obedient
obedient-IsDriver = record {
  seen = λ h. h.seen;
  begin_interrupt = λ h config. refl;
  begin_settings = λ h config e. refl;
  set_crc = λ h. same h.seen false;
  standby = λ h. same h.seen false;
  start_receive = λ h. same h.seen true;
  start_receive_mode = λ h e. refl;
  start_transmit_interrupt = λ h bytes. refl;
  start_transmit_aired = λ h bytes e. refl;
  finish_transmit = λ h. same h.seen h.seen.receiving;
  read_data = λ h length. same h.seen h.seen.receiving;
  set_received_action = λ h. refl;
  clear_received_action = λ h. refl;
  set_sent_action = λ h. refl;
  clear_sent_action = λ h. refl;
  notify_take = λ h limit. refl;
  now_us = λ h. refl;
  now = λ h. refl;
}

abbrev pub receiving : Radio Bench
receiving = record {
  chip = record {
    time = 1000;
    seen = record {
      interrupt = Dio0Action.receive;
      settings = some (default_radio thousandths);
      receiving = true;
      aired = [];
    };
  };
  dio0_action = Dio0Action.receive;
  diagnostics = record {
    ready = true;
    state = [];
    last_code = RadioCode.fine;
    config = default_radio thousandths;
    received_packets = 0;
    crc_errors = 0;
    invalid_length_packets = 0;
    read_errors = 0;
    last_rssi_dbm = 0;
    last_snr_db = 0;
    last_frequency_error_hz = pos 0;
    last_packet_length = 0;
    last_rx_uptime_us = 0;
    last_rx_unix_ms = negsuc 0;
    commands_sent_count = 0;
  };
}

abbrev faster : RadioConfig
faster = record (default_radio thousandths) { spreading_factor = 7 }

apply_config-Receives_example :
    ((apply_config obedient receiving faster).1 ≡ true
      → Receives obedient-IsDriver faster (apply_config obedient receiving faster).0)
    × ((apply_config obedient receiving faster).1 ≡ false
        → Receives obedient-IsDriver
            (default_radio thousandths)
            (apply_config obedient receiving faster).0
          ⊎ (((apply_config obedient receiving faster).0.diagnostics.ready ≡ false)
              × ¬ Accepts obedient-IsDriver (default_radio thousandths)))
apply_config-Receives_example = apply_config-Receives obedient-IsDriver receiving faster refl

applied : (apply_config obedient receiving faster).1 ≡ true
unfolding apply_config configure_and_receive configure_unlocked start_receive_unlocked
applied = refl

abbrev box : Hardware Bool ℕ Bench (Option CommandStoreRecord) ℕ
box = record { device = board; chip = obedient; backend = flash; platform = small; doubles = whole }

abbrev station : PacketProcessor (World Bool ℕ Bench) (Option CommandStoreRecord) ℕ
station = record {
  pairing = with_probe;
  commands = opened;
  world = record { queue = serving; radio = receiving };
  stats = no_counts;
  latest = record { available = false; packet = empty_telemetry; reception = heard.reception };
}

handle_physical_receive-IsListening_example :
    ((station.world.radio.diagnostics.ready ≡ true)
      → IsListening obedient-IsDriver (handle_physical_receive box 9 station).0.world.radio)
    × ((station.world.radio.diagnostics.ready ≡ false)
        → handle_physical_receive box 9 station ≡ (station, none))
handle_physical_receive-IsListening_example =
    handle_physical_receive-IsListening box obedient-IsDriver 9 station refl

-- A command to poll every half an hour is open.
abbrev waiting : CommandStore (Option CommandStoreRecord)
waiting = (create small flash opened CommandType.set_poll_interval_minutes 30 0 (pos 1)).0

waiting-AreSendable : AreSendable (pending_for_ack waiting)
unfolding pending_for_ack begin begin_fresh initialize create commit created state_eq
    command_type_eq command_code
waiting-AreSendable = record {
  command_id = omega arith;
  some_id = λ e. ground (arith, e);
  named_type = tt;
  some_type = refl;
  poll = omega arith;
  some_poll = λ h e. ground (arith, e);
  at = omega arith;
  some_at = λ h. absurd (ground (arith, h));
}

transmit_ack-decode_example :
    let sent = transmit_ack obedient small flash receiving waiting probe in
    (bytes : List ℕ) × (ack : AckCommandPacket) × (decode_ack_command (some bytes) ≡ ok ack)
    × (ack_matches ack probe ≡ true)
    × (ack.command_id ≡ open_id (pending_for_ack waiting))
    × (sent.2.attempted ≡ true)
    × (Transmits obedient → sent.2.success ≡ true)
    × (sent.2.success ≡ true → sent.0.chip.seen.aired ≡ bytes ∷ [])
transmit_ack-decode_example =
    transmit_ack-decode obedient-IsDriver small flash receiving waiting probe probe-IsEncodable
      waiting-AreSendable

transmit_ack-mark_sent_example :
    let sent = transmit_ack obedient small flash receiving waiting probe in
    (sent.1 ≡ waiting)
    ⊎ ((sent.2.success ≡ true)
        × (sent.2.receive_restored ≡ true)
        × ((at : ℤ) × (sent.1
              ≡ (mark_sent small flash waiting (open_id (pending_for_ack waiting)) at).0)))
transmit_ack-mark_sent_example = transmit_ack-mark_sent obedient small flash receiving waiting probe

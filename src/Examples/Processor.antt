-- ===== src/Examples/Processor.antt =====
-- lib/radio/packet_processor.cpp: a processor whose surroundings are counters: the queue stores every
-- packet, and the radio sends every acknowledgement.
use gathra_gateway.Prelude.{ℕ, ◌+◌, ◌≡◌, refl, true, false, [], ◌∷◌, Option, none, some, arith}
use gathra_gateway.Protocol.Types.{empty_telemetry, CommandType}
use gathra_gateway.Protocol.Telemetry.RoundTrip.{telemetry_bytes, decode_telemetry_lem}
use gathra_gateway.Text.{strncmp_eq}
use gathra_gateway.Protocol.Codes.{message_code, command_type_eq, command_code}
use gathra_gateway.Protocol.Header.{node_id_valid}
use gathra_gateway.Protocol.Result.RoundTrip.{result_bytes, decode_command_result_lem}
use gathra_gateway.Pairing.{matches, paired, begin}
use gathra_gateway.Commands.Types.{
  CommandStoreRecord, CommandState, command_store_magic, command_store_schema, empty_command,
  state_eq, state_code,
}
use gathra_gateway.Commands.{is_open, confirm, commit}
use gathra_gateway.Metrics.{Doubles, no_latencies}
use gathra_gateway.Processor.Types.{
  Surroundings, ReceivedFrame, AckSink, PacketProcessor, PacketProcessingStats, PacketDisposition,
}
use gathra_gateway.Processor.{is_result_frame, process, process_result, expects_result, no_ack}
use gathra_gateway.Processor.Order.{
  from_paired, on_queue, queued_world, may_acknowledge, may_acknowledge_packet, process-silent,
  OneRequest, process-asked, process-foreign, process-confirmed,
}
use gathra_gateway.Processor.Accounting.{process_all, process_all-Accounts}
use gathra_gateway.Processor.Counters.{Accounts}
use gathra_gateway.Examples.Protocol.{probe, probe_id, probe-IsEncodable, done, done-IsEncodable}
use gathra_gateway.Examples.Pairing.{with_probe}
use gathra_gateway.Examples.Commands.{small, flash, opened}
use gathra_gateway.Examples.Queue.{heard}

-- The arithmetic of a machine that keeps whole numbers only.
abbrev pub whole : Doubles ℕ
whole = record {
  zero = 0;
  of_uint64 = λ n. n;
  plus = λ a b. a + b;
  minus = λ a b. a;
  over = λ a b. a;
}

-- The time, which passes at every reading.
abbrev around : Surroundings ℕ (Option CommandStoreRecord) ℕ
around = record {
  platform = small;
  backend = flash;
  doubles = whole;
  queue = record {
    contains_key = λ w key. (w, false);
    durably_enqueue = λ w r. (w + 10, record { persisted = true; dropped_oldest = false });
    note_duplicate = λ w. w;
  };
  sink = record {
    transmit_ack = λ w s packet. (
      w + 100,
      s,
      record {
        attempted = true;
        success = true;
        receive_restored = true;
        start_us = w;
        completed_us = w + 100;
      },
    );
  };
  clock = record { now_us = λ w. (w + 1, w) };
}

abbrev pub no_counts : PacketProcessingStats ℕ
no_counts = record {
  valid_protocol_packets = 0;
  valid_telemetry_packets = 0;
  valid_command_result_packets = 0;
  decode_errors = 0;
  unknown_node_packets = 0;
  duplicates = 0;
  ack_sent = 0;
  ack_failures = 0;
  durable_enqueue_failures = 0;
  command_results_confirmed = 0;
  command_results_ignored = 0;
  last_queue_write_us = 0;
  last_rx_to_durable_enqueue_us = 0;
  last_rx_to_ack_start_us = 0;
  last_rx_to_ack_complete_us = 0;
  last_ack_tx_duration_us = 0;
  successful_ack_latency = no_latencies whole;
}

abbrev ready : PacketProcessor ℕ (Option CommandStoreRecord) ℕ
ready = record {
  pairing = with_probe;
  commands = opened;
  world = 1000;
  stats = no_counts;
  latest = record { available = false; packet = empty_telemetry; reception = heard.reception };
}

abbrev from_probe : ReceivedFrame
from_probe = record {
  bytes = telemetry_bytes probe;
  reception = heard.reception;
  observed_us = 900;
}

-- A frame that is too short for any header.
abbrev noise : ReceivedFrame
noise = record { bytes = 71 ∷ (84 ∷ []); reception = heard.reception; observed_us = 900 }

deaf : AckSink ℕ (Option CommandStoreRecord)
deaf = record { transmit_ack = λ w s packet. (w, s, no_ack) }

from_probe_telemetry : is_result_frame from_probe ≡ false
unfolding is_result_frame message_code
from_probe_telemetry = ground arith

probe_paired : from_paired with_probe probe ≡ true
unfolding from_paired matches paired strncmp_eq
probe_paired = refl

probe_stored : on_queue around 1000 from_probe probe ≡ true
unfolding on_queue
probe_stored = refl

process-asked_example :
    OneRequest around
      (queued_world around 1000 from_probe probe)
      ready
      probe
      (process around ready from_probe)
process-asked_example =
    process-asked around ready from_probe probe from_probe_telemetry
      (decode_telemetry_lem probe probe-IsEncodable) probe_paired probe_stored

-- The same with nothing paired.
abbrev alone : PacketProcessor ℕ (Option CommandStoreRecord) ℕ
alone = record ready { pairing = begin none }

alone_foreign : from_paired (begin none) probe ≡ false
unfolding from_paired begin node_id_valid paired
alone_foreign = refl

alone_silent : may_acknowledge around alone from_probe ≡ false
unfolding may_acknowledge may_acknowledge_packet
alone_silent =
    rw (from_probe_telemetry, decode_telemetry_lem probe probe-IsEncodable, alone_foreign) refl

process-silent_example :
    process (record around { sink = deaf }) alone from_probe ≡ process around alone from_probe
process-silent_example = process-silent around deaf alone from_probe alone_silent

process-foreign_example :
    ((process around alone from_probe).0.world ≡ 1000)
    × ((process around alone from_probe).0.commands ≡ opened)
    × ((process around alone from_probe).0.latest ≡ alone.latest)
process-foreign_example =
    process-foreign around alone from_probe probe from_probe_telemetry
      (decode_telemetry_lem probe probe-IsEncodable) alone_foreign

-- The command that the probe reports as done was sent to it.
abbrev waiting : PacketProcessor ℕ (Option CommandStoreRecord) ℕ
waiting = record ready {
  latest = record { available = true; packet = probe; reception = heard.reception };
  commands = record {
    attached = true;
    memory = none;
    stored = record {
      magic = command_store_magic;
      schema_version = command_store_schema;
      structure_size = 64;
      next_command_id = 4;
      command = record empty_command {
        command_id = 3;
        type = CommandType.set_poll_interval_minutes;
        state = CommandState.sent;
        poll_interval_minutes = 30;
      };
      checksum = 0;
    };
    last_error = "";
  };
}

abbrev report : ReceivedFrame
report = record { bytes = result_bytes done; reception = heard.reception; observed_us = 900 }

report_result : is_result_frame report ≡ true
unfolding is_result_frame message_code
report_result = ground arith

report_confirms :
    (process around waiting report).1.disposition ≡ PacketDisposition.command_result_confirmed
unfolding process process_result expects_result confirm commit command_type_eq command_code state_eq
    state_code matches paired strncmp_eq
report_confirms = rw (report_result, decode_command_result_lem done done-IsEncodable) refl

process-confirmed_example :
    (matches with_probe (some probe_id) ≡ true)
    × (probe.persistent_session_id ≡ done.persistent_session_id)
    × (is_open CommandState.sent ≡ true)
    × (waiting.commands.stored.command.command_id ≡ done.command_id)
    × ((process around waiting report).0.commands.stored.command.state ≡ CommandState.confirmed)
process-confirmed_example =
    process-confirmed around waiting report done report_result
      (decode_command_result_lem done done-IsEncodable) report_confirms

process_all-Accounts_example :
    Accounts 2 (process_all around ready (from_probe ∷ (noise ∷ []))).stats
process_all-Accounts_example =
    process_all-Accounts around 0 ready (from_probe ∷ (noise ∷ [])) (omega arith) (record {
      frames = refl;
      packets = refl;
      results = refl;
      telemetry = omega arith;
      answered = omega arith;
    })

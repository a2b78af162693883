-- ===== src/Processor/Counters.antt =====
-- lib/radio/packet_processor.cpp: what the counters of the processor add up to.
use gathra_gateway.Prelude.{ℕ, ◌+◌, ◌≤◌, ◌≡◌, ◌∙◌, arith}
use gathra_gateway.Processor.Types.{PacketProcessingStats}

-- The counters after `n` frames. Every frame is a decoding error, valid telemetry or a valid command
-- result; every result is confirmed or ignored; a telemetry packet is at most one of unknown, refused
-- by the queue and answered; and every duplicate is answered.
pub record Accounts {F : Type 0} (n : ℕ) (s : PacketProcessingStats F) : Type 0 where
  pub frames : s.decode_errors + s.valid_telemetry_packets + s.valid_command_result_packets ≡ n
  pub packets :
      s.valid_protocol_packets ≡ s.valid_telemetry_packets + s.valid_command_result_packets
  pub results :
      s.command_results_confirmed + s.command_results_ignored ≡ s.valid_command_result_packets
  pub telemetry :
      s.unknown_node_packets + s.durable_enqueue_failures + s.ack_sent + s.ack_failures
      ≤ s.valid_telemetry_packets
  pub answered : s.duplicates ≤ s.ack_sent + s.ack_failures

-- The counters that the delivery of a packet leaves.
pub record IsBeside {F : Type 0} (a b : PacketProcessingStats F) : Type 0 where
  pub protocol : b.valid_protocol_packets ≡ a.valid_protocol_packets
  pub telemetry : b.valid_telemetry_packets ≡ a.valid_telemetry_packets
  pub results : b.valid_command_result_packets ≡ a.valid_command_result_packets
  pub errors : b.decode_errors ≡ a.decode_errors
  pub unknown : b.unknown_node_packets ≡ a.unknown_node_packets
  pub confirmed : b.command_results_confirmed ≡ a.command_results_confirmed
  pub ignored : b.command_results_ignored ≡ a.command_results_ignored

pub record IsAnswered {F : Type 0} (a b : PacketProcessingStats F) : Type 0 where
  pub beside : IsBeside a b
  pub answer : b.ack_sent + b.ack_failures ≡ a.ack_sent + a.ack_failures + 1
  pub duplicates : b.duplicates ≡ a.duplicates
  pub refused : b.durable_enqueue_failures ≡ a.durable_enqueue_failures

pub record IsDelivered {F : Type 0} (a b : PacketProcessingStats F) : Type 0 where
  pub beside : IsBeside a b
  pub outcome :
      b.durable_enqueue_failures + b.ack_sent + b.ack_failures
      ≡ a.durable_enqueue_failures + a.ack_sent + a.ack_failures + 1
  pub duplicates :
      b.duplicates + a.ack_sent + a.ack_failures ≤ a.duplicates + b.ack_sent + b.ack_failures

-- A delivery is an answer, but for what it may have counted before.
pub answered_delivery :
    {F : Type 0} (a a' b : PacketProcessingStats F)
    → IsAnswered a' b
    → IsBeside a a'
    → a'.ack_sent ≡ a.ack_sent
    → a'.ack_failures ≡ a.ack_failures
    → a'.durable_enqueue_failures ≡ a.durable_enqueue_failures
    → a'.duplicates ≤ a.duplicates + 1
    → IsDelivered a b
answered_delivery a a' b y x e f r d = record {
  beside = record {
    protocol = y.beside.protocol ∙ x.protocol;
    telemetry = y.beside.telemetry ∙ x.telemetry;
    results = y.beside.results ∙ x.results;
    errors = y.beside.errors ∙ x.errors;
    unknown = y.beside.unknown ∙ x.unknown;
    confirmed = y.beside.confirmed ∙ x.confirmed;
    ignored = y.beside.ignored ∙ x.ignored;
  };
  outcome = omega (arith, y.refused, y.answer, e, f, r);
  duplicates = omega (arith, y.duplicates, y.answer, e, f, d);
}

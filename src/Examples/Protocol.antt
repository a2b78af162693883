-- ===== src/Examples/Protocol.antt =====
-- lib/protocol/protocol.cpp: packets of a probe, written and read back.
use gathra_gateway.Prelude.{
  ℕ, ◌+◌, ◌≡◌, refl, inl, inr, List, [], ◌∷◌, some, arith, length, true, false, negsuc,
}
use gathra_gateway.Protocol.Types.{
  TelemetryPacket, AckCommandPacket, CommandResultPacket, empty_telemetry, empty_ack,
  empty_command_result, CommandType, CommandResultCode, RtcState, FilterState,
}
use gathra_gateway.Protocol.Header.{IsNodeId, ok, all_node_bytes, valid_node_byte}
use gathra_gateway.Protocol.Telemetry.{encode_telemetry, decode_telemetry}
use gathra_gateway.Protocol.Ack.{encode_ack_command, decode_ack_command, ack_valid}
use gathra_gateway.Protocol.Result.{encode_command_result, decode_command_result}
use gathra_gateway.Protocol.Codes.{command_type_eq, command_code, valid_result, result_code}
use gathra_gateway.Protocol.Telemetry.RoundTrip.{IsEncodable, decode-encode_telemetry}
use gathra_gateway.Protocol.Ack.RoundTrip.{decode-encode_ack_command, received}
use gathra_gateway.Protocol.Result.RoundTrip.{
  IsEncodable as IsEncodableResult, decode-encode_command_result,
}

-- `A1`
abbrev pub probe_id : List ℕ
probe_id = 65 ∷ 49 ∷ []

pub probe_id-IsNodeId : IsNodeId probe_id
unfolding all_node_bytes valid_node_byte
probe_id-IsNodeId = record { nonempty = omega arith; short = omega arith; bytes = refl }

abbrev pub probe : TelemetryPacket
probe = record empty_telemetry {
  node_id = probe_id;
  persistent_session_id = 7;
  sequence = 41;
  raw_distance_mm = 1520;
  accepted_distance_mm = 1518;
  temperature_centi_c = negsuc 249;
  humidity_centi_percent = 5512;
  battery_mv = 3710;
  valid_samples = 9;
  total_samples = 9;
  filter_state = FilterState.stable;
  rtc_state = RtcState.valid;
  rtc_unix_time = 1_760_000_000;
  poll_interval_minutes = 15;
}

pub probe-IsEncodable : IsEncodable probe
probe-IsEncodable = record {
  node_id = probe_id-IsNodeId;
  persistent_session_id = omega arith;
  sequence = omega arith;
  median_echo_us = omega arith;
  raw_distance_mm = omega arith;
  accepted_distance_mm = omega arith;
  mad_mm = omega arith;
  humidity_centi_percent = omega arith;
  battery_mv = omega arith;
  valid_samples = omega arith;
  total_samples = omega arith;
  quality_flags = omega arith;
  health_flags = omega arith;
  rtc_unix_time = omega arith;
  poll_interval_minutes = omega arith;
  scheduled_maintenance_unix = omega arith;
  last_command_id = omega arith;
  reference_distance_mm = omega arith;
  temperature_centi_c = omega arith;
  last_command_type = tt;
  last_command_result = tt;
  polls = omega arith;
  clock = inl refl;
  schedule = inr refl;
  command = inr refl;
}

decode-encode_telemetry_example :
    (bytes : List ℕ) × (encode_telemetry probe (some 96) ≡ some bytes)
    × (decode_telemetry (some bytes) ≡ ok probe)
    × (length bytes ≡ 62 + length probe_id)
decode-encode_telemetry_example = decode-encode_telemetry probe 96 probe-IsEncodable (omega arith)

-- An acknowledgement that asks for a poll every 30 minutes.
abbrev asks_poll : AckCommandPacket
asks_poll = record empty_ack {
  node_id = probe_id;
  persistent_session_id = 7;
  sequence = 41;
  gateway_unix_time = 1_760_000_000;
  time_valid = true;
  command_id = 3;
  command_type = CommandType.set_poll_interval_minutes;
  poll_interval_minutes = 30;
}

asks_poll_valid : ack_valid asks_poll ≡ true
unfolding ack_valid command_type_eq command_code
asks_poll_valid = refl

decode-encode_ack_command_example :
    (bytes : List ℕ) × (encode_ack_command asks_poll (some 64) ≡ some bytes)
    × (decode_ack_command (some bytes) ≡ ok (received asks_poll))
decode-encode_ack_command_example =
    decode-encode_ack_command asks_poll 64
      (record {
        node_id = probe_id-IsNodeId;
        persistent_session_id = omega arith;
        sequence = omega arith;
        gateway_unix_time = omega arith;
        command_id = omega arith;
        poll_interval_minutes = omega arith;
        scheduled_maintenance_unix = omega arith;
        named_type = tt;
        is_valid = asks_poll_valid;
      })
      (omega arith)

abbrev pub done : CommandResultPacket
done = record empty_command_result {
  node_id = probe_id;
  persistent_session_id = 7;
  command_id = 3;
  command_type = CommandType.set_poll_interval_minutes;
  result_code = CommandResultCode.applied;
  effective_poll_interval_minutes = 30;
}

done_type : command_type_eq done.command_type CommandType.none ≡ false
unfolding command_type_eq command_code
done_type = refl

done_result : valid_result (result_code done.result_code) false ≡ true
unfolding valid_result result_code
done_result = refl

pub done-IsEncodable : IsEncodableResult done
done-IsEncodable = record {
  node_id = probe_id-IsNodeId;
  persistent_session_id = omega arith;
  command_id = omega arith;
  effective_poll_interval_minutes = omega arith;
  scheduled_maintenance_unix = omega arith;
  identified = omega arith;
  named_type = tt;
  is_command = done_type;
  named_result = tt;
  is_result = done_result;
}

decode-encode_command_result_example :
    (bytes : List ℕ) × (encode_command_result done (some 64) ≡ some bytes)
    × (decode_command_result (some bytes) ≡ ok done)
    × (length bytes ≡ 20 + length probe_id)
decode-encode_command_result_example =
    decode-encode_command_result done 64 done-IsEncodable (omega arith)

-- ===== src/Processor/Order.antt =====
-- lib/radio/packet_processor.cpp: a packet is on the queue before it is acknowledged, and only the
-- paired node's packets are.
use gathra_gateway.Prelude.{
  ◌≡◌, refl, sym, ◌∙◌, inl, inr, Bool, true, false, not, ◌&&◌, ◌||◌, some, arith, Bool-cases,
  if◌then◌else◌,
}
use gathra_gateway.Protocol.Types.{TelemetryPacket, CommandResultPacket}
use gathra_gateway.Protocol.Header.{Decoded, ok, fail}
use gathra_gateway.Protocol.Telemetry.{decode_telemetry}
use gathra_gateway.Protocol.Result.{decode_command_result}
use gathra_gateway.Pairing.{PairingManager, paired, matches}
use gathra_gateway.Commands.Types.{CommandState}
use gathra_gateway.Commands.{is_open, confirm, commit, confirmed}
use gathra_gateway.Queue.Entries.{key_of}
use gathra_gateway.Processor.Types.{
  Surroundings, ReceivedFrame, AckSink, PacketProcessor, PacketProcessingResult, PacketDisposition,
}
use gathra_gateway.Processor.{
  increment, expects_result, queued_record, is_result_frame, process_result, acknowledge,
  enqueue_new, deliver, process_telemetry, process,
}

-- Pairing is over, and the packet is the paired node's.
unfoldable pub from_paired : PairingManager → TelemetryPacket → Bool
from_paired m packet = not m.pairing_mode && (paired m && matches m (some packet.node_id))

module _ {W M F : Type 0} (g : Surroundings W M F) where
  -- The queue has the packet already, or it stores the packet.
  unfoldable pub on_queue : W → ReceivedFrame → TelemetryPacket → Bool
  on_queue world frame packet =
      let (world', duplicate) = g.queue.contains_key world (key_of packet) in
      duplicate
      || (g.queue.durably_enqueue (g.clock.now_us world').0 (queued_record frame)).1.persisted

  -- The state of the surroundings once it does.
  unfoldable pub queued_world : W → ReceivedFrame → TelemetryPacket → W
  queued_world world frame packet =
      let (world', duplicate) = g.queue.contains_key world (key_of packet) in
      if duplicate
      then g.queue.note_duplicate world'
      else (g.clock.now_us
          (g.queue.durably_enqueue (g.clock.now_us world').0 (queued_record frame)).0).0

  -- Whether a frame may lead to an acknowledgement.
  unfoldable pub may_acknowledge_packet :
      PacketProcessor W M F → ReceivedFrame → Decoded TelemetryPacket → Bool
  may_acknowledge_packet s frame (fail status) = false
  may_acknowledge_packet s frame (ok packet) =
      from_paired s.pairing packet && on_queue s.world frame packet

  unfoldable pub may_acknowledge : PacketProcessor W M F → ReceivedFrame → Bool
  may_acknowledge s frame =
      not (is_result_frame frame)
      && may_acknowledge_packet s frame (decode_telemetry (some frame.bytes))

  -- What is set before a packet of the paired node is delivered.
  abbrev prepared : PacketProcessor W M F → ReceivedFrame → TelemetryPacket → PacketProcessor W M F
  prepared s frame packet = record s {
    stats = record (s.stats) {
      valid_protocol_packets = increment s.stats.valid_protocol_packets;
      valid_telemetry_packets = increment s.stats.valid_telemetry_packets;
    };
    latest = record { available = true; packet = packet; reception = frame.reception };
  }

  process_telemetry-deliver :
      (s : PacketProcessor W M F) (frame : ReceivedFrame) (packet : TelemetryPacket)
      → from_paired s.pairing packet ≡ true
      → process_telemetry g s frame (ok packet) ≡ deliver g (prepared s frame packet) frame packet
  unfolding process_telemetry from_paired
  process_telemetry-deliver s frame packet h = ground arith

  deliver-silent :
      (sink : AckSink W M) (s : PacketProcessor W M F) (frame : ReceivedFrame)
      (packet : TelemetryPacket)
      → on_queue s.world frame packet ≡ false
      → deliver (record g { sink = sink }) s frame packet ≡ deliver g s frame packet
  unfolding deliver enqueue_new on_queue
  deliver-silent sink s frame packet h = ground arith

module _ {W M F : Type 0} (g : Surroundings W M F) (sink : AckSink W M) where
  process_telemetry-silent :
      (s : PacketProcessor W M F) (frame : ReceivedFrame) (t : Decoded TelemetryPacket)
      → may_acknowledge_packet g s frame t ≡ false
      → process_telemetry (record g { sink = sink }) s frame t ≡ process_telemetry g s frame t
  unfolding may_acknowledge_packet
  process_telemetry-silent s frame (fail status) h = unfold process_telemetry in refl
  process_telemetry-silent s frame (ok packet) h =
      elim (Bool-cases (from_paired s.pairing packet)) [
        | inr stranger ↦ unfold process_telemetry from_paired in ground arith
        | inl member ↦
            process_telemetry-deliver (record g { sink = sink }) s frame packet member
            ∙ deliver-silent g sink (prepared g s frame packet) frame packet
                (ground (arith, member, h))
            ∙ sym (process_telemetry-deliver g s frame packet member)
      ]

  process_result-silent :
      (s : PacketProcessor W M F) (t : Decoded CommandResultPacket)
      → process_result (record g { sink = sink }) s t ≡ process_result g s t
  unfolding process_result
  process_result-silent s (fail status) = refl
  process_result-silent s (ok packet) = refl

  -- Where a frame is not telemetry of the paired node, or its packet is neither on the queue nor
  -- stored there, what `process` does and returns does not depend on the radio: no acknowledgement
  -- is sent.
  pub process-silent :
      (s : PacketProcessor W M F) (frame : ReceivedFrame)
      → may_acknowledge g s frame ≡ false
      → process (record g { sink = sink }) s frame ≡ process g s frame
  unfolding process may_acknowledge
  process-silent s frame h = elim (Bool-cases (is_result_frame frame)) [
    | inl e ↦ rw e (process_result-silent s (decode_command_result (some frame.bytes)))
    | inr e ↦ rw e (
        process_telemetry-silent s frame (decode_telemetry (some frame.bytes))
          (ground (arith, e, h)))
  ]

module _ {W M F : Type 0} (g : Surroundings W M F) where
  acknowledge_effect :
      (s : PacketProcessor W M F) (frame : ReceivedFrame) (packet : TelemetryPacket)
      (duplicate dropped : Bool)
      → ((acknowledge g s frame packet duplicate dropped).0.world
          ≡ (g.sink.transmit_ack s.world s.commands packet).0)
        × ((acknowledge g s frame packet duplicate dropped).0.commands
            ≡ (g.sink.transmit_ack s.world s.commands packet).1)
        × ((acknowledge g s frame packet duplicate dropped).1.ack
            ≡ (g.sink.transmit_ack s.world s.commands packet).2)
  unfolding acknowledge
  acknowledge_effect s frame packet duplicate dropped = ground arith

  -- The radio was asked for one acknowledgement of the packet, in this state of the surroundings.
  abbrev pub OneRequest :
      W
      → PacketProcessor W M F
      → TelemetryPacket
      → PacketProcessor W M F × PacketProcessingResult
      → Type 0
  OneRequest world s packet (s', result) =
      (s'.world ≡ (g.sink.transmit_ack world s.commands packet).0)
      × (s'.commands ≡ (g.sink.transmit_ack world s.commands packet).1)
      × (result.ack ≡ (g.sink.transmit_ack world s.commands packet).2)

  deliver_effect :
      (s : PacketProcessor W M F) (frame : ReceivedFrame) (packet : TelemetryPacket)
      → on_queue g s.world frame packet ≡ true
      → OneRequest (queued_world g s.world frame packet) s packet (deliver g s frame packet)
  unfolding deliver enqueue_new on_queue queued_world
  deliver_effect s frame packet h =
      elim (Bool-cases (g.queue.contains_key s.world (key_of packet)).1) [
        | inl d ↦ rw d (acknowledge_effect _ frame packet true false)
        | inr n ↦
            elim (Bool-cases
              (g.queue.durably_enqueue
                (g.clock.now_us (g.queue.contains_key s.world (key_of packet)).0).0
                (queued_record frame)).1.persisted) [
                  | inl k ↦ rw (n, k) (acknowledge_effect _ frame packet false _)
                  | inr k ↦ absurd (ground (arith, h, n, k))
                ]
      ]

  -- Where a frame is telemetry of the paired node and its packet is on the queue or stored there, the
  -- radio is asked for one acknowledgement of that packet, after the queue has it.
  pub process-asked :
      (s : PacketProcessor W M F) (frame : ReceivedFrame) (packet : TelemetryPacket)
      → is_result_frame frame ≡ false
      → decode_telemetry (some frame.bytes) ≡ ok packet
      → from_paired s.pairing packet ≡ true
      → on_queue g s.world frame packet ≡ true
      → OneRequest (queued_world g s.world frame packet) s packet (process g s frame)
  unfolding process
  process-asked s frame packet r e m h =
      rw (r, e, process_telemetry-deliver g s frame packet m)
        (deliver_effect (prepared g s frame packet) frame packet h)

  -- A valid packet that is not the paired node's, or that comes while pairing mode is on, reaches
  -- neither the queue nor the radio nor the command store, and is not shown as the latest one.
  pub process-foreign :
      (s : PacketProcessor W M F) (frame : ReceivedFrame) (packet : TelemetryPacket)
      → is_result_frame frame ≡ false
      → decode_telemetry (some frame.bytes) ≡ ok packet
      → from_paired s.pairing packet ≡ false
      → ((process g s frame).0.world ≡ s.world)
        × ((process g s frame).0.commands ≡ s.commands)
        × ((process g s frame).0.latest ≡ s.latest)
  unfolding process
  process-foreign s frame packet r e m = simp (r, e) (foreign s frame packet m)
    where
      foreign :
          (s : PacketProcessor W M F) (frame : ReceivedFrame) (packet : TelemetryPacket)
          → from_paired s.pairing packet ≡ false
          → ((process_telemetry g s frame (ok packet)).0.world ≡ s.world)
            × ((process_telemetry g s frame (ok packet)).0.commands ≡ s.commands)
            × ((process_telemetry g s frame (ok packet)).0.latest ≡ s.latest)
      foreign s frame packet m = unfold process_telemetry from_paired in ground arith

  confirmed_result :
      (s : PacketProcessor W M F) (packet : CommandResultPacket)
      → (process_result g s (ok packet)).1.disposition ≡ PacketDisposition.command_result_confirmed
      → (expects_result s packet ≡ true)
        × (is_open s.commands.stored.command.state ≡ true)
        × (s.commands.stored.command.command_id ≡ packet.command_id)
        × ((process_result g s (ok packet)).0.commands.stored.command.state
            ≡ CommandState.confirmed)
  unfolding process_result confirm commit confirmed
  confirmed_result s packet h = ground arith

  expected_session :
      (s : PacketProcessor W M F) (packet : CommandResultPacket)
      → expects_result s packet ≡ true
      → (matches s.pairing (some packet.node_id) ≡ true)
        × (s.latest.packet.persistent_session_id ≡ packet.persistent_session_id)
  unfolding expects_result
  expected_session s packet h = ground arith

  -- A frame that confirms a command comes from the paired node, from the session that was heard last,
  -- and names the command that was open; the command is confirmed afterwards.
  pub process-confirmed :
      (s : PacketProcessor W M F) (frame : ReceivedFrame) (packet : CommandResultPacket)
      → is_result_frame frame ≡ true
      → decode_command_result (some frame.bytes) ≡ ok packet
      → (process g s frame).1.disposition ≡ PacketDisposition.command_result_confirmed
      → (matches s.pairing (some packet.node_id) ≡ true)
        × (s.latest.packet.persistent_session_id ≡ packet.persistent_session_id)
        × (is_open s.commands.stored.command.state ≡ true)
        × (s.commands.stored.command.command_id ≡ packet.command_id)
        × ((process g s frame).0.commands.stored.command.state ≡ CommandState.confirmed)
  unfolding process
  process-confirmed s frame packet r e =
      rw (r, e)
        (λ h.
          let (expected, opened, named, closed) = confirmed_result s packet h in
          let (node, session) = expected_session s packet expected in
          (node, session, opened, named, closed))

-- ===== src/Processor/Restored.antt =====
-- lib/radio/packet_processor.cpp: reception was restored only by the acknowledgement.
use gathra_gateway.Prelude.{
  ◌≡◌, inl, inr, Bool, true, false, not, some, arith, Bool-cases, if◌then◌else◌,
}
use gathra_gateway.Protocol.Types.{TelemetryPacket, CommandResultPacket}
use gathra_gateway.Protocol.Header.{Decoded, ok, fail}
use gathra_gateway.Protocol.Telemetry.{decode_telemetry}
use gathra_gateway.Protocol.Result.{decode_command_result}
use gathra_gateway.Commands.{CommandStore, confirm}
use gathra_gateway.Processor.Types.{
  Surroundings, ReceivedFrame, PacketProcessor, PacketProcessingResult,
}
use gathra_gateway.Processor.{
  is_result_frame, expects_result, process_result, acknowledge, enqueue_new, deliver,
  process_telemetry, process, queued_record,
}
use gathra_gateway.Dedup.{TelemetryKey}
use gathra_gateway.Queue.Record.{QueueRecord}
use gathra_gateway.Queue.Entries.{key_of}
use gathra_gateway.Pairing.{paired, matches}

never : {A : Type 0} → false ≡ true → A
never h = absurd (ground arith)

-- `P` holds of the surroundings through every call, and `Q` after every acknowledgement.
pub record Restores {W M F : Type 0} (g : Surroundings W M F) (P Q : W → Type 0) : Type 0 where
  pub weaker : (w : W) → Q w → P w
  pub clock : (w : W) → P w → P (g.clock.now_us w).0
  pub contains : (w : W) (key : TelemetryKey) → P w → P (g.queue.contains_key w key).0
  pub enqueues : (w : W) (r : QueueRecord) → P w → P (g.queue.durably_enqueue w r).0
  pub notes : (w : W) → P w → P (g.queue.note_duplicate w)
  pub acknowledges :
      (w : W) (commands : CommandStore M) (packet : TelemetryPacket)
      → P w
      → Q (g.sink.transmit_ack w commands packet).0

module _ {W M F : Type 0} (g : Surroundings W M F) {P Q : W → Type 0} (v : Restores g P Q) where
  -- The result reports reception as restored only where `Q` holds of the surroundings.
  abbrev Ends : PacketProcessor W M F × PacketProcessingResult → Type 0
  Ends (s, result) = P s.world × (result.ack.receive_restored ≡ true → Q s.world)

  if_Ends :
      (t : Bool) (d d' : PacketProcessor W M F × PacketProcessingResult)
      → Ends d
      → Ends d'
      → Ends (if t then d else d')
  if_Ends true d d' h k = h
  if_Ends false d d' h k = k

  acknowledge-Ends :
      (s : PacketProcessor W M F) (frame : ReceivedFrame) (packet : TelemetryPacket)
      (duplicate dropped : Bool)
      → P s.world
      → Ends (acknowledge g s frame packet duplicate dropped)
  unfolding acknowledge
  acknowledge-Ends s frame packet duplicate dropped h =
      let q = v.acknowledges s.world s.commands packet h in
      if_Ends _ _ _ (v.weaker _ q, λ k. q) (v.weaker _ q, λ k. q)

  enqueue_new-Ends :
      (s : PacketProcessor W M F) (frame : ReceivedFrame) (packet : TelemetryPacket)
      → P s.world
      → Ends (enqueue_new g s frame packet)
  unfolding enqueue_new
  enqueue_new-Ends s frame packet h =
      let stored = v.enqueues _ (queued_record frame) (v.clock s.world h) in
      if_Ends _ _ _ (stored, never) (acknowledge-Ends _ frame packet false _ (v.clock _ stored))

  deliver-Ends :
      (s : PacketProcessor W M F) (frame : ReceivedFrame) (packet : TelemetryPacket)
      → P s.world
      → Ends (deliver g s frame packet)
  unfolding deliver
  deliver-Ends s frame packet h =
      let looked = v.contains s.world (key_of packet) h in
      if_Ends _ _ _ (acknowledge-Ends _ frame packet true false (v.notes _ looked))
        (enqueue_new-Ends _ frame packet looked)

  process_telemetry-Ends :
      (s : PacketProcessor W M F) (frame : ReceivedFrame) (t : Decoded TelemetryPacket)
      → P s.world
      → Ends (process_telemetry g s frame t)
  unfolding process_telemetry
  process_telemetry-Ends s frame (fail status) h = (h, never)
  process_telemetry-Ends s frame (ok packet) h =
      if_Ends s.pairing.pairing_mode _ _ (h, never)
        (if_Ends (not (paired s.pairing)) _ _ (h, never)
          (if_Ends (not (matches s.pairing (some packet.node_id))) _ _ (h, never)
            (deliver-Ends _ frame packet h)))

  process_result-Ends :
      (s : PacketProcessor W M F) (t : Decoded CommandResultPacket)
      → P s.world
      → Ends (process_result g s t)
  unfolding process_result
  process_result-Ends s (fail status) h = (h, never)
  process_result-Ends s (ok packet) h = elim (Bool-cases (expects_result s packet)) [
    | inr e ↦ rw e (h, never)
    | inl e ↦ elim (Bool-cases (confirm g.platform g.backend s.commands packet).1) [
      | inr k ↦ rw (e, k) (h, never)
      | inl k ↦ rw (e, k) (h, never)
    ]
  ]

  pub process-Ends :
      (s : PacketProcessor W M F) (frame : ReceivedFrame) → P s.world → Ends (process g s frame)
  unfolding process
  process-Ends s frame h = elim (Bool-cases (is_result_frame frame)) [
    | inl e ↦ rw e (process_result-Ends s (decode_command_result (some frame.bytes)) h)
    | inr e ↦ rw e (process_telemetry-Ends s frame (decode_telemetry (some frame.bytes)) h)
  ]

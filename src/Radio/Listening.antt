-- ===== src/Radio/Listening.antt =====
-- lib/radio/radio_service.cpp: whatever is received, the radio listens afterwards.
use gathra_gateway.Prelude.{
  ℕ, ◌+◌, ◌%◌, ◌^◌, ◌&&◌, not, ◌≡◌, refl, ap, ◌∙◌, inl, inr, true, false, ◌||◌, List, Option, none,
  some, length, ltb, ◌==◌, Bool-cases,
}
use gathra_gateway.Build.{radio_packet_capacity}
use gathra_gateway.Protocol.Types.{TelemetryPacket}
use gathra_gateway.Commands.Types.{Platform}
use gathra_gateway.Commands.{CommandBackend, CommandStore}
use gathra_gateway.Processor.Types.{AckTransmission, ReceivedFrame, PacketProcessor}
use gathra_gateway.Processor.{process}
use gathra_gateway.Processor.Restored.{Restores, process-Ends}
use gathra_gateway.Radio.Types.{RadioCode, Chip, Radio}
use gathra_gateway.Radio.Acknowledgement.{record_sent, transmit_encoded, transmit_ack}
use gathra_gateway.Radio.Driver.{
  Seen, IsDriver, IsOwned, IsListening, IsListening-IsOwned, start_receive-IsListening,
}
use gathra_gateway.Radio.Transmission.{transmit-IsListening}
use gathra_gateway.Radio.Reception.{
  World, Hardware, surroundings, handle_frame, handle_read, handle_length, handle_physical_receive,
}

abbrev with_crc_error : {H : Type 0} → Radio H → Radio H
with_crc_error r = record r {
  diagnostics = record (r.diagnostics) { crc_errors = (r.diagnostics.crc_errors + 1) % 2 ^ 64 };
}

abbrev with_read_error : {H : Type 0} → Radio H → Radio H
with_read_error r = record r {
  diagnostics = record (r.diagnostics) { read_errors = (r.diagnostics.read_errors + 1) % 2 ^ 64 };
}

abbrev with_length_error : {H : Type 0} → Chip H → Radio H → Radio H
with_length_error c r = record r {
  chip = c.standby r.chip;
  diagnostics = record (r.diagnostics) {
    invalid_length_packets = (r.diagnostics.invalid_length_packets + 1) % 2 ^ 64;
  };
}

module _ {H M : Type 0} {c : Chip H} (d : IsDriver c) (platform : Platform)
    (backend : CommandBackend M) where
  record_sent-IsListening :
      (r : Radio H) (commands : CommandStore M) (command_id : ℕ) (report : AckTransmission)
      → IsListening d r
      → IsListening d (record_sent c platform backend r commands command_id report).0
  unfolding record_sent
  record_sent-IsListening r commands command_id report l =
      elim (Bool-cases (report.success && report.receive_restored && not (command_id == 0))) [
        | inr e ↦ rw e l
        | inl e ↦ rw e (record {
          attached = ap Seen.interrupt (d.now r.chip) ∙ l.attached;
          known = l.known;
          receives = λ ready. ap Seen.receiving (d.now r.chip) ∙ l.receives ready;
        })
      ]

  transmit_encoded-IsListening :
      (r : Radio H) (commands : CommandStore M) (command_id : ℕ) (bytes : Option (List ℕ))
      → IsOwned d r
      → IsListening d (transmit_encoded c platform backend r commands command_id bytes).0
  unfolding transmit_encoded
  transmit_encoded-IsListening r commands command_id none o = start_receive-IsListening d r o
  transmit_encoded-IsListening r commands command_id (some bytes) o =
      record_sent-IsListening _ commands command_id _ (transmit-IsListening d r bytes)

  transmit_ack-IsListening :
      (r : Radio H) (commands : CommandStore M) (packet : TelemetryPacket)
      → IsOwned d r
      → IsListening d (transmit_ack c platform backend r commands packet).0
  unfolding transmit_ack
  transmit_ack-IsListening r commands packet o =
      transmit_encoded-IsListening (record r { chip = (c.now r.chip).0 }) commands _ _
        (ap Seen.interrupt (d.now r.chip) ∙ o)

module _ {S N H M F : Type 0} (h : Hardware S N H M F) (d : IsDriver h.chip) where
  surroundings-Restores :
      Restores
        (surroundings h)
        (λ (w : World S N H). IsOwned d w.radio)
        (λ (w : World S N H). IsListening d w.radio)
  unfolding surroundings
  surroundings-Restores = record {
    weaker = λ w l. IsListening-IsOwned d w.radio l;
    clock = λ w o. ap Seen.interrupt (d.now_us w.radio.chip) ∙ o;
    contains = λ w key o. o;
    enqueues = λ w r o. o;
    notes = λ w o. o;
    acknowledges = λ w commands packet o.
        transmit_ack-IsListening d h.platform h.backend w.radio commands packet o;
  }

  handle_frame-IsListening :
      (s : PacketProcessor (World S N H) M F) (frame : ReceivedFrame)
      → IsOwned d s.world.radio
      → IsListening d (handle_frame h s frame).0.world.radio
  unfolding handle_frame
  handle_frame-IsListening s frame o =
      let (owned, restored) = process-Ends (surroundings h) surroundings-Restores s frame o in
      elim (Bool-cases (process (surroundings h) s frame).1.ack.receive_restored) [
        | inl e ↦ rw e (restored e)
        | inr e ↦
            rw e
              (start_receive-IsListening d (process (surroundings h) s frame).0.world.radio owned)
      ]

  handle_read-IsListening :
      (boot : ℕ) (s : PacketProcessor (World S N H) M F) (observed length : ℕ) (bytes : List ℕ)
      (code : RadioCode)
      → IsOwned d s.world.radio
      → IsListening d (handle_read h boot s observed length bytes code).0.world.radio
  unfolding handle_read
  handle_read-IsListening boot s observed length bytes RadioCode.fine o =
      handle_frame-IsListening _ _ (ap Seen.interrupt (d.now s.world.radio.chip) ∙ o)
  handle_read-IsListening boot s observed length bytes RadioCode.crc_mismatch o =
      start_receive-IsListening d (with_crc_error s.world.radio) o
  handle_read-IsListening boot s observed length bytes RadioCode.tx_timeout o =
      start_receive-IsListening d (with_read_error s.world.radio) o
  handle_read-IsListening boot s observed length bytes (RadioCode.other n) o =
      start_receive-IsListening d (with_read_error s.world.radio) o

  handle_length-IsListening :
      (boot : ℕ) (s : PacketProcessor (World S N H) M F) (observed length : ℕ)
      → IsOwned d s.world.radio
      → IsListening d (handle_length h boot s observed length).0.world.radio
  unfolding handle_length
  handle_length-IsListening boot s observed length o =
      elim (Bool-cases (length == 0 || ltb radio_packet_capacity length)) [
        | inl e ↦ rw e (
            start_receive-IsListening d (with_length_error h.chip s.world.radio)
              ((d.standby s.world.radio.chip).interrupt ∙ o))
        | inr e ↦ rw e (
            handle_read-IsListening boot _ observed length _ _
              ((d.read_data s.world.radio.chip length).interrupt ∙ o))
      ]

  -- Let the radio know what its interrupt is attached to. However a reception ends, with a frame of a
  -- wrong length, one that cannot be read, one that is ignored or one that is acknowledged, the
  -- interrupt is attached to reception afterwards if the radio was ready, and the chip receives if
  -- the radio is still ready; if it was not ready, nothing changes.
  pub handle_physical_receive-IsListening :
      (boot : ℕ) (s : PacketProcessor (World S N H) M F)
      → IsOwned d s.world.radio
      → (s.world.radio.diagnostics.ready ≡ true
          → IsListening d (handle_physical_receive h boot s).0.world.radio)
        × (s.world.radio.diagnostics.ready ≡ false → handle_physical_receive h boot s ≡ (s, none))
  unfolding handle_physical_receive
  handle_physical_receive-IsListening boot s o = (
    λ e. rw e (
        handle_length-IsListening boot _ _ _ (ap Seen.interrupt (d.now_us s.world.radio.chip) ∙ o)),
    λ e. rw e refl,
  )

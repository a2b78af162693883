-- ===== src/Radio/Sent.antt =====
-- lib/radio/radio_service.cpp: what an acknowledgement tells the node, and what it records.
use gathra_gateway.Prelude.{
  ℕ, ◌≡◌, ◌⊎◌, refl, sym, ap, ◌∙◌, ◌∷◌, ◌&&◌, not, subst, inl, inr, ℤ, true, List, Option, none,
  some, arith, ◌==◌, Bool-cases,
}
use gathra_gateway.Protocol.Types.{TelemetryPacket, AckCommandPacket}
use gathra_gateway.Protocol.Header.{ok}
use gathra_gateway.Protocol.Telemetry.RoundTrip
use gathra_gateway.Protocol.Ack.{ack_matches, encode_ack_command, decode_ack_command}
use gathra_gateway.Protocol.Ack.RoundTrip.{received, decode-encode_ack_command}
use gathra_gateway.Commands.Types.{Platform}
use gathra_gateway.Commands.{CommandBackend, CommandStore, pending_for_ack, mark_sent}
use gathra_gateway.Processor.Types.{AckTransmission}
use gathra_gateway.Worker.Status.{trusted_ms}
use gathra_gateway.Radio.Types.{Chip, Radio}
use gathra_gateway.Radio.Acknowledgement.{
  ack_for, transmit, record_sent, transmit_encoded, transmit_ack,
}
use gathra_gateway.Radio.Driver.{Seen, IsDriver}
use gathra_gateway.Radio.Transmission.{Transmits, transmit_aired, transmit_success}
use gathra_gateway.Radio.Answer.{
  AreSendable, ack_for-IsAnswer, ack_for_id, open_id, received_matches,
}

module _ {H M : Type 0} (c : Chip H) (platform : Platform) (backend : CommandBackend M) where
  -- The acknowledgement of a packet, at the time that the clock answers.
  abbrev answer_to : Radio H → CommandStore M → TelemetryPacket → AckCommandPacket
  answer_to r commands packet = ack_for packet (c.now r.chip).1 (pending_for_ack commands)

  transmit_ack_lem :
      (r : Radio H) (commands : CommandStore M) (packet : TelemetryPacket) (bytes : List ℕ)
      → encode_ack_command (answer_to r commands packet) (some 96) ≡ some bytes
      → transmit_ack c platform backend r commands packet ≡ (
          let sent = transmit c (record r { chip = (c.now r.chip).0 }) bytes in
          record_sent c platform backend sent.0 commands
            (answer_to r commands packet).command_id
            sent.1)
  unfolding transmit_ack transmit_encoded
  transmit_ack_lem r commands packet bytes e = rw e refl

  record_sent_effect :
      (r : Radio H) (commands : CommandStore M) (command_id : ℕ) (report : AckTransmission)
      → let sent = record_sent c platform backend r commands command_id report in
        (sent.1 ≡ commands)
        ⊎ ((sent.2.success ≡ true)
            × (sent.2.receive_restored ≡ true)
            × ((at : ℤ) × (sent.1 ≡ (mark_sent platform backend commands command_id at).0)))
  unfolding record_sent
  record_sent_effect r commands command_id report = elim (Bool-cases report.success) [
    | inr e ↦ rw e (inl refl)
    | inl e ↦ rw e (elim (Bool-cases report.receive_restored) [
      | inr k ↦ rw k (inl refl)
      | inl k ↦ rw k (elim (Bool-cases (command_id == 0)) [
        | inl z ↦ rw z (inl refl)
        | inr z ↦ rw z (inr (refl, refl, (trusted_ms (c.now r.chip).1, refl)))
      ])
    ])
  ]

  transmit_encoded_effect :
      (r : Radio H) (commands : CommandStore M) (command_id : ℕ) (bytes : Option (List ℕ))
      → let sent = transmit_encoded c platform backend r commands command_id bytes in
        (sent.1 ≡ commands)
        ⊎ ((sent.2.success ≡ true)
            × (sent.2.receive_restored ≡ true)
            × ((at : ℤ) × (sent.1 ≡ (mark_sent platform backend commands command_id at).0)))
  unfolding transmit_encoded
  transmit_encoded_effect r commands command_id none = inl refl
  transmit_encoded_effect r commands command_id (some bytes) =
      record_sent_effect _ commands command_id _

  -- The command store changes only where the acknowledgement was sent, reception is restored and a
  -- command was open, and then only as `markSent` changes it.
  pub transmit_ack-mark_sent :
      (r : Radio H) (commands : CommandStore M) (packet : TelemetryPacket)
      → let sent = transmit_ack c platform backend r commands packet in
        (sent.1 ≡ commands)
        ⊎ ((sent.2.success ≡ true)
            × (sent.2.receive_restored ≡ true)
            × ((at : ℤ) × (sent.1
                  ≡ (mark_sent platform backend commands
                      (open_id (pending_for_ack commands))
                      at).0)))
  unfolding transmit_ack
  transmit_ack-mark_sent r commands packet =
      subst
        (λ (id : ℕ).
          let sent = transmit_ack c platform backend r commands packet in
          (sent.1 ≡ commands)
          ⊎ ((sent.2.success ≡ true)
              × (sent.2.receive_restored ≡ true)
              × ((at : ℤ) × (sent.1 ≡ (mark_sent platform backend commands id at).0))))
        (ack_for_id packet (c.now r.chip).1 (pending_for_ack commands))
        (transmit_encoded_effect _ commands _ _)

module _ {H M : Type 0} {c : Chip H} (d : IsDriver c) (platform : Platform)
    (backend : CommandBackend M) where
  -- Nothing is sent after the transmission, and its report is the one of the acknowledgement.
  record_sent_aired :
      (r : Radio H) (commands : CommandStore M) (command_id : ℕ) (report : AckTransmission)
      → let sent = record_sent c platform backend r commands command_id report in
        (sent.2 ≡ report) × ((d.seen sent.0.chip).aired ≡ (d.seen r.chip).aired)
  unfolding record_sent
  record_sent_aired r commands command_id report =
      elim (Bool-cases (report.success && report.receive_restored && not (command_id == 0))) [
        | inr e ↦ rw e (refl, refl)
        | inl e ↦ rw e (refl, ap Seen.aired (d.now r.chip))
      ]

  transmit_attempted : (r : Radio H) (bytes : List ℕ) → (transmit c r bytes).1.attempted ≡ true
  unfolding transmit
  transmit_attempted r bytes = refl

  sent_aired :
      (r : Radio H) (commands : CommandStore M) (command_id : ℕ) (bytes : List ℕ)
      → let sent = transmit c r bytes in
        let acked = record_sent c platform backend sent.0 commands command_id sent.1 in
        (acked.2.attempted ≡ true)
        × (Transmits c → acked.2.success ≡ true)
        × (acked.2.success ≡ true → (d.seen acked.0.chip).aired ≡ bytes ∷ (d.seen r.chip).aired)
  sent_aired r commands command_id bytes =
      let (same, quiet) =
        record_sent_aired (transmit c r bytes).0 commands command_id (transmit c r bytes).1 in
      (
        ap AckTransmission.attempted same ∙ transmit_attempted r bytes,
        λ t. ap AckTransmission.success same ∙ transmit_success c t r bytes,
        λ s. quiet ∙ transmit_aired d r bytes (sym (ap AckTransmission.success same) ∙ s),
      )

  -- For a packet that a node may send, and with no open command or one that may be sent, there are
  -- bytes that the node decodes to an acknowledgement which matches the packet and has the identifier
  -- of the open command, or 0 where none is open. A transmission is attempted, and it
  -- is a success if the chip starts, notifies and finishes as it is asked to; where it is reported as
  -- a success, one frame was put on the air, and it is these bytes.
  pub transmit_ack-decode :
      (r : Radio H) (commands : CommandStore M) (packet : TelemetryPacket)
      → RoundTrip.IsEncodable packet
      → AreSendable (pending_for_ack commands)
      → (bytes : List ℕ) × (ack : AckCommandPacket) × (decode_ack_command (some bytes) ≡ ok ack)
        × (ack_matches ack packet ≡ true)
        × (ack.command_id ≡ open_id (pending_for_ack commands))
        × ((transmit_ack c platform backend r commands packet).2.attempted ≡ true)
        × (Transmits c → (transmit_ack c platform backend r commands packet).2.success ≡ true)
        × ((transmit_ack c platform backend r commands packet).2.success ≡ true
            → (d.seen (transmit_ack c platform backend r commands packet).0.chip).aired
              ≡ bytes ∷ (d.seen r.chip).aired)
  unfolding received
  transmit_ack-decode r commands packet v s =
      let ack = answer_to c platform backend r commands packet in
      let a = ack_for-IsAnswer packet v (c.now r.chip).1 (pending_for_ack commands) s in
      let (bytes, encoded, decoded) = decode-encode_ack_command ack 96 a.encodable (omega arith) in
      let lem = transmit_ack_lem c platform backend r commands packet bytes encoded in
      let (attempted, succeeds, aired) =
        sent_aired (record r { chip = (c.now r.chip).0 }) commands ack.command_id bytes in
      (
        bytes,
        received ack,
        decoded,
        received_matches packet ack a,
        ack_for_id packet (c.now r.chip).1 (pending_for_ack commands),
        rw lem attempted,
        rw lem succeeds,
        rw lem (λ t.
            aired t
            ∙ ap (λ (frames : List (List ℕ)). bytes ∷ frames) (ap Seen.aired (d.now r.chip))),
      )

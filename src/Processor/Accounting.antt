-- ===== src/Processor/Accounting.antt =====
-- lib/radio/packet_processor.cpp: the counters of the processor account for every frame.
use gathra_gateway.Prelude.{
  ℕ, suc, ◌+◌, ◌^◌, ◌<◌, refl, subst, Bool, true, false, ◌&&◌, List, [], ◌∷◌, some, arith, length,
  Bool-cases, inl, inr,
}
use gathra_gateway.Protocol.Types.{TelemetryPacket, CommandResultPacket}
use gathra_gateway.Protocol.Header.{Decoded, ok, fail}
use gathra_gateway.Protocol.Telemetry.{decode_telemetry}
use gathra_gateway.Protocol.Result.{decode_command_result}
use gathra_gateway.Queue.Entries.{key_of}
use gathra_gateway.Processor.Types.{
  Surroundings, ReceivedFrame, PacketProcessor, PacketProcessingStats,
}
use gathra_gateway.Pairing.{paired, matches}
use gathra_gateway.Commands.{confirm}
use gathra_gateway.Processor.{
  increment, expects_result, queued_record, is_result_frame, process_result, timed, sent,
  acknowledge, enqueue_new, deliver, process_telemetry, process,
}
use gathra_gateway.Processor.Counters.{Accounts, IsAnswered, IsDelivered, answered_delivery}

module _ {W M F : Type 0} (g : Surroundings W M F) where
  acknowledge-IsAnswered :
      (s : PacketProcessor W M F) (frame : ReceivedFrame) (packet : TelemetryPacket)
      (duplicate dropped : Bool)
      → s.stats.ack_sent + 1 < 2 ^ 64
      → s.stats.ack_failures + 1 < 2 ^ 64
      → IsAnswered s.stats (acknowledge g s frame packet duplicate dropped).0.stats
  unfolding acknowledge timed sent
  acknowledge-IsAnswered s frame packet duplicate dropped h k =
      elim (Bool-cases (
        (g.sink.transmit_ack s.world s.commands packet).2.success
        && (g.sink.transmit_ack s.world s.commands packet).2.receive_restored)) [
          | inl e ↦ rw e (record {
            beside = record {
              protocol = refl;
              telemetry = refl;
              results = refl;
              errors = refl;
              unknown = refl;
              confirmed = refl;
              ignored = refl;
            };
            answer = omega arith;
            duplicates = refl;
            refused = refl;
          })
          | inr e ↦ rw e (record {
            beside = record {
              protocol = refl;
              telemetry = refl;
              results = refl;
              errors = refl;
              unknown = refl;
              confirmed = refl;
              ignored = refl;
            };
            answer = omega arith;
            duplicates = refl;
            refused = refl;
          })
        ]

  deliver-IsDelivered :
      (s : PacketProcessor W M F) (frame : ReceivedFrame) (packet : TelemetryPacket)
      → s.stats.ack_sent + 1 < 2 ^ 64
      → s.stats.ack_failures + 1 < 2 ^ 64
      → s.stats.durable_enqueue_failures + 1 < 2 ^ 64
      → IsDelivered s.stats (deliver g s frame packet).0.stats
  unfolding deliver enqueue_new
  deliver-IsDelivered s frame packet a b c =
      elim (Bool-cases (g.queue.contains_key s.world (key_of packet)).1) [
        | inl d ↦ rw d (
            answered_delivery s.stats _ _ (acknowledge-IsAnswered _ frame packet true false a b)
              (record {
                protocol = refl;
                telemetry = refl;
                results = refl;
                errors = refl;
                unknown = refl;
                confirmed = refl;
                ignored = refl;
              })
              refl refl refl (omega arith))
        | inr n ↦
            elim (Bool-cases
              (g.queue.durably_enqueue
                (g.clock.now_us (g.queue.contains_key s.world (key_of packet)).0).0
                (queued_record frame)).1.persisted) [
                  | inl k ↦
                      rw (n, k)
                        (answered_delivery s.stats _ _
                          (acknowledge-IsAnswered _ frame packet false _ a b)
                          (record {
                            protocol = refl;
                            telemetry = refl;
                            results = refl;
                            errors = refl;
                            unknown = refl;
                            confirmed = refl;
                            ignored = refl;
                          })
                          refl refl refl (omega arith))
                  | inr k ↦
                      rw (n, k)
                        (record {
                          beside = record {
                            protocol = refl;
                            telemetry = refl;
                            results = refl;
                            errors = refl;
                            unknown = refl;
                            confirmed = refl;
                            ignored = refl;
                          };
                          outcome = omega arith;
                          duplicates = omega arith;
                        })
                ]
      ]

  process_telemetry-Accounts :
      (n : ℕ) (s : PacketProcessor W M F) (frame : ReceivedFrame) (t : Decoded TelemetryPacket)
      → suc n < 2 ^ 64
      → Accounts n s.stats
      → Accounts (suc n) (process_telemetry g s frame t).0.stats
  unfolding process_telemetry
  process_telemetry-Accounts n s frame (fail status) h v = record {
    frames = omega (arith, v.frames);
    packets = v.packets;
    results = v.results;
    telemetry = v.telemetry;
    answered = v.answered;
  }
  process_telemetry-Accounts n s frame (ok packet) h v = elim (Bool-cases s.pairing.pairing_mode) [
    | inl m ↦ simp m (record {
      frames = omega (arith, v.frames);
      packets = omega (arith, v.frames, v.packets);
      results = v.results;
      telemetry = omega (arith, v.frames, v.telemetry);
      answered = v.answered;
    })
    | inr m ↦ elim (Bool-cases (paired s.pairing)) [
      | inr k ↦ simp (m, k) unknown
      | inl k ↦ elim (Bool-cases (matches s.pairing (some packet.node_id))) [
        | inr e ↦ simp (m, k, e) unknown
        | inl e ↦
            simp (m, k, e)
              (delivered (
                deliver-IsDelivered _ frame packet (omega (arith, v.frames, v.telemetry))
                  (omega (arith, v.frames, v.telemetry)) (omega (arith, v.frames, v.telemetry))))
      ]
    ]
  ]
    where
      valid : PacketProcessingStats F
      valid = record (s.stats) {
        valid_protocol_packets = increment s.stats.valid_protocol_packets;
        valid_telemetry_packets = increment s.stats.valid_telemetry_packets;
      }

      unknown :
          Accounts
            (suc n)
            (record valid { unknown_node_packets = increment s.stats.unknown_node_packets })
      unknown = record {
        frames = omega (arith, v.frames);
        packets = omega (arith, v.frames, v.packets);
        results = v.results;
        telemetry = omega (arith, v.frames, v.telemetry);
        answered = v.answered;
      }

      delivered :
          {after : PacketProcessingStats F} → IsDelivered valid after → Accounts (suc n) after
      delivered d = record {
        frames = omega (arith, v.frames, d.beside.errors, d.beside.telemetry, d.beside.results);
        packets =
            omega
              (arith, v.frames, v.packets, d.beside.protocol, d.beside.telemetry, d.beside.results);
        results = omega (arith, v.results, d.beside.results, d.beside.confirmed, d.beside.ignored);
        telemetry =
            omega (arith, v.frames, v.telemetry, d.outcome, d.beside.unknown, d.beside.telemetry);
        answered = omega (arith, v.answered, d.duplicates);
      }

  process_result-Accounts :
      (n : ℕ) (s : PacketProcessor W M F) (t : Decoded CommandResultPacket)
      → suc n < 2 ^ 64
      → Accounts n s.stats
      → Accounts (suc n) (process_result g s t).0.stats
  unfolding process_result
  process_result-Accounts n s (fail status) h v = record {
    frames = omega (arith, v.frames);
    packets = v.packets;
    results = v.results;
    telemetry = v.telemetry;
    answered = v.answered;
  }
  process_result-Accounts n s (ok packet) h v = elim (Bool-cases (expects_result s packet)) [
    | inr e ↦ rw e ignored
    | inl e ↦ elim (Bool-cases (confirm g.platform g.backend s.commands packet).1) [
      | inr k ↦ rw (e, k) ignored
      | inl k ↦ rw (e, k) counted
    ]
  ]
    where
      valid : PacketProcessingStats F
      valid = record (s.stats) {
        valid_protocol_packets = increment s.stats.valid_protocol_packets;
        valid_command_result_packets = increment s.stats.valid_command_result_packets;
      }

      ignored :
          Accounts
            (suc n)
            (record valid { command_results_ignored = increment s.stats.command_results_ignored })
      ignored = record {
        frames = omega (arith, v.frames);
        packets = omega (arith, v.frames, v.packets);
        results = omega (arith, v.frames, v.results);
        telemetry = v.telemetry;
        answered = v.answered;
      }

      counted :
          Accounts (suc n) (record valid {
            command_results_confirmed = increment s.stats.command_results_confirmed;
          })
      counted = record {
        frames = omega (arith, v.frames);
        packets = omega (arith, v.frames, v.packets);
        results = omega (arith, v.frames, v.results);
        telemetry = v.telemetry;
        answered = v.answered;
      }

  process-Accounts :
      (n : ℕ) (s : PacketProcessor W M F) (frame : ReceivedFrame)
      → suc n < 2 ^ 64
      → Accounts n s.stats
      → Accounts (suc n) (process g s frame).0.stats
  unfolding process
  process-Accounts n s frame h v = elim (Bool-cases (is_result_frame frame)) [
    | inl e ↦ rw e (process_result-Accounts n s (decode_command_result (some frame.bytes)) h v)
    | inr e ↦ rw e (process_telemetry-Accounts n s frame (decode_telemetry (some frame.bytes)) h v)
  ]

  pub process_all : PacketProcessor W M F → List ReceivedFrame → PacketProcessor W M F
  process_all s [] = s
  process_all s (frame ∷ frames) = process_all (process g s frame).0 frames

  -- However the queue, the radio and the clock behave, the counters account for the frames: after
  -- `n` frames and the given ones, fewer than 2 ^ 64 in all, they account for all of these.
  pub process_all-Accounts :
      (n : ℕ) (s : PacketProcessor W M F) (frames : List ReceivedFrame)
      → n + length frames < 2 ^ 64
      → Accounts n s.stats
      → Accounts (n + length frames) (process_all s frames).stats
  unfolding process_all
  process_all-Accounts n s [] h v = subst (λ (k : ℕ). Accounts k s.stats) (omega arith) v
  process_all-Accounts n s (frame ∷ frames) h v =
      subst (λ (k : ℕ). Accounts k (process_all s (frame ∷ frames)).stats) (omega arith)
        (process_all-Accounts (suc n) (process g s frame).0 frames (omega (arith, h))
          (process-Accounts n s frame (omega (arith, h)) v))

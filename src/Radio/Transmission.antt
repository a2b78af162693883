-- ===== src/Radio/Transmission.antt =====
-- lib/radio/radio_service.cpp: the interrupt and the air during the transmission of an acknowledgement.
use gathra_gateway.Prelude.{
  ℕ, ◌≡◌, ap, ◌∙◌, inl, inr, true, List, ◌∷◌, length, ltb, arith, Bool-cases,
}
use gathra_gateway.Text.{codes}
use gathra_gateway.Radio.Types.{is_fine, Dio0Action, Chip, Radio}
use gathra_gateway.Radio.Acknowledgement.{
  claim_for_transmission, air_limit_ms, await_sent, send_bytes, transmit,
}
use gathra_gateway.Radio.Driver.{
  Seen, IsDriver, IsListening, start_receive-IsListening, start_receive_rest,
}

-- The chip when the transmission starts.
abbrev starting : {H : Type 0} → Chip H → Radio H → H
starting c r = claim_for_transmission c (c.notify_take r.chip 0).0 r.dio0_action

-- The radio between the transmission and reception.
abbrev between : {H : Type 0} → Chip H → Radio H → List ℕ → Radio H
between c r bytes =
    let (h, code, success) = send_bytes c (c.now_us (starting c r)).0 bytes in
    record r {
      chip = (c.now_us h).0;
      dio0_action = Dio0Action.transmit;
      diagnostics = record (r.diagnostics) { state = codes "ACK_TX"; last_code = code };
    }

module _ {H : Type 0} {c : Chip H} (d : IsDriver c) where
  claim_for_transmission_lem :
      (h : H) (a : Dio0Action)
      → (d.seen (claim_for_transmission c h a)).interrupt ≡ Dio0Action.transmit
  unfolding claim_for_transmission
  claim_for_transmission_lem h Dio0Action.none = ap Seen.interrupt (d.set_sent_action h)
  claim_for_transmission_lem h Dio0Action.receive =
      ap Seen.interrupt (d.set_sent_action (c.clear_received_action h))
  claim_for_transmission_lem h Dio0Action.transmit =
      ap Seen.interrupt (d.set_sent_action (c.clear_received_action h))

  await_sent_interrupt :
      (h : H) (n : ℕ) → (d.seen (await_sent c h n).0).interrupt ≡ (d.seen h).interrupt
  unfolding await_sent
  await_sent_interrupt h n =
      let limit = air_limit_ms c h n in
      let (h', notified) = c.notify_take h limit in
      let waited = ap Seen.interrupt (d.notify_take h limit) in
      elim (Bool-cases (ltb 0 notified)) [
        | inl e ↦ rw e ((d.finish_transmit h').interrupt ∙ waited)
        | inr e ↦ rw e ((d.standby h').interrupt ∙ waited)
      ]

  send_bytes_interrupt :
      (h : H) (bytes : List ℕ) → (d.seen (send_bytes c h bytes).0).interrupt ≡ (d.seen h).interrupt
  unfolding send_bytes
  send_bytes_interrupt h bytes = elim (Bool-cases (is_fine (c.start_transmit h bytes).1)) [
    | inl e ↦ rw e (await_sent_interrupt _ (length bytes) ∙ d.start_transmit_interrupt h bytes)
    | inr e ↦ rw e (d.start_transmit_interrupt h bytes)
  ]

  -- A transmission takes the interrupt and gives it back to reception.
  pub transmit-IsListening : (r : Radio H) (bytes : List ℕ) → IsListening d (transmit c r bytes).0
  unfolding transmit
  transmit-IsListening r bytes =
      let h = (c.now_us (starting c r)).0 in
      start_receive-IsListening d (between c r bytes) (
        ap Seen.interrupt (d.now_us (send_bytes c h bytes).0)
        ∙ send_bytes_interrupt h bytes
        ∙ ap Seen.interrupt (d.now_us (starting c r))
        ∙ claim_for_transmission_lem (c.notify_take r.chip 0).0 r.dio0_action)

  claim_for_transmission_aired :
      (h : H) (a : Dio0Action) → (d.seen (claim_for_transmission c h a)).aired ≡ (d.seen h).aired
  unfolding claim_for_transmission
  claim_for_transmission_aired h Dio0Action.none = ap Seen.aired (d.set_sent_action h)
  claim_for_transmission_aired h Dio0Action.receive =
      ap Seen.aired (d.set_sent_action (c.clear_received_action h))
      ∙ ap Seen.aired (d.clear_received_action h)
  claim_for_transmission_aired h Dio0Action.transmit =
      ap Seen.aired (d.set_sent_action (c.clear_received_action h))
      ∙ ap Seen.aired (d.clear_received_action h)

  await_sent_aired : (h : H) (n : ℕ) → (d.seen (await_sent c h n).0).aired ≡ (d.seen h).aired
  unfolding await_sent
  await_sent_aired h n =
      let (h', notified) = c.notify_take h (air_limit_ms c h n) in
      let waited = ap Seen.aired (d.notify_take h (air_limit_ms c h n)) in
      elim (Bool-cases (ltb 0 notified)) [
        | inl e ↦ rw e ((d.finish_transmit h').aired ∙ waited)
        | inr e ↦ rw e ((d.standby h').aired ∙ waited)
      ]

  send_bytes_aired :
      (h : H) (bytes : List ℕ)
      → (send_bytes c h bytes).2 ≡ true
      → (d.seen (send_bytes c h bytes).0).aired ≡ bytes ∷ (d.seen h).aired
  unfolding send_bytes
  send_bytes_aired h bytes = elim (Bool-cases (is_fine (c.start_transmit h bytes).1)) [
    | inl e ↦ rw e (λ k. await_sent_aired _ (length bytes) ∙ d.start_transmit_aired h bytes e)
    | inr e ↦ rw e (λ k. absurd (ground arith))
  ]

  -- A transmission that is reported as a success put these bytes on the air, once, and no others.
  pub transmit_aired :
      (r : Radio H) (bytes : List ℕ)
      → (transmit c r bytes).1.success ≡ true
      → (d.seen (transmit c r bytes).0.chip).aired ≡ bytes ∷ (d.seen r.chip).aired
  unfolding transmit
  transmit_aired r bytes s =
      let h = (c.now_us (starting c r)).0 in
      (start_receive_rest d (between c r bytes)).1
      ∙ ap Seen.aired (d.now_us (send_bytes c h bytes).0)
      ∙ send_bytes_aired h bytes s
      ∙ ap (λ (frames : List (List ℕ)). bytes ∷ frames)
          (ap Seen.aired (d.now_us (starting c r))
            ∙ claim_for_transmission_aired (c.notify_take r.chip 0).0 r.dio0_action
            ∙ ap Seen.aired (d.notify_take r.chip 0))

-- A chip that starts each transmission, notifies of its end within the limit and finishes it.
pub record Transmits {H : Type 0} (c : Chip H) : Type 0 where
  pub starts : (h : H) (bytes : List ℕ) → is_fine (c.start_transmit h bytes).1 ≡ true
  pub notifies : (h : H) (limit : ℕ) → ltb 0 (c.notify_take h limit).1 ≡ true
  pub finishes : (h : H) → is_fine (c.finish_transmit h).1 ≡ true

module _ {H : Type 0} (c : Chip H) (t : Transmits c) where
  await_sent_success : (h : H) (n : ℕ) → (await_sent c h n).2 ≡ true
  unfolding await_sent
  await_sent_success h n =
      let limit = air_limit_ms c h n in
      rw (t.notifies h limit) (t.finishes (c.notify_take h limit).0)

  send_bytes_success : (h : H) (bytes : List ℕ) → (send_bytes c h bytes).2 ≡ true
  unfolding send_bytes
  send_bytes_success h bytes = rw (t.starts h bytes) (await_sent_success _ (length bytes))

  pub transmit_success : (r : Radio H) (bytes : List ℕ) → (transmit c r bytes).1.success ≡ true
  unfolding transmit
  transmit_success r bytes = send_bytes_success _ bytes

-- ===== src/Radio/Driver.antt =====
-- lib/radio/radio_service.cpp: what the source relies on in the driver of the SX1278, and what the
-- interrupt, the settings and the air are after a step of the radio.
use gathra_gateway.Prelude.{ℕ, ◌≡◌, refl, ap, ◌∙◌, Bool, true, List, ◌∷◌, Option, some}
use gathra_gateway.Config.{RadioConfig}
use gathra_gateway.Radio.Types.{is_fine, Dio0Action, Chip, Radio}
use gathra_gateway.Radio.Configuration.{claim_interrupt, start_receive_unlocked}

-- What the interrupt of DIO0 is attached to, the settings of the last `begin`, whether the chip is in
-- continuous reception, and the frames on the air, the last one first.
pub record Seen : Type 0 where
  pub interrupt : Dio0Action
  pub settings : Option RadioConfig
  pub receiving : Bool
  pub aired : List (List ℕ)

-- The interrupt, the settings and the air are what they were; the mode need not be.
pub record IsBeside (v w : Seen) : Type 0 where
  pub interrupt : w.interrupt ≡ v.interrupt
  pub settings : w.settings ≡ v.settings
  pub aired : w.aired ≡ v.aired

beside_same : (v w : Seen) → w ≡ v → IsBeside v w
beside_same v w e = record {
  interrupt = ap Seen.interrupt e;
  settings = ap Seen.settings e;
  aired = ap Seen.aired e;
}

pub beside-beside : {u v w : Seen} → IsBeside u v → IsBeside v w → IsBeside u w
beside-beside a b = record {
  interrupt = b.interrupt ∙ a.interrupt;
  settings = b.settings ∙ a.settings;
  aired = b.aired ∙ a.aired;
}

-- The driver as it is documented: each call of `set…Action` attaches the interrupt and each call of
-- `clear…Action` detaches it, `begin` sets the settings, `startReceive` leaves the chip in reception
-- and `startTransmit` puts the bytes on the air where they succeed. No call changes more.
pub record IsDriver {H : Type 0} (c : Chip H) : Type 0 where
  pub seen : H → Seen
  pub begin_interrupt :
      (h : H) (config : RadioConfig) → (seen (c.begin h config).0).interrupt ≡ (seen h).interrupt
  pub begin_settings :
      (h : H) (config : RadioConfig)
      → is_fine (c.begin h config).1 ≡ true
      → (seen (c.begin h config).0).settings ≡ some config
  pub set_crc : (h : H) → IsBeside (seen h) (seen (c.set_crc h).0)
  pub standby : (h : H) → IsBeside (seen h) (seen (c.standby h))
  pub start_receive : (h : H) → IsBeside (seen h) (seen (c.start_receive h).0)
  pub start_receive_mode :
      (h : H) → is_fine (c.start_receive h).1 ≡ true → (seen (c.start_receive h).0).receiving ≡ true
  pub start_transmit_interrupt :
      (h : H) (bytes : List ℕ) → (seen (c.start_transmit h bytes).0).interrupt ≡ (seen h).interrupt
  pub start_transmit_aired :
      (h : H) (bytes : List ℕ)
      → is_fine (c.start_transmit h bytes).1 ≡ true
      → (seen (c.start_transmit h bytes).0).aired ≡ bytes ∷ (seen h).aired
  pub finish_transmit : (h : H) → IsBeside (seen h) (seen (c.finish_transmit h).0)
  pub read_data : (h : H) (length : ℕ) → IsBeside (seen h) (seen (c.read_data h length).0)
  pub set_received_action :
      (h : H) → seen (c.set_received_action h) ≡ record (seen h) { interrupt = Dio0Action.receive }
  pub clear_received_action :
      (h : H) → seen (c.clear_received_action h) ≡ record (seen h) { interrupt = Dio0Action.none }
  pub set_sent_action :
      (h : H) → seen (c.set_sent_action h) ≡ record (seen h) { interrupt = Dio0Action.transmit }
  pub clear_sent_action :
      (h : H) → seen (c.clear_sent_action h) ≡ record (seen h) { interrupt = Dio0Action.none }
  pub notify_take : (h : H) (limit : ℕ) → seen (c.notify_take h limit).0 ≡ seen h
  pub now_us : (h : H) → seen (c.now_us h).0 ≡ seen h
  pub now : (h : H) → seen (c.now h).0 ≡ seen h

-- The chip before the call of `startReceive`, its interrupt given to reception.
abbrev pub claimed : {H : Type 0} → Chip H → Radio H → H
claimed c r = (c.notify_take (claim_interrupt c r.chip r.dio0_action) 0).0

module _ {H : Type 0} {c : Chip H} (d : IsDriver c) where
  -- The radio knows what the interrupt is attached to.
  abbrev pub IsOwned : Radio H → Type 0
  IsOwned r = (d.seen r.chip).interrupt ≡ r.dio0_action

  -- The interrupt is attached to reception, and the chip receives if the radio is ready.
  pub record IsListening (r : Radio H) : Type 0 where
    pub attached : (d.seen r.chip).interrupt ≡ Dio0Action.receive
    pub known : r.dio0_action ≡ Dio0Action.receive
    pub receives : r.diagnostics.ready ≡ true → (d.seen r.chip).receiving ≡ true

  pub IsListening-IsOwned : (r : Radio H) → IsListening r → IsOwned r
  IsListening-IsOwned r l = rw l.known l.attached

  claim_interrupt_lem :
      (h : H) (a : Dio0Action)
      → (d.seen h).interrupt ≡ a
      → d.seen (claim_interrupt c h a) ≡ record (d.seen h) { interrupt = Dio0Action.receive }
  unfolding claim_interrupt
  claim_interrupt_lem h Dio0Action.transmit e =
      d.set_received_action (c.clear_sent_action h) ∙ rw (d.clear_sent_action h) refl
  claim_interrupt_lem h Dio0Action.none e = d.set_received_action h
  claim_interrupt_lem h Dio0Action.receive e = rw⁻¹ e refl

  pub claim_interrupt_rest :
      (h : H) (a : Dio0Action)
      → ((d.seen (claim_interrupt c h a)).settings ≡ (d.seen h).settings)
        × ((d.seen (claim_interrupt c h a)).aired ≡ (d.seen h).aired)
  unfolding claim_interrupt
  claim_interrupt_rest h Dio0Action.transmit =
      rw (d.set_received_action (c.clear_sent_action h), d.clear_sent_action h) (refl, refl)
  claim_interrupt_rest h Dio0Action.none = rw (d.set_received_action h) (refl, refl)
  claim_interrupt_rest h Dio0Action.receive = (refl, refl)

  -- Reception that is started leaves the radio listening, and the settings and the air as they are.
  pub start_receive-IsListening :
      (r : Radio H) → IsOwned r → IsListening (start_receive_unlocked c r).0
  unfolding start_receive_unlocked
  start_receive-IsListening r o = record {
    attached =
        (d.start_receive (claimed c r)).interrupt
        ∙ ap Seen.interrupt (d.notify_take (claim_interrupt c r.chip r.dio0_action) 0)
        ∙ ap Seen.interrupt (claim_interrupt_lem r.chip r.dio0_action o);
    known = refl;
    receives = d.start_receive_mode (claimed c r);
  }

  pub start_receive_rest :
      (r : Radio H)
      → ((d.seen (start_receive_unlocked c r).0.chip).settings ≡ (d.seen r.chip).settings)
        × ((d.seen (start_receive_unlocked c r).0.chip).aired ≡ (d.seen r.chip).aired)
  unfolding start_receive_unlocked
  start_receive_rest r =
      let started = d.start_receive (claimed c r) in
      let quiet = d.notify_take (claim_interrupt c r.chip r.dio0_action) 0 in
      let (settings, aired) = claim_interrupt_rest r.chip r.dio0_action in
      (
        started.settings ∙ ap Seen.settings quiet ∙ settings,
        started.aired ∙ ap Seen.aired quiet ∙ aired,
      )

-- ===== src/Radio/Configuration.antt =====
-- lib/radio/radio_service.cpp: the configuration of the chip, reception, and the way back from a
-- configuration that fails.
use gathra_gateway.Prelude.{Bool, true, false, not, if◌then◌else◌}
use gathra_gateway.Text.{codes}
use gathra_gateway.Config.{RadioConfig}
use gathra_gateway.Radio.Types.{is_fine, Dio0Action, Chip, Radio}

module _ {H : Type 0} (c : Chip H) where
  unfoldable pub configure_unlocked : Radio H → RadioConfig → Radio H × Bool
  configure_unlocked r config =
      let (h, begun) = c.begin r.chip config in
      let (h', with_crc) = c.set_crc h in
      let d = record (r.diagnostics) { state = codes "CONFIGURING" } in
      if not (is_fine begun)
      then (
        record r {
          chip = h;
          diagnostics = record d { state = codes "ERROR"; last_code = begun; ready = false };
        },
        false,
      )
      else if not (is_fine with_crc)
      then (
        record r {
          chip = h';
          diagnostics = record d { state = codes "ERROR"; last_code = with_crc; ready = false };
        },
        false,
      )
      else (
        record r {
          chip = h';
          diagnostics = record d { last_code = with_crc; ready = true; config = config };
        },
        true,
      )

  -- The interrupt is given to reception, whoever had it.
  unfoldable pub claim_interrupt : H → Dio0Action → H
  claim_interrupt h Dio0Action.transmit = c.set_received_action (c.clear_sent_action h)
  claim_interrupt h Dio0Action.none = c.set_received_action h
  claim_interrupt h Dio0Action.receive = h

  unfoldable pub start_receive_unlocked : Radio H → Radio H × Bool
  unfolding claim_interrupt
  start_receive_unlocked r =
      let (h, notified) = c.notify_take (claim_interrupt r.chip r.dio0_action) 0 in
      let (h', code) = c.start_receive h in
      let okay = is_fine code in
      (
        record r {
          chip = h';
          dio0_action = Dio0Action.receive;
          diagnostics = record (r.diagnostics) {
            last_code = code;
            ready = okay;
            state = if okay then codes "RECEIVING" else codes "RX_ERROR";
          };
        },
        okay,
      )

  -- `configureUnlocked(config) && startReceiveUnlocked()`
  unfoldable pub configure_and_receive : Radio H → RadioConfig → Radio H × Bool
  configure_and_receive r config =
      let (r', configured) = configure_unlocked r config in
      if configured then start_receive_unlocked r' else (r', false)

  unfoldable pub apply_config : Radio H → RadioConfig → Radio H × Bool
  unfolding configure_and_receive
  apply_config r candidate =
      let previous = r.diagnostics.config in
      let (r', applied) = configure_and_receive (record r { chip = c.standby r.chip }) candidate in
      if applied then (r', true) else ((configure_and_receive r' previous).0, false)

  unfoldable pub restart : Radio H → Radio H × Bool
  unfolding configure_and_receive
  restart r = configure_and_receive (record r { chip = c.standby r.chip }) r.diagnostics.config

  -- The part of `begin` under the lock: the settings are kept also where the chip does not answer.
  unfoldable pub begin : Radio H → RadioConfig → Radio H × Bool
  unfolding configure_and_receive
  begin r config =
      configure_and_receive (record r { diagnostics = record (r.diagnostics) { config = config } })
        config

-- ===== src/Radio/Rollback.antt =====
-- lib/radio/radio_service.cpp: a configuration that fails does not replace the one before.
use gathra_gateway.Prelude.{
  ◌≡◌, refl, ap, ◌∙◌, ◌⊎◌, inl, inr, Bool, true, false, some, arith, Bool-cases,
}
use gathra_gateway.Config.{RadioConfig}
use gathra_gateway.Radio.Types.{is_fine, Chip, Radio}
use gathra_gateway.Radio.Configuration.{
  claim_interrupt, configure_unlocked, start_receive_unlocked, configure_and_receive, apply_config,
}
use gathra_gateway.Radio.Driver.{
  Seen, IsDriver, claimed, claim_interrupt_rest, IsOwned, IsListening, IsListening-IsOwned,
  start_receive-IsListening, start_receive_rest,
}

clash : {b : Bool} → b ≡ true → b ≡ false → ⊥
clash h k = absurd (ground arith)

module _ {H : Type 0} {c : Chip H} (d : IsDriver c) where
  -- The radio receives, with this configuration in the chip and in the diagnostics.
  pub record Receives (config : RadioConfig) (r : Radio H) : Type 0 where
    pub ready : r.diagnostics.ready ≡ true
    pub configured : r.diagnostics.config ≡ config
    pub settings : (d.seen r.chip).settings ≡ some config
    pub listens : IsListening d r

  -- The driver takes this configuration whenever it is asked to, and receives with it.
  pub record Accepts (config : RadioConfig) : Type 0 where
    pub begins : (h : H) → is_fine (c.begin h config).1 ≡ true
    pub crc : (h : H) → (d.seen h).settings ≡ some config → is_fine (c.set_crc h).1 ≡ true
    pub receives :
        (h : H) → (d.seen h).settings ≡ some config → is_fine (c.start_receive h).1 ≡ true

  start_receive_ready :
      (r : Radio H)
      → (start_receive_unlocked c r).0.diagnostics.ready ≡ (start_receive_unlocked c r).1
  unfolding start_receive_unlocked
  start_receive_ready r = refl

  start_receive_config :
      (r : Radio H) → (start_receive_unlocked c r).0.diagnostics.config ≡ r.diagnostics.config
  unfolding start_receive_unlocked
  start_receive_config r = refl

  start_receive_fine :
      (r : Radio H) (config : RadioConfig)
      → Accepts config
      → (d.seen r.chip).settings ≡ some config
      → (start_receive_unlocked c r).1 ≡ true
  unfolding start_receive_unlocked
  start_receive_fine r config a settings = a.receives (claimed c r) (
      ap Seen.settings (d.notify_take (claim_interrupt c r.chip r.dio0_action) 0)
      ∙ (claim_interrupt_rest d r.chip r.dio0_action).0
      ∙ settings)

  configure_effect :
      (r : Radio H) (config : RadioConfig)
      → IsOwned d r
      → IsOwned d (configure_unlocked c r config).0
        × ((configure_unlocked c r config).1 ≡ true
            → ((d.seen (configure_unlocked c r config).0.chip).settings ≡ some config)
              × ((configure_unlocked c r config).0.diagnostics.config ≡ config))
        × ((configure_unlocked c r config).1 ≡ false
            → (configure_unlocked c r config).0.diagnostics.ready ≡ false)
        × (Accepts config → (configure_unlocked c r config).1 ≡ true)
  unfolding configure_unlocked
  configure_effect r config o =
      let h = (c.begin r.chip config).0 in
      let kept = d.begin_interrupt r.chip config in
      let beside = d.set_crc h in
      elim (Bool-cases (is_fine (c.begin r.chip config).1)) [
        | inr e ↦ rw e (
          kept ∙ o,
          λ k. absurd (ground arith),
          λ k. refl,
          λ a. absurd (ground (arith, e, a.begins r.chip)),
        )
        | inl e ↦ elim (Bool-cases (is_fine (c.set_crc h).1)) [
          | inr k ↦
              rw (e, k)
                (
                  beside.interrupt ∙ kept ∙ o,
                  λ t. absurd (ground arith),
                  λ t. refl,
                  λ a. absurd (ground (arith, k, a.crc h (d.begin_settings r.chip config e))),
                )
          | inl k ↦
              rw (e, k)
                (
                  beside.interrupt ∙ kept ∙ o,
                  λ t. (beside.settings ∙ d.begin_settings r.chip config e, refl),
                  λ t. absurd (ground arith),
                  λ a. refl,
                )
        ]
      ]

  start_effect :
      (r : Radio H) (config : RadioConfig)
      → IsOwned d r
      → (d.seen r.chip).settings ≡ some config
      → r.diagnostics.config ≡ config
      → IsOwned d (start_receive_unlocked c r).0
        × ((start_receive_unlocked c r).1 ≡ true → Receives config (start_receive_unlocked c r).0)
        × ((start_receive_unlocked c r).1 ≡ false
            → (start_receive_unlocked c r).0.diagnostics.ready ≡ false)
        × (Accepts config → (start_receive_unlocked c r).1 ≡ true)
  start_effect r config o settings configured =
      let listening = start_receive-IsListening d r o in
      let kept = (start_receive_rest d r).0 ∙ settings in
      (
        IsListening-IsOwned d (start_receive_unlocked c r).0 listening,
        λ h. record {
          ready = start_receive_ready r ∙ h;
          configured = start_receive_config r ∙ configured;
          settings = kept;
          listens = listening;
        },
        λ h. start_receive_ready r ∙ h,
        λ a. start_receive_fine r config a settings,
      )

  -- The configuration is tried: the radio receives with it, or it is not ready and the driver has
  -- refused the configuration.
  configure_and_receive_effect :
      (r : Radio H) (config : RadioConfig)
      → IsOwned d r
      → IsOwned d (configure_and_receive c r config).0
        × ((configure_and_receive c r config).1 ≡ true
            → Receives config (configure_and_receive c r config).0)
        × ((configure_and_receive c r config).1 ≡ false
            → ((configure_and_receive c r config).0.diagnostics.ready ≡ false) × ¬ Accepts config)
  unfolding configure_and_receive
  configure_and_receive_effect r config o =
      let (owned, done, undone, accepted) = configure_effect r config o in
      elim (Bool-cases (configure_unlocked c r config).1) [
        | inr e ↦
            rw e (owned, λ h. absurd (ground arith), λ h. (undone e, λ a. clash (accepted a) e))
        | inl e ↦
            let (settings, configured) = done e in
            let (owned', receives, fails, starts) =
              start_effect (configure_unlocked c r config).0 config owned settings configured in
            rw e (owned', receives, λ h. (fails h, λ a. clash (starts a) h))
      ]

  -- Where `applyConfig` succeeds, the radio receives with the candidate. Where it fails, the radio
  -- receives with the configuration that it had before, or it is not ready and the driver has refused
  -- that configuration too. The radio is one that knows what its interrupt is attached to.
  pub apply_config-Receives :
      (r : Radio H) (candidate : RadioConfig)
      → IsOwned d r
      → ((apply_config c r candidate).1 ≡ true → Receives candidate (apply_config c r candidate).0)
        × ((apply_config c r candidate).1 ≡ false
            → Receives r.diagnostics.config (apply_config c r candidate).0
              ⊎ (((apply_config c r candidate).0.diagnostics.ready ≡ false)
                  × ¬ Accepts r.diagnostics.config))
  unfolding apply_config
  apply_config-Receives r candidate o =
      let still = record r { chip = c.standby r.chip } in
      let (owned, receives, fails) =
        configure_and_receive_effect still candidate ((d.standby r.chip).interrupt ∙ o) in
      elim (Bool-cases (configure_and_receive c still candidate).1) [
        | inl e ↦ rw e (λ h. receives e, λ h. absurd (ground arith))
        | inr e ↦
            let tried = (configure_and_receive c still candidate).0 in
            let (owned', again, lost) =
              configure_and_receive_effect tried r.diagnostics.config owned in
            rw e (
              λ h. absurd (ground arith),
              λ h. elim (Bool-cases (configure_and_receive c tried r.diagnostics.config).1) [
                | inl k ↦ inl (again k)
                | inr k ↦ inr (lost k)
              ],
            )
      ]

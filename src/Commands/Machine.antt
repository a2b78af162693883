-- ===== src/Commands/Machine.antt =====
-- lib/commands/command_store.cpp: the life of a command, and the identifiers that are given out.
use gathra_gateway.Prelude.{
  ℕ, ◌+◌, ◌^◌, ◌≤◌, ◌<◌, ◌≡◌, ◌≢◌, ap, ◌∙◌, ◌⊎◌, inl, inr, ℤ, true, false, List, [], ◌∷◌, arith,
  Bool-cases, if◌then◌else◌,
}
use gathra_gateway.Protocol.Types.{CommandType, CommandResultPacket}
use gathra_gateway.Protocol.Codes.{command_type_eq}
use gathra_gateway.Commands.Types.{CommandState, GatewayCommand, CommandStoreRecord, Platform}
use gathra_gateway.Commands.{
  CommandBackend, CommandStore, is_open, checksum, created, marked_sent, confirmed, cancelled,
  commit, create, mark_sent, confirm, cancel,
}

pub data Call : Type 0 where
  creates : CommandType → ℕ → ℕ → ℤ → Call
  sends : ℕ → ℤ → Call
  confirms : CommandResultPacket → Call
  cancels : ℕ → Call

-- How a method may change the command.
pub data Move (old new : GatewayCommand) : Type 0 where
  keep : new ≡ old → Move old new
  open_new :
      is_open old.state ≡ false
      → new.state ≡ CommandState.pending
      → new.send_count ≡ 0
      → command_type_eq new.type CommandType.none ≡ false
      → Move old new
  send :
      is_open old.state ≡ true
      → new.state ≡ CommandState.sent
      → new.command_id ≡ old.command_id
      → new.type ≡ old.type
      → Move old new
  close :
      is_open old.state ≡ true
      → (new.state ≡ CommandState.confirmed) ⊎ (new.state ≡ CommandState.cancelled)
      → new.command_id ≡ old.command_id
      → new.type ≡ old.type
      → Move old new

-- No identifier was given out that is not below the next one, and the next one fits 32 bits.
pub record IsSafe (r : CommandStoreRecord) : Type 0 where
  pub below : r.command.command_id < r.next_command_id
  pub fits : r.next_command_id < 2 ^ 32

-- Each number is above the one before it, the first at least `low`.
abbrev pub Ascending : ℕ → List ℕ → Type 0
Ascending low [] = Unit
Ascending low (x ∷ xs) = (low ≤ x) × Ascending (x + 1) xs

sealed : Platform → CommandStoreRecord → CommandStoreRecord
sealed p r = record r { checksum = checksum p r }

module _ {M : Type 0} (p : Platform) (b : CommandBackend M) where
  unfoldable pub step : CommandStore M → Call → CommandStore M
  step s (creates type poll maintenance created) = (create p b s type poll maintenance created).0
  step s (sends command_id sent) = (mark_sent p b s command_id sent).0
  step s (confirms result) = (confirm p b s result).0
  step s (cancels command_id) = (cancel p b s command_id).0

  -- What a method stores, if it stores anything.
  create_effect :
      (s : CommandStore M) (type : CommandType) (poll maintenance : ℕ) (at : ℤ)
      → ((create p b s type poll maintenance at).0.stored ≡ s.stored)
        ⊎ ((is_open s.stored.command.state ≡ false)
            × (command_type_eq type CommandType.none ≡ false)
            × (s.stored.next_command_id ≢ 0xffff_ffff)
            × ((create p b s type poll maintenance at).0.stored
                ≡ sealed p (created s.stored type poll maintenance at)))
  unfolding create commit sealed
  create_effect s type poll maintenance at = ground arith

  mark_sent_effect :
      (s : CommandStore M) (command_id : ℕ) (at : ℤ)
      → ((mark_sent p b s command_id at).0.stored ≡ s.stored)
        ⊎ ((is_open s.stored.command.state ≡ true)
            × ((mark_sent p b s command_id at).0.stored ≡ sealed p (marked_sent s.stored at)))
  unfolding mark_sent commit sealed
  mark_sent_effect s command_id at = ground arith

  confirm_effect :
      (s : CommandStore M) (result : CommandResultPacket)
      → ((confirm p b s result).0.stored ≡ s.stored)
        ⊎ ((is_open s.stored.command.state ≡ true)
            × ((confirm p b s result).0.stored ≡ sealed p (confirmed s.stored result)))
  unfolding confirm commit sealed
  confirm_effect s result = ground arith

  cancel_effect :
      (s : CommandStore M) (command_id : ℕ)
      → ((cancel p b s command_id).0.stored ≡ s.stored)
        ⊎ ((is_open s.stored.command.state ≡ true)
            × ((cancel p b s command_id).0.stored ≡ sealed p (cancelled s.stored)))
  unfolding cancel commit sealed
  cancel_effect s command_id = ground arith

  -- Every method leaves the command as it is, opens a new one while none is open, or records a
  -- send, a result or a cancellation of the one that is open, under its identifier and type.
  pub step-Move : (s : CommandStore M) (c : Call) → Move s.stored.command (step s c).stored.command
  unfolding step sealed created marked_sent confirmed cancelled
  step-Move s (creates type poll maintenance at) = elim (create_effect s type poll maintenance at) [
    | inl e ↦ keep (ap CommandStoreRecord.command e)
    | inr (closed, is_command, room, e) ↦
        open_new closed (ap (λ (r : CommandStoreRecord). r.command.state) e)
          (ap (λ (r : CommandStoreRecord). r.command.send_count) e)
          (ap (λ (r : CommandStoreRecord). command_type_eq r.command.type CommandType.none) e
            ∙ is_command)
  ]
  step-Move s (sends command_id at) = elim (mark_sent_effect s command_id at) [
    | inl e ↦ keep (ap CommandStoreRecord.command e)
    | inr (opened, e) ↦
        send opened (ap (λ (r : CommandStoreRecord). r.command.state) e)
          (ap (λ (r : CommandStoreRecord). r.command.command_id) e)
          (ap (λ (r : CommandStoreRecord). r.command.type) e)
  ]
  step-Move s (confirms result) = elim (confirm_effect s result) [
    | inl e ↦ keep (ap CommandStoreRecord.command e)
    | inr (opened, e) ↦
        close opened (inl (ap (λ (r : CommandStoreRecord). r.command.state) e))
          (ap (λ (r : CommandStoreRecord). r.command.command_id) e)
          (ap (λ (r : CommandStoreRecord). r.command.type) e)
  ]
  step-Move s (cancels command_id) = elim (cancel_effect s command_id) [
    | inl e ↦ keep (ap CommandStoreRecord.command e)
    | inr (opened, e) ↦
        close opened (inr (ap (λ (r : CommandStoreRecord). r.command.state) e))
          (ap (λ (r : CommandStoreRecord). r.command.command_id) e)
          (ap (λ (r : CommandStoreRecord). r.command.type) e)
  ]

  step-IsSafe :
      (s : CommandStore M) (c : Call)
      → IsSafe s.stored
      → IsSafe (step s c).stored × (s.stored.next_command_id ≤ (step s c).stored.next_command_id)
  unfolding step sealed created marked_sent confirmed cancelled
  step-IsSafe s (creates type poll maintenance at) v =
      ground (arith, create_effect s type poll maintenance at)
  step-IsSafe s (sends command_id at) v = ground (arith, mark_sent_effect s command_id at)
  step-IsSafe s (confirms result) v = ground (arith, confirm_effect s result)
  step-IsSafe s (cancels command_id) v = ground (arith, cancel_effect s command_id)

  -- The identifiers that successful calls of `create` return.
  new_id : CommandStore M → Call → List ℕ → List ℕ
  new_id s (creates type poll maintenance at) later =
      let r = create p b s type poll maintenance at in if r.1 then r.2 ∷ later else later
  new_id s _ later = later

  pub issued : CommandStore M → List Call → List ℕ
  issued s [] = []
  issued s (c ∷ cs) = new_id s c (issued (step s c) cs)

  create_id :
      (s : CommandStore M) (type : CommandType) (poll maintenance : ℕ) (at : ℤ)
      → s.stored.next_command_id < 2 ^ 32
      → (create p b s type poll maintenance at).1 ≡ true
      → ((create p b s type poll maintenance at).2 ≡ s.stored.next_command_id)
        × ((create p b s type poll maintenance at).0.stored.next_command_id
            ≡ s.stored.next_command_id + 1)
  unfolding create commit created
  create_id s type poll maintenance at fits h = ground arith

  Ascending-from : (low high : ℕ) (xs : List ℕ) → low ≤ high → Ascending high xs → Ascending low xs
  Ascending-from low high [] h a = tt
  Ascending-from low high (x ∷ xs) h a = (omega arith, a.1)

  new_id-Ascending :
      (s : CommandStore M) (c : Call) (later : List ℕ)
      → IsSafe s.stored
      → s.stored.next_command_id ≤ (step s c).stored.next_command_id
      → Ascending (step s c).stored.next_command_id later
      → Ascending s.stored.next_command_id (new_id s c later)
  unfolding new_id step
  new_id-Ascending s (creates type poll maintenance at) later v h a =
      elim (Bool-cases (create p b s type poll maintenance at).1) [
        | inl e ↦
            let (id, next) = create_id s type poll maintenance at v.fits e in
            rw (e, id) (omega arith, Ascending-from _ _ later (omega arith) a)
        | inr e ↦ rw e (Ascending-from _ _ later h a)
      ]
  new_id-Ascending s (sends command_id at) later v h a = Ascending-from _ _ later h a
  new_id-Ascending s (confirms result) later v h a = Ascending-from _ _ later h a
  new_id-Ascending s (cancels command_id) later v h a = Ascending-from _ _ later h a

  -- From a safe record on, identifiers are never given out twice: those that a history of calls
  -- returns are strictly ascending, the first not below the next one.
  pub issued-Ascending :
      (s : CommandStore M) (cs : List Call)
      → IsSafe s.stored
      → Ascending s.stored.next_command_id (issued s cs)
  unfolding issued
  issued-Ascending s [] v = tt
  issued-Ascending s (c ∷ cs) v =
      let (kept, grows) = step-IsSafe s c v in
      new_id-Ascending s c (issued (step s c) cs) v grows (issued-Ascending (step s c) cs kept)

  unfoldable pub run : CommandStore M → List Call → CommandStore M
  run s [] = s
  run s (c ∷ cs) = run (step s c) cs

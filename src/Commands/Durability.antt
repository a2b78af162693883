-- ===== src/Commands/Durability.antt =====
-- lib/commands/command_store.cpp: what is in memory is what a restart loads.
use gathra_gateway.Prelude.{
  ℕ, ◌^◌, ◌≤◌, ◌<◌, ◌≡◌, ◌≢◌, refl, ◌⊎◌, inl, inr, ℤ, true, false, List, [], ◌∷◌, Option, none,
  some, arith, All, Bool-cases, ◌==◌,
}
use gathra_gateway.Protocol.Types.{CommandType, CommandResultPacket}
use gathra_gateway.Protocol.Codes.{command_code, result_code}
use gathra_gateway.Commands.Types.{
  command_store_magic, command_store_schema, CommandStoreRecord, Platform, state_code,
}
use gathra_gateway.Commands.{
  CommandBackend, CommandStore, checksum, valid, blank, initialize, begin_fresh, begin_loaded,
  begin, commit, created, marked_sent, confirmed, cancelled, create, mark_sent, confirm, cancel,
}
use gathra_gateway.Commands.Machine.{Call, creates, sends, confirms, cancels, step, run}

-- The bytes before the checksum do not depend on it.
abbrev pub IsLayout : Platform → Type 0
IsLayout p = (r : CommandStoreRecord) (c : ℕ) → p.bytes (record r { checksum = c }) ≡ p.bytes r

-- A save that succeeds stores the record; one that fails leaves what was stored.
pub record IsAtomic {M : Type 0} (b : CommandBackend M) : Type 0 where
  pub saved :
      (m : M) (r : CommandStoreRecord) → (b.save m r).1 ≡ true → b.load (b.save m r).0 ≡ some r
  pub kept :
      (m : M) (r : CommandStoreRecord) → (b.save m r).1 ≡ false → b.load (b.save m r).0 ≡ b.load m

-- The field of the next identifier has 32 bits.
abbrev pub IsU32Record : Option CommandStoreRecord → Type 0
IsU32Record none = Unit
IsU32Record (some r) = r.next_command_id < 2 ^ 32

-- What `valid` asks of a record, but for the checksum, and the width of the next identifier.
pub record IsAcceptable (p : Platform) (r : CommandStoreRecord) : Type 0 where
  pub magic : r.magic ≡ command_store_magic
  pub schema : r.schema_version ≡ command_store_schema
  pub size : r.structure_size ≡ p.record_size
  pub next : r.next_command_id ≢ 0
  pub fits : r.next_command_id < 2 ^ 32
  pub type : command_code r.command.type ≤ 3
  pub state : state_code r.command.state ≤ 5
  pub result : (result_code r.command.result ≡ 255) ⊎ (result_code r.command.result ≤ 7)

IsAcceptable-valid :
    (p : Platform) (r : CommandStoreRecord)
    → IsAcceptable p r
    → r.checksum ≡ checksum p r
    → valid p r ≡ true
unfolding valid
IsAcceptable-valid p r v e = ground arith

valid-IsAcceptable :
    (p : Platform) (r : CommandStoreRecord)
    → r.next_command_id < 2 ^ 32
    → valid p r ≡ true
    → IsAcceptable p r × (r.checksum ≡ checksum p r)
unfolding valid
valid-IsAcceptable p r fits h = ground arith

-- The record in memory is the stored one, and a restart accepts it.
pub record IsDurable {M : Type 0} (p : Platform) (b : CommandBackend M) (s : CommandStore M)
    : Type 0 where
  pub attached : s.attached ≡ true
  pub same : b.load s.memory ≡ some s.stored
  pub acceptable : IsAcceptable p s.stored
  pub sum : s.stored.checksum ≡ checksum p s.stored

-- The arguments come from the dashboard and the decoder, which give named values only.
abbrev pub IsNamedCall : Call → Type 0
IsNamedCall (creates type poll maintenance at) = command_code type ≤ 3
IsNamedCall (sends command_id at) = Unit
IsNamedCall (confirms r) = result_code r.result_code ≤ 7
IsNamedCall (cancels command_id) = Unit

module _ {M : Type 0} (p : Platform) (b : CommandBackend M) (layout : IsLayout p)
    (atomic : IsAtomic b) where
  sealed_sum :
      (r : CommandStoreRecord) → checksum p r ≡ checksum p (record r { checksum = checksum p r })
  unfolding checksum
  sealed_sum r = rw (layout r (checksum p r))

  commit_effect :
      (s : CommandStore M) (r : CommandStoreRecord)
      → IsDurable p b s
      → IsAcceptable p r
      → IsDurable p b (commit p b s r).0
  unfolding commit
  commit_effect s r v ok = ground (
    arith,
    atomic.saved s.memory (record r { checksum = checksum p r }),
    atomic.kept s.memory (record r { checksum = checksum p r }),
    sealed_sum r,
  )

  created-IsAcceptable :
      (s : CommandStore M) (type : CommandType) (poll maintenance : ℕ) (at : ℤ)
      → IsAcceptable p s.stored
      → s.stored.next_command_id ≢ 0xffff_ffff
      → command_code type ≤ 3
      → IsAcceptable p (created s.stored type poll maintenance at)
  unfolding created state_code result_code
  created-IsAcceptable s type poll maintenance at v room n = ground arith

  create-IsDurable :
      (s : CommandStore M) (type : CommandType) (poll maintenance : ℕ) (at : ℤ)
      → IsDurable p b s
      → command_code type ≤ 3
      → IsDurable p b (create p b s type poll maintenance at).0
  unfolding create
  create-IsDurable s type poll maintenance at v n =
      elim (Bool-cases (s.stored.next_command_id == 0xffff_ffff)) [
        | inl full ↦ ground (arith, full)
        | inr room ↦ ground (
          arith,
          commit_effect s (created s.stored type poll maintenance at) v (
              created-IsAcceptable s type poll maintenance at v.acceptable (ground (arith, room))
                n),
        )
      ]

  marked_sent-IsAcceptable :
      (r : CommandStoreRecord) (at : ℤ) → IsAcceptable p r → IsAcceptable p (marked_sent r at)
  unfolding marked_sent state_code
  marked_sent-IsAcceptable r at v = ground arith

  mark_sent-IsDurable :
      (s : CommandStore M) (command_id : ℕ) (at : ℤ)
      → IsDurable p b s
      → IsDurable p b (mark_sent p b s command_id at).0
  unfolding mark_sent
  mark_sent-IsDurable s command_id at v = ground (
    arith,
    commit_effect s (marked_sent s.stored at) v (marked_sent-IsAcceptable s.stored at v.acceptable),
  )

  confirmed-IsAcceptable :
      (r : CommandStoreRecord) (result : CommandResultPacket)
      → IsAcceptable p r
      → result_code result.result_code ≤ 7
      → IsAcceptable p (confirmed r result)
  unfolding confirmed state_code
  confirmed-IsAcceptable r result v n = ground arith

  confirm-IsDurable :
      (s : CommandStore M) (r : CommandResultPacket)
      → IsDurable p b s
      → result_code r.result_code ≤ 7
      → IsDurable p b (confirm p b s r).0
  unfolding confirm
  confirm-IsDurable s r v n = ground (
    arith,
    commit_effect s (confirmed s.stored r) v (confirmed-IsAcceptable s.stored r v.acceptable n),
  )

  cancelled-IsAcceptable :
      (r : CommandStoreRecord) → IsAcceptable p r → IsAcceptable p (cancelled r)
  unfolding cancelled state_code
  cancelled-IsAcceptable r v = ground arith

  cancel-IsDurable :
      (s : CommandStore M) (command_id : ℕ)
      → IsDurable p b s
      → IsDurable p b (cancel p b s command_id).0
  unfolding cancel
  cancel-IsDurable s command_id v =
      ground (
        arith,
        commit_effect s (cancelled s.stored) v (cancelled-IsAcceptable s.stored v.acceptable),
      )

  step-IsDurable :
      (s : CommandStore M) (c : Call)
      → IsDurable p b s
      → IsNamedCall c
      → IsDurable p b (step p b s c)
  unfolding step
  step-IsDurable s (creates type poll maintenance at) v n =
      create-IsDurable s type poll maintenance at v n
  step-IsDurable s (sends command_id at) v n = mark_sent-IsDurable s command_id at v
  step-IsDurable s (confirms r) v n = confirm-IsDurable s r v n
  step-IsDurable s (cancels command_id) v n = cancel-IsDurable s command_id v

  run-IsDurable :
      (s : CommandStore M) (cs : List Call)
      → IsDurable p b s
      → All IsNamedCall cs
      → IsDurable p b (run p b s cs)
  unfolding run
  run-IsDurable s [] v n = v
  run-IsDurable s (c ∷ cs) v n = run-IsDurable (step p b s c) cs (step-IsDurable s c v n.0) n.1

  initialize-IsAcceptable :
      p.record_size < 2 ^ 16
      → IsAcceptable p (initialize p) × ((initialize p).checksum ≡ checksum p (initialize p))
  unfolding initialize blank command_code state_code result_code
  initialize-IsAcceptable h = (ground arith, sealed_sum blank_record)
    where
      blank_record : CommandStoreRecord
      blank_record = blank p

  begin_fresh-IsDurable :
      (memory : M)
      → p.record_size < 2 ^ 16
      → (begin_fresh p b memory).1 ≡ true
      → IsDurable p b (begin_fresh p b memory).0
  unfolding begin_fresh
  begin_fresh-IsDurable memory h e =
      let (acceptable, sum) = initialize-IsAcceptable h in
      record {
        attached = refl;
        same = atomic.saved memory (initialize p) e;
        acceptable = acceptable;
        sum = sum;
      }

  begin_loaded-IsDurable :
      (memory : M) (loaded : Option CommandStoreRecord)
      → p.record_size < 2 ^ 16
      → IsU32Record loaded
      → b.load memory ≡ loaded
      → (begin_loaded p b memory loaded).1 ≡ true
      → IsDurable p b (begin_loaded p b memory loaded).0
  unfolding begin_loaded
  begin_loaded-IsDurable memory none h u l e = begin_fresh-IsDurable memory h e
  begin_loaded-IsDurable memory (some r) h u l e = elim (Bool-cases (valid p r)) [
    | inl ok ↦ rw ok (record {
      attached = refl;
      same = l;
      acceptable = (valid-IsAcceptable p r u ok).0;
      sum = (valid-IsAcceptable p r u ok).1;
    })
    | inr bad ↦ rw bad (begin_fresh-IsDurable memory h (rw bad at e))
  ]

  begin-IsDurable :
      (memory : M)
      → p.record_size < 2 ^ 16
      → IsU32Record (b.load memory)
      → (begin p b memory).1 ≡ true
      → IsDurable p b (begin p b memory).0
  unfolding begin
  begin-IsDurable memory h u e = begin_loaded-IsDurable memory (b.load memory) h u refl e

  begin-load :
      (memory : M) (r : CommandStoreRecord)
      → b.load memory ≡ some r
      → valid p r ≡ true
      → ((begin p b memory).0.stored ≡ r)
        × ((begin p b memory).1 ≡ true)
        × ((begin p b memory).2 ≡ false)
  unfolding begin begin_loaded
  begin-load memory r e ok = rw (e, begin_loaded) (rw ok (refl, refl, refl))

  -- A restart loses nothing: for a backend that saves atomically, which at first holds no record or one
  -- whose next identifier has 32 bits, and a layout of at most 65535 bytes whose checksummed part does
  -- not hold the checksum, once the store is ready, after any calls with named arguments, whether
  -- their saves succeed or fail, `begin` on what the backend then holds loads the record in memory.
  pub begin-run :
      (memory : M) (cs : List Call)
      → p.record_size < 2 ^ 16
      → IsU32Record (b.load memory)
      → (begin p b memory).1 ≡ true
      → All IsNamedCall cs
      → ((begin p b (run p b (begin p b memory).0 cs).memory).0.stored
          ≡ (run p b (begin p b memory).0 cs).stored)
        × ((begin p b (run p b (begin p b memory).0 cs).memory).1 ≡ true)
        × ((begin p b (run p b (begin p b memory).0 cs).memory).2 ≡ false)
  begin-run memory cs h u e n =
      let v = run-IsDurable (begin p b memory).0 cs (begin-IsDurable memory h u e) n in
      begin-load (run p b (begin p b memory).0 cs).memory (run p b (begin p b memory).0 cs).stored
        v.same (IsAcceptable-valid p (run p b (begin p b memory).0 cs).stored v.acceptable v.sum)

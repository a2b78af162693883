-- ===== src/Examples/Commands.antt =====
-- lib/commands/command_store.cpp: a store on a flash memory that keeps one record.
use gathra_gateway.Prelude.{◌≡◌, refl, List, [], ◌∷◌, Option, none, some, arith, true, false, pos}
use gathra_gateway.Protocol.Types.{CommandType}
use gathra_gateway.Protocol.Codes.{command_code}
use gathra_gateway.Commands.Types.{CommandStoreRecord, Platform}
use gathra_gateway.Commands.{CommandBackend, CommandStore, begin, begin_fresh, initialize}
use gathra_gateway.Commands.Machine.{
  Call, Move, step, run, issued, Ascending, IsSafe, step-Move, issued-Ascending,
}
use gathra_gateway.Commands.Durability.{begin-run, IsAtomic, IsLayout}

-- A layout of three bytes is enough to see changes.
abbrev pub small : Platform
small = record {
  bytes = λ r. r.next_command_id ∷ (r.command.command_id ∷ (r.command.send_count ∷ []));
  record_size = 64;
}

abbrev pub flash : CommandBackend (Option CommandStoreRecord)
flash = record { load = λ m. m; save = λ m r. (some r, true) }

small-IsLayout : IsLayout small
small-IsLayout r c = refl

flash-IsAtomic : IsAtomic flash
flash-IsAtomic = record { saved = λ m r h. refl; kept = λ m r h. ground arith }

abbrev pub opened : CommandStore (Option CommandStoreRecord)
opened = (begin small flash none).0

abbrev poll : Call
poll = Call.creates CommandType.set_poll_interval_minutes 30 0 (pos 1)

abbrev history : List Call
history = poll ∷ (Call.sends 1 (pos 2) ∷ (Call.cancels 1 ∷ (poll ∷ [])))

step-Move_example : Move opened.stored.command (step small flash opened poll).stored.command
step-Move_example = step-Move small flash opened poll

opened-IsSafe : IsSafe opened.stored
unfolding begin initialize begin_fresh
opened-IsSafe = record { below = omega arith; fits = omega arith }

issued-Ascending_example :
    Ascending opened.stored.next_command_id (issued small flash opened history)
issued-Ascending_example = issued-Ascending small flash opened history opened-IsSafe

opened_ready : (begin small flash none).1 ≡ true
unfolding begin begin_fresh
opened_ready = refl

begin-run_example :
    ((begin small flash (run small flash opened history).memory).0.stored
      ≡ (run small flash opened history).stored)
    × ((begin small flash (run small flash opened history).memory).1 ≡ true)
    × ((begin small flash (run small flash opened history).memory).2 ≡ false)
unfolding command_code
begin-run_example =
    begin-run small flash small-IsLayout flash-IsAtomic none history (omega arith) tt opened_ready
      (omega arith)

-- ===== src/Examples/Durable.antt =====
-- lib/queue/durable_queue.cpp: one record leaves the queue.
use gathra_gateway.Prelude.{
  ℕ, ◌+◌, ◌*◌, ◌≤◌, ◌≡◌, ◌⊎◌, refl, Bool, true, false, [], ◌∷◌, none, some, arith, if◌then◌else◌,
}
use gathra_gateway.Dedup.{create, remember}
use gathra_gateway.Dedup.Refinement.{create-IsValid}
use gathra_gateway.Queue.Entries.{key_of, without, has_entry}
use gathra_gateway.Queue.Core.{remove}
use gathra_gateway.Queue.Durable.{
  Device, DurableQueue, QueueTerminalAction, derive_capacity, contains, finish, finish_present,
  finish_all, finish_one, finish_changed, finish_saved, save_changed,
}
use gathra_gateway.Queue.Finish.{derive_capacity-fits, contains-finish, contains-remember}
use gathra_gateway.Dedup.{TelemetryKey, make_telemetry_key}
use gathra_gateway.Dedup.{contains as recent_contains}
use gathra_gateway.Dedup.Refinement.{recent, remember_all}
use gathra_gateway.Queue.Recovery.{
  recover, recover_listed, recover_all, sort_and_trim, trim, count_recovered,
}
use gathra_gateway.Queue.Entries.{sort_entries}
use gathra_gateway.Queue.Core.{QueueStorage}
use gathra_gateway.Queue.Core.{create as core_create}
use gathra_gateway.Queue.Durable.{recent_bytes}
use gathra_gateway.Queue.Startup.{RecentFile, Flash, load_recent, begin_core, begin_mounted, begin}
use gathra_gateway.Queue.Recall.{remembered, load_recent-recent_bytes}
use gathra_gateway.Queue.Recall.Keys.{AreKeys}
use gathra_gateway.Queue.Reopened.{IsBeside, contains-begin}
use gathra_gateway.Examples.Protocol.{probe, probe_id-IsNodeId}
use gathra_gateway.Examples.Queue.{damaged, unread}

derive_capacity-fits_example :
    (1 ≤ derive_capacity 1_441_792)
    × (derive_capacity 1_441_792 ≤ 4096)
    × ((derive_capacity 1_441_792 ≡ 1)
        ⊎ (65536 + derive_capacity 1_441_792 * (152 + 128) ≤ 1_441_792))
derive_capacity-fits_example = derive_capacity-fits 1_441_792

-- Preferences that store everything, and a clock that counts its readings.
abbrev pub board : Device Bool ℕ
board = record {
  storage = damaged;
  save_recent = λ s bytes. (s, true);
  put_uint64 = λ n name value. (n, 8);
  millis = λ n. (n + 1, n);
}

abbrev pub serving : DurableQueue Bool ℕ
serving = record {
  locked = true;
  healthy = true;
  core =
      some (record unread {
        entries = record { record_id = 3; key_hash = 0 } ∷ [];
        next_record_id = 4;
      });
  recent = create 64;
  preferences = 1000;
  stats = record {
    records_uploaded = 0;
    upload_retries = 0;
    records_deduplicated = 0;
    records_permanently_rejected = 0;
    records_dropped_oldest = 0;
    filesystem_errors = 0;
  };
  mutations_since_checkpoint = 0;
  last_checkpoint_ms = 0;
}

abbrev pub uploaded : QueueTerminalAction
uploaded = record { record_id = 3; key = key_of probe; permanently_rejected = false }

pub finished : (finish board serving (uploaded ∷ [])).1 ≡ true
unfolding finish finish_present finish_all finish_one finish_changed finish_saved save_changed
    remove has_entry without remember create
finished = refl

contains-finish_example :
    (contains board (finish board serving (uploaded ∷ [])).0 (key_of probe)).1 ≡ true
contains-finish_example = contains-finish board serving [] uploaded (create-IsValid 64) finished

probe_keys : AreKeys (key_of probe ∷ [])
unfolding AreKeys make_telemetry_key
probe_keys =
    (record { node = probe_id-IsNodeId; session = omega arith; sequence = omega arith }, tt)

load_recent-recent_bytes_example :
    let loaded =
      load_recent
        (create 64)
        (RecentFile.content (recent_bytes (remembered (key_of probe ∷ [])))) in
    (loaded.1 ≡ true)
    × (recent loaded.0 ≡ recent (remembered (key_of probe ∷ [])))
    × ((key : TelemetryKey)
        → recent_contains loaded.0 key ≡ recent_contains (remembered (key_of probe ∷ [])) key)
load_recent-recent_bytes_example = load_recent-recent_bytes (key_of probe ∷ []) probe_keys

-- A card without records, whose state is the file of the recent keys.
abbrev blank_card : QueueStorage RecentFile
blank_card = record {
  list_record_ids = λ s. (s, some ([], 0));
  read_record = λ s name. none;
  write_record_atomic = λ s record_id bytes. (s, false);
  remove_record = λ s name. (s, true);
  cleanup_temporary_files = λ s. s;
}

abbrev card : Device RecentFile ℕ
card = record {
  storage = blank_card;
  save_recent = λ s bytes. (RecentFile.content bytes, true);
  put_uint64 = λ n name value. (n, 8);
  millis = λ n. (n + 1, n);
}

abbrev stored_keys : RecentFile
stored_keys = RecentFile.content (recent_bytes (remembered (key_of probe ∷ [])))

-- A board that served before; a format takes the file away.
abbrev flash : Flash RecentFile ℕ
flash = record {
  begin_preferences = λ n. (n, true);
  get_bool = λ n name other. true;
  put_bool = λ n name value. (n, 1);
  get_uint64 = λ n name other. 7;
  begin_storage = λ s format. (if format then RecentFile.absent else s, true);
  total_bytes = λ s. 1_441_792;
  recent_file = λ s. s;
  unlink_recent = λ s. (RecentFile.absent, true);
}

card-IsBeside : IsBeside card flash
card-IsBeside = record {
  mount = λ s. refl;
  recovery = record { listing = λ s. refl; cleanup = λ s. refl; removal = λ s record_id. refl };
}

begun : (begin card flash true 1000 stored_keys).1 ≡ true
unfolding begin begin_mounted begin_core core_create recover recover_listed recover_all
    sort_and_trim sort_entries trim count_recovered
begun = refl

known : recent_contains (remembered (key_of probe ∷ [])) (key_of probe) ≡ true
unfolding remember_all
known = contains-remember (create 64) (key_of probe) (create-IsValid 64)

contains-begin_example :
    (contains card (begin card flash true 1000 stored_keys).0 (key_of probe)).1 ≡ true
contains-begin_example =
    contains-begin card flash card-IsBeside true 1000 stored_keys (key_of probe ∷ []) (key_of probe)
      probe_keys refl refl known begun

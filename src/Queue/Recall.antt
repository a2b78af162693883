-- ===== src/Queue/Recall.antt =====
-- lib/queue/durable_queue.cpp: the recent keys that were stored are those that the next start loads.
pub mod Keys
use gathra_gateway.Prelude.{
  ℕ, zero, suc, ◌+◌, ◌-◌, ◌*◌, ◌%◌, ◌^◌, ◌≤◌, ◌<◌, ◌≡◌, refl, sym, ap, ◌∙◌, subst, inl, inr, true,
  false, not, ◌&&◌, ◌||◌, List, [], ◌∷◌, ◌++◌, append_assoc, some, arith, length, length-append,
  drop, take_all, ltb, ◌==◌, Bool-cases,
}
use gathra_gateway.Build.{node_id_capacity, recent_dedup_capacity}
use gathra_gateway.Text.{c_string}
use gathra_gateway.Protocol.Wire.{
  ◌>>=◌, ret, be8, be32, get_u8, get_u32, get_u32-be32, get_bytes-append,
}
use gathra_gateway.Protocol.Header.{IsNodeId, all_node_bytes, valid_node_byte}
use gathra_gateway.Protocol.Header.RoundTrip.{IsNodeId-node_id_valid, strnlen-IsNodeId}
use gathra_gateway.Queue.Record.RoundTrip.{length-with_checksum, take_content, get_checksum}
use gathra_gateway.Dedup.{
  TelemetryKey, RecentDeduplicator, make_telemetry_key, create, remember, clear, oldest_at,
}
use gathra_gateway.Dedup.{contains as recent_contains}
use gathra_gateway.Dedup.Refinement.{
  window, recent, any_equal, push_recent, contains-any_equal, remember_all, recent_all,
  remember_all-create, length-recent,
}
use gathra_gateway.Dedup.Distinct.{are_distinct, recent_all_distinct, recent_all-are_distinct}
use gathra_gateway.Queue.Record.{crc32, with_checksum}
use gathra_gateway.Queue.Durable.{key_bytes, keys_bytes, recent_bytes}
use gathra_gateway.Queue.Startup.{
  require, RecentFile, read_key, read_keys, load_keys, load_magic, load_checked, load_recent,
}
use gathra_gateway.Queue.Recall.Keys.{
  AreKeys, all_bytes, keys_bytes-all_bytes, read_keys-all_bytes, length-all_bytes,
  AreKeys-recent_all,
}

-- What is stored, with the checksum left out.
stored_bytes : List TelemetryKey → List ℕ
stored_bytes ks = be32 0x4754_4431 ++ (be8 (length ks) ++ all_bytes ks)

recent_bytes-stored_bytes :
    (d : RecentDeduplicator) → recent_bytes d ≡ with_checksum (stored_bytes (recent d))
unfolding recent_bytes stored_bytes recent
recent_bytes-stored_bytes d = rw (keys_bytes-all_bytes d 0 d.size, length-recent d) refl

load_keys-all_bytes :
    (d : RecentDeduplicator) (ks : List TelemetryKey)
    → AreKeys ks
    → length ks ≤ 64
    → load_keys d (length ks ∷ all_bytes ks) ≡ (remember_all (clear d) ks, true)
unfolding load_keys
load_keys-all_bytes d ks v l = rw (room, read_keys-all_bytes ks (clear d) v) refl
  where
    room : ltb recent_dedup_capacity (length ks) ≡ false
    room = ground arith

load_magic-stored_bytes :
    (d : RecentDeduplicator) (ks : List TelemetryKey)
    → AreKeys ks
    → length ks ≤ 64
    → load_magic d (get_u32 (stored_bytes ks)) ≡ (remember_all (clear d) ks, true)
unfolding load_magic stored_bytes
load_magic-stored_bytes d ks v l =
    rw (get_u32-be32 0x4754_4431 (be8 (length ks) ++ all_bytes ks), small)
      (load_keys-all_bytes d ks v l)
  where
    small : length ks % 2 ^ 8 ≡ length ks
    small = omega arith

load_recent-stored_bytes :
    (d : RecentDeduplicator) (ks : List TelemetryKey)
    → AreKeys ks
    → length ks ≤ 64
    → load_recent d (RecentFile.content (with_checksum (stored_bytes ks)))
      ≡ (remember_all (clear d) ks, true)
unfolding load_recent load_checked
load_recent-stored_bytes d ks v l =
    rw
      (
        length-with_checksum (stored_bytes ks),
        fits,
        cut (length (stored_bytes ks)),
        take_content (stored_bytes ks),
        get_checksum (stored_bytes ks),
        same (crc32 (stored_bytes ks)),
      )
      (load_magic-stored_bytes d ks v l)
  where
    fits : (ltb (length (stored_bytes ks) + 4) 9 || ltb 4096 (length (stored_bytes ks) + 4)) ≡ false
    fits = unfold stored_bytes in ground (arith, length-all_bytes ks v)

    cut : (n : ℕ) → n + 4 - 4 ≡ n
    cut n = omega arith

    same : (n : ℕ) → (n == n) ≡ true
    same n = ground arith

-- The ring of recent keys after these keys were finished.
abbrev pub remembered : List TelemetryKey → RecentDeduplicator
remembered ks = remember_all (create 64) ks

-- The ring that a start loads, and the keys that it holds.
pub load_recent_lem :
    (ks : List TelemetryKey)
    → AreKeys ks
    → load_recent (create 64) (RecentFile.content (recent_bytes (remembered ks)))
      ≡ (remembered (recent (remembered ks)), true)
load_recent_lem ks v =
    rw
      (
        recent_bytes-stored_bytes (remembered ks),
        load_recent-stored_bytes (create 64) (recent (remembered ks)) keys
            (remember_all-create 64 ks).1,
        cleared,
      )
      refl
  where
    listed : recent (remembered ks) ≡ recent_all 64 [] ks
    listed = unfold create in (remember_all-create 64 ks).0

    keys : AreKeys (recent (remembered ks))
    keys = subst AreKeys (sym listed) (AreKeys-recent_all 64 [] ks (unfold AreKeys in tt) v)

    cleared : clear (create 64) ≡ create 64
    cleared = unfold clear create in refl

pub remembered-recent :
    (ks : List TelemetryKey) → recent (remembered (recent (remembered ks))) ≡ recent (remembered ks)
remembered-recent ks =
    listed (recent (remembered ks))
    ∙ recent_all-are_distinct 64 [] (recent (remembered ks)) distinct (remember_all-create 64 ks).1
  where
    listed : (keys : List TelemetryKey) → recent (remembered keys) ≡ recent_all 64 [] keys
    listed keys = unfold create in (remember_all-create 64 keys).0

    distinct : are_distinct (recent (remembered ks)) ≡ true
    distinct = rw (listed ks) (recent_all_distinct 64 [] ks (unfold are_distinct in refl))

pub remembered_knows :
    (ks : List TelemetryKey) (key : TelemetryKey)
    → recent_contains (remembered (recent (remembered ks))) key
      ≡ recent_contains (remembered ks) key
remembered_knows ks key =
    contains-any_equal (remembered (recent (remembered ks))) key
    ∙ ap (λ (kept : List TelemetryKey). any_equal kept key) (remembered-recent ks)
    ∙ sym (contains-any_equal (remembered ks) key)

-- Whatever keys of packets that a node may send were finished, the file that is then stored loads, and
-- the ring that is loaded holds the same keys in the same order and knows the same keys.
pub load_recent-recent_bytes :
    (ks : List TelemetryKey)
    → AreKeys ks
    → let loaded = load_recent (create 64) (RecentFile.content (recent_bytes (remembered ks))) in
      (loaded.1 ≡ true)
      × (recent loaded.0 ≡ recent (remembered ks))
      × ((key : TelemetryKey) → recent_contains loaded.0 key ≡ recent_contains (remembered ks) key)
load_recent-recent_bytes ks v =
    rw (load_recent_lem ks v) (refl, remembered-recent ks, remembered_knows ks)

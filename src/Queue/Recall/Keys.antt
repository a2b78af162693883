-- ===== src/Queue/Recall/Keys.antt =====
-- lib/queue/durable_queue.cpp: a key that is stored is read back.
use gathra_gateway.Prelude.{
  ℕ, zero, suc, ◌+◌, ◌*◌, ◌%◌, ◌^◌, ◌≤◌, ◌<◌, ◌≡◌, refl, ap, inl, inr, true, not, ◌&&◌, List, [],
  ◌∷◌, ◌++◌, append_assoc, some, arith, length, length-append, drop, take_all, ltb, ◌==◌,
  Bool-cases,
}
use gathra_gateway.Build.{node_id_capacity}
use gathra_gateway.Text.{c_string}
use gathra_gateway.Protocol.Wire.{◌>>=◌, ret, be32, get_u8, get_u32, get_u32-be32, get_bytes-append}
use gathra_gateway.Protocol.Header.{IsNodeId, all_node_bytes, valid_node_byte}
use gathra_gateway.Protocol.Header.RoundTrip.{IsNodeId-node_id_valid, strnlen-IsNodeId}
use gathra_gateway.Dedup.{TelemetryKey, RecentDeduplicator, make_telemetry_key, remember, oldest_at}
use gathra_gateway.Dedup.Refinement.{window, any_equal, push_recent, remember_all, recent_all}
use gathra_gateway.Queue.Durable.{key_bytes, keys_bytes}
use gathra_gateway.Queue.Startup.{require, read_key, read_keys}

-- A key of a packet that a node may send.
pub record IsKey (k : TelemetryKey) : Type 0 where
  pub node : IsNodeId k.node_id
  pub session : k.persistent_session_id < 2 ^ 32
  pub sequence : k.sequence < 2 ^ 32

unfoldable pub AreKeys : List TelemetryKey → Type 0
AreKeys [] = Unit
AreKeys (k ∷ ks) = IsKey k × AreKeys ks

-- What a stored key is read back to.
c_string-all_node_bytes : (t : List ℕ) → all_node_bytes t ≡ true → c_string t ≡ t
unfolding c_string all_node_bytes valid_node_byte
c_string-all_node_bytes [] h = refl
c_string-all_node_bytes (c ∷ t) h = ground (arith, c_string-all_node_bytes t)

key_tail : TelemetryKey → List ℕ → List ℕ
key_tail k rest = be32 k.persistent_session_id ++ (be32 k.sequence ++ rest)

length-key_tail : (k : TelemetryKey) (rest : List ℕ) → length (key_tail k rest) ≡ 8 + length rest
unfolding key_tail
length-key_tail k rest = omega arith

key_bytes_lem :
    (k : TelemetryKey) (rest : List ℕ)
    → IsKey k
    → key_bytes k ++ rest ≡ length k.node_id ∷ (k.node_id ++ key_tail k rest)
unfolding key_bytes key_tail
key_bytes_lem k rest v =
    rw
      (
        strnlen-IsNodeId k.node_id v.node,
        take_all (length k.node_id) k.node_id (omega arith),
        small,
      )
      (ap (◌∷◌ (length k.node_id)) (append_assoc k.node_id _ rest))
  where
    small : length k.node_id % 256 ≡ length k.node_id
    small = omega (arith, v.node.short)

get_session :
    (k : TelemetryKey) (rest : List ℕ)
    → get_u32 (key_tail k rest) ≡ some (k.persistent_session_id % 2 ^ 32, be32 k.sequence ++ rest)
unfolding key_tail
get_session k rest = get_u32-be32 k.persistent_session_id (be32 k.sequence ++ rest)

read_key-key_bytes :
    (k : TelemetryKey) (rest : List ℕ) → IsKey k → read_key (key_bytes k ++ rest) ≡ some (k, rest)
unfolding read_key get_u8
read_key-key_bytes k rest v =
    rw
      (
        key_bytes_lem k rest v,
        fits,
        ◌>>=◌,
        require,
        get_bytes-append k.node_id (key_tail k rest),
        c_string-all_node_bytes k.node_id v.node.bytes,
        IsNodeId-node_id_valid k.node_id v.node,
        get_session k rest,
        get_u32-be32 k.sequence rest,
      )
      (rw (ret, c_string-all_node_bytes k.node_id v.node.bytes)
        (ap (λ (key : TelemetryKey). some (key, rest)) whole))
  where
    fits : (not (length k.node_id == 0) && ltb (length k.node_id) node_id_capacity) ≡ true
    fits = ground arith

    whole :
        make_telemetry_key (some k.node_id) (k.persistent_session_id % 2 ^ 32) (k.sequence % 2 ^ 32)
        ≡ k
    whole =
        unfold make_telemetry_key in
        λ i. record {
          node_id = take_all 24 k.node_id (omega arith) i;
          persistent_session_id =
              (let small : k.persistent_session_id % 2 ^ 32 ≡ k.persistent_session_id =
                    omega (arith, v.session) in
                  small)
                i;
          sequence =
              (let small : k.sequence % 2 ^ 32 ≡ k.sequence = omega (arith, v.sequence) in small) i;
        }

-- The keys of the list are stored one after the other.
unfoldable pub all_bytes : List TelemetryKey → List ℕ
all_bytes [] = []
all_bytes (k ∷ ks) = key_bytes k ++ all_bytes ks

pub keys_bytes-all_bytes :
    (d : RecentDeduplicator) (index left : ℕ)
    → keys_bytes d index left ≡ all_bytes (window d index left)
unfolding keys_bytes window all_bytes
keys_bytes-all_bytes d index zero = refl
keys_bytes-all_bytes d index (suc left) =
    ap (λ (bytes : List ℕ). key_bytes (oldest_at d index) ++ bytes)
      (keys_bytes-all_bytes d (index + 1) left)

pub read_keys-all_bytes :
    (ks : List TelemetryKey) (d : RecentDeduplicator)
    → AreKeys ks
    → read_keys (length ks) d (read_key (all_bytes ks)) (all_bytes ks)
      ≡ (remember_all d ks, some [])
unfolding read_keys all_bytes remember_all AreKeys
read_keys-all_bytes [] d v = refl
read_keys-all_bytes (k ∷ ks) d (v, vs) =
    rw (read_key-key_bytes k (all_bytes ks) v) (read_keys-all_bytes ks (remember d k).0 vs)

pub length-all_bytes :
    (ks : List TelemetryKey) → AreKeys ks → length (all_bytes ks) ≤ 33 * length ks
unfolding all_bytes AreKeys
length-all_bytes [] v = omega arith
length-all_bytes (k ∷ ks) (v, vs) = rw (key_bytes_lem k (all_bytes ks) v) (
    omega (
      arith,
      v.node.short,
      length-append k.node_id (key_tail k (all_bytes ks)),
      length-key_tail k (all_bytes ks),
      length-all_bytes ks vs,
    ))

AreKeys-append :
    (ks : List TelemetryKey) (key : TelemetryKey)
    → AreKeys ks
    → IsKey key
    → AreKeys (ks ++ (key ∷ []))
unfolding AreKeys
AreKeys-append [] key vs v = (v, tt)
AreKeys-append (k ∷ ks) key (w, vs) v = (w, AreKeys-append ks key vs v)

AreKeys-drop : (ks : List TelemetryKey) → AreKeys ks → AreKeys (drop 1 ks)
unfolding AreKeys
AreKeys-drop [] vs = vs
AreKeys-drop (k ∷ ks) (v, vs) = vs

AreKeys-push :
    (capacity : ℕ) (ks : List TelemetryKey) (key : TelemetryKey)
    → AreKeys ks
    → IsKey key
    → AreKeys (push_recent capacity ks key)
unfolding push_recent
AreKeys-push capacity ks key vs v = elim (Bool-cases (ltb (length ks) capacity)) [
  | inl e ↦ rw e (AreKeys-append ks key vs v)
  | inr e ↦ rw e (AreKeys-append (drop 1 ks) key (AreKeys-drop ks vs) v)
]

pub AreKeys-recent_all :
    (capacity : ℕ) (kept ks : List TelemetryKey)
    → AreKeys kept
    → AreKeys ks
    → AreKeys (recent_all capacity kept ks)
unfolding AreKeys recent_all
AreKeys-recent_all capacity kept [] h v = h
AreKeys-recent_all capacity kept (k ∷ ks) h (v, vs) = elim (Bool-cases (any_equal kept k)) [
  | inl e ↦ rw e (AreKeys-recent_all capacity kept ks h vs)
  | inr e ↦ rw e (
      AreKeys-recent_all capacity (push_recent capacity kept k) ks
        (AreKeys-push capacity kept k h v) vs)
]

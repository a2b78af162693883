-- ===== src/Dedup/Refinement.antt =====
-- lib/pairing/deduplicator.cpp: the ring holds the most recent keys, oldest first.
use gathra_gateway.Prelude.{
  ℕ, zero, suc, ◌+◌, ◌-◌, ◌<◌, ◌≤◌, ◌≡◌, refl, sym, ap, ap₂, ◌∙◌, inl, inr, Bool, true, false, not,
  List, [], ◌∷◌, ◌++◌, arith, length, drop, ltb, if◌then◌else◌, Bool-cases, dec_lt,
}
use gathra_gateway.Build.{recent_dedup_capacity}
use gathra_gateway.Dedup.{
  TelemetryKey, RecentDeduplicator, empty_keys, create, oldest_at, contains_from, contains,
  remember, telemetry_key_equal,
}
use gathra_gateway.Dedup.Slots.{
  IsValid, stored, stored-IsValid, oldest_at_filling, oldest_at_filled, oldest_at_full,
  oldest_at_last,
}

unfoldable pub window : RecentDeduplicator → ℕ → ℕ → List TelemetryKey
window d index zero = []
window d index (suc left) = oldest_at d index ∷ window d (index + 1) left

-- The keys that the ring remembers, oldest first.
unfoldable pub recent : RecentDeduplicator → List TelemetryKey
recent d = window d 0 d.size

unfoldable pub any_equal : List TelemetryKey → TelemetryKey → Bool
any_equal [] key = false
any_equal (k ∷ ks) key = if telemetry_key_equal k key then true else any_equal ks key

-- A new key goes to the end; the oldest gives way if there is no room.
unfoldable pub push_recent : ℕ → List TelemetryKey → TelemetryKey → List TelemetryKey
push_recent capacity ks key = (if ltb (length ks) capacity then ks else drop 1 ks) ++ (key ∷ [])

contains_from-any_equal :
    (d : RecentDeduplicator) (key : TelemetryKey) (index left : ℕ)
    → contains_from d key index left ≡ any_equal (window d index left) key
unfolding contains_from window any_equal
contains_from-any_equal d key index zero = refl
contains_from-any_equal d key index (suc left) =
    ground (arith, contains_from-any_equal d key (index + 1) left)

pub contains-any_equal :
    (d : RecentDeduplicator) (key : TelemetryKey) → contains d key ≡ any_equal (recent d) key
unfolding contains recent
contains-any_equal d key = contains_from-any_equal d key 0 d.size

length-window : (d : RecentDeduplicator) (index left : ℕ) → length (window d index left) ≡ left
unfolding window
length-window d index zero = refl
length-window d index (suc left) = ap suc (length-window d (index + 1) left)

window_snoc :
    (d : RecentDeduplicator) (index left : ℕ)
    → window d index (suc left) ≡ window d index left ++ (oldest_at d (index + left) ∷ [])
unfolding window
window_snoc d index zero = ap (λ (n : ℕ). oldest_at d n ∷ []) (omega arith)
window_snoc d index (suc left) = ap (◌∷◌ (oldest_at d index)) (
    window_snoc d (index + 1) left
    ∙ ap (λ (n : ℕ). window d (index + 1) left ++ (oldest_at d n ∷ [])) (omega arith))

window_filling :
    (d : RecentDeduplicator) (key : TelemetryKey) (index left : ℕ)
    → IsValid d
    → d.size < d.capacity
    → index + left ≤ d.size
    → window (stored d key) index left ≡ window d index left
unfolding window
window_filling d key index zero v h k = refl
window_filling d key index (suc left) v h k =
    ap₂ ◌∷◌ (oldest_at_filling d key index v h (omega arith))
      (window_filling d key (index + 1) left v h (omega arith))

window_full :
    (d : RecentDeduplicator) (key : TelemetryKey) (index left : ℕ)
    → IsValid d
    → d.size ≡ d.capacity
    → index + left < d.capacity
    → window (stored d key) index left ≡ window d (index + 1) left
unfolding window
window_full d key index zero v h k = refl
window_full d key index (suc left) v h k =
    ap₂ ◌∷◌ (oldest_at_full d key index v h (omega arith))
      (window_full d key (index + 1) left v h (omega arith))

recent_filling :
    (d : RecentDeduplicator) (key : TelemetryKey)
    → IsValid d
    → d.size < d.capacity
    → recent (stored d key) ≡ recent d ++ (key ∷ [])
unfolding recent window
recent_filling d key v h =
    ap (window (stored d key) 0) grown
    ∙ window_snoc (stored d key) 0 d.size
    ∙ ap₂ (λ (ks : List TelemetryKey) (k : TelemetryKey). ks ++ (k ∷ []))
        (window_filling d key 0 d.size v h (omega arith))
        (ap (oldest_at (stored d key)) (omega arith) ∙ oldest_at_filled d key v h)
  where
    grown : (stored d key).size ≡ suc d.size
    grown = unfold stored in ground arith

recent_full :
    (d : RecentDeduplicator) (key : TelemetryKey) (rest : ℕ)
    → IsValid d
    → d.size ≡ d.capacity
    → d.capacity ≡ suc rest
    → recent (stored d key) ≡ drop 1 (recent d) ++ (key ∷ [])
unfolding recent window
recent_full d key rest v h c =
    ap (window (stored d key) 0) kept
    ∙ window_snoc (stored d key) 0 rest
    ∙ ap₂ (λ (ks : List TelemetryKey) (k : TelemetryKey). ks ++ (k ∷ []))
        (window_full d key 0 rest v h (omega arith)
          ∙ ap (λ (n : ℕ). window d n rest) (omega arith)
          ∙ sym shifted)
        (ap (oldest_at (stored d key)) (omega arith) ∙ oldest_at_last d key v h)
  where
    kept : (stored d key).size ≡ suc rest
    kept = unfold stored in ground arith

    shifted : drop 1 (recent d) ≡ window d 1 rest
    shifted = ap (λ (n : ℕ). drop 1 (window d 0 n)) (h ∙ c) ∙ unfold window in refl

pub length-recent : (d : RecentDeduplicator) → length (recent d) ≡ d.size
unfolding recent
length-recent d = length-window d 0 d.size

push_recent_lem :
    (capacity : ℕ) (ks : List TelemetryKey) (key : TelemetryKey)
    → ((length ks < capacity) → ks ++ (key ∷ []) ≡ push_recent capacity ks key)
      × ((length ks ≡ capacity) → drop 1 ks ++ (key ∷ []) ≡ push_recent capacity ks key)
unfolding push_recent
push_recent_lem capacity ks key = (λ h. ground arith, λ h. ground arith)

recent-stored :
    (d : RecentDeduplicator) (key : TelemetryKey)
    → IsValid d
    → recent (stored d key) ≡ push_recent d.capacity (recent d) key
recent-stored d key v = elim (dec_lt d.size d.capacity) [
  | yes h ↦
      recent_filling d key v h
      ∙ (push_recent_lem d.capacity (recent d) key).0 (omega (arith, length-recent d))
  | no h ↦
      recent_full d key (d.capacity - 1) v (omega arith) (omega arith)
      ∙ (push_recent_lem d.capacity (recent d) key).1 (omega (arith, length-recent d))
]

-- Remembering a key refines the list of recent keys: a key that is there changes nothing and is
-- reported as old; any other goes to the end of the list, in place of the oldest key if the ring is
-- full, and is reported as new. The ring stays valid.
pub remember-recent :
    (d : RecentDeduplicator) (key : TelemetryKey)
    → IsValid d
    → ((remember d key).1 ≡ not (any_equal (recent d) key))
      × (recent (remember d key).0
          ≡ (if any_equal (recent d) key then recent d else push_recent d.capacity (recent d) key))
      × IsValid (remember d key).0
unfolding remember stored
remember-recent d key v = elim (Bool-cases (any_equal (recent d) key)) [
  | inl old ↦ rw (contains-any_equal d key, old) (refl, refl, v)
  | inr new ↦ rw (contains-any_equal d key, new) (refl, fresh, kept)
]
  where
    fresh : recent (stored d key) ≡ push_recent d.capacity (recent d) key
    fresh = recent-stored d key v

    kept : IsValid (stored d key)
    kept = stored-IsValid d key v

length-empty_keys : (n : ℕ) → length (empty_keys n) ≡ n
unfolding empty_keys
length-empty_keys zero = refl
length-empty_keys (suc n) = ap suc (length-empty_keys n)

pub create-IsValid : (capacity : ℕ) → IsValid (create capacity)
unfolding create
create-IsValid capacity = ground (arith, length-empty_keys recent_dedup_capacity)

unfoldable pub remember_all : RecentDeduplicator → List TelemetryKey → RecentDeduplicator
remember_all d [] = d
remember_all d (k ∷ ks) = remember_all (remember d k).0 ks

-- The same on a list of at most `capacity` keys.
unfoldable pub recent_all : ℕ → List TelemetryKey → List TelemetryKey → List TelemetryKey
recent_all capacity kept [] = kept
recent_all capacity kept (k ∷ ks) =
    recent_all capacity (if any_equal kept k then kept else push_recent capacity kept k) ks

remember-capacity :
    (d : RecentDeduplicator) (key : TelemetryKey) → (remember d key).0.capacity ≡ d.capacity
unfolding remember
remember-capacity d key = ground arith

pub remember_all-recent :
    (d : RecentDeduplicator) (ks : List TelemetryKey)
    → IsValid d
    → (recent (remember_all d ks) ≡ recent_all d.capacity (recent d) ks)
      × IsValid (remember_all d ks)
unfolding remember_all recent_all
remember_all-recent d [] v = (refl, v)
remember_all-recent d (k ∷ ks) v =
    let (flag, list, valid) = remember-recent d k v in
    let (later, kept) = remember_all-recent (remember d k).0 ks valid in
    (
      later
          ∙ ap₂ (λ (n : ℕ) (kept : List TelemetryKey). recent_all n kept ks) (remember-capacity d k)
              list,
      kept,
    )

pub recent-create : (capacity : ℕ) → recent (create capacity) ≡ []
unfolding recent window create
recent-create capacity = refl

-- Whatever keys a new ring is given, its contents are those of the plain list of recent keys, of
-- which there are never more than 64.
pub remember_all-create :
    (capacity : ℕ) (ks : List TelemetryKey)
    → (recent (remember_all (create capacity) ks) ≡ recent_all (create capacity).capacity [] ks)
      × (length (recent (remember_all (create capacity) ks)) ≤ 64)
remember_all-create capacity ks =
    let (list, v) = remember_all-recent (create capacity) ks (create-IsValid capacity) in
    (
      list
          ∙ ap (λ (kept : List TelemetryKey). recent_all (create capacity).capacity kept ks)
              (recent-create capacity),
      within (remember_all (create capacity) ks) v,
    )
  where
    within : (d : RecentDeduplicator) → IsValid d → length (recent d) ≤ 64
    within d v = omega (arith, length-recent d, v.bounded, v.limited)

-- ===== src/Dedup/Slots.antt =====
-- lib/pairing/deduplicator.cpp: which slot of the array a place of the ring takes.
use gathra_gateway.Prelude.{
  ℕ, zero, suc, ◌+◌, ◌-◌, ◌%◌, ◌<◌, ◌≤◌, ◌≡◌, ◌≢◌, refl, sym, ap, ◌∙◌, ◌⊎◌, List, [], ◌∷◌, arith,
  length, set, get_or, ltb, if◌then◌else◌,
}
use gathra_gateway.Build.{recent_dedup_capacity}
use gathra_gateway.Dedup.{TelemetryKey, RecentDeduplicator, empty_key, oldest_at}

pub record IsValid (d : RecentDeduplicator) : Type 0 where
  pub positive : 0 < d.capacity
  pub limited : d.capacity ≤ recent_dedup_capacity
  pub slots : length d.keys ≡ recent_dedup_capacity
  pub bounded : d.size ≤ d.capacity
  pub in_ring : d.next < d.capacity
  pub filling : (d.size ≡ d.capacity) ⊎ (d.next ≡ d.size)

wrap_below : (a n : ℕ) → a < n → a % n ≡ a
wrap_below a n h = grind arith

wrap_above : (a n : ℕ) → n ≤ a → a < n + n → a % n ≡ a - n
wrap_above a n h k = grind arith

get_or-set_self :
    (xs : List TelemetryKey) (i : ℕ) (v d : TelemetryKey)
    → i < length xs
    → get_or (set xs i v) i d ≡ v
get_or-set_self [] i v d h = absurd (omega arith)
get_or-set_self (x ∷ xs) zero v d h = refl
get_or-set_self (x ∷ xs) (suc i) v d h = get_or-set_self xs i v d (omega arith)

get_or-set_ne :
    (xs : List TelemetryKey) (i j : ℕ) (v d : TelemetryKey)
    → i ≢ j
    → get_or (set xs i v) j d ≡ get_or xs j d
get_or-set_ne [] i j v d h = refl
get_or-set_ne (x ∷ xs) zero zero v d h = absurd (h refl)
get_or-set_ne (x ∷ xs) zero (suc j) v d h = refl
get_or-set_ne (x ∷ xs) (suc i) zero v d h = refl
get_or-set_ne (x ∷ xs) (suc i) (suc j) v d h = get_or-set_ne xs i j v d (λ e. h (ap suc e))

length-set : (xs : List TelemetryKey) (i : ℕ) (v : TelemetryKey) → length (set xs i v) ≡ length xs
length-set [] i v = refl
length-set (x ∷ xs) zero v = refl
length-set (x ∷ xs) (suc i) v = ap suc (length-set xs i v)

-- The state after a key that was not there.
unfoldable pub stored : RecentDeduplicator → TelemetryKey → RecentDeduplicator
stored d key = record d {
  keys = set d.keys d.next key;
  next = (d.next + 1) % d.capacity;
  size = if ltb d.size d.capacity then d.size + 1 else d.size;
}

next_slot :
    (d : RecentDeduplicator)
    → IsValid d
    → ((d.next + 1) % d.capacity ≡ d.next + 1) × (d.next + 1 < d.capacity)
      ⊎ ((d.next + 1) % d.capacity ≡ 0) × (d.next + 1 ≡ d.capacity)
next_slot d v = grind arith

pub stored-IsValid :
    (d : RecentDeduplicator) (key : TelemetryKey) → IsValid d → IsValid (stored d key)
unfolding stored
stored-IsValid d key v = ground (arith, next_slot d v, length-set d.keys d.next key)

-- Where the key at a place of the ring lies in the array.
slot : RecentDeduplicator → ℕ → ℕ
slot d index = ((if ltb d.size d.capacity then 0 else d.next) + index) % d.capacity

oldest_at-slot :
    (d : RecentDeduplicator) (index : ℕ)
    → oldest_at d index ≡ get_or d.keys (slot d index) empty_key
unfolding oldest_at slot
oldest_at-slot d index = refl

slot_stored_filling :
    (d : RecentDeduplicator) (key : TelemetryKey) (index : ℕ)
    → IsValid d
    → d.size < d.capacity
    → index ≤ d.size
    → (slot (stored d key) index ≡ index) × (d.next ≡ d.size)
unfolding slot stored
slot_stored_filling d key index v h k = ground (arith, next_slot d v, wrap_below index d.capacity)

slot_filling :
    (d : RecentDeduplicator) (index : ℕ)
    → IsValid d
    → d.size < d.capacity
    → index ≤ d.size
    → slot d index ≡ index
unfolding slot
slot_filling d index v h k = ground (arith, wrap_below index d.capacity)

slot_stored_full :
    (d : RecentDeduplicator) (key : TelemetryKey) (index : ℕ)
    → IsValid d
    → d.size ≡ d.capacity
    → index + 1 < d.capacity
    → (slot (stored d key) index ≡ slot d (index + 1)) × (slot d (index + 1) ≢ d.next)
unfolding slot stored
slot_stored_full d key index v h k = ground (
  arith,
  next_slot d v,
  wrap_below index d.capacity,
  wrap_below (d.next + (index + 1)) d.capacity,
  wrap_above (d.next + (index + 1)) d.capacity,
)

slot_stored_last :
    (d : RecentDeduplicator) (key : TelemetryKey)
    → IsValid d
    → d.size ≡ d.capacity
    → slot (stored d key) (d.capacity - 1) ≡ d.next
unfolding slot stored
slot_stored_last d key v h = ground (
  arith,
  next_slot d v,
  wrap_below (d.capacity - 1) d.capacity,
  wrap_above (d.next + d.capacity) d.capacity,
)

pub oldest_at_filling :
    (d : RecentDeduplicator) (key : TelemetryKey) (index : ℕ)
    → IsValid d
    → d.size < d.capacity
    → index < d.size
    → oldest_at (stored d key) index ≡ oldest_at d index
oldest_at_filling d key index v h k =
    let (new_slot, next_size) = slot_stored_filling d key index v h (omega arith) in
    oldest_at-slot (stored d key) index
    ∙ rw (new_slot, oldest_at-slot d index, slot_filling d index v h (omega arith))
        (unfold stored in get_or-set_ne d.keys d.next index key empty_key (omega arith))

pub oldest_at_filled :
    (d : RecentDeduplicator) (key : TelemetryKey)
    → IsValid d
    → d.size < d.capacity
    → oldest_at (stored d key) d.size ≡ key
oldest_at_filled d key v h =
    let (new_slot, next_size) = slot_stored_filling d key d.size v h (omega arith) in
    oldest_at-slot (stored d key) d.size
    ∙ rw (new_slot, ← next_size)
        (unfold stored in get_or-set_self d.keys d.next key empty_key (omega (arith, v.slots)))

pub oldest_at_full :
    (d : RecentDeduplicator) (key : TelemetryKey) (index : ℕ)
    → IsValid d
    → d.size ≡ d.capacity
    → index + 1 < d.capacity
    → oldest_at (stored d key) index ≡ oldest_at d (index + 1)
oldest_at_full d key index v h k =
    let (new_slot, apart) = slot_stored_full d key index v h k in
    oldest_at-slot (stored d key) index
    ∙ rw (new_slot, oldest_at-slot d (index + 1))
        (unfold stored in
          get_or-set_ne d.keys d.next (slot d (index + 1)) key empty_key (λ e. apart (sym e)))

pub oldest_at_last :
    (d : RecentDeduplicator) (key : TelemetryKey)
    → IsValid d
    → d.size ≡ d.capacity
    → oldest_at (stored d key) (d.capacity - 1) ≡ key
oldest_at_last d key v h =
    oldest_at-slot (stored d key) (d.capacity - 1)
    ∙ rw (slot_stored_last d key v h)
        (unfold stored in get_or-set_self d.keys d.next key empty_key (omega (arith, v.slots)))

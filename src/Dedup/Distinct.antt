-- ===== src/Dedup/Distinct.antt =====
-- lib/pairing/deduplicator.cpp: the recent keys are distinct, so remembering them again keeps them all.
use gathra_gateway.Prelude.{
  ℕ, ◌≤◌, ◌≡◌, refl, sym, ◌∙◌, subst, inl, inr, Bool, true, false, not, ◌&&◌, List, [], ◌∷◌, ◌++◌,
  append_assoc, append-nil, arith, length, length-append, drop, Bool-cases,
}
use gathra_gateway.Dedup.{TelemetryKey, telemetry_key_equal}
use gathra_gateway.Dedup.Refinement.{any_equal, push_recent, recent_all}

-- `k` is equal to none of the keys.
unfoldable pub differs : TelemetryKey → List TelemetryKey → Bool
differs k [] = true
differs k (x ∷ ks) = not (telemetry_key_equal k x) && differs k ks

unfoldable pub are_distinct : List TelemetryKey → Bool
unfolding differs
are_distinct [] = true
are_distinct (k ∷ ks) = differs k ks && are_distinct ks

differs-append :
    (k key : TelemetryKey) (ks : List TelemetryKey)
    → differs k (ks ++ (key ∷ [])) ≡ (differs k ks && not (telemetry_key_equal k key))
unfolding differs
differs-append k key [] = ground arith
differs-append k key (x ∷ ks) = ground (arith, differs-append k key ks)

are_distinct-append :
    (ks : List TelemetryKey) (key : TelemetryKey)
    → are_distinct ks ≡ true
    → any_equal ks key ≡ false
    → are_distinct (ks ++ (key ∷ [])) ≡ true
unfolding are_distinct differs any_equal
are_distinct-append [] key h n = refl
are_distinct-append (k ∷ ks) key h n =
    ground (arith, differs-append k key ks, are_distinct-append ks key)

are_distinct-drop :
    (ks : List TelemetryKey) → are_distinct ks ≡ true → are_distinct (drop 1 ks) ≡ true
unfolding are_distinct
are_distinct-drop [] h = refl
are_distinct-drop (k ∷ ks) h = ground arith

any_equal-drop :
    (ks : List TelemetryKey) (key : TelemetryKey)
    → any_equal ks key ≡ false
    → any_equal (drop 1 ks) key ≡ false
unfolding any_equal
any_equal-drop [] key h = refl
any_equal-drop (k ∷ ks) key h = ground arith

push_recent_distinct :
    (capacity : ℕ) (ks : List TelemetryKey) (key : TelemetryKey)
    → are_distinct ks ≡ true
    → any_equal ks key ≡ false
    → are_distinct (push_recent capacity ks key) ≡ true
unfolding push_recent
push_recent_distinct capacity ks key h n = ground (
  arith,
  are_distinct-append ks key h n,
  are_distinct-append (drop 1 ks) key (are_distinct-drop ks h) (any_equal-drop ks key n),
)

-- The list of recent keys never has a key twice.
pub recent_all_distinct :
    (capacity : ℕ) (kept ks : List TelemetryKey)
    → are_distinct kept ≡ true
    → are_distinct (recent_all capacity kept ks) ≡ true
unfolding recent_all
recent_all_distinct capacity kept [] h = h
recent_all_distinct capacity kept (k ∷ ks) h = elim (Bool-cases (any_equal kept k)) [
  | inl e ↦ rw e (recent_all_distinct capacity kept ks h)
  | inr e ↦ rw e (
      recent_all_distinct capacity (push_recent capacity kept k) ks
        (push_recent_distinct capacity kept k h e))
]

differs-append_cons :
    (x k : TelemetryKey) (kept rest : List TelemetryKey)
    → differs x (kept ++ (k ∷ rest)) ≡ true
    → telemetry_key_equal x k ≡ false
unfolding differs
differs-append_cons x k [] rest h = ground arith
differs-append_cons x k (y ∷ kept) rest h = differs-append_cons x k kept rest (ground arith)

-- A key is not equal to one before it in a list of distinct keys.
any_equal-are_distinct :
    (kept rest : List TelemetryKey) (k : TelemetryKey)
    → are_distinct (kept ++ (k ∷ rest)) ≡ true
    → any_equal kept k ≡ false
unfolding are_distinct any_equal
any_equal-are_distinct [] rest k h = refl
any_equal-are_distinct (x ∷ kept) rest k h =
    rw (differs-append_cons x k kept rest (ground arith))
      (any_equal-are_distinct kept rest k (ground arith))

-- Distinct keys, as many as there is room for, are all remembered.
pub recent_all-are_distinct :
    (capacity : ℕ) (kept ks : List TelemetryKey)
    → are_distinct (kept ++ ks) ≡ true
    → length (kept ++ ks) ≤ capacity
    → recent_all capacity kept ks ≡ kept ++ ks
unfolding recent_all
recent_all-are_distinct capacity kept [] h l = sym (append-nil kept)
recent_all-are_distinct capacity kept (k ∷ ks) h l =
    rw (any_equal-are_distinct kept ks k h, appended)
      (recent_all-are_distinct capacity (kept ++ (k ∷ [])) ks
          (subst (λ (all : List TelemetryKey). are_distinct all ≡ true) assoc h)
          (subst (λ (all : List TelemetryKey). length all ≤ capacity) assoc l)
        ∙ sym assoc)
  where
    assoc : kept ++ (k ∷ ks) ≡ (kept ++ (k ∷ [])) ++ ks
    assoc = sym (append_assoc kept (k ∷ []) ks)

    appended : push_recent capacity kept k ≡ kept ++ (k ∷ [])
    appended = unfold push_recent in ground (arith, length-append kept (k ∷ ks))

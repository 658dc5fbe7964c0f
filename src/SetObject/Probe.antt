-- ===== src/SetObject/Probe.antt =====
-- The probe sequence of `set_lookkey` (objects/setobject.c).
use cobj.Prelude.{every, every_at, ℕ, zero, suc, ◌+◌, ◌/◌, ◌%◌, ◌^◌, ◌<◌, ◌≡◌, arith, refl, ap}
use cobj.Prelude.{List, true, if◌then◌else◌, ◌==◌, ltb, ◌∙◌, Option, none, some}
use cobj.Prelude.{Bool-cases, inl, inr, get_or, ◌&&◌}
use native.Mathlib.Nat.{pow-suc}
use cobj.Prelude.Result.{Result, ok}
use cobj.Hashing.{KeyType, IsLawful}
use cobj.SetObject.{SetEntry, empty, dummy, active, SetObject, next_index, entry_at, free_or}
use cobj.SetObject.{match_entry, round, settled, probe, set_lookkey}

-- The index after `n` steps.
pub walk : ℕ → ℕ → ℕ → ℕ
walk zero i perturb = i
walk (suc n) i perturb = walk n (next_index i perturb) (perturb / 32)

-- Where no perturbation is left, a step is 5 * i + 1 on the slots.
walk_mod : (n i j : ℕ) → i % 8 ≡ j % 8 → walk n i 0 % 8 ≡ walk n j 0 % 8
unfolding walk
walk_mod zero i j h = h
walk_mod (suc n) i j h = walk_mod n (next_index i 0) (next_index j 0) (omega arith)

-- The number of steps from the slot of `i` to the slot `e`, within `n` steps.
steps_to : ℕ → ℕ → ℕ → ℕ
steps_to zero i e = 0
steps_to (suc n) i e =
    let more = steps_to n (next_index i 0) e in if i % 8 == e then 0 else suc more

all_reached :
    every (λ i. every (λ e. (walk (steps_to 8 i e) i 0 % 8 == e) && ltb (steps_to 8 i e) 8) 8) 8
    ≡ true
unfolding every walk steps_to
all_reached = refl

-- From each slot the step reaches each slot in fewer than 8 rounds.
reached : (i e : ℕ) → e < 8 → (k : ℕ) × (k < 8) × (walk k i 0 % 8 ≡ e)
reached i e h =
    let row = every_at _ 8 (i % 8) all_reached (omega arith) in
    let cell = every_at _ 8 e row h in
    let k = steps_to 8 (i % 8) e in
    (k, ground (arith, cell), walk_mod k i (i % 8) (omega arith) ∙ ground (arith, cell))

-- The perturbation after `n` steps.
drain : ℕ → ℕ → ℕ
drain zero p = p
drain (suc n) p = drain n (p / 32)

drain_zero : (n p : ℕ) → p < 32 ^ n → drain n p ≡ 0
unfolding drain
drain_zero zero p h = omega arith
drain_zero (suc n) p h = drain_zero n (p / 32) (omega (arith, pow-suc 32 n))

walk_add : (n m k i p : ℕ) → m ≡ n + k → walk m i p ≡ walk k (walk n i p) (drain n p)
unfolding walk drain
walk_add zero m k i p h = let e : m ≡ k = omega arith in rw e refl
walk_add (suc n) zero k i p h = absurd (omega arith)
walk_add (suc n) (suc m) k i p h = walk_add n m k (next_index i p) (p / 32) (omega arith)

-- Every slot is reached in fewer than 21 rounds, whatever the hash.
pub walk_reaches :
    (i hash e : ℕ) → hash < 2 ^ 64 → e < 8 → (k : ℕ) × (k < 21) × (walk k i hash % 8 ≡ e)
walk_reaches i hash e hh he =
    let (k, l, r) = reached (walk 13 i hash) e he in
    (
      13 + k,
      omega arith,
      ap (λ w. w % 8)
            (walk_add 13 (13 + k) k i hash refl
              ∙ ap (walk k (walk 13 i hash)) (drain_zero 13 hash (omega arith)))
          ∙ r,
    )

module _ (T : KeyType) (law : IsLawful T) where
  match_entry_total :
      (key : T.Key) (hash : ℕ) (k : T.Key) (h i : ℕ)
      → (r : Option ℕ) × (match_entry T key hash k h i ≡ ok r)
  unfolding match_entry
  match_entry_total key hash k h i =
      let (r, e) = law.equal_total k key in
      elim (Bool-cases (T.same k key)) [
        | inl s ↦ (some i, rw s refl)
        | inr s ↦ elim (Bool-cases (h == hash)) [
          | inl t ↦ ((if r then some i else none), rw (s, t, e) refl)
          | inr t ↦ (none, rw (s, t) refl)
        ]
      ]

  settled_total :
      (go : Option ℕ → Result ℕ) (freeslot r : Option ℕ)
      → ((f : Option ℕ) → (s : ℕ) × (go f ≡ ok s))
      → (s : ℕ) × (settled go freeslot r ≡ ok s)
  settled_total go freeslot none h = h freeslot
  settled_total go freeslot (some found) h = (found, refl)

  round_total :
      (key : T.Key) (hash : ℕ) (go : Option ℕ → Result ℕ) (freeslot : Option ℕ) (i : ℕ)
      (e : SetEntry T.Key)
      → ((f : Option ℕ) → (s : ℕ) × (go f ≡ ok s))
      → (s : ℕ) × (round T key hash go freeslot i e ≡ ok s)
  round_total key hash go freeslot i empty h = (free_or T freeslot i, refl)
  round_total key hash go freeslot i dummy h = h (some (free_or T freeslot i))
  round_total key hash go freeslot i (active k hk) h =
      let (r, e) = match_entry_total key hash k hk i in
      let (s, es) = settled_total go freeslot r h in (s, rw e es)

  -- The loop ends at the first empty entry at the latest.
  probe_ends :
      (k fuel : ℕ) (table : List (SetEntry T.Key)) (key : T.Key) (hash i perturb : ℕ)
      (freeslot : Option ℕ)
      → k < fuel
      → entry_at T table (walk k i perturb) ≡ empty
      → (s : ℕ) × (probe T fuel table key hash i perturb freeslot ≡ ok s)
  unfolding walk probe
  probe_ends k zero table key hash i perturb freeslot l e = absurd (omega arith)
  probe_ends zero (suc fuel) table key hash i perturb freeslot l e =
      (free_or T freeslot (i % 8), rw e refl)
  probe_ends (suc k) (suc fuel) table key hash i perturb freeslot l e =
      round_total key hash
        (λ f. probe T fuel table key hash (next_index i perturb) (perturb / 32) f) freeslot (i % 8)
        (entry_at T table i)
        (λ f.
          probe_ends k fuel table key hash (next_index i perturb) (perturb / 32) f (omega arith) e)

  -- Where the keys are lawful, the hash has 64 bits and some slot `e` below 8 of the table is
  -- empty, `set_lookkey` ends with a slot: the fuel of the probe is never used up.
  pub set_lookkey_ends :
      (so : SetObject T.Key) (key : T.Key) (hash e : ℕ)
      → hash < 2 ^ 64
      → e < 8
      → get_or so.table e dummy ≡ empty
      → (s : ℕ) × (set_lookkey T so key hash ≡ ok s)
  unfolding set_lookkey
  set_lookkey_ends so key hash e hh he free =
      let (k, l, r) = walk_reaches (hash % 8) hash e hh he in
      probe_ends k 22 so.table key hash (hash % 8) hash none (omega arith)
        (ap (λ i. get_or so.table i dummy) r ∙ free)

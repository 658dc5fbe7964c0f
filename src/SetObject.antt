-- ===== src/SetObject.antt =====
-- objects/setobject.c: the set object, an open-addressed table that never grows beyond its 8 slots.
pub mod Probe
mod Tests
use cobj.Prelude.{ℕ, zero, suc, ◌+◌, ◌-◌, ◌*◌, ◌/◌, ◌%◌, ◌^◌, List, [], ◌∷◌, length, replicate, set}
use cobj.Prelude.{Bool, true, false, if◌then◌else◌, ◌==◌, ltb, leb, Option, none, some, get_or}
use cobj.Prelude.Result.{Result, ok, raise, undefined, ◌>>=◌}
use cobj.Hashing.{KeyType, compare_eq}

-- `key` is NULL, the dummy key, or a member with its cached hash.
pub data SetEntry (K : Type 0) : Type 0 where
  empty : SetEntry K
  dummy : SetEntry K
  active : K → ℕ → SetEntry K

-- The table has mask + 1 = COSet_MINSIZE slots.
pub record SetObject (K : Type 0) : Type 0 where
  pub fill : ℕ
  pub used : ℕ
  pub table : List (SetEntry K)

-- COSet_MINSIZE
abbrev pub set_minsize : ℕ
set_minsize = 8

-- make_new_set with no iterable
pub new_set : (K : Type 0) → SetObject K
new_set K = record { fill = 0; used = 0; table = replicate set_minsize empty }

-- `(i << 2) + i + perturb + 1` in a size_t
abbrev pub next_index : ℕ → ℕ → ℕ
next_index i perturb = (i * 4 + i + perturb + 1) % 2 ^ 64

-- The slot that is found, or the rest of the loop.
abbrev pub settled : (Option ℕ → Result ℕ) → Option ℕ → Option ℕ → Result ℕ
settled go freeslot none = go freeslot
settled go freeslot (some found) = ok found

module _ (T : KeyType) where
  -- `i & mask` of the table.
  abbrev pub entry_at : List (SetEntry T.Key) → ℕ → SetEntry T.Key
  entry_at table i = get_or table (i % 8) dummy

  -- `if (freeslot != NULL) entry = freeslot;`
  abbrev pub free_or : Option ℕ → ℕ → ℕ
  free_or none i = i
  free_or (some f) i = f

  -- The slot that an active entry settles, or `none` to go on.
  pub match_entry : T.Key → ℕ → T.Key → ℕ → ℕ → Result (Option ℕ)
  match_entry key hash k h i =
      if T.same k key
      then ok (some i)
      else if h == hash
      then (compare_eq T k key >>= λ eq. ok (if eq then some i else none))
      else ok none

  -- The branches of a round on the entry of slot `s`; `go` is the rest of the loop.
  abbrev pub round : T.Key → ℕ → (Option ℕ → Result ℕ) → Option ℕ → ℕ → SetEntry T.Key → Result ℕ
  round key hash go freeslot s empty = ok (free_or freeslot s)
  round key hash go freeslot s dummy = go (some (free_or freeslot s))
  round key hash go freeslot s (active k h) =
      match_entry key hash k h s >>= λ found. settled go freeslot found

  -- The loop of `set_lookkey`, from the entry at `i` on; `undefined` once the fuel is used up.
  pub probe : ℕ → List (SetEntry T.Key) → T.Key → ℕ → ℕ → ℕ → Option ℕ → Result ℕ
  probe zero table key hash i perturb freeslot = undefined
  probe (suc fuel) table key hash i perturb freeslot =
      let go = probe fuel table key hash (next_index i perturb) (perturb / 32) in
      round key hash go freeslot (i % 8) (entry_at table i)

  -- Thirteen shifts take the perturbation of a 64-bit hash to 0, and 8 more steps then see every
  -- slot.
  abbrev pub probe_fuel : ℕ
  probe_fuel = 22

  pub set_lookkey : SetObject T.Key → T.Key → ℕ → Result ℕ
  set_lookkey so key hash = probe probe_fuel so.table key hash (hash % 8) hash none

  -- What `set_insert_key` does to the slot that the lookup gave.
  fill_entry : SetObject T.Key → T.Key → ℕ → ℕ → SetEntry T.Key → SetObject T.Key
  fill_entry so key hash s empty = record {
    fill = so.fill + 1;
    used = so.used + 1;
    table = set so.table s (active key hash);
  }
  fill_entry so key hash s dummy = record so {
    used = so.used + 1;
    table = set so.table s (active key hash);
  }
  fill_entry so key hash s (active k h) = so

  pub set_insert_key : SetObject T.Key → T.Key → ℕ → Result (SetObject T.Key)
  set_insert_key so key hash = do
    s ← set_lookkey so key hash
    ok (fill_entry so key hash s (entry_at so.table s))

  -- `hash = COObject_Hash(key)`, whose -1 is not tested.
  hash_of : T.Key → ℕ
  hash_of key = elim (T.hash key) [ ok h ↦ h | raise e ↦ 2 ^ 64 - 1 | undefined ↦ 2 ^ 64 - 1 ]

  -- set_add_key, with its `assert(so->fill <= so->mask)`.
  pub set_add_key : SetObject T.Key → T.Key → Result (SetObject T.Key)
  set_add_key so key =
      if ltb so.fill set_minsize then set_insert_key so key (hash_of key) else undefined

  -- set_update_internal over the keys that the iterator gives.
  pub set_update : SetObject T.Key → List T.Key → Result (SetObject T.Key)
  set_update so [] = ok so
  set_update so (k ∷ ks) = set_add_key so k >>= λ so'. set_update so' ks

  -- make_new_set
  pub make_new_set : List T.Key → Result (SetObject T.Key)
  make_new_set ks = set_update (new_set T.Key) ks

-- set_next on the slots from `pos` on: the next member, and the position behind it.
pub set_next : {K : Type 0} → List (SetEntry K) → ℕ → Option (K × ℕ)
set_next [] pos = none
set_next (empty ∷ slots) pos = set_next slots (pos + 1)
set_next (dummy ∷ slots) pos = set_next slots (pos + 1)
set_next (active k h ∷ slots) pos = some (k, pos + 1)

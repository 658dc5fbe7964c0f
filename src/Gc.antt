-- ===== src/Gc.antt =====
-- gc.c: the collector of reference cycles. An object is known by a number, and the doubly linked
-- lists of gc.c are lists of these numbers.
pub mod Marking
pub mod Sweeping
pub mod Pacing
mod Tests
use cobj.Prelude.{ℕ, zero, suc, ◌+◌, ◌*◌, List, [], ◌∷◌, ◌++◌, length, get_or, set}
use cobj.Prelude.{Bool, if◌then◌else◌, ◌==◌, ltb, ◌&&◌, not}
use cobj.Prelude.Int.{ℤ, pos, negsuc, ◌-ℤ◌, leb_ℤ, eqb_ℤ}
use cobj.Prelude.Result.{Result, ok, undefined, ◌>>=◌}

abbrev pub gc_untracked : ℤ
gc_untracked = negsuc 0

abbrev pub gc_reachable : ℤ
gc_reachable = negsuc 1

abbrev pub gc_tentatively_unreachable : ℤ
gc_tentatively_unreachable = negsuc 2

-- What the collector reads of the objects: co_refcnt, COObject_IS_GC, and the references that
-- tp_traverse visits, in its order.
pub record Heap : Type 0 where
  pub refcnt : ℕ → ℕ
  pub is_gc : ℕ → Bool
  pub traverse : ℕ → List ℕ

-- `gc->gc.gc_refs` of every object.
abbrev pub GcRefs : Type 0
GcRefs = ℕ → ℤ

-- `gc->gc.gc_refs = v`
abbrev pub store : GcRefs → ℕ → ℤ → GcRefs
store refs o v x = if x == o then v else refs x

-- gc_list_remove
pub gc_list_remove : ℕ → List ℕ → List ℕ
gc_list_remove node [] = []
gc_list_remove node (x ∷ list) = if x == node then list else x ∷ gc_list_remove node list

-- gc_list_size
pub gc_list_size : List ℕ → ℕ
gc_list_size [] = 0
gc_list_size (x ∷ list) = gc_list_size list + 1

-- update_refs, with its two assertions.
pub update_refs : Heap → List ℕ → GcRefs → Result GcRefs
update_refs heap [] refs = ok refs
update_refs heap (gc ∷ container) refs =
    let rest = update_refs heap container (store refs gc (pos (heap.refcnt gc))) in
    if eqb_ℤ (refs gc) gc_reachable && not (heap.refcnt gc == 0) then rest else undefined

-- visit_decref
pub visit_decref : Heap → GcRefs → ℕ → GcRefs
visit_decref heap refs o = if heap.is_gc o then store refs o (refs o -ℤ pos 1) else refs

-- The traversal of one object by `visit_decref`.
pub decref_all : Heap → GcRefs → List ℕ → GcRefs
decref_all heap refs [] = refs
decref_all heap refs (o ∷ os) = decref_all heap (visit_decref heap refs o) os

-- subtract_refs
pub subtract_refs : Heap → List ℕ → GcRefs → GcRefs
subtract_refs heap [] refs = refs
subtract_refs heap (gc ∷ container) refs =
    subtract_refs heap container (decref_all heap refs (heap.traverse gc))

-- The lists in `move_unreachable`: `young` to the left of `gc`, from `gc` on, and `unreachable`.
pub record Sweep : Type 0 where
  pub scanned : List ℕ
  pub todo : List ℕ
  pub unreachable : List ℕ
  pub refs : GcRefs

-- visit_reachable, with its assertion.
pub visit_reachable : Heap → Sweep → ℕ → Result Sweep
visit_reachable heap s o =
    if heap.is_gc o
    then (if eqb_ℤ (s.refs o) (pos 0)
        then ok (record s { refs = store s.refs o (pos 1) })
        else if eqb_ℤ (s.refs o) gc_tentatively_unreachable
        then ok (record s {
          todo = s.todo ++ o ∷ [];
          unreachable = gc_list_remove o s.unreachable;
          refs = store s.refs o (pos 1);
        })
        else if leb_ℤ gc_reachable (s.refs o)
        then ok s
        else undefined)
    else ok s

-- The traversal of one object by `visit_reachable`.
pub visit_all : Heap → Sweep → List ℕ → Result Sweep
visit_all heap s [] = ok s
visit_all heap s (o ∷ os) = visit_reachable heap s o >>= λ s'. visit_all heap s' os

-- A round of the loop of `move_unreachable` at `gc`, with `todo` the list behind it.
pub sweep_step : Heap → Sweep → ℕ → List ℕ → Result Sweep
sweep_step heap s gc todo =
    if eqb_ℤ (s.refs gc) (pos 0)
    then ok (record s {
      todo = todo;
      unreachable = s.unreachable ++ gc ∷ [];
      refs = store s.refs gc gc_tentatively_unreachable;
    })
    else visit_all heap
        (record s {
          scanned = s.scanned ++ gc ∷ [];
          todo = todo;
          refs = store s.refs gc gc_reachable;
        })
        (heap.traverse gc)

-- The loop of `move_unreachable`; `undefined` once the fuel is used up.
pub sweep_loop : Heap → ℕ → Sweep → List ℕ → Result Sweep
sweep_loop heap fuel s [] = ok s
sweep_loop heap zero s (gc ∷ todo) = undefined
sweep_loop heap (suc fuel) s (gc ∷ todo) =
    sweep_step heap s gc todo >>= λ s'. sweep_loop heap fuel s' s'.todo

-- move_unreachable: each object is scanned once, and moved at most once before.
pub move_unreachable : Heap → List ℕ → GcRefs → Result Sweep
move_unreachable heap young refs =
    sweep_loop heap (3 * length young)
      (record { scanned = []; todo = young; unreachable = []; refs = refs }) young

-- struct gc_generation
pub record GcGeneration : Type 0 where
  pub head : List ℕ
  pub threshold : ℕ
  pub count : ℕ

-- The state of the collector: the objects, their gc_refs, the generations, and the list of the
-- garbage that is still to be cleared.
pub record Collector : Type 0 where
  pub heap : Heap
  pub gc_refs : GcRefs
  pub generations : List GcGeneration
  pub garbage : List ℕ

-- The generations as they are at the start.
abbrev pub initial_generations : List GcGeneration
initial_generations =
    record { head = []; threshold = 700; count = 0 }
    ∷ record { head = []; threshold = 10; count = 0 }
    ∷ record { head = []; threshold = 10; count = 0 }
    ∷ []

abbrev no_generation : GcGeneration
no_generation = record { head = []; threshold = 0; count = 0 }

abbrev pub generation_at : List GcGeneration → ℕ → GcGeneration
generation_at gs i = get_or gs i no_generation

-- `generations[generation + 1].count += 1` if there is one, and a count of 0 up to `generation`.
pub update_counters : ℕ → List GcGeneration → List GcGeneration
update_counters generation [] = []
update_counters zero (g ∷ []) = record g { count = 0 } ∷ []
update_counters zero (g ∷ h ∷ gs) = record g { count = 0 } ∷ record h { count = h.count + 1 } ∷ gs
update_counters (suc generation) (g ∷ gs) = record g { count = 0 } ∷ update_counters generation gs

-- The younger generations appended to `GEN_HEAD(generation)`, the youngest first, and emptied.
pub merge_younger : ℕ → List ℕ → List GcGeneration → List ℕ
merge_younger zero young gs = young
merge_younger (suc i) young [] = young
merge_younger (suc i) young (g ∷ gs) = merge_younger i (young ++ g.head) gs

pub empty_younger : ℕ → List GcGeneration → List GcGeneration
empty_younger zero gs = gs
empty_younger (suc i) [] = []
empty_younger (suc i) (g ∷ gs) = record g { head = [] } ∷ empty_younger i gs

-- `head` of a generation.
abbrev pub set_head : List GcGeneration → ℕ → List ℕ → List GcGeneration
set_head gs i list = set gs i (record (generation_at gs i) { head = list })

-- The generation that `old` points to.
abbrev pub older : ℕ → List GcGeneration → ℕ
older generation gs = if ltb (generation + 1) (length gs) then generation + 1 else generation

-- The reachable objects move to the next generation.
pub promote : ℕ → List ℕ → List GcGeneration → List GcGeneration
promote generation young gs =
    let old = older generation gs in
    if old == generation
    then set_head gs generation young
    else set_head (set_head gs generation []) old ((generation_at gs old).head ++ young)

-- `clear o c`: what CO_INCREF, the tp_clear of `o` and CO_DECREF do; objects that this frees leave
-- the lists they are in.
module _ (clear : ℕ → Collector → Collector) where
  -- `if (collectable->gc.gc_next == gc)`: an object that was not freed moves to `old`.
  pub keep_uncleared : ℕ → ℕ → Collector → Collector
  keep_uncleared gc old c = kept c.garbage
    where
      kept : List ℕ → Collector
      kept [] = c
      kept (x ∷ rest) =
          if x == gc
          then record c {
            garbage = rest;
            generations =
                set_head c.generations old ((generation_at c.generations old).head ++ gc ∷ []);
            gc_refs = store c.gc_refs gc gc_reachable;
          }
          else c

  -- The loop of `delete_garbage`, with its assertion; `undefined` once the fuel is used up.
  pub garbage_loop : ℕ → ℕ → Collector → List ℕ → Result Collector
  garbage_loop fuel old c [] = ok c
  garbage_loop zero old c (gc ∷ rest) = undefined
  garbage_loop (suc fuel) old c (gc ∷ rest) =
      let c' = keep_uncleared gc old (clear gc c) in
      let next = garbage_loop fuel old c' c'.garbage in
      if eqb_ℤ (c.gc_refs gc) gc_tentatively_unreachable then next else undefined

  -- delete_garbage: every round takes an object from the list.
  pub delete_garbage : ℕ → Collector → Result Collector
  delete_garbage old c = garbage_loop (length c.garbage) old c c.garbage

  -- collect
  pub collect : Collector → ℕ → Result (ℕ × Collector)
  collect c generation = do
    let gs = update_counters generation c.generations
    let young = merge_younger generation (generation_at gs generation).head gs
    refs ← update_refs c.heap young c.gc_refs
    s ← move_unreachable c.heap young (subtract_refs c.heap young refs)
    c' ← delete_garbage (older generation gs) (record c {
      gc_refs = s.refs;
      generations = promote generation s.scanned (empty_younger generation gs);
      garbage = s.unreachable;
    })
    ok (gc_list_size s.unreachable, c')

  -- `for (i = NUM_GENERATIONS - 1; i >= 0; i--)`
  pub collect_from : ℕ → Collector → Result (ℕ × Collector)
  collect_from zero c = ok (0, c)
  collect_from (suc i) c =
      let g = generation_at c.generations i in
      let rest = collect_from i c in if ltb g.threshold g.count then collect c i else rest

  -- collect_generations
  pub collect_generations : Collector → Result (ℕ × Collector)
  collect_generations c = collect_from 3 c

  -- COObject_GC_Collect; `collecting` is the flag on entry.
  pub gc_collect : Bool → Collector → Result (ℕ × Collector)
  gc_collect collecting c = if collecting then ok (0, c) else collect c 2

  -- The counting of COObject_GC_Malloc and the collection that it starts; `may_collect` is
  -- `enabled && !collecting && !COErr_Occurred()`.
  pub gc_malloc : Bool → Collector → Result (ℕ × Collector)
  gc_malloc may_collect c =
      let g = generation_at c.generations 0 in
      let c' = record c { generations = set c.generations 0 (record g { count = g.count + 1 }) } in
      if ltb g.threshold (g.count + 1) && may_collect then collect_generations c' else ok (0, c')

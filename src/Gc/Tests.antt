-- ===== src/Gc/Tests.antt =====
-- A run of gc.c on four objects: 0 is held from outside and refers to 1, while 2 and 3 refer to
-- each other only.
use cobj.Prelude.{true, false, ◌<◌, ℕ, ◌≡◌, arith, refl, List, [], ◌∷◌}
use cobj.Prelude.{if◌then◌else◌, ◌==◌, ltb}
use cobj.Prelude.Int.{pos}
use cobj.Prelude.Result.{Result, ok}
use cobj.Gc.{Heap, GcRefs, Sweep, move_unreachable, sweep_loop, sweep_step, visit_all}
use cobj.Gc.{visit_reachable, gc_list_remove, gc_reachable}
use cobj.Gc.{Collector, GcGeneration, collect, gc_malloc}
use cobj.Gc.Pacing.{counted, mallocs, gc_malloc-collects}
use cobj.Gc.Marking.{IsSweep}
use cobj.Gc.Sweeping.{start, IsSeparated, IsUncounted, move_unreachable_lem}

abbrev refers : ℕ → List ℕ
refers o = if o == 0 then 1 ∷ [] else if o == 2 then 3 ∷ [] else if o == 3 then 2 ∷ [] else []

abbrev heap : Heap
heap = record { refcnt = λ o. 1; is_gc = λ o. ltb o 4; traverse = refers }

abbrev young : List ℕ
young = 1 ∷ 2 ∷ 3 ∷ 0 ∷ []

-- The counts that `subtract_refs` leaves.
abbrev counts : GcRefs
counts o = if o == 0 then pos 1 else if ltb o 4 then pos 0 else gc_reachable

counts-IsSweep : IsSweep heap young (start young counts)
counts-IsSweep = record {
  legal = λ o. ground arith;
  known = λ o h. ground arith;
  counted = λ o h. ground arith;
  distinct = (refl, (refl, (refl, (refl, tt))));
  parked = λ o h. absurd (ground arith);
  parked_distinct = tt;
}

move_unreachable_lem_example :
    (s : Sweep) × (move_unreachable heap young counts ≡ ok s)
    × (s.todo ≡ [])
    × IsSeparated heap s
    × IsUncounted young counts s
move_unreachable_lem_example = move_unreachable_lem heap young counts counts-IsSweep

-- What a sweep leaves: the objects in `young`, and the ones in `unreachable`.
lists : Result Sweep → List (List ℕ)
lists (ok s) = s.scanned ∷ s.unreachable ∷ []
lists r = []

-- The cycle of 2 and 3 is found; 1 was moved too, and came back.
cycle_found : lists (move_unreachable heap young counts) ≡ (0 ∷ 1 ∷ []) ∷ (2 ∷ 3 ∷ []) ∷ []
unfolding lists move_unreachable sweep_loop sweep_step visit_all visit_reachable gc_list_remove
cycle_found = refl

-- A collector whose youngest generation is collected behind three allocations.
abbrev youngest : GcGeneration
youngest = record { head = []; threshold = 3; count = 1 }

abbrev two_older : List GcGeneration
two_older =
    record { head = []; threshold = 10; count = 0 }
    ∷ record { head = []; threshold = 10; count = 0 }
    ∷ []

abbrev collector : Collector
collector = record {
  heap = heap;
  gc_refs = counts;
  generations = youngest ∷ two_older;
  garbage = [];
}

abbrev cleared : ℕ → Collector → Collector
cleared o c = c

gc_malloc-collects_example :
    (mallocs cleared (true ∷ false ∷ []) collector ≡ ok (counted collector youngest two_older 3))
    × (k : ℕ) × (k < 3)
    × (gc_malloc cleared true (counted collector youngest two_older 3)
        ≡ collect cleared (counted collector youngest two_older 4) k)
gc_malloc-collects_example =
    gc_malloc-collects cleared collector youngest two_older (true ∷ false ∷ []) refl refl

-- ===== src/Gc/Pacing.antt =====
-- When COObject_GC_Malloc of gc.c starts a collection.
use cobj.Prelude.{ℕ, zero, suc, ◌+◌, ◌≤◌, ◌<◌, ◌≡◌, refl, ap, ◌∙◌, arith, List, [], ◌∷◌, length}
use cobj.Prelude.{Bool, true, false, Bool-cases, ltb, lt→ltb, inl, inr}
use cobj.Prelude.Result.{Result, ok, ◌>>=◌}
use cobj.Gc.{
  Collector, GcGeneration, generation_at, collect, collect_from, collect_generations, gc_malloc,
}

-- The collector with `n` counted allocations in its youngest generation.
abbrev pub counted : Collector → GcGeneration → List GcGeneration → ℕ → Collector
counted c g gs n = record c { generations = record g { count = n } ∷ gs }

module _ (clear : ℕ → Collector → Collector) where
  -- One COObject_GC_Malloc after another, with what `may_collect` is at each.
  unfoldable pub mallocs : List Bool → Collector → Result Collector
  mallocs [] c = ok c
  mallocs (may_collect ∷ rest) c = gc_malloc clear may_collect c >>= λ (n, c'). mallocs rest c'

  gc_malloc_below :
      (may_collect : Bool) (c : Collector) (g : GcGeneration) (gs : List GcGeneration) (n : ℕ)
      → suc n ≤ g.threshold
      → gc_malloc clear may_collect (counted c g gs n) ≡ ok (0, counted c g gs (suc n))
  unfolding gc_malloc
  gc_malloc_below may_collect c g gs n h =
      let below : ltb g.threshold (n + 1) ≡ false = ground arith in
      let next : n + 1 ≡ suc n = omega arith in rw (below, next) refl

  mallocs_below :
      (flags : List Bool) (c : Collector) (g : GcGeneration) (gs : List GcGeneration) (n : ℕ)
      → n + length flags ≤ g.threshold
      → mallocs flags (counted c g gs n) ≡ ok (counted c g gs (n + length flags))
  unfolding mallocs
  mallocs_below [] c g gs n h =
      let same : n ≡ n + 0 = omega arith in ap (λ k. ok (counted c g gs k)) same
  mallocs_below (f ∷ flags) c g gs n h =
      let next : suc n + length flags ≡ n + suc (length flags) = omega arith in
      rw (gc_malloc_below f c g gs n (omega (arith, h))) (
        mallocs_below flags c g gs (suc n) (omega (arith, h))
        ∙ ap (λ k. ok (counted c g gs k)) next)

  -- The oldest generation over its threshold is collected; the youngest one is, if no other.
  collect_from-collect :
      (i : ℕ) (c : Collector)
      → (generation_at c.generations 0).threshold < (generation_at c.generations 0).count
      → (k : ℕ) × (k ≤ i) × (collect_from clear (suc i) c ≡ collect clear c k)
  unfolding collect_from
  collect_from-collect zero c h = (0, omega arith, rw (lt→ltb _ _ h) refl)
  collect_from-collect (suc i) c h =
      let (k, l, e) = collect_from-collect i c h in
      let g = generation_at c.generations (suc i) in
      elim (Bool-cases (ltb g.threshold g.count)) [
        | inl f ↦ (suc i, omega arith, rw f refl)
        | inr f ↦ (k, omega (arith, l), rw f e)
      ]

  -- Where the youngest generation `g` has as many allocations to go up to its threshold as `flags`
  -- has entries, these calls of COObject_GC_Malloc succeed and start no collection, whatever
  -- `may_collect` is at each of them, and the next call with `may_collect` starts a collection of
  -- one of the three generations.
  pub gc_malloc-collects :
      (c : Collector) (g : GcGeneration) (gs : List GcGeneration) (flags : List Bool)
      → c.generations ≡ g ∷ gs
      → g.count + length flags ≡ g.threshold
      → let full = counted c g gs (suc g.threshold) in
        (mallocs flags c ≡ ok (counted c g gs g.threshold))
        × (k : ℕ) × (k < 3)
        × (gc_malloc clear true (counted c g gs g.threshold) ≡ collect clear full k)
  unfolding gc_malloc collect_generations
  gc_malloc-collects c g gs flags e h =
      let start : c ≡ counted c g gs g.count = ap (λ l. record c { generations = l }) e in
      let (k, l, f) = collect_from-collect 2 (counted c g gs (suc g.threshold)) (omega arith) in
      let over : ltb g.threshold (g.threshold + 1) ≡ true = ground arith in
      let next : g.threshold + 1 ≡ suc g.threshold = omega arith in
      (
        ap (mallocs flags) start
            ∙ mallocs_below flags c g gs g.count (omega (arith, h))
            ∙ ap (λ n. ok (counted c g gs n)) h,
        k,
        omega (arith, l),
        rw (over, next) f,
      )

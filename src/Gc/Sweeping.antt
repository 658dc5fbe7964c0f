-- ===== src/Gc/Sweeping.antt =====
-- The loop of `move_unreachable` (gc.c).
use cobj.Prelude.{ℕ, zero, suc, ◌*◌, ◌<◌, ◌≤◌, ◌≡◌, arith, refl}
use cobj.Prelude.{List, [], ◌∷◌, ◌++◌, length, true, false, ◌==◌, ==_iff}
use cobj.Prelude.{All, ◌&&◌, ◌||◌, not, Bool-cases, inl, inr}
use cobj.Prelude.Int.{ℤ, pos, negsuc, leb_ℤ, eqb_ℤ}
use cobj.Prelude.Result.{ok}
use cobj.Gc.{Heap, GcRefs, store, Sweep, sweep_step, sweep_loop}
use cobj.Gc.{move_unreachable, gc_reachable, gc_tentatively_unreachable}
use cobj.Gc.Marking.{
  elem, rank, total, total_bound, total-store_lt, IsMarked, IsDistinct, IsSweep, IsClosed,
}
use cobj.Gc.Marking.{store-cases, elem-snoc, IsDistinct-snoc, visit_all_lem}

-- What a part of the loop does from `s` to `s'`.
pub record IsSwept (heap : Heap) (members : List ℕ) (s s' : Sweep) : Type 0 where
  pub sweep : IsSweep heap members s'
  pub closed : IsClosed heap s'
  pub kept : (y : ℕ) → IsMarked (s.refs y) → IsMarked (s'.refs y)

module _ (heap : Heap) (members : List ℕ) where
  -- Taking the object at `gc` off the list, with a new state that is not a count.
  taken :
      (s : Sweep) (gc : ℕ) (todo scanned unreachable : List ℕ) (v : ℤ)
      → IsSweep heap members s
      → s.todo ≡ gc ∷ todo
      → leb_ℤ gc_tentatively_unreachable v ≡ true
      → rank v < rank (s.refs gc)
      → ((x : ℕ)
          → elem x unreachable ≡ true
          → eqb_ℤ (store s.refs gc v x) gc_tentatively_unreachable ≡ true)
      → IsDistinct unreachable
      → IsSweep heap members (record {
        scanned = scanned;
        todo = todo;
        unreachable = unreachable;
        refs = store s.refs gc v;
      })
  taken s gc todo scanned unreachable v i e l r u du =
      let d : IsDistinct (gc ∷ todo) = rw e at i.distinct in
      record {
        legal = λ x.
            store-cases (λ z. leb_ℤ gc_tentatively_unreachable z ≡ true) s.refs gc x v l
              (i.legal x);
        known = λ x k. elim (Bool-cases (x == gc)) [
          | inl q ↦ rw ((==_iff x gc).0 q) (i.known gc (omega (arith, r)))
          | inr q ↦ i.known x (rw q at k)
        ];
        counted = λ x m. elim (Bool-cases (x == gc)) [
          | inl q ↦
              let w : elem gc todo ≡ true = rw ((==_iff x gc).0 q) at m in
              absurd (ground (arith, w, d.0))
          | inr q ↦ rw q (i.counted x (rw (e, q) m))
        ];
        distinct = d.1;
        parked = u;
        parked_distinct = du;
      }

  -- An object with a count is not in the other list.
  apart :
      (s : Sweep) (gc x : ℕ)
      → IsSweep heap members s
      → leb_ℤ (pos 0) (s.refs gc) ≡ true
      → elem x s.unreachable ≡ true
      → (x == gc) ≡ false
  apart s gc x i l m = elim (Bool-cases (x == gc)) [
    | inl q ↦
        let p : eqb_ℤ (s.refs gc) gc_tentatively_unreachable ≡ true =
          rw ((==_iff x gc).0 q) at (i.parked x m) in
        absurd (ground (arith, p, l))
    | inr q ↦ q
  ]

  positive_rank : (z : ℤ) → leb_ℤ (pos 0) z ≡ true → eqb_ℤ z (pos 0) ≡ false → rank z ≡ 1
  positive_rank (pos zero) l e = absurd (ground arith)
  positive_rank (pos (suc n)) l e = refl
  positive_rank (negsuc n) l e = absurd (ground arith)

  zero_rank : (z : ℤ) → eqb_ℤ z (pos 0) ≡ true → rank z ≡ 3
  zero_rank (pos zero) e = refl
  zero_rank (pos (suc n)) e = absurd (ground arith)
  zero_rank (negsuc n) e = absurd (ground arith)

  -- A round takes something of what is left to do.
  sweep_step_lem :
      (s : Sweep) (gc : ℕ) (todo : List ℕ)
      → IsSweep heap members s
      → IsClosed heap s
      → s.todo ≡ gc ∷ todo
      → (s' : Sweep) × (sweep_step heap s gc todo ≡ ok s')
        × IsSwept heap members s s'
        × (total members s'.refs < total members s.refs)
  unfolding sweep_step
  sweep_step_lem s gc todo i c e =
      let same : (gc == gc) ≡ true = ground arith in
      let l : leb_ℤ (pos 0) (s.refs gc) ≡ true = i.counted gc (rw (e, same) refl) in
      elim (Bool-cases (eqb_ℤ (s.refs gc) (pos 0))) [
        | inl z ↦
            let r = zero_rank (s.refs gc) z in
            let v = gc_tentatively_unreachable in
            let marked_stay : (y : ℕ) → IsMarked (s.refs y) → IsMarked (store s.refs gc v y) =
              λ y m. elim (Bool-cases (y == gc)) [
                | inl q ↦
                    let w : IsMarked (s.refs gc) = rw ((==_iff y gc).0 q) at m in
                    absurd (ground (arith, w.0, z))
                | inr q ↦ rw q m
              ] in
            (
              record s {
                todo = todo;
                unreachable = s.unreachable ++ gc ∷ [];
                refs = store s.refs gc v;
              },
              rw z refl,
              record {
                sweep =
                    taken s gc todo s.scanned (s.unreachable ++ gc ∷ []) v i e refl
                      (omega (arith, r))
                      (λ x m. elim (elem-snoc x gc s.unreachable m) [
                        | inl old ↦ rw (apart s gc x i l old) (i.parked x old)
                        | inr new ↦ rw (new, same) refl
                      ])
                      (IsDistinct-snoc gc s.unreachable
                        (elim (Bool-cases (elem gc s.unreachable)) [
                          | inl m ↦ absurd (ground (arith, apart s gc gc i l m, same))
                          | inr m ↦ m
                        ])
                        i.parked_distinct);
                closed = λ x y a b g. marked_stay y (c x y a b g);
                kept = marked_stay;
              },
              total-store_lt members s.refs gc v (i.known gc (omega (arith, r))) (omega (arith, r)),
            )
        | inr z ↦
            let r = positive_rank (s.refs gc) l z in
            let pre : Sweep = record s {
              scanned = s.scanned ++ gc ∷ [];
              todo = todo;
              refs = store s.refs gc gc_reachable;
            } in
            let ip : IsSweep heap members pre =
              taken s gc todo (s.scanned ++ gc ∷ []) s.unreachable gc_reachable i e refl
                (omega (arith, r)) (λ x m. rw (apart s gc x i l m) (i.parked x m))
                i.parked_distinct in
            let (s', e', v) = visit_all_lem heap members pre (heap.traverse gc) ip in
            let less =
              total-store_lt members s.refs gc gc_reachable (i.known gc (omega (arith, r)))
                (omega (arith, r)) in
            let kept : (y : ℕ) → IsMarked (s.refs y) → IsMarked (s'.refs y) =
              λ y m. v.kept y (store-cases IsMarked s.refs gc y gc_reachable (refl, refl) m) in
            (
              s',
              rw z e',
              record {
                sweep = v.sweep;
                closed = λ x y a b g. elim (elem-snoc x gc s.scanned (rw v.same_scanned at a)) [
                  | inl old ↦ kept y (c x y old b g)
                  | inr new ↦ v.made y (rw new at b) g
                ];
                kept = kept;
              },
              omega (arith, less, v.no_more),
            )
      ]

  sweep_loop_lem :
      (fuel : ℕ) (s : Sweep) (todo : List ℕ)
      → IsSweep heap members s
      → IsClosed heap s
      → s.todo ≡ todo
      → total members s.refs ≤ fuel
      → (s' : Sweep) × (sweep_loop heap fuel s todo ≡ ok s')
        × (s'.todo ≡ [])
        × IsSwept heap members s s'
  unfolding sweep_loop
  sweep_loop_lem fuel s [] i c e f = (s, refl, e, record { sweep = i; closed = c; kept = λ y m. m })
  sweep_loop_lem zero s (gc ∷ todo) i c e f =
      let (s', e', w, l) = sweep_step_lem s gc todo i c e in absurd (omega (arith, l, f))
  sweep_loop_lem (suc fuel) s (gc ∷ todo) i c e f =
      let (s1, e1, w1, l) = sweep_step_lem s gc todo i c e in
      let (s2, e2, n, w2) =
        sweep_loop_lem fuel s1 s1.todo w1.sweep w1.closed refl (omega (arith, l, f)) in
      (
        s2,
        rw e1 e2,
        n,
        record { sweep = w2.sweep; closed = w2.closed; kept = λ y m. w2.kept y (w1.kept y m) },
      )

-- The lists at the start of `move_unreachable`.
abbrev pub start : List ℕ → GcRefs → Sweep
start young refs = record { scanned = []; todo = young; unreachable = []; refs = refs }

All-elem : {P : ℕ → Type 0} (xs : List ℕ) → ((x : ℕ) → elem x xs ≡ true → P x) → All P xs
All-elem [] h = tt
All-elem {P} (x ∷ xs) h =
    let e : (x == x) ≡ true = ground arith in
    (h x (rw e refl), All-elem {P = P} xs (λ y m. h y (ground (arith, m))))

-- No scanned object refers to one of the list `unreachable`.
abbrev pub IsSeparated : Heap → Sweep → Type 0
IsSeparated heap s =
    All (λ x. All (λ y. (heap.is_gc y && elem y s.unreachable) ≡ false) (heap.traverse x)) s.scanned

-- Every object of `young` that is in the list `unreachable` had a count of 0.
abbrev pub IsUncounted : List ℕ → GcRefs → Sweep → Type 0
IsUncounted young refs s =
    All (λ y. (eqb_ℤ (refs y) (pos 0) || not (elem y s.unreachable)) ≡ true) young

module _ (heap : Heap) (members : List ℕ) (s : Sweep) (i : IsSweep heap members s) where
  marked_apart : (y : ℕ) → IsMarked (s.refs y) → elem y s.unreachable ≡ false
  marked_apart y (a, b) = elim (Bool-cases (elem y s.unreachable)) [
    | inl m ↦ absurd (ground (arith, i.parked y m, b))
    | inr m ↦ m
  ]

  closed-IsSeparated : IsClosed heap s → IsSeparated heap s
  closed-IsSeparated c =
      All-elem
        {P = λ x. All (λ y. (heap.is_gc y && elem y s.unreachable) ≡ false) (heap.traverse x)}
        s.scanned
        (λ x m.
          All-elem {P = λ y. (heap.is_gc y && elem y s.unreachable) ≡ false} (heap.traverse x)
            (λ y k. elim (Bool-cases (heap.is_gc y)) [
              | inl g ↦ rw g (marked_apart y (c x y m k g))
              | inr g ↦ rw g refl
            ]))

  kept-IsUncounted :
      (young : List ℕ) (refs : GcRefs)
      → ((y : ℕ) → elem y young ≡ true → leb_ℤ (pos 0) (refs y) ≡ true)
      → ((y : ℕ) → IsMarked (refs y) → IsMarked (s.refs y))
      → IsUncounted young refs s
  kept-IsUncounted young refs l k =
      All-elem {P = λ y. (eqb_ℤ (refs y) (pos 0) || not (elem y s.unreachable)) ≡ true} young
        (λ y m. elim (Bool-cases (eqb_ℤ (refs y) (pos 0))) [
          | inl z ↦ rw z refl
          | inr z ↦
              let t : eqb_ℤ (refs y) gc_tentatively_unreachable ≡ false = ground (arith, l y m) in
              rw (z, marked_apart y (k y (z, t))) refl
        ])

-- Where the lists at the start are well-formed (every gc_refs is the value of a state, every
-- object that is not scanned yet is in `young`, those of `young` have a count and come once),
-- `move_unreachable` ends within its fuel with nothing left to do; then no object that it kept in
-- `young` refers to an object of `unreachable`, and every object of `young` that came to
-- `unreachable` had a count of 0 at the start.
pub move_unreachable_lem :
    (heap : Heap) (young : List ℕ) (refs : GcRefs)
    → IsSweep heap young (start young refs)
    → (s : Sweep) × (move_unreachable heap young refs ≡ ok s)
      × (s.todo ≡ [])
      × IsSeparated heap s
      × IsUncounted young refs s
unfolding move_unreachable
move_unreachable_lem heap young refs i =
    let (s, e, n, w) =
      sweep_loop_lem heap young (3 * length young) (start young refs) young i
        (λ x y a b g. absurd (ground arith)) refl (total_bound young refs) in
    (
      s,
      e,
      n,
      closed-IsSeparated heap young s w.sweep w.closed,
      kept-IsUncounted heap young s w.sweep young refs i.counted w.kept,
    )

-- ===== src/Gc/Marking.antt =====
-- `visit_reachable` of gc.c, and the invariant of the loop of `move_unreachable`.
use cobj.Prelude.{ℕ, zero, suc, ◌+◌, ◌*◌, ◌<◌, ◌≤◌, ◌≡◌, ◌≢◌, arith, refl, sym, ◌∙◌}
use cobj.Prelude.{List, [], ◌∷◌, ◌++◌, length, Bool, true, false, ◌==◌, ==_iff}
use cobj.Prelude.{◌||◌, Bool-cases, inl, inr, ◌⊎◌}
use cobj.Prelude.Int.{ℤ, pos, negsuc, leb_ℤ, eqb_ℤ}
use cobj.Prelude.Result.{ok}
use cobj.Gc.{Heap, GcRefs, store, Sweep, visit_reachable, visit_all}
use cobj.Gc.{gc_reachable, gc_tentatively_unreachable, gc_list_remove}

abbrev pub elem : ℕ → List ℕ → Bool
elem x [] = false
elem x (y ∷ ys) = (x == y) || elem x ys

-- What is left to do for an object: at most to be moved, to be marked, and to be scanned.
abbrev pub rank : ℤ → ℕ
rank (pos zero) = 3
rank (pos (suc n)) = 1
rank (negsuc zero) = 0
rank (negsuc (suc zero)) = 0
rank (negsuc (suc (suc n))) = 2

pub total : List ℕ → GcRefs → ℕ
total [] refs = 0
total (m ∷ ms) refs = rank (refs m) + total ms refs

total-store_le :
    (ms : List ℕ) (refs : GcRefs) (o : ℕ) (v : ℤ)
    → rank v ≤ rank (refs o)
    → total ms (store refs o v) ≤ total ms refs
unfolding total
total-store_le [] refs o v h = omega arith
total-store_le (m ∷ ms) refs o v h =
    let ih = total-store_le ms refs o v h in
    elim (Bool-cases (m == o)) [
      | inl e ↦ rw (e, (==_iff m o).0 e) (omega (arith, ih, h))
      | inr e ↦ rw e (omega (arith, ih))
    ]

pub total-store_lt :
    (ms : List ℕ) (refs : GcRefs) (o : ℕ) (v : ℤ)
    → elem o ms ≡ true
    → rank v < rank (refs o)
    → total ms (store refs o v) < total ms refs
unfolding total
total-store_lt [] refs o v h l = absurd (ground arith)
total-store_lt (m ∷ ms) refs o v h l = elim (Bool-cases (m == o)) [
  | inl e ↦ rw (e, (==_iff m o).0 e) (omega (arith, total-store_le ms refs o v (omega arith), l))
  | inr e ↦
      let k : elem o ms ≡ true = ground arith in
      rw e (omega (arith, total-store_lt ms refs o v k l))
]

pub total_bound : (ms : List ℕ) (refs : GcRefs) → total ms refs ≤ 3 * length ms
unfolding total
total_bound [] refs = omega arith
total_bound (m ∷ ms) refs = omega (arith, total_bound ms refs, rank_bound (refs m))
  where
    rank_bound : (z : ℤ) → rank z ≤ 3
    rank_bound (pos zero) = omega arith
    rank_bound (pos (suc n)) = omega arith
    rank_bound (negsuc zero) = omega arith
    rank_bound (negsuc (suc zero)) = omega arith
    rank_bound (negsuc (suc (suc n))) = omega arith

-- An object that is known to be reachable, or that is not in the young generation.
abbrev pub IsMarked : ℤ → Type 0
IsMarked s = (eqb_ℤ s (pos 0) ≡ false) × (eqb_ℤ s gc_tentatively_unreachable ≡ false)

-- No object appears twice.
abbrev pub IsDistinct : List ℕ → Type 0
IsDistinct [] = Unit
IsDistinct (x ∷ xs) = (elem x xs ≡ false) × IsDistinct xs

-- The invariant of the loop, with `members` the young generation at the start.
pub record IsSweep (heap : Heap) (members : List ℕ) (s : Sweep) : Type 0 where
  -- gc_refs is one of the values that the states of an object have
  pub legal : (o : ℕ) → leb_ℤ gc_tentatively_unreachable (s.refs o) ≡ true
  -- the objects that have not been scanned are in the generation
  pub known : (o : ℕ) → rank (s.refs o) ≢ 0 → elem o members ≡ true
  -- the objects still to come have a count, and come once
  pub counted : (o : ℕ) → elem o s.todo ≡ true → leb_ℤ (pos 0) (s.refs o) ≡ true
  pub distinct : IsDistinct s.todo
  -- the objects in the other list are tentatively unreachable, and there once
  pub parked :
      (o : ℕ) → elem o s.unreachable ≡ true → eqb_ℤ (s.refs o) gc_tentatively_unreachable ≡ true
  pub parked_distinct : IsDistinct s.unreachable

-- The references of the scanned objects are marked.
abbrev pub IsClosed : Heap → Sweep → Type 0
IsClosed heap s =
    (x y : ℕ)
    → elem x s.scanned ≡ true
    → elem y (heap.traverse x) ≡ true
    → heap.is_gc y ≡ true
    → IsMarked (s.refs y)

-- What a traversal from `s` to `s'` does for the references `os`.
pub record IsVisited (heap : Heap) (members os : List ℕ) (s s' : Sweep) : Type 0 where
  pub sweep : IsSweep heap members s'
  pub same_scanned : s'.scanned ≡ s.scanned
  pub kept : (y : ℕ) → IsMarked (s.refs y) → IsMarked (s'.refs y)
  pub made : (y : ℕ) → elem y os ≡ true → heap.is_gc y ≡ true → IsMarked (s'.refs y)
  pub no_more : total members s'.refs ≤ total members s.refs

pub store-cases {ℓ} :
    (P : ℤ → Type ℓ) (refs : GcRefs) (o x : ℕ) (v : ℤ) → P v → P (refs x) → P (store refs o v x)
store-cases P refs o x v p q = elim (Bool-cases (x == o)) [ inl e ↦ rw e p | inr e ↦ rw e q ]

one_IsMarked : IsMarked (pos 1)
one_IsMarked = (refl, refl)

pub elem-snoc :
    (x o : ℕ) (xs : List ℕ) → elem x (xs ++ o ∷ []) ≡ true → (elem x xs ≡ true) ⊎ (x ≡ o)
elem-snoc x o [] h = inr ((==_iff x o).0 (ground arith))
elem-snoc x o (y ∷ xs) h = elim (Bool-cases (x == y)) [
  | inl e ↦ inl (rw e refl)
  | inr e ↦ rw e (elem-snoc x o xs (rw e at h))
]

pub IsDistinct-snoc :
    (o : ℕ) (xs : List ℕ) → elem o xs ≡ false → IsDistinct xs → IsDistinct (xs ++ o ∷ [])
IsDistinct-snoc o [] h d = (refl, tt)
IsDistinct-snoc o (x ∷ xs) h (n, d) = (
  elim (Bool-cases (elem x (xs ++ o ∷ []))) [
    | inl e ↦ elim (elem-snoc x o xs e) [
      | inl m ↦ absurd (ground (arith, m, n))
      | inr m ↦ absurd (ground (arith, m, h))
    ]
    | inr e ↦ e
  ],
  IsDistinct-snoc o xs (ground arith) d,
)

elem-gc_list_remove :
    (x o : ℕ) (xs : List ℕ)
    → IsDistinct xs
    → elem x (gc_list_remove o xs) ≡ true
    → (elem x xs ≡ true) × ((x == o) ≡ false)
unfolding gc_list_remove
elem-gc_list_remove x o [] d h = absurd (ground arith)
elem-gc_list_remove x o (y ∷ xs) (n, d) h = elim (Bool-cases (y == o)) [
  | inl e ↦
      let w : elem x xs ≡ true = rw e at h in
      let f : elem o xs ≡ false = rw ((==_iff y o).0 e) at n in
      (
        ground (arith, w),
        elim (Bool-cases (x == o)) [
          | inl q ↦
              let w' : elem o xs ≡ true = rw ((==_iff x o).0 q) at w in
              absurd (ground (arith, w', f))
          | inr q ↦ q
        ],
      )
  | inr e ↦
      let w : ((x == y) || elem x (gc_list_remove o xs)) ≡ true = rw e at h in
      elim (Bool-cases (x == y)) [
        | inl q ↦ (rw q refl, rw (sym ((==_iff x y).0 q)) at e)
        | inr q ↦
            let w' : elem x (gc_list_remove o xs) ≡ true = rw q at w in
            let (a, b) = elem-gc_list_remove x o xs d w' in (rw (q, a) refl, b)
      ]
]

IsDistinct-gc_list_remove : (o : ℕ) (xs : List ℕ) → IsDistinct xs → IsDistinct (gc_list_remove o xs)
unfolding gc_list_remove
IsDistinct-gc_list_remove o [] d = tt
IsDistinct-gc_list_remove o (y ∷ xs) (n, d) = elim (Bool-cases (y == o)) [
  | inl e ↦ rw e d
  | inr e ↦
      let apart : elem y (gc_list_remove o xs) ≡ false =
        elim (Bool-cases (elem y (gc_list_remove o xs))) [
          | inl m ↦ absurd (ground (arith, (elem-gc_list_remove y o xs d m).0, n))
          | inr m ↦ m
        ] in
      rw e (apart, IsDistinct-gc_list_remove o xs d)
]

module _ (heap : Heap) (members : List ℕ) (s : Sweep) (i : IsSweep heap members s) where
  -- An object that is not scanned yet gets a count of 1.
  mark_lem :
      (o : ℕ) (todo unreachable : List ℕ)
      → rank (s.refs o) ≢ 0
      → ((x : ℕ) → elem x todo ≡ true → (elem x s.todo ≡ true) ⊎ (x ≡ o))
      → IsDistinct todo
      → ((x : ℕ) → elem x unreachable ≡ true → (elem x s.unreachable ≡ true) × ((x == o) ≡ false))
      → IsDistinct unreachable
      → IsVisited heap members
          (o ∷ [])
          s
          (record s { todo = todo; unreachable = unreachable; refs = store s.refs o (pos 1) })
  unfolding total
  mark_lem o todo unreachable r t d u du =
      let same : (o == o) ≡ true = ground arith in
      record {
        sweep = record {
          legal = λ x.
              store-cases (λ z. leb_ℤ gc_tentatively_unreachable z ≡ true) s.refs o x (pos 1) refl
                (i.legal x);
          known = λ x k. elim (Bool-cases (x == o)) [
            | inl e ↦ rw ((==_iff x o).0 e) (i.known o r)
            | inr e ↦ i.known x (rw e at k)
          ];
          counted = λ x m. elim (Bool-cases (x == o)) [
            | inl e ↦ rw e refl
            | inr e ↦ rw e (elim (t x m) [
              | inl old ↦ i.counted x old
              | inr new ↦ absurd (ground (arith, e, new))
            ])
          ];
          distinct = d;
          parked = λ x m. let (a, b) = u x m in rw b (i.parked x a);
          parked_distinct = du;
        };
        same_scanned = refl;
        kept = λ y m. store-cases IsMarked s.refs o y (pos 1) one_IsMarked m;
        made = λ y m g. let e : (y == o) ≡ true = ground arith in rw e one_IsMarked;
        no_more = total-store_le members s.refs o (pos 1) (omega (arith, r));
      }

module _ (heap : Heap) (members : List ℕ) where
  stay :
      (s : Sweep) (os : List ℕ)
      → IsSweep heap members s
      → ((y : ℕ) → elem y os ≡ true → heap.is_gc y ≡ true → IsMarked (s.refs y))
      → IsVisited heap members os s s
  stay s os i m = record {
    sweep = i;
    same_scanned = refl;
    kept = λ y k. k;
    made = m;
    no_more = omega arith;
  }

  visit_reachable_lem :
      (s : Sweep) (o : ℕ)
      → IsSweep heap members s
      → (s' : Sweep) × (visit_reachable heap s o ≡ ok s') × IsVisited heap members (o ∷ []) s s'
  unfolding visit_reachable
  visit_reachable_lem s o i = elim (Bool-cases (heap.is_gc o)) [
    | inr g ↦ (s, rw g refl, stay s (o ∷ []) i (λ y m h. absurd (ground (arith, g, h, m))))
    | inl g ↦ elim (Bool-cases (eqb_ℤ (s.refs o) (pos 0))) [
      | inl z ↦ (
        record s { refs = store s.refs o (pos 1) },
        rw (g, z) refl,
        mark_lem heap members s i o s.todo s.unreachable (zero_rank (s.refs o) z) (λ x m. inl m)
            i.distinct (λ x m. (m, unparked z x m)) i.parked_distinct,
      )
      | inr z ↦ elim (Bool-cases (eqb_ℤ (s.refs o) gc_tentatively_unreachable)) [
        | inl t ↦ (
          record s {
            todo = s.todo ++ o ∷ [];
            unreachable = gc_list_remove o s.unreachable;
            refs = store s.refs o (pos 1);
          },
          rw (g, z, t) refl,
          mark_lem heap members s i o (s.todo ++ o ∷ []) (gc_list_remove o s.unreachable)
              (tent_rank (s.refs o) t) (λ x m. elem-snoc x o s.todo m)
              (IsDistinct-snoc o s.todo (fresh t) i.distinct)
              (λ x m. elem-gc_list_remove x o s.unreachable i.parked_distinct m)
              (IsDistinct-gc_list_remove o s.unreachable i.parked_distinct),
        )
        | inr t ↦ (
          s,
          rw (g, z, t, above (s.refs o) (i.legal o) t) refl,
          stay s (o ∷ []) i (λ y m h. let e : y ≡ o = (==_iff y o).0 (ground arith) in rw e (z, t)),
        )
      ]
    ]
  ]
    where
      zero_rank : (z : ℤ) → eqb_ℤ z (pos 0) ≡ true → rank z ≢ 0
      zero_rank (pos zero) e = omega arith
      zero_rank (pos (suc n)) e = omega arith
      zero_rank (negsuc n) e = ground arith

      tent_rank : (z : ℤ) → eqb_ℤ z gc_tentatively_unreachable ≡ true → rank z ≢ 0
      tent_rank (pos n) e = ground arith
      tent_rank (negsuc zero) e = ground arith
      tent_rank (negsuc (suc zero)) e = ground arith
      tent_rank (negsuc (suc (suc n))) e = omega arith

      above :
          (z : ℤ)
          → leb_ℤ gc_tentatively_unreachable z ≡ true
          → eqb_ℤ z gc_tentatively_unreachable ≡ false
          → leb_ℤ gc_reachable z ≡ true
      above z l e = ground arith

      unparked :
          eqb_ℤ (s.refs o) (pos 0) ≡ true → (x : ℕ) → elem x s.unreachable ≡ true → (x == o) ≡ false
      unparked z x m = elim (Bool-cases (x == o)) [
        | inl e ↦
            let p : eqb_ℤ (s.refs o) gc_tentatively_unreachable ≡ true =
              rw ((==_iff x o).0 e) at (i.parked x m) in
            absurd (ground (arith, p, z))
        | inr e ↦ e
      ]

      fresh : eqb_ℤ (s.refs o) gc_tentatively_unreachable ≡ true → elem o s.todo ≡ false
      fresh t = elim (Bool-cases (elem o s.todo)) [
        | inl m ↦ let c = i.counted o m in absurd (ground (arith, c, t))
        | inr m ↦ m
      ]

  pub visit_all_lem :
      (s : Sweep) (os : List ℕ)
      → IsSweep heap members s
      → (s' : Sweep) × (visit_all heap s os ≡ ok s') × IsVisited heap members os s s'
  unfolding visit_all
  visit_all_lem s [] i = (s, refl, stay s [] i (λ y m h. absurd (ground arith)))
  visit_all_lem s (o ∷ os) i =
      let (s1, e1, v1) = visit_reachable_lem s o i in
      let (s2, e2, v2) = visit_all_lem s1 os v1.sweep in
      (
        s2,
        rw e1 e2,
        record {
          sweep = v2.sweep;
          same_scanned = v2.same_scanned ∙ v1.same_scanned;
          kept = λ y m. v2.kept y (v1.kept y m);
          made = λ y m h. elim (Bool-cases (y == o)) [
            | inl e ↦ v2.kept y (v1.made y (rw e refl) h)
            | inr e ↦ v2.made y (rw e at m) h
          ];
          no_more = omega (arith, v1.no_more, v2.no_more);
        },
      )

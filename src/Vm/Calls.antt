-- ===== src/Vm/Calls.antt =====
-- OP_CALL_FUNCTION of vm_eval: how the arguments become locals.
use cobj.Prelude.{ℕ, zero, suc, ◌+◌, ◌-◌, ◌*◌, ◌≤◌, ◌<◌, ◌≡◌, refl, sym, ap, ◌∙◌, arith}
use cobj.Prelude.{
  List, [], ◌∷◌, ◌++◌, length, get_elem?, set, take, drop, take-append-drop, map, replicate,
}
use cobj.Prelude.{length-append, length-replicate, length-take, Option, none, some, lt→ltb, ==_iff}
use cobj.Prelude.{◌⊎◌, inl, inr}
use cobj.Prelude.Result.{ok}
use cobj.Vm.Objects.{Objects, function}
use cobj.Vm.Machine.{Machine, new_frame}
use cobj.Vm.Operands.{pop_items, with_stack}
use cobj.Vm.Handlers.{State, code, set_arguments, enter, call_handler}

-- The stack after the objects are pushed in their order.
abbrev pub pushed {ℓ} : {A : Type ℓ} → List A → List (Option A) → List (Option A)
pushed [] s = s
pushed (o ∷ os) s = pushed os (some o ∷ s)

pushed-snoc {ℓ} :
    {A : Type ℓ} (os : List A) (o : A) (s : List (Option A))
    → pushed (os ++ o ∷ []) s ≡ some o ∷ pushed os s
pushed-snoc [] o s = refl
pushed-snoc (x ∷ os) o s = pushed-snoc os o (some x ∷ s)

snoc_cases {ℓ} :
    {A : Type ℓ} (os : List A) → (os ≡ []) ⊎ ((init : List A) × (o : A) × (os ≡ init ++ o ∷ []))
snoc_cases {A = A} [] = inl refl
snoc_cases {A = A} (x ∷ os) = inr (by_rest (snoc_cases os))
  where
    by_rest :
        (os ≡ []) ⊎ ((init : List A) × (o : A) × (os ≡ init ++ o ∷ []))
        → (init : List A) × (o : A) × (x ∷ os ≡ init ++ o ∷ [])
    by_rest (inl e) = ([], x, ap (λ t. x ∷ t) e)
    by_rest (inr (init, o, e)) = (x ∷ init, o, ap (λ t. x ∷ t) e)

pub pop_items-pushed :
    {Obj Heap : Type 0} (n : ℕ) (os : List Obj) (s : List (Option Obj)) (m : Machine Obj Heap)
    → length os ≡ n
    → pop_items n (with_stack (pushed os s) m) ≡ ok (os, with_stack s m)
unfolding pop_items
pop_items-pushed zero [] s m e = refl
pop_items-pushed zero (o ∷ os) s m e = absurd (omega arith)
pop_items-pushed (suc n) os s m e = elim (snoc_cases os) [
  | inl z ↦ absurd (omega (arith, ap length z))
  | inr (init, o, f) ↦
      let l : length init ≡ n = omega (arith, e, ap length f, length-append init (o ∷ [])) in
      let ih = pop_items-pushed n init s m l in rw (f, pushed-snoc init o s, ih) refl
]

set-take {ℓ} :
    {A : Type ℓ} (i : ℕ) (l r : List A) (v : A)
    → i < length l
    → set (take (suc i) l ++ r) i v ≡ take i l ++ v ∷ r
set-take i [] r v h = absurd (omega arith)
set-take zero (x ∷ l) r v h = refl
set-take (suc i) (x ∷ l) r v h = ap (λ t. x ∷ t) (set-take i l r v (omega arith))

abbrev filled {ℓ} : {A : Type ℓ} → ℕ → List A → List (Option A) → List (Option A)
filled i args locals = take i locals ++ (map (λ a. some a) args ++ drop (i + length args) locals)

set_arguments-filled :
    (O : Objects) (i : ℕ) (args : List O.Obj) (locals : List (Option O.Obj))
    → i + length args ≤ length locals
    → set_arguments O i args locals ≡ ok (filled i args locals)
unfolding set_arguments
set_arguments-filled O i [] locals h =
    let z : i ≡ i + 0 = omega arith in
    let e : locals ≡ filled i [] locals =
      sym (take-append-drop i locals)
      ∙ ap (λ k. take i locals ++ (map (λ a. some a) [] ++ drop k locals)) z in
    ap ok e
set_arguments-filled O i (a ∷ args) locals h =
    let ih = set_arguments-filled O (suc i) args locals (omega arith) in
    let within : i < length locals = omega arith in
    let shift : suc i + length args ≡ i + suc (length args) = omega arith in
    rw (ih, lt→ltb i (length (filled (suc i) args locals)) (long within))
      (ap ok (
        set-take i locals _ (some a) within
        ∙ ap (λ k. take i locals ++ some a ∷ (map (λ x. some x) args ++ drop k locals)) shift))
  where
    long : i < length locals → i < length (filled (suc i) args locals)
    long l = omega (
      arith,
      length-append (take (suc i) locals)
          (map (λ x. some x) args ++ drop (suc i + length args) locals),
      length-take (suc i) locals,
    )

-- The locals of a call: the arguments in their order, and NULL in the cells behind them.
pub call_locals : {Obj : Type 0} → List Obj → ℕ → List (Option Obj)
call_locals args n = map (λ a. some a) args ++ replicate (n - length args) none

drop-replicate {ℓ} : {A : Type ℓ} (k n : ℕ) (a : A) → drop k (replicate n a) ≡ replicate (n - k) a
drop-replicate zero n a = ap (λ j. replicate j a) (omega arith)
drop-replicate (suc k) zero a = let z : 0 ≡ 0 - suc k = omega arith in ap (λ j. replicate j a) z
drop-replicate (suc k) (suc n) a = drop-replicate k n a ∙ ap (λ j. replicate j a) (omega arith)

enter_lem :
    (O : Objects) (f : O.Obj) (args : List O.Obj) (n : ℕ) (m : State O)
    → (O.code_of_function f).co_argcount ≡ length args
    → m.frame.locals ≡ replicate n none
    → length args ≤ n
    → enter O f args m ≡ ok (record m { frame = record m.frame { locals = call_locals args n } })
unfolding enter call_locals
enter_lem O f [] n m c l h =
    let z : n ≡ n - 0 = omega arith in
    ap (λ k. ok (record m { frame = record m.frame { locals = k } }))
      (l ∙ ap (λ k. replicate k none) z)
enter_lem O f (a ∷ args) n m c l h =
    let len : length m.frame.locals ≡ n = ap length l ∙ length-replicate n none in
    let s = set_arguments-filled O 0 (a ∷ args) m.frame.locals (omega (arith, len)) in
    let z : 0 + length (a ∷ args) ≡ length (a ∷ args) = omega arith in
    let d : drop (0 + length (a ∷ args)) m.frame.locals ≡ replicate (n - length (a ∷ args)) none =
      ap (λ k. drop k m.frame.locals) z
      ∙ ap (λ k. drop (length (a ∷ args)) k) l
      ∙ drop-replicate (length (a ∷ args)) n none in
    let w : filled 0 (a ∷ args) m.frame.locals
        ≡ map (λ x. some x) (a ∷ args) ++ replicate (n - length (a ∷ args)) none =
      ap (λ k. map (λ x. some x) (a ∷ args) ++ k) d in
    rw ((==_iff _ _).1 c, s ∙ ap ok w) refl

-- The callee's state: its frame over that of the caller, who goes on at `back` with `rest`.
pub callee_state : (O : Objects) → O.Obj → List O.Obj → ℕ → List (Option O.Obj) → State O → State O
callee_state O f args back rest m = record m {
  func = f;
  frame = record (new_frame O f m.globals) {
    locals = call_locals args (length ((O.code_of_function f).co_localnames));
  };
  f_prev = (record m.frame { f_stacktop = rest; f_lasti = back }) ∷ m.f_prev;
  stack = [];
  next_code = 0;
  oparg = length args;
}

-- Where the stack holds a function above its arguments, the two bytes behind the opcode give their
-- number, and it is the argument count of the function, which has that many locals at least:
-- OP_CALL_FUNCTION enters a new frame at offset 0 with an empty stack, whose locals are the
-- arguments in their order and NULL behind them; the frame of the caller keeps its blocks, the
-- rest of its stack and the offset behind the instruction.
pub call_handler-callee_state :
    (O : Objects) (m : State O) (f : O.Obj) (args : List O.Obj) (rest : List (Option O.Obj))
    (low high : ℕ)
    → m.stack ≡ some f ∷ pushed args rest
    → get_elem? (code O m).co_code m.next_code ≡ some low
    → get_elem? (code O m).co_code (suc m.next_code) ≡ some high
    → high * 256 + low ≡ length args
    → O.callable f ≡ function
    → (O.code_of_function f).co_argcount ≡ length args
    → length args ≤ length ((O.code_of_function f).co_localnames)
    → call_handler O m ≡ ok (callee_state O f args (m.next_code + 2) rest m)
unfolding call_handler callee_state
call_handler-callee_state O m f args rest low high s bl bh e c a n =
    let read = record m { next_code = m.next_code + 2; oparg = length args } in
    let items = pop_items-pushed (length args) args rest read refl in
    let locals = length ((O.code_of_function f).co_localnames) in
    let start = record read {
      func = f;
      frame = new_frame O f m.globals;
      f_prev = (record m.frame { f_stacktop = rest; f_lasti = m.next_code + 2 }) ∷ m.f_prev;
      stack = [];
      next_code = 0;
    } in
    let l : start.frame.locals ≡ replicate locals none = unfold new_frame in refl in
    let entered = enter_lem O f args locals start a l n in rw (s, bl, bh, e, items, c) entered

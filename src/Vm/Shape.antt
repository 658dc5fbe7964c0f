-- ===== src/Vm/Shape.antt =====
-- The bounds of the arrays of a frame: the block stack, the locals and the value stack; and how
-- the macros of vm_eval keep them.
pub mod Handlers
pub mod Frames
use cobj.Prelude.{
  ℕ, zero, suc, ◌+◌, ◌-◌, ◌≤◌, ◌<◌, ◌≡◌, refl, sym, ap, ◌∙◌, arith, List, [], ◌∷◌, length,
}
use cobj.Prelude.{
  All, Bool, true, false, Bool-cases, if◌then◌else◌, ltb, ltb→lt, subst, Option, none, some,
}
use cobj.Prelude.{get_elem?, inl, inr, set, length-set, length-drop, length-replicate}
use cobj.Prelude.Result.{Result, ok, raise, undefined, ◌>>=◌, Exception}
use cobj.Vm.Objects.{Objects, Answer, value, null, Code}
use cobj.Vm.Machine.{
  Machine, Frame, FrameBlock, BlockType, max_blocks, block_setup, block_pop, pop_from, new_frame,
}
use cobj.Vm.Operands.{
  deref, pop, pop_cell, pop_object, pop_items, push, set_top, set_top_of, next_arg, set_local,
  with_stack,
}
use cobj.Vm.Operands.{set_top_answer, settle}
use cobj.Vm.Handlers.{State, code, stack_size}

-- A result that is not an exception or undefined satisfies `P`.
pub data Holds {ℓ} {A : Type ℓ} (P : A → Type 0) : Result A → Type ℓ where
  holds_ok : {a : A} → P a → Holds P (ok a)
  holds_raise : {e : Exception} → Holds P (raise e)
  holds_undefined : Holds P undefined

pub Holds-at {ℓ} : {A : Type ℓ} {P : A → Type 0} {a : A} → Holds P (ok a) → P a
Holds-at (holds_ok p) = p

pub Holds-bind {ℓ κ} :
    {A : Type ℓ} {B : Type κ} {P : A → Type 0} {Q : B → Type 0} (r : Result A) (f : A → Result B)
    → Holds P r
    → ((a : A) → P a → Holds Q (f a))
    → Holds Q (r >>= f)
Holds-bind (ok a) f h k = k a (Holds-at h)
Holds-bind (raise e) f h k = holds_raise
Holds-bind undefined f h k = holds_undefined

pub Holds-map {ℓ} :
    {A : Type ℓ} {P Q : A → Type 0} (r : Result A) → Holds P r → ((a : A) → P a → Q a) → Holds Q r
Holds-map (ok a) h f = holds_ok (f a (Holds-at h))
Holds-map (raise e) h f = holds_raise
Holds-map undefined h f = holds_undefined

pub Holds-if {ℓ} :
    {A : Type ℓ} {P : A → Type 0} (b : Bool) (x y : Result A)
    → Holds P x
    → Holds P y
    → Holds P (if b then x else y)
Holds-if true x y p q = p
Holds-if false x y p q = q

pub Holds-any {ℓ} : {A : Type ℓ} (r : Result A) → Holds (λ a. Unit) r
Holds-any (ok a) = holds_ok tt
Holds-any (raise e) = holds_raise
Holds-any undefined = holds_undefined

module _ (O : Objects) where
  -- The arrays of a frame are long enough for what is kept in them.
  pub record FitsFrame (f : Frame O.Obj) : Type 0 where
    pub blocks : length f.f_blockstack ≤ max_blocks
    pub cells : length f.locals ≡ length ((O.code_of_function f.f_func).co_localnames)

  abbrev pub FitsStack : Frame O.Obj → List (Option O.Obj) → Type 0
  FitsStack f s = length s ≤ (O.code_of_function f.f_func).co_stacksize

  abbrev pub FitsCaller : Frame O.Obj → Type 0
  FitsCaller f = FitsFrame f × FitsStack f f.f_stacktop

  abbrev pub Fits : State O → Type 0
  Fits m = FitsFrame m.frame × FitsStack m.frame m.stack × All FitsCaller m.f_prev

  -- The frame of `m` is kept, and everything fits.
  abbrev pub Keeps : State O → State O → Type 0
  Keeps m m' = Fits m' × (m'.frame ≡ m.frame)

  abbrev pub KeepsWith {ℓ} : {A : Type ℓ} → State O → A × State O → Type 0
  KeepsWith m r = Keeps m r.1

  pub Keeps-Fits : (m : State O) (r : Result (State O)) → Holds (Keeps m) r → Holds Fits r
  Keeps-Fits m r h = Holds-map r h (λ n k. k.0)

  pub pop-Keeps : (m : State O) (n : State O) → Keeps m n → Holds (KeepsWith m) (pop n)
  pop-Keeps m n ((f, s, p), e) = by_stack n.stack s
    where
      by_stack :
          (s : List (Option O.Obj)) → FitsStack n.frame s → Holds (KeepsWith m) (pop_cell s n)
      by_stack [] l = holds_undefined
      by_stack (c ∷ s) l = holds_ok ((f, omega (arith, l), p), e)

  pub pop_object-Keeps : (m n : State O) → Keeps m n → Holds (KeepsWith m) (pop_object n)
  pop_object-Keeps m n k = Holds-bind (pop n) _ (pop-Keeps m n k) by_cell
    where
      by_cell :
          (r : Option O.Obj × State O)
          → Keeps m r.1
          → Holds (KeepsWith m) (deref r.0 >>= λ o. ok (o, r.1))
      by_cell (none, n') h = holds_undefined
      by_cell (some o, n') h = holds_ok h

  pub pop_items-Keeps : (k : ℕ) (m n : State O) → Keeps m n → Holds (KeepsWith m) (pop_items k n)
  unfolding pop_items
  pop_items-Keeps zero m n h = holds_ok h
  pop_items-Keeps (suc k) m n h =
      Holds-bind (pop_object n) _ (pop_object-Keeps m n h) (λ (o, n₁) h₁.
        Holds-bind (pop_items k n₁) _ (pop_items-Keeps k m n₁ h₁) (λ (os, n₂) h₂. holds_ok h₂))

  pub push-Keeps :
      (m n : State O) (c : Option O.Obj) → Keeps m n → Holds (Keeps m) (push (stack_size O m) c n)
  push-Keeps m n c ((f, s, p), e) = elim (Bool-cases (ltb (length n.stack) (stack_size O m))) [
    | inl l ↦ rw l (holds_ok ((f, room l, p), e))
    | inr l ↦ rw l holds_undefined
  ]
    where
      room : ltb (length n.stack) (stack_size O m) ≡ true → FitsStack n.frame (c ∷ n.stack)
      room l =
          subst (λ f. FitsStack f (c ∷ n.stack)) (sym e)
            (ltb→lt (length n.stack) (stack_size O m) l)

  pub set_top-Keeps : (m n : State O) (c : Option O.Obj) → Keeps m n → Holds (Keeps m) (set_top c n)
  set_top-Keeps m n c ((f, s, p), e) = by_stack n.stack s
    where
      by_stack :
          (s : List (Option O.Obj)) → FitsStack n.frame s → Holds (Keeps m) (set_top_of s c n)
      by_stack [] l = holds_undefined
      by_stack (x ∷ s) l = holds_ok ((f, l, p), e)

  pub settle-Keeps :
      (m n : State O) (a : Answer O.Obj O.Obj O.Heap) → Keeps m n → Keeps m ((settle a n).1)
  settle-Keeps m n (value x h) k = k
  settle-Keeps m n (null e v h) k = k

  pub set_top_answer-Keeps :
      (m n : State O) (a : Answer O.Obj O.Obj O.Heap)
      → Keeps m n
      → Holds (Keeps m) (set_top_answer a n)
  set_top_answer-Keeps m n (value x h) k = set_top-Keeps m _ _ k
  set_top_answer-Keeps m n (null e v h) k = set_top-Keeps m _ _ k

  pub next_arg-Keeps :
      (c : Code O.Obj) (m n : State O) → Keeps m n → Holds (KeepsWith m) (next_arg c n)
  next_arg-Keeps c m n k =
      Holds-bind (deref (get_elem? c.co_code n.next_code)) _ (Holds-any _) (λ low _.
        Holds-bind (deref (get_elem? c.co_code (suc n.next_code))) _ (Holds-any _)
          (λ high _. holds_ok k))

-- ===== src/Vm/Shape/Frames.antt =====
-- The cases that change the frame keep the bounds: blocks, locals, calls and returns, and `fast_end`.
use cobj.Prelude.{ℕ, suc, ◌≤◌, ◌≡◌, refl, ◌∙◌, arith, List, [], ◌∷◌, length}
use cobj.Prelude.{All, Bool-cases, ◌==◌, ltb, ltb→lt, inl, inr, Option, none, some}
use cobj.Prelude.{length-set, length-drop, length-replicate}
use cobj.Prelude.Result.{Result, ok, ◌>>=◌}
use cobj.Vm.Objects.{Objects, Answer, Callable, cfunction, function, other_callable}
use cobj.Vm.Machine.{
  Frame, FrameBlock, BlockType, max_blocks, block_setup, block_pop, pop_from, new_frame,
  unwind_block,
}
use cobj.Vm.Machine.{
  continues, breaks, catches, unwind, push_caught, unwind_pending, still_pending, fast_end, Next,
  running, exited, Status, status_none,
}
use cobj.Vm.Machine.{status_exception, status_break, status_continue}
use cobj.Vm.Operands.{pop, pop_items, push, next_arg, set_local, settle}
use cobj.Vm.Handlers.{
  State, code, stack_size, set_arguments, enter, call_frame, call_kind, push_answer, call_handler,
  return_to, return_handler,
}
use cobj.Vm.Step.{setup_handler, pop_block_handler, store_local_handler}
use cobj.Vm.Shape.{
  Holds, holds_ok, holds_raise, holds_undefined, Holds-bind, Holds-if, Holds-map, Keeps-Fits,
}
use cobj.Vm.Shape.{
  Fits, FitsCaller, pop-Keeps, pop_items-Keeps, push-Keeps, next_arg-Keeps, settle-Keeps,
}
use cobj.Vm.Shape.Handlers.{with_arg, with_object}

module _ (O : Objects) where
  pub setup_handler-Fits :
      (type : BlockType) (m : State O) → Fits O m → Holds (Fits O) (setup_handler O type m)
  unfolding setup_handler block_setup
  setup_handler-Fits type m h = with_arg O m _ h (λ (target, m₁) ((f, s, p), e).
      elim (Bool-cases (ltb (length m₁.frame.f_blockstack) max_blocks)) [
        | inl l ↦
            let lt = ltb→lt _ _ l in rw l (holds_ok (record { blocks = lt; cells = f.cells }, s, p))
        | inr l ↦ rw l holds_raise
      ])

  length-unwind_block {ℓ} :
      {A : Type ℓ} (level : ℕ) (s : List A) → length (unwind_block level s) ≤ length s
  length-unwind_block level s = omega (arith, length-drop _ s)

  pub pop_block_handler-Fits : (m : State O) → Fits O m → Holds (Fits O) (pop_block_handler O m)
  unfolding pop_block_handler block_pop
  pop_block_handler-Fits m (f, s, p) = by_blocks m.frame.f_blockstack f.blocks
    where
      by_blocks :
          (bs : List FrameBlock)
          → length bs ≤ max_blocks
          → Holds (Fits O) (
              pop_from (λ bs. record m.frame { f_blockstack = bs }) bs >>= λ r.
              ok (record m { frame = r.1; stack = unwind_block r.0.fb_level m.stack }))
      by_blocks [] l = holds_raise
      by_blocks (b ∷ bs) l = holds_ok (
        record { blocks = omega (arith, l); cells = f.cells },
        omega (arith, s, length-unwind_block b.fb_level m.stack),
        p,
      )

  set_local-length :
      (i : ℕ) (c : Option O.Obj) (cells : List (Option O.Obj))
      → Holds (λ cells'. length cells' ≡ length cells) (set_local i c cells)
  set_local-length i c cells =
      Holds-if (ltb i (length cells)) _ _ (holds_ok (length-set cells i c)) holds_undefined

  pub store_local_handler-Fits : (m : State O) → Fits O m → Holds (Fits O) (store_local_handler O m)
  unfolding store_local_handler
  store_local_handler-Fits m h = with_arg O m _ h (λ (i, m₁) k₁.
      Holds-bind (pop m₁) _ (pop-Keeps O m m₁ k₁) (λ (c, m₂) ((f, s, p), e).
        Holds-bind (set_local i c m₂.frame.locals) _ (set_local-length i c m₂.frame.locals)
          (λ cells l. holds_ok (record { blocks = f.blocks; cells = l ∙ f.cells }, s, p))))

  set_arguments-length :
      (i : ℕ) (args : List O.Obj) (cells : List (Option O.Obj))
      → Holds (λ cells'. length cells' ≡ length cells) (set_arguments O i args cells)
  unfolding set_arguments
  set_arguments-length i [] cells = holds_ok refl
  set_arguments-length i (a ∷ args) cells =
      Holds-bind (set_arguments O (suc i) args cells) _ (set_arguments-length (suc i) args cells)
        (λ rest l. by_length rest l (set_local i (some a) rest) (set_local-length i (some a) rest))
    where
      by_length :
          (rest : List (Option O.Obj))
          → length rest ≡ length cells
          → (r : Result (List (Option O.Obj))) → Holds (λ cells'. length cells' ≡ length rest) r
          → Holds (λ cells'. length cells' ≡ length cells) r
      by_length rest l r h = Holds-map r h (λ c e. e ∙ l)

  enter-Fits :
      (f : O.Obj) (args : List O.Obj) (m : State O) → Fits O m → Holds (Fits O) (enter O f args m)
  unfolding enter
  enter-Fits f [] m h = holds_ok h
  enter-Fits f (a ∷ args) m (f', s, p) =
      Holds-if ((O.code_of_function f).co_argcount == length (a ∷ args)) _ _
        (Holds-bind (set_arguments O 0 (a ∷ args) m.frame.locals) _
          (set_arguments-length 0 (a ∷ args) m.frame.locals)
          (λ cells l. holds_ok (record { blocks = f'.blocks; cells = l ∙ f'.cells }, s, p)))
        (holds_ok (f', s, p))

  call_frame-Fits : (f : O.Obj) (m : State O) → Fits O m → Fits O (call_frame O f m)
  unfolding new_frame
  call_frame-Fits f m (f', s, p) = (
    record { blocks = omega arith; cells = length-replicate _ none },
    omega arith,
    ((record { blocks = f'.blocks; cells = f'.cells }, s), p),
  )

  pub call_handler-Fits : (m : State O) → Fits O m → Holds (Fits O) (call_handler O m)
  unfolding call_handler
  call_handler-Fits m h =
      with_object O m m _ (h, refl)
        (λ (o1, m₁) k₁.
          Holds-bind (next_arg (code O m) m₁) _ (next_arg-Keeps O (code O m) m m₁ k₁) (λ (n, m₂) k₂.
            Holds-bind (pop_items n m₂) _ (pop_items-Keeps O n m m₂ k₂)
              (λ (args, m₃) k₃. by_kind o1 args m₃ k₃.0 (O.callable o1))))
    where
      pushed_answer :
          (a : Answer O.Obj O.Obj O.Heap) (n : State O)
          → Fits O n
          → Holds (Fits O) (push_answer O (stack_size O n) a n)
      pushed_answer a n k =
          Keeps-Fits O n _ (push-Keeps O n _ (settle a n).0 (settle-Keeps O n n a (k, refl)))

      by_kind :
          (f : O.Obj) (args : List O.Obj) (n : State O)
          → Fits O n
          → (c : Callable) → Holds (Fits O) (call_kind O c f args n)
      by_kind f args n k cfunction = pushed_answer _ n k
      by_kind f args n k other_callable = pushed_answer _ n k
      by_kind f args n k function = enter-Fits f args (call_frame O f n) (call_frame-Fits f n k)

  -- The state that an instruction leads to fits.
  abbrev pub FitsNext : Next O.Obj O.Heap → Type 0
  FitsNext (running m) = Fits O m
  FitsNext (exited m) = Fits O m

  pub return_handler-Fits : (m : State O) → Fits O m → Holds FitsNext (return_handler O m)
  unfolding return_handler
  return_handler-Fits m h =
      Holds-bind (pop m) _ (pop-Keeps O m m (h, refl))
        (λ (c, m₁) k₁. let (_, _, p) = h in back c m₁ k₁.0 m.f_prev p)
    where
      back :
          (c : Option O.Obj) (n : State O)
          → Fits O n
          → (fs : List (Frame O.Obj)) → All (FitsCaller O) fs
          → Holds FitsNext (return_to O fs c n)
      back none n k [] p = holds_undefined
      back (some o) n k [] p = holds_ok k
      back c n k (f ∷ fs) ((x, s), p) =
          let n' = record n {
            frame = f;
            f_prev = fs;
            stack = f.f_stacktop;
            next_code = f.f_lasti;
          } in
          Holds-bind (push (stack_size O n') c n') _ (push-Keeps O n' n' c ((x, s, p), refl))
            (λ n'' k''. holds_ok k''.0)

  unwind-Fits :
      (bs : List FrameBlock) (m : State O)
      → Fits O m
      → length bs ≤ max_blocks
      → Holds (Fits O) (unwind (stack_size O m) bs m)
  unfolding unwind
  unwind-Fits [] m (f, s, p) l = holds_ok (record { blocks = omega arith; cells = f.cells }, s, p)
  unwind-Fits (b ∷ bs) m (f, s, p) l =
      let cut = length-unwind_block b.fb_level m.stack in
      let shorter : length (unwind_block b.fb_level m.stack) ≤ stack_size O m =
        omega (arith, cut, s) in
      let rest : length bs ≤ max_blocks = omega (arith, l) in
      Holds-if (continues b.fb_type m.status) _ _
        (holds_ok (record { blocks = l; cells = f.cells }, s, p))
        (Holds-if (breaks b.fb_type m.status) _ _
          (holds_ok (record { blocks = rest; cells = f.cells }, shorter, p))
          (Holds-if (catches b.fb_type m.status) _ _ (caught rest) (
            unwind-Fits bs (record m { stack = unwind_block b.fb_level m.stack }) (f, shorter, p)
              rest)))
    where
      caught :
          length bs ≤ max_blocks
          → Holds (Fits O) (push_caught (stack_size O m) b bs (unwind_block b.fb_level m.stack) m)
      caught rest =
          elim (Bool-cases (ltb (length (unwind_block b.fb_level m.stack)) (stack_size O m))) [
            | inl lt ↦
                let room = ltb→lt _ _ lt in
                rw lt (holds_ok (record { blocks = rest; cells = f.cells }, room, p))
            | inr lt ↦ rw lt holds_undefined
          ]

  pub fast_end-Fits : (m : State O) → Fits O m → Holds FitsNext (fast_end (stack_size O m) m)
  unfolding fast_end
  fast_end-Fits m h =
      Holds-bind (unwind_pending (stack_size O m) m.status m) _ (by_status m.status)
        (λ n k. holds_ok (still n.status n k))
    where
      by_status : (s : Status) → Holds (Fits O) (unwind_pending (stack_size O m) s m)
      by_status status_none = holds_ok h
      by_status status_exception = unwind-Fits m.frame.f_blockstack m h h.0.blocks
      by_status status_break = unwind-Fits m.frame.f_blockstack m h h.0.blocks
      by_status status_continue = unwind-Fits m.frame.f_blockstack m h h.0.blocks

      still : (s : Status) (n : State O) → Fits O n → FitsNext (still_pending s n)
      still status_none n k = k
      still status_exception n k = k
      still status_break n k = k
      still status_continue n k = k

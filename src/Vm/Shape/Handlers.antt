-- ===== src/Vm/Shape/Handlers.antt =====
-- The cases of the switch of vm_eval keep every array of the frames within its bounds.
use cobj.Prelude.{ℕ, suc, refl, List, [], ◌∷◌, get_elem?, ◌==◌}
use cobj.Prelude.{Bool, true, false, if◌then◌else◌, Option, none, some}
use cobj.Prelude.Result.{Result, ◌>>=◌}
use cobj.Vm.Objects.{Objects, Answer, value, null, Container, list, dict, other_container}
use cobj.Vm.Operands.{deref, pop, pop_object, pop_items, next_arg, ignore, jump_to}
use cobj.Vm.Operands.{set_top_answer, fail_on_null}
use cobj.Vm.Handlers.{State, code, lookup_name, binary_add_handler, binary_handler}
use cobj.Vm.Handlers.{
  unary_handler, subscript_handler, store_or_fail, cmp_handler, match_item, match_items,
}
use cobj.Vm.Handlers.{load_name_handler, load_found}
use cobj.Vm.Handlers.{declare_handler, fill_upvalues, captured, local_named, named_local}
use cobj.Vm.Handlers.{store_subscript_handler, store_in}
use cobj.Vm.Step.{load_upval_handler, store_upval_handler, load_handler, store_name_handler}
use cobj.Vm.Step.{
  build_handler, dict_build_handler, dict_add_handler, is_false, answer_is_false, jmpz_handler,
  iterate,
}
use cobj.Vm.Step.{throw_handler, end_try_handler, end_finally_handler, for_iter_handler}
use cobj.Vm.Shape.{Holds, holds_ok, holds_raise, Holds-bind, Holds-if, Holds-any}
use cobj.Vm.Shape.{Fits, Keeps, pop_object-Keeps, pop_items-Keeps, push-Keeps, set_top-Keeps}
use cobj.Vm.Shape.{set_top_answer-Keeps, next_arg-Keeps, pop-Keeps, KeepsWith}

module _ (O : Objects) where
  start : (m : State O) → Fits O m → Keeps O m m
  start m h = (h, refl)

  -- The first steps of a case: the argument of the instruction, and an object from the stack.
  pub with_arg {κ} :
      {B : Type κ} {Q : B → Type 0} (m : State O) (f : ℕ × State O → Result B)
      → Fits O m
      → ((r : ℕ × State O) → KeepsWith O m r → Holds Q (f r))
      → Holds Q (next_arg (code O m) m >>= f)
  with_arg m f h k =
      Holds-bind (next_arg (code O m) m) f (next_arg-Keeps O (code O m) m m (start m h)) k

  pub with_object {κ} :
      {B : Type κ} {Q : B → Type 0} (m n : State O) (f : O.Obj × State O → Result B)
      → Keeps O m n
      → ((r : O.Obj × State O) → KeepsWith O m r → Holds Q (f r))
      → Holds Q (pop_object n >>= f)
  with_object m n f h k = Holds-bind (pop_object n) f (pop_object-Keeps O m n h) k

  pub with_deref {ℓ κ} :
      {A : Type ℓ} {B : Type κ} {Q : B → Type 0} (c : Option A) (f : A → Result B)
      → ((a : A) → Holds Q (f a))
      → Holds Q (deref c >>= f)
  with_deref c f k = Holds-bind (deref c) f (Holds-any (deref c)) (λ a _. k a)

  pub binary_handler-Keeps :
      (op : O.Obj → O.Obj → O.Heap → Answer O.Obj O.Obj O.Heap) (m : State O)
      → Fits O m
      → Holds (Keeps O m) (binary_handler O op m)
  unfolding binary_handler
  binary_handler-Keeps op m h =
      with_object m m _ (start m h)
        (λ (o1, m₁) k₁. with_object m m₁ _ k₁ (λ (o2, m₂) k₂. set_top_answer-Keeps O m m₁ _ k₁))

  pub unary_handler-Keeps :
      (op : O.Obj → O.Heap → Answer O.Obj O.Obj O.Heap) (m : State O)
      → Fits O m
      → Holds (Keeps O m) (unary_handler O op m)
  unfolding unary_handler
  unary_handler-Keeps op m h =
      with_object m m _ (start m h) (λ (o1, m₁) k₁. set_top_answer-Keeps O m m _ (start m h))

  fail_on_null-Keeps :
      (m n : State O) (a : Answer O.Obj O.Obj O.Heap) → Keeps O m n → Keeps O m (fail_on_null a n)
  fail_on_null-Keeps m n (value x h) k = k
  fail_on_null-Keeps m n (null e v h) k = k

  pub binary_add_handler-Keeps :
      (m : State O) → Fits O m → Holds (Keeps O m) (binary_add_handler O m)
  unfolding binary_add_handler
  binary_add_handler-Keeps m h = with_object m m _ (start m h) (λ (o1, m₁) k₁.
      with_object m m₁ _ k₁ (λ (o2, m₂) k₂.
        Holds-bind (set_top_answer _ m₁) _ (set_top_answer-Keeps O m m₁ _ k₁)
          (λ m₃ k₃. holds_ok (fail_on_null-Keeps m m₃ _ k₃))))

  pub load_handler-Keeps :
      (cells : List (Option O.Obj)) (m : State O)
      → Fits O m
      → Holds (Keeps O m) (load_handler O cells m)
  unfolding load_handler
  load_handler-Keeps cells m h = with_arg m _ h (λ (i, m₁) k₁.
      with_deref (get_elem? cells i) _ (λ c. with_deref c _ (λ x. push-Keeps O m m₁ (some x) k₁)))

  pub load_upval_handler-Keeps :
      (m : State O) → Fits O m → Holds (Keeps O m) (load_upval_handler O m)
  unfolding load_upval_handler
  load_upval_handler-Keeps m h = with_arg m _ h (λ (i, m₁) k₁.
      with_deref (get_elem? (O.upvalues m₁.func m₁.heap) i) _ (λ c. push-Keeps O m m₁ _ k₁))

  pub store_upval_handler-Keeps :
      (m : State O) → Fits O m → Holds (Keeps O m) (store_upval_handler O m)
  unfolding store_upval_handler
  store_upval_handler-Keeps m h = with_arg m _ h (λ (i, m₁) k₁.
      with_deref (get_elem? (O.upvalues m₁.func m₁.heap) i) _
        (λ c. with_object m m₁ _ k₁ (λ (o, m₂) k₂. holds_ok k₂)))

  pub build_handler-Keeps :
      (make : List O.Obj → O.Heap → O.Obj × O.Heap) (m : State O)
      → Fits O m
      → Holds (Keeps O m) (build_handler O make m)
  unfolding build_handler
  build_handler-Keeps make m h = with_arg m _ h (λ (i, m₁) k₁.
      Holds-bind (pop_items i m₁) _ (pop_items-Keeps O i m m₁ k₁)
        (λ (items, m₂) k₂. push-Keeps O m _ _ k₂))

  pub dict_build_handler-Keeps :
      (m : State O) → Fits O m → Holds (Keeps O m) (dict_build_handler O m)
  unfolding dict_build_handler
  dict_build_handler-Keeps m h = with_arg m _ h (λ (i, m₁) k₁. push-Keeps O m _ _ k₁)

  ignore-Keeps :
      (m n : State O) (a : Answer Unit O.Obj O.Heap) → Keeps O m n → Keeps O m (ignore a n)
  ignore-Keeps m n (value x h) k = k
  ignore-Keeps m n (null e v h) k = k

  store_or_fail-Keeps :
      (m n : State O) (a : Answer O.Obj O.Obj O.Heap)
      → Keeps O m n
      → Holds (Keeps O m) (store_or_fail O a n)
  store_or_fail-Keeps m n (value x h) k = set_top_answer-Keeps O m n (value x h) k
  store_or_fail-Keeps m n (null e v h) k = holds_ok k

  pub subscript_handler-Keeps : (m : State O) → Fits O m → Holds (Keeps O m) (subscript_handler O m)
  unfolding subscript_handler
  subscript_handler-Keeps m h = with_object m m _ (start m h) (λ (o1, m₁) k₁.
      with_object m m₁ _ k₁ (λ (o2, m₂) k₂.
        Holds-if (O.is_subscriptable o2) _ _ (store_or_fail-Keeps m m₁ _ k₁)
          (set_top-Keeps O m _ none k₁)))

  match_item-Keeps :
      (m n : State O) (a : Answer Bool O.Obj O.Heap) (rest : State O → Bool × State O)
      → Keeps O m n
      → ((n' : State O) → Keeps O m n' → KeepsWith O m (rest n'))
      → KeepsWith O m (match_item O a rest n)
  match_item-Keeps m n (value true h) rest k r = k
  match_item-Keeps m n (value false h) rest k r = r _ k
  match_item-Keeps m n (null e v h) rest k r = k

  match_items-Keeps :
      (xs : List O.Obj) (o : O.Obj) (m n : State O)
      → Keeps O m n
      → KeepsWith O m (match_items O xs o n)
  unfolding match_items
  match_items-Keeps [] o m n k = k
  match_items-Keeps (x ∷ xs) o m n k =
      match_item-Keeps m n (O.compare_bool x o n.heap) (match_items O xs o) k
        (λ n' k'. match_items-Keeps xs o m n' k')

  pub cmp_handler-Keeps : (m : State O) → Fits O m → Holds (Keeps O m) (cmp_handler O m)
  unfolding cmp_handler
  cmp_handler-Keeps m h = with_object m m _ (start m h) (λ (o1, m₁) k₁.
      with_object m m₁ _ k₁ (λ (o2, m₂) k₂.
        Holds-bind (next_arg (code O m) m₁) _ (next_arg-Keeps O (code O m) m m₁ k₁) (λ (op, m₃) k₃.
          Holds-if (op == 6) _ _
            (with_deref (O.tuple_items o1 m₃.heap) _
              (λ items. set_top-Keeps O m _ _ (match_items-Keeps items o2 m m₃ k₃)))
            (store_or_fail-Keeps m m₃ _ k₃))))

  pub load_name_handler-Keeps : (m : State O) → Fits O m → Holds (Keeps O m) (load_name_handler O m)
  unfolding load_name_handler
  load_name_handler-Keeps m h = with_arg m _ h (λ (i, m₁) k₁.
      with_deref (get_elem? (code O m).co_names i) _
        (λ name. found name m₁ k₁ (lookup_name O name m₁)))
    where
      found :
          (name : O.Obj) (m₁ : State O)
          → Keeps O m m₁
          → (r : Option O.Obj) → Holds (Keeps O m) (load_found O m name m₁ r)
      found name m₁ k (some x) = push-Keeps O m m₁ (some x) k
      found name m₁ k none = holds_ok k

  pub dict_add_handler-Keeps : (m : State O) → Fits O m → Holds (Keeps O m) (dict_add_handler O m)
  unfolding dict_add_handler
  dict_add_handler-Keeps m h = with_object m m _ (start m h) (λ (o1, m₁) k₁.
      with_object m m₁ _ k₁ (λ (o2, m₂) k₂. with_object m m₂ _ k₂ (λ (o3, m₃) k₃.
        push-Keeps O m _ (some o3) (ignore-Keeps m m₃ (O.dict_set_item o3 o2 o1 m₃.heap) k₃))))

  pub store_name_handler-Keeps :
      (m : State O) → Fits O m → Holds (Keeps O m) (store_name_handler O m)
  unfolding store_name_handler
  store_name_handler-Keeps m h = with_arg m _ h (λ (i, m₁) k₁.
      with_deref (get_elem? (code O m).co_names i) _ (λ name. with_object m m₁ _ k₁ (λ (o2, m₂) k₂.
        holds_ok (ignore-Keeps m m₂ (O.dict_set_item m₂.frame.f_globals name o2 m₂.heap) k₂))))

  pub end_try_handler-Keeps : (m : State O) → Fits O m → Holds (Keeps O m) (end_try_handler O m)
  unfolding end_try_handler
  end_try_handler-Keeps m h = with_object m m _ (start m h) (λ (o1, m₁) k₁. holds_ok k₁)

  pub end_finally_handler-Keeps :
      (m : State O) → Fits O m → Holds (Keeps O m) (end_finally_handler O m)
  unfolding end_finally_handler
  end_finally_handler-Keeps m h =
      with_object m m _ (start m h) (λ (o1, m₁) k₁. holds_ok (end_if (O.is_none o1) m₁ _ k₁ k₁))
    where
      end_if :
          (b : Bool) (x y : State O) → Keeps O m x → Keeps O m y → Keeps O m (if b then x else y)
      end_if true x y p q = p
      end_if false x y p q = q

  pub throw_handler-Keeps : (m : State O) → Fits O m → Holds (Keeps O m) (throw_handler O m)
  unfolding throw_handler
  throw_handler-Keeps m h = with_arg m _ h (λ (i, m₁) k₁.
      Holds-if (i == 1) _ _
        (Holds-bind (pop m₁) _ (pop-Keeps O m m₁ k₁) (λ (c, m₂) k₂. holds_ok k₂))
        (Holds-if (i == 0) _ _ (holds_ok k₁) holds_raise))

  local_named-Keeps :
      (ns : List O.Obj) (cells : List (Option O.Obj)) (name : O.Obj) (m : State O)
      (r : Option O.Obj × State O)
      → KeepsWith O m r
      → KeepsWith O m (local_named O ns cells name r)
  unfolding local_named
  local_named-Keeps [] cells name m r k = k
  local_named-Keeps (n ∷ ns) [] name m r k = k
  local_named-Keeps (n ∷ ns) (c ∷ cells) name m (v, m₁) k =
      local_named-Keeps ns cells name m _
        (named_local-Keeps m m₁ c v (O.compare_bool n name m₁.heap) k)
    where
      named_local-Keeps :
          (m n : State O) (c v : Option O.Obj) (a : Answer Bool O.Obj O.Heap)
          → Keeps O m n
          → KeepsWith O m (named_local O a c v n)
      named_local-Keeps m n c v (value true h) k = k
      named_local-Keeps m n c v (value false h) k = k
      named_local-Keeps m n c v (null e w h) k = k

  fill_upvalues-Keeps :
      (f : O.Obj) (i : ℕ) (names : List O.Obj) (m n : State O)
      → Keeps O m n
      → Keeps O m (fill_upvalues O f i names n)
  unfolding fill_upvalues
  fill_upvalues-Keeps f i [] m n k = k
  fill_upvalues-Keeps f i (name ∷ names) m n k =
      fill_upvalues-Keeps f (suc i) names m _ (captured-Keeps m n name (lookup_name O name n) k)
    where
      captured-Keeps :
          (m n : State O) (name : O.Obj) (r : Option O.Obj)
          → Keeps O m n
          → KeepsWith O m (captured O name n r)
      captured-Keeps m n name (some o) k = k
      captured-Keeps m n name none k = local_named-Keeps _ _ name m (none, n) k

  pub declare_handler-Keeps : (m : State O) → Fits O m → Holds (Keeps O m) (declare_handler O m)
  unfolding declare_handler
  declare_handler-Keeps m h =
      with_object m m _ (start m h) (λ (o1, m₁) k₁.
        push-Keeps O m _ _ (fill_upvalues-Keeps _ 0 (O.code_of o1).co_upvals m _ k₁))

  either_Keeps :
      (b : Bool) (m : State O) (x y : Bool × State O)
      → KeepsWith O m x
      → KeepsWith O m y
      → KeepsWith O m (if b then x else y)
  either_Keeps true m x y p q = p
  either_Keeps false m x y p q = q

  is_false-Keeps : (o : O.Obj) (m n : State O) → Keeps O m n → KeepsWith O m (is_false O o n)
  unfolding is_false
  is_false-Keeps o m n k =
      either_Keeps (O.is_true_object o) m _ _ k
        (either_Keeps (O.is_false_object o) m _ _ k (by_answer (O.is_true o n.heap)))
    where
      by_answer : (a : Answer Bool O.Obj O.Heap) → KeepsWith O m (answer_is_false O a n)
      by_answer (value true h) = k
      by_answer (value false h) = k
      by_answer (null e v h) = k

  pub jmpz_handler-Keeps : (m : State O) → Fits O m → Holds (Keeps O m) (jmpz_handler O m)
  unfolding jmpz_handler
  jmpz_handler-Keeps m h = with_arg m _ h (λ (target, m₁) k₁. with_object m m₁ _ k₁ (λ (o1, m₂) k₂.
      let k = is_false-Keeps o1 m m₂ k₂ in holds_ok (jump_if (is_false O o1 m₂) target k)))
    where
      jump_if :
          (r : Bool × State O) (target : ℕ)
          → KeepsWith O m r
          → Keeps O m (if r.0 then jump_to target r.1 else r.1)
      jump_if (true, n) target k = k
      jump_if (false, n) target k = k

  pub for_iter_handler-Keeps : (m : State O) → Fits O m → Holds (Keeps O m) (for_iter_handler O m)
  unfolding for_iter_handler
  for_iter_handler-Keeps m h = with_arg m _ h (λ (target, m₁) k₁.
      with_object m m₁ _ k₁ (λ (o1, m₂) k₂. by_item target m₁ m₂ k₁ k₂ (O.iternext o1 m₁.heap)))
    where
      by_item :
          (target : ℕ) (m₁ m₂ : State O)
          → Keeps O m m₁
          → Keeps O m m₂
          → (r : Option O.Obj × O.Heap) → Holds (Keeps O m) (iterate O m target m₁ m₂ r)
      by_item target m₁ m₂ k₁ k₂ (some x, t) = push-Keeps O m _ (some x) k₁
      by_item target m₁ m₂ k₁ k₂ (none, t) = holds_ok k₂

  pub store_subscript_handler-Keeps :
      (m : State O) → Fits O m → Holds (Keeps O m) (store_subscript_handler O m)
  unfolding store_subscript_handler
  store_subscript_handler-Keeps m h = with_object m m _ (start m h) (λ (o1, m₁) k₁.
      with_object m m₁ _ k₁ (λ (o2, m₂) k₂.
        with_object m m₂ _ k₂ (λ (o3, m₃) k₃. by_kind o1 o2 o3 m₃ k₃ (O.container o3))))
    where
      by_kind :
          (o1 o2 o3 : O.Obj) (n : State O)
          → Keeps O m n
          → (c : Container) → Holds (Keeps O m) (store_in O c o3 o2 o1 n)
      by_kind o1 o2 o3 n k list = holds_ok (ignore-Keeps m n (O.list_set_item o3 o2 o1 n.heap) k)
      by_kind o1 o2 o3 n k dict = holds_ok (ignore-Keeps m n (O.dict_set_item o3 o2 o1 n.heap) k)
      by_kind o1 o2 o3 n k other_container = holds_raise

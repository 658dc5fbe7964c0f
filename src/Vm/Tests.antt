-- ===== src/Vm/Tests.antt =====
-- Runs of vm.c on the sample objects.
use cobj.Prelude.{All, ℕ, zero, suc, ◌≡◌, refl, [], ◌∷◌, some, arith}
use cobj.Prelude.Result.{Result, ok, value_error, ◌>>=◌}
use cobj.Vm.Machine.{FrameBlock, loop_block, try_block, finally_block, status_none}
use cobj.Vm.Machine.{status_exception, fast_end, Next, running, exited, new_frame}
use cobj.Vm.Handlers.{State, call_handler, return_handler, enter, set_arguments}
use cobj.Vm.Operands.{pop_items}
use cobj.Vm.Step.{vm_start, step, exec, dispatch, load_handler}
use cobj.Vm.Unwind.{taken_by, unwind_blocks, fast_end-taken, fast_end_uncaught}
use cobj.Vm.Calls.{callee_state, call_handler-callee_state}
use cobj.Vm.Shape.{FitsFrame}
use cobj.Vm.Invariant.{here, next, Reach-FitsFrame}
use cobj.Vm.Sample.{Object, number, function_value, none_value, sample}

abbrev finally_at_two : FrameBlock
finally_at_two = record { fb_type = finally_block; fb_handler = 90; fb_level = 2 }

abbrev loop_at_one : FrameBlock
loop_at_one = record { fb_type = loop_block; fb_handler = 60; fb_level = 1 }

abbrev try_at_zero : FrameBlock
try_at_zero = record { fb_type = try_block; fb_handler = 80; fb_level = 0 }

-- In the frame of the function 0, three objects on the stack, and three blocks.
abbrev in_blocks : State sample
in_blocks = record {
  func = function_value 0;
  globals = none_value;
  frame = record {
    f_func = function_value 0;
    f_lasti = 0;
    f_globals = none_value;
    f_builtins = none_value;
    f_blockstack = finally_at_two ∷ loop_at_one ∷ try_at_zero ∷ [];
    f_stacktop = [];
    locals = [];
  };
  f_prev = [];
  stack = some (number 3) ∷ some (number 2) ∷ some (number 1) ∷ [];
  next_code = 10;
  oparg = 0;
  status = status_exception;
  curexc = some (value_error, some (number 5));
  heap = tt;
}

-- The exception passes the finally block and the loop.
fast_end-taken_example :
    fast_end 2 in_blocks
    ≡ ok (
        running (
          taken_by try_at_zero [] status_exception
            (unwind_blocks (finally_at_two ∷ loop_at_one ∷ []) in_blocks.stack)
            in_blocks))
fast_end-taken_example =
    fast_end-taken 2 (finally_at_two ∷ loop_at_one ∷ []) try_at_zero [] in_blocks refl
      (refl, (refl, tt)) refl (omega arith)

abbrev uncaught : State sample
uncaught = record in_blocks {
  frame = record in_blocks.frame { f_blockstack = finally_at_two ∷ loop_at_one ∷ [] };
}

fast_end_uncaught_example :
    fast_end 2 uncaught
    ≡ ok (
        exited (record uncaught {
          stack = some (number 1) ∷ [];
          frame = record uncaught.frame { f_blockstack = [] };
        }))
fast_end_uncaught_example = fast_end_uncaught 2 uncaught (λ e. ground (arith, e)) (refl, (refl, tt))

-- The function 0 with its argument and the callee on the stack, behind the opcode of the call.
abbrev at_call : State sample
at_call = record in_blocks {
  stack = some (function_value 1) ∷ some (number 7) ∷ [];
  next_code = 7;
  status = status_none;
}

call_handler-callee_state_example :
    call_handler sample at_call
    ≡ ok (callee_state sample (function_value 1) (number 7 ∷ []) 9 [] at_call)
call_handler-callee_state_example =
    call_handler-callee_state sample at_call (function_value 1) (number 7 ∷ []) [] 1 0 refl refl
      refl refl refl refl (omega arith)

abbrev started : State sample
started = vm_start sample (function_value 0) none_value tt

abbrev after_load : State sample
after_load = record started { stack = some (number 7) ∷ []; next_code = 3 }

first_step : step sample started ≡ ok (running after_load)
unfolding step dispatch exec load_handler fast_end vm_start new_frame
first_step = refl

Reach-FitsFrame_example :
    FitsFrame sample after_load.frame × All (FitsFrame sample) after_load.f_prev
Reach-FitsFrame_example =
    Reach-FitsFrame sample (function_value 0) none_value tt after_load (next here first_step)

-- The rounds one after the other
run : ℕ → State sample → Result (Next Object (Unit {0}))
run zero m = ok (running m)
run (suc n) m = step sample m >>= λ r. go_on (run n) r
  where
    go_on :
        (State sample → Result (Next Object (Unit {0})))
        → Next Object (Unit {0})
        → Result (Next Object (Unit {0}))
    go_on k (running m) = k m
    go_on k (exited m) = ok (exited m)

-- `f(7)`: the call, the local, the return and what the caller has then on its stack.
five_rounds :
    run 5 started
    ≡ ok (
        running (record started {
          func = function_value 1;
          stack = some (number 7) ∷ [];
          next_code = 9;
          oparg = 0;
          frame = record started.frame { f_lasti = 9 };
        }))
unfolding run step dispatch exec load_handler fast_end vm_start new_frame call_handler enter
    set_arguments return_handler pop_items
five_rounds = refl

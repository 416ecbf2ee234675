-- ===== src/Estimator/Workers/Examples.antt =====
-- Two signers, of whom the look-up of one fails.
use go_sequence.Base.{◌≡◌, refl, arith}
use go_sequence.Estimator.Workers.{
  waiting, returned, succeed, all_done, Workers, not_started, start_worker, end_loop, fail, Steps,
  stay, then_step,
}
use go_sequence.Estimator.Workers.Stuck.{Steps-waiting, Steps-returned}

-- Both goroutines are started, and the loop has ended.
abbrev at_wait : Workers
at_wait = record { next = 2; running = 2; blocked = 0; succeeded = 0; main = waiting }

at_wait-Steps : Steps 2 not_started at_wait
at_wait-Steps =
    then_step
      (then_step (then_step stay (start_worker not_started refl (omega arith) (omega arith)))
        (start_worker _ refl (omega arith) (omega arith)))
      (end_loop _ refl refl)

abbrev one_failed : Workers
one_failed = record at_wait { running = 1; blocked = 1 }

one_failed-Steps : Steps 2 not_started one_failed
one_failed-Steps = then_step at_wait-Steps (fail at_wait 1 refl)

abbrev other_done : Workers
other_done = record one_failed { running = 0; succeeded = 1 }

Steps-waiting_example : other_done.main ≡ waiting
Steps-waiting_example =
    Steps-waiting 2 one_failed other_done (then_step stay (succeed one_failed 0 refl)) refl
      (omega arith)

abbrev all_succeeded : Workers
all_succeeded = record at_wait { running = 0; succeeded = 2; main = returned }

all_succeeded-Steps : Steps 2 not_started all_succeeded
all_succeeded-Steps =
    then_step (then_step (then_step at_wait-Steps (succeed at_wait 1 refl)) (succeed _ 0 refl))
      (all_done _ refl refl)

Steps-returned_example : all_succeeded.succeeded ≡ 2
Steps-returned_example = Steps-returned 2 all_succeeded all_succeeded-Steps refl

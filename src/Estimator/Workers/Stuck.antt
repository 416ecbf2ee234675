-- ===== src/Estimator/Workers/Stuck.antt =====
-- What `AreEOAs` returns, and when it does not.
use go_sequence.Base.{ℕ, suc, ◌+◌, ◌<◌, ◌≤◌, ◌≡◌, refl, sym, subst, arith}
use go_sequence.Estimator.Workers.{
  max_concurrent_tasks, Main, looping, waiting, returned, returned_error, Workers, not_started,
  Step, start_worker, read_error, context_done, end_loop, all_done, succeed, fail, Steps, stay,
  then_step,
}

-- What is known where `AreEOAs` is.
abbrev Known : ℕ → Workers → Main → Type 0
Known signers w looping = (w.next ≡ w.running + w.blocked + w.succeeded) × (w.next ≤ signers)
Known signers w waiting = w.running + w.blocked + w.succeeded ≡ signers
Known signers w returned = (w.succeeded ≡ signers) × (w.running ≡ 0)
Known signers w returned_error = Unit

record IsKnown (signers : ℕ) (w : Workers) : Type 0 where
  slots : w.running + w.blocked ≤ max_concurrent_tasks
  known : Known signers w w.main

module _ (signers : ℕ) where
  main-Known : {w : Workers} {m : Main} → IsKnown signers w → w.main ≡ m → Known signers w m
  main-Known {w} {m} h e = subst (Known signers w) e h.known

  succeed-Known :
      (w : Workers) (r : ℕ) (m : Main)
      → w.running ≡ suc r
      → Known signers w m
      → Known signers (record w { running = r; succeeded = suc w.succeeded }) m
  succeed-Known w r looping e h = (omega arith, h.1)
  succeed-Known w r waiting e h = omega arith
  succeed-Known w r returned e h = absurd (omega (arith, h.1))
  succeed-Known w r returned_error e h = tt

  fail-Known :
      (w : Workers) (r : ℕ) (m : Main)
      → w.running ≡ suc r
      → Known signers w m
      → Known signers (record w { running = r; blocked = suc w.blocked }) m
  fail-Known w r looping e h = (omega arith, h.1)
  fail-Known w r waiting e h = omega arith
  fail-Known w r returned e h = absurd (omega (arith, h.1))
  fail-Known w r returned_error e h = tt

  Step-IsKnown : {v w : Workers} → Step signers v w → IsKnown signers v → IsKnown signers w
  Step-IsKnown (start_worker v e lt free) h =
      let k = main-Known h e in
      let w : Workers = record v { next = suc v.next; running = suc v.running } in
      record {
        slots = omega arith;
        known = subst (Known signers w) (sym e) (omega (arith, k.0), omega arith);
      }
  Step-IsKnown (read_error v b e lt e') h = record { slots = omega (arith, h.slots); known = tt }
  Step-IsKnown (context_done v e lt) h = record { slots = h.slots; known = tt }
  Step-IsKnown (end_loop v e e') h = record {
    slots = h.slots;
    known = omega (arith, (main-Known h e).0);
  }
  Step-IsKnown (all_done v e none_left) h = record {
    slots = h.slots;
    known = (omega (arith, main-Known h e), omega arith);
  }
  Step-IsKnown (succeed v r e) h = record {
    slots = omega (arith, h.slots);
    known = succeed-Known v r v.main e h.known;
  }
  Step-IsKnown (fail v r e) h = record {
    slots = omega (arith, h.slots);
    known = fail-Known v r v.main e h.known;
  }

  Steps-IsKnown : {w : Workers} → Steps signers not_started w → IsKnown signers w
  Steps-IsKnown stay = record { slots = omega arith; known = (refl, omega arith) }
  Steps-IsKnown (then_step steps step) = Step-IsKnown step (Steps-IsKnown steps)

  -- At `wg.Wait()`, with a goroutine that waits for a reader.
  record IsStuck (w : Workers) : Type 0 where
    at_wait : w.main ≡ waiting
    has_blocked : 0 < w.blocked

  Step-IsStuck : {v w : Workers} → Step signers v w → IsStuck v → IsStuck w
  Step-IsStuck (start_worker v e lt free) h = let x = h.at_wait in cc
  Step-IsStuck (read_error v b e lt e') h = let x = h.at_wait in cc
  Step-IsStuck (context_done v e lt) h = let x = h.at_wait in cc
  Step-IsStuck (end_loop v e e') h = let x = h.at_wait in cc
  Step-IsStuck (all_done v e none_left) h = absurd (omega (arith, h.has_blocked))
  Step-IsStuck (succeed v r e) h = record { at_wait = h.at_wait; has_blocked = h.has_blocked }
  Step-IsStuck (fail v r e) h = record { at_wait = h.at_wait; has_blocked = omega arith }

  Steps-IsStuck : {v w : Workers} → Steps signers v w → IsStuck v → IsStuck w
  Steps-IsStuck stay h = h
  Steps-IsStuck (then_step steps step) h = Step-IsStuck step (Steps-IsStuck steps h)

-- When `AreEOAs` returns without an error, the look-up of every signer succeeded.
pub Steps-returned :
    (signers : ℕ) (w : Workers)
    → Steps signers not_started w
    → w.main ≡ returned
    → w.succeeded ≡ signers
Steps-returned signers w steps e = (main-Known signers (Steps-IsKnown signers steps) e).0

-- An error that comes when all goroutines are started is never read: from there on `AreEOAs` waits for
-- ever, whatever the goroutines do and whether its context is done.
pub Steps-waiting :
    (signers : ℕ) (v w : Workers)
    → Steps signers v w
    → v.main ≡ waiting
    → 0 < v.blocked
    → w.main ≡ waiting
Steps-waiting signers v w steps e blocked =
    (Steps-IsStuck signers steps (record { at_wait = e; has_blocked = blocked })).at_wait

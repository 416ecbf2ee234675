-- ===== src/Estimator/Workers.antt =====
-- `AreEOAs` of estimator.go beside the goroutines that it starts, as a step relation: one goroutine for
-- each signer, of which a fixed number runs at a time, and an unbuffered channel for their errors.
pub mod Stuck
mod Examples
use go_sequence.Base.{ℕ, suc, ◌+◌, ◌<◌, ◌≡◌, List, [], ◌∷◌}

-- `areEOAsMaxConcurrentTasks`
abbrev pub max_concurrent_tasks : ℕ
max_concurrent_tasks = 10

-- Where `AreEOAs` is: in its loop, at `wg.Wait()`, or back at its caller, without an error or with one.
pub data Main : Type 0 where
  looping waiting returned returned_error : Main

-- The loop is at the signer with the index `next`. Of the goroutines that it started, so many look up
-- the code of their address, wait for somebody to read their error, or are done without an error; the
-- first two hold a slot of `workersCh`.
pub record Workers : Type 0 where
  pub next : ℕ
  pub running : ℕ
  pub blocked : ℕ
  pub succeeded : ℕ
  pub main : Main

abbrev pub not_started : Workers
not_started = record { next = 0; running = 0; blocked = 0; succeeded = 0; main = looping }

-- `signers` is their number. A select takes any of its cases that can go on.
pub data Step (signers : ℕ) : Workers → Workers → Type 0 where
  start_worker :
      (w : Workers)
      → w.main ≡ looping
      → w.next < signers
      → w.running + w.blocked < max_concurrent_tasks
      → Step signers w (record w { next = suc w.next; running = suc w.running })
  read_error :
      (w : Workers) (b : ℕ)
      → w.main ≡ looping
      → w.next < signers
      → w.blocked ≡ suc b
      → Step signers w (record w { blocked = b; main = returned_error })
  context_done :
      (w : Workers)
      → w.main ≡ looping
      → w.next < signers
      → Step signers w (record w { main = returned_error })
  end_loop :
      (w : Workers)
      → w.main ≡ looping
      → w.next ≡ signers
      → Step signers w (record w { main = waiting })
  all_done :
      (w : Workers)
      → w.main ≡ waiting
      → w.running + w.blocked ≡ 0
      → Step signers w (record w { main = returned })
  succeed :
      (w : Workers) (r : ℕ)
      → w.running ≡ suc r
      → Step signers w (record w { running = r; succeeded = suc w.succeeded })
  fail :
      (w : Workers) (r : ℕ)
      → w.running ≡ suc r
      → Step signers w (record w { running = r; blocked = suc w.blocked })

pub data Steps (signers : ℕ) : Workers → Workers → Type 0 where
  stay : {w : Workers} → Steps signers w w
  then_step : {u v w : Workers} → Steps signers u v → Step signers v w → Steps signers u w

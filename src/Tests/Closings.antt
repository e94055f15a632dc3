-- ===== src/Tests/Closings.antt =====
-- The shutdown sequence on small runs of signals.
use matcha.Common.{◌≡◌, refl, [], ◌∷◌, arith}
use matcha.Shutdown.{
  done, pending, begin, shutdown_request, exit_notification, close_input, exit_until, replied,
  polled, closing, killed, worker_run,
}
use matcha.Shutdown.Handshakes.{worker_run-killed}

-- A reply at 3, and polls at 1, 12, 13 and 22, with a grace of 10 from 0 on.
worker_run-killed_example :
    worker_run 10
      (polled 1 ∷ replied 3 ∷ polled 12 ∷ polled 12 ∷ polled 22 ∷ [])
      (closing (begin [] done 10 0).step (begin [] done 10 0).link)
    ≡ killed (shutdown_request ∷ exit_notification ∷ close_input ∷ [])
worker_run-killed_example =
    worker_run-killed [] done 10 0 12 22 (polled 1 ∷ replied 3 ∷ []) (polled 12 ∷ []) (omega arith)
      (omega arith) (omega arith, (omega arith, tt))

not_answered :
    worker_run 10
      (polled 9 ∷ replied 9 ∷ [])
      (closing (begin [] pending 10 0).step (begin [] pending 10 0).link)
    ≡ closing (exit_until 10) (exit_notification ∷ close_input ∷ [])
unfolding begin worker_run
not_answered = refl

-- ===== src/Tests/Writers.antt =====
-- The outgoing queue on small schedules.
use matcha.Common.{ℕ, ◌≡◌, refl, none, some, List, [], ◌∷◌, arith}
use matcha.Header.{encode}
use matcha.Frame.{default}
use matcha.Frame.Framed.{AllFit}
use matcha.Frame.Stream.{push_all, joined}
use matcha.Frame.Prompt.{Prompt}
use matcha.Writer.{Action, call_send, go_send, go_write, fresh, run, backlog, write_failed}
use matcha.Writer.Accounted.{run-IsAccounted, fresh-IsAccounted, IsAccounted}
use matcha.Writer.Ordered.{run-Prompt, queued_in}

-- Two threads send past a limit of four bytes; the writer writes one frame and fails in the next, while a
-- third thread still queues a body.
abbrev racing : List Action
racing =
    call_send (b'a' ∷ b'b' ∷ b'c' ∷ [])
    ∷ call_send (b'd' ∷ b'e' ∷ [])
    ∷ call_send (b'f' ∷ [])
    ∷ go_send 0
    ∷ go_send 1
    ∷ go_send 2
    ∷ go_send 2
    ∷ go_send 1
    ∷ go_send 2
    ∷ go_write none
    ∷ go_send 1
    ∷ go_write none
    ∷ go_send 1
    ∷ go_write none
    ∷ go_write none
    ∷ go_write (some 5)
    ∷ go_write none
    ∷ go_send 0
    ∷ go_send 0
    ∷ go_write none
    ∷ go_write none
    ∷ go_send 1
    ∷ []

racing_notices : (run 4 racing fresh).shared.notices ≡ write_failed ∷ backlog ∷ []
unfolding run
racing_notices = refl

racing_queued :
    queued_in 4 racing fresh ≡ (b'a' ∷ b'b' ∷ b'c' ∷ []) ∷ (b'd' ∷ b'e' ∷ []) ∷ (b'f' ∷ []) ∷ []
unfolding run queued_in
racing_queued = refl

run-IsAccounted_example : IsAccounted (run 4 racing fresh)
run-IsAccounted_example = run-IsAccounted 4 racing fresh fresh-IsAccounted

abbrev two_reads : List (List ℕ)
two_reads = encode (b'a' ∷ b'b' ∷ b'c' ∷ []) ∷ (b'C' ∷ b'o' ∷ b'n' ∷ b't' ∷ b'e' ∷ []) ∷ []

racing-AllFit : AllFit (queued_in 4 racing fresh)
unfolding run queued_in
racing-AllFit = (omega arith, (omega arith, (omega arith, tt)))

run-Prompt_example :
    Prompt (queued_in 4 racing fresh) (joined two_reads) (push_all default two_reads)
unfolding run queued_in encode
run-Prompt_example = run-Prompt 4 racing two_reads racing-AllFit refl

-- ===== src/Shutdown/Handshakes.antt =====
-- The order of the shutdown sequence, and its end.
use matcha.Common.{
  ℕ, ◌+◌, ◌≤◌, ◌≡◌, inl, inr, refl, sym, ap, ◌∙◌, true, List, [], ◌∷◌, ◌++◌, leb, Bool-cases, arith,
  append-nil,
}
use matcha.Shutdown.{
  Handshake, done, pending, Sent, shutdown_request, exit_notification, close_input, reply_until,
  exit_until, leave, begin, on_reply, on_expiry, Signal, replied, polled, Worker, closing, killed,
  act_on, worker_step, worker_run,
}

abbrev pub time : Signal → ℕ
time (replied now) = now
time (polled now) = now

abbrev pub AllBy : ℕ → List Signal → Type 0
AllBy t [] = Unit
AllBy t (x ∷ xs) = (time x ≤ t) × AllBy t xs

abbrev pub opening : Handshake → List Sent
opening done = shutdown_request ∷ []
opening pending = []

abbrev pub leaving : List Sent
leaving = exit_notification ∷ close_input ∷ []

-- Deadlines are at most `r` and `e`, and what is sent after `opened` goes with the step.
abbrev InStep : ℕ → ℕ → List Sent → Worker → Type 0
InStep r e opened (closing (reply_until u) link) = (u ≤ r) × (link ≡ opened)
InStep r e opened (closing (exit_until u) link) = (u ≤ e) × (link ≡ opened ++ leaving)
InStep r e opened (killed link) = link ≡ opened ++ leaving

worker_step-InStep :
    (grace r e : ℕ) (opened : List Sent) (x : Signal) (w : Worker)
    → time x + grace ≤ e
    → InStep r e opened w
    → InStep r e opened (worker_step grace x w)
unfolding worker_step on_reply on_expiry act_on leave
worker_step-InStep grace r e opened (replied now) (closing (reply_until u) link) h (a, b) =
    (h, ap (◌++ leaving) b)
worker_step-InStep grace r e opened (replied now) (closing (exit_until u) link) h (a, b) = (a, b)
worker_step-InStep grace r e opened (polled now) (closing (reply_until u) link) h (a, b) =
    elim (Bool-cases (leb u now)) [
      | inl f ↦ rw (f, worker_step) (h, ap (◌++ leaving) b)
      | inr f ↦ rw (f, worker_step) (a, b)
    ]
worker_step-InStep grace r e opened (polled now) (closing (exit_until u) link) h (a, b) =
    elim (Bool-cases (leb u now)) [
      | inl f ↦ rw (f, worker_step) b
      | inr f ↦ rw (f, worker_step) (a, b)
    ]
worker_step-InStep grace r e opened (replied now) (killed link) h b = b
worker_step-InStep grace r e opened (polled now) (killed link) h b = b

worker_run-InStep :
    (grace t r : ℕ) (opened : List Sent) (signals : List Signal) (w : Worker)
    → AllBy t signals
    → InStep r (t + grace) opened w
    → InStep r (t + grace) opened (worker_run grace signals w)
unfolding worker_run
worker_run-InStep grace t r opened [] w a h = h
worker_run-InStep grace t r opened (x ∷ signals) w (a, b) h =
    worker_run-InStep grace t r opened signals (worker_step grace x w) b
      (worker_step-InStep grace r (t + grace) opened x w (omega arith) h)

worker_run-append :
    (grace : ℕ) (xs ys : List Signal) (w : Worker)
    → worker_run grace (xs ++ ys) w ≡ worker_run grace ys (worker_run grace xs w)
unfolding worker_run
worker_run-append grace [] ys w = refl
worker_run-append grace (x ∷ xs) ys w = worker_run-append grace xs ys (worker_step grace x w)

-- `exit` is out.
abbrev Left : ℕ → List Sent → Worker → Type 0
Left e opened (closing (reply_until u) link) = ⊥
Left e opened (closing (exit_until u) link) = (u ≤ e) × (link ≡ opened ++ leaving)
Left e opened (killed link) = link ≡ opened ++ leaving

first_poll :
    (grace t : ℕ) (opened : List Sent) (w : Worker)
    → InStep t (t + grace) opened w
    → Left (t + grace) opened (worker_step grace (polled t) w)
unfolding worker_step on_expiry act_on leave
first_poll grace t opened (closing (reply_until u) link) (a, b) =
    let late : leb u t ≡ true = ground arith in
    rw (late, worker_step) (omega arith, ap (◌++ leaving) b)
first_poll grace t opened (closing (exit_until u) link) (a, b) = elim (Bool-cases (leb u t)) [
  | inl f ↦ rw (f, worker_step) b
  | inr f ↦ rw (f, worker_step) (a, b)
]
first_poll grace t opened (killed link) b = b

worker_step-Left :
    (grace e : ℕ) (opened : List Sent) (x : Signal) (w : Worker)
    → Left e opened w
    → Left e opened (worker_step grace x w)
unfolding worker_step on_reply on_expiry act_on
worker_step-Left grace e opened x (closing (reply_until u) link) h = elim h [ ]
worker_step-Left grace e opened (replied now) (closing (exit_until u) link) h = h
worker_step-Left grace e opened (polled now) (closing (exit_until u) link) h =
    elim (Bool-cases (leb u now)) [
      | inl f ↦ rw (f, worker_step) h.1
      | inr f ↦ rw (f, worker_step) h
    ]
worker_step-Left grace e opened (replied now) (killed link) h = h
worker_step-Left grace e opened (polled now) (killed link) h = h

worker_run-Left :
    (grace e : ℕ) (opened : List Sent) (signals : List Signal) (w : Worker)
    → Left e opened w
    → Left e opened (worker_run grace signals w)
unfolding worker_run
worker_run-Left grace e opened [] w h = h
worker_run-Left grace e opened (x ∷ signals) w h =
    worker_run-Left grace e opened signals (worker_step grace x w)
      (worker_step-Left grace e opened x w h)

last_poll :
    (grace e t : ℕ) (opened : List Sent) (w : Worker)
    → e ≤ t
    → Left e opened w
    → worker_step grace (polled t) w ≡ killed (opened ++ leaving)
unfolding worker_step on_expiry act_on
last_poll grace e t opened (closing (reply_until u) link) h k = elim k [ ]
last_poll grace e t opened (closing (exit_until u) link) h (a, b) =
    let late : leb u t ≡ true = ground arith in rw (late, worker_step) (ap killed b)
last_poll grace e t opened (killed link) h k = ap killed k

begin-InStep :
    (link : List Sent) (h : Handshake) (grace now t : ℕ)
    → now + grace ≤ t
    → let s = begin link h grace now in
      InStep t (t + grace) (link ++ opening h) (closing s.step s.link)
unfolding begin leave
begin-InStep link done grace now t k = (k, refl)
begin-InStep link pending grace now t k = (omega arith, ap (◌++ leaving) (sym (append-nil link)))

-- A server that stays is killed, whenever its reply comes, if it comes: by the second of two polls, the
-- first of which is no earlier than a grace after the beginning and than the signals before it, and the
-- second no earlier than a grace after the first. By then `shutdown` was sent once, first, after a
-- handshake, and never without one; then `exit` was sent once, and last the input was closed once.
pub worker_run-killed :
    (link : List Sent) (h : Handshake) (grace now first second : ℕ) (before between : List Signal)
    → now + grace ≤ first
    → first + grace ≤ second
    → AllBy first before
    → let s = begin link h grace now in
      worker_run grace
        (before ++ polled first ∷ (between ++ polled second ∷ []))
        (closing s.step s.link)
      ≡ killed ((link ++ opening h) ++ leaving)
unfolding worker_run
worker_run-killed link h grace now first second before between a b c =
    let s = begin link h grace now in
    let opened = link ++ opening h in
    let early =
      worker_run-InStep grace first first opened before (closing s.step s.link) c
        (begin-InStep link h grace now first a) in
    let mid =
      worker_run-Left grace (first + grace) opened between _
        (first_poll grace first opened _ early) in
    worker_run-append grace before (polled first ∷ (between ++ polled second ∷ []))
      (closing s.step s.link)
    ∙ worker_run-append grace between (polled second ∷ []) _
    ∙ last_poll grace (first + grace) second opened _ b mid

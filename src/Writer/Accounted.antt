-- ===== src/Writer/Accounted.antt =====
-- What the guard counts, how often it reports, and what is written, under every interleaving.
use mathlib.Core.Option.{some-injective}
use matcha.Common.{
  ℕ, zero, suc, ◌+◌, ◌≡◌, inl, inr, refl, sym, ap, ◌∙◌, Bool, true, false, Option, none, some, List,
  [], ◌∷◌, ◌++◌, length, take, get_elem?, set, ltb, Bool-cases, Option-cases, arith, append_assoc,
  append-nil, subst,
}
use matcha.Header.{encode}
use matcha.Frame.Bytes.{encode_all}
use matcha.Writer.{
  Queued, message, close, Notice, backlog, write_failed, Sending, starting, counting, refused,
  counted, queued, tripping, finished, Writing, idle, closing, gave_back, reported, stopped,
  holding, wrote, Shared, State, is_stopped, send_step, next_item, write_step, Action, call_send,
  call_close, go_send, go_write, act, fresh, run,
}

-- The bytes that a call of `send` has counted and not queued.
abbrev pub in_send : Sending → ℕ
in_send (counted b total) = length b
in_send (refused b) = length b
in_send (starting b) = 0
in_send (counting b) = 0
in_send (queued total) = 0
in_send tripping = 0
in_send finished = 0

-- A call that is about to report.
abbrev pub in_trip : Sending → ℕ
in_trip tripping = 1
in_trip (starting b) = 0
in_trip (counting b) = 0
in_trip (refused b) = 0
in_trip (counted b total) = 0
in_trip (queued total) = 0
in_trip finished = 0

abbrev pub over : (Sending → ℕ) → List Sending → ℕ
over weight [] = 0
over weight (x ∷ xs) = weight x + over weight xs

abbrev pub in_queue : List Queued → ℕ
in_queue [] = 0
in_queue (message b ∷ items) = length b + in_queue items
in_queue (close ∷ items) = in_queue items

-- The bytes that the writer thread took and has not given back.
abbrev pub in_write : Writing → ℕ
in_write idle = 0
in_write closing = 0
in_write gave_back = 0
in_write reported = 0
in_write (stopped ok) = 0
in_write (holding b) = length b
in_write (wrote b ok) = length b

abbrev pub backlogs : List Notice → ℕ
backlogs [] = 0
backlogs (backlog ∷ ns) = suc (backlogs ns)
backlogs (write_failed ∷ ns) = backlogs ns

abbrev pub one_if : Bool → ℕ
one_if true = 1
one_if false = 0

abbrev pub Whole : List ℕ → Type 0
Whole sink = (bs : List (List ℕ)) × (sink ≡ encode_all bs)

-- Whole frames and a part of one more.
abbrev pub Cut : List ℕ → Type 0
Cut sink =
    (bs : List (List ℕ)) × (b : List ℕ) × (n : ℕ) × (sink ≡ encode_all bs ++ take n (encode b))

-- What is in the sink: whole frames, after which a failed write may have left a part of one.
abbrev pub Framed : Writing → List ℕ → Type 0
Framed idle sink = Whole sink
Framed (holding b) sink = Whole sink
Framed (wrote b true) sink = Whole sink
Framed closing sink = Whole sink
Framed (stopped true) sink = Whole sink
Framed (wrote b false) sink = Cut sink
Framed gave_back sink = Cut sink
Framed reported sink = Cut sink
Framed (stopped false) sink = Cut sink

-- With `others` the bytes in the calls of `send`, and `trips` how many of them are about to report.
abbrev pub Balanced : ℕ → ℕ → Shared → Type 0
Balanced others trips s =
    (s.unwritten ≡ others + in_queue s.queue + in_write s.writing)
    × (backlogs s.notices + trips ≡ one_if s.tripped)
    × Framed s.writing s.sink

abbrev pub IsAccounted : State → Type 0
IsAccounted s = Balanced (over in_send s.senders) (over in_trip s.senders) s.shared

in_queue-append : (xs ys : List Queued) → in_queue (xs ++ ys) ≡ in_queue xs + in_queue ys
in_queue-append [] ys = omega arith
in_queue-append (message b ∷ xs) ys = omega (arith, in_queue-append xs ys)
in_queue-append (close ∷ xs) ys = in_queue-append xs ys

backlogs-append : (xs ys : List Notice) → backlogs (xs ++ ys) ≡ backlogs xs + backlogs ys
backlogs-append [] ys = omega arith
backlogs-append (backlog ∷ xs) ys = omega (arith, backlogs-append xs ys)
backlogs-append (write_failed ∷ xs) ys = backlogs-append xs ys

over-set :
    (weight : Sending → ℕ) (xs : List Sending) (i : ℕ) (x x' : Sending)
    → get_elem? xs i ≡ some x
    → over weight (set xs i x') + weight x ≡ over weight xs + weight x'
over-set weight [] i x x' h = cc
over-set weight (y ∷ xs) zero x x' h =
    let same : y ≡ x = some-injective _ _ h in omega (arith, ap weight same)
over-set weight (y ∷ xs) (suc i) x x' h = omega (arith, over-set weight xs i x x' h)

pub encode_all-snoc :
    (bs : List (List ℕ)) (b : List ℕ) → encode_all bs ++ encode b ≡ encode_all (bs ++ b ∷ [])
unfolding encode_all
encode_all-snoc [] b = sym (append-nil (encode b))
encode_all-snoc (c ∷ bs) b =
    append_assoc (encode c) (encode_all bs) (encode b) ∙ ap (encode c ++◌) (encode_all-snoc bs b)

-- The shared state after a step of one call, whose part of the sums changes with it.
send_step-Balanced :
    (limit others trips : ℕ) (x : Sending) (s : Shared)
    → Balanced (others + in_send x) (trips + in_trip x) s
    → let r = send_step limit x s in Balanced (others + in_send r.0) (trips + in_trip r.0) r.1
unfolding send_step
send_step-Balanced limit others trips (starting b) s (u, n, f) = elim (Bool-cases s.tripped) [
  | inl e ↦ rw (e, send_step) (u, n ∙ ap one_if e, f)
  | inr e ↦ rw (e, send_step) (u, n ∙ ap one_if e, f)
]
send_step-Balanced limit others trips (counting b) s (u, n, f) = (omega (arith, u), n, f)
send_step-Balanced limit others trips (counted b total) s (u, n, f) =
    elim (Bool-cases (is_stopped s.writing)) [
      | inl e ↦ rw (e, send_step) (u, n, f)
      | inr e ↦ rw (e, send_step) (omega (arith, u, in_queue-append s.queue (message b ∷ [])), n, f)
    ]
send_step-Balanced limit others trips (refused b) s (u, n, f) = (omega (arith, u), n, f)
send_step-Balanced limit others trips (queued total) s (u, n, f) =
    elim (Bool-cases (ltb limit total)) [
      | inl e ↦ elim (Bool-cases s.tripped) [
        | inl t ↦ rw (e, t, send_step) (u, n ∙ ap one_if t, f)
        | inr t ↦ rw (e, t, send_step) (u, omega (arith, n, ap one_if t), f)
      ]
      | inr e ↦ rw (e, send_step) (u, n, f)
    ]
send_step-Balanced limit others trips tripping s (u, n, f) =
    (u, omega (arith, n, backlogs-append s.notices (backlog ∷ [])), f)
send_step-Balanced limit others trips finished s h = h

next_item-Balanced :
    (others trips unwritten : ℕ) (tripped : Bool) (queue : List Queued) (sink : List ℕ)
    (notices : List Notice)
    → let s : Shared = record {
      unwritten = unwritten;
      tripped = tripped;
      queue = queue;
      sink = sink;
      notices = notices;
      writing = idle;
    } in
      Balanced others trips s → Balanced others trips (next_item queue s)
unfolding next_item
next_item-Balanced others trips unwritten tripped [] sink notices h = h
next_item-Balanced others trips unwritten tripped (message b ∷ items) sink notices (u, n, f) =
    (omega (arith, u), n, f)
next_item-Balanced others trips unwritten tripped (close ∷ items) sink notices (u, n, f) = (u, n, f)

write_step-Balanced :
    (others trips : ℕ) (failure : Option ℕ) (unwritten : ℕ) (tripped : Bool) (queue : List Queued)
    (sink : List ℕ) (notices : List Notice) (writing : Writing)
    → let s : Shared = record {
      unwritten = unwritten;
      tripped = tripped;
      queue = queue;
      sink = sink;
      notices = notices;
      writing = writing;
    } in
      Balanced others trips s → Balanced others trips (write_step failure writing s)
unfolding write_step
write_step-Balanced others trips failure unwritten tripped queue sink notices idle h =
    next_item-Balanced others trips unwritten tripped queue sink notices h
write_step-Balanced others trips none unwritten tripped queue sink notices (holding b)
      (u, n, (bs, e)) =
    (u, n, (bs ++ b ∷ [], ap (◌++ encode b) e ∙ encode_all-snoc bs b))
write_step-Balanced others trips (some k) unwritten tripped queue sink notices (holding b)
      (u, n, (bs, e)) =
    (u, n, (bs, b, k, ap (◌++ take k (encode b)) e))
write_step-Balanced others trips failure unwritten tripped queue sink notices (wrote b true)
      (u, n, f) =
    (omega (arith, u), n, f)
write_step-Balanced others trips failure unwritten tripped queue sink notices (wrote b false)
      (u, n, f) =
    (omega (arith, u), n, f)
write_step-Balanced others trips failure unwritten tripped queue sink notices gave_back (u, n, f) =
    (u, omega (arith, n, backlogs-append notices (write_failed ∷ [])), f)
write_step-Balanced others trips failure unwritten tripped queue sink notices closing h = h
write_step-Balanced others trips failure unwritten tripped queue sink notices reported h = h
write_step-Balanced others trips failure unwritten tripped queue sink notices (stopped ok) h = h

act-IsAccounted : (limit : ℕ) (a : Action) (s : State) → IsAccounted s → IsAccounted (act limit a s)
unfolding act
act-IsAccounted limit (call_send b) s (u, n, f) = (omega (arith, u), omega (arith, n), f)
act-IsAccounted limit call_close s (u, n, f) =
    (omega (arith, u, in_queue-append s.shared.queue (close ∷ [])), n, f)
act-IsAccounted limit (go_send i) s h = elim (Option-cases (get_elem? s.senders i)) [
  | inl e ↦ rw (e, act) h
  | inr (x, e) ↦
      let r = send_step limit x s.shared in
      let others = over in_send (set s.senders i finished) in
      let trips = over in_trip (set s.senders i finished) in
      let split = over-set in_send s.senders i x finished e in
      let split' = over-set in_trip s.senders i x finished e in
      let after : others + in_send r.0 ≡ over in_send (set s.senders i r.0) =
        omega (arith, split, over-set in_send s.senders i x r.0 e) in
      let after' : trips + in_trip r.0 ≡ over in_trip (set s.senders i r.0) =
        omega (arith, split', over-set in_trip s.senders i x r.0 e) in
      let before : others + in_send x ≡ over in_send s.senders = omega (arith, split) in
      let before' : trips + in_trip x ≡ over in_trip s.senders = omega (arith, split') in
      let start =
        subst (λ n. Balanced n (trips + in_trip x) s.shared) (sym before)
          (subst (λ n. Balanced (over in_send s.senders) n s.shared) (sym before') h) in
      rw (e, act)
        (subst (λ n. Balanced n (over in_trip (set s.senders i r.0)) r.1) after
          (subst (λ n. Balanced (others + in_send r.0) n r.1) after'
            (send_step-Balanced limit others trips x s.shared start)))
]
act-IsAccounted limit (go_write failure) s h =
    write_step-Balanced (over in_send s.senders) (over in_trip s.senders) failure s.shared.unwritten
      s.shared.tripped s.shared.queue s.shared.sink s.shared.notices s.shared.writing h

-- Under every interleaving of the calls of `send` and `close` with the writer thread, of which each write
-- succeeds or fails after any number of its bytes, from a state on where this holds: the count is the
-- bytes of the bodies counted and not queued yet, of those in the queue, and of the one being written, so
-- that it never falls below zero; the reports of the guard, sent or about to be, are one if it has
-- tripped, and else none; and the sink holds whole frames, and after a failed write alone it may hold a
-- part of one more.
pub run-IsAccounted :
    (limit : ℕ) (actions : List Action) (s : State)
    → IsAccounted s
    → IsAccounted (run limit actions s)
unfolding run
run-IsAccounted limit [] s h = h
run-IsAccounted limit (a ∷ actions) s h =
    run-IsAccounted limit actions (act limit a s) (act-IsAccounted limit a s h)

pub fresh-IsAccounted : IsAccounted fresh
unfolding encode_all
fresh-IsAccounted = (refl, refl, ([], refl))

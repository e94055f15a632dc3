-- ===== src/Writer/Ordered.antt =====
-- What is written is the stream of the frames of the bodies, in the order in which they were queued.
use matcha.Common.{
  ℕ, ◌≡◌, inl, inr, refl, sym, ap, ◌∙◌, true, false, Option, none, some, List, [], ◌∷◌, ◌++◌, take,
  drop, get_elem?, ltb, if◌then◌else◌, Bool-cases, Option-cases, append_assoc, append-nil, subst,
  take-append-drop,
}
use matcha.Header.{encode}
use matcha.Frame.{default}
use matcha.Frame.Bytes.{encode_all}
use matcha.Frame.Framed.{AllFit}
use matcha.Frame.Stream.{push_all, joined}
use matcha.Frame.Prompt.{encode_all-append, push_all-Prompt, Prompt}
use matcha.Writer.{
  Queued, message, close, Sending, starting, counting, refused, counted, queued, tripping, finished,
  Writing, idle, closing, gave_back, reported, stopped, holding, wrote, Shared, State, is_stopped,
  send_step, next_item, write_step, Action, call_send, call_close, go_send, go_write, act, fresh,
  run,
}
use matcha.Writer.Accounted.{encode_all-snoc}

-- The bodies that a step of a call of `send` queues, and those that a schedule queues, in order.
abbrev pub sends : Sending → Shared → List (List ℕ)
sends (counted b total) s = if is_stopped s.writing then [] else b ∷ []
sends (starting b) s = []
sends (counting b) s = []
sends (refused b) s = []
sends (queued total) s = []
sends finished s = []
sends tripping s = []

abbrev pub queues : Action → State → List (List ℕ)
queues (go_send i) s = elim (get_elem? s.senders i) [ none ↦ [] | some x ↦ sends x s.shared ]
queues (call_send b) s = []
queues call_close s = []
queues (go_write failure) s = []

unfoldable pub queued_in : ℕ → List Action → State → List (List ℕ)
queued_in limit [] s = []
queued_in limit (a ∷ actions) s = queues a s ++ queued_in limit actions (act limit a s)

abbrev bodies : List Queued → List (List ℕ)
bodies [] = []
bodies (message b ∷ items) = b ∷ bodies items
bodies (close ∷ items) = bodies items

bodies-append : (xs ys : List Queued) → bodies (xs ++ ys) ≡ bodies xs ++ bodies ys
bodies-append [] ys = refl
bodies-append (message b ∷ xs) ys = ap (b ∷◌) (bodies-append xs ys)
bodies-append (close ∷ xs) ys = bodies-append xs ys

-- The sink is the beginning of the stream of `log`.
abbrev Begins : List (List ℕ) → List ℕ → Type 0
Begins log sink = (rest : List ℕ) × (sink ++ rest ≡ encode_all log)

-- `log` is what was queued: written, taken or still there.
abbrev Ordered : List (List ℕ) → List Queued → Writing → List ℕ → Type 0
Ordered log queue idle sink =
    (bs : List (List ℕ)) × (log ≡ bs ++ bodies queue) × (sink ≡ encode_all bs)
Ordered log queue (holding b) sink =
    (bs : List (List ℕ)) × (log ≡ bs ++ b ∷ bodies queue) × (sink ≡ encode_all bs)
Ordered log queue (wrote b true) sink =
    (bs : List (List ℕ)) × (log ≡ bs ++ b ∷ bodies queue) × (sink ≡ encode_all (bs ++ b ∷ []))
Ordered log queue (wrote b false) sink =
    (bs : List (List ℕ)) × (n : ℕ) × (log ≡ bs ++ b ∷ bodies queue)
    × (sink ≡ encode_all bs ++ take n (encode b))
Ordered log queue closing sink = Begins log sink
Ordered log queue gave_back sink = Begins log sink
Ordered log queue reported sink = Begins log sink
Ordered log queue (stopped ok) sink = Begins log sink

abbrev IsOrdered : List (List ℕ) → Shared → Type 0
IsOrdered log s = Ordered log s.queue s.writing s.sink

-- In every state, what is in the sink begins the stream.
Ordered-begins :
    (log : List (List ℕ)) (queue : List Queued) (writing : Writing) (sink : List ℕ)
    → Ordered log queue writing sink
    → (rest : List ℕ) × (sink ++ rest ≡ encode_all log)
unfolding encode_all
Ordered-begins log queue idle sink (bs, e, f) = (
  encode_all (bodies queue),
  ap (◌++ encode_all (bodies queue)) f
      ∙ sym (encode_all-append bs (bodies queue))
      ∙ ap encode_all (sym e),
)
Ordered-begins log queue (holding b) sink (bs, e, f) = (
  encode_all (b ∷ bodies queue),
  ap (◌++ encode_all (b ∷ bodies queue)) f
      ∙ sym (encode_all-append bs (b ∷ bodies queue))
      ∙ ap encode_all (sym e),
)
Ordered-begins log queue (wrote b true) sink (bs, e, f) = (
  encode_all (bodies queue),
  ap (◌++ encode_all (bodies queue)) f
      ∙ sym (encode_all-append (bs ++ b ∷ []) (bodies queue))
      ∙ ap encode_all (append_assoc bs (b ∷ []) (bodies queue) ∙ sym e),
)
Ordered-begins log queue (wrote b false) sink (bs, n, e, f) = (
  drop n (encode b) ++ encode_all (bodies queue),
  ap (◌++ (drop n (encode b) ++ encode_all (bodies queue))) f
      ∙ append_assoc (encode_all bs) (take n (encode b)) _
      ∙ ap (encode_all bs ++◌) (
          sym (append_assoc (take n (encode b)) (drop n (encode b)) (encode_all (bodies queue)))
          ∙ ap (◌++ encode_all (bodies queue)) (take-append-drop n (encode b)))
      ∙ sym (encode_all-append bs (b ∷ bodies queue))
      ∙ ap encode_all (sym e),
)
Ordered-begins log queue closing sink h = h
Ordered-begins log queue gave_back sink h = h
Ordered-begins log queue reported sink h = h
Ordered-begins log queue (stopped ok) sink h = h

grew :
    (log bs held : List (List ℕ)) (queue : List Queued) (item : Queued)
    → log ≡ bs ++ (held ++ bodies queue)
    → log ++ bodies (item ∷ []) ≡ bs ++ (held ++ bodies (queue ++ item ∷ []))
grew log bs held queue item e =
    ap (◌++ bodies (item ∷ [])) e
    ∙ append_assoc bs (held ++ bodies queue) (bodies (item ∷ []))
    ∙ ap (bs ++◌) (
        append_assoc held (bodies queue) (bodies (item ∷ []))
        ∙ ap (held ++◌) (sym (bodies-append queue (item ∷ []))))

Begins-grows :
    (log more : List (List ℕ)) (sink : List ℕ) → Begins log sink → Begins (log ++ more) sink
Begins-grows log more sink (rest, e) = (
  rest ++ encode_all more,
  sym (append_assoc sink rest (encode_all more))
      ∙ ap (◌++ encode_all more) e
      ∙ sym (encode_all-append log more),
)

-- Another entry at the end of the queue.
grows :
    (log : List (List ℕ)) (queue : List Queued) (item : Queued) (writing : Writing) (sink : List ℕ)
    → Ordered log queue writing sink
    → Ordered (log ++ bodies (item ∷ [])) (queue ++ item ∷ []) writing sink
grows log queue item idle sink (bs, e, f) = (bs, grew log bs [] queue item e, f)
grows log queue item (holding b) sink (bs, e, f) = (bs, grew log bs (b ∷ []) queue item e, f)
grows log queue item (wrote b true) sink (bs, e, f) = (bs, grew log bs (b ∷ []) queue item e, f)
grows log queue item (wrote b false) sink (bs, k, e, f) =
    (bs, k, grew log bs (b ∷ []) queue item e, f)
grows log queue item closing sink h = Begins-grows log (bodies (item ∷ [])) sink h
grows log queue item gave_back sink h = Begins-grows log (bodies (item ∷ [])) sink h
grows log queue item reported sink h = Begins-grows log (bodies (item ∷ [])) sink h
grows log queue item (stopped ok) sink h = Begins-grows log (bodies (item ∷ [])) sink h

unchanged : (log : List (List ℕ)) (s : Shared) → IsOrdered log s → IsOrdered (log ++ []) s
unchanged log s h = subst (λ l. IsOrdered l s) (sym (append-nil log)) h

send_step-IsOrdered :
    (limit : ℕ) (log : List (List ℕ)) (x : Sending) (s : Shared)
    → IsOrdered log s
    → IsOrdered (log ++ sends x s) (send_step limit x s).1
unfolding send_step
send_step-IsOrdered limit log (starting b) s h = unchanged log s h
send_step-IsOrdered limit log (counting b) s h = unchanged log s h
send_step-IsOrdered limit log (counted b total) s h = elim (Bool-cases (is_stopped s.writing)) [
  | inl e ↦ rw (e, send_step) (unchanged log s h)
  | inr e ↦ rw (e, send_step) (grows log s.queue (message b) s.writing s.sink h)
]
send_step-IsOrdered limit log (refused b) s h = unchanged log s h
send_step-IsOrdered limit log (queued total) s h = elim (Bool-cases (ltb limit total)) [
  | inl e ↦ rw (e, send_step) (unchanged log s h)
  | inr e ↦ rw (e, send_step) (unchanged log s h)
]
send_step-IsOrdered limit log tripping s h = unchanged log s h
send_step-IsOrdered limit log finished s h = unchanged log s h

next_item-Ordered :
    (log : List (List ℕ)) (queue : List Queued) (s : Shared)
    → s.queue ≡ queue
    → s.writing ≡ idle
    → Ordered log queue idle s.sink
    → IsOrdered log (next_item queue s)
unfolding next_item
next_item-Ordered log [] s p q h =
    subst (λ w. Ordered log s.queue w s.sink) (sym q)
      (subst (λ l. Ordered log l idle s.sink) (sym p) h)
next_item-Ordered log (message b ∷ items) s p q h = h
next_item-Ordered log (close ∷ items) s p q h = Ordered-begins log (close ∷ items) idle s.sink h

write_step-IsOrdered :
    (failure : Option ℕ) (log : List (List ℕ)) (writing : Writing) (s : Shared)
    → s.writing ≡ writing
    → Ordered log s.queue writing s.sink
    → IsOrdered log (write_step failure writing s)
unfolding write_step
write_step-IsOrdered failure log idle s p h = next_item-Ordered log s.queue s refl p h
write_step-IsOrdered none log (holding b) s p (bs, e, f) =
    (bs, e, ap (◌++ encode b) f ∙ encode_all-snoc bs b)
write_step-IsOrdered (some k) log (holding b) s p (bs, e, f) =
    (bs, k, e, ap (◌++ take k (encode b)) f)
write_step-IsOrdered failure log (wrote b true) s p (bs, e, f) =
    (bs ++ b ∷ [], e ∙ sym (append_assoc bs (b ∷ []) (bodies s.queue)), f)
write_step-IsOrdered failure log (wrote b false) s p h =
    Ordered-begins log s.queue (wrote b false) s.sink h
write_step-IsOrdered failure log closing s p h = h
write_step-IsOrdered failure log gave_back s p h = h
write_step-IsOrdered failure log reported s p h = h
write_step-IsOrdered failure log (stopped ok) s p h =
    subst (λ w. Ordered log s.queue w s.sink) (sym p) h

act-IsOrdered :
    (limit : ℕ) (log : List (List ℕ)) (a : Action) (s : State)
    → IsOrdered log s.shared
    → IsOrdered (log ++ queues a s) (act limit a s).shared
unfolding act
act-IsOrdered limit log (call_send b) s h = unchanged log s.shared h
act-IsOrdered limit log call_close s h =
    grows log s.shared.queue close s.shared.writing s.shared.sink h
act-IsOrdered limit log (go_send i) s h = elim (Option-cases (get_elem? s.senders i)) [
  | inl e ↦
      let nothing : queues (go_send i) s ≡ [] = rw (e, queues) refl in
      rw (e, act)
        (subst (λ l. IsOrdered (log ++ l) s.shared) (sym nothing) (unchanged log s.shared h))
  | inr (x, e) ↦
      let one : queues (go_send i) s ≡ sends x s.shared = rw (e, queues) refl in
      rw (e, act)
        (subst (λ l. IsOrdered (log ++ l) (send_step limit x s.shared).1) (sym one)
          (send_step-IsOrdered limit log x s.shared h))
]
act-IsOrdered limit log (go_write failure) s h =
    unchanged log (write_step failure s.shared.writing s.shared)
      (write_step-IsOrdered failure log s.shared.writing s.shared refl h)

run-IsOrdered :
    (limit : ℕ) (actions : List Action) (log : List (List ℕ)) (s : State)
    → IsOrdered log s.shared
    → IsOrdered (log ++ queued_in limit actions s) (run limit actions s).shared
unfolding run queued_in
run-IsOrdered limit [] log s h = unchanged log s.shared h
run-IsOrdered limit (a ∷ actions) log s h =
    subst (λ l. IsOrdered l (run limit actions (act limit a s)).shared)
      (append_assoc log (queues a s) (queued_in limit actions (act limit a s)))
      (run-IsOrdered limit actions (log ++ queues a s) (act limit a s)
        (act-IsOrdered limit log a s h))

-- Under every interleaving of the calls of `send` and `close` on a new queue with its writer thread, of
-- which each write succeeds or fails after any number of its bytes: a decoder that has read what is in the
-- sink, in any reads, has delivered the first of the bodies that were queued, in their order, and nothing
-- else; what is left of the bytes is less than the next frame. Bodies are up to the longest decoded.
pub run-Prompt :
    (limit : ℕ) (actions : List Action) (reads : List (List ℕ))
    → AllFit (queued_in limit actions fresh)
    → joined reads ≡ (run limit actions fresh).shared.sink
    → Prompt (queued_in limit actions fresh) (joined reads) (push_all default reads)
unfolding encode_all
run-Prompt limit actions reads k e =
    let s = (run limit actions fresh).shared in
    let log = queued_in limit actions fresh in
    let (rest, f) =
      Ordered-begins log s.queue s.writing s.sink
        (run-IsOrdered limit actions [] fresh ([], refl, refl)) in
    push_all-Prompt log reads rest k (ap (◌++ rest) e ∙ f)

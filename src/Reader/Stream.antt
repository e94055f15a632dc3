-- ===== src/Reader/Stream.antt =====
-- What the reader sends of a stream of frames.
use matcha.Common.{
  ℕ, suc, ◌+◌, ◌≡◌, refl, sym, ap, ap₂, ◌∙◌, true, ◌&&◌, none, some, Option, List, [], ◌∷◌, ◌++◌,
  append_assoc, append-nil, subst, map, Bool-cases, inl, inr, if◌then◌else◌, arith, length,
  length-append,
}
use matcha.Header.{noise}
use matcha.Frame.{Decoder, Item, body, push, default, finish}
use matcha.Frame.Bytes.{encode_all}
use matcha.Frame.Framed.{Place, between, at, owed, Streams, AllFit, Delivers}
use matcha.Frame.Wire.{push-Delivers}
use matcha.Frame.Stream.{AllFit-back}
use matcha.Frame.Prompt.{at_end-default}
use matcha.Shutdown.{Probe, is_shutdown_reply}
use matcha.Reader.{
  Event, message, Notice, replied, ended, Reader, Sent, ReadResult, read_bytes, interrupted, failed,
  deliver, deliver_body, go_on, read_loop, read_end, read, send, notify, flush,
}

-- The bodies forwarded to the client, the first with the number `k` of its load of `closing`.
abbrev pub forwarded : (List ℕ → Option Probe) → Reader → ℕ → List (List ℕ) → List Event
forwarded parse reader k [] = []
forwarded parse reader k (b ∷ bs) =
    let more = forwarded parse reader (suc k) bs in
    if reader.closing k && is_shutdown_reply parse b
    then more
    else message reader.generation b ∷ more

-- The replies to the shutdown request, told to the worker.
abbrev pub replies : (List ℕ → Option Probe) → Reader → ℕ → List (List ℕ) → List Notice
replies parse reader k [] = []
replies parse reader k (b ∷ bs) =
    let more = replies parse reader (suc k) bs in
    if reader.closing k && is_shutdown_reply parse b then replied reader.generation ∷ more else more

abbrev routed : (List ℕ → Option Probe) → Reader → List (List ℕ) → Sent → Sent
routed parse reader bs s = record {
  events = s.events ++ forwarded parse reader s.loads bs;
  notices = s.notices ++ replies parse reader s.loads bs;
  loads = s.loads + length bs;
}

-- The bytes of the reads, and that none of them is the end of the stream.
abbrev pub bytes_of : List ReadResult → List ℕ
bytes_of [] = []
bytes_of (read_bytes cs ∷ reads) = cs ++ bytes_of reads
bytes_of (interrupted ∷ reads) = bytes_of reads
bytes_of (failed ∷ reads) = bytes_of reads

abbrev pub GoesOn : List ReadResult → Type 0
GoesOn [] = Unit
GoesOn (read_bytes [] ∷ reads) = ⊥
GoesOn (read_bytes (c ∷ cs) ∷ reads) = GoesOn reads
GoesOn (interrupted ∷ reads) = GoesOn reads
GoesOn (failed ∷ reads) = ⊥

deliver_body_none :
    (parse : List ℕ → Option Probe) (reader : Reader) (b : List ℕ) (s : Sent)
    → deliver_body parse reader b [] s ≡ ([], routed parse reader (b ∷ []) s)
unfolding deliver_body flush send notify
deliver_body_none parse reader b s =
    let one : s.loads + 1 ≡ suc s.loads = omega arith in
    elim (Bool-cases (reader.closing s.loads && is_shutdown_reply parse b)) [
      | inl e ↦ rw (e, one, append-nil s.events, deliver_body) refl
      | inr e ↦ rw (e, one, append-nil s.notices, deliver_body) refl
    ]

forwarded-append :
    (parse : List ℕ → Option Probe) (reader : Reader) (k : ℕ) (xs ys : List (List ℕ))
    → forwarded parse reader k (xs ++ ys)
      ≡ forwarded parse reader k xs ++ forwarded parse reader (k + length xs) ys
forwarded-append parse reader k [] ys =
    ap (λ n. forwarded parse reader n ys) (let e : k ≡ k + 0 = omega arith in e)
forwarded-append parse reader k (x ∷ xs) ys =
    let next : suc k + length xs ≡ k + suc (length xs) = omega arith in
    let ih =
      forwarded-append parse reader (suc k) xs ys
      ∙ ap (λ n. forwarded parse reader (suc k) xs ++ forwarded parse reader n ys) next in
    elim (Bool-cases (reader.closing k && is_shutdown_reply parse x)) [
      | inl e ↦ rw e ih
      | inr e ↦ rw e (ap (message reader.generation x ∷◌) ih)
    ]

replies-append :
    (parse : List ℕ → Option Probe) (reader : Reader) (k : ℕ) (xs ys : List (List ℕ))
    → replies parse reader k (xs ++ ys)
      ≡ replies parse reader k xs ++ replies parse reader (k + length xs) ys
replies-append parse reader k [] ys =
    ap (λ n. replies parse reader n ys) (let e : k ≡ k + 0 = omega arith in e)
replies-append parse reader k (x ∷ xs) ys =
    let next : suc k + length xs ≡ k + suc (length xs) = omega arith in
    let ih =
      replies-append parse reader (suc k) xs ys
      ∙ ap (λ n. replies parse reader (suc k) xs ++ replies parse reader n ys) next in
    elim (Bool-cases (reader.closing k && is_shutdown_reply parse x)) [
      | inl e ↦ rw e (ap (replied reader.generation ∷◌) ih)
      | inr e ↦ rw e ih
    ]

sent :
    {e e' : List Event} {n n' : List Notice} {l l' : ℕ}
    → e ≡ e'
    → n ≡ n'
    → l ≡ l'
    → ◌≡◌ {A = Sent}
        (record { events = e; notices = n; loads = l })
        (record { events = e'; notices = n'; loads = l' })
sent p q r = λ i. record { events = p i; notices = q i; loads = r i }

routed-append :
    (parse : List ℕ → Option Probe) (reader : Reader) (xs ys : List (List ℕ)) (s : Sent)
    → routed parse reader ys (routed parse reader xs s) ≡ routed parse reader (xs ++ ys) s
routed-append parse reader xs ys s =
    sent
      (append_assoc s.events _ _
        ∙ ap (s.events ++◌) (sym (forwarded-append parse reader s.loads xs ys)))
      (append_assoc s.notices _ _
        ∙ ap (s.notices ++◌) (sym (replies-append parse reader s.loads xs ys)))
      (omega (arith, length-append xs ys))

routed-nil :
    (parse : List ℕ → Option Probe) (reader : Reader) (s : Sent) → routed parse reader [] s ≡ s
routed-nil parse reader s = sent (append-nil s.events) (append-nil s.notices) (omega arith)

-- Bodies alone are delivered one by one.
deliver_bodies :
    (parse : List ℕ → Option Probe) (reader : Reader) (bs : List (List ℕ)) (s : Sent)
    → deliver parse reader (map body bs) [] s ≡ (true, routed parse reader bs s)
unfolding deliver flush
deliver_bodies parse reader [] s = ap (λ t. (true, t)) (sym (routed-nil parse reader s))
deliver_bodies parse reader (b ∷ bs) s =
    ap (λ r. deliver parse reader (map body bs) r.0 r.1) (deliver_body_none parse reader b s)
    ∙ deliver_bodies parse reader bs (routed parse reader (b ∷ []) s)
    ∙ ap (λ t. (true, t)) (routed-append parse reader (b ∷ []) bs s)

-- The reads after one that delivered bodies.
after_push :
    (parse : List ℕ → Option Probe) (reader : Reader) (reads : List ReadResult) (bs : List (List ℕ))
    (r : Option (Decoder × List Item)) (s : Sent)
    → ((p : Place) (s' : Sent)
        → AllFit (owed p)
        → Streams p (bytes_of reads)
        → read_loop parse reader (at p) reads s' ≡ some (default, routed parse reader (owed p) s'))
    → AllFit bs
    → Delivers bs (bytes_of reads) [] r
    → ◌≡◌ {A = Option (Decoder × Sent)}
        (elim r [
          | none ↦ none
          | some (d', items) ↦
              go_on (read_loop parse reader d' reads) d' (deliver parse reader items [] s)
        ])
        (some (default, routed parse reader bs s))
unfolding go_on
after_push parse reader reads bs none s f k w = elim w [ ]
after_push parse reader reads bs (some (d, items)) s f k (done, p, e, g, h, str) =
    ap (λ i. go_on (read_loop parse reader d reads) d (deliver parse reader i [] s)) g
    ∙ ap (go_on (read_loop parse reader d reads) d) (deliver_bodies parse reader done s)
    ∙ ap (λ d'. read_loop parse reader d' reads (routed parse reader done s)) e
    ∙ f p (routed parse reader done s) (AllFit-back done (owed p) (subst AllFit h k)) str
    ∙ ap (λ t. some (default, t))
        (routed-append parse reader done (owed p) s ∙ ap (λ xs. routed parse reader xs s) (sym h))

read_loop-routed :
    (parse : List ℕ → Option Probe) (reader : Reader) (reads : List ReadResult) (p : Place)
    (s : Sent)
    → GoesOn reads
    → AllFit (owed p)
    → Streams p (bytes_of reads)
    → read_loop parse reader (at p) reads s ≡ some (default, routed parse reader (owed p) s)
unfolding read_loop
read_loop-routed parse reader [] p s g k str =
    let (a, b) = at_end-default p str in
    ap₂ (λ d t. some (d, t)) a
      (sym (routed-nil parse reader s) ∙ ap (λ xs. routed parse reader xs s) (sym b))
read_loop-routed parse reader (read_bytes [] ∷ reads) p s g k str = elim g [ ]
read_loop-routed parse reader (read_bytes (c ∷ cs) ∷ reads) p s g k str =
    after_push parse reader reads (owed p) (push (at p) (c ∷ cs)) s
      (λ q s'. read_loop-routed parse reader reads q s' g) k
      (push-Delivers p (c ∷ cs) (bytes_of reads) k str)
read_loop-routed parse reader (interrupted ∷ reads) p s g k str =
    read_loop-routed parse reader reads p s g k str
read_loop-routed parse reader (failed ∷ reads) p s g k str = elim g [ ]

-- A stream of frames of bodies that fit, in any reads that do not end or fail before its end, makes the
-- reader send one message for each body, in order, except that the replies to the shutdown request that
-- come while `closing` is loaded as true are told to the worker instead; then the worker hears of the end.
-- No log line is sent, and `closing` is loaded once for each body.
pub read-encode_all :
    (parse : List ℕ → Option Probe) (reader : Reader) (bs : List (List ℕ)) (reads : List ReadResult)
    → AllFit bs
    → GoesOn reads
    → bytes_of reads ≡ encode_all bs
    → read parse reader reads
      ≡ some (record {
        events = forwarded parse reader 0 bs;
        notices = replies parse reader 0 bs ++ ended reader.generation reader.pipe ∷ [];
        loads = length bs;
      })
unfolding read read_end finish noise notify
read-encode_all parse reader bs reads k g e =
    ap
      (λ (r : Option (Decoder × Sent)). elim r [
        | none ↦ none
        | some (d, s) ↦ some (read_end reader d s)
      ])
      (read_loop-routed parse reader reads (between [] bs)
        (record { events = []; notices = []; loads = 0 }) g k (tt, e))
    ∙ ap some (sent refl refl (omega arith))

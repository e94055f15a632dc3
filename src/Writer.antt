-- ===== src/Writer.antt =====
-- A connection's outgoing queue and its hung-server guard (crates/matcha-lsp/src/transport/writer.rs), as
-- threads that share atomics: each step is one access to them or to the queue, and a schedule says which
-- thread takes the next one. The counter does not overflow. An
-- entry `close` stands also for the drop of the last clone of the writer, which ends the loop the same way.
pub mod Accounted
pub mod Ordered
use matcha.Common.{
  ℕ, zero, suc, ◌+◌, ◌-◌, Bool, true, false, Option, none, some, List, [], ◌∷◌, ◌++◌, length, take,
  get_elem?, set, ltb, if◌then◌else◌,
}
use matcha.Header.{encode}

pub data Queued : Type 0 where
  message : List ℕ → Queued
  close : Queued

pub data Notice : Type 0 where
  backlog write_failed : Notice

-- Where a call of `send` stands.
pub data Sending : Type 0 where
  starting counting refused : List ℕ → Sending
  counted : List ℕ → ℕ → Sending
  queued : ℕ → Sending
  -- It has tripped the guard, and has not told the worker yet.
  tripping finished : Sending

-- Where the writer thread stands: between two items, with a body to write or written, with the close
-- taken, after a failed write whose bytes are given back, and then reported, and last without the
-- receiver of the queue, after the close if the mark is true and else after a failure.
pub data Writing : Type 0 where
  idle closing gave_back reported : Writing
  holding : List ℕ → Writing
  wrote : List ℕ → Bool → Writing
  stopped : Bool → Writing

pub record Shared : Type 0 where
  pub unwritten : ℕ
  pub tripped : Bool
  pub queue : List Queued
  pub sink : List ℕ
  pub notices : List Notice
  pub writing : Writing

pub record State : Type 0 where
  pub shared : Shared
  pub senders : List Sending

-- The receiver is gone, and sending on the queue fails.
abbrev pub is_stopped : Writing → Bool
is_stopped (stopped ok) = true
is_stopped idle = false
is_stopped closing = false
is_stopped gave_back = false
is_stopped reported = false
is_stopped (holding b) = false
is_stopped (wrote b ok) = false

-- `send`, step by step, with the limit of the guard.
unfoldable pub send_step : ℕ → Sending → Shared → Sending × Shared
send_step limit (starting b) s = (if s.tripped then finished else counting b, s)
send_step limit (counting b) s =
    let total = s.unwritten + length b in (counted b total, record s { unwritten = total })
send_step limit (counted b total) s =
    if is_stopped s.writing
    then (refused b, s)
    else (queued total, record s { queue = s.queue ++ message b ∷ [] })
send_step limit (refused b) s = (finished, record s { unwritten = s.unwritten - length b })
send_step limit (queued total) s =
    if ltb limit total
    then (if s.tripped then finished else tripping, record s { tripped = true })
    else (finished, s)
send_step limit tripping s = (finished, record s { notices = s.notices ++ backlog ∷ [] })
send_step limit finished s = (finished, s)

-- The loop of `write`, at the next item of the queue.
unfoldable pub next_item : List Queued → Shared → Shared
next_item [] s = s
next_item (message b ∷ items) s = record s { queue = items; writing = holding b }
next_item (close ∷ items) s = record s { queue = items; writing = closing }

-- One step of `write`. A write that fails has written so many of its bytes.
unfoldable pub write_step : Option ℕ → Writing → Shared → Shared
unfolding next_item
write_step failure idle s = next_item s.queue s
write_step none (holding b) s = record s { sink = s.sink ++ encode b; writing = wrote b true }
write_step (some n) (holding b) s = record s {
  sink = s.sink ++ take n (encode b);
  writing = wrote b false;
}
write_step failure (wrote b true) s = record s {
  unwritten = s.unwritten - length b;
  writing = idle;
}
write_step failure (wrote b false) s = record s {
  unwritten = s.unwritten - length b;
  writing = gave_back;
}
write_step failure gave_back s = record s {
  notices = s.notices ++ write_failed ∷ [];
  writing = reported;
}
write_step failure closing s = record s { writing = stopped true }
write_step failure reported s = record s { writing = stopped false }
write_step failure (stopped ok) s = s

pub data Action : Type 0 where
  -- A thread calls `send`, or `close`; the call of `send` with this number goes on.
  call_send : List ℕ → Action
  call_close : Action
  go_send : ℕ → Action
  go_write : Option ℕ → Action

unfoldable pub act : ℕ → Action → State → State
unfolding send_step write_step
act limit (call_send b) s = record s { senders = starting b ∷ s.senders }
act limit call_close s = record {
  shared = record s.shared { queue = s.shared.queue ++ close ∷ [] };
  senders = s.senders;
}
act limit (go_send i) s = elim (get_elem? s.senders i) [
  | none ↦ s
  | some x ↦
      let (x', shared') = send_step limit x s.shared in
      record { shared = shared'; senders = set s.senders i x' }
]
act limit (go_write failure) s = record s { shared = write_step failure s.shared.writing s.shared }

-- `Writer::new`
abbrev pub fresh : State
fresh = record {
  shared = record {
    unwritten = 0;
    tripped = false;
    queue = [];
    sink = [];
    notices = [];
    writing = idle;
  };
  senders = [];
}

unfoldable pub run : ℕ → List Action → State → State
unfolding act
run limit [] s = s
run limit (a ∷ actions) s = run limit actions (act limit a s)

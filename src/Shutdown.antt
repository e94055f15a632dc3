-- ===== src/Shutdown.antt =====
-- The client half of the LSP shutdown handshake (crates/matcha-lsp/src/transport/lifecycle.rs). An instant
-- and a duration are natural numbers; a link is what was sent on it, in order. The worker acts on the
-- sequence as transport/stdio.rs and transport/socket.rs do.
pub mod Handshakes
use matcha.Common.{
  ◌+◌, ◌++◌, ℕ, Bool, true, false, ◌&&◌, Option, none, some, List, [], ◌∷◌, ◌==◌, leb,
  if◌then◌else◌,
}

-- What serde_json reads of a body: the id when it is a string, and whether there is a method.
pub record Probe : Type 0 where
  pub id : Option (List ℕ)
  pub method : Bool

-- `SHUTDOWN_ID`
abbrev pub shutdown_id : List ℕ
shutdown_id =
    b'm' ∷ b'a' ∷ b't' ∷ b'c' ∷ b'h' ∷ b'a' ∷ b'-' ∷ b'l' ∷ b's' ∷ b'p' ∷ b'/' ∷ b's' ∷ b'h' ∷ b'u'
    ∷ b't' ∷ b'd' ∷ b'o' ∷ b'w' ∷ b'n' ∷ []

unfoldable pub same_text : List ℕ → List ℕ → Bool
same_text [] [] = true
same_text [] (d ∷ ds) = false
same_text (c ∷ cs) [] = false
same_text (c ∷ cs) (d ∷ ds) = (c == d) && same_text cs ds

unfoldable pub reserved_id : Option (List ℕ) → Bool
unfolding same_text
reserved_id none = false
reserved_id (some text) = same_text text shutdown_id

-- `is_shutdown_reply`, with `parse` what serde_json makes of the body.
unfoldable pub is_shutdown_reply : (List ℕ → Option Probe) → List ℕ → Bool
unfolding reserved_id
is_shutdown_reply parse body = elim (parse body) [
  | none ↦ false
  | some probe ↦ elim probe.method [ true ↦ false | false ↦ reserved_id probe.id ]
]

pub data Handshake : Type 0 where
  done pending : Handshake

-- What is sent on a link here.
pub data Sent : Type 0 where
  shutdown_request exit_notification close_input : Sent

pub data Step : Type 0 where
  reply_until exit_until : ℕ → Step

pub data Next : Type 0 where
  wait kill : Next

-- A sequence with its link.
pub record Sequence : Type 0 where
  pub step : Step
  pub link : List Sent

unfoldable pub leave : List Sent → ℕ → ℕ → Sequence
leave link grace now = record {
  step = exit_until (now + grace);
  link = link ++ exit_notification ∷ close_input ∷ [];
}

unfoldable pub begin : List Sent → Handshake → ℕ → ℕ → Sequence
unfolding leave
begin link done grace now = record {
  step = reply_until (now + grace);
  link = link ++ shutdown_request ∷ [];
}
begin link pending grace now = leave link grace now

unfoldable pub on_reply : Step → List Sent → ℕ → ℕ → Sequence
unfolding leave
on_reply (reply_until t) link grace now = leave link grace now
on_reply (exit_until t) link grace now = record { step = exit_until t; link = link }

unfoldable pub on_expiry : Step → List Sent → ℕ → ℕ → Next × Sequence
unfolding leave
on_expiry (reply_until t) link grace now = (wait, leave link grace now)
on_expiry (exit_until t) link grace now = (kill, record { step = exit_until t; link = link })

abbrev pub until : Step → ℕ
until (reply_until t) = t
until (exit_until t) = t

-- What the worker sees: the reply, or a server that is still there, at an instant.
pub data Signal : Type 0 where
  replied polled : ℕ → Signal

-- The worker in `State::Closing`, and after it has killed the server.
pub data Worker : Type 0 where
  closing : Step → List Sent → Worker
  killed : List Sent → Worker

-- What follows the answer of `expired`.
unfoldable pub act_on : Next × Sequence → Worker
act_on (wait, s) = closing s.step s.link
act_on (kill, s) = killed s.link

unfoldable pub worker_step : ℕ → Signal → Worker → Worker
unfolding on_reply on_expiry act_on
worker_step grace (replied now) (closing step link) = act_on (wait, on_reply step link grace now)
worker_step grace (polled now) (closing step link) =
    if leb (until step) now then act_on (on_expiry step link grace now) else closing step link
worker_step grace x (killed link) = killed link

unfoldable pub worker_run : ℕ → List Signal → Worker → Worker
unfolding worker_step
worker_run grace [] w = w
worker_run grace (x ∷ signals) w = worker_run grace signals (worker_step grace x w)

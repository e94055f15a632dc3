-- ===== src/Reader.antt =====
-- The reader of a connection's byte stream (crates/matcha-lsp/src/transport/reader.rs). The stream is the
-- list of what its reads return, and ends with the list. What the two channels were sent is in the state;
-- `closing` says what each load of the flag sees, by its number. serde_json is the parameter `parse`.
pub mod Stream
use matcha.Common.{
  ℕ, zero, suc, ◌+◌, Bool, true, false, ◌&&◌, Option, none, some, List, [], ◌∷◌, ◌++◌,
  if◌then◌else◌,
}
use matcha.Shutdown.{Probe, is_shutdown_reply}
use matcha.Frame.{Decoder, Item, body, noise_line, skipped, corrupted, default, push, finish}

pub data Pipe : Type 0 where
  stdout stderr socket : Pipe

-- An entry's source and text; its level is LOG, and it is not shown.
pub record Entry : Type 0 where
  pub source : Pipe
  pub text : List ℕ

-- `Pipe::noise`
unfoldable pub noise_entry : Pipe → List ℕ → Entry
noise_entry stdout text = record { source = stdout; text = text }
noise_entry stderr text = record { source = stderr; text = text }
noise_entry socket text = record { source = socket; text = text }

pub data Event : Type 0 where
  log : List Entry → Event
  message : ℕ → List ℕ → Event
  oversized : ℕ → ℕ → Event

pub data Notice : Type 0 where
  replied : ℕ → Notice
  ended : ℕ → Pipe → Notice

pub record Reader : Type 0 where
  pub generation : ℕ
  pub pipe : Pipe
  pub closing : ℕ → Bool

-- What was sent, and how often `closing` was loaded.
pub record Sent : Type 0 where
  pub events : List Event
  pub notices : List Notice
  pub loads : ℕ

pub data ReadResult : Type 0 where
  read_bytes : List ℕ → ReadResult
  interrupted failed : ReadResult

unfoldable pub send : Event → Sent → Sent
send event s = record s { events = s.events ++ event ∷ [] }

unfoldable pub notify : Notice → Sent → Sent
notify notice s = record s { notices = s.notices ++ notice ∷ [] }

unfoldable pub flush : List Entry → Sent → Sent
unfolding send
flush [] s = s
flush (e ∷ es) s = send (log (e ∷ es)) s

abbrev pub loaded : Sent → Sent
loaded s = record s { loads = suc s.loads }

-- `deliver` on one item that is no noise and no corruption: the noise that is left, and what was sent.
unfoldable pub deliver_body :
    (List ℕ → Option Probe) → Reader → List ℕ → List Entry → Sent → List Entry × Sent
unfolding send notify flush is_shutdown_reply
deliver_body parse reader b noise s =
    if reader.closing s.loads && is_shutdown_reply parse b
    then (noise, notify (replied reader.generation) (loaded s))
    else ([], send (message reader.generation b) (flush noise (loaded s)))

-- `deliver`, with `noise` the batch so far; false once the stream is corrupt.
unfoldable pub deliver :
    (List ℕ → Option Probe) → Reader → List Item → List Entry → Sent → Bool × Sent
unfolding deliver_body send flush noise_entry
deliver parse reader [] noise s = (true, flush noise s)
deliver parse reader (noise_line text ∷ items) noise s =
    deliver parse reader items (noise ++ noise_entry reader.pipe text ∷ []) s
deliver parse reader (body b ∷ items) noise s =
    let (noise', s') = deliver_body parse reader b noise s in deliver parse reader items noise' s'
deliver parse reader (skipped n ∷ items) noise s =
    deliver parse reader items [] (send (oversized reader.generation n) (flush noise s))
deliver parse reader (corrupted n ∷ items) noise s =
    (false, send (oversized reader.generation n) (flush noise s))

unfoldable pub go_on :
    (Sent → Option (Decoder × Sent)) → Decoder → Bool × Sent → Option (Decoder × Sent)
go_on loop d (true, s) = loop s
go_on loop d (false, s) = some (d, s)

-- The loop of `read`.
unfoldable pub read_loop :
    (List ℕ → Option Probe) → Reader → Decoder → List ReadResult → Sent → Option (Decoder × Sent)
unfolding push deliver go_on
read_loop parse reader d [] s = some (d, s)
read_loop parse reader d (interrupted ∷ reads) s = read_loop parse reader d reads s
read_loop parse reader d (failed ∷ reads) s = some (d, s)
read_loop parse reader d (read_bytes [] ∷ reads) s = some (d, s)
read_loop parse reader d (read_bytes (c ∷ cs) ∷ reads) s = elim (push d (c ∷ cs)) [
  | none ↦ none
  | some (d', items) ↦ go_on (read_loop parse reader d' reads) d' (deliver parse reader items [] s)
]

-- What `read` does at the end of the stream.
unfoldable pub read_end : Reader → Decoder → Sent → Sent
unfolding finish send notify noise_entry
read_end reader d s = elim (finish d) [
  | none ↦ notify (ended reader.generation reader.pipe) s
  | some line ↦
      notify (ended reader.generation reader.pipe)
        (send (log (noise_entry reader.pipe line ∷ [])) s)
]

unfoldable pub read : (List ℕ → Option Probe) → Reader → List ReadResult → Option Sent
unfolding read_loop read_end
read parse reader reads =
    elim (read_loop parse reader default reads (record { events = []; notices = []; loads = 0 })) [
      | none ↦ none
      | some (d, s) ↦ some (read_end reader d s)
    ]

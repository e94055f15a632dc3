-- ===== src/Tests/Frames.antt =====
-- Frames and reads on small streams.
use matcha.Common.{ℕ, ◌≡◌, refl, false, none, some, Option, List, [], ◌∷◌, ◌++◌, map, arith, ltb}
use matcha.Header.{encode, length_line}
use matcha.Frame.{body, noise_line, default, push}
use matcha.Frame.Bytes.{encode_all}
use matcha.Frame.Framed.{AllFit}
use matcha.Frame.Stream.{push_all, joined}
use matcha.Frame.Prompt.{push_all-Prompt, push_all-encode_all, Prompt}
use matcha.Shutdown.{Probe, shutdown_id, is_shutdown_reply}
use matcha.Reader.{
  Reader, stdout, read, read_bytes, interrupted, ReadResult, message, ended, replied, log,
  oversized,
}
use matcha.Reader.Stream.{read-encode_all}

abbrev bodies : List (List ℕ)
bodies = (b'h' ∷ b'i' ∷ []) ∷ [] ∷ (b'!' ∷ []) ∷ []

-- A server's banner, then a frame, in two reads.
banner :
    push_all default ((b'o' ∷ b'k' ∷ 10 ∷ b'c' ∷ []) ∷ (b'o' ∷ 10 ∷ []) ∷ encode (b'x' ∷ []) ∷ [])
    ≡ some (
      default,
      noise_line (b'o' ∷ b'k' ∷ []) ∷ noise_line (b'c' ∷ b'o' ∷ []) ∷ body (b'x' ∷ []) ∷ [],
    )
unfolding push_all encode push
banner = refl

bodies-AllFit : AllFit bodies
bodies-AllFit = (omega arith, (omega arith, (omega arith, tt)))

-- The stream of the three bodies, cut inside the first header and inside the first body.
abbrev cut : List (List ℕ)
cut =
    (b'C' ∷ b'o' ∷ b'n' ∷ [])
    ∷ (b't' ∷ b'e' ∷ b'n' ∷ b't' ∷ b'-' ∷ b'L' ∷ b'e' ∷ b'n' ∷ b'g' ∷ b't' ∷ b'h' ∷ b':' ∷ b' '
        ∷ b'2' ∷ 13 ∷ 10 ∷ 13 ∷ 10 ∷ b'h' ∷ [])
    ∷ (b'i' ∷ [])
    ∷ []

abbrev rest_of : List ℕ
rest_of = encode [] ++ encode (b'!' ∷ [])

push_all-Prompt_example : Prompt bodies (joined cut) (push_all default cut)
unfolding encode_all encode
push_all-Prompt_example = push_all-Prompt bodies cut rest_of bodies-AllFit refl

push_all-encode_all_example :
    push_all default (cut ++ rest_of ∷ []) ≡ some (default, map body bodies)
unfolding encode_all encode
push_all-encode_all_example = push_all-encode_all bodies (cut ++ rest_of ∷ []) bodies-AllFit refl

-- The reader of a server's stdout while it closes, from the second body on.
abbrev closing_reader : Reader
closing_reader = record { generation = 7; pipe = stdout; closing = ltb 0 }

-- The empty body stands for the reply.
unfoldable parse_empty : List ℕ → Option Probe
parse_empty [] = some (record { id = some shutdown_id; method = false })
parse_empty (c ∷ cs) = none

abbrev chunks : List ReadResult
chunks = read_bytes (joined cut) ∷ interrupted ∷ read_bytes rest_of ∷ []

read-encode_all_example :
    read parse_empty closing_reader chunks
    ≡ some (record {
      events = message 7 (b'h' ∷ b'i' ∷ []) ∷ message 7 (b'!' ∷ []) ∷ [];
      notices = replied 7 ∷ ended 7 stdout ∷ [];
      loads = 3;
    })
unfolding encode_all encode parse_empty is_shutdown_reply
read-encode_all_example =
    read-encode_all parse_empty closing_reader bodies chunks bodies-AllFit tt refl

-- A length above the limits ends the reading, and the frame after it is not delivered.
corrupt_length :
    read parse_empty closing_reader
      (read_bytes (length_line 2000000000 ++ 13 ∷ 10 ∷ 13 ∷ 10 ∷ encode []) ∷ [])
    ≡ some
        (record { events = oversized 7 2000000000 ∷ []; notices = ended 7 stdout ∷ []; loads = 0 })
unfolding read encode
corrupt_length = refl

-- Noise is one batch for each read.
noise_batches :
    read parse_empty closing_reader (read_bytes (b'a' ∷ 10 ∷ b'b' ∷ 10 ∷ b'c' ∷ []) ∷ [])
    ≡ some (record {
      events =
          log (
            record { source = stdout; text = b'a' ∷ [] }
            ∷ record { source = stdout; text = b'b' ∷ [] }
            ∷ [])
          ∷ log (record { source = stdout; text = b'c' ∷ [] } ∷ [])
          ∷ [];
      notices = ended 7 stdout ∷ [];
      loads = 0;
    })
unfolding read
noise_batches = refl

-- ===== src/Server/Sse.antt =====
-- piqo-server/src/supervisor.rs: how the byte stream of a provider is cut into server-sent events: the
-- search for the end of a frame and the loop that takes frames off the buffer. What is done with a frame
-- is not part of it. A byte is a number below 256.
pub mod Delimiters
pub mod Chunks
use piqo_server.Prelude.{
  ℕ, zero, suc, ◌+◌, Bool, true, false, ◌&&◌, Option, none, some, List, [], ◌∷◌, ◌++◌, drop, length,
  ltb, ◌==◌, if◌then◌else◌,
}

abbrev pub Byte : Type 0
Byte = ℕ

abbrev pub lf_lf : List Byte
lf_lf = 10 ∷ 10 ∷ []

abbrev pub crlf_crlf : List Byte
crlf_crlf = 13 ∷ 10 ∷ 13 ∷ 10 ∷ []

-- a window of the pattern's length that equals the pattern
abbrev pub starts_with : List Byte → List Byte → Bool
starts_with [] buffer = true
starts_with (p ∷ pattern_) [] = false
starts_with (p ∷ pattern_) (b ∷ buffer) = (b == p) && starts_with pattern_ buffer

abbrev pub next : Option ℕ → Option ℕ
next none = none
next (some i) = some (i + 1)

-- `windows(n).position(|window| window == pattern)`
unfoldable pub position : List Byte → List Byte → Option ℕ
position pattern_ [] = none
position pattern_ (b ∷ buffer) =
    let rest = position pattern_ buffer in
    if starts_with pattern_ (b ∷ buffer) then some 0 else next rest

-- the `match (lf, crlf)`
unfoldable pub earlier : Option ℕ → Option ℕ → Option (ℕ × ℕ)
earlier (some lf) (some crlf) = if ltb crlf lf then some (crlf, 4) else some (lf, 2)
earlier (some lf) none = some (lf, 2)
earlier none (some crlf) = some (crlf, 4)
earlier none none = none

unfoldable pub find_sse_frame_end : List Byte → Option (ℕ × ℕ)
unfolding position earlier
find_sse_frame_end buffer = earlier (position lf_lf buffer) (position crlf_crlf buffer)

-- `buffer[..n]`
abbrev pub take : ℕ → List Byte → List Byte
take zero buffer = []
take (suc n) [] = []
take (suc n) (b ∷ buffer) = b ∷ take n buffer

-- What reading a stream has come to: what was made of the frames, the bytes that are left, and whether the
-- loop goes on or a frame has made it break.
pub record Reading (S : Type 0) : Type 0 where
  pub state : S
  pub buffer : List Byte
  pub goes_on : Bool

-- `handle` is what the loop's body does with a frame that it has taken off: it parses the frame and
-- persists its deltas, and answers whether the loop goes on (not after invalid UTF-8, an error of the
-- parser or of the store, or a tool call that requires action).
module _ {S : Type 0} (handle : S → List Byte → S × Bool) where
  -- the loop `while let Some(…) = find_sse_frame_end(&buffer)`
  unfoldable pub drain_frames : ℕ → S → List Byte → Reading S
  unfolding find_sse_frame_end
  drain_frames zero state buffer = record { state = state; buffer = buffer; goes_on = true }
  drain_frames (suc fuel) state buffer = elim (find_sse_frame_end buffer) [
    | none ↦ record { state = state; buffer = buffer; goes_on = true }
    | some (index, delimiter_len) ↦
        let (after, goes_on) = handle state (take index buffer) in
        let left = drop (index + delimiter_len) buffer in
        let rest = drain_frames fuel after left in
        if goes_on then rest else record { state = after; buffer = left; goes_on = false }
  ]

  -- each pass takes two bytes at least, so the buffer's length is fuel enough
  unfoldable pub read_frames : S → List Byte → Reading S
  unfolding drain_frames
  read_frames state buffer = drain_frames (length buffer) state buffer

  -- a chunk that arrives goes on top of the buffer, unless the loop over the chunks has ended
  unfoldable pub read_chunk : Reading S → List Byte → Reading S
  unfolding read_frames
  read_chunk reading chunk =
      if reading.goes_on then read_frames reading.state (reading.buffer ++ chunk) else reading

-- ===== src/Tests/Streams.antt =====
-- A stream of two frames, cut within a delimiter: "A", LF LF, "B", CR LF CR LF, "C".
use piqo_server.Prelude.{
  ℕ, ◌<◌, ◌≡◌, refl, List, [], ◌∷◌, ◌++◌, drop, ◌≤◌, length, Bool, not, ◌&&◌, true, false, arith,
}
use piqo_server.Server.Truncation.{truncate_utf8, is_char_boundary, upto}
use piqo_server.Server.Truncation.Longest.{truncate_utf8-longest}
use piqo_server.Server.Sse.{
  Byte, starts_with, find_sse_frame_end, read_frames, read_chunk, drain_frames,
}
use piqo_server.Server.Sse.Delimiters.{Delimiter, NoDelimiter, find_sse_frame_end-first}
use piqo_server.Server.Sse.Chunks.{Agree, read_frames-append, read_frames-rest}

abbrev first_chunk : List Byte
first_chunk = 65 ∷ 10 ∷ 10 ∷ 66 ∷ 13 ∷ 10 ∷ []

abbrev second_chunk : List Byte
second_chunk = 13 ∷ 10 ∷ 67 ∷ []

-- keeps the frames, and breaks at a frame "B" if it is to
abbrev keep : Bool → List (List Byte) → List Byte → List (List Byte) × Bool
keep breaks frames frame = (frames ++ frame ∷ [], not (breaks && starts_with (66 ∷ []) frame))

frames_run :
    read_frames (keep false) [] (first_chunk ++ second_chunk)
    ≡ record { state = (65 ∷ []) ∷ (66 ∷ []) ∷ []; buffer = 67 ∷ []; goes_on = true }
unfolding read_frames drain_frames find_sse_frame_end
frames_run = refl

broken_run : read_frames (keep true) [] (first_chunk ++ second_chunk ++ second_chunk) ≡ record {
  state = (65 ∷ []) ∷ (66 ∷ []) ∷ [];
  buffer = 67 ∷ 13 ∷ 10 ∷ 67 ∷ [];
  goes_on = false;
}
unfolding read_frames drain_frames find_sse_frame_end
broken_run = refl

read_frames-append_example :
    Agree
      (keep true)
      (read_frames (keep true) [] (first_chunk ++ second_chunk))
      (read_chunk (keep true) (read_frames (keep true) [] first_chunk) second_chunk)
read_frames-append_example = read_frames-append (keep true) [] first_chunk second_chunk

read_frames-rest_example : NoDelimiter (drop 0 (read_frames (keep false) [] first_chunk).buffer)
unfolding read_frames drain_frames find_sse_frame_end
read_frames-rest_example = read_frames-rest (keep false) [] first_chunk 0 refl

find_sse_frame_end-first_example :
    Delimiter 2 (drop 1 first_chunk) × ((j : ℕ) → j < 1 → NoDelimiter (drop j first_chunk))
unfolding find_sse_frame_end
find_sse_frame_end-first_example = find_sse_frame_end-first first_chunk {i = 1} {n = 2} refl

-- "a", then a character of three bytes, cut at three bytes
abbrev euro : List ℕ
euro = 97 ∷ 226 ∷ 130 ∷ 172 ∷ []

truncate_run : truncate_utf8 euro 3 ≡ (97 ∷ [], true)
unfolding truncate_utf8 is_char_boundary
truncate_run = refl

truncate_utf8-longest_example :
    (end : ℕ) × (truncate_utf8 euro 3 ≡ (upto end euro, true))
    × (upto end euro ++ drop end euro ≡ euro)
    × (length (upto end euro) ≡ end)
    × (end ≤ 3)
    × (is_char_boundary end euro ≡ true)
    × ((k : ℕ) → end < k → k ≤ 3 → is_char_boundary k euro ≡ false)
truncate_utf8-longest_example = truncate_utf8-longest euro 3 (omega arith)

-- ===== src/Server/Sse/Delimiters.antt =====
-- The end of a frame is the first delimiter of the buffer.
use piqo_server.Prelude.{
  ℕ, zero, suc, ◌+◌, ◌<◌, true, false, ◌≡◌, refl, ap, ◌⊎◌, inl, inr, Bool-cases, Option, none, some,
  List, [], ◌∷◌, drop, if◌then◌else◌, arith,
}
use piqo_server.Server.Sse.{
  Byte, lf_lf, crlf_crlf, starts_with, next, position, earlier, find_sse_frame_end,
}

-- a frame's end found one byte further on
abbrev pub shift : Option (ℕ × ℕ) → Option (ℕ × ℕ)
shift none = none
shift (some (i, n)) = some (i + 1, n)

earlier-next : (lf crlf : Option ℕ) → earlier (next lf) (next crlf) ≡ shift (earlier lf crlf)
unfolding earlier
earlier-next lf crlf = ground arith

earlier-next-zero : (lf : Option ℕ) → earlier (next lf) (some 0) ≡ some (0, 4)
unfolding earlier
earlier-next-zero lf = ground arith

earlier-zero : (crlf : Option ℕ) → earlier (some 0) crlf ≡ some (0, 2)
unfolding earlier
earlier-zero crlf = ground arith

-- The search looks at one position after the other, and ends at the first one where a delimiter
-- starts.
pub find_sse_frame_end-cons :
    (b : Byte) (buffer : List Byte)
    → find_sse_frame_end (b ∷ buffer) ≡ (
        if starts_with lf_lf (b ∷ buffer)
        then some (0, 2)
        else if starts_with crlf_crlf (b ∷ buffer)
        then some (0, 4)
        else shift (find_sse_frame_end buffer))
unfolding find_sse_frame_end position
find_sse_frame_end-cons b buffer =
    let lf = position lf_lf buffer in
    let crlf = position crlf_crlf buffer in
    elim (Bool-cases (starts_with lf_lf (b ∷ buffer))) [
      | inl at_lf ↦ rw at_lf (earlier-zero (position crlf_crlf (b ∷ buffer)))
      | inr not_lf ↦ elim (Bool-cases (starts_with crlf_crlf (b ∷ buffer))) [
        | inl at_crlf ↦ rw (not_lf, at_crlf) (earlier-next-zero lf)
        | inr not_crlf ↦ rw (not_lf, not_crlf) (earlier-next lf crlf)
      ]
    ]

-- no delimiter starts at the buffer's first byte
abbrev pub NoDelimiter : List Byte → Type 0
NoDelimiter buffer = (starts_with lf_lf buffer ≡ false) × (starts_with crlf_crlf buffer ≡ false)

-- a delimiter of `n` bytes starts at the buffer's first byte
abbrev pub Delimiter : ℕ → List Byte → Type 0
Delimiter n buffer =
    ((n ≡ 2) × (starts_with lf_lf buffer ≡ true))
    ⊎ ((n ≡ 4) × (starts_with crlf_crlf buffer ≡ true))

pub shift-eq-some :
    (r : Option (ℕ × ℕ)) {i n : ℕ}
    → shift r ≡ some (i, n)
    → (k : ℕ) × (r ≡ some (k, n)) × (suc k ≡ i)
shift-eq-some none h = absurd (cc)
shift-eq-some (some (k, m)) {i = i} {n = n} h =
    let pair : ◌≡◌ {A = ℕ × ℕ} (k + 1, m) (i, n) = cc in
    let len : m ≡ n = ap (λ (p : ℕ × ℕ). p.1) pair in
    (k, rw len refl, omega (arith, ap (λ (p : ℕ × ℕ). p.0) pair))

-- the first delimiter starts at `i` and has `n` bytes
abbrev pub IsFirst : List Byte → ℕ → ℕ → Type 0
IsFirst buffer i n = Delimiter n (drop i buffer) × ((j : ℕ) → j < i → NoDelimiter (drop j buffer))

start-IsFirst :
    (buffer : List Byte) {m i n : ℕ}
    → ◌≡◌ {A = Option (ℕ × ℕ)} (some (0, m)) (some (i, n))
    → Delimiter m buffer
    → IsFirst buffer i n
start-IsFirst buffer {m = m} {i = i} {n = n} h d =
    let pair : ◌≡◌ {A = ℕ × ℕ} (0, m) (i, n) = cc in
    let start : 0 ≡ i = ap (λ (p : ℕ × ℕ). p.0) pair in
    let size : m ≡ n = ap (λ (p : ℕ × ℕ). p.1) pair in
    rw (← start, ← size) (d, λ j lt. absurd (omega arith))

later-IsFirst :
    (b : Byte) (buffer : List Byte) (i n : ℕ)
    → NoDelimiter (b ∷ buffer)
    → IsFirst buffer i n
    → IsFirst (b ∷ buffer) (suc i) n
later-IsFirst b buffer i n not_here first = (first.0, go)
  where
    go : (j : ℕ) → j < suc i → NoDelimiter (drop j (b ∷ buffer))
    go zero lt = not_here
    go (suc j) lt = first.1 j (omega arith)

-- The frame's end that is found is a delimiter of the length that is returned, and no delimiter starts
-- before it.
pub find_sse_frame_end-first :
    (buffer : List Byte) {i n : ℕ}
    → find_sse_frame_end buffer ≡ some (i, n)
    → Delimiter n (drop i buffer) × ((j : ℕ) → j < i → NoDelimiter (drop j buffer))
unfolding find_sse_frame_end position earlier
find_sse_frame_end-first [] h = absurd (cc)
find_sse_frame_end-first (b ∷ buffer) {i = i} {n = n} h =
    elim (Bool-cases (starts_with lf_lf (b ∷ buffer))) [
      | inl at_lf ↦
          start-IsFirst (b ∷ buffer) (rw (find_sse_frame_end-cons b buffer, at_lf) at h)
            (inl (refl, at_lf))
      | inr not_lf ↦ elim (Bool-cases (starts_with crlf_crlf (b ∷ buffer))) [
        | inl at_crlf ↦
            start-IsFirst (b ∷ buffer) (rw (find_sse_frame_end-cons b buffer, not_lf, at_crlf) at h)
              (inr (refl, at_crlf))
        | inr not_crlf ↦
            let (k, found, here) =
              shift-eq-some (find_sse_frame_end buffer)
                (rw (find_sse_frame_end-cons b buffer, not_lf, not_crlf) at h) in
            rw (← here) (
              later-IsFirst b buffer k n (not_lf, not_crlf) (find_sse_frame_end-first buffer found))
      ]
    ]

-- Where no frame's end is found, no delimiter starts anywhere.
pub find_sse_frame_end-none :
    (buffer : List Byte) → find_sse_frame_end buffer ≡ none → (j : ℕ) → NoDelimiter (drop j buffer)
find_sse_frame_end-none [] h zero = (refl, refl)
find_sse_frame_end-none [] h (suc j) = (refl, refl)
find_sse_frame_end-none (b ∷ buffer) h zero = ground (arith, find_sse_frame_end-cons b buffer)
find_sse_frame_end-none (b ∷ buffer) h (suc j) =
    find_sse_frame_end-none buffer (ground (arith, find_sse_frame_end-cons b buffer)) j

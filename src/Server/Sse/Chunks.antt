-- ===== src/Server/Sse/Chunks.antt =====
-- How a stream is cut into chunks does not change what is made of its frames.
use piqo_server.Prelude.{
  ℕ, zero, suc, ◌+◌, ◌-◌, ◌≤◌, Bool, true, false, if◌then◌else◌, ◌≡◌, refl, sym, ap, ◌∙◌, inl, inr,
  Bool-cases, Option-cases, none, some, List, [], ◌∷◌, ◌++◌, drop, length, arith,
}
use piqo_server.Server.Sse.{
  Byte, lf_lf, crlf_crlf, starts_with, position, earlier, find_sse_frame_end, take, Reading,
  drain_frames, read_frames, read_chunk,
}
use piqo_server.Server.Sse.Delimiters.{
  shift-eq-some, find_sse_frame_end-cons, find_sse_frame_end-first, find_sse_frame_end-none,
  NoDelimiter,
}

-- A delimiter that starts a buffer starts every longer one; a later one tells that none starts here.
starts_with-append :
    (pattern_ b c : List Byte)
    → starts_with pattern_ b ≡ true
    → starts_with pattern_ (b ++ c) ≡ true
starts_with-append [] b c h = refl
starts_with-append (p ∷ pattern_) [] c h = absurd (cc)
starts_with-append (p ∷ pattern_) (x ∷ b) c h = ground (arith, starts_with-append pattern_ b c)

-- with a delimiter further on, there are bytes enough to see that none starts here
starts_with-before :
    (x : Byte) (b c : List Byte) {r : ℕ × ℕ}
    → find_sse_frame_end b ≡ some r
    → starts_with lf_lf (x ∷ b) ≡ false
    → starts_with crlf_crlf (x ∷ b) ≡ false
    → (starts_with lf_lf (x ∷ b ++ c) ≡ false) × (starts_with crlf_crlf (x ∷ b ++ c) ≡ false)
unfolding find_sse_frame_end position earlier
starts_with-before x [] c h n m = absurd (cc)
starts_with-before x (y ∷ []) c h n m = ground arith
starts_with-before x (y ∷ z ∷ []) c h n m = ground arith
starts_with-before x (y ∷ z ∷ w ∷ b) c h n m = (n, m)

crlf_not_lf : (b : List Byte) → starts_with crlf_crlf b ≡ true → starts_with lf_lf b ≡ false
crlf_not_lf [] h = refl
crlf_not_lf (x ∷ b) h = ground arith

-- A frame's end that is found stays where it is when more bytes arrive.
pub find_sse_frame_end-append :
    (b c : List Byte) {i n : ℕ}
    → find_sse_frame_end b ≡ some (i, n)
    → find_sse_frame_end (b ++ c) ≡ some (i, n)
unfolding find_sse_frame_end position earlier
find_sse_frame_end-append [] c h = absurd (cc)
find_sse_frame_end-append (x ∷ b) c {i = i} {n = n} h =
    elim (Bool-cases (starts_with lf_lf (x ∷ b))) [
      | inl at_lf ↦
          rw (find_sse_frame_end-cons x (b ++ c), starts_with-append lf_lf (x ∷ b) c at_lf)
            (rw (find_sse_frame_end-cons x b, at_lf) at h)
      | inr not_lf ↦ elim (Bool-cases (starts_with crlf_crlf (x ∷ b))) [
        | inl at_crlf ↦
            let longer = starts_with-append crlf_crlf (x ∷ b) c at_crlf in
            rw (find_sse_frame_end-cons x (b ++ c), crlf_not_lf (x ∷ b ++ c) longer, longer)
              (rw (find_sse_frame_end-cons x b, not_lf, at_crlf) at h)
        | inr not_crlf ↦
            let (k, found, here) =
              shift-eq-some (find_sse_frame_end b)
                (rw (find_sse_frame_end-cons x b, not_lf, not_crlf) at h) in
            let apart = starts_with-before x b c found not_lf not_crlf in
            rw
              (
                find_sse_frame_end-cons x (b ++ c),
                apart.0,
                apart.1,
                find_sse_frame_end-append b c found,
              )
              (ap (λ (m : ℕ). some (m, n)) (omega arith))
      ]
    ]

drop-append : (k : ℕ) (b c : List Byte) → k ≤ length b → drop k (b ++ c) ≡ drop k b ++ c
drop-append zero b c h = refl
drop-append (suc k) [] c h = absurd (omega arith)
drop-append (suc k) (x ∷ b) c h = drop-append k b c (omega arith)

take-append : (k : ℕ) (b c : List Byte) → k ≤ length b → take k (b ++ c) ≡ take k b
take-append zero b c h = refl
take-append (suc k) [] c h = absurd (omega arith)
take-append (suc k) (x ∷ b) c h = ap (λ (l : List Byte). x ∷ l) (take-append k b c (omega arith))

length-drop : (k : ℕ) (b : List Byte) → length (drop k b) ≡ length b - k
length-drop zero b = omega arith
length-drop (suc k) [] = omega arith
length-drop (suc k) (x ∷ b) = omega (arith, length-drop k b)

length-starts_with :
    (pattern_ b : List Byte) → starts_with pattern_ b ≡ true → length pattern_ ≤ length b
length-starts_with [] b h = omega arith
length-starts_with (p ∷ pattern_) [] h = absurd (cc)
length-starts_with (p ∷ pattern_) (x ∷ b) h = ground (arith, length-starts_with pattern_ b)

-- A frame's end has a delimiter of two bytes at least and lies within the buffer.
find_sse_frame_end-bounds :
    (b : List Byte) {i n : ℕ} → find_sse_frame_end b ≡ some (i, n) → (2 ≤ n) × (i + n ≤ length b)
find_sse_frame_end-bounds b {i = i} {n = n} h = elim (find_sse_frame_end-first b h).0 [
  | inl (two, here) ↦
      let l = length-starts_with lf_lf (drop i b) here in omega (arith, length-drop i b)
  | inr (four, here) ↦
      let l = length-starts_with crlf_crlf (drop i b) here in omega (arith, length-drop i b)
]

module _ {S : Type 0} (handle : S → List Byte → S × Bool) where
  abbrev at_rest : S → List Byte → Reading S
  at_rest state buffer = record { state = state; buffer = buffer; goes_on = true }

  -- one pass of the loop over what a frame has given, with what the later passes give
  abbrev pass : S × Bool → List Byte → Reading S → Reading S
  pass (after, goes_on) left rest =
      if goes_on then rest else record { state = after; buffer = left; goes_on = false }

  drain-some :
      (fuel : ℕ) (s : S) (b : List Byte) {i n : ℕ}
      → find_sse_frame_end b ≡ some (i, n)
      → drain_frames handle (suc fuel) s b
        ≡ pass
            (handle s (take i b))
            (drop (i + n) b)
            (drain_frames handle fuel (handle s (take i b)).0 (drop (i + n) b))
  unfolding drain_frames
  drain-some fuel s b h = rw (drain_frames, h) refl

  drain-none :
      (fuel : ℕ) (s : S) (b : List Byte)
      → find_sse_frame_end b ≡ none
      → drain_frames handle fuel s b ≡ at_rest s b
  unfolding drain_frames
  drain-none zero s b h = refl
  drain-none (suc fuel) s b h = rw (drain_frames, h) refl

  drain-eq :
      (f g : ℕ) (s : S) (b : List Byte)
      → length b ≤ f
      → length b ≤ g
      → drain_frames handle f s b ≡ drain_frames handle g s b
  drain-eq zero zero s b hf hg = refl
  drain-eq zero (suc g) s b hf hg = elim (Option-cases (find_sse_frame_end b)) [
    | inl stop ↦ drain-none zero s b stop ∙ sym (drain-none (suc g) s b stop)
    | inr ((i, n), found) ↦ let within = find_sse_frame_end-bounds b found in absurd (omega arith)
  ]
  drain-eq (suc f) zero s b hf hg = elim (Option-cases (find_sse_frame_end b)) [
    | inl stop ↦ drain-none (suc f) s b stop ∙ sym (drain-none zero s b stop)
    | inr ((i, n), found) ↦ let within = find_sse_frame_end-bounds b found in absurd (omega arith)
  ]
  drain-eq (suc f) (suc g) s b hf hg = elim (Option-cases (find_sse_frame_end b)) [
    | inl stop ↦ drain-none (suc f) s b stop ∙ sym (drain-none (suc g) s b stop)
    | inr ((i, n), found) ↦
        let within = find_sse_frame_end-bounds b found in
        let size = length-drop (i + n) b in
        let given = handle s (take i b) in
        drain-some f s b found
        ∙ ap (pass given (drop (i + n) b))
            (drain-eq f g given.0 (drop (i + n) b) (omega arith) (omega arith))
        ∙ sym (drain-some g s b found)
  ]

  -- The buffer's length is fuel enough: with more, the loop comes to the same.
  drain_frames-fuel :
      (fuel : ℕ) (s : S) (b : List Byte)
      → length b ≤ fuel
      → drain_frames handle fuel s b ≡ read_frames handle s b
  unfolding read_frames
  drain_frames-fuel fuel s b h = drain-eq fuel (length b) s b h (omega arith)

  read_frames-some :
      (s : S) (b : List Byte) {i n : ℕ}
      → find_sse_frame_end b ≡ some (i, n)
      → read_frames handle s b
        ≡ pass
            (handle s (take i b))
            (drop (i + n) b)
            (read_frames handle (handle s (take i b)).0 (drop (i + n) b))
  read_frames-some s b {i = i} {n = n} found =
      let size = length-drop (i + n) b in
      let given = handle s (take i b) in
      sym (drain_frames-fuel (suc (length b)) s b (omega arith))
      ∙ drain-some (length b) s b found
      ∙ ap (pass given (drop (i + n) b))
          (drain_frames-fuel (length b) given.0 (drop (i + n) b) (omega arith))

  read_frames-none :
      (s : S) (b : List Byte) → find_sse_frame_end b ≡ none → read_frames handle s b ≡ at_rest s b
  unfolding read_frames
  read_frames-none s b h = drain-none (length b) s b h

  -- The same was made of the frames, and either both go on, with the same bytes left, or both broke.
  pub record Agree (q r : Reading S) : Type 0 where
    pub same_state : q.state ≡ r.state
    pub same_end : q.goes_on ≡ r.goes_on
    pub same_buffer : r.goes_on ≡ true → q.buffer ≡ r.buffer

  Agree-eq : {q r : Reading S} → q ≡ r → Agree q r
  Agree-eq e = record {
    same_state = ap (λ (x : Reading S). x.state) e;
    same_end = ap (λ (x : Reading S). x.goes_on) e;
    same_buffer = λ h. ap (λ (x : Reading S). x.buffer) e;
  }

  pass-Agree :
      (given : S × Bool) (left c : List Byte) (q r : Reading S)
      → Agree q (read_chunk handle r c)
      → Agree (pass given (left ++ c) q) (read_chunk handle (pass given left r) c)
  unfolding read_chunk
  pass-Agree (after, true) left c q r agree = agree
  pass-Agree (after, false) left c q r agree = record {
    same_state = refl;
    same_end = refl;
    same_buffer = λ h. absurd (cc);
  }

  -- How a stream is cut into chunks makes no difference to what is made of its frames, nor to whether a
  -- frame makes the loop break; and while the loop goes on, the same bytes are left.
  pub read_frames-append :
      (s : S) (b c : List Byte)
      → Agree (read_frames handle s (b ++ c)) (read_chunk handle (read_frames handle s b) c)
  unfolding read_chunk
  read_frames-append s b c = go (length b) s b (omega arith)
    where
      at_end :
          (s : S) (b : List Byte)
          → find_sse_frame_end b ≡ none
          → Agree (read_frames handle s (b ++ c)) (read_chunk handle (read_frames handle s b) c)
      at_end s b stop = Agree-eq (rw (read_frames-none s b stop) refl)

      go :
          (m : ℕ) (s : S) (b : List Byte)
          → length b ≤ m
          → Agree (read_frames handle s (b ++ c)) (read_chunk handle (read_frames handle s b) c)
      go zero s b h = elim (Option-cases (find_sse_frame_end b)) [
        | inl stop ↦ at_end s b stop
        | inr ((i, n), found) ↦
            let within = find_sse_frame_end-bounds b found in absurd (omega arith)
      ]
      go (suc m) s b h = elim (Option-cases (find_sse_frame_end b)) [
        | inl stop ↦ at_end s b stop
        | inr ((i, n), found) ↦
            let within = find_sse_frame_end-bounds b found in
            let size = length-drop (i + n) b in
            let given = handle s (take i b) in
            rw
              (
                read_frames-some s (b ++ c) (find_sse_frame_end-append b c found),
                drop-append (i + n) b c within.1,
                take-append i b c (omega arith),
                read_frames-some s b found,
              )
              (pass-Agree given (drop (i + n) b) c _ _
                (go m given.0 (drop (i + n) b) (omega arith)))
      ]

  pass-rest :
      (given : S × Bool) (left : List Byte) (r : Reading S)
      → (r.goes_on ≡ true → find_sse_frame_end r.buffer ≡ none)
      → (pass given left r).goes_on ≡ true
      → find_sse_frame_end (pass given left r).buffer ≡ none
  pass-rest (after, true) left r before h = before h
  pass-rest (after, false) left r before h = absurd (cc)

  -- Unless a frame makes it break, the loop takes off every frame: no delimiter starts anywhere in what
  -- it leaves.
  pub read_frames-rest :
      (s : S) (b : List Byte) (j : ℕ)
      → (read_frames handle s b).goes_on ≡ true
      → NoDelimiter (drop j (read_frames handle s b).buffer)
  read_frames-rest s b j on =
      find_sse_frame_end-none (read_frames handle s b).buffer (go (length b) s b (omega arith) on) j
    where
      go :
          (m : ℕ) (s : S) (b : List Byte)
          → length b ≤ m
          → (read_frames handle s b).goes_on ≡ true
          → find_sse_frame_end (read_frames handle s b).buffer ≡ none
      go zero s b h on = elim (Option-cases (find_sse_frame_end b)) [
        | inl stop ↦ rw (read_frames-none s b stop) stop
        | inr ((i, n), found) ↦
            let within = find_sse_frame_end-bounds b found in absurd (omega arith)
      ]
      go (suc m) s b h on = elim (Option-cases (find_sse_frame_end b)) [
        | inl stop ↦ rw (read_frames-none s b stop) stop
        | inr ((i, n), found) ↦
            let within = find_sse_frame_end-bounds b found in
            let size = length-drop (i + n) b in
            let given = handle s (take i b) in
            rw (read_frames-some s b found) (
              pass-rest given (drop (i + n) b) (read_frames handle given.0 (drop (i + n) b))
                (go m given.0 (drop (i + n) b) (omega arith))
                (rw (read_frames-some s b found) at on))
      ]

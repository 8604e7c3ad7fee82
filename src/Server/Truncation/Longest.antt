-- ===== src/Server/Truncation/Longest.antt =====
-- What is left of a text is the longest prefix that fits and does not split a character.
use piqo_server.Prelude.{
  ℕ, zero, suc, ◌≤◌, ◌<◌, true, false, ◌≡◌, refl, ap, inl, inr, Bool-cases, List, [], ◌∷◌, ◌++◌,
  drop, length, leb, arith,
}
use piqo_server.Server.Truncation.{is_char_boundary, back_to_boundary, upto, truncate_utf8}

back_to_boundary-last :
    (end : ℕ) (bytes : List ℕ)
    → (back_to_boundary end bytes ≤ end)
      × (is_char_boundary (back_to_boundary end bytes) bytes ≡ true)
      × ((k : ℕ) → back_to_boundary end bytes < k → k ≤ end → is_char_boundary k bytes ≡ false)
unfolding back_to_boundary
back_to_boundary-last zero bytes = (omega arith, refl, λ k lo hi. absurd (omega arith))
back_to_boundary-last (suc end) bytes = elim (Bool-cases (is_char_boundary (suc end) bytes)) [
  | inl here ↦ rw (back_to_boundary, here) (omega arith, here, λ k lo hi. absurd (omega arith))
  | inr not_here ↦
      let (below, ends, none_between) = back_to_boundary-last end bytes in
      rw (back_to_boundary, not_here)
        (omega arith, ends, λ k lo hi. between k lo hi not_here none_between)
]
  where
    between :
        (k : ℕ)
        → back_to_boundary end bytes < k
        → k ≤ suc end
        → is_char_boundary (suc end) bytes ≡ false
        → ((k : ℕ) → back_to_boundary end bytes < k → k ≤ end → is_char_boundary k bytes ≡ false)
        → is_char_boundary k bytes ≡ false
    between k lo hi not_here none_between = elim (Bool-cases (leb k end)) [
      | inl within ↦ none_between k lo (ground arith)
      | inr past ↦ let last : k ≡ suc end = ground arith in rw last not_here
    ]

upto-drop : (n : ℕ) (bytes : List ℕ) → upto n bytes ++ drop n bytes ≡ bytes
upto-drop zero bytes = refl
upto-drop (suc n) [] = refl
upto-drop (suc n) (b ∷ bytes) = ap (λ (l : List ℕ). b ∷ l) (upto-drop n bytes)

length-upto : (n : ℕ) (bytes : List ℕ) → n ≤ length bytes → length (upto n bytes) ≡ n
length-upto zero bytes h = refl
length-upto (suc n) [] h = absurd (omega arith)
length-upto (suc n) (b ∷ bytes) h = omega (arith, length-upto n bytes)

-- A text that is longer than the limit is cut to a prefix within the limit that ends at a boundary of
-- characters, no longer prefix within the limit does, and the cut is reported.
pub truncate_utf8-longest :
    (value : List ℕ) (max_bytes : ℕ)
    → max_bytes < length value
    → (end : ℕ) × (truncate_utf8 value max_bytes ≡ (upto end value, true))
      × (upto end value ++ drop end value ≡ value)
      × (length (upto end value) ≡ end)
      × (end ≤ max_bytes)
      × (is_char_boundary end value ≡ true)
      × ((k : ℕ) → end < k → k ≤ max_bytes → is_char_boundary k value ≡ false)
unfolding truncate_utf8
truncate_utf8-longest value max_bytes long =
    let end = back_to_boundary max_bytes value in
    let (within, ends, none_between) = back_to_boundary-last max_bytes value in
    let too_long : leb (length value) max_bytes ≡ false = ground arith in
    (
      end,
      rw too_long refl,
      upto-drop end value,
      length-upto end value (omega arith),
      within,
      ends,
      none_between,
    )

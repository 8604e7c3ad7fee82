-- ===== src/Server/Truncation.antt =====
-- piqo-server/src/supervisor.rs: `truncate_utf8`, which cuts a text at a limit of bytes, on a text as the
-- list of its bytes. A boundary of characters is the start, the end, or a byte that continues none.
pub mod Longest
use piqo_server.Prelude.{
  ℕ, zero, suc, Bool, true, false, not, ◌&&◌, Option, none, some, List, [], ◌∷◌, length, leb, ltb,
  ◌==◌, if◌then◌else◌,
}

-- 10xxxxxx
abbrev pub continues : ℕ → Bool
continues byte = leb 128 byte && ltb byte 192

-- `is_char_boundary` behind the start
unfoldable pub is_boundary_in : ℕ → List ℕ → Bool
is_boundary_in zero [] = true
is_boundary_in zero (b ∷ bytes) = not (continues b)
is_boundary_in (suc i) [] = false
is_boundary_in (suc i) (b ∷ bytes) = is_boundary_in i bytes

unfoldable pub is_char_boundary : ℕ → List ℕ → Bool
unfolding is_boundary_in
is_char_boundary zero bytes = true
is_char_boundary (suc i) bytes = is_boundary_in (suc i) bytes

-- `while !value.is_char_boundary(end) { end -= 1 }`
unfoldable pub back_to_boundary : ℕ → List ℕ → ℕ
unfolding is_char_boundary
back_to_boundary zero bytes = zero
back_to_boundary (suc end) bytes =
    let rest = back_to_boundary end bytes in
    if not (is_char_boundary (suc end) bytes) then rest else suc end

-- `value[..end]`
abbrev pub upto : ℕ → List ℕ → List ℕ
upto zero bytes = []
upto (suc n) [] = []
upto (suc n) (b ∷ bytes) = b ∷ upto n bytes

unfoldable pub truncate_utf8 : List ℕ → ℕ → List ℕ × Bool
unfolding back_to_boundary
truncate_utf8 value max_bytes =
    if leb (length value) max_bytes
    then (value, false)
    else (upto (back_to_boundary max_bytes value) value, true)

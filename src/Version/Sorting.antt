-- ===== src/Version/Sorting.antt =====
-- internal/version/version.go: appendNumericPrefix and ForSorting, byte by byte.
pub mod Order
mod Tests
use pkgsite_metrics.Prelude.{
  ℕ, ◌+◌, ◌-◌, ◌/◌, ◌%◌, Bool, true, false, not, ◌||◌, [], ◌∷◌, ◌++◌, Option, none, some, Text,
  take, drop, replicate, ltb, ◌==◌, if◌then◌else◌, is_empty,
}

-- The prefix for a digit string of length `n`, one or more: `dst` grows by `n/26` letters 'z' and
-- a letter for the remainder.
pub append_numeric_prefix : Text → ℕ → Text
append_numeric_prefix dst n =
    let m = n - 1 in
    let filled = dst ++ replicate (m / 26) b'z' in
    let rem = m % 26 in if ltb 0 rem then filled ++ ((b'a' + rem - 1) ∷ []) else filled

-- The variables of ForSorting that the closure addPart shares.
pub record Encoder : Type 0 where
  pub bytes : Text
  pub prerelease : Bool
  pub nondigit : Bool
  pub start : ℕ

-- version[start:stop]
abbrev slice : Text → ℕ → ℕ → Text
slice version start stop = take (stop - start) (drop start version)

add_part : Text → ℕ → Encoder → Encoder
add_part version stop s =
    let separated = if is_empty s.bytes then s.bytes else s.bytes ++ (b',' ∷ []) in
    let marked =
      if s.nondigit
      then separated ++ (b'~' ∷ [])
      else append_numeric_prefix separated (stop - s.start) in
    record s { bytes = marked ++ slice version s.start stop; start = stop + 1; nondigit = false }

-- One round of the loop, for the byte at position `p` of the version, which is not '+'.
encode_byte : Text → ℕ → ℕ → Encoder → Encoder
encode_byte version p c s =
    if c == b'.'
    then add_part version p s
    else if c == b'-'
    then (if not s.prerelease
        then add_part version p (record s { prerelease = true })
        else record s { nondigit = true })
    else if ltb c b'0' || ltb b'9' c
    then record s { nondigit = true }
    else s

-- The loop over the bytes behind the 'v'. A byte of a rune outside ASCII is neither a separator
-- nor a digit, so that going by bytes or by runes is the same. The result has `last` with it.
encode_loop : Text → ℕ → Text → Encoder → Encoder × ℕ
encode_loop version p [] s = (s, p)
encode_loop version p (c ∷ rest) s =
    let more = encode_loop version (p + 1) rest (encode_byte version p c s) in
    if c == b'+' then (s, p) else more

abbrev finish : Text → Encoder × ℕ → Text
finish version (s, last) =
    let t = if ltb s.start last then add_part version last s else s in
    if not t.prerelease then t.bytes ++ (b'~' ∷ []) else t.bytes

-- `none` is the panic of version[1:] on the empty text.
unfoldable pub for_sorting : Text → Option Text
unfolding append_numeric_prefix add_part encode_byte encode_loop
for_sorting [] = none
for_sorting (v ∷ rest) = some (
    finish (v ∷ rest) (
      encode_loop (v ∷ rest) 1 rest
        (record { bytes = []; prerelease = false; nondigit = false; start = 1 })))

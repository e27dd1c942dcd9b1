-- ===== src/Protocol/Text/Utf8.antt =====
-- UTF-8 validation as the standard library does it, byte by byte: the state says which bytes may
-- follow inside the current character.
use hashline_rs.Prelude.{
  ℕ, zero, suc, ◌+◌, ◌≡◌, refl, Bool, ◌&&◌, [], ◌∷◌, Option, none, some, ltb, leb, ◌==◌,
  if◌then◌else◌, Bytes,
}

-- `inside n lo hi`: the next byte lies in `lo..=hi`, and `n` continuation bytes come after it.
pub data Utf8State : Type 0 where
  boundary : Utf8State
  inside : ℕ → ℕ → ℕ → Utf8State

abbrev pub between : ℕ → ℕ → ℕ → Bool
between lo hi b = leb lo b && leb b hi

pub first_byte : ℕ → Option Utf8State
first_byte b =
    if ltb b 0x80
    then some boundary
    else if between 0xc2 0xdf b
    then some (inside 0 0x80 0xbf)
    else if b == 0xe0
    then some (inside 1 0xa0 0xbf)
    else if b == 0xed
    then some (inside 1 0x80 0x9f)
    else if between 0xe1 0xef b
    then some (inside 1 0x80 0xbf)
    else if b == 0xf0
    then some (inside 2 0x90 0xbf)
    else if between 0xf1 0xf3 b
    then some (inside 2 0x80 0xbf)
    else if b == 0xf4
    then some (inside 2 0x80 0x8f)
    else none

pub next_byte : ℕ → Utf8State
next_byte zero = boundary
next_byte (suc n) = inside n 0x80 0xbf

unfoldable pub step : Utf8State → ℕ → Option Utf8State
unfolding first_byte next_byte
step boundary b = first_byte b
step (inside n lo hi) b = if between lo hi b then some (next_byte n) else none

-- where the current character starts, once the byte before `i` is read
pub char_start : Utf8State → ℕ → ℕ → ℕ
char_start boundary start i = i
char_start (inside n lo hi) start i = start

-- The first byte that the longest valid prefix does not cover, or `none` for valid text.
unfoldable pub scan : Utf8State → ℕ → ℕ → Bytes → Option ℕ
unfolding step char_start
scan boundary start i [] = none
scan (inside n lo hi) start i [] = some start
scan st start i (b ∷ s) = elim (step st b) [
  | none ↦ some start
  | some st' ↦ scan st' (char_start st' start (i + 1)) (i + 1) s
]

-- `str::from_utf8`: `none` for `Ok`, and the error's `valid_up_to`
unfoldable pub from_utf8 : Bytes → Option ℕ
unfolding scan
from_utf8 bytes = scan boundary 0 0 bytes

-- é, then a lone continuation byte
from_utf8_test : from_utf8 (0x61 ∷ 0xc3 ∷ 0xa9 ∷ 0xa9 ∷ []) ≡ some 3
unfolding from_utf8
from_utf8_test = refl

truncated_test : from_utf8 (0x61 ∷ 0xe2 ∷ 0x82 ∷ []) ≡ some 1
unfolding from_utf8
truncated_test = refl

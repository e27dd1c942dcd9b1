-- ===== src/Search/Lossy.antt =====
-- `Path::to_string_lossy` of the standard library: U+FFFD stands for each longest piece that no
-- character of UTF-8 begins with or goes on as.
use hashline_rs.Prelude.{ℕ, [], ◌∷◌, ◌++◌, none, some, Bytes}
use hashline_rs.Paths.{FilePath, display}
use hashline_rs.Protocol.Text.{Utf8State, boundary, inside, step}

abbrev replacement : Bytes
replacement = 0xef ∷ 0xbf ∷ 0xbd ∷ []

-- the state, the bytes of the character begun, and what is put out
record Decoding : Type 0 where
  state : Utf8State
  begun : Bytes
  out : Bytes

-- a byte that goes on with a character
go_on : Bytes → ℕ → Utf8State → Decoding
go_on begun b boundary = record { state = boundary; begun = []; out = begun ++ b ∷ [] }
go_on begun b st = record { state = st; begun = begun ++ b ∷ []; out = [] }

abbrev behind_replacement : Decoding → Decoding
behind_replacement d = record d { out = replacement ++ out }
  where
    open d use {out}

-- a byte at the start of a character
restart : ℕ → Decoding
unfolding go_on step
restart b = elim (step boundary b) [
  | some st ↦ go_on [] b st
  | none ↦ record { state = boundary; begun = []; out = replacement }
]

decode : Utf8State → Bytes → ℕ → Decoding
unfolding go_on restart step
decode boundary begun b = restart b
decode (inside n lo hi) begun b = elim (step (inside n lo hi) b) [
  | some st ↦ go_on begun b st
  | none ↦ behind_replacement (restart b)
]

lossy : Utf8State → Bytes → Bytes → Bytes
unfolding decode
lossy boundary begun [] = []
lossy (inside n lo hi) begun [] = replacement
lossy st begun (b ∷ s) = let d = decode st begun b in d.out ++ lossy d.state d.begun s

unfoldable pub to_string_lossy : FilePath → Bytes
unfolding lossy
to_string_lossy p = lossy boundary [] (display p)

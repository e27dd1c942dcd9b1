-- ===== src/Protocol/Text/Splice.antt =====
-- Validity of text that is put together from pieces of valid text: the runs of the validator's
-- state, and the places at which a text can be cut.
use hashline_rs.Prelude.{
  ℕ, zero, suc, ◌+◌, ◌≤◌, ◌<◌, ◌≡◌, refl, sym, ◌∙◌, [], ◌∷◌, ◌++◌, append-nil, Option, none, some,
  arith, Bytes, length, length-append, take, drop, slice, Option-cases, inl, inr,
  take-append_length, drop-append_length, take-append-slice,
}
use hashline_rs.Protocol.Text.Utf8.{Utf8State, boundary, inside, step, scan, from_utf8}

-- the state behind a text, if it has no error
pub run : Utf8State → Bytes → Option Utf8State
run st [] = some st
run st (b ∷ s) = elim (step st b) [ none ↦ none | some st' ↦ run st' s ]

abbrev pub IsUtf8 : Bytes → Type 0
IsUtf8 s = run boundary s ≡ some boundary

scan→run :
    (st : Utf8State) (start i : ℕ) (s : Bytes) → scan st start i s ≡ none → run st s ≡ some boundary
unfolding scan run
scan→run boundary start i [] h = refl
scan→run (inside n lo hi) start i [] h = cc h
scan→run boundary start i (b ∷ s) h = elim (Option-cases (step boundary b)) [
  | inl e ↦ ground arith
  | inr (st', e) ↦ ground (arith, scan→run st' (i + 1) (i + 1) s, scan→run st' start (i + 1) s)
]
scan→run (inside n lo hi) start i (b ∷ s) h = elim (Option-cases (step (inside n lo hi) b)) [
  | inl e ↦ ground arith
  | inr (st', e) ↦ ground (arith, scan→run st' (i + 1) (i + 1) s, scan→run st' start (i + 1) s)
]

run→scan :
    (st : Utf8State) (start i : ℕ) (s : Bytes) → run st s ≡ some boundary → scan st start i s ≡ none
unfolding scan run
run→scan boundary start i [] h = refl
run→scan (inside n lo hi) start i [] h = cc h
run→scan boundary start i (b ∷ s) h = elim (Option-cases (step boundary b)) [
  | inl e ↦ ground arith
  | inr (st', e) ↦ ground (arith, run→scan st' (i + 1) (i + 1) s, run→scan st' start (i + 1) s)
]
run→scan (inside n lo hi) start i (b ∷ s) h = elim (Option-cases (step (inside n lo hi) b)) [
  | inl e ↦ ground arith
  | inr (st', e) ↦ ground (arith, run→scan st' (i + 1) (i + 1) s, run→scan st' start (i + 1) s)
]

pub from_utf8→IsUtf8 : (s : Bytes) → from_utf8 s ≡ none → IsUtf8 s
unfolding from_utf8
from_utf8→IsUtf8 s h = scan→run boundary 0 0 s h

pub IsUtf8→from_utf8 : (s : Bytes) → IsUtf8 s → from_utf8 s ≡ none
unfolding from_utf8
IsUtf8→from_utf8 s h = run→scan boundary 0 0 s h

pub run-append :
    (st : Utf8State) (xs ys : Bytes) {mid : Utf8State}
    → run st xs ≡ some mid
    → run st (xs ++ ys) ≡ run mid ys
unfolding run
run-append st [] ys h = ground arith
run-append st (b ∷ xs) ys {mid} h = elim (Option-cases (step st b)) [
  | inl e ↦ ground arith
  | inr (st', e) ↦ ground (arith, run-append st' xs ys {mid = mid})
]

-- a run through a whole text runs through each prefix
run-prefix :
    (st : Utf8State) (xs ys : Bytes) {last : Utf8State}
    → run st (xs ++ ys) ≡ some last
    → (mid : Utf8State) × (run st xs ≡ some mid)
unfolding run
run-prefix st [] ys h = (st, refl)
run-prefix st (b ∷ xs) ys {last} h = elim (Option-cases (step st b)) [
  | inl e ↦ absurd (ground arith)
  | inr (st', e) ↦
      let h' : run st' (xs ++ ys) ≡ some last = ground arith in
      let (mid, k) = run-prefix st' xs ys h' in (mid, ground arith)
]

pub IsUtf8-append : (xs ys : Bytes) → IsUtf8 xs → IsUtf8 ys → IsUtf8 (xs ++ ys)
IsUtf8-append xs ys hx hy = run-append boundary xs ys hx ∙ hy

-- continuation bytes are not ASCII
abbrev IsSane : Utf8State → Type 0
IsSane boundary = Unit
IsSane (inside n lo hi) = 0x80 ≤ lo

step-IsSane : (st : Utf8State) (b : ℕ) (st' : Utf8State) → step st b ≡ some st' → IsSane st'
unfolding step
step-IsSane st b boundary h = tt
step-IsSane boundary b (inside n lo hi) h = ground arith
step-IsSane (inside zero l u) b (inside n lo hi) h = ground arith
step-IsSane (inside (suc m) l u) b (inside n lo hi) h = ground arith

run-IsSane :
    (st : Utf8State) (s : Bytes) {last : Utf8State} → IsSane st → run st s ≡ some last → IsSane last
unfolding run
run-IsSane st [] {last} sane h = let e : st ≡ last = ground arith in rw e at sane
run-IsSane st (b ∷ s) {last} sane h = elim (Option-cases (step st b)) [
  | inl e ↦ absurd (ground arith)
  | inr (st', e) ↦ run-IsSane st' s {last = last} (step-IsSane st b st' e) (ground arith)
]

-- an ASCII byte is read only between characters
step_ascii :
    (st : Utf8State) (b : ℕ) {st' : Utf8State}
    → IsSane st
    → b < 0x80
    → step st b ≡ some st'
    → st' ≡ boundary
unfolding step
step_ascii boundary b sane small h = ground arith
step_ascii (inside n lo hi) b sane small h = ground arith

-- A place where the text can be cut into two valid texts.
abbrev pub IsCut : Bytes → ℕ → Type 0
IsCut s k = (k ≤ length s) × IsUtf8 (take k s) × IsUtf8 (drop k s)

pub IsCut-append : (xs ys : Bytes) → IsUtf8 xs → IsUtf8 (xs ++ ys) → IsCut (xs ++ ys) (length xs)
IsCut-append xs ys h whole = (
  omega (arith, length-append xs ys),
  rw (take-append_length xs ys) h,
  rw (drop-append_length xs ys) (sym (run-append boundary xs ys h) ∙ whole),
)

-- Behind an ASCII byte a valid text can be cut.
pub IsCut-behind_ascii :
    (xs ys : Bytes) (b : ℕ)
    → b < 0x80
    → IsUtf8 ((xs ++ b ∷ []) ++ ys)
    → IsCut ((xs ++ b ∷ []) ++ ys) (length (xs ++ b ∷ []))
IsCut-behind_ascii xs ys b small whole =
    let (last, r) = run-prefix boundary (xs ++ b ∷ []) ys whole in
    let (mid, q) = run-prefix boundary xs (b ∷ []) r in
    let after : step mid b ≡ some last = one mid b (sym (run-append boundary xs (b ∷ []) q) ∙ r) in
    let done : last ≡ boundary = step_ascii mid b (run-IsSane boundary xs tt q) small after in
    IsCut-append (xs ++ b ∷ []) ys (rw done at r) whole
  where
    one :
        (st : Utf8State) (b : ℕ) {st' : Utf8State}
        → run st (b ∷ []) ≡ some st'
        → step st b ≡ some st'
    one st b h = unfold run in ground arith

-- Between two cuts there is valid text.
pub IsUtf8-slice : (s : Bytes) (a b : ℕ) → a ≤ b → IsCut s a → IsCut s b → IsUtf8 (slice a b s)
IsUtf8-slice s a b h (_, ha, _) (_, hb, _) =
    sym (run-append boundary (take a s) (slice a b s) ha) ∙ rw (take-append-slice a b s h) hb

pub IsCut-zero : (s : Bytes) → IsUtf8 s → IsCut s 0
IsCut-zero s h = IsCut-append [] s (unfold run in refl) h

pub IsCut-length : (s : Bytes) → IsUtf8 s → IsCut s (length s)
IsCut-length s h =
    let whole : s ++ [] ≡ s = append-nil s in rw whole at (IsCut-append s [] h (rw whole h))

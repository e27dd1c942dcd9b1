-- ===== src/Protocol/Context/Ending.antt =====
-- A line without its ending, told from the line alone.
use hashline_rs.Prelude.{
  ℕ, zero, suc, ◌+◌, ◌-◌, ◌≤◌, ◌≡◌, refl, ap, ◌∙◌, [], ◌∷◌, List, ◌==◌, if◌then◌else◌, Bytes,
  length, length-drop, get_or, take, drop, slice, arith, Bool-cases, inl, inr,
}
use hashline_rs.Protocol.Lines.{newline}
use hashline_rs.Protocol.Context.{content_end}

-- A line feed, or a carriage return and a line feed, at the end of a line is left out.
unfoldable pub without_ending : Bytes → Bytes
without_ending [] = []
without_ending (b ∷ []) = if b == newline then [] else b ∷ []
without_ending (b ∷ d ∷ []) = if d == newline then if b == 0x0d then [] else b ∷ [] else b ∷ d ∷ []
without_ending (b ∷ d ∷ e ∷ s) = b ∷ without_ending (d ∷ e ∷ s)

-- how much of the first `n` bytes is left
kept : Bytes → ℕ → ℕ
kept s zero = zero
kept s (suc zero) = if get_or s zero 0 == newline then zero else suc zero
kept s (suc (suc n)) =
    if get_or s (suc n) 0 == newline then if get_or s n 0 == 0x0d then n else suc n else suc (suc n)

kept-suc :
    (b d : ℕ) (s : Bytes) (n : ℕ)
    → kept (b ∷ d ∷ s) (suc (suc (suc n))) ≡ suc (kept (d ∷ s) (suc (suc n)))
unfolding kept
kept-suc b d s n = elim (Bool-cases (get_or s n 0 == newline)) [
  | inr other ↦ rw other refl
  | inl feed ↦ elim (Bool-cases (get_or (d ∷ s) n 0 == 0x0d)) [
    | inl return ↦ rw (feed, return) refl
    | inr no_return ↦ rw (feed, no_return) refl
  ]
]

take-kept : (s : Bytes) (n : ℕ) → n ≤ length s → take (kept s n) s ≡ without_ending (take n s)
unfolding kept without_ending
take-kept s zero h = refl
take-kept [] (suc n) h = absurd (omega arith)
take-kept (b ∷ s) (suc zero) h = elim (Bool-cases (b == newline)) [
  | inl feed ↦ rw feed refl
  | inr other ↦ rw other refl
]
take-kept (b ∷ []) (suc (suc n)) h = absurd (omega arith)
take-kept (b ∷ d ∷ s) (suc (suc zero)) h = elim (Bool-cases (d == newline)) [
  | inr other ↦ rw other refl
  | inl feed ↦ elim (Bool-cases (b == 0x0d)) [
    | inl return ↦ rw (feed, return) refl
    | inr no_return ↦ rw (feed, no_return) refl
  ]
]
take-kept (b ∷ d ∷ []) (suc (suc (suc n))) h = absurd (omega arith)
take-kept (b ∷ d ∷ e ∷ s) (suc (suc (suc n))) h =
    ap (λ k. take k (b ∷ d ∷ e ∷ s)) (kept-suc b d (e ∷ s) n)
    ∙ ap (◌∷◌ b) (take-kept (d ∷ e ∷ s) (suc (suc n)) (omega arith))

get_or-drop : (a i d : ℕ) (l : List ℕ) → get_or (drop a l) i d ≡ get_or l (a + i) d
get_or-drop zero i d l = ap (λ k. get_or l k d) (omega arith)
get_or-drop (suc a) i d [] = refl
get_or-drop (suc a) i d (x ∷ l) =
    let same : suc (a + i) ≡ suc a + i = omega arith in
    get_or-drop a i d l ∙ ap (λ k. get_or (x ∷ l) k d) same

content_end-kept :
    (text : Bytes) (start end n : ℕ)
    → end - start ≡ n
    → content_end text start end - start ≡ kept (drop start text) n
unfolding content_end kept
content_end-kept text start end zero h = ground arith
content_end-kept text start end (suc zero) h =
    let last : start + 0 ≡ end - 1 = omega arith in
    rw (get_or-drop start 0 0 text, last) (ground arith)
content_end-kept text start end (suc (suc n)) h =
    let last : start + suc n ≡ end - 1 = omega arith in
    let before : start + n ≡ end - 1 - 1 = omega arith in
    rw (get_or-drop start (suc n) 0 text, get_or-drop start n 0 text, last, before) (ground arith)

-- The content that the reference model cuts out of a text is the line without its ending.
pub content_end-without_ending :
    (text : Bytes) (start end : ℕ)
    → end ≤ length text
    → slice start (content_end text start end) text ≡ without_ending (slice start end text)
content_end-without_ending text start end h =
    ap (λ n. take n (drop start text)) (content_end-kept text start end (end - start) refl)
    ∙ take-kept (drop start text) (end - start) (omega (arith, length-drop start text))

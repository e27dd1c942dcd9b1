-- ===== src/Protocol/Codec/Decimal/RoundTrip.antt =====
-- What the canonical decimal reader accepts, against the printer.
use hashline_rs.Prelude.{
  ℕ, zero, suc, ◌+◌, ◌-◌, ◌*◌, ◌/◌, ◌%◌, ◌≤◌, ◌<◌, ◌≡◌, refl, sym, ◌∙◌, Bool, true, [], ◌∷◌, ◌++◌,
  append_assoc, append-nil, arith, ltb, ◌==◌, Bool-cases, inl, inr, ok, ◌>>=◌, >>=-eq-ok, Bytes,
  all, length, u64_max,
}
use hashline_rs.Protocol.Codec.Decimal.{
  digits, decimal, DecimalComponent, line, byte, is_ascii_digit, starts_with_zero, accumulate,
  reject_zero_line, parse_canonical_decimal,
}

abbrev pub IsDigit : ℕ → Type 0
IsDigit c = is_ascii_digit c ≡ true

-- more fuel than digits changes nothing
digits_fuel : (f g n : ℕ) → n < f → n < g → digits f n ≡ digits g n
unfolding digits
digits_fuel zero g n h k = absurd (omega arith)
digits_fuel (suc f) zero n h k = absurd (omega arith)
digits_fuel (suc f) (suc g) n h k = elim (Bool-cases (ltb n 10)) [
  | inl e ↦ rw (e) refl
  | inr e ↦ rw (e, digits_fuel f g (n / 10) (ground arith) (ground arith)) refl
]

decimal_small : (n : ℕ) → n < 10 → decimal n ≡ (b'0' + n) ∷ []
unfolding decimal
decimal_small n h = ground arith

-- the printed form of a number of two or more digits
decimal_step : (n : ℕ) → 10 ≤ n → decimal n ≡ decimal (n / 10) ++ (b'0' + n % 10) ∷ []
unfolding decimal
decimal_step n h = ground (arith, digits_fuel n (suc (n / 10)) (n / 10))

all-append :
    (p : ℕ → Bool) (xs ys : Bytes) → all p xs ≡ true → all p ys ≡ true → all p (xs ++ ys) ≡ true
all-append p [] ys h k = k
all-append p (x ∷ xs) ys h k = ground (arith, all-append p xs ys)

digits_digit : (f n : ℕ) → n < f → all is_ascii_digit (digits f n) ≡ true
unfolding digits
digits_digit zero n h = absurd (omega arith)
digits_digit (suc f) n h = elim (Bool-cases (ltb n 10)) [
  | inl e ↦ rw (e) (ground arith)
  | inr e ↦ rw (e) (
      all-append is_ascii_digit (digits f (n / 10)) ((b'0' + n % 10) ∷ [])
        (digits_digit f (n / 10) (ground arith)) (ground arith))
]

pub decimal-all_digits : (n : ℕ) → all is_ascii_digit (decimal n) ≡ true
unfolding decimal
decimal-all_digits n = digits_digit (suc n) n (omega arith)

accumulate-append :
    (c : DecimalComponent) (v : ℕ) (xs ys : Bytes)
    → accumulate c v (xs ++ ys) ≡ (accumulate c v xs >>= λ w. accumulate c w ys)
unfolding accumulate
accumulate-append c v [] ys = refl
accumulate-append c v (x ∷ xs) ys = ground (arith, accumulate-append c (v * 10 + (x - b'0')) xs ys)

accumulate-digits :
    (c : DecimalComponent) (f n : ℕ) → n < f → n ≤ u64_max → accumulate c 0 (digits f n) ≡ ok n
unfolding digits
accumulate-digits c zero n h k = absurd (omega arith)
accumulate-digits c (suc f) n h k = elim (Bool-cases (ltb n 10)) [
  | inl e ↦ rw (e) (unfold accumulate in ground arith)
  | inr e ↦
      rw (e, accumulate-append, accumulate-digits c f (n / 10) (ground arith) (ground arith))
        (unfold accumulate in ground arith)
]

-- A canonical numeral is not empty, and has no leading zero unless it is one digit.
digits_canonical :
    (f n : ℕ) → n < f → (0 < length (digits f n)) × (starts_with_zero (digits f n) ≡ true → n ≡ 0)
unfolding digits
digits_canonical zero n h = absurd (omega arith)
digits_canonical (suc f) n h = elim (Bool-cases (ltb n 10)) [
  | inl e ↦ rw (e) (omega arith, λ z. ground arith)
  | inr e ↦
      rw (e)
        (longer (ground arith) (digits f (n / 10)) (digits_canonical f (n / 10) (ground arith)))
]
  where
    longer :
        10 ≤ n
        → (ds : Bytes) → (0 < length ds) × (starts_with_zero ds ≡ true → n / 10 ≡ 0)
        → (0 < length (ds ++ (b'0' + n % 10) ∷ []))
          × (starts_with_zero (ds ++ (b'0' + n % 10) ∷ []) ≡ true → n ≡ 0)
    longer two [] (pos, _) = absurd (omega arith)
    longer two (d ∷ ds) (pos, z) = (omega arith, λ w. let q = z w in omega arith)

-- the test at the head of the reader passes on a canonical numeral
well_formed :
    (c : DecimalComponent) (s : Bytes)
    → 0 < length s
    → (starts_with_zero s ≡ true → length s ≤ 1)
    → all is_ascii_digit s ≡ true
    → parse_canonical_decimal s c ≡ (accumulate c 0 s >>= reject_zero_line c)
unfolding parse_canonical_decimal
well_formed c [] pos lead ds = absurd (omega arith)
well_formed c (d ∷ s) pos lead ds = elim (Bool-cases (starts_with_zero (d ∷ s))) [
  | inl z ↦ let short = lead z in rw ds (ground arith)
  | inr nz ↦ rw ds (ground arith)
]

zero_is_short : (n : ℕ) → n ≡ 0 → length (decimal n) ≤ 1
unfolding decimal
zero_is_short n e = rw e (omega arith)

-- A printed number is read back, whatever its size below 2 ^ 64; line zero is refused.
pub parse_canonical_decimal-decimal :
    (c : DecimalComponent) (n : ℕ)
    → n ≤ u64_max
    → parse_canonical_decimal (decimal n) c ≡ reject_zero_line c n
unfolding decimal
parse_canonical_decimal-decimal c n h =
    let (pos, lead) = digits_canonical (suc n) n (omega arith) in
    rw
      (
        well_formed c (digits (suc n) n) pos (λ z. zero_is_short n (lead z)) (decimal-all_digits n),
        accumulate-digits c (suc n) n (omega arith) h,
      )
      refl

-- one more digit behind a positive number
decimal-snoc :
    (v d : ℕ)
    → 0 < v
    → is_ascii_digit d ≡ true
    → decimal (v * 10 + (d - b'0')) ≡ decimal v ++ d ∷ []
decimal-snoc v d h k =
    let q : (v * 10 + (d - b'0')) / 10 ≡ v = ground arith in
    let r : b'0' + (v * 10 + (d - b'0')) % 10 ≡ d = ground arith in
    decimal_step (v * 10 + (d - b'0')) (omega arith) ∙ rw (q, r) refl

accumulate_canonical :
    (c : DecimalComponent) (s : Bytes) (v r : ℕ)
    → 0 < v
    → all is_ascii_digit s ≡ true
    → accumulate c v s ≡ ok r
    → decimal v ++ s ≡ decimal r
unfolding accumulate
accumulate_canonical c [] v r pos ds h = let e : v ≡ r = ground arith in rw (append-nil, e) refl
accumulate_canonical c (d ∷ s) v r pos ds h =
    let e : is_ascii_digit d ≡ true = ground arith in
    let ds' : all is_ascii_digit s ≡ true = ground arith in
    let h' : accumulate c (v * 10 + (d - b'0')) s ≡ ok r = ground arith in
    sym (append_assoc (decimal v) (d ∷ []) s)
    ∙ rw (← decimal-snoc v d pos e)
        (accumulate_canonical c s (v * 10 + (d - b'0')) r (omega arith) ds' h')

accumulate-le :
    (c : DecimalComponent) (s : Bytes) (v r : ℕ)
    → v ≤ u64_max
    → accumulate c v s ≡ ok r
    → r ≤ u64_max
unfolding accumulate
accumulate-le c [] v r le h = ground arith
accumulate-le c (d ∷ s) v r le h = ground (arith, accumulate-le c s (v * 10 + (d - b'0')) r)

accumulate_first :
    (c : DecimalComponent) (d : ℕ) (s : Bytes) {r : ℕ}
    → all is_ascii_digit (d ∷ s) ≡ true
    → (starts_with_zero (d ∷ s) ≡ true → length (d ∷ s) ≤ 1)
    → accumulate c 0 (d ∷ s) ≡ ok r
    → d ∷ s ≡ decimal r
unfolding accumulate
accumulate_first c d s {r} ds lead h = elim (Bool-cases (d == b'0')) [
  | inl z ↦ single s d r z lead h
  | inr nz ↦
      let e : 0 * 10 + (d - b'0') ≡ d - b'0' = omega arith in
      let h' : accumulate c (d - b'0') s ≡ ok r = rw (← e) (ground arith) in
      let digit : is_ascii_digit d ≡ true = ground arith in
      let same : b'0' + (d - b'0') ≡ d = ground arith in
      let printed = decimal_small (d - b'0') (ground arith) in
      let rest = accumulate_canonical c s (d - b'0') r (ground arith) (ground arith) h' in
      rw (printed, same) at rest
]
  where
    single :
        (s : Bytes) (d r : ℕ)
        → (d == b'0') ≡ true
        → (starts_with_zero (d ∷ s) ≡ true → length (d ∷ s) ≤ 1)
        → accumulate c 0 (d ∷ s) ≡ ok r
        → d ∷ s ≡ decimal r
    single [] d r z lead h =
        let e : d ≡ b'0' = ground arith in
        let q : r ≡ 0 = ground arith in rw (e, q) (unfold decimal in refl)
    single (x ∷ s) d r z lead h = absurd (let short = lead z in omega arith)

reject_zero_line-eq : (c : DecimalComponent) (v : ℕ) {r : ℕ} → reject_zero_line c v ≡ ok r → v ≡ r
unfolding reject_zero_line
reject_zero_line-eq line v h = ground arith
reject_zero_line-eq byte v h = ground arith

-- what a successful read says of the tests at the head
parse_inversion :
    (c : DecimalComponent) (d : ℕ) (s : Bytes) {r : ℕ}
    → parse_canonical_decimal (d ∷ s) c ≡ ok r
    → (all is_ascii_digit (d ∷ s) ≡ true)
      × (starts_with_zero (d ∷ s) ≡ true → length (d ∷ s) ≤ 1)
      × ((accumulate c 0 (d ∷ s) >>= reject_zero_line c) ≡ ok r)
unfolding parse_canonical_decimal
parse_inversion c d s h = (ground arith, λ z. ground arith, ground arith)

-- The reader accepts only canonical numerals: a text that reads as `r` is the print of `r`.
pub parse_canonical_decimal-canonical :
    (c : DecimalComponent) (s : Bytes) {r : ℕ}
    → parse_canonical_decimal s c ≡ ok r
    → (s ≡ decimal r) × (r ≤ u64_max)
parse_canonical_decimal-canonical c [] h = unfold parse_canonical_decimal in cc h
parse_canonical_decimal-canonical c (d ∷ s) {r} h =
    let (ds, lead, run) = parse_inversion c d s h in
    let (v, read, kept) = >>=-eq-ok (accumulate c 0 (d ∷ s)) (reject_zero_line c) run in
    let e : v ≡ r = reject_zero_line-eq c v kept in
    let read' : accumulate c 0 (d ∷ s) ≡ ok r = rw (← e) read in
    (accumulate_first c d s ds lead read', accumulate-le c (d ∷ s) 0 r (omega arith) read')

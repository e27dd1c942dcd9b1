-- ===== src/Protocol/Codec/SnapshotId/RoundTrip.antt =====
-- Printing and reading an identity are inverse to one another.
use native.Mathlib.Nat.{pow-suc}
use hashline_rs.Prelude.{
  ℕ, zero, suc, ◌+◌, ◌*◌, ◌^◌, ◌≤◌, ◌<◌, ◌/◌, ◌%◌, ◌≡◌, refl, ap, ◌∙◌, Bool, true, [], ◌∷◌, ◌++◌,
  append_assoc, append-nil, some, ok, ok_or, Bytes, all, length, length-append, u128_max, arith,
}
use hashline_rs.Protocol.Codec.SnapshotId.{
  SnapshotId, hex_digit, hex, display, is_lower_hex, digit_value, from_str_radix, from_str,
  snapshot_id_hex_len, invalid_character,
}

length-hex : (w n : ℕ) → length (hex w n) ≡ w
unfolding hex
length-hex zero n = refl
length-hex (suc w) n =
    omega (arith, length-hex w (n / 16), length-append (hex w (n / 16)) (hex_digit (n % 16) ∷ []))

digit_value-hex_digit :
    (d : ℕ) → d < 16 → (digit_value (hex_digit d) ≡ d) × (is_lower_hex (hex_digit d) ≡ true)
digit_value-hex_digit d h = ground arith

hex_digit-digit_value :
    (c : ℕ) → is_lower_hex c ≡ true → (hex_digit (digit_value c) ≡ c) × (digit_value c < 16)
hex_digit-digit_value c h = ground arith

all-append :
    (p : ℕ → Bool) (xs ys : Bytes) → all p xs ≡ true → all p ys ≡ true → all p (xs ++ ys) ≡ true
all-append p [] ys h k = k
all-append p (x ∷ xs) ys h k = ground (arith, all-append p xs ys)

hex_lower : (w n : ℕ) → all is_lower_hex (hex w n) ≡ true
unfolding hex
hex_lower zero n = refl
hex_lower (suc w) n =
    all-append is_lower_hex (hex w (n / 16)) (hex_digit (n % 16) ∷ []) (hex_lower w (n / 16))
      (ground (arith, digit_value-hex_digit (n % 16)))

from_str_radix-append :
    (v : ℕ) (xs ys : Bytes) {w : ℕ}
    → from_str_radix v xs ≡ some w
    → from_str_radix v (xs ++ ys) ≡ from_str_radix w ys
unfolding from_str_radix
from_str_radix-append v [] ys h = ground arith
from_str_radix-append v (x ∷ xs) ys {w} h =
    ground (arith, from_str_radix-append (v * 16 + digit_value x) xs ys {w = w})

from_str_radix-hex : (w n : ℕ) → n < 16 ^ w → n ≤ u128_max → from_str_radix 0 (hex w n) ≡ some n
unfolding hex
from_str_radix-hex zero n h k = unfold from_str_radix in ground arith
from_str_radix-hex (suc w) n h k =
    let shorter : n / 16 < 16 ^ w = omega (arith, pow-suc 16 w) in
    rw
      (from_str_radix-append 0 (hex w (n / 16)) (hex_digit (n % 16) ∷ [])
        (from_str_radix-hex w (n / 16) shorter (omega arith)))
      (unfold from_str_radix in ground (arith, digit_value-hex_digit (n % 16)))

accepted :
    (s : Bytes)
    → length s ≡ snapshot_id_hex_len
    → all is_lower_hex s ≡ true
    → from_str s ≡ ok_or invalid_character (from_str_radix 0 s)
unfolding from_str
accepted s e ds = rw (e, ds) refl

-- Every identity below 2 ^ 128 is read back from its display.
pub SnapshotId-from_str-display : (id : SnapshotId) → id ≤ u128_max → from_str (display id) ≡ ok id
unfolding display
SnapshotId-from_str-display id h =
    accepted (hex snapshot_id_hex_len id) (length-hex snapshot_id_hex_len id)
      (hex_lower snapshot_id_hex_len id)
    ∙ ap (ok_or invalid_character) (from_str_radix-hex snapshot_id_hex_len id (omega arith) h)

hex-snoc :
    (j v c : ℕ) → is_lower_hex c ≡ true → hex (suc j) (v * 16 + digit_value c) ≡ hex j v ++ c ∷ []
unfolding hex
hex-snoc j v c h =
    let (same, small) = hex_digit-digit_value c h in
    let q : (v * 16 + digit_value c) / 16 ≡ v = omega arith in
    let r : (v * 16 + digit_value c) % 16 ≡ digit_value c = omega arith in rw (q, r, same) refl

hex-from_str_radix :
    (s : Bytes) (v r j k : ℕ)
    → k ≡ j + length s
    → all is_lower_hex s ≡ true
    → from_str_radix v s ≡ some r
    → hex k r ≡ hex j v ++ s
unfolding from_str_radix
hex-from_str_radix [] v r j k e ds h =
    let e' : k ≡ j = omega arith in let q : v ≡ r = ground arith in rw (append-nil, e', q) refl
hex-from_str_radix (c ∷ s) v r j k e ds h =
    hex-from_str_radix s (v * 16 + digit_value c) r (suc j) k (omega arith) (ground arith)
      (ground arith)
    ∙ rw (hex-snoc j v c (ground arith)) (append_assoc (hex j v) (c ∷ []) s)

from_str_radix-le :
    (s : Bytes) (v r : ℕ) → v ≤ u128_max → from_str_radix v s ≡ some r → r ≤ u128_max
unfolding from_str_radix
from_str_radix-le [] v r le h = ground arith
from_str_radix-le (c ∷ s) v r le h = ground (arith, from_str_radix-le s (v * 16 + digit_value c) r)

inversion :
    (s : Bytes) {id : SnapshotId}
    → from_str s ≡ ok id
    → (length s ≡ snapshot_id_hex_len)
      × (all is_lower_hex s ≡ true)
      × (from_str_radix 0 s ≡ some id)
unfolding from_str
inversion s h = (ground arith, ground arith, ground arith)

-- A text is accepted only as the display of the identity that it is read as.
pub SnapshotId-from_str-canonical :
    (s : Bytes) {id : SnapshotId} → from_str s ≡ ok id → (display id ≡ s) × (id ≤ u128_max)
unfolding display
SnapshotId-from_str-canonical s {id} h =
    let (len, ds, read) = inversion s h in
    (
      hex-from_str_radix s 0 id 0 snapshot_id_hex_len (omega arith) ds read,
      from_str_radix-le s 0 id (omega arith) read,
    )

pub length-display : (id : SnapshotId) → length (display id) ≡ snapshot_id_hex_len
unfolding display
length-display id = length-hex snapshot_id_hex_len id

-- ===== src/Crates.antt =====
-- What src/snapshot.rs and src/edit/engine.rs call of other crates: memchr, simdutf8 and
-- xxhash-rust, what src/protocol.rs calls of serde_json, the seed that the process draws once from
-- the operating system, and the allocator, which may refuse. A snapshot asks it once for its line
-- table, and keeps the answer in its cell.
use hashline_rs.Prelude.{
  ℕ, Bool, true, ◌+◌, ◌≤◌, ◌≡◌, refl, List, [], ◌∷◌, ◌++◌, Option, Bytes, arith, ◌==◌,
  if◌then◌else◌, position, u128_max,
}
use hashline_rs.Protocol.Text.{from_utf8}

pub record Crates : Type 0 where
  -- the index of the first occurrence of a byte
  pub memchr : ℕ → Bytes → Option ℕ
  -- the indices of all its occurrences, ascending
  pub memchr_iter : ℕ → Bytes → List ℕ
  -- `simdutf8::compat::from_utf8`: `none` for `Ok`, and the error's `valid_up_to`
  pub simd_from_utf8 : Bytes → Option ℕ
  pub xxh3_128_with_seed : Bytes → ℕ → ℕ
  pub process_random_seed : ℕ
  -- whether `try_reserve_exact` finds memory for so many elements of so many bytes
  pub try_reserve : ℕ → ℕ → Bool
  -- `serde_json::to_string` of a text
  pub json_string : Bytes → Bytes

-- the indices of a byte in a text whose first byte has the given index
unfoldable pub positions : ℕ → ℕ → Bytes → List ℕ
positions b index [] = []
positions b index (c ∷ s) =
    let rest = positions b (index + 1) s in if c == b then index ∷ rest else rest

-- The documented behaviour of these crates.
pub record CratesLaws (c : Crates) : Type 0 where
  pub memchr_law : (b : ℕ) (s : Bytes) → c.memchr b s ≡ position b s
  pub memchr_iter_law : (b : ℕ) (s : Bytes) → c.memchr_iter b s ≡ positions b 0 s
  pub simd_from_utf8_law : (s : Bytes) → c.simd_from_utf8 s ≡ from_utf8 s
  pub xxh3_law : (s : Bytes) (seed : ℕ) → c.xxh3_128_with_seed s seed ≤ u128_max

-- Functions that behave as documented, with a toy hash.
abbrev pub plain_crates : Crates
plain_crates = record {
  memchr = position;
  memchr_iter = λ b s. positions b 0 s;
  simd_from_utf8 = from_utf8;
  xxh3_128_with_seed = λ s seed. 7;
  process_random_seed = 0;
  try_reserve = λ count width. true;
  json_string = λ s. b'"' ∷ s ++ b'"' ∷ [];
}

pub plain_crates-laws : CratesLaws plain_crates
plain_crates-laws = record {
  memchr_law = λ b s. refl;
  memchr_iter_law = λ b s. refl;
  simd_from_utf8_law = λ s. refl;
  xxh3_law = λ s seed. omega arith;
}

-- ===== src/Search/Grep/Report/Budget.antt =====
-- Which hits an answer of grep reports, in every mode alike, and what its summary says.
use hashline_rs.Prelude.{
  ℕ, suc, ◌+◌, ◌-◌, ◌≤◌, ◌<◌, ◌≡◌, refl, sym, ap, ◌∙◌, ◌⊎◌, inl, inr, Bool, true, false, List, [],
  ◌∷◌, ◌++◌, append_assoc, append-nil, if◌then◌else◌, ltb, leb, Bytes, codes, length, take, u64_max,
  arith, saturating_add, Bool-cases,
}
use hashline_rs.Protocol.Codec.Decimal.{decimal}
use hashline_rs.Protocol.Requests.{GrepOutputMode, content, files_with_matches, count}
use hashline_rs.Search.Grep.{FileHit}
use hashline_rs.Search.Grep.Report.{
  render_summary, is_empty, push_hit, Assembled, assemble_hits, closing, assemble_output,
}
use hashline_rs.Search.Lossy.{to_string_lossy}

abbrev pub total_matches : List FileHit → ℕ
total_matches [] = 0
total_matches (hit ∷ hits) = hit.matches + total_matches hits

-- The part of a hit: its section, its path, or its path with its count.
abbrev pub hit_text : GrepOutputMode → FileHit → Bytes
hit_text content hit = hit.header ++ b'\n' ∷ hit.body
hit_text files_with_matches hit = to_string_lossy hit.rel ++ b'\n' ∷ []
hit_text count hit = to_string_lossy hit.rel ++ (codes ": " ++ (decimal hit.matches ++ b'\n' ∷ []))

-- an empty line between two sections
abbrev between_hits : GrepOutputMode → Bool → Bytes
between_hits content false = b'\n' ∷ []
between_hits _ _ = []

-- The parts of some hits, the first of which stands first or behind others.
abbrev pub hits_text : GrepOutputMode → Bool → List FileHit → Bytes
hits_text mode first [] = []
hits_text mode first (hit ∷ hits) =
    between_hits mode first ++ (hit_text mode hit ++ hits_text mode false hits)

-- A report of hits under a budget: the first ones are shown, the others left out; the shown ones have
-- as many matches as the summary says, but without the last of them the budget is not used up; hits
-- are left out only when it is, and the summary says whether any is.
pub record IsReport (mode : GrepOutputMode) (hits : List FileHit) (budget binary invalid : ℕ)
    (text : Bytes) : Type 0 where
  pub shown : List FileHit
  pub omitted : List FileHit
  pub split : shown ++ omitted ≡ hits
  pub stopped : (omitted ≡ []) ⊎ (budget ≤ total_matches shown)
  pub needed : (shown ≡ []) ⊎ (total_matches (take (length shown - 1) shown) < budget)
  pub rendered :
      text
      ≡ hits_text mode true shown
        ++ (closing mode (hits_text mode true shown)
            ++ render_summary (record {
              matches = total_matches shown;
              truncated = ltb 0 (length omitted);
              skipped_binary = binary;
              skipped_invalid_utf8 = invalid;
            }))

behind : (s t : Bytes) → is_empty t ≡ false → is_empty (s ++ t) ≡ false
behind [] t h = h
behind (x ∷ s) t h = refl

not_empty : (s : Bytes) (b : ℕ) (t : Bytes) → is_empty (s ++ b ∷ t) ≡ false
not_empty [] b t = refl
not_empty (x ∷ s) b t = refl

push_hit_lem :
    (mode : GrepOutputMode) (out : Bytes) (hit : FileHit)
    → push_hit mode out hit ≡ out ++ (between_hits mode (is_empty out) ++ hit_text mode hit)
unfolding push_hit
push_hit_lem content [] hit = refl
push_hit_lem content (b ∷ out) hit = refl
push_hit_lem files_with_matches out hit = refl
push_hit_lem count out hit = refl

-- behind a hit the output is not empty
push_hit-not_empty :
    (mode : GrepOutputMode) (out : Bytes) (hit : FileHit) → is_empty (push_hit mode out hit) ≡ false
unfolding push_hit
push_hit-not_empty content out hit =
    behind out _
      (behind (if is_empty out then [] else b'\n' ∷ []) _ (not_empty hit.header b'\n' hit.body))
push_hit-not_empty files_with_matches out hit =
    behind out _ (not_empty (to_string_lossy hit.rel) b'\n' [])
push_hit-not_empty count out hit = behind out _ (behind (to_string_lossy hit.rel) _ refl)

-- What the loop has done with the hits left to it.
record Loop (mode : GrepOutputMode) (hits : List FileHit) (budget : ℕ) (out : Bytes) (sofar : ℕ)
    (r : Assembled) : Type 0 where
  shown : List FileHit
  omitted : List FileHit
  split : shown ++ omitted ≡ hits
  stopped : (omitted ≡ []) ⊎ (budget ≤ sofar + total_matches shown)
  needed : (shown ≡ []) ⊎ (sofar + total_matches (take (length shown - 1) shown) < budget)
  out_eq : r.out ≡ out ++ hits_text mode (is_empty out) shown
  count_eq : r.shown_matches ≡ sofar + total_matches shown
  flag_eq : r.truncated ≡ ltb 0 (length omitted)

without_last :
    (budget : ℕ) (hit : FileHit) (shown : List FileHit) (sofar : ℕ)
    → sofar < budget
    → (shown ≡ []) ⊎ (sofar + hit.matches + total_matches (take (length shown - 1) shown) < budget)
    → sofar + total_matches (take (length (hit ∷ shown) - 1) (hit ∷ shown)) < budget
without_last budget hit [] sofar h n = omega (arith, h)
without_last budget hit (x ∷ xs) sofar h (inl e) = cc
without_last budget hit (x ∷ xs) sofar h (inr n) =
    let e : suc (suc (length xs)) - 1 ≡ suc (length xs) = omega arith in
    let f : suc (length xs) - 1 ≡ length xs = omega arith in rw e (omega (arith, rw f at n))

appended :
    (mode : GrepOutputMode) (out : Bytes) (hit : FileHit) (shown : List FileHit)
    → push_hit mode out hit ++ hits_text mode (is_empty (push_hit mode out hit)) shown
      ≡ out ++ hits_text mode (is_empty out) (hit ∷ shown)
appended mode out hit shown =
    rw (push_hit-not_empty mode out hit, push_hit_lem mode out hit)
      (append_assoc out _ _
        ∙ ap (λ t. out ++ t) (append_assoc (between_hits mode (is_empty out)) _ _))

assemble_hits-Loop :
    (mode : GrepOutputMode) (budget : ℕ) (hits : List FileHit) (out : Bytes) (sofar : ℕ)
    → sofar + total_matches hits ≤ u64_max
    → Loop mode hits budget out sofar (assemble_hits mode budget hits out sofar)
unfolding assemble_hits
assemble_hits-Loop mode budget [] out sofar h = record {
  shown = [];
  omitted = [];
  split = refl;
  stopped = inl refl;
  needed = inl refl;
  out_eq = sym (append-nil out);
  count_eq = omega arith;
  flag_eq = refl;
}
assemble_hits-Loop mode budget (hit ∷ hits) out sofar h = elim (Bool-cases (leb budget sofar)) [
  | inl used ↦ rw used (record {
    shown = [];
    omitted = hit ∷ hits;
    split = refl;
    stopped = inr (ground arith);
    needed = inl refl;
    out_eq = sym (append-nil out);
    count_eq = omega arith;
    flag_eq = ground arith;
  })
  | inr left ↦
      let exact : saturating_add sofar hit.matches ≡ sofar + hit.matches = ground arith in
      let rest =
        assemble_hits-Loop mode budget hits (push_hit mode out hit) (sofar + hit.matches)
          (omega (arith, h)) in
      rw (left, exact)
        (record {
          shown = hit ∷ rest.shown;
          omitted = rest.omitted;
          split = ap (◌∷◌ hit) rest.split;
          stopped = elim rest.stopped [ inl e ↦ inl e | inr full ↦ inr (omega (arith, full)) ];
          needed = inr (without_last budget hit rest.shown sofar (ground arith) rest.needed);
          out_eq = rest.out_eq ∙ appended mode out hit rest.shown;
          count_eq = omega (arith, rest.count_eq);
          flag_eq = rest.flag_eq;
        })
]

-- In every mode alike, the answer reports the first hits under the budget of matches: without the last
-- of them it is not used up, and hits are left out only when it is. The summary counts the matches of
-- the reported hits, which may go beyond the budget in the last of them, and says truly whether any
-- of the hits is left out.
pub assemble_output-IsReport :
    (mode : GrepOutputMode) (hits : List FileHit) (budget binary invalid : ℕ)
    → total_matches hits ≤ u64_max
    → IsReport mode hits budget binary invalid (assemble_output mode hits budget binary invalid)
unfolding assemble_output
assemble_output-IsReport mode hits budget binary invalid h =
    let loop = assemble_hits-Loop mode budget hits [] 0 (omega (arith, h)) in
    let counted : (assemble_hits mode budget hits [] 0).shown_matches ≡ total_matches loop.shown =
      omega (arith, loop.count_eq) in
    record {
      shown = loop.shown;
      omitted = loop.omitted;
      split = loop.split;
      stopped = elim loop.stopped [ inl e ↦ inl e | inr full ↦ inr (omega (arith, full)) ];
      needed = elim loop.needed [ inl e ↦ inl e | inr room ↦ inr (omega (arith, room)) ];
      rendered = rw (loop.out_eq, counted, loop.flag_eq) refl;
    }

-- ===== src/Search/Grep/Report.antt =====
-- `assemble_output` of src/grep.rs: the hits of one search under the budget of matches.
pub mod Budget
use hashline_rs.Prelude.{
  ℕ, zero, suc, Bool, true, false, not, ◌&&◌, List, [], ◌∷◌, ◌++◌, if◌then◌else◌, leb, Bytes, codes,
  saturating_add,
}
use hashline_rs.Protocol.Codec.Decimal.{decimal}
use hashline_rs.Protocol.Requests.{GrepOutputMode, content, files_with_matches, count, is_content}
use hashline_rs.Search.Glob.{bool_text}
use hashline_rs.Search.Grep.{FileHit}
use hashline_rs.Search.Lossy.{to_string_lossy}

pub record GrepSummary : Type 0 where
  pub matches : ℕ
  pub truncated : Bool
  pub skipped_binary : ℕ
  pub skipped_invalid_utf8 : ℕ

-- `GrepSummary::render`
unfoldable pub render_summary : GrepSummary → Bytes
render_summary s =
    codes "[hashline matches="
    ++ (decimal s.matches
        ++ (codes " truncated="
            ++ (bool_text s.truncated
                ++ (codes " skipped_binary="
                    ++ (decimal s.skipped_binary
                        ++ (codes " skipped_invalid_utf8="
                            ++ (decimal s.skipped_invalid_utf8 ++ codes "]")))))))

-- `is_empty`
abbrev pub is_empty : Bytes → Bool
is_empty [] = true
is_empty (b ∷ s) = false

-- the match on the mode: what a hit puts behind `out`
unfoldable pub push_hit : GrepOutputMode → Bytes → FileHit → Bytes
push_hit content out hit =
    out ++ ((if is_empty out then [] else b'\n' ∷ []) ++ (hit.header ++ b'\n' ∷ hit.body))
push_hit files_with_matches out hit = out ++ (to_string_lossy hit.rel ++ b'\n' ∷ [])
push_hit count out hit =
    out ++ (to_string_lossy hit.rel ++ (codes ": " ++ (decimal hit.matches ++ b'\n' ∷ [])))

-- what the loop leaves in `out`, `shown_matches` and `truncated`
pub record Assembled : Type 0 where
  pub out : Bytes
  pub shown_matches : ℕ
  pub truncated : Bool

unfoldable pub assemble_hits : GrepOutputMode → ℕ → List FileHit → Bytes → ℕ → Assembled
unfolding push_hit
assemble_hits mode max_matches [] out shown_matches = record {
  out = out;
  shown_matches = shown_matches;
  truncated = false;
}
assemble_hits mode max_matches (hit ∷ hits) out shown_matches =
    let rest =
      assemble_hits mode max_matches hits (push_hit mode out hit)
        (saturating_add shown_matches hit.matches) in
    if leb max_matches shown_matches
    then record { out = out; shown_matches = shown_matches; truncated = true }
    else rest

-- the empty line before the summary
abbrev pub closing : GrepOutputMode → Bytes → Bytes
closing mode out = if not (is_empty out) && is_content mode then b'\n' ∷ [] else []

unfoldable pub assemble_output : GrepOutputMode → List FileHit → ℕ → ℕ → ℕ → Bytes
unfolding assemble_hits render_summary
assemble_output mode hits max_matches skipped_binary skipped_invalid_utf8 =
    let assembled = assemble_hits mode max_matches hits [] 0 in
    assembled.out
    ++ (closing mode assembled.out
        ++ render_summary (record {
          matches = assembled.shown_matches;
          truncated = assembled.truncated;
          skipped_binary = skipped_binary;
          skipped_invalid_utf8 = skipped_invalid_utf8;
        }))

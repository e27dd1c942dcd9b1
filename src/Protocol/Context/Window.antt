-- ===== src/Protocol/Context/Window.antt =====
-- The context of a conflict: at most five consecutive lines round the named one, each at a position
-- that the current text accepts, with the content that it has there.
use hashline_rs.Prelude.{
  ℕ, zero, suc, ◌+◌, ◌-◌, ◌≤◌, ◌<◌, ◌≡◌, refl, ap, ◌∙◌, min, max, List, [], ◌∷◌, map, some, ok,
  Bytes, length, get_elem?, get_or, slice, arith, All, u64_max,
}
use hashline_rs.Protocol.Errors.{ContextLine, conflict_context_lines}
use hashline_rs.Protocol.Text.{validate_text}
use hashline_rs.Protocol.Text.Policy.{IsText, IsText→validate_text}
use hashline_rs.Protocol.Lines.{reference_line_starts, boundary_ordinal}
use hashline_rs.Protocol.Lines.Starts.{length-starts_after-le, byte_at, byte_at-le}
use hashline_rs.Protocol.Context.Ending.{without_ending, content_end-without_ending}
use hashline_rs.Protocol.Context.{
  context_line, context_lines, center_of, end_of, start_of, reference_context,
}

-- `count` line numbers from `line` on
pub numbers : ℕ → ℕ → List ℕ
numbers line zero = []
numbers line (suc count) = line ∷ numbers (line + 1) count

abbrev pub number_of : ContextLine → ℕ
number_of l = l.position.line

-- The position of the line is one that the text accepts, with the line's own ordinal.
abbrev pub IsPlaced : Bytes → ContextLine → Type 0
IsPlaced text l =
    boundary_ordinal text (reference_line_starts text) l.position ≡ ok (l.position.line - 1)

-- The content of the line is what the text has from its position to the next line, without its ending.
abbrev pub IsShown : Bytes → ContextLine → Type 0
IsShown text l =
    l.content ≡ without_ending (slice l.position.byte (byte_at text l.position.line) text)

module _ (line_count center_line : ℕ) (some_line : 1 ≤ line_count)
    (fits : line_count + 2 ≤ u64_max) where
  abbrev center : ℕ
  center = center_of line_count center_line

  center_bounds : (1 ≤ center) × (center ≤ line_count)
  center_bounds = omega arith

  end_of-min : end_of line_count center ≡ min (center + 2) line_count
  end_of-min = let (p, q) = center_bounds in ground arith

  start_of-max : start_of line_count center ≡ max (center - 2) 1
  start_of-max = let (p, q) = center_bounds in rw (end_of-min) (omega arith)

numbers-context_lines :
    (text : Bytes) (starts : List ℕ) (line count : ℕ)
    → map number_of (context_lines text starts line count) ≡ numbers line count
unfolding context_lines context_line numbers
numbers-context_lines text starts line zero = refl
numbers-context_lines text starts line (suc count) =
    ap (◌∷◌ line) (numbers-context_lines text starts (line + 1) count)

length-context_lines :
    (text : Bytes) (starts : List ℕ) (line count : ℕ)
    → length (context_lines text starts line count) ≡ count
unfolding context_lines
length-context_lines text starts line zero = refl
length-context_lines text starts line (suc count) =
    ap suc (length-context_lines text starts (line + 1) count)

pub get_elem?-get_or : (l : List ℕ) (i d : ℕ) → i < length l → get_elem? l i ≡ some (get_or l i d)
get_elem?-get_or [] i d h = absurd (omega arith)
get_elem?-get_or (x ∷ l) zero d h = refl
get_elem?-get_or (x ∷ l) (suc i) d h = get_elem?-get_or l i d (omega arith)

context_line-IsPlaced :
    (text : Bytes) (line : ℕ)
    → 1 ≤ line
    → line ≤ length (reference_line_starts text)
    → IsPlaced text (context_line text (reference_line_starts text) line)
unfolding context_line boundary_ordinal
context_line-IsPlaced text line h k =
    ground (arith, get_elem?-get_or (reference_line_starts text) (line - 1) 0)

context_lines-IsPlaced :
    (text : Bytes) (line count : ℕ)
    → 1 ≤ line
    → line + count ≤ length (reference_line_starts text) + 1
    → All (IsPlaced text) (context_lines text (reference_line_starts text) line count)
unfolding context_lines
context_lines-IsPlaced text line zero h k = tt
context_lines-IsPlaced text line (suc count) h k = (
  context_line-IsPlaced text line h (omega arith),
  context_lines-IsPlaced text (line + 1) count (omega arith) (omega arith),
)

context_lines-IsShown :
    (text : Bytes) (line count : ℕ)
    → All (IsShown text) (context_lines text (reference_line_starts text) line count)
unfolding context_lines context_line
context_lines-IsShown text line zero = tt
context_lines-IsShown text line (suc count) = (
  content_end-without_ending text (get_or (reference_line_starts text) (line - 1) 0)
      (byte_at text line) (byte_at-le text line),
  context_lines-IsShown text (line + 1) count,
)

-- What the context of a conflict shows of a text, round the line that the request names.
pub record IsWindow (text : Bytes) (center_line : ℕ) (context : List ContextLine) : Type 0 where
  -- two lines on either side of the named one, cut at the ends of the text
  pub shown :
      (first last : ℕ) × (first
        ≡ max (center_of (length (reference_line_starts text)) center_line - 2) 1)
      × (last
          ≡ min
              (center_of (length (reference_line_starts text)) center_line + 2)
              (length (reference_line_starts text)))
      × (map number_of context ≡ numbers first (last + 1 - first))
  pub few : length context ≤ conflict_context_lines
  pub some_line : 1 ≤ length context
  -- each at a position that an edit of the current text accepts
  pub placed : All (IsPlaced text) context
  -- and with the text's own content
  pub contents : All (IsShown text) context

reference_context-lines :
    (text : Bytes) (center_line : ℕ)
    → validate_text text ≡ ok text
    → (let n = length (reference_line_starts text) in
        let center = center_of n center_line in
        reference_context text center_line
        ≡ ok (
            context_lines text
              (reference_line_starts text)
              (start_of n center)
              (end_of n center + 1 - start_of n center)))
unfolding reference_context
reference_context-lines text center_line h = rw h refl

-- The context of a valid text consists of the lines up to two before and two after the named one,
-- clamped to the text, never none and at most five, each at a position that the text accepts and with
-- the content that the text has there, without the line's ending.
pub reference_context-IsWindow :
    (text : Bytes) (center_line : ℕ)
    → IsText text
    → (context : List ContextLine) × (reference_context text center_line ≡ ok context)
      × IsWindow text center_line context
reference_context-IsWindow text center_line t =
    (context, reference_context-lines text center_line (IsText→validate_text text t), window)
  where
    starts : List ℕ
    starts = reference_line_starts text

    n : ℕ
    n = length starts

    c : ℕ
    c = center_of n center_line

    pos : 1 ≤ n
    pos = unfold reference_line_starts in omega arith

    fits : n + 2 ≤ u64_max
    fits = unfold reference_line_starts in omega (arith, length-starts_after-le 0 text, t.small)

    first : ℕ
    first = start_of n c

    count : ℕ
    count = end_of n c + 1 - first

    context : List ContextLine
    context = context_lines text starts first count

    len : length context ≡ count
    len = length-context_lines text starts first count

    window : IsWindow text center_line context
    window =
        let (lo, hi) = center_bounds n center_line pos fits in
        let e = end_of-min n center_line pos fits in
        let s = start_of-max n center_line pos fits in
        record {
          shown = (
            max (c - 2) 1,
            min (c + 2) n,
            refl,
            refl,
            numbers-context_lines text starts first count ∙ rw (s, e) refl,
          );
          few = omega (arith, len, e, s);
          some_line = omega (arith, len, e, s);
          placed = context_lines-IsPlaced text first count (omega (arith, s)) (omega (arith, e, s));
          contents = context_lines-IsShown text first count;
        }

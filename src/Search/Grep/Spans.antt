-- ===== src/Search/Grep/Spans.antt =====
-- The spans of src/grep.rs cover exactly the lines around the matches, in ascending order and with a gap
-- between any two.
use hashline_rs.Prelude.{
  ℕ, ◌+◌, ◌-◌, ◌≤◌, ◌<◌, ◌≡◌, ◌∙◌, Bool, false, ◌&&◌, ◌||◌, List, [], ◌∷◌, ltb, leb, All, AllPairs,
  u64_max, arith,
}
use hashline_rs.Search.Grep.{Span, add_window, window_of, merge_windows, included_spans}

-- a line in a span, and in one of several
abbrev pub inside : Span → ℕ → Bool
inside span line = leb span.start line && ltb line span.end

abbrev pub covers : List Span → ℕ → Bool
covers [] line = false
covers (span ∷ spans) line = inside span line || covers spans line

-- a line around one of the matches, which are counted from one
abbrev pub near : ℕ → ℕ → List ℕ → ℕ → Bool
near before after [] line = false
near before after (m ∷ ms) line =
    (leb m (line + 1 + before) && leb (line + 1) (m + after)) || near before after ms line

-- A gap of a line at least.
abbrev pub Gapped : Span → Span → Type 0
Gapped a b = a.end < b.start

abbrev pub Nonempty : Span → Type 0
Nonempty a = a.start < a.end

-- starts at or before a line
abbrev pub Upto : ℕ → Span → Type 0
Upto n a = a.start ≤ n

add_window-covers :
    (spans : List Span) (w : Span) (line : ℕ)
    → All (Upto w.start) spans
    → covers (add_window spans w) line ≡ (covers spans line || inside w line)
unfolding add_window
add_window-covers [] w line h = ground arith
add_window-covers (s ∷ []) w line (h, _) = ground arith
add_window-covers (s ∷ t ∷ spans) w line (h, hs) =
    ground (arith, add_window-covers (t ∷ spans) w line hs)

add_window-Upto :
    (spans : List Span) (w : Span)
    → All (Upto w.start) spans
    → All (Upto w.start) (add_window spans w)
unfolding add_window
add_window-Upto [] w h = (omega arith, tt)
add_window-Upto (s ∷ []) w (h, _) = ground arith
add_window-Upto (s ∷ t ∷ spans) w (h, hs) = (h, add_window-Upto (t ∷ spans) w hs)

add_window-Nonempty :
    (spans : List Span) (w : Span)
    → Nonempty w
    → All Nonempty spans
    → All Nonempty (add_window spans w)
unfolding add_window
add_window-Nonempty [] w n h = (n, tt)
add_window-Nonempty (s ∷ []) w n (h, _) = ground arith
add_window-Nonempty (s ∷ t ∷ spans) w n (h, hs) = (h, add_window-Nonempty (t ∷ spans) w n hs)

-- what lies behind a gap still does
Gapped-behind :
    (a t : Span) (spans : List Span) (w : Span)
    → All (Gapped a) (t ∷ spans)
    → All (Upto w.start) (t ∷ spans)
    → All (Gapped a) (add_window (t ∷ spans) w)
unfolding add_window
Gapped-behind a t [] w (g, _) (h, _) = ground arith
Gapped-behind a t (u ∷ spans) w (g, gs) (h, hs) = (g, Gapped-behind a u spans w gs hs)

add_window-Gapped :
    (spans : List Span) (w : Span)
    → All (Upto w.start) spans
    → AllPairs Gapped spans
    → AllPairs Gapped (add_window spans w)
unfolding add_window
add_window-Gapped [] w h g = (tt, tt)
add_window-Gapped (s ∷ []) w (h, _) g = ground arith
add_window-Gapped (s ∷ t ∷ spans) w (h, hs) (g, gs) =
    (Gapped-behind s t spans w g hs, add_window-Gapped (t ∷ spans) w hs gs)

add_window-start :
    (n : ℕ) (spans : List Span) (w : Span)
    → w.start ≤ n
    → All (Upto n) spans
    → All (Upto n) (add_window spans w)
unfolding add_window
add_window-start n [] w le h = (le, tt)
add_window-start n (s ∷ []) w le (h, _) = ground arith
add_window-start n (s ∷ t ∷ spans) w le (h, hs) = (h, add_window-start n (t ∷ spans) w le hs)

-- Matches as the searcher gives them: ascending numbers from one on, far from the largest number.
abbrev pub Usual : ℕ → ℕ → Type 0
Usual after m = (1 ≤ m) × (m + after < u64_max)

module _ (before after : ℕ) where
  window_of-near :
      (m line : ℕ)
      → Usual after m
      → inside (window_of before after m) line
        ≡ (leb m (line + 1 + before) && leb (line + 1) (m + after))
  window_of-near m line (h, k) = ground arith

  abbrev From : ℕ → ℕ → Type 0
  From lo m = lo ≤ m - 1 - before

  later-From : (m : ℕ) (ms : List ℕ) → All (λ k. m < k) ms → All (From (m - 1 - before)) ms
  later-From m [] h = tt
  later-From m (k ∷ ms) (h, hs) = (omega arith, later-From m ms hs)

  merge_windows-start :
      (n : ℕ) (matched : List ℕ) (spans : List Span)
      → All (λ m. m ≤ n + 1) matched
      → All (Upto n) spans
      → All (Upto n) (merge_windows matched before after spans)
  unfolding merge_windows
  merge_windows-start n [] spans h u = u
  merge_windows-start n (m ∷ ms) spans (h, hs) u =
      merge_windows-start n ms (add_window spans (window_of before after m)) hs
        (add_window-start n spans (window_of before after m) (omega (arith, h)) u)

  -- a span starts at a match or before it
  pub included_spans-start :
      (n : ℕ) (matched : List ℕ)
      → All (λ m. m ≤ n + 1) matched
      → All (Upto n) (included_spans matched before after)
  unfolding included_spans
  included_spans-start n matched h = merge_windows-start n matched [] h tt

  -- what the loop keeps
  record Merging (lo : ℕ) (spans : List Span) : Type 0 where
    upto : All (Upto lo) spans
    gapped : AllPairs Gapped spans
    nonempty : All Nonempty spans

  raise : (lo hi : ℕ) (spans : List Span) → lo ≤ hi → All (Upto lo) spans → All (Upto hi) spans
  raise lo hi [] h u = tt
  raise lo hi (s ∷ spans) h (u, us) = (omega arith, raise lo hi spans h us)

  add_window-Merging :
      (lo m : ℕ) (spans : List Span)
      → Usual after m
      → From lo m
      → Merging lo spans
      → Merging (m - 1 - before) (add_window spans (window_of before after m))
  add_window-Merging lo m spans (one, small) from k =
      let w = window_of before after m in
      let upto = raise lo (m - 1 - before) spans from k.upto in
      record {
        upto = add_window-Upto spans w upto;
        gapped = add_window-Gapped spans w upto k.gapped;
        nonempty = add_window-Nonempty spans w (ground arith) k.nonempty;
      }

  -- The spans ascend with gaps, none is empty, and they cover the lines that the first ones covered
  -- and those round the matches.
  record Merged (matched : List ℕ) (first spans : List Span) : Type 0 where
    gapped : AllPairs Gapped spans
    nonempty : All Nonempty spans
    covered : (line : ℕ) → covers spans line ≡ (covers first line || near before after matched line)

  or_assoc : (a b d : Bool) → ((a || b) || d) ≡ (a || (b || d))
  or_assoc a b d = ground arith

  merge_windows-Merged :
      (lo : ℕ) (matched : List ℕ) (spans : List Span)
      → All (Usual after) matched
      → AllPairs ◌<◌ matched
      → All (From lo) matched
      → Merging lo spans
      → Merged matched spans (merge_windows matched before after spans)
  unfolding merge_windows
  merge_windows-Merged lo [] spans u a f k = record {
    gapped = k.gapped;
    nonempty = k.nonempty;
    covered = λ line. ground arith;
  }
  merge_windows-Merged lo (m ∷ ms) spans (u, us) (a, as') (f, fs) k =
      let w = window_of before after m in
      let rest =
        merge_windows-Merged (m - 1 - before) ms (add_window spans w) us as' (later-From m ms a)
          (add_window-Merging lo m spans u f k) in
      record {
        gapped = rest.gapped;
        nonempty = rest.nonempty;
        covered = λ line.
            rest.covered line
            ∙ rw
                (
                  add_window-covers spans w line (raise lo (m - 1 - before) spans f k.upto),
                  window_of-near m line u,
                )
                (or_assoc (covers spans line) _ (near before after ms line));
      }

  -- For matches in ascending order, the spans ascend, none is empty, between any two there is a line
  -- that is in none, and they cover exactly the lines that lie in the context of a match.
  pub record IsMerged (matched : List ℕ) (spans : List Span) : Type 0 where
    pub gapped : AllPairs Gapped spans
    pub nonempty : All Nonempty spans
    pub covered : (line : ℕ) → covers spans line ≡ near before after matched line

  -- Of ascending matches, the spans ascend, none is empty, any two have a line between them that is
  -- in neither, and a line is in one of them exactly if it lies in the context of a match.
  pub included_spans-IsMerged :
      (matched : List ℕ)
      → All (Usual after) matched
      → AllPairs ◌<◌ matched
      → IsMerged matched (included_spans matched before after)
  unfolding included_spans
  included_spans-IsMerged matched u a =
      let m =
        merge_windows-Merged 0 matched [] u a (from_zero matched)
          (record { upto = tt; gapped = tt; nonempty = tt }) in
      record { gapped = m.gapped; nonempty = m.nonempty; covered = m.covered }
    where
      from_zero : (l : List ℕ) → All (From 0) l
      from_zero [] = tt
      from_zero (k ∷ l) = (omega arith, from_zero l)

-- ===== src/Search/Grep/Order.antt =====
-- The answer of a tree search does not depend on the order in which the workers' visits take effect.
use Prim.Native.Nat.{compare}
use mathlib.Core.List.{Perm, Permᴰ, perm_append_comm}
use mathlib.Core.List.Perm
use hashline_rs.Prelude.{
  ℕ, ◌+◌, ◌≡◌, refl, sym, ap, ◌∙◌, List, [], ◌∷◌, ◌++◌, append_assoc, append-nil, Option, none,
  some, Result, ok, err, Bytes, All, arith,
}
use hashline_rs.Prelude.Sorting.{IsOrder, list_cmp, list_cmp-IsOrder, compare-IsOrder, sort_by}
use hashline_rs.Prelude.Sorting.Keys.{KeysDiffer, sort_by_unique}
use hashline_rs.Crates.{Crates}
use hashline_rs.Paths.{FilePath}
use hashline_rs.Protocol.Errors.{ProtocolError, ContractError}
use hashline_rs.Snapshot.{IoError}
use hashline_rs.Search.Grep.{FileHit}
use hashline_rs.Search.Grep.Report.{assemble_output}
use hashline_rs.Search.Grep.Files.{
  Skipped, no_skips, tree_entry, search_file, search_text, GrepText, search, skip_binary,
  skip_invalid_utf8, classify_grep_text,
}
use hashline_rs.Search.Grep.Files.Walk.{
  Walking, SearchContext, Visit, passed, read, relative_to, settle_visit, visit, visit_all,
  path_key, rel_le, finish_walk, fresh_walk,
}

module _ (c : Crates) (ctx : SearchContext) where
  -- what the search of one visit gives, from counters at zero
  abbrev outcome : Visit → Result ProtocolError (Option FileHit) × Skipped
  outcome passed = (ok none, no_skips)
  outcome (read path answer) =
      search_file c ctx.searcher ctx.options path (relative_to ctx.root path) tree_entry no_skips
        answer

  search_shift :
      (path rel : FilePath) (k : Skipped) (answer : Result IoError Bytes)
      → (let r = search_file c ctx.searcher ctx.options path rel tree_entry k answer in
          let z = search_file c ctx.searcher ctx.options path rel tree_entry no_skips answer in
          (r.0 ≡ z.0)
          × (r.1.binary ≡ k.binary + z.1.binary)
          × (r.1.invalid_utf8 ≡ k.invalid_utf8 + z.1.invalid_utf8))
  unfolding search_file
  search_shift path rel k (err e) = (refl, omega arith, omega arith)
  search_shift path rel k (ok bytes) = by_text (classify_grep_text bytes tree_entry)
    where
      by_text :
          (r : Result ContractError GrepText)
          → (let o = search_text c ctx.searcher ctx.options rel bytes k r in
              let z = search_text c ctx.searcher ctx.options rel bytes no_skips r in
              (o.0 ≡ z.0)
              × (o.1.binary ≡ k.binary + z.1.binary)
              × (o.1.invalid_utf8 ≡ k.invalid_utf8 + z.1.invalid_utf8))
      by_text (ok (search text)) = (refl, omega arith, omega arith)
      by_text (ok skip_binary) = (refl, omega arith, omega arith)
      by_text (ok skip_invalid_utf8) = (refl, omega arith, omega arith)
      by_text (err e) = (refl, omega arith, omega arith)

  -- a visit that ends without an error
  abbrev pub Fine : Visit → Type 0
  Fine v = (found : Option FileHit) × ((outcome v).0 ≡ ok found)

  abbrev hits_of : Result ProtocolError (Option FileHit) → List FileHit
  hits_of (ok none) = []
  hits_of (ok (some hit)) = hit ∷ []
  hits_of (err e) = []

  abbrev pub found_hits : List Visit → List FileHit
  found_hits [] = []
  found_hits (v ∷ visits) = hits_of (outcome v).0 ++ found_hits visits

  abbrev binaries : List Visit → ℕ
  binaries [] = 0
  binaries (v ∷ visits) = (outcome v).1.binary + binaries visits

  abbrev invalids : List Visit → ℕ
  invalids [] = 0
  invalids (v ∷ visits) = (outcome v).1.invalid_utf8 + invalids visits

  -- what a visit changes
  record Visited (z : Result ProtocolError (Option FileHit) × Skipped) (w next : Walking)
      : Type 0 where
    error_eq : next.error ≡ w.error
    hits_eq : next.hits ≡ w.hits ++ hits_of z.0
    binary_eq : next.skipped.binary ≡ w.skipped.binary + z.1.binary
    invalid_eq : next.skipped.invalid_utf8 ≡ w.skipped.invalid_utf8 + z.1.invalid_utf8

  settle_visit-Visited :
      (w : Walking) (r z : Result ProtocolError (Option FileHit) × Skipped) {found : Option FileHit}
      → r.0 ≡ z.0
      → r.1.binary ≡ w.skipped.binary + z.1.binary
      → r.1.invalid_utf8 ≡ w.skipped.invalid_utf8 + z.1.invalid_utf8
      → z.0 ≡ ok found
      → Visited z w (settle_visit ctx w r).0
  unfolding settle_visit
  settle_visit-Visited w (ok (some hit), k) z e b i f = record {
    error_eq = refl;
    hits_eq = rw (sym e) refl;
    binary_eq = b;
    invalid_eq = i;
  }
  settle_visit-Visited w (ok none, k) z e b i f = record {
    error_eq = refl;
    hits_eq = rw (sym e) (sym (append-nil w.hits));
    binary_eq = b;
    invalid_eq = i;
  }
  settle_visit-Visited w (err g, k) z e b i f = (let h = e ∙ f in cc)

  visit-Visited : (v : Visit) (w : Walking) → Fine v → Visited (outcome v) w (visit c ctx w v).0
  unfolding visit settle_visit
  visit-Visited passed w f = record {
    error_eq = refl;
    hits_eq = sym (append-nil w.hits);
    binary_eq = omega arith;
    invalid_eq = omega arith;
  }
  visit-Visited (read path answer) w (found, fine) =
      let (e, b, i) = search_shift path (relative_to ctx.root path) w.skipped answer in
      settle_visit-Visited w _ (outcome (read path answer)) e b i fine

  -- what all visits change
  record Walked (visits : List Visit) (w next : Walking) : Type 0 where
    error_eq : next.error ≡ w.error
    hits_eq : next.hits ≡ w.hits ++ found_hits visits
    binary_eq : next.skipped.binary ≡ w.skipped.binary + binaries visits
    invalid_eq : next.skipped.invalid_utf8 ≡ w.skipped.invalid_utf8 + invalids visits

  visit_all-Walked :
      (visits : List Visit) (w : Walking)
      → All Fine visits
      → Walked visits w (visit_all c ctx visits w)
  unfolding visit_all
  visit_all-Walked [] w f = record {
    error_eq = refl;
    hits_eq = sym (append-nil w.hits);
    binary_eq = omega arith;
    invalid_eq = omega arith;
  }
  visit_all-Walked (v ∷ visits) w (f, fs) =
      let first = visit-Visited v w f in
      let rest = visit_all-Walked visits (visit c ctx w v).0 fs in
      record {
        error_eq = rest.error_eq ∙ first.error_eq;
        hits_eq =
            rest.hits_eq
            ∙ ap (λ l. l ++ found_hits visits) first.hits_eq
            ∙ append_assoc w.hits (hits_of (outcome v).0) (found_hits visits);
        binary_eq = omega (arith, rest.binary_eq, first.binary_eq);
        invalid_eq = omega (arith, rest.invalid_eq, first.invalid_eq);
      }

  finish_walk-found :
      (max_matches : ℕ) (visits : List Visit)
      → All Fine visits
      → finish_walk ctx max_matches (visit_all c ctx visits fresh_walk)
        ≡ ok (
            assemble_output ctx.options.mode
              (sort_by rel_le (found_hits visits))
              max_matches
              (binaries visits)
              (invalids visits))
  unfolding finish_walk
  finish_walk-found max_matches visits f =
      let w = visit_all-Walked visits fresh_walk f in
      let b : (visit_all c ctx visits fresh_walk).skipped.binary ≡ binaries visits =
        omega (arith, w.binary_eq) in
      let i : (visit_all c ctx visits fresh_walk).skipped.invalid_utf8 ≡ invalids visits =
        omega (arith, w.invalid_eq) in
      rw (finish_walk, w.error_eq, w.hits_eq, b, i) refl

  found_hits-perm : {l r : List Visit} → Permᴰ l r → Perm (found_hits l) (found_hits r)
  found_hits-perm Permᴰ.nil = Perm.rfl
  found_hits-perm (Permᴰ.cons {a = a} e p) =
      rw (sym e) (Perm.append_left (hits_of (outcome a).0) (found_hits-perm p))
  found_hits-perm (Permᴰ.swap {a = a} {b = b} {l = l} e f) =
      rw (sym e, sym f)
        (rw
          (
            sym (append_assoc (hits_of (outcome a).0) (hits_of (outcome b).0) (found_hits l)),
            sym (append_assoc (hits_of (outcome b).0) (hits_of (outcome a).0) (found_hits l)),
          )
          (Perm.append_right (found_hits l)
            (perm_append_comm (hits_of (outcome a).0) (hits_of (outcome b).0))))
  found_hits-perm (Permᴰ.trans p q) = Perm.trans (found_hits-perm p) (found_hits-perm q)

  binaries-perm : {l r : List Visit} → Permᴰ l r → binaries l ≡ binaries r
  binaries-perm Permᴰ.nil = refl
  binaries-perm (Permᴰ.cons e p) = rw (sym e, binaries-perm p) refl
  binaries-perm (Permᴰ.swap e f) = rw (sym e, sym f) (omega arith)
  binaries-perm (Permᴰ.trans p q) = binaries-perm p ∙ binaries-perm q

  invalids-perm : {l r : List Visit} → Permᴰ l r → invalids l ≡ invalids r
  invalids-perm Permᴰ.nil = refl
  invalids-perm (Permᴰ.cons e p) = rw (sym e, invalids-perm p) refl
  invalids-perm (Permᴰ.swap e f) = rw (sym e, sym f) (omega arith)
  invalids-perm (Permᴰ.trans p q) = invalids-perm p ∙ invalids-perm q

  Fine-perm : {l r : List Visit} → Permᴰ l r → All Fine l → All Fine r
  Fine-perm Permᴰ.nil f = tt
  Fine-perm (Permᴰ.cons {b = b} e p) (f, fs) = let g : Fine b = rw e at f in (g, Fine-perm p fs)
  Fine-perm (Permᴰ.swap {a' = a'} {b' = b'} e f) (x, (y, fs)) =
      let first : Fine a' = rw f at y in let second : Fine b' = rw e at x in (first, (second, fs))
  Fine-perm (Permᴰ.trans p q) f = Fine-perm q (Fine-perm p f)

  abbrev order : IsOrder (list_cmp (list_cmp compare))
  order = list_cmp-IsOrder (list_cmp compare) (list_cmp-IsOrder compare compare-IsOrder)

  -- no two hits have one path
  abbrev pub PathsDiffer : List FileHit → Type 0
  PathsDiffer = KeysDiffer order (λ hit. path_key hit.rel)

  -- In whatever order the workers' visits of the same entries take effect, the answer is the same, where
  -- none fails and no two hits have one path.
  pub finish_walk-order :
      (max_matches : ℕ) {l r : List Visit}
      → Permᴰ l r
      → All Fine l
      → PathsDiffer (found_hits l)
      → finish_walk ctx max_matches (visit_all c ctx l fresh_walk)
        ≡ finish_walk ctx max_matches (visit_all c ctx r fresh_walk)
  finish_walk-order max_matches {l} {r} p f d =
      finish_walk-found max_matches l f
      ∙ (rw
            (
              sort_by_unique order (λ hit. path_key hit.rel) (found_hits l) (found_hits r) d
                  (found_hits-perm p),
              binaries-perm p,
              invalids-perm p,
            )
            refl
          ∙ sym (finish_walk-found max_matches r (Fine-perm p f)))

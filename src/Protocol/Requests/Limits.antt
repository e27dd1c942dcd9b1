-- ===== src/Protocol/Requests/Limits.antt =====
-- The validators accept exactly the requests within the limits of the protocol.
use hashline_rs.Prelude.{ℕ, ◌≤◌, ◌≡◌, ◌≢◌, ◌↔◌, ◌⊎◌, Option, none, some, arith, ok}
use hashline_rs.Protocol.Errors.{max_page_lines, max_grep_matches, max_context_lines}
use hashline_rs.Protocol.Requests.{ReadRequest, GrepRequest, content, validate_read, validate_grep}

abbrev NotBoth {ℓ κ} : {A : Type ℓ} {B : Type κ} → Option A → Option B → Type 0
NotBoth none b = Unit
NotBoth (some a) none = Unit
NotBoth (some a) (some b) = ⊥

pub record IsReadRequest (r : ReadRequest) : Type 0 where
  pub limit_pos : 1 ≤ r.limit
  pub limit_max : r.limit ≤ max_page_lines
  pub start_pos : r.start_line ≢ some 0
  pub one_start : NotBoth r.start_line r.cursor

-- A read request is accepted exactly when its limit is in range, and it names at most one place to
-- start at, which is not line zero.
pub validate_read_iff : (r : ReadRequest) → (validate_read r ≡ ok tt) ↔ IsReadRequest r
unfolding validate_read
validate_read_iff r = (λ h. ground arith, λ h. ground arith)

abbrev WithinContext : Option ℕ → Type 0
WithinContext none = Unit
WithinContext (some n) = n ≤ max_context_lines

pub record IsGrepRequest (r : GrepRequest) : Type 0 where
  pub max_pos : 1 ≤ r.max_matches
  pub max_max : r.max_matches ≤ max_grep_matches
  pub before : WithinContext r.before_context
  pub after : WithinContext r.after_context
  pub both : WithinContext r.context
  pub only_content :
      (r.output_mode ≡ content)
      ⊎ ((r.before_context ≡ none) × (r.after_context ≡ none) × (r.context ≡ none))

pub validate_grep_iff : (r : GrepRequest) → (validate_grep r ≡ ok tt) ↔ IsGrepRequest r
unfolding validate_grep
validate_grep_iff r = (λ h. ground arith, λ h. ground arith)

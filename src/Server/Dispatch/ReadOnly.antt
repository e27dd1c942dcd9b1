-- ===== src/Server/Dispatch/ReadOnly.antt =====
-- What a call of a tool that the listing annotates as read only does.
use hashline_rs.Prelude.{
  ℕ, ◌≡◌, Bool, true, false, List, [], ◌∷◌, Option, none, some, if◌then◌else◌, Result, ok, err,
  Bytes, codes, bytes_eq,
}
use hashline_rs.Crates.{Crates}
use hashline_rs.Os.{Task, ret, caught, ◌>>=◌}
use hashline_rs.Os.Always.{
  Log, Always, Then, ends, Always->>=, Always-mono, Always-caught, Always-if,
}
use hashline_rs.Os.Quiet.{Quiet, Reads, Reads-Quiet}
use hashline_rs.Protocol.Errors.{ProtocolError}
use hashline_rs.Search.Glob.{GlobCompiler}
use hashline_rs.Search.Grep.Request.{GrepCrates}
use hashline_rs.Search.Quiet.{glob-Reads, grep-Reads}
use hashline_rs.Server.{HashlineServer, workspace}
use hashline_rs.Server.Dispatch.{
  ToolOutcome, Json, parsed, run_read, run_grep, run_glob, outcome_of, dispatch, Tool, tools,
  result_of,
}
use hashline_rs.Tools.Read.Quiet.{run-Reads}

-- `Some(true)`
abbrev is_hinted : Option Bool → Bool
is_hinted (some hint) = hint
is_hinted none = false

-- a tool of this name is listed with the hint that it is read only
abbrev pub listed_read_only : Bytes → List Tool → Bool
listed_read_only name [] = false
listed_read_only name (tool ∷ listed) =
    let later = listed_read_only name listed in
    if bytes_eq name tool.tool_name then is_hinted tool.annotations.read_only else later

-- No file has changed, and the call has a result, which is no error of the transport.
pub OnlyRead : {A : Type 0} → Log → Result Bytes A → Type 0
OnlyRead log (ok a) = Quiet log
OnlyRead log (err e) = ⊥

module _ {V : Type 0} (c : Crates) (g : GrepCrates) (compile : GlobCompiler) (j : Json V)
    (rounds : ℕ) (s : HashlineServer) where
  caught-OnlyRead :
      {A : Type 0} (m : Task ProtocolError A) (f : Result ProtocolError A → ToolOutcome)
      → Reads m
      → Always OnlyRead [] (caught {F = Bytes} m >>= λ r. ret (ok (f r)))
  unfolding OnlyRead
  caught-OnlyRead m f h =
      Always->>= OnlyRead (caught m) _
        (Always-caught m (Always-mono m (λ l r q. ends q) (Reads-Quiet h tt)))

  parsed-OnlyRead :
      {A : Type 0} (name : Bytes) (next : A → Task Bytes ToolOutcome) (r : Result Bytes A)
      → ((input : A) → Always OnlyRead [] (next input))
      → Always OnlyRead [] (parsed name next r)
  unfolding OnlyRead
  parsed-OnlyRead name next (ok input) h = h input
  parsed-OnlyRead name next (err e) h = ends tt

  outcome_of-OnlyRead :
      (name : Bytes) (arguments : V)
      → listed_read_only name tools ≡ true
      → Always OnlyRead [] (outcome_of c g compile j rounds s name arguments)
  unfolding outcome_of run_read run_grep run_glob
  outcome_of-OnlyRead name arguments h =
      Always-if (bytes_eq name (codes "read"))
        (λ read.
          parsed-OnlyRead (codes "read") _ (j.read_arguments arguments)
            (λ input. caught-OnlyRead _ _ (run-Reads c rounds (workspace s) input)))
        (λ not_read.
          Always-if (bytes_eq name (codes "edit"))
            (λ edit. absurd (let k = rw (not_read, edit) at h in cc))
            (λ not_edit.
              Always-if (bytes_eq name (codes "write"))
                (λ write. absurd (let k = rw (not_read, not_edit, write) at h in cc))
                (λ not_write.
                  Always-if (bytes_eq name (codes "grep"))
                    (λ grep.
                      parsed-OnlyRead (codes "grep") _ (j.grep_arguments arguments)
                        (λ input. caught-OnlyRead _ _ (grep-Reads c g (workspace s) input)))
                    (λ not_grep.
                      Always-if (bytes_eq name (codes "glob"))
                        (λ glob.
                          parsed-OnlyRead (codes "glob") _ (j.glob_arguments arguments)
                            (λ input. caught-OnlyRead _ _ (glob-Reads compile (workspace s) input)))
                        (λ not_glob. absurd (
                          let k = rw (not_read, not_edit, not_write, not_grep, not_glob) at h in
                          cc))))))

  -- Whatever the answers are, and where no task panics, a call of a tool that the listing annotates
  -- as read only changes no file, and is answered with a result, never with an error of the
  -- transport.
  pub dispatch-OnlyRead :
      (name : Bytes) (arguments : V)
      → listed_read_only name tools ≡ true
      → Always OnlyRead [] (dispatch c g compile j rounds s name arguments)
  unfolding dispatch OnlyRead
  dispatch-OnlyRead name arguments h =
      let outcome = outcome_of c g compile j rounds s name arguments in
      Always->>= OnlyRead outcome _
        (Always-mono outcome behind_outcome (outcome_of-OnlyRead name arguments h))
    where
      behind_outcome :
          (l : Log) (r : Result Bytes ToolOutcome)
          → OnlyRead l r
          → Then OnlyRead (λ outcome. ret (ok (result_of outcome))) l r
      behind_outcome l (ok outcome) quiet = ends quiet
      behind_outcome l (err e) never = absurd never

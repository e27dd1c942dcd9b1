-- ===== src/Server/Dispatch/Ending.antt =====
-- Every call of a tool ends.
use hashline_rs.Prelude.{ℕ, ◌+◌, ◌≤◌, Result, ok, err, Bytes, codes, bytes_eq}
use hashline_rs.Crates.{Crates}
use hashline_rs.Os.{Task, ret, caught, ◌>>=◌}
use hashline_rs.Os.Ending.{Ends, done, Ends->>=, Ends-if, Ends-caught}
use hashline_rs.Protocol.Errors.{ProtocolError, max_file_bytes}
use hashline_rs.Search.Ending.{glob-Ends, grep-Ends}
use hashline_rs.Search.Glob.{GlobCompiler}
use hashline_rs.Search.Grep.Request.{GrepCrates}
use hashline_rs.Server.{HashlineServer, workspace}
use hashline_rs.Server.Dispatch.{
  ToolOutcome, Json, parsed, run_read, run_edit, run_write, run_grep, run_glob, outcome_of,
  dispatch,
}
use hashline_rs.Tools.Edit.Ending as EditEnding
use hashline_rs.Tools.Read.Ending as ReadEnding
use hashline_rs.Tools.Write.Ending as WriteEnding

module _ {V : Type 0} (c : Crates) (g : GrepCrates) (compile : GlobCompiler) (j : Json V)
    (rounds : ℕ) (s : HashlineServer) (n : ℕ) where
  caught-Ends :
      {A : Type 0} (m : Task ProtocolError A) (f : Result ProtocolError A → ToolOutcome)
      → Ends n m
      → Ends n (caught {F = Bytes} m >>= λ r. ret (ok (f r)))
  caught-Ends m f h = Ends->>= (caught m) _ (Ends-caught m h) (λ k le r. done)

  parsed-Ends :
      {A : Type 0} (name : Bytes) (next : A → Task Bytes ToolOutcome) (r : Result Bytes A)
      → ((input : A) → Ends n (next input))
      → Ends n (parsed name next r)
  parsed-Ends name next (ok input) h = h input
  parsed-Ends name next (err e) h = done

  -- A call of any tool ends with a result or an error, in every run in which at most `n` reads are
  -- interrupted, when a load has two rounds and one for each byte of the size cap and each of the `n`
  -- interruptions.
  pub dispatch-Ends :
      (name : Bytes) (arguments : V)
      → max_file_bytes + 2 + n ≤ rounds
      → Ends n (dispatch c g compile j rounds s name arguments)
  unfolding dispatch outcome_of run_read run_edit run_write run_grep run_glob
  dispatch-Ends name arguments enough =
      Ends->>= (outcome_of c g compile j rounds s name arguments) _
        (Ends-if (bytes_eq name (codes "read"))
          (λ _.
            parsed-Ends (codes "read") _ (j.read_arguments arguments) (λ input.
              caught-Ends _ _ (ReadEnding.run-Ends c rounds n (workspace s) input enough)))
          (λ _.
            Ends-if (bytes_eq name (codes "edit"))
              (λ _. parsed-Ends (codes "edit") _ (j.edit_arguments arguments) (λ input.
                caught-Ends _ _ (EditEnding.run-Ends c rounds n (workspace s) input enough)))
              (λ _.
                Ends-if (bytes_eq name (codes "write"))
                  (λ _. parsed-Ends (codes "write") _ (j.write_arguments arguments) (λ input.
                    caught-Ends _ _ (WriteEnding.run-Ends c rounds n (workspace s) input enough)))
                  (λ _.
                    Ends-if (bytes_eq name (codes "grep"))
                      (λ _.
                        parsed-Ends (codes "grep") _ (j.grep_arguments arguments)
                          (λ input. caught-Ends _ _ (grep-Ends c g (workspace s) input)))
                      (λ _.
                        Ends-if (bytes_eq name (codes "glob"))
                          (λ _.
                            parsed-Ends (codes "glob") _ (j.glob_arguments arguments)
                              (λ input. caught-Ends _ _ (glob-Ends compile (workspace s) input)))
                          (λ _. done))))))
        (λ k le outcome. done)

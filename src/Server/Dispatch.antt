-- ===== src/Server/Dispatch.antt =====
-- The dispatch of src/server.rs by tool name, with the listing of the tools, and the outcomes of
-- src/util.rs that the tools answer a call with.
pub mod ReadOnly
pub mod Ending
use hashline_rs.Prelude.{
  ℕ, Bool, true, false, List, [], ◌∷◌, ◌++◌, Option, none, some, if◌then◌else◌, Result, ok, err,
  Bytes, codes, bytes_eq,
}
use hashline_rs.Crates.{Crates}
use hashline_rs.Os.{Task, ret, ◌>>=◌, caught}
use hashline_rs.Protocol.Errors.{ProtocolError}
use hashline_rs.Protocol.Requests.{ReadRequest, EditRequest, WriteRequest, GrepRequest, GlobRequest}
use hashline_rs.Search.Glob
use hashline_rs.Search.Glob.{GlobCompiler}
use hashline_rs.Search.Grep.Request
use hashline_rs.Search.Grep.Request.{GrepCrates}
use hashline_rs.Server.{HashlineServer, workspace}
use hashline_rs.Tools.Edit
use hashline_rs.Tools.Edit.{EditSuccess}
use hashline_rs.Tools.Read
use hashline_rs.Tools.Write
use hashline_rs.Tools.Write.{WriteSuccess}
use hashline_rs.Workspace.{Workspace}

pub record ToolOutcome : Type 0 where
  pub text : Bytes
  pub is_error : Bool

-- `ToolOutcome::success`
abbrev pub success : Bytes → ToolOutcome
success text = record { text = text; is_error = false }

-- `ToolOutcome::error`
abbrev pub error : Bytes → ToolOutcome
error text = record { text = text; is_error = true }

-- What serde_json does with values of a type: the reading of arguments, and the pretty texts of an
-- error envelope and of the two successes; or the text of an error.
pub record Json (V : Type 0) : Type 0 where
  pub read_arguments : V → Result Bytes ReadRequest
  pub edit_arguments : V → Result Bytes EditRequest
  pub write_arguments : V → Result Bytes WriteRequest
  pub grep_arguments : V → Result Bytes GrepRequest
  pub glob_arguments : V → Result Bytes GlobRequest
  pub pretty_error : ProtocolError → Result Bytes Bytes
  pub pretty_edit : EditSuccess → Result Bytes Bytes
  pub pretty_write : WriteSuccess → Result Bytes Bytes

unfoldable pub protocol_outcome : (ProtocolError → Result Bytes Bytes) → ProtocolError → ToolOutcome
protocol_outcome pretty e = elim (pretty e) [ ok text ↦ error text | err t ↦ error e.message ]

unfoldable pub success_outcome : {A : Type 0} → (A → Result Bytes Bytes) → A → ToolOutcome
success_outcome pretty a = elim (pretty a) [
  | ok text ↦ success text
  | err t ↦ error (codes "Failed to encode tool success: " ++ t)
]

-- the match on the result of a tool's `run`
abbrev pub rendered :
    {A : Type 0}
    → (ProtocolError → Result Bytes Bytes)
    → (A → ToolOutcome)
    → Result ProtocolError A
    → ToolOutcome
rendered pretty shown (ok a) = shown a
rendered pretty shown (err e) = protocol_outcome pretty e

-- The content blocks of a call's result, each a text, and whether it is an error.
pub record CallToolResult : Type 0 where
  pub blocks : List Bytes
  pub failed : Bool

-- the end of `dispatch`
abbrev pub result_of : ToolOutcome → CallToolResult
result_of outcome = record { blocks = outcome.text ∷ []; failed = outcome.is_error }

-- the match on the arguments that were read
abbrev pub parsed :
    {A : Type 0} → Bytes → (A → Task Bytes ToolOutcome) → Result Bytes A → Task Bytes ToolOutcome
parsed name next (ok input) = next input
parsed name next (err e) =
    ret (ok (error (codes "Invalid arguments for " ++ (name ++ (codes ": " ++ e)))))

module _ {V : Type 0} (c : Crates) (g : GrepCrates) (compile : GlobCompiler) (j : Json V)
    (rounds : ℕ) where
  unfoldable pub run_read : Workspace → ReadRequest → Task Bytes ToolOutcome
  unfolding protocol_outcome
  run_read w input =
      caught (Read.run c rounds w input) >>= λ r. ret (ok (rendered j.pretty_error success r))

  unfoldable pub run_edit : Workspace → EditRequest → Task Bytes ToolOutcome
  unfolding protocol_outcome success_outcome
  run_edit w input = caught (Edit.run c rounds w input) >>= λ r.
      ret (ok (rendered j.pretty_error (success_outcome j.pretty_edit) r))

  unfoldable pub run_write : Workspace → WriteRequest → Task Bytes ToolOutcome
  unfolding protocol_outcome success_outcome
  run_write w input = caught (Write.run c rounds w input) >>= λ r.
      ret (ok (rendered j.pretty_error (success_outcome j.pretty_write) r))

  unfoldable pub run_grep : Workspace → GrepRequest → Task Bytes ToolOutcome
  unfolding protocol_outcome
  run_grep w input =
      caught (Request.run c g w input) >>= λ r. ret (ok (rendered j.pretty_error success r))

  unfoldable pub run_glob : Workspace → GlobRequest → Task Bytes ToolOutcome
  unfolding protocol_outcome
  run_glob w input =
      caught (Glob.run compile w input) >>= λ r. ret (ok (rendered j.pretty_error success r))

  -- the match on the tool's name
  unfoldable pub outcome_of : HashlineServer → Bytes → V → Task Bytes ToolOutcome
  unfolding run_read run_edit run_write run_grep run_glob workspace
  outcome_of s name arguments =
      if bytes_eq name (codes "read")
      then parsed (codes "read") (run_read (workspace s)) (j.read_arguments arguments)
      else if bytes_eq name (codes "edit")
      then parsed (codes "edit") (run_edit (workspace s)) (j.edit_arguments arguments)
      else if bytes_eq name (codes "write")
      then parsed (codes "write") (run_write (workspace s)) (j.write_arguments arguments)
      else if bytes_eq name (codes "grep")
      then parsed (codes "grep") (run_grep (workspace s)) (j.grep_arguments arguments)
      else if bytes_eq name (codes "glob")
      then parsed (codes "glob") (run_glob (workspace s)) (j.glob_arguments arguments)
      else ret (err (codes "Unknown tool: " ++ name))

  -- `HashlineServer::dispatch`; an error is the text of one of the transport's
  unfoldable pub dispatch : HashlineServer → Bytes → V → Task Bytes CallToolResult
  unfolding outcome_of
  dispatch s name arguments =
      outcome_of s name arguments >>= λ outcome. ret (ok (result_of outcome))

pub record ToolAnnotations : Type 0 where
  pub title : Bytes
  pub read_only : Option Bool
  pub destructive : Option Bool
  pub idempotent : Option Bool
  pub open_world : Option Bool

-- A listed tool, without its description and its schema.
pub record Tool : Type 0 where
  pub tool_name : Bytes
  pub annotations : ToolAnnotations

abbrev read_only_annotations : Bytes → ToolAnnotations
read_only_annotations title = record {
  title = title;
  read_only = some true;
  destructive = none;
  idempotent = some true;
  open_world = some false;
}

abbrev mutating_annotations : Bytes → ToolAnnotations
mutating_annotations title = record {
  title = title;
  read_only = some false;
  destructive = some true;
  idempotent = none;
  open_world = some false;
}

-- `HashlineServer::tools`
abbrev pub tools : List Tool
tools =
    record {
      tool_name = codes "read";
      annotations = read_only_annotations (codes "Versioned file read");
    }
    ∷ record {
      tool_name = codes "edit";
      annotations = mutating_annotations (codes "Versioned byte-range edit");
    }
    ∷ record {
      tool_name = codes "write";
      annotations = mutating_annotations (codes "Versioned file create or replace");
    }
    ∷ record {
      tool_name = codes "grep";
      annotations = read_only_annotations (codes "Versioned content search");
    }
    ∷ record {
      tool_name = codes "glob";
      annotations = read_only_annotations (codes "Deterministic file discovery");
    }
    ∷ []

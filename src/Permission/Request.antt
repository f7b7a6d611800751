-- ===== src/Permission/Request.antt =====
-- The request of internal/permission/request.go, and what its functions use of Go's packages.
use foxharness.Prelude.{String, Option, some, none, str_eq, if◌then◌else◌}
use foxharness.Schema.{ToolCall}
use foxharness.Toolpolicy.Assessment.{Assessment, Risk}

pub data Source : Type 0 where
  no_source main subagent skill fork : Source
  other_source : String → Source

pub record Request : Type 0 where
  pub call : ToolCall
  pub tool_name : String
  pub arguments : String
  pub cwd : String
  pub workspace : String
  pub action : String
  pub risk : Risk
  pub source : Source
  pub capabilities : Assessment

pub record Grant : Type 0 where
  pub key : String
  pub tool_name : String
  pub action : String
  pub cwd : String
  pub source : Source

-- strings.TrimSpace; filepath.Abs and filepath.Clean; and json.Unmarshal followed by json.Marshal, none
-- where either fails.
pub record Platform : Type 0 where
  pub trim_space : String → String
  pub abs : String → Option String
  pub clean : String → String
  pub remarshal : String → Option String

-- GrantForRequest, of the key that GrantKeyFor makes of the request.
unfoldable pub grant_for_request : String → Request → Grant
grant_for_request key request = record {
  key = key;
  tool_name = request.tool_name;
  action = request.action;
  cwd = request.cwd;
  source = request.source;
}

cleaned : Platform → String → Option String → String
cleaned p path none = p.clean path
cleaned p path (some full) = p.clean full

pub clean_path : Platform → String → String
unfolding cleaned
clean_path p path = if str_eq path "" then "" else cleaned p path (p.abs path)

or_trimmed : Platform → String → Option String → String
or_trimmed p raw none = p.trim_space raw
or_trimmed p raw (some out) = out

pub normalize_json : Platform → String → String
unfolding or_trimmed
normalize_json p raw = if str_eq raw "" then "{}" else or_trimmed p raw (p.remarshal raw)

-- firstNonEmpty of two values.
pub first_non_empty : Platform → String → String → String
first_non_empty p a b =
    if str_eq (p.trim_space a) "" then (if str_eq (p.trim_space b) "" then "" else b) else a

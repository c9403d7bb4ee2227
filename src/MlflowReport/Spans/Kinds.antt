-- ===== src/MlflowReport/Spans/Kinds.antt =====
-- mlflow_report.py, `_span_kind`: the names of chat, tool and agent spans.
use autobench.Prelude.{
  String, Bool, true, false, ◌≡◌, refl, ◌==◌, eq_iff, arith, if◌then◌else◌, Bool-cases, inl, inr,
}
use autobench.Prelude.Text.{begins, without_prefix}
use autobench.MlflowReport.Spans.{root_span, agent_prefix, is_chat, is_tool, is_phase, span_kind}

pub chat_not_tool : (name : String) → is_chat name ≡ true → is_tool name ≡ false
unfolding is_chat is_tool without_prefix
chat_not_tool String.[] h = refl
chat_not_tool (String.◌∷◌ c rest) h = ground arith

not_named :
    (test : String → Bool) (name other : String)
    → test name ≡ true
    → test other ≡ false
    → (name == other) ≡ false
not_named test name other h k = elim (Bool-cases (name == other)) [
  | inl same ↦ let e : name ≡ other = (eq_iff name other).0 same in cc
  | inr differs ↦ differs
]

chat_not_agent : (name : String) → is_chat name ≡ true → begins agent_prefix name ≡ false
unfolding is_chat without_prefix
chat_not_agent String.[] h = refl
chat_not_agent (String.◌∷◌ c rest) h = ground arith

tool_not_agent : (name : String) → is_tool name ≡ true → begins agent_prefix name ≡ false
unfolding is_tool without_prefix
tool_not_agent String.[] h = refl
tool_not_agent (String.◌∷◌ c rest) h = ground arith

-- A test that fails at the names of the root and of the phases.
module _ (test : String → Bool) (name : String) (h : test name ≡ true) where
  plain :
      test root_span ≡ false
      → test "MCP.CreateSession" ≡ false
      → test "Agent.Call" ≡ false
      → test "Evaluator.Evaluate" ≡ false
      → ((name == root_span) ≡ false) × (is_phase name ≡ false)
  plain r m a e =
      let nm = not_named test name "MCP.CreateSession" h m in
      let na = not_named test name "Agent.Call" h a in
      let ne = not_named test name "Evaluator.Evaluate" h e in
      (not_named test name root_span h r, rw (nm, na, ne) refl)

chat_plain :
    (name : String) → is_chat name ≡ true → ((name == root_span) ≡ false) × (is_phase name ≡ false)
unfolding is_chat without_prefix
chat_plain name h = plain is_chat name h refl refl refl refl

tool_plain :
    (name : String) → is_tool name ≡ true → ((name == root_span) ≡ false) × (is_phase name ≡ false)
unfolding is_tool without_prefix
tool_plain name h = plain is_tool name h refl refl refl refl

pub chat_not_root : (name : String) → is_chat name ≡ true → (name == root_span) ≡ false
chat_not_root name h = (chat_plain name h).0

pub tool_not_root : (name : String) → is_tool name ≡ true → (name == root_span) ≡ false
tool_not_root name h = (tool_plain name h).0

-- The kind by the tests of a name.
abbrev kind_by : Bool → Bool → Bool → Bool → Bool → String
kind_by root phase agent chat tool =
    if root
    then "root"
    else if phase
    then "phase"
    else if agent
    then "agent"
    else if chat
    then "chat"
    else if tool
    then "tool"
    else "other"

kind_by_not_chat :
    (root phase agent tool : Bool) → (kind_by root phase agent false tool == "chat") ≡ false
kind_by_not_chat true phase agent tool = refl
kind_by_not_chat false true agent tool = refl
kind_by_not_chat false false true tool = refl
kind_by_not_chat false false false true = refl
kind_by_not_chat false false false false = refl

-- Exactly the names of chat spans are of the kind "chat".
pub kind_chat : (name : String) → (span_kind name == "chat") ≡ is_chat name
unfolding span_kind
kind_chat name = elim (Bool-cases (is_chat name)) [
  | inl chat ↦
      rw ((chat_plain name chat).0, (chat_plain name chat).1, chat_not_agent name chat, chat) refl
  | inr other ↦ rw other (
      kind_by_not_chat (name == root_span) (is_phase name) (begins agent_prefix name)
        (begins "execute_tool " name))
]

tool_not_chat : (name : String) → is_tool name ≡ true → is_chat name ≡ false
tool_not_chat name h = elim (Bool-cases (is_chat name)) [
  | inl chat ↦ let e = chat_not_tool name chat in cc
  | inr other ↦ other
]

tool_begins : (name : String) → is_tool name ≡ true → begins "execute_tool " name ≡ true
unfolding is_tool
tool_begins name h = ground arith

-- The names of tool spans are of the kind "tool".
pub kind_tool : (name : String) → is_tool name ≡ true → (span_kind name == "tool") ≡ true
unfolding span_kind
kind_tool name h =
    rw
      (
        (tool_plain name h).0,
        (tool_plain name h).1,
        tool_not_agent name h,
        tool_not_chat name h,
        tool_begins name h,
      )
      refl

-- The names of agent spans are not those of the phases.
pub agent_not_phase :
    (name : String)
    → begins agent_prefix name ≡ true
    → ((name == "MCP.CreateSession") ≡ false)
      × ((name == "Agent.Call") ≡ false)
      × ((name == "Evaluator.Evaluate") ≡ false)
unfolding without_prefix
agent_not_phase name h = (
  not_named (begins agent_prefix) name "MCP.CreateSession" h refl,
  not_named (begins agent_prefix) name "Agent.Call" h refl,
  not_named (begins agent_prefix) name "Evaluator.Evaluate" h refl,
)

pub agent_not_root : (name : String) → begins agent_prefix name ≡ true → (name == root_span) ≡ false
unfolding without_prefix
agent_not_root name h = not_named (begins agent_prefix) name root_span h refl

pub chat_kind_not_tool : (name : String) → is_chat name ≡ true → (span_kind name == "tool") ≡ false
unfolding span_kind
chat_kind_not_tool name chat =
    rw ((chat_plain name chat).0, (chat_plain name chat).1, chat_not_agent name chat, chat) refl

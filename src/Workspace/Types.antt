-- ===== src/Workspace/Types.antt =====
-- What the state machine reads of a workspace and its agents (the statuses are those its switches
-- list), `extractAgents` of api/api-helper.ts and `maybeAskAgent` of promptUtils.ts.
use text.Mathlib.Text.{◌==◌ as str_eq}
use vscode_coder.Base.{
  ℕ, Bool, Option, none, some, List, [], ◌∷◌, ◌++◌, String, filter, get_elem?, if◌then◌else◌,
}

pub data WorkspaceStatus : Type 0 where
  running stopped failed pending starting stopping deleted deleting canceled canceling :
      WorkspaceStatus

pub data AgentStatus : Type 0 where
  connecting connected disconnected timeout : AgentStatus

pub data Lifecycle : Type 0 where
  created starting_up start_timeout start_error ready shutting_down shutdown_timeout shutdown_error
        off :
      Lifecycle

pub record Agent : Type 0 where
  pub id : String
  pub name : String
  pub status : AgentStatus
  pub lifecycle_state : Lifecycle
  -- `start_blocks_login` of each script
  pub scripts : List Bool

-- a resource with its agents, which may be missing
pub record Resource : Type 0 where
  pub agents : Option (List Agent)

-- `deadline` is the parsed date, where it is one
pub record Build : Type 0 where
  pub id : String
  pub status : WorkspaceStatus
  pub transition : String
  pub reason : String
  pub deadline : Option ℕ
  pub resources : List Resource

pub record Workspace : Type 0 where
  pub name : String
  pub outdated : Bool
  pub deleting_at : Option ℕ
  pub latest_build : Build

abbrev agents_or_none : Option (List Agent) → List Agent
agents_or_none none = []
agents_or_none (some agents) = agents

-- `extractAgents`
unfoldable pub extract_agents : List Resource → List Agent
extract_agents [] = []
extract_agents (r ∷ rs) = agents_or_none r.agents ++ extract_agents rs

-- `Array.find` by id
unfoldable pub find_agent : String → List Agent → Option Agent
find_agent id [] = none
find_agent id (a ∷ agents) =
    let rest = find_agent id agents in if str_eq a.id id then some a else rest

pub data Asked : Type 0 where
  no_matching_agents : Asked
  answered : Option Agent → Asked

-- `filter ? agents.filter(...) : agents`: an empty filter is none
unfoldable pub filter_agents : Option String → List Agent → List Agent
filter_agents none agents = agents
filter_agents (some name) agents =
    if str_eq name "" then agents else filter (λ a. str_eq a.name name) agents

-- `maybeAskAgent`: `picked` is the index of the item the user picks, none when the list is hidden.
unfoldable pub ask_agent : (picked : Option ℕ) → List Agent → Asked
ask_agent picked [] = no_matching_agents
ask_agent picked (a ∷ []) = answered (some a)
ask_agent none (a ∷ b ∷ rest) = answered none
ask_agent (some i) (a ∷ b ∷ rest) = answered (get_elem? (a ∷ b ∷ rest) i)

unfoldable pub maybe_ask_agent : (picked : Option ℕ) → Option String → List Agent → Asked
maybe_ask_agent picked name agents = ask_agent picked (filter_agents name agents)

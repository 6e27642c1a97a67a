-- ===== src/PieceRequest/Types.antt =====
-- The types of piecerequest/manager.go, and `NewManager`.
use Prim.Native.String.{String}
use text.Mathlib.Text.{◌==◌ as str_eq}
use kraken.Base.{ℕ, Bool, true, false, Option, none, some, List, [], if◌then◌else◌, Map, get_or}

pub data Status : Type 0 where
  pending expired unsent invalid : Status

abbrev pub is_pending : Status → Bool
is_pending Status.pending = true
is_pending _ = false

pub record Request : Type 0 where
  pub piece : ℕ
  pub peer_id : ℕ
  pub status : Status
  pub sent_at : ℕ

abbrev pub zero_request : Request
zero_request = record { piece = 0; peer_id = 0; status = Status.pending; sent_at = 0 }

-- The implementations of `pieceSelectionPolicy`.
pub data Policy : Type 0 where
  default_policy rarest_first_policy : Policy

pub record Manager : Type 0 where
  pub cells : List Request
  pub requests : Map (List ℕ)
  pub requests_by_peer : Map (Map ℕ)
  pub timeout : ℕ
  pub policy : Policy
  pub pipeline_limit : ℕ

-- The struct behind a pointer.
abbrev pub deref : Manager → ℕ → Request
deref m r = get_or m.cells r zero_request

unfoldable pub policy_named : String → Option Policy
policy_named name =
    if str_eq name "default"
    then some default_policy
    else if str_eq name "rarest_first"
    then some rarest_first_policy
    else none

-- `none` is the error for a policy that does not exist.
unfoldable pub new_manager : ℕ → String → ℕ → Option Manager
unfolding policy_named
new_manager timeout policy pipeline_limit = elim (policy_named policy) [
  | none ↦ none
  | some p ↦ some (record {
    cells = [];
    requests = [];
    requests_by_peer = [];
    timeout = timeout;
    policy = p;
    pipeline_limit = pipeline_limit;
  })
]

-- ===== src/Llm/Problem.antt =====
-- llm/rpc_types.py: the limits and the closed reasons of a call. `raise RpcProblem` is `problem`.
use paper_radar.Prelude.{ℕ, ◌*◌}
pub use paper_radar.Prelude.Results.{
  Result, ok, problem, ◌>>=◌, ◌>>◌, raise_if, >>=-eq-ok, ok_injective, bind_assoc,
}

abbrev pub max_frame_bytes : ℕ
max_frame_bytes = 4 * 1024 * 1024

abbrev pub max_candidate_bytes : ℕ
max_candidate_bytes = 64 * 1024

-- Those of `RpcReason` that the modelled code raises.
pub data RpcReason : Type 0 where
  frame_limit candidate_limit partial_frame thinking_state event_sequence : RpcReason
  event_not_allowed message_shape message_mismatch system_mismatch user_mismatch : RpcReason
  stop_reason channel usage_shape : RpcReason

abbrev pub Rpc {ℓ} : Type ℓ → Type ℓ
Rpc = Result RpcReason

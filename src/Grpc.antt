-- ===== src/Grpc.antt =====
-- Answers and failures of gRPC handlers (`RpcException` and the status codes that the services use).
use food_ordering_app.Prelude.{String}
use food_ordering_app.Effect.{Result, ok, err, Error}

pub data GrpcStatus : Type 0 where
  invalid_argument permission_denied not_found failed_precondition internal : GrpcStatus
  unauthenticated already_exists resource_exhausted : GrpcStatus

pub record RpcException : Type 0 where
  pub code : GrpcStatus
  pub message : String

-- A handler's answer: the value, or the exception as gRPC sends it.
pub data Reply (A : Type 0) : Type 0 where
  reply : A → Reply A
  failure : RpcException → Reply A

-- `try { … } catch (err) { throw toRpc(err); }`
unfoldable pub replied :
    {W A B : Type 0} → (Error → RpcException) → (A → B) → Result A × W → Reply B × W
replied to_rpc f (ok a, w) = (reply (f a), w)
replied to_rpc f (err e, w) = (failure (to_rpc e), w)

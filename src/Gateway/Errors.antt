-- ===== src/Gateway/Errors.antt =====
-- `GatewayExceptionFilter` (apps/gateway/src/interface/rest/exception.filter.ts), and the errors of
-- the services as clients see them.
use food_ordering_app.Prelude.{ℕ, String, false, some, ◌==◌, if◌then◌else◌, nat_eq, ◌≡◌, arith}
use food_ordering_app.Effect.{
  Error, http_status, not_found, validation, unprocessable, forbidden, conflict, unauthorized,
  rate_limit, fault, message,
}
use food_ordering_app.Grpc.{
  GrpcStatus, invalid_argument, permission_denied, not_found, failed_precondition, internal,
  unauthenticated, already_exists, resource_exhausted, RpcException,
}
use food_ordering_app.Identity.Controller.{to_rpc_exception, code_of}

-- What a handler of the gateway throws: an `HttpException`, an error of a gRPC call, or another.
pub data Exception : Type 0 where
  http_exception : ℕ → String → Exception
  grpc_error : RpcException → Exception
  other : String → Exception

pub record Response : Type 0 where
  pub status : ℕ
  pub message : String

-- `GRPC_TO_HTTP[code] ?? HttpStatus.BAD_GATEWAY`, on the codes that the services send.
unfoldable pub grpc_to_http : GrpcStatus → ℕ
grpc_to_http invalid_argument = 400
grpc_to_http permission_denied = 403
grpc_to_http not_found = 404
grpc_to_http failed_precondition = 409
grpc_to_http internal = 502
grpc_to_http unauthenticated = 401
grpc_to_http already_exists = 409
grpc_to_http resource_exhausted = 429

-- `GatewayExceptionFilter.catch`; the details of a gRPC error are its message.
unfoldable pub caught : Exception → Response
unfolding grpc_to_http
caught (http_exception status message) = record { status = status; message = message }
caught (grpc_error e) = record {
  status = grpc_to_http e.code;
  message = if e.message == "" then "Upstream error" else e.message;
}
caught (other message) = record { status = 500; message = message }

-- An error class of the identity service reaches a client of the gateway with the HTTP status that
-- the class names, if that is not 422, which no class of that service names.
pub identity_errors-caught :
    (e : Error) (n : ℕ)
    → http_status e ≡ some n
    → nat_eq n 422 ≡ false
    → (caught (grpc_error (to_rpc_exception e))).status ≡ n
unfolding caught to_rpc_exception http_status code_of grpc_to_http
identity_errors-caught (not_found m) n is other_than = ground arith
identity_errors-caught (validation m) n is other_than = ground arith
identity_errors-caught (unprocessable m) n is other_than = absurd (ground arith)
identity_errors-caught (forbidden m) n is other_than = ground arith
identity_errors-caught (conflict m) n is other_than = ground arith
identity_errors-caught (unauthorized m) n is other_than = ground arith
identity_errors-caught (rate_limit m) n is other_than = ground arith
identity_errors-caught (fault m) n is other_than = absurd (ground arith)

-- ===== src/Grpc.antt =====
-- google.golang.org/grpc/status as the services use it: a code and a message.
use xrunner.Base.{Text}

pub data Code : Type 0 where
  invalid_argument not_found internal unimplemented failed_precondition deadline_exceeded : Code

pub data Result {ℓ} (A : Type ℓ) : Type ℓ where
  ok : A → Result A
  err : Code → Text → Result A

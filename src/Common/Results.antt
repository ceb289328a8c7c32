-- ===== src/Common/Results.antt =====
-- The outcome of code that may throw.
use Prim.Native.String.{String}

pub data Result (A : Type 0) : Type 0 where
  ok : A → Result A
  error : String → Result A

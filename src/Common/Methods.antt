-- ===== src/Common/Methods.antt =====
-- What a method that a decorator wraps does, and what its caller sees: results and errors are strings.
use Prim.Native.String.{String}
use mathlib.Core.Option.{Option, none, some}

-- What the method itself does, and what becomes of its promise.
pub data Response : Type 0 where
  returns throws : String → Response
  promises : Response

pub data Outcome : Type 0 where
  resolves rejects : String → Outcome

-- What the wrapped method does; a pending call keeps what its second part needs.
pub data Answer (C : Type 0) : Type 0 where
  returned threw : String → Answer C
  pending : C → Answer C

-- The promise that the caller has; `never` is one that neither resolves nor rejects.
pub data Settlement : Type 0 where
  resolved rejected : String → Settlement
  never : Settlement

-- What is thrown last takes the place of what was thrown before.
abbrev pub or_else : Option String → String → String
or_else none e = e
or_else (some f) e = f

-- What the answer is to one who does not know of the wrapper.
abbrev pub seen : {C : Type 0} → Answer C → Response
seen (returned v) = returns v
seen (threw e) = throws e
seen (pending c) = promises

abbrev pub settlement_of : Outcome → Settlement
settlement_of (resolves v) = resolved v
settlement_of (rejects e) = rejected e

-- ===== src/Common/Objects.antt =====
-- JavaScript objects whose properties may be left out.

-- A property: not there, there and undefined, or there with a value.
pub data Property (A : Type 0) : Type 0 where
  missing : Property A
  undefined : Property A
  value : A → Property A

-- `{ ...left, ...right }` at one property.
abbrev pub spread : {A : Type 0} → Property A → Property A → Property A
spread left missing = left
spread left undefined = undefined
spread left (value a) = value a

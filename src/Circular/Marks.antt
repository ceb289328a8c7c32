-- ===== src/Circular/Marks.antt =====
-- The marks of the objects of a heap, of which each visit sets one.
use demo_hybrid_microservice.Common.{
  ℕ, zero, suc, ◌≤◌, ◌<◌, ◌≡◌, refl, ap, Bool, true, false, List, [], ◌∷◌, Option, none, some,
  length, arith,
}
use demo_hybrid_microservice.Circular.{
  Object, array, object, ignored, Heap, mark_of, set_mark, object_at,
}

abbrev pub unmarked : List (Option ℕ) → ℕ
unmarked [] = 0
unmarked (none ∷ ms) = suc (unmarked ms)
unmarked (some i ∷ ms) = unmarked ms

abbrev pub marked : Option ℕ → ℕ
marked none = 0
marked (some i) = 1

pub length-set_mark : (a i : ℕ) (ms : List (Option ℕ)) → length (set_mark a i ms) ≡ length ms
length-set_mark a i [] = refl
length-set_mark zero i (m ∷ ms) = refl
length-set_mark (suc a) i (m ∷ ms) = ap suc (length-set_mark a i ms)

pub unmarked-set_mark :
    (a i : ℕ) (ms : List (Option ℕ))
    → mark_of a ms ≡ none
    → a < length ms
    → suc (unmarked (set_mark a i ms)) ≡ unmarked ms
unmarked-set_mark a i [] h l = ground (arith, l)
unmarked-set_mark zero i (none ∷ ms) h l = refl
unmarked-set_mark zero i (some j ∷ ms) h l = ground (arith, h)
unmarked-set_mark (suc a) i (none ∷ ms) h l = ap suc (unmarked-set_mark a i ms h (omega (arith, l)))
unmarked-set_mark (suc a) i (some j ∷ ms) h l = unmarked-set_mark a i ms h (omega (arith, l))

pub unmarked-le : (a i : ℕ) (ms : List (Option ℕ)) → unmarked (set_mark a i ms) ≤ unmarked ms
unmarked-le a i [] = omega arith
unmarked-le zero i (none ∷ ms) = omega arith
unmarked-le zero i (some j ∷ ms) = omega arith
unmarked-le (suc a) i (none ∷ ms) = omega (arith, unmarked-le a i ms)
unmarked-le (suc a) i (some j ∷ ms) = unmarked-le a i ms

pub mark_of-set_mark :
    (a b i : ℕ) (ms : List (Option ℕ))
    → marked (mark_of a ms) ≤ marked (mark_of a (set_mark b i ms))
mark_of-set_mark a b i [] = omega arith
mark_of-set_mark zero zero i (none ∷ ms) = omega arith
mark_of-set_mark zero zero i (some j ∷ ms) = omega arith
mark_of-set_mark zero (suc b) i (m ∷ ms) = omega arith
mark_of-set_mark (suc a) zero i (m ∷ ms) = omega arith
mark_of-set_mark (suc a) (suc b) i (m ∷ ms) = mark_of-set_mark a b i ms

pub mark_of-set_mark_self :
    (a i : ℕ) (ms : List (Option ℕ)) → a < length ms → mark_of a (set_mark a i ms) ≡ some i
mark_of-set_mark_self a i [] l = ground (arith, l)
mark_of-set_mark_self zero i (m ∷ ms) l = refl
mark_of-set_mark_self (suc a) i (m ∷ ms) l = mark_of-set_mark_self a i ms (omega (arith, l))

abbrev pub is_node : Object → Bool
is_node ignored = false
is_node (array vs) = true
is_node (object []) = false
is_node (object (f ∷ fs)) = true

pub object_at-lt : (a : ℕ) (heap : Heap) → is_node (object_at a heap) ≡ true → a < length heap
object_at-lt a [] h = ground (arith, h)
object_at-lt zero (o ∷ os) h = omega arith
object_at-lt (suc a) (o ∷ os) h = omega (arith, object_at-lt a os h)

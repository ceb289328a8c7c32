-- ===== src/Circular.antt =====
-- `circularRemove` of src/modules/common/utils/circular-normalizers.ts, on a heap of objects that refer to
-- each other by address. The recursion of `iterateObj` has fuel, one for each step from an object to one
-- of its values; `none` is that it ran out. A value that is not an object is a number that nothing here
-- looks into, and so is an object with the address of no cell, which has no values.
use demo_hybrid_microservice.Common.{
  ℕ, zero, suc, String, Bool, true, false, List, [], ◌∷◌, map, Option, none, some, if◌then◌else◌,
  length,
}
pub mod Marks
pub mod Copies

pub data Value : Type 0 where
  scalar : ℕ → Value
  ref : (address : ℕ) → Value

-- An array, an object with its own properties, or one of the classes that `ignoreObjects` lists.
pub data Object : Type 0 where
  array : List Value → Object
  object : List (String × Value) → Object
  ignored : Object

abbrev pub Heap : Type 0
Heap = List Object

-- The option: not given, with a template, or with a value and no template.
pub data Replacement : Type 0 where
  remove : Replacement
  template : String → Replacement
  fixed : ℕ → Replacement

-- The result: a value, an object as it is, what stands for the object with an index, or a copy of the object
-- at an address.
mutual
  pub data Tree : Type 0 where
    leaf : ℕ → Tree
    kept : (address : ℕ) → Tree
    replaced : Replacement → (index : ℕ) → Tree
    copied_array : (address : ℕ) → Trees → Tree
    copied_object : (address : ℕ) → List String → Trees → Tree

  pub data Trees : Type 0 where
    nil : Trees
    cons : Tree → Trees → Trees

-- `mapObj`, with the index of each object of the heap, and `indexRef`.
pub record Seen : Type 0 where
  pub marks : List (Option ℕ)
  pub index_ref : ℕ

abbrev pub mark_of : ℕ → List (Option ℕ) → Option ℕ
mark_of a [] = none
mark_of zero (m ∷ ms) = m
mark_of (suc a) (m ∷ ms) = mark_of a ms

abbrev pub set_mark : ℕ → ℕ → List (Option ℕ) → List (Option ℕ)
set_mark a i [] = []
set_mark zero i (m ∷ ms) = some i ∷ ms
set_mark (suc a) i (m ∷ ms) = m ∷ set_mark a i ms

abbrev pub object_at : ℕ → Heap → Object
object_at a [] = object []
object_at zero (o ∷ os) = o
object_at (suc a) (o ∷ os) = object_at a os

-- `mapObj.set(value, ++indexRef)`
abbrev pub mark : ℕ → Seen → Seen
mark a s = record { marks = set_mark a (suc s.index_ref) s.marks; index_ref = suc s.index_ref }

abbrev pub Iterate : Type 0
Iterate = Value → Seen → Option (Tree × Seen)

-- The values in order, each with what the ones before it have marked.
abbrev pub then_rest : Tree → Option (Trees × Seen) → Option (Trees × Seen)
then_rest t none = none
then_rest t (some (ts, s)) = some (cons t ts, s)

abbrev pub after_first :
    (Seen → Option (Trees × Seen)) → Option (Tree × Seen) → Option (Trees × Seen)
after_first rest none = none
after_first rest (some (t, s)) = then_rest t (rest s)

unfoldable pub iterate_all : Iterate → List Value → Seen → Option (Trees × Seen)
iterate_all go [] s = some (nil, s)
iterate_all go (v ∷ vs) s = after_first (iterate_all go vs) (go v s)

abbrev pub as_array : ℕ → Option (Trees × Seen) → Option (Tree × Seen)
as_array a none = none
as_array a (some (ts, s)) = some (copied_array a ts, s)

abbrev pub as_object : ℕ → List String → Option (Trees × Seen) → Option (Tree × Seen)
as_object a keys none = none
as_object a keys (some (ts, s)) = some (copied_object a keys ts, s)

-- What becomes of an object that was not there before, by its kind.
abbrev pub copy : Iterate → ℕ → Object → Seen → Option (Tree × Seen)
copy go a ignored s = some (kept a, s)
copy go a (array vs) s = as_array a (iterate_all go vs s)
copy go a (object []) s = some (kept a, s)
copy go a (object (f ∷ fs)) s =
    as_object a (map (λ (k, v). k) (f ∷ fs)) (iterate_all go (map (λ (k, v). v) (f ∷ fs)) s)

module _ (heap : Heap) (replacement : Replacement) where
  abbrev pub visit : Iterate → ℕ → Option ℕ → Iterate
  visit go a (some index) v s = some (replaced replacement index, s)
  visit go a none v s = copy go a (object_at a heap) (mark a s)

  -- `iterateObj`
  unfoldable pub iterate_obj : ℕ → Iterate
  iterate_obj n (scalar k) s = some (leaf k, s)
  iterate_obj zero (ref a) s = none
  iterate_obj (suc n) (ref a) s = visit (iterate_obj n) a (mark_of a s.marks) (ref a) s

  abbrev pub fresh : Seen
  fresh = record { marks = map (λ o. none) heap; index_ref = 0 }

  -- `circularRemove`, with more fuel than there are objects.
  unfoldable pub circular_remove : Value → Option (Tree × Seen)
  circular_remove v = iterate_obj (suc (length heap)) v fresh

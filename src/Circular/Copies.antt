-- ===== src/Circular/Copies.antt =====
-- `circularRemove` ends, on whatever heap, and copies no object twice.
use demo_hybrid_microservice.Common.{
  ℕ, zero, suc, ◌+◌, ◌≤◌, ◌<◌, ◌≡◌, refl, sym, ap, ◌∙◌, subst, String, true, List, [], ◌∷◌, map,
  Option, none, some, if◌then◌else◌, length, ◌==◌, arith, Bool-cases, inl, inr,
}
use demo_hybrid_microservice.Circular.{
  Value, scalar, ref, Object, array, object, ignored, Heap, Replacement, Tree, Trees, leaf, kept,
  replaced, copied_array, copied_object, nil, cons, Seen, mark_of, set_mark, object_at, mark,
  Iterate, then_rest, after_first, iterate_all, as_array, as_object, copy, visit, iterate_obj,
  fresh, circular_remove,
}
use demo_hybrid_microservice.Circular.Marks.{
  unmarked, marked, length-set_mark, unmarked-set_mark, unmarked-le, mark_of-set_mark,
  mark_of-set_mark_self, is_node, object_at-lt,
}

-- How many copies of an object a result holds.
unfoldable mutual
  pub copies : ℕ → Tree → ℕ
  copies a (leaf k) = 0
  copies a (kept b) = 0
  copies a (replaced r i) = 0
  copies a (copied_array b ts) = (if b == a then 1 else 0) + copies_all a ts
  copies a (copied_object b keys ts) = (if b == a then 1 else 0) + copies_all a ts

  pub copies_all : ℕ → Trees → ℕ
  copies_all a nil = 0
  copies_all a (cons t ts) = copies a t + copies_all a ts

module _ (size : ℕ) where
  -- What a step leaves: marks for all objects, no fewer of them, and a copy of no object that was marked
  -- before, and only one of each that is marked now.
  record IsStep (s w : Seen) (copied : ℕ → ℕ) : Type 0 where
    sized : length w.marks ≡ size
    fewer : unmarked w.marks ≤ unmarked s.marks
    once : (a : ℕ) → copied a + marked (mark_of a s.marks) ≤ marked (mark_of a w.marks)

  abbrev Ends : Seen → Option (Tree × Seen) → Type 0
  Ends s none = ⊥
  Ends s (some (t, w)) = IsStep s w (λ a. copies a t)

  abbrev EndsAll : Seen → Option (Trees × Seen) → Type 0
  EndsAll s none = ⊥
  EndsAll s (some (ts, w)) = IsStep s w (λ a. copies_all a ts)

  stays : (s : Seen) → length s.marks ≡ size → IsStep s s (λ a. 0)
  stays s h = record { sized = h; fewer = omega arith; once = λ a. omega arith }

  then_rest-EndsAll :
      (t : Tree) (s w : Seen) (rest : Option (Trees × Seen))
      → IsStep s w (λ a. copies a t)
      → EndsAll w rest
      → EndsAll s (then_rest t rest)
  unfolding copies
  then_rest-EndsAll t s w none p q = q
  then_rest-EndsAll t s w (some (ts, u)) p q = record {
    sized = q.sized;
    fewer = omega (arith, p.fewer, q.fewer);
    once = λ a. omega (arith, p.once a, q.once a);
  }

  -- A visit of any value ends, if not more than so many objects are unmarked.
  abbrev Visits : ℕ → Iterate → Type 0
  Visits n go =
      (v : Value) (s : Seen) → length s.marks ≡ size → unmarked s.marks < n → Ends s (go v s)

  after_first-EndsAll :
      (n : ℕ) (s : Seen) (r : Option (Tree × Seen)) (rest : Seen → Option (Trees × Seen))
      → ((w : Seen) → length w.marks ≡ size → unmarked w.marks < n → EndsAll w (rest w))
      → unmarked s.marks < n
      → Ends s r
      → EndsAll s (after_first rest r)
  after_first-EndsAll n s none rest h l e = e
  after_first-EndsAll n s (some (t, w)) rest h l p =
      then_rest-EndsAll t s w (rest w) p (h w p.sized (omega (arith, l, p.fewer)))

  iterate_all-EndsAll :
      (n : ℕ) (go : Iterate) (vs : List Value) (s : Seen)
      → Visits n go
      → length s.marks ≡ size
      → unmarked s.marks < n
      → EndsAll s (iterate_all go vs s)
  unfolding iterate_all copies
  iterate_all-EndsAll n go [] s visits h l = stays s h
  iterate_all-EndsAll n go (v ∷ vs) s visits h l =
      after_first-EndsAll n s (go v s) (iterate_all go vs)
        (λ w. iterate_all-EndsAll n go vs w visits) l (visits v s h l)

  -- An object is marked when it is copied.
  mark-IsStep :
      (a : ℕ) (s w : Seen) (copied : ℕ → ℕ)
      → mark_of a s.marks ≡ none
      → a < length s.marks
      → IsStep (mark a s) w copied
      → IsStep s w (λ b. (if a == b then 1 else 0) + copied b)
  mark-IsStep a s w copied new inside p = record {
    sized = p.sized;
    fewer = omega (arith, p.fewer, unmarked-le a (suc s.index_ref) s.marks);
    once = λ b. elim (Bool-cases (a == b)) [
      | inl same ↦
          let here : a ≡ b = ground (arith, same) in
          rw same (
            subst (λ c. 1 + copied c + marked (mark_of c s.marks) ≤ marked (mark_of c w.marks)) here
              (own (mark_of-set_mark_self a (suc s.index_ref) s.marks inside) (p.once a)))
      | inr other ↦
          rw other (omega (arith, p.once b, mark_of-set_mark b a (suc s.index_ref) s.marks))
    ];
  }
    where
      own :
          mark_of a (set_mark a (suc s.index_ref) s.marks) ≡ some (suc s.index_ref)
          → copied a + marked (mark_of a (set_mark a (suc s.index_ref) s.marks))
            ≤ marked (mark_of a w.marks)
          → 1 + copied a + marked (mark_of a s.marks) ≤ marked (mark_of a w.marks)
      own m h = ground (arith, m, h, new)

  kept-IsStep : (a : ℕ) (s : Seen) → length s.marks ≡ size → IsStep s (mark a s) (λ b. 0)
  kept-IsStep a s h = record {
    sized = length-set_mark a (suc s.index_ref) s.marks ∙ h;
    fewer = unmarked-le a (suc s.index_ref) s.marks;
    once = λ b. omega (arith, mark_of-set_mark b a (suc s.index_ref) s.marks);
  }

  module _ (n : ℕ) (go : Iterate) (visits : Visits n go) (a : ℕ) (s : Seen)
      (new : mark_of a s.marks ≡ none) (sized : length s.marks ≡ size)
      (left : unmarked s.marks < suc n) where
    values-EndsAll :
        (vs : List Value) → a < size → EndsAll (mark a s) (iterate_all go vs (mark a s))
    values-EndsAll vs inside =
        iterate_all-EndsAll n go vs (mark a s) visits
          (length-set_mark a (suc s.index_ref) s.marks ∙ sized)
          (omega (
            arith,
            left,
            unmarked-set_mark a (suc s.index_ref) s.marks new (ground (arith, inside, sized)),
          ))

    as_array-Ends :
        (r : Option (Trees × Seen)) → a < size → EndsAll (mark a s) r → Ends s (as_array a r)
    unfolding copies
    as_array-Ends none inside e = e
    as_array-Ends (some (ts, w)) inside p =
        mark-IsStep a s w (λ b. copies_all b ts) new (ground (arith, inside, sized)) p

    as_object-Ends :
        (keys : List String) (r : Option (Trees × Seen))
        → a < size
        → EndsAll (mark a s) r
        → Ends s (as_object a keys r)
    unfolding copies
    as_object-Ends keys none inside e = e
    as_object-Ends keys (some (ts, w)) inside p =
        mark-IsStep a s w (λ b. copies_all b ts) new (ground (arith, inside, sized)) p

    copy-Ends : (o : Object) → (is_node o ≡ true → a < size) → Ends s (copy go a o (mark a s))
    unfolding copies
    copy-Ends ignored inside = kept-IsStep a s sized
    copy-Ends (array vs) inside = as_array-Ends _ (inside refl) (values-EndsAll vs (inside refl))
    copy-Ends (object []) inside = kept-IsStep a s sized
    copy-Ends (object (f ∷ fs)) inside =
        as_object-Ends _ _ (inside refl) (values-EndsAll _ (inside refl))

module _ (heap : Heap) (replacement : Replacement) where
  visit-Ends :
      (n : ℕ) (go : Iterate) (a : ℕ) (m : Option ℕ) (s : Seen)
      → Visits (length heap) n go
      → m ≡ mark_of a s.marks
      → length s.marks ≡ length heap
      → unmarked s.marks < suc n
      → Ends (length heap) s (visit heap replacement go a m (ref a) s)
  unfolding copies
  visit-Ends n go a (some i) s visits same sized l = stays (length heap) s sized
  visit-Ends n go a none s visits same sized l =
      copy-Ends (length heap) n go visits a s (sym same) sized l (object_at a heap)
        (object_at-lt a heap)

  iterate_obj-Visits : (n : ℕ) → Visits (length heap) n (iterate_obj heap replacement n)
  unfolding iterate_obj copies
  iterate_obj-Visits zero (scalar k) s sized l = stays (length heap) s sized
  iterate_obj-Visits (suc n) (scalar k) s sized l = stays (length heap) s sized
  iterate_obj-Visits zero (ref a) s sized l = ground (arith, l)
  iterate_obj-Visits (suc n) (ref a) s sized l =
      visit-Ends n (iterate_obj heap replacement n) a (mark_of a s.marks) s (iterate_obj-Visits n)
        refl sized l

-- A result is there, and holds no more than one copy of the object at an address.
abbrev pub HoldsOnce : ℕ → Option (Tree × Seen) → Type 0
HoldsOnce a none = ⊥
HoldsOnce a (some (t, s)) = copies a t ≤ 1

marked-le : (m : Option ℕ) → marked m ≤ 1
marked-le none = omega arith
marked-le (some i) = omega arith

length-fresh : (heap : Heap) → length (map {B = Option ℕ} (λ o. none) heap) ≡ length heap
length-fresh [] = refl
length-fresh (o ∷ os) = ap suc (length-fresh os)

unmarked-length : (ms : List (Option ℕ)) → unmarked ms ≤ length ms
unmarked-length [] = omega arith
unmarked-length (none ∷ ms) = omega (arith, unmarked-length ms)
unmarked-length (some i ∷ ms) = omega (arith, unmarked-length ms)

-- On any heap, also one whose objects refer to themselves in a circle, `circularRemove` ends before it has
-- gone deeper than there are objects, and its result holds no more than one copy of any object.
pub circular_remove-HoldsOnce :
    (heap : Heap) (replacement : Replacement) (v : Value) (a : ℕ)
    → HoldsOnce a (circular_remove heap replacement v)
unfolding circular_remove
circular_remove-HoldsOnce heap replacement v a =
    let start : Seen = fresh heap replacement in
    at_once (iterate_obj heap replacement (suc (length heap)) v start) (
      iterate_obj-Visits heap replacement (suc (length heap)) v start (length-fresh heap)
        (omega (arith, unmarked-length start.marks, length-fresh heap)))
  where
    at_once :
        (r : Option (Tree × Seen)) → Ends (length heap) (fresh heap replacement) r → HoldsOnce a r
    at_once none e = e
    at_once (some (t, w)) p = omega (arith, p.once a, marked-le (mark_of a w.marks))

-- ===== src/Logger/Prune/Depth.antt =====
-- Pruned values are not nested deeper than the limit allows.
use demo_hybrid_microservice.Common.{
  ℕ, suc, ◌+◌, ◌-◌, ◌≤◌, ◌≡◌, refl, String, Bool, true, false, List, Option, some, arith,
  Bool-cases, inl, inr, str_eq, length,
}
use demo_hybrid_microservice.Logger.Value.{
  Value, undefined, null, scalar, text, opaque, array, object, Items, nil, cons, Fields, end, field,
  height, height_items, height_fields, push_item, set_field, field_count,
}
use demo_hybrid_microservice.Logger.Prune.{
  PruneConfig, exceeds, get_length_field, get_length_array, is_spent, spend, prune_text,
  close_array, close_object, limit_array, nest_object, limit_fields, prune_value, prune_items,
  prune_fields, prune_key_value,
}

height-push_item :
    (vs : Items) (s : List ℕ) → height_items (push_item vs (text s)) ≡ height_items vs
unfolding push_item height_items
height-push_item nil s = refl
height-push_item (cons v vs) s = omega (arith, height-push_item vs s)

height-set_field :
    (key : String) (s : List ℕ) (fs : Fields)
    → height_fields (set_field key (text s) fs) ≤ height_fields fs
unfolding set_field height_fields
height-set_field key s end = omega arith
height-set_field key s (field k v fs) = elim (Bool-cases (str_eq k key)) [
  | inl same ↦ rw same (omega arith)
  | inr other ↦ rw other (omega (arith, height-set_field key s fs))
]

height-close_array :
    (b : Bool) (r : Items × List String) → height (close_array b r).0 ≡ suc (height_items r.0)
unfolding close_array height
height-close_array true (vs, m) = omega (arith, height-push_item vs _)
height-close_array false (vs, m) = refl

height-close_object :
    (b : Bool) (r : Fields × List String) → height_fields (close_object b r).0 ≤ height_fields r.0
unfolding close_object
height-close_object true (fs, m) = height-set_field "---" _ fs
height-close_object false (fs, m) = omega arith

module _ (c : PruneConfig) (most : ℕ) (limit : c.max_depth ≡ some most) where
  not_over : (d : ℕ) → exceeds (d + 1) c.max_depth ≡ false → d + 1 ≤ most
  not_over d e = ground (arith, limit)

  height-limit_fields :
      (depth count : ℕ) (markers : List String) (kept : Fields × List String)
      → height_fields kept.0 ≤ (most - (depth + 1)) + 1
      → height_fields (limit_fields c depth count markers kept).0 ≤ most - depth
  unfolding limit_fields
  height-limit_fields depth count markers kept h =
      elim (Bool-cases (exceeds (depth + 1) c.max_depth)) [
        | inl over ↦ rw over (unfold height_fields in omega arith)
        | inr under ↦ rw under (
            omega (
              arith,
              h,
              height-close_object (exceeds count c.max_count_fields) kept,
              not_over depth under,
            ))
      ]

  height-limit_array :
      (depth count : ℕ) (l : Option ℕ) (markers : List String) (kept : Items × List String)
      → height_items kept.0 ≤ (most - (depth + 1)) + 1
      → height (limit_array c depth count l markers kept).0 ≤ (most - depth) + 1
  unfolding limit_array
  height-limit_array depth count l markers kept h =
      elim (Bool-cases (exceeds (depth + 1) c.max_depth)) [
        | inl over ↦ rw over (unfold height in omega arith)
        | inr under ↦
            rw under
              (omega (arith, h, height-close_array (exceeds count l) kept, not_over depth under))
      ]

  height-nest_object :
      (depth : ℕ) (markers : List String) (kept : Fields × List String)
      → height_fields kept.0 ≤ most - (depth + 1)
      → height (nest_object c depth markers kept).0 ≤ (most - depth) + 1
  unfolding nest_object height
  height-nest_object depth markers (fs, m) h = elim (Bool-cases (exceeds (depth + 1) c.max_depth)) [
    | inl over ↦ rw over (omega arith)
    | inr under ↦ rw under (omega (arith, h))
  ]

  mutual
    unfolding prune_value height prune_text

    height-prune_value :
        (v : Value) (markers : List String) (depth : ℕ) (name : Option String)
        → height (prune_value c v markers depth name).0 ≤ (most - depth) + 1
    height-prune_value undefined markers depth name = omega arith
    height-prune_value null markers depth name = omega arith
    height-prune_value (scalar n) markers depth name = omega arith
    height-prune_value (opaque n) markers depth name = omega arith
    height-prune_value (text s) markers depth name =
        elim (Bool-cases (exceeds (length s) (get_length_field c name))) [
          | inl over ↦ rw over (omega arith)
          | inr under ↦ rw under (omega arith)
        ]
    height-prune_value (array vs) markers depth name =
        height-limit_array depth _ (get_length_array c name) markers _
          (height-prune_items vs (get_length_array c name) markers (depth + 1) name)
    height-prune_value (object fs) markers depth name = height-nest_object depth markers _ (
        height-limit_fields (depth + 1) _ markers _
          (height-prune_fields fs c.max_count_fields markers (depth + 1 + 1)))

    height-prune_items :
        (vs : Items) (left : Option ℕ) (markers : List String) (depth : ℕ) (name : Option String)
        → height_items (prune_items c vs left markers depth name).0 ≤ (most - depth) + 1
    height-prune_items nil left markers depth name = omega arith
    height-prune_items (cons v vs) left markers depth name = elim (Bool-cases (is_spent left)) [
      | inl spent ↦ rw spent (omega arith)
      | inr more ↦ rw more (
          omega (
            arith,
            height-prune_value v markers depth name,
            height-prune_items vs (spend left) (prune_value c v markers depth name).1 depth name,
          ))
    ]

    height-prune_fields :
        (fs : Fields) (left : Option ℕ) (markers : List String) (depth : ℕ)
        → height_fields (prune_fields c fs left markers depth).0 ≤ (most - depth) + 1
    height-prune_fields end left markers depth = omega arith
    height-prune_fields (field k v fs) left markers depth = elim (Bool-cases (is_spent left)) [
      | inl spent ↦ rw spent (omega arith)
      | inr more ↦ rw more (
          omega (
            arith,
            height-prune_value v markers depth (some k),
            height-prune_fields fs (spend left) (prune_value c v markers depth (some k)).1 depth,
          ))
    ]

  -- With `maxDepth` given, no log entry leaves `pruneKeyValue` with values nested deeper than
  -- that, whatever the entry, the other limits and the markers.
  pub height-prune_key_value :
      (fs : Fields) (markers : List String)
      → height_fields (prune_key_value c fs markers 0).0 ≤ most
  unfolding prune_key_value
  height-prune_key_value fs markers =
      let h =
        height-limit_fields 0 (field_count fs) markers
          (prune_fields c fs c.max_count_fields markers 1)
          (height-prune_fields fs c.max_count_fields markers 1) in
      omega (arith, h)

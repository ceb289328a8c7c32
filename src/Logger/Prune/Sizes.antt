-- ===== src/Logger/Prune/Sizes.antt =====
-- Pruned objects hold no more fields than the limit allows.
use demo_hybrid_microservice.Common.{
  ℕ, ◌+◌, ◌-◌, ◌≤◌, ◌≡◌, String, Bool, true, false, List, some, arith, Bool-cases, inl, inr, str_eq,
}
use demo_hybrid_microservice.Logger.Value.{Value, Fields, end, field, field_count, set_field}
use demo_hybrid_microservice.Logger.Prune.{
  PruneConfig, exceeds, is_spent, close_object, limit_fields, prune_value, prune_fields,
  prune_key_value,
}

count-set_field :
    (key : String) (v : Value) (fs : Fields) → field_count (set_field key v fs) ≤ field_count fs + 1
unfolding set_field
count-set_field key v end = omega arith
count-set_field key v (field k w fs) = elim (Bool-cases (str_eq k key)) [
  | inl same ↦ rw same (omega arith)
  | inr other ↦ rw other (omega (arith, count-set_field key v fs))
]

count-close_object :
    (b : Bool) (r : Fields × List String) → field_count (close_object b r).0 ≤ field_count r.0 + 1
unfolding close_object
count-close_object true (fs, m) = count-set_field "---" _ fs
count-close_object false (fs, m) = omega arith

count-prune_fields :
    (c : PruneConfig) (fs : Fields) (left : ℕ) (markers : List String) (depth : ℕ)
    → field_count (prune_fields c fs (some left) markers depth).0 ≤ left
unfolding prune_fields
count-prune_fields c end left markers depth = omega arith
count-prune_fields c (field k v fs) left markers depth = elim (Bool-cases (is_spent (some left))) [
  | inl spent ↦ rw spent (omega arith)
  | inr more ↦ rw more (
      ground (
        arith,
        more,
        count-prune_fields c fs (left - 1) (prune_value c v markers depth (some k)).1 depth,
      ))
]

-- With `maxCountFields` given, `pruneKeyValue` gives at most that many fields and the one that tells of
-- the limit, whatever the entry, the depth, the other limits and the markers.
count-prune_key_value :
    (c : PruneConfig) (most : ℕ)
    → c.max_count_fields ≡ some most
    → (fs : Fields) (markers : List String) (depth : ℕ)
    → field_count (prune_key_value c fs markers depth).0 ≤ most + 1
unfolding prune_key_value limit_fields
count-prune_key_value c most limit fs markers depth =
    elim (Bool-cases (exceeds (depth + 1) c.max_depth)) [
      | inl over ↦ rw over (omega arith)
      | inr under ↦
          let kept = prune_fields c fs c.max_count_fields markers (depth + 1) in
          let h : field_count kept.0 ≤ most =
            simp limit (count-prune_fields c fs most markers (depth + 1)) in
          rw under (
            omega (arith, h, count-close_object (exceeds (field_count fs) c.max_count_fields) kept))
    ]

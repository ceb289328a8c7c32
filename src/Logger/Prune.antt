-- ===== src/Logger/Prune.antt =====
-- `PruneFormatter`: `pruneKeyValue` and `pruneValue` of
-- src/modules/elk-logger/formatters/records/prune.formatter.ts, with the limits of
-- src/modules/elk-logger/formatters/prune.config.ts and the texts of types/prune.types.ts.
pub mod Depth
pub mod Sizes
use demo_hybrid_microservice.Common.{
  ℕ, zero, suc, ◌+◌, ◌-◌, String, Bool, true, false, List, [], ◌∷◌, ◌++◌, Option, none, some, ltb,
  ◌==◌, if◌then◌else◌, str_eq, includes, length, take,
}
use demo_hybrid_microservice.Logger.Value.{
  codes, Value, undefined, null, scalar, text, opaque, array, object, Items, nil, cons, Fields, end,
  field, item_count, field_count, push_item, set_field,
}

-- A limit is `none` where the source has `Infinity`.
pub record PruneConfig : Type 0 where
  pub max_count_fields : Option ℕ
  pub max_depth : Option ℕ
  pub max_length_fields : List (String × Option ℕ)

abbrev pub find_limit : List (String × Option ℕ) → String → Option (Option ℕ)
find_limit [] key = none
find_limit ((k, l) ∷ ls) key = if str_eq k key then some l else find_limit ls key

-- `a ?? b`, for limits.
abbrev pub or_else : Option (Option ℕ) → Option ℕ → Option ℕ
or_else none l = l
or_else (some k) l = k

abbrev pub default_length : PruneConfig → Option ℕ
default_length c = or_else (find_limit c.max_length_fields "--default--") none

abbrev pub array_length : PruneConfig → Option ℕ
array_length c = or_else (find_limit c.max_length_fields "--array--") (default_length c)

abbrev keyed : PruneConfig → Option String → Option ℕ → Option ℕ
keyed c none l = l
keyed c (some key) l = if str_eq key "" then l else or_else (find_limit c.max_length_fields key) l

abbrev pub get_length_field : PruneConfig → Option String → Option ℕ
get_length_field c key = keyed c key (default_length c)

abbrev pub get_length_array : PruneConfig → Option String → Option ℕ
get_length_array c key = keyed c key (array_length c)

-- `n > limit`.
abbrev pub exceeds : ℕ → Option ℕ → Bool
exceeds n none = false
exceeds n (some l) = ltb l n

-- `addMarker`.
abbrev pub add_marker : String → List String → List String
add_marker m markers = if includes markers m then markers else markers ++ m ∷ []

abbrev pub limit_depth_text : List ℕ
limit_depth_text = codes "--- Достигнута максимальная глубина вложения ---"

abbrev pub limit_count_fields_text : List ℕ
limit_count_fields_text = codes "--- Превышено количество полей ---"

abbrev pub limit_length_array_text : List ℕ
limit_length_array_text = codes "--- Превышено количество элементов ---"

abbrev pub limit_object : Fields
limit_object = field "---" (text limit_depth_text) end

abbrev pub slice_text : List ℕ → Option ℕ → List ℕ
slice_text s none = s
slice_text s (some l) = take l s ++ codes "..."

prune_text : PruneConfig → Option String → List ℕ → List String → Value × List String
prune_text c name s markers =
    if exceeds (length s) (get_length_field c name)
    then (text (slice_text s (get_length_field c name)), add_marker "err-log-length-max" markers)
    else (text s, markers)

-- The slice of an array or of the field names is a count of what may still be taken.
abbrev pub is_spent : Option ℕ → Bool
is_spent none = false
is_spent (some l) = l == 0

abbrev pub spend : Option ℕ → Option ℕ
spend none = none
spend (some l) = some (l - 1)

close_array : Bool → Items × List String → Value × List String
close_array true (vs, markers) = (
  array (push_item vs (text limit_length_array_text)),
  add_marker "err-log-length-array-max" markers,
)
close_array false (vs, markers) = (array vs, markers)

close_object : Bool → Fields × List String → Fields × List String
close_object true (fs, markers) = (
  set_field "---" (text limit_count_fields_text) fs,
  add_marker "err-log-count-field-max" markers,
)
close_object false (fs, markers) = (fs, markers)

-- `pruneKeyValue` at `depth`, given what its loop over `count` fields makes of them.
limit_fields :
    PruneConfig → (depth count : ℕ) → List String → Fields × List String → Fields × List String
unfolding close_object
limit_fields c depth count markers kept =
    if exceeds (depth + 1) c.max_depth
    then (limit_object, add_marker "err-log-depth-max" markers)
    else close_object (exceeds count c.max_count_fields) kept

-- An array at `depth`, given what the loop makes of its `count` elements.
limit_array :
    PruneConfig
    → (depth count : ℕ) (limit : Option ℕ) → List String
    → Items × List String
    → Value × List String
unfolding close_array
limit_array c depth count limit markers kept =
    if exceeds (depth + 1) c.max_depth
    then (array (cons (text limit_depth_text) nil), add_marker "err-log-depth-max" markers)
    else close_array (exceeds count limit) kept

-- An object at `depth`, given what `pruneKeyValue` makes of it.
nest_object : PruneConfig → (depth : ℕ) → List String → Fields × List String → Value × List String
nest_object c depth markers (fs, m) =
    if exceeds (depth + 1) c.max_depth
    then (object limit_object, add_marker "err-log-depth-max" markers)
    else (object fs, m)

mutual
  unfolding prune_text limit_array nest_object limit_fields

  pub prune_value :
      PruneConfig → Value → List String → (depth : ℕ) → (name : Option String) → Value × List String
  prune_value c undefined markers depth name = (undefined, markers)
  prune_value c null markers depth name = (null, markers)
  prune_value c (scalar n) markers depth name = (scalar n, markers)
  prune_value c (opaque n) markers depth name = (opaque n, markers)
  prune_value c (text s) markers depth name = prune_text c name s markers
  prune_value c (array vs) markers depth name =
      limit_array c depth (item_count vs) (get_length_array c name) markers
        (prune_items c vs (get_length_array c name) markers (depth + 1) name)
  prune_value c (object fs) markers depth name = nest_object c depth markers (
      limit_fields c (depth + 1) (field_count fs) markers
        (prune_fields c fs c.max_count_fields markers (depth + 1 + 1)))

  pub prune_items :
      PruneConfig
      → Items
      → Option ℕ
      → List String
      → (depth : ℕ) → (name : Option String) → Items × List String
  prune_items c nil left markers depth name = (nil, markers)
  prune_items c (cons v vs) left markers depth name =
      let (v', m1) = prune_value c v markers depth name in
      let (vs', m2) = prune_items c vs (spend left) m1 depth name in
      if is_spent left then (nil, markers) else (cons v' vs', m2)

  pub prune_fields :
      PruneConfig → Fields → Option ℕ → List String → (depth : ℕ) → Fields × List String
  prune_fields c end left markers depth = (end, markers)
  prune_fields c (field k v fs) left markers depth =
      let (v', m1) = prune_value c v markers depth (some k) in
      let (fs', m2) = prune_fields c fs (spend left) m1 depth in
      if is_spent left then (end, markers) else (field k v' fs', m2)

-- `pruneKeyValue`.
pub prune_key_value : PruneConfig → Fields → List String → ℕ → Fields × List String
prune_key_value c fs markers depth =
    limit_fields c depth (field_count fs) markers
      (prune_fields c fs c.max_count_fields markers (depth + 1))

-- ===== src/Tests/Logs.antt =====
-- A log entry that is nested too deep.
use demo_hybrid_microservice.Common.{◌≤◌, refl, [], some, none}
use demo_hybrid_microservice.Logger.Value.{
  codes, text, array, object, nil, cons, Fields, end, field, height_fields,
}
use demo_hybrid_microservice.Logger.Prune.{PruneConfig, prune_key_value}
use demo_hybrid_microservice.Logger.Prune.Depth.{height-prune_key_value}

abbrev two_deep : PruneConfig
two_deep = record { max_count_fields = none; max_depth = some 2; max_length_fields = [] }

abbrev entry : Fields
entry =
    field "payload"
      (object (field "a" (array (cons (object (field "b" (text (codes "x")) end)) nil)) end)) end

height-prune_key_value_example : height_fields (prune_key_value two_deep entry [] 0).0 ≤ 2
height-prune_key_value_example = height-prune_key_value two_deep 2 refl entry []

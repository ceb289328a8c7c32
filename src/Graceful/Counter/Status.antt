-- ===== src/Graceful/Counter/Status.antt =====
-- `statusActiveProcess` of services/graceful-shutdown.count-handle.ts: the report of active methods.
use demo_hybrid_microservice.Common.{
  ℕ, ◌+◌, ◌≡◌, Bool, not, List, [], ◌∷◌, ◌++◌, map, append-nil, append_assoc, sym, Option, none,
  some, arith, String, if◌then◌else◌, ◌==◌, filter_by, Bool-cases, inl, inr, ap, ◌∙◌,
}

-- An element of `values.values` of prom-client. A gauge that only `increment` and `decrement` move is
-- never negative.
pub record GaugeValue : Type 0 where
  pub value : ℕ
  pub service : Option String
  pub method : Option String

pub record ActiveProcess : Type 0 where
  pub service : String
  pub method : String
  pub count : ℕ

pub record ActiveReport : Type 0 where
  pub total : ℕ
  pub details : List ActiveProcess

abbrev pub or_empty : Option String → String
or_empty none = ""
or_empty (some s) = s

abbrev pub detail_of : GaugeValue → ActiveProcess
detail_of v = record { service = or_empty v.service; method = or_empty v.method; count = v.value }

-- One round of `forEach`: `if (value.value)`.
report_value : ActiveReport → GaugeValue → ActiveReport
report_value r v =
    if v.value == 0
    then r
    else record { total = r.total + v.value; details = r.details ++ detail_of v ∷ [] }

report_values : ActiveReport → List GaugeValue → ActiveReport
report_values r [] = r
report_values r (v ∷ vs) = report_values (report_value r v) vs

abbrev empty_report : ActiveReport
empty_report = record { total = 0; details = [] }

-- `none` is the `undefined` that the gauge service returns on an error.
pub status_active_process : Option (List GaugeValue) → ActiveReport
unfolding report_values report_value
status_active_process none = empty_report
status_active_process (some values) = report_values empty_report values

abbrev pub sum_values : List GaugeValue → ℕ
sum_values [] = 0
sum_values (v ∷ vs) = v.value + sum_values vs

abbrev pub is_active : GaugeValue → Bool
is_active v = not (v.value == 0)

report_value_lem :
    (r : ActiveReport) (v : GaugeValue)
    → ((report_value r v).total ≡ r.total + v.value)
      × ((report_value r v).details ≡ r.details ++ map detail_of (filter_by is_active (v ∷ [])))
unfolding report_value
report_value_lem r v = (ground arith, ground (arith, append-nil r.details))

map-filter_by-cons :
    (v : GaugeValue) (vs : List GaugeValue)
    → map detail_of (filter_by is_active (v ∷ [])) ++ map detail_of (filter_by is_active vs)
      ≡ map detail_of (filter_by is_active (v ∷ vs))
map-filter_by-cons v vs = elim (Bool-cases (v.value == 0)) [
  | inl idle ↦ rw idle
  | inr busy ↦ rw busy
]

report_values-total :
    (r : ActiveReport) (vs : List GaugeValue) → (report_values r vs).total ≡ r.total + sum_values vs
unfolding report_values
report_values-total r [] = omega arith
report_values-total r (v ∷ vs) =
    omega (arith, report_values-total (report_value r v) vs, (report_value_lem r v).0)

report_values-details :
    (r : ActiveReport) (vs : List GaugeValue)
    → (report_values r vs).details ≡ r.details ++ map detail_of (filter_by is_active vs)
unfolding report_values
report_values-details r [] = sym (append-nil r.details)
report_values-details r (v ∷ vs) =
    report_values-details (report_value r v) vs
    ∙ ap (λ l. l ++ map detail_of (filter_by is_active vs)) (report_value_lem r v).1
    ∙ append_assoc r.details _ _
    ∙ ap (◌++◌ r.details) (map-filter_by-cons v vs)

-- The report's total is the sum of the gauge's values, and its details are the values that are not
-- zero, in their order, an absent label read as the empty string.
status_active_process_lem :
    (vs : List GaugeValue)
    → ((status_active_process (some vs)).total ≡ sum_values vs)
      × ((status_active_process (some vs)).details ≡ map detail_of (filter_by is_active vs))
unfolding status_active_process
status_active_process_lem vs =
    (omega (arith, report_values-total empty_report vs), report_values-details empty_report vs)

-- ===== src/Tests/Logged.antt =====
-- A method that is logged, and an error that NestJS logs with its stack.
use demo_hybrid_microservice.Common.{
  ◌≡◌, refl, String, Bool, true, false, [], ◌∷◌, ◌++◌, none, ok, str_eq,
}
use demo_hybrid_microservice.Common.Methods.{returns, rejects, seen, settlement_of}
use demo_hybrid_microservice.Logger.OnMethod.{
  Fields, OnMethod, Logging, unset, given, flag, construct, wrapped_method, settle,
}
use demo_hybrid_microservice.Logger.OnMethod.Entries.{
  NeverThrows, response_entries, outcome_entries, wrapped_method-entries,
}
use demo_hybrid_microservice.Logger.Nest.{text, NestLogLevel, parts_of}
use demo_hybrid_microservice.Logger.Nest.Arguments.{Splits, parts_of-Splits}

abbrev logged : OnMethod
logged = record {
  fields = ok (("topic", "orders") ∷ []);
  before = unset;
  after = λ v took. given (flag true);
  throw = λ e took. unset;
  finally = λ took. given (flag false);
}

abbrev keep_both : Fields → Fields → Fields
keep_both a b = a ++ b

abbrev nothing_logged : Logging
nothing_logged = construct (record { is_subscribed = false; entries = [] })

abbrev quiet : NeverThrows "Orders.consume" none keep_both logged
quiet = record {
  before = refl;
  after = λ v took. refl;
  throw = λ e took. refl;
  finally = λ took. refl;
}

wrapped_method-entries_example :
    let (answer, s) =
      wrapped_method "Orders.consume" none keep_both logged (returns "done") 30 nothing_logged in
    let (settlement, later) =
      settle "Orders.consume" none keep_both logged
        (rejects "refused")
        90
        (("topic", "orders") ∷ [])
        nothing_logged in
    (seen answer ≡ returns "done")
    × (s.entries
        ≡ []
          ++ response_entries "Orders.consume" none keep_both logged
              (returns "done")
              30
              (("topic", "orders") ∷ []))
    × (settlement ≡ settlement_of (rejects "refused"))
    × (later.entries
        ≡ []
          ++ outcome_entries "Orders.consume" none keep_both logged
              (rejects "refused")
              90
              (("topic", "orders") ∷ []))
wrapped_method-entries_example =
    wrapped_method-entries "Orders.consume" none keep_both logged quiet (returns "done")
      (rejects "refused") 30 90 (("topic", "orders") ∷ []) nothing_logged nothing_logged refl refl
      refl

abbrev is_at : String → Bool
is_at s = str_eq s "Error: lost\n at a.ts:1:2"

parts_of-Splits_example :
    Splits (text "lost") (text "Error: lost\n at a.ts:1:2" ∷ text "Orders" ∷ []) (
      parts_of is_at
        (λ s. s ∷ [])
        NestLogLevel.error
        (text "lost" ∷ text "Error: lost\n at a.ts:1:2" ∷ text "Orders" ∷ []))
parts_of-Splits_example =
    parts_of-Splits is_at (λ s. s ∷ []) NestLogLevel.error (text "lost")
      (text "Error: lost\n at a.ts:1:2" ∷ text "Orders" ∷ [])

-- ===== src/Tests/Shutdown.antt =====
-- A process that counts three calls, and the shutdown of it.
use demo_hybrid_microservice.Common.{
  ◌≡◌, ◌≤◌, ◌+◌, any_of, true, false, not, ◌&&◌, List, [], ◌∷◌, some, none, arith,
}
use demo_hybrid_microservice.Graceful.Counter.{
  CountType, throws, promises, boot, Event, init, call, settles, run,
}
use demo_hybrid_microservice.Graceful.Counter.Balance.{IsBalanced, run-boot-IsBalanced}
use demo_hybrid_microservice.Graceful.Wait.{
  Notice, happens, times_out, drains_before, is_firing, is_rejected, is_resolved,
  wait_for_methods_done, subscribe, wait_resolves,
}
use demo_hybrid_microservice.Graceful.Service.{
  Config, World, resolves, never, before_application_shutdown, timer_delay, get_grace_period,
}
use demo_hybrid_microservice.Graceful.Service.Phases.{most_time}
use demo_hybrid_microservice.Graceful.Service.Exit.{shutdown_bounded}

abbrev consume : CountType
consume = record { service = "OrdersController"; method = "consume" }

abbrev history : List Event
history =
    init
    ∷ call consume (promises 1) 5 5
    ∷ call consume throws 6 7
    ∷ call consume (promises 2) 8 8
    ∷ settles 1 9 true
    ∷ []

run-boot-IsBalanced_example : IsBalanced (run boot history)
run-boot-IsBalanced_example = run-boot-IsBalanced history

abbrev config : Config
config = record {
  is_enabled = true;
  timeout_before_destroy = none;
  timeout_destroy = some 2000;
  timeout_after_destroy = none;
  grace_period = some 500;
  destroy_signal = "SIGTERM";
}

abbrev world : World
world = record { before = resolves 30; drained = some 1500; silence = none; after = never }

-- The last call settles before the time is over.
abbrev notices : List Notice
notices = happens (settles 2 12 false) ∷ times_out ∷ []

wait_resolves_example :
    let p = subscribe (run boot history) in
    let w = wait_for_methods_done config (run boot history) notices in
    (is_resolved w ≡ drains_before true p notices)
    × (is_rejected w ≡ (true && any_of is_firing notices && not (drains_before true p notices)))
wait_resolves_example = wait_resolves config history notices

shutdown_bounded_example :
    (before_application_shutdown config (some "SIGTERM") world false).elapsed
    ≤ most_time config + timer_delay (get_grace_period config)
shutdown_bounded_example =
    shutdown_bounded config (some "SIGTERM") world false (λ q e. ground arith)

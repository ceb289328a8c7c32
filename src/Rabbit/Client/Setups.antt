-- ===== src/Rabbit/Client/Setups.antt =====
-- When the set-up of a RabbitMQ client's channel is completed.
use demo_hybrid_microservice.Common.{
  ◌≡◌, refl, String, Bool, true, false, not, ◌&&◌, List, [], ◌∷◌, map, Option, none, some,
  if◌then◌else◌, str_eq, all_of, arith, Bool-cases, inl, inr,
}
use demo_hybrid_microservice.Rabbit.Setup.{ChannelCall, assert_queue, assert_exchange, bind_queue}
use demo_hybrid_microservice.Rabbit.Client.Publishing.{
  ProducerOptions, Setup, then_setup, bind_all, setup_exchange, setup_channel,
}

-- The calls that the options ask for.
abbrev pub wanted_of_exchange : Bool → Option String → ProducerOptions → List ChannelCall
wanted_of_exchange own none o = []
wanted_of_exchange own (some e) o =
    if str_eq e ""
    then []
    else assert_exchange e ∷ (if own then map (bind_queue o.queue e) o.routing else [])

abbrev pub wanted : String → ProducerOptions → List ChannelCall
wanted default_queue o =
    let own = not (str_eq o.queue default_queue) in
    let rest = wanted_of_exchange own o.exchange o in
    if not o.no_assert && own then assert_queue o.queue ∷ rest else rest

module _ (default_queue : String) (throws : ChannelCall → Bool) where
  abbrev pub works : List ChannelCall → Bool
  works calls = all_of (λ call. not (throws call)) calls

  -- What a set-up made of these calls: it was completed if all of them work, and then made all of them.
  record IsSetUp (calls : List ChannelCall) (s : Setup) : Type 0 where
    completes : s.completed ≡ works calls
    makes : s.completed ≡ true → s.calls ≡ calls

  then_setup-IsSetUp :
      (call : ChannelCall) (calls : List ChannelCall) (s : Setup)
      → IsSetUp calls s
      → IsSetUp (call ∷ calls) (then_setup default_queue throws call s)
  then_setup-IsSetUp call calls s i = record {
    completes = ground (arith, i.completes);
    makes = ground (arith, i.makes);
  }

  bind_all-IsSetUp :
      (queue exchange : String) (keys : List String)
      → IsSetUp
          (map (bind_queue queue exchange) keys)
          (bind_all default_queue throws queue exchange keys)
  bind_all-IsSetUp queue exchange [] = record { completes = refl; makes = λ h. refl }
  bind_all-IsSetUp queue exchange (key ∷ keys) =
      let i = bind_all-IsSetUp queue exchange keys in
      record { completes = ground (arith, i.completes); makes = ground (arith, i.makes) }

  nothing-IsSetUp : IsSetUp [] (record { calls = []; completed = true })
  nothing-IsSetUp = record { completes = refl; makes = λ h. refl }

  setup_exchange-IsSetUp :
      (e : Option String) (o : ProducerOptions)
      → IsSetUp
          (wanted_of_exchange (not (str_eq o.queue default_queue)) e o)
          (setup_exchange default_queue throws e o)
  setup_exchange-IsSetUp none o = nothing-IsSetUp
  setup_exchange-IsSetUp (some e) o = elim (Bool-cases (str_eq e "")) [
    | inl empty ↦ rw empty nothing-IsSetUp
    | inr full ↦ rw full (
        then_setup-IsSetUp (assert_exchange e) _ _
          (elim (Bool-cases (str_eq o.queue default_queue)) [
            | inl default ↦ rw default nothing-IsSetUp
            | inr own ↦ rw own (bind_all-IsSetUp o.queue e o.routing)
          ]))
  ]

  -- The set-up of a channel is completed, so that requests go on, exactly if none of the calls throws
  -- that the options ask for: the assertion of the queue, unless it is not wanted or the queue is the
  -- default one, that of the exchange, if there is one, and a binding for each routing key, if there are
  -- both. All of these are then made, in order.
  setup_channel-completes :
      (o : ProducerOptions)
      → let s = setup_channel default_queue throws o in
        (s.completed ≡ works (wanted default_queue o))
        × ((if s.completed then s.calls else wanted default_queue o) ≡ wanted default_queue o)
  unfolding setup_channel
  setup_channel-completes o =
      let i = setup_channel-IsSetUp (not o.no_assert && not (str_eq o.queue default_queue)) in
      (i.completes, ground (arith, i.makes))
    where
      setup_channel-IsSetUp :
          (asserted : Bool)
          → IsSetUp
              (if asserted
                then assert_queue o.queue
                  ∷ wanted_of_exchange (not (str_eq o.queue default_queue)) o.exchange o
                else wanted_of_exchange (not (str_eq o.queue default_queue)) o.exchange o)
              (if asserted
                then then_setup default_queue throws
                    (assert_queue o.queue)
                    (setup_exchange default_queue throws o.exchange o)
                else setup_exchange default_queue throws o.exchange o)
      setup_channel-IsSetUp true =
          then_setup-IsSetUp (assert_queue o.queue) _ _ (setup_exchange-IsSetUp o.exchange o)
      setup_channel-IsSetUp false = setup_exchange-IsSetUp o.exchange o

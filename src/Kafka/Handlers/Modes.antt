-- ===== src/Kafka/Handlers/Modes.antt =====
-- No pattern is consumed in both modes.
use demo_hybrid_microservice.Common.{
  String, ◌≡◌, refl, inl, inr, Bool, false, not, ◌||◌, ◌&&◌, List, [], ◌∷◌, ◌++◌, Option, none,
  some, if◌then◌else◌, str_eq, includes, includes-append, Unique, Unique-append, eq_iff, arith,
  Bool-cases,
}
use demo_hybrid_microservice.Kafka.Handlers.{
  ConsumerMode, each_message, each_batch, Extras, Handlers, no_handlers, Conflict,
  cannot_be_used_as, push_new, mode_of, subscribe, add_handler,
}

-- Each list is free of repetitions, and no pattern stands in both.
pub record IsConsistent (h : Handlers) : Type 0 where
  pub each_unique : Unique h.each_message_handlers
  pub batch_unique : Unique h.batch_message_handlers
  pub disjoint :
      (s : String)
      → (includes h.each_message_handlers s && includes h.batch_message_handlers s) ≡ false

push_new-Unique : (xs : List String) (s : String) → Unique xs → Unique (push_new xs s)
push_new-Unique xs s u = elim (Bool-cases (includes xs s)) [
  | inl old ↦ rw old u
  | inr new ↦ rw new (Unique-append xs s u new)
]

pub includes-push_new :
    (xs : List String) (s t : String) → includes (push_new xs s) t ≡ (includes xs t || str_eq s t)
includes-push_new xs s t = elim (Bool-cases (includes xs s)) [
  | inl old ↦ rw old (ground (arith, eq_iff s t, old))
  | inr new ↦ rw new (ground (arith, includes-append xs (s ∷ []) t))
]

subscribe-IsConsistent :
    (h : Handlers) (m : ConsumerMode) (s : String)
    → IsConsistent h
    → IsConsistent (subscribe h m s).0
unfolding subscribe
subscribe-IsConsistent h each_batch s c = elim (Bool-cases (includes h.each_message_handlers s)) [
  | inl old ↦ rw old c
  | inr new ↦ rw new (record {
    each_unique = c.each_unique;
    batch_unique = push_new-Unique h.batch_message_handlers s c.batch_unique;
    disjoint = λ t.
        ground (arith, includes-push_new h.batch_message_handlers s t, c.disjoint t, eq_iff s t);
  })
]
subscribe-IsConsistent h each_message s c =
    elim (Bool-cases (includes h.batch_message_handlers s)) [
      | inl old ↦ rw old c
      | inr new ↦ rw new (record {
        each_unique = push_new-Unique h.each_message_handlers s c.each_unique;
        batch_unique = c.batch_unique;
        disjoint = λ t.
            ground (arith, includes-push_new h.each_message_handlers s t, c.disjoint t, eq_iff s t);
      })
    ]

-- A call of `addHandler`: the pattern, whether it is an event handler, and the extras.
pub record Registration : Type 0 where
  pub pattern : String
  pub is_event_handler : Bool
  pub extras : Extras

abbrev pub listed : ConsumerMode → Handlers → List String
listed each_message h = h.each_message_handlers
listed each_batch h = h.batch_message_handlers

abbrev pub other_mode : ConsumerMode → ConsumerMode
other_mode each_message = each_batch
other_mode each_batch = each_message

-- The early return of `addHandler` applies.
abbrev pub is_foreign : String → Registration → Bool
is_foreign server_name r = not (str_eq r.extras.server_name server_name) || not r.is_event_handler

module _ (normalize_pattern : String → String) (server_name : String) where
  abbrev pub add : Handlers → Registration → Handlers × Option Conflict
  add h r = add_handler normalize_pattern server_name h r.pattern r.is_event_handler r.extras

  pub add_all : Handlers → List Registration → Handlers
  add_all h [] = h
  add_all h (r ∷ rs) = add_all (add h r).0 rs

  add-IsConsistent : (h : Handlers) (r : Registration) → IsConsistent h → IsConsistent (add h r).0
  unfolding add_handler
  add-IsConsistent h r c = elim (Bool-cases (is_foreign server_name r)) [
    | inl foreign ↦ rw foreign c
    | inr own ↦ rw own (
        subscribe-IsConsistent _ (mode_of r.extras.mode) (normalize_pattern r.pattern) (record {
          each_unique = c.each_unique;
          batch_unique = c.batch_unique;
          disjoint = c.disjoint;
        }))
  ]

  add_all-IsConsistent :
      (h : Handlers) (rs : List Registration) → IsConsistent h → IsConsistent (add_all h rs)
  unfolding add_all
  add_all-IsConsistent h [] c = c
  add_all-IsConsistent h (r ∷ rs) c = add_all-IsConsistent (add h r).0 rs (add-IsConsistent h r c)

  -- After any registrations, refused ones included, each list is free of repetitions, and no pattern is
  -- consumed both message by message and in batches.
  pub add_all-no_handlers-IsConsistent :
      (rs : List Registration) → IsConsistent (add_all no_handlers rs)
  add_all-no_handlers-IsConsistent rs =
      add_all-IsConsistent no_handlers rs
        (record { each_unique = tt; batch_unique = tt; disjoint = λ s. refl })

  -- A registration for this server is refused exactly if its normalized pattern is listed under the
  -- other mode; it is handed to NestJS in either case. If refused it changes no list; else the pattern
  -- is added to the list of its mode alone.
  add_handler_lem :
      (h : Handlers) (r : Registration)
      → is_foreign server_name r ≡ false
      → let m = mode_of r.extras.mode in
        let s = normalize_pattern r.pattern in
        let (h', refused) = add h r in
        (refused
          ≡ (if includes (listed (other_mode m) h) s then some (cannot_be_used_as m s) else none))
        × (h'.registered ≡ h.registered ++ r.pattern ∷ [])
        × (listed (other_mode m) h' ≡ listed (other_mode m) h)
        × (listed m h' ≡ (
            if includes (listed (other_mode m) h) s then listed m h else push_new (listed m h) s))
  unfolding add_handler
  add_handler_lem h r own = rw own (subscribed (mode_of r.extras.mode))
    where
      subscribed :
          (m : ConsumerMode)
          → let s = normalize_pattern r.pattern in
            let h1 = record h { registered = h.registered ++ r.pattern ∷ [] } in
            ((subscribe h1 m s).1 ≡ (
              if includes (listed (other_mode m) h) s then some (cannot_be_used_as m s) else none))
            × ((subscribe h1 m s).0.registered ≡ h.registered ++ r.pattern ∷ [])
            × (listed (other_mode m) (subscribe h1 m s).0 ≡ listed (other_mode m) h)
            × (listed m (subscribe h1 m s).0 ≡ (
                if includes (listed (other_mode m) h) s
                then listed m h
                else push_new (listed m h) s))
      subscribed each_message = ground arith
      subscribed each_batch = ground arith

-- ===== src/Rabbit/Client/Ready.antt =====
-- The steps of a RabbitMQ client keep that a promise ends well only with a channel.
use demo_hybrid_microservice.Common.{
  ℕ, ◌-◌, ◌≡◌, refl, ap, sym, subst, String, Bool, true, false, not, ◌||◌, List, [], ◌∷◌, ◌++◌,
  Option, none, some, ◌==◌, any_of, all_of, any_of-append, all_of-append, Bool-cases, inl, inr,
  arith,
}
use demo_hybrid_microservice.Rabbit.Client.{
  Promise, of_stream, of_channel, rejected, resolved, Stream, absent, awaiting, flowing, broken,
  making, Job, Effect, no_channel, Client, Event, close_called, tell, or_resolved, connect, on,
  create_channel, connect_listener, end_stream, stream_connects, stream_fails, disconnect_listener,
  making_ends, first_end, settled,
}

abbrev pub is_no_channel : Effect → Bool
is_no_channel no_channel = true
is_no_channel _ = false

abbrev pub is_close : Event → Bool
is_close close_called = true
is_close _ = false

abbrev pub has : Option ℕ → Bool
has none = false
has (some c) = true

-- A promise that ends well only with a channel.
abbrev pub fits : Bool → Promise → Bool
fits b (of_stream g) = true
fits b (of_channel c) = b
fits b (rejected e) = true
fits b resolved = b

abbrev pub fits_all : Bool → List (Promise × Job) → Bool
fits_all b ws = all_of (λ (p, job). fits b p) ws

abbrev pub ends_well : List (ℕ × Option String) → Bool
ends_well [] = false
ends_well ((g, none) ∷ rest) = true
ends_well ((g, some e) ∷ rest) = ends_well rest

abbrev pub has_value : Stream → Bool
has_value absent = false
has_value awaiting = false
has_value flowing = true
has_value broken = false
has_value (making c) = true

abbrev pub implies : Bool → Bool → Bool
implies a b = not a || b

pub record IsReady (s : Client) : Type 0 where
  pub quiet : any_of is_no_channel s.log ≡ false
  pub opened : s.closing ≡ 0
  pub initial : (s.is_initial_connect || has s.channel) ≡ true
  pub promised : implies s.client (fits (has s.channel) (or_resolved s.promise)) ≡ true
  pub streamed : implies (has_value s.stream) (has s.channel) ≡ true
  pub ended : implies (ends_well s.ended) (has s.channel) ≡ true
  pub waits : fits_all (has s.channel) s.waiting ≡ true

ends_well-append :
    (xs ys : List (ℕ × Option String)) → ends_well (xs ++ ys) ≡ (ends_well xs || ends_well ys)
ends_well-append [] ys = refl
ends_well-append ((g, none) ∷ xs) ys = refl
ends_well-append ((g, some e) ∷ xs) ys = ends_well-append xs ys

-- With a channel, every promise fits.
fits-true : (p : Promise) → fits true p ≡ true
fits-true (of_stream g) = refl
fits-true (of_channel c) = refl
fits-true (rejected e) = refl
fits-true resolved = refl

fits_all-true : (ws : List (Promise × Job)) → fits_all true ws ≡ true
fits_all-true [] = refl
fits_all-true ((p, job) ∷ ws) = ground (arith, fits-true p, fits_all-true ws)

pub tell-IsReady :
    (e : Effect) (s : Client) → is_no_channel e ≡ false → IsReady s → IsReady (tell e s)
tell-IsReady e s h i = record {
  quiet = ground (arith, h, i.quiet, any_of-append is_no_channel s.log (e ∷ []));
  opened = i.opened;
  initial = i.initial;
  promised = i.promised;
  streamed = i.streamed;
  ended = i.ended;
  waits = i.waits;
}

create_channel-IsReady :
    (s : Client) → any_of is_no_channel s.log ≡ false → s.closing ≡ 0 → IsReady (create_channel s)
create_channel-IsReady s q o = record {
  quiet = q;
  opened = o;
  initial = ground arith;
  promised = ground (arith, fits-true (or_resolved s.promise));
  streamed = ground arith;
  ended = ground arith;
  waits = fits_all-true s.waiting;
}

pub connect-IsReady :
    (b : Bool) (job : Job) (s : Client) → b ≡ s.client → IsReady s → IsReady (connect b job s)
connect-IsReady true job s same i = record {
  quiet = i.quiet;
  opened = i.opened;
  initial = i.initial;
  promised = i.promised;
  streamed = i.streamed;
  ended = i.ended;
  waits = ground (
    arith,
    same,
    i.promised,
    i.waits,
    all_of-append (λ (p, job). fits (has s.channel) p) s.waiting
        ((or_resolved s.promise, job) ∷ []),
  );
}
connect-IsReady false job s same i = record {
  quiet = i.quiet;
  opened = i.opened;
  initial = i.initial;
  promised = refl;
  streamed = refl;
  ended = i.ended;
  waits = ground (
    arith,
    i.waits,
    all_of-append (λ (p, job). fits (has s.channel) p) s.waiting
        ((of_stream s.generation, job) ∷ []),
  );
}

pub connect_listener-IsReady :
    (b : Bool) (c : Option ℕ) (s : Client)
    → b ≡ s.is_initial_connect
    → c ≡ s.channel
    → IsReady s
    → IsReady (connect_listener b c s)
connect_listener-IsReady false c s same channel i = record {
  quiet = i.quiet;
  opened = i.opened;
  initial = i.initial;
  promised = ground (arith, same, i.initial);
  streamed = i.streamed;
  ended = i.ended;
  waits = i.waits;
}
connect_listener-IsReady true (some c) s same channel i = record {
  quiet = i.quiet;
  opened = i.opened;
  initial = sym (ap has channel);
  promised = i.promised;
  streamed = i.streamed;
  ended = i.ended;
  waits = i.waits;
}
connect_listener-IsReady true none s same channel i =
    create_channel-IsReady
      (record s { is_initial_connect = false; promise = some (of_channel s.created) }) i.quiet
      i.opened

end_stream-IsReady :
    (outcome : Option String) (stream : Stream) (s : Client)
    → implies (has_value stream) (has s.channel) ≡ true
    → implies (ends_well ((0, outcome) ∷ [])) (has s.channel) ≡ true
    → IsReady s
    → IsReady (end_stream outcome stream s)
end_stream-IsReady outcome stream s v w i = record {
  quiet = i.quiet;
  opened = i.opened;
  initial = i.initial;
  promised = i.promised;
  streamed = v;
  ended = ended_with outcome w;
  waits = i.waits;
}
  where
    ended_with :
        (outcome : Option String)
        → implies (ends_well ((0, outcome) ∷ [])) (has s.channel) ≡ true
        → implies (ends_well (s.ended ++ (s.generation - 1, outcome) ∷ [])) (has s.channel) ≡ true
    ended_with none w =
        ground (arith, w, i.ended, ends_well-append s.ended ((s.generation - 1, none) ∷ []))
    ended_with (some e) w =
        ground (arith, w, i.ended, ends_well-append s.ended ((s.generation - 1, some e) ∷ []))

value_has :
    (stream : Stream) (s : Client)
    → stream ≡ s.stream
    → IsReady s
    → implies (has_value stream) (has s.channel) ≡ true
value_has stream s same i =
    subst (λ x. implies (has_value x) (has s.channel) ≡ true) (sym same) i.streamed

pub stream_connects-IsReady :
    (stream : Stream) (s : Client)
    → stream ≡ s.stream
    → IsReady s
    → IsReady (stream_connects stream s)
stream_connects-IsReady awaiting s same i =
    create_channel-IsReady (record s { stream = making s.created }) i.quiet i.opened
stream_connects-IsReady (making c) s same i =
    let here = value_has (making c) s same i in end_stream-IsReady none (making c) s here here i
stream_connects-IsReady absent s same i = i
stream_connects-IsReady flowing s same i = i
stream_connects-IsReady broken s same i = i

pub stream_fails-IsReady :
    (stream : Stream) (e : String) (s : Client) → IsReady s → IsReady (stream_fails stream e s)
stream_fails-IsReady awaiting e s i = end_stream-IsReady (some e) broken s refl refl i
stream_fails-IsReady absent e s i = i
stream_fails-IsReady flowing e s i = i
stream_fails-IsReady broken e s i = i
stream_fails-IsReady (making c) e s i = i

pub disconnect_listener-IsReady :
    (b : Bool) (e : String) (s : Client) → IsReady s → IsReady (disconnect_listener b e s)
disconnect_listener-IsReady true e s i = i
disconnect_listener-IsReady false e s i = record {
  quiet = i.quiet;
  opened = i.opened;
  initial = i.initial;
  promised = ground arith;
  streamed = i.streamed;
  ended = i.ended;
  waits = i.waits;
}

pub set_up-IsReady : (cs : List ℕ) (s : Client) → IsReady s → IsReady (record s { set_up = cs })
set_up-IsReady cs s i = record {
  quiet = i.quiet;
  opened = i.opened;
  initial = i.initial;
  promised = i.promised;
  streamed = i.streamed;
  ended = i.ended;
  waits = i.waits;
}

pub making_ends-IsReady :
    (c : ℕ) (stream : Stream) (s : Client)
    → stream ≡ s.stream
    → IsReady s
    → IsReady (making_ends c stream s)
making_ends-IsReady c (making d) s same i =
    let here = value_has (making d) s same i in
    elim (Bool-cases (c == d)) [
      | inl own ↦ rw own (end_stream-IsReady none flowing s here here i)
      | inr other ↦ rw other i
    ]
making_ends-IsReady c absent s same i = i
making_ends-IsReady c awaiting s same i = i
making_ends-IsReady c flowing s same i = i
making_ends-IsReady c broken s same i = i

pub on-IsReady : (b : Bool) (callback : ℕ) (s : Client) → IsReady s → IsReady (on b callback s)
on-IsReady true callback s i = record {
  quiet = i.quiet;
  opened = i.opened;
  initial = i.initial;
  promised = i.promised;
  streamed = i.streamed;
  ended = i.ended;
  waits = i.waits;
}
on-IsReady false callback s i = record {
  quiet = i.quiet;
  opened = i.opened;
  initial = i.initial;
  promised = i.promised;
  streamed = i.streamed;
  ended = i.ended;
  waits = i.waits;
}

first_end-ends_well :
    (g : ℕ) (es : List (ℕ × Option String)) → first_end g es ≡ some none → ends_well es ≡ true
first_end-ends_well g [] h = ground (arith, h)
first_end-ends_well g ((k, none) ∷ es) h = refl
first_end-ends_well g ((k, some e) ∷ es) h = ground (arith, h, first_end-ends_well g es)

-- A promise that fits and has ended well is there with a channel.
pub settled-has :
    (p : Promise) (s : Client)
    → implies (ends_well s.ended) (has s.channel) ≡ true
    → fits (has s.channel) p ≡ true
    → settled p s ≡ some none
    → has s.channel ≡ true
settled-has (of_stream g) s e f h = ground (arith, e, first_end-ends_well g s.ended h)
settled-has (of_channel c) s e f h = f
settled-has (rejected r) s e f h = ground (arith, h)
settled-has resolved s e f h = f

-- ===== src/Rabbit/Setup/Queues.antt =====
-- What a channel consumes.
use demo_hybrid_microservice.Common.{
  ◌≡◌, refl, String, Bool, true, false, List, [], ◌∷◌, ◌++◌, map, Option, none, some, if◌then◌else◌,
  ap, sym, ◌∙◌, append_assoc, eq_iff, All, str_eq, Bool-cases, inl, inr, append-nil, subst, arith,
}
use demo_hybrid_microservice.Rabbit.Options.{ConsumerOptions, Nest, ParsedOptions, parse_options}
use demo_hybrid_microservice.Rabbit.Setup.{
  ChannelCall, bind_queue, prefetch, consume, ConsumerInfo, Setup, set_info, get_queue, exchange_of,
  info_of, first_error, issue_after, issue, set_after, record_info, queue_name, queue_calls,
  exchange_calls, bind_calls, prepare, setup_channel,
}

abbrev consumed_of : ChannelCall → List String
consumed_of (consume queue no_ack) = queue ∷ []
consumed_of _ = []

-- The queues that the channel was told to consume.
abbrev pub consumed : List ChannelCall → List String
consumed [] = []
consumed (c ∷ cs) = consumed_of c ++ consumed cs

abbrev pub is_thrown : Option String → Bool
is_thrown none = false
is_thrown (some e) = true

get_queue-set_info :
    (key : String) (info : ConsumerInfo) (infos : List (String × ConsumerInfo))
    → str_eq key key ≡ true
    → get_queue key (set_info key info infos) ≡ some info.queue
get_queue-set_info key info [] same = rw same refl
get_queue-set_info key info ((k, i) ∷ rest) same = elim (Bool-cases (str_eq k key)) [
  | inl old ↦ rw (old, old) refl
  | inr other ↦ rw (other, other) (get_queue-set_info key info rest same)
]

consumed-append : (cs ds : List ChannelCall) → consumed (cs ++ ds) ≡ consumed cs ++ consumed ds
consumed-append [] ds = refl
consumed-append (c ∷ cs) ds =
    ap (λ l. consumed_of c ++ l) (consumed-append cs ds) ∙ sym (append_assoc (consumed_of c) _ _)

consumed-bind_queue : (q e : String) (rs : List String) → consumed (map (bind_queue q e) rs) ≡ []
consumed-bind_queue q e [] = refl
consumed-bind_queue q e (r ∷ rs) = consumed-bind_queue q e rs

module _ (throws : ChannelCall → Option String) (asserted : String → String) where
  issue_after-quiet :
      (o : Option String) (cs : List ChannelCall) (s : Setup)
      → consumed cs ≡ []
      → consumed (issue_after throws asserted o cs s).calls ≡ consumed s.calls
  unfolding issue_after
  issue_after-quiet (some e) cs s h = refl
  issue_after-quiet none cs s h = consumed-append s.calls cs ∙ rw h (append-nil (consumed s.calls))

  issue_after-infos :
      (o : Option String) (cs : List ChannelCall) (s : Setup)
      → (issue_after throws asserted o cs s).consumers_info ≡ s.consumers_info
  unfolding issue_after
  issue_after-infos (some e) cs s = refl
  issue_after-infos none cs s = refl

  issue_after-thrown :
      (o : Option String) (cs : List ChannelCall) (s : Setup)
      → s.thrown ≡ o
      → (issue_after throws asserted o cs s).thrown ≡ none
      → o ≡ none
  unfolding issue_after
  issue_after-thrown (some e) cs s h n = sym h ∙ n
  issue_after-thrown none cs s h n = refl

  set_after-calls :
      (o : Option String) (pattern : String) (info : ConsumerInfo) (s : Setup)
      → ((set_after throws asserted o pattern info s).calls ≡ s.calls)
        × ((set_after throws asserted o pattern info s).thrown ≡ s.thrown)
  unfolding set_after
  set_after-calls (some e) pattern info s = (refl, refl)
  set_after-calls none pattern info s = (refl, refl)

  set_after-known :
      (o : Option String) (pattern : String) (info : ConsumerInfo) (s : Setup)
      → o ≡ none
      → get_queue pattern (set_after throws asserted o pattern info s).consumers_info
        ≡ some info.queue
  unfolding set_after
  set_after-known (some e) pattern info s h = ground (arith, h)
  set_after-known none pattern info s h =
      get_queue-set_info pattern info s.consumers_info ((eq_iff pattern pattern).1 refl)

  -- Nothing is consumed yet, and the pattern's queue is known unless an error was thrown.
  record IsReady (pattern queue : String) (s : Setup) : Type 0 where
    quiet : consumed s.calls ≡ []
    known : s.thrown ≡ none → get_queue pattern s.consumers_info ≡ some queue

  issue-IsReady :
      (pattern queue : String) (cs : List ChannelCall) (s : Setup)
      → consumed cs ≡ []
      → IsReady pattern queue s
      → IsReady pattern queue (issue throws asserted cs s)
  unfolding issue
  issue-IsReady pattern queue cs s h r = record {
    quiet = issue_after-quiet s.thrown cs s h ∙ r.quiet;
    known = λ n.
        rw (issue_after-infos s.thrown cs s) (r.known (issue_after-thrown s.thrown cs s refl n));
  }

  record_info-IsReady :
      (pattern : String) (info : ConsumerInfo) (s : Setup)
      → consumed s.calls ≡ []
      → IsReady pattern info.queue (record_info throws asserted pattern info s)
  unfolding record_info
  record_info-IsReady pattern info s h =
      let kept = set_after-calls s.thrown pattern info s in
      record {
        quiet = ap consumed kept.0 ∙ h;
        known = λ n. set_after-known s.thrown pattern info s (sym kept.1 ∙ n);
      }

  issue-quiet :
      (cs : List ChannelCall) (s : Setup)
      → consumed cs ≡ []
      → consumed s.calls ≡ []
      → consumed (issue throws asserted cs s).calls ≡ []
  unfolding issue
  issue-quiet cs s h q = issue_after-quiet s.thrown cs s h ∙ q

  -- The last call, on a channel that is ready.
  consume-known :
      (o : Option String) (pattern queue : String) (no_ack : Bool) (s : Setup)
      → s.thrown ≡ o
      → IsReady pattern queue s
      → let t = issue_after throws asserted o (consume queue no_ack ∷ []) s in
        All (λ q. get_queue pattern t.consumers_info ≡ some q) (consumed t.calls)
  unfolding issue_after
  consume-known (some e) pattern queue no_ack s h r = rw r.quiet tt
  consume-known none pattern queue no_ack s h r =
      rw (consumed-append s.calls (consume queue no_ack ∷ []), r.quiet) (r.known h, tt)

  consume-consumed :
      (o : Option String) (pattern queue : String) (no_ack : Bool) (s : Setup)
      → s.thrown ≡ o
      → IsReady pattern queue s
      → (issue_after throws asserted o (consume queue no_ack ∷ []) s).thrown ≡ none
      → consumed (issue_after throws asserted o (consume queue no_ack ∷ []) s).calls ≡ queue ∷ []
  unfolding issue_after
  consume-consumed (some e) pattern queue no_ack s h r n = ground (arith, h, n)
  consume-consumed none pattern queue no_ack s h r n =
      rw (consumed-append s.calls (consume queue no_ack ∷ []), r.quiet) refl

  info_of-queue :
      (queue : String) (e : Option String) (rs : List String) → (info_of queue e rs).queue ≡ queue
  unfolding info_of
  info_of-queue queue none rs = refl
  info_of-queue queue (some e) rs = refl

  quiet_queue : (b : Bool) (q : String) → consumed (queue_calls throws asserted b q) ≡ []
  quiet_queue true q = refl
  quiet_queue false q = refl

  quiet_exchange : (e : Option String) → consumed (exchange_calls throws asserted e) ≡ []
  quiet_exchange none = refl
  quiet_exchange (some e) = refl

  quiet_bind :
      (q : String) (e : Option String) (rs : List String)
      → consumed (bind_calls throws asserted q e rs) ≡ []
  quiet_bind q none rs = refl
  quiet_bind q (some e) rs = consumed-bind_queue q e rs

  prepare-IsReady :
      (pattern queue : String) (exchange : Option String) (o : ParsedOptions) (s : Setup)
      → consumed s.calls ≡ []
      → IsReady pattern queue (prepare throws asserted pattern queue exchange o s)
  unfolding prepare
  prepare-IsReady pattern queue exchange o s h =
      let c1 = queue_calls throws asserted o.no_assert o.queue in
      let s1 = issue throws asserted c1 s in
      let c2 = exchange_calls throws asserted exchange in
      let s2 = issue throws asserted c2 s1 in
      let c3 = bind_calls throws asserted queue exchange o.routing in
      let s3 = issue throws asserted c3 s2 in
      let info = info_of queue exchange o.routing in
      let q1 = issue-quiet c1 s (quiet_queue o.no_assert o.queue) h in
      let q2 = issue-quiet c2 s1 (quiet_exchange exchange) q1 in
      let q3 = issue-quiet c3 s2 (quiet_bind queue exchange o.routing) q2 in
      issue-IsReady pattern queue (prefetch o.prefetch_count o.is_global_prefetch_count ∷ [])
        (record_info throws asserted pattern info s3) refl
        (subst (λ q. IsReady pattern q (record_info throws asserted pattern info s3))
          (info_of-queue queue exchange o.routing) (record_info-IsReady pattern info s3 q3))

  -- Whichever calls of the broker throw, a channel consumes no queue but the one that `consumersInfo`
  -- has for its pattern.
  pub setup_channel-consumes_known :
      (nest : Nest) (server : ConsumerOptions) (extras : Option ConsumerOptions) (pattern : String)
      (infos : List (String × ConsumerInfo))
      → let s = setup_channel throws asserted nest server extras pattern infos in
        All (λ q. get_queue pattern s.consumers_info ≡ some q) (consumed s.calls)
  unfolding setup_channel issue
  setup_channel-consumes_known nest server extras pattern infos =
      let o = parse_options nest server extras in
      let queue = queue_name throws asserted o.no_assert o.queue in
      let start : Setup = record { calls = []; consumers_info = infos; thrown = none } in
      let s = prepare throws asserted pattern queue (exchange_of o.options.exchange) o start in
      consume-known s.thrown pattern queue o.no_ack s refl
        (prepare-IsReady pattern queue (exchange_of o.options.exchange) o start refl)

  module _ (fine : (c : ChannelCall) → throws c ≡ none) where
    first_error-fine : (cs : List ChannelCall) → first_error throws asserted cs ≡ none
    unfolding first_error
    first_error-fine [] = refl
    first_error-fine (c ∷ cs) = rw (first_error, fine c) (first_error-fine cs)

    issue_after-fine :
        (o : Option String) (cs : List ChannelCall) (s : Setup)
        → o ≡ none
        → (issue_after throws asserted o cs s).thrown ≡ none
    unfolding issue_after
    issue_after-fine (some e) cs s h = ground (arith, h)
    issue_after-fine none cs s h = first_error-fine cs

    prepare-fine :
        (pattern queue : String) (exchange : Option String) (o : ParsedOptions) (s : Setup)
        → s.thrown ≡ none
        → (prepare throws asserted pattern queue exchange o s).thrown ≡ none
    unfolding prepare issue record_info
    prepare-fine pattern queue exchange o s h =
        let c1 = queue_calls throws asserted o.no_assert o.queue in
        let s1 = issue throws asserted c1 s in
        let c2 = exchange_calls throws asserted exchange in
        let s2 = issue throws asserted c2 s1 in
        let c3 = bind_calls throws asserted queue exchange o.routing in
        let s3 = issue throws asserted c3 s2 in
        let info = info_of queue exchange o.routing in
        let t3 =
          issue_after-fine s2.thrown c3 s2
            (issue_after-fine s1.thrown c2 s1 (issue_after-fine s.thrown c1 s h)) in
        let s4 = record_info throws asserted pattern info s3 in
        issue_after-fine s4.thrown (prefetch o.prefetch_count o.is_global_prefetch_count ∷ []) s4
          ((set_after-calls s3.thrown pattern info s3).1 ∙ t3)

    -- If no call of the broker throws, the set-up succeeds, and the channel consumes one queue: the
    -- option's with `noAssert`, else the one that the broker names.
    setup_channel-consumes_one :
        (nest : Nest) (server : ConsumerOptions) (extras : Option ConsumerOptions)
        (pattern : String) (infos : List (String × ConsumerInfo))
        → let s = setup_channel throws asserted nest server extras pattern infos in
          let o = parse_options nest server extras in
          (s.thrown ≡ none)
          × (consumed s.calls ≡ (if o.no_assert then o.queue else asserted o.queue) ∷ [])
    unfolding setup_channel issue
    setup_channel-consumes_one nest server extras pattern infos =
        let o = parse_options nest server extras in
        let queue = queue_name throws asserted o.no_assert o.queue in
        let exchange = exchange_of o.options.exchange in
        let start : Setup = record { calls = []; consumers_info = infos; thrown = none } in
        let s = prepare throws asserted pattern queue exchange o start in
        let done =
          issue_after-fine s.thrown (consume queue o.no_ack ∷ []) s
            (prepare-fine pattern queue exchange o start refl) in
        (
          done,
          consume-consumed s.thrown pattern queue o.no_ack s refl
              (prepare-IsReady pattern queue exchange o start refl) done,
        )

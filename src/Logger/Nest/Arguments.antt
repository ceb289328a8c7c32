-- ===== src/Logger/Nest/Arguments.antt =====
-- What becomes of the arguments of a call of the logger.
use demo_hybrid_microservice.Common.{
  ◌≡◌, refl, sym, ◌∙◌, ap, String, Bool, List, [], ◌∷◌, ◌++◌, Option, none, some, append-nil,
  Bool-cases, inl, inr,
}
use demo_hybrid_microservice.Logger.Nest.{
  Message, text, class_of, failure, callback, object, other, Parts, NestLogLevel, split_last,
  with_context, with_stack, take_stack, get_context_and_messages_to_print, second_argument,
  get_context_and_stack_and_messages_to_print, parts_of,
}

abbrev stack_list : Option String → List Message
stack_list none = []
stack_list (some s) = text s ∷ []

abbrev context_list : Option Message → List Message
context_list none = []
context_list (some m) = m ∷ []

-- The arguments that the parts were made of.
abbrev pub arguments : Parts → List Message
arguments p = p.messages ++ stack_list p.stack ++ context_list p.context

split_last-append :
    (a : Message) (bs : List Message) → (split_last a bs).0 ++ (split_last a bs).1 ∷ [] ≡ a ∷ bs
split_last-append a [] = refl
split_last-append a (b ∷ bs) = ap (λ r. a ∷ r) (split_last-append b bs)

all_messages : (args : List Message) → args ++ [] ++ [] ≡ args
all_messages args = append-nil (args ++ []) ∙ append-nil args

with_context-arguments :
    (args init : List Message) (last : Message)
    → init ++ last ∷ [] ≡ args
    → arguments (with_context args init last) ≡ args
with_context-arguments args init (text c) e = ap (λ r. r ++ text c ∷ []) (append-nil init) ∙ e
with_context-arguments args init (class_of c) e = all_messages args
with_context-arguments args init (failure c) e = all_messages args
with_context-arguments args init (callback c) e = all_messages args
with_context-arguments args init (object b c) e = all_messages args
with_context-arguments args init (other c) e = all_messages args

without_stack : (args : List Message) → (get_context_and_messages_to_print args).stack ≡ none
unfolding get_context_and_messages_to_print
without_stack [] = refl
without_stack (a ∷ []) = refl
without_stack (a ∷ b ∷ bs) = last_kind (a ∷ b ∷ bs) _ (split_last a (b ∷ bs)).1
  where
    last_kind : (args init : List Message) (m : Message) → (with_context args init m).stack ≡ none
    last_kind args init (text c) = refl
    last_kind args init (class_of c) = refl
    last_kind args init (failure c) = refl
    last_kind args init (callback c) = refl
    last_kind args init (object b c) = refl
    last_kind args init (other c) = refl

context-arguments :
    (args : List Message) → arguments (get_context_and_messages_to_print args) ≡ args
unfolding get_context_and_messages_to_print
context-arguments [] = refl
context-arguments (a ∷ []) = refl
context-arguments (a ∷ b ∷ bs) =
    with_context-arguments (a ∷ b ∷ bs) (split_last a (b ∷ bs)).0 (split_last a (b ∷ bs)).1
      (split_last-append a (b ∷ bs))

with_stack-arguments :
    (p : Parts) (init : List Message) (last : Message)
    → p.stack ≡ none
    → init ++ last ∷ [] ≡ p.messages
    → arguments (with_stack p init last) ≡ arguments p
with_stack-arguments p init (text s) none_yet e =
    ap (λ r. r ++ context_list p.context)
      (e ∙ sym (append-nil p.messages) ∙ ap (λ o. p.messages ++ stack_list o) (sym none_yet))
with_stack-arguments p init (class_of c) none_yet e = refl
with_stack-arguments p init (failure c) none_yet e = refl
with_stack-arguments p init (callback c) none_yet e = refl
with_stack-arguments p init (object b c) none_yet e = refl
with_stack-arguments p init (other c) none_yet e = refl

take_stack-arguments :
    (p : Parts) (ms : List Message)
    → p.stack ≡ none
    → ms ≡ p.messages
    → arguments (take_stack p ms) ≡ arguments p
take_stack-arguments p [] none_yet e = refl
take_stack-arguments p (a ∷ []) none_yet e = refl
take_stack-arguments p (a ∷ b ∷ bs) none_yet e =
    with_stack-arguments p (split_last a (b ∷ bs)).0 (split_last a (b ∷ bs)).1 none_yet
      (split_last-append a (b ∷ bs) ∙ e)

-- The first argument is a message.
abbrev StartsWith : Message → List Message → Type 0
StartsWith a ms = (rest : List Message) × (ms ≡ a ∷ rest)

with_context-StartsWith :
    (a : Message) (args init : List Message) (last : Message)
    → StartsWith a args
    → StartsWith a init
    → StartsWith a (with_context args init last).messages
with_context-StartsWith a args init (text c) h g = g
with_context-StartsWith a args init (class_of c) h g = h
with_context-StartsWith a args init (failure c) h g = h
with_context-StartsWith a args init (callback c) h g = h
with_context-StartsWith a args init (object b c) h g = h
with_context-StartsWith a args init (other c) h g = h

with_stack-StartsWith :
    (a : Message) (p : Parts) (init : List Message) (last : Message)
    → StartsWith a p.messages
    → StartsWith a init
    → StartsWith a (with_stack p init last).messages
with_stack-StartsWith a p init (text c) h g = g
with_stack-StartsWith a p init (class_of c) h g = h
with_stack-StartsWith a p init (failure c) h g = h
with_stack-StartsWith a p init (callback c) h g = h
with_stack-StartsWith a p init (object b c) h g = h
with_stack-StartsWith a p init (other c) h g = h

take_stack-StartsWith :
    (a : Message) (p : Parts) (ms : List Message)
    → StartsWith a ms
    → StartsWith a p.messages
    → StartsWith a (take_stack p ms).messages
take_stack-StartsWith a p [] h g = g
take_stack-StartsWith a p (b ∷ []) h g = g
take_stack-StartsWith a p (b ∷ c ∷ cs) (rest, e) g =
    with_stack-StartsWith a p (split_last b (c ∷ cs)).0 (split_last b (c ∷ cs)).1 g
      ((split_last c cs).0, ap (λ x. x ∷ (split_last c cs).0) (ap head e))
  where
    head : List Message → Message
    head [] = a
    head (x ∷ xs) = x

context-StartsWith :
    (a : Message) (args : List Message)
    → StartsWith a (get_context_and_messages_to_print (a ∷ args)).messages
unfolding get_context_and_messages_to_print
context-StartsWith a [] = ([], refl)
context-StartsWith a (b ∷ bs) =
    with_context-StartsWith a (a ∷ b ∷ bs) _ (split_last a (b ∷ bs)).1 (b ∷ bs, refl)
      ((split_last b bs).0, refl)

-- A split of the arguments that loses none and keeps the first as a message.
abbrev pub Splits : Message → List Message → Parts → Type 0
Splits a args p = (arguments p ≡ a ∷ args) × StartsWith a p.messages

module _ (is_stack : String → Bool) (lines : String → List String) where
  second_argument-Splits : (a b : Message) → Splits a (b ∷ []) (second_argument is_stack a b)
  second_argument-Splits a (text s) = elim (Bool-cases (is_stack s)) [
    | inl stack ↦ rw stack (refl, ([], refl))
    | inr context ↦ rw context (refl, ([], refl))
  ]
  second_argument-Splits a (class_of c) = (refl, ([], refl))
  second_argument-Splits a (failure c) = (refl, ([], refl))
  second_argument-Splits a (callback c) = (refl, ([], refl))
  second_argument-Splits a (object b c) = (refl, ([], refl))
  second_argument-Splits a (other c) = (refl, ([], refl))

  context-Splits :
      (a : Message) (args : List Message)
      → Splits a args (get_context_and_messages_to_print (a ∷ args))
  context-Splits a args = (context-arguments (a ∷ args), context-StartsWith a args)

  stack-Splits :
      (a : Message) (args : List Message)
      → Splits a args (get_context_and_stack_and_messages_to_print is_stack (a ∷ args))
  unfolding get_context_and_stack_and_messages_to_print
  stack-Splits a (b ∷ []) = second_argument-Splits a b
  stack-Splits a [] = context-Splits a []
  stack-Splits a (b ∷ c ∷ cs) =
      let p = get_context_and_messages_to_print (a ∷ b ∷ c ∷ cs) in
      let (same, starts) = context-Splits a (b ∷ c ∷ cs) in
      (
        take_stack-arguments p p.messages (without_stack (a ∷ b ∷ c ∷ cs)) refl ∙ same,
        take_stack-StartsWith a p p.messages starts starts,
      )

  -- Whatever is logged at whichever level, each argument becomes a message, the stack or the context, in
  -- this order, so that none is lost or taken twice, and the first is always a message.
  pub parts_of-Splits :
      (level : NestLogLevel) (a : Message) (args : List Message)
      → Splits a args (parts_of is_stack lines level (a ∷ args))
  parts_of-Splits NestLogLevel.error a args = stack-Splits a args
  parts_of-Splits NestLogLevel.verbose a args = context-Splits a args
  parts_of-Splits NestLogLevel.debug a args = context-Splits a args
  parts_of-Splits NestLogLevel.log a args = context-Splits a args
  parts_of-Splits NestLogLevel.warn a args = context-Splits a args
  parts_of-Splits NestLogLevel.fatal a args = context-Splits a args

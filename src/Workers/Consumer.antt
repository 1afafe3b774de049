-- ===== src/Workers/Consumer.antt =====
-- `TickConsumer.run` of src/quant_execution/kafka/consumer.py. A handler acts on a state and may
-- raise; the broker's answers are the list of what each poll gives until the stop event, and whether
-- the synchronous commit of a message goes through or raises, which ends the loop.
use quant_execution.Base.{
  Text, ◌≡◌, refl, ap, Bool, true, false, Option, List, [], ◌∷◌, ◌++◌, ◌⊎◌, if◌then◌else◌, codes,
  inl, inr, Bool-cases, All,
}
use quant_execution.Domain.Records.{MessageMeta}

-- The settings of the `Consumer` that `create_consumer` builds.
pub record ConsumerSettings : Type 0 where
  pub bootstrap_servers : Text
  pub group_id : Text
  pub enable_auto_commit : Bool
  pub auto_offset_reset : Text

-- `create_consumer`, with the default of its last argument.
unfoldable pub create_consumer : Text → Text → ConsumerSettings
create_consumer servers group = record {
  bootstrap_servers = servers;
  group_id = group;
  enable_auto_commit = false;
  auto_offset_reset = codes "latest";
}

-- `start`: the topics that it subscribes to.
unfoldable pub subscribed : Text → List Text
subscribed topic = topic ∷ []

pub record Message : Type 0 where
  pub value : Option Text
  pub meta : MessageMeta

pub data Poll : Type 0 where
  nothing poll_error : Poll
  polled : Message → Poll

-- What the loop does, in order: a call of the handler, a call of `commit`, and `close`.
pub data Act : Type 0 where
  handling committing : Message → Act
  closing : Act

-- A run's result: the state, what was done, and whether the run ended at the stop event.
pub record Consumed (S : Type 0) : Type 0 where
  pub state : S
  pub acts : List Act
  pub stopped : Bool

abbrev pub messages_of : List Poll → List Message
messages_of [] = []
messages_of (nothing ∷ polls) = messages_of polls
messages_of (poll_error ∷ polls) = messages_of polls
messages_of (polled m ∷ polls) = m ∷ messages_of polls

abbrev pub committed_in : List Act → List Message
committed_in [] = []
committed_in (handling m ∷ acts) = committed_in acts
committed_in (committing m ∷ acts) = m ∷ committed_in acts
committed_in (closing ∷ acts) = committed_in acts

-- Each message handled, and then committed.
abbrev pub rounds : List Message → List Act
rounds [] = []
rounds (m ∷ ms) = handling m ∷ committing m ∷ rounds ms

pub committed_in-rounds : (ms : List Message) → committed_in (rounds ms ++ closing ∷ []) ≡ ms
committed_in-rounds [] = refl
committed_in-rounds (m ∷ ms) = ap (λ t. m ∷ t) (committed_in-rounds ms)

module _ {S : Type 0} where
  abbrev ended_at : S → List Act → Bool → Consumed S
  ended_at s acts stopped = record { state = s; acts = acts; stopped = stopped }

  abbrev then_acts : List Act → Consumed S → Consumed S
  then_acts first c = record c { acts = first ++ c.acts }

  -- The handler gives whether it raised, and the state; either way the message is committed. A
  -- commit that raises ends the loop; `close` is called in the end.
  unfoldable pub run : (Message → S → Bool × S) → (Message → Bool) → List Poll → S → Consumed S
  run handler commits [] s = ended_at s (closing ∷ []) true
  run handler commits (nothing ∷ polls) s = run handler commits polls s
  run handler commits (poll_error ∷ polls) s = run handler commits polls s
  run handler commits (polled m ∷ polls) s =
      let s' = (handler m s).1 in
      let rest = run handler commits polls s' in
      then_acts (handling m ∷ committing m ∷ [])
        (if commits m then rest else ended_at s' (closing ∷ []) false)

  abbrev pub handle_all : (Message → S → Bool × S) → List Message → S → S
  handle_all handler [] s = s
  handle_all handler (m ∷ ms) s = handle_all handler ms (handler m s).1

  -- The run came to the stop event, with every message polled handled and then committed.
  abbrev pub RunsOut :
      (Message → S → Bool × S) → (Message → Bool) → List Poll → S → Consumed S → Type 0
  RunsOut handler commits polls s c =
      All (λ m. commits m ≡ true) (messages_of polls)
      × (c.acts ≡ rounds (messages_of polls) ++ closing ∷ [])
      × (c.state ≡ handle_all handler (messages_of polls) s)
      × (c.stopped ≡ true)

  -- A commit raised: that of the first message whose commit does, which has been handled.
  abbrev pub BreaksOff :
      (Message → S → Bool × S) → (Message → Bool) → List Poll → S → Consumed S → Type 0
  BreaksOff handler commits polls s c =
      (done : List Message) × (m : Message) × (left : List Message) × (messages_of polls
        ≡ done ++ m ∷ left)
      × All (λ d. commits d ≡ true) done
      × (commits m ≡ false)
      × (c.acts ≡ rounds done ++ handling m ∷ committing m ∷ closing ∷ [])
      × (c.state ≡ handle_all handler (done ++ m ∷ []) s)
      × (c.stopped ≡ false)

  -- At least once: every message polled is handled, in order, and committed only after that, whether
  -- the handler raised or not, up to the stop event or to the first commit that raises; polls that
  -- bring nothing or an error change nothing; and the consumer is closed in the end.
  pub run_at_least_once :
      (handler : Message → S → Bool × S) (commits : Message → Bool) (polls : List Poll) (s : S)
      → RunsOut handler commits polls s (run handler commits polls s)
        ⊎ BreaksOff handler commits polls s (run handler commits polls s)
  unfolding run
  run_at_least_once handler commits [] s = inl (tt, refl, refl, refl)
  run_at_least_once handler commits (nothing ∷ polls) s = run_at_least_once handler commits polls s
  run_at_least_once handler commits (poll_error ∷ polls) s =
      run_at_least_once handler commits polls s
  run_at_least_once handler commits (polled m ∷ polls) s = elim (Bool-cases (commits m)) [
    | inl goes ↦ elim (run_at_least_once handler commits polls (handler m s).1) [
      | inl (all, acts, state, stops) ↦
          rw goes (inl ((refl, all), ap (λ t. handling m ∷ committing m ∷ t) acts, state, stops))
      | inr (done, n, left, split, all, fails, acts, state, stops) ↦ rw goes (
          inr (
            m ∷ done,
            n,
            left,
            ap (λ t. m ∷ t) split,
            (goes, all),
            fails,
            ap (λ t. handling m ∷ committing m ∷ t) acts,
            state,
            stops,
          ))
    ]
    | inr raises ↦ rw raises (inr ([], m, messages_of polls, refl, tt, raises, refl, refl, refl))
  ]

  -- Where every commit goes through, a run to the stop event handles and commits every message
  -- polled, poison messages included.
  pub run_to_the_end :
      (handler : Message → S → Bool × S) (commits : Message → Bool) (polls : List Poll) (s : S)
      → All (λ m. commits m ≡ true) (messages_of polls)
      → RunsOut handler commits polls s (run handler commits polls s)
  unfolding run
  run_to_the_end handler commits [] s h = (tt, refl, refl, refl)
  run_to_the_end handler commits (nothing ∷ polls) s h = run_to_the_end handler commits polls s h
  run_to_the_end handler commits (poll_error ∷ polls) s h = run_to_the_end handler commits polls s h
  run_to_the_end handler commits (polled m ∷ polls) s h =
      let (all, acts, state, stops) = run_to_the_end handler commits polls (handler m s).1 h.1 in
      rw h.0 ((refl, all), ap (λ t. handling m ∷ committing m ∷ t) acts, state, stops)

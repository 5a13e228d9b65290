-- ===== src/Network/Batcher.antt =====
-- src/infrastructure/network/libp2p/batcher.go: messages wait in a batch for each topic, and a batch
-- goes to the publisher whole. A message is its bytes. `json.Marshal` of a batch fails on a message
-- that is no JSON; which bytes are JSON is a parameter. The timers' channel is a list of topics.
pub mod Order
pub mod Runs
mod Examples
use agent_collab.Common.{
  ℕ, zero, suc, ◌+◌, ◌*◌, String, Bool, true, false, ◌||◌, if◌then◌else◌, ltb, leb, ◌==◌, Option,
  none, some, List, [], ◌∷◌, ◌++◌, length,
}
use agent_collab.Common.Dict.{Dict, lookup, insert, keys}

abbrev pub Bytes : Type 0
Bytes = List ℕ

pub record BatchConfig : Type 0 where
  pub max_size : ℕ
  pub max_delay : ℕ
  pub max_batch_size : ℕ

abbrev pub default_batch_config : BatchConfig
default_batch_config = record { max_size = 100; max_delay = 50_000_000; max_batch_size = 64 * 1024 }

pub record TopicBatch : Type 0 where
  pub messages : List Bytes
  pub size : ℕ
  -- A timer was started and not cancelled.
  pub timer : Bool
  pub last_flush : ℕ

pub record BatchedMessage : Type 0 where
  pub kind : String
  pub count : ℕ
  pub messages : List Bytes

-- `published` keeps the batches in the order in which they were taken for the publisher. The mutex is
-- released while the publisher runs, so that two of its calls may still overtake each other.
pub record MessageBatcher : Type 0 where
  pub config : BatchConfig
  pub publisher : String → BatchedMessage → Option String
  pub batches : Dict TopicBatch
  pub flush_ch : List String
  pub published : List (String × BatchedMessage)

-- A field that is zero gets its default.
unfoldable pub new_message_batcher :
    BatchConfig → (String → BatchedMessage → Option String) → MessageBatcher
new_message_batcher c publisher = record {
  config = record {
    max_size = if c.max_size == 0 then default_batch_config.max_size else c.max_size;
    max_delay = if c.max_delay == 0 then default_batch_config.max_delay else c.max_delay;
    max_batch_size =
        if c.max_batch_size == 0 then default_batch_config.max_batch_size else c.max_batch_size;
  };
  publisher = publisher;
  batches = [];
  flush_ch = [];
  published = [];
}

abbrev pub empty_batch : ℕ → TopicBatch
empty_batch now = record { messages = []; size = 0; timer = false; last_flush = now }

-- The text of the error that `json.Marshal` gives for such a message.
abbrev pub not_json : String
not_json = "json: error calling MarshalJSON for type json.RawMessage"

abbrev pub all_of : (Bytes → Bool) → List Bytes → Bool
all_of test [] = true
all_of test (m ∷ ms) = if test m then all_of test ms else false

-- The batch of a topic with a message more. Its first message starts the timer.
unfoldable pub with_message : MessageBatcher → String → Bytes → ℕ → TopicBatch
with_message mb topic message now =
    let batch : TopicBatch = elim (lookup topic mb.batches) [
      | none ↦ empty_batch now
      | some b ↦ b
    ] in
    let messages = batch.messages ++ message ∷ [] in
    record batch {
      messages = messages;
      size = batch.size + length message;
      timer = if length messages == 1 then true else batch.timer;
    }

-- The function of a timer: a request is dropped when the channel is full.
unfoldable pub fire : MessageBatcher → String → MessageBatcher
fire mb topic =
    if ltb (length mb.flush_ch) 100 then record mb { flush_ch = mb.flush_ch ++ topic ∷ [] } else mb

module _ (is_json : Bytes → Bool) where
  -- A timer that is cancelled stays cancelled when the batch cannot be encoded.
  unfoldable pub flush_batch :
      MessageBatcher → String → TopicBatch → ℕ → List Bytes → MessageBatcher × Option String
  flush_batch mb topic batch now [] = (mb, none)
  flush_batch mb topic batch now (m ∷ ms) =
      if all_of is_json (m ∷ ms)
      then (let batched : BatchedMessage = record {
        kind = "batch";
        count = length (m ∷ ms);
        messages = m ∷ ms;
      } in
          (
            record mb {
              batches =
                  insert topic
                    (record batch { messages = []; size = 0; timer = false; last_flush = now })
                    mb.batches;
              published = mb.published ++ (topic, batched) ∷ [];
            },
            mb.publisher topic batched,
          ))
      else (
        record mb { batches = insert topic (record batch { timer = false }) mb.batches },
        some not_json,
      )

  unfoldable pub flush_locked : MessageBatcher → String → ℕ → MessageBatcher × Option String
  unfolding flush_batch
  flush_locked mb topic now = elim (lookup topic mb.batches) [
    | none ↦ (mb, none)
    | some batch ↦ flush_batch mb topic batch now batch.messages
  ]

  unfoldable pub add : MessageBatcher → String → Bytes → ℕ → MessageBatcher × Option String
  unfolding flush_locked with_message
  add mb topic message now =
      let batch = with_message mb topic message now in
      let grown = record mb { batches = insert topic batch mb.batches } in
      if leb mb.config.max_size (length batch.messages) || leb mb.config.max_batch_size batch.size
      then flush_locked grown topic now
      else (grown, none)

  -- A round of `processFlushRequests`.
  unfoldable pub process_flush_request : MessageBatcher → ℕ → MessageBatcher
  unfolding flush_locked
  process_flush_request mb now = elim (mb.flush_ch) [
    | [] ↦ mb
    | topic ∷ topics ↦ (flush_locked (record mb { flush_ch = topics }) topic now).0
  ]

  unfoldable pub flush_each : List String → MessageBatcher → ℕ → MessageBatcher
  unfolding flush_locked
  flush_each [] mb now = mb
  flush_each (topic ∷ topics) mb now = flush_each topics (flush_locked mb topic now).0 now

  -- `Stop`, after the goroutine has ended, does the same.
  unfoldable pub flush_all : MessageBatcher → ℕ → MessageBatcher
  unfolding flush_each
  flush_all mb now = flush_each (keys mb.batches) mb now

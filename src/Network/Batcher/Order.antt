-- ===== src/Network/Batcher/Order.antt =====
-- What src/infrastructure/network/libp2p/batcher.go hands to the publisher, and in which order.
use agent_collab.Common.{
  ℕ, String, ◌≡◌, refl, sym, ap, ◌∙◌, inl, inr, Bool, false, none, some, List, [], ◌∷◌, ◌++◌,
  length, leb, ◌||◌, str_eq, arith, Option-cases, Bool-cases, text_cases, if◌then◌else◌,
}
use mathlib.Core.List.{append_assoc, append-nil}
use agent_collab.Common.Dict.{Dict, lookup, insert, lookup-insert}
use agent_collab.Network.Batcher.{
  Bytes, TopicBatch, BatchedMessage, MessageBatcher, all_of, flush_batch, flush_locked,
  with_message, add,
}

-- The messages of a topic that were handed to the publisher, and those that wait.
unfoldable pub delivered : String → List (String × BatchedMessage) → List Bytes
delivered topic [] = []
delivered topic ((t, b) ∷ sent) =
    if str_eq t topic then b.messages ++ delivered topic sent else delivered topic sent

unfoldable pub waiting : String → Dict TopicBatch → List Bytes
waiting topic batches = elim (lookup topic batches) [ none ↦ [] | some b ↦ b.messages ]

-- All messages of a topic, in the order in which they leave.
abbrev pub history : String → MessageBatcher → List Bytes
history topic mb = delivered topic mb.published ++ waiting topic mb.batches

pub delivered-append :
    (topic t : String) (b : BatchedMessage) (sent : List (String × BatchedMessage))
    → delivered topic (sent ++ (t, b) ∷ [])
      ≡ delivered topic sent ++ (if str_eq t topic then b.messages else [])
unfolding delivered
delivered-append topic t b [] = elim (Bool-cases (str_eq t topic)) [
  | inl e ↦ rw e (append-nil b.messages)
  | inr e ↦ rw e refl
]
delivered-append topic t b ((u, c) ∷ sent) = elim (Bool-cases (str_eq u topic)) [
  | inl e ↦ rw e (
      ap (λ (x : List Bytes). c.messages ++ x) (delivered-append topic t b sent)
      ∙ sym (
          append_assoc c.messages (delivered topic sent)
            (if str_eq t topic then b.messages else [])))
  | inr e ↦ rw e (delivered-append topic t b sent)
]

pub waiting-insert :
    (topic t : String) (b : TopicBatch) (batches : Dict TopicBatch)
    → waiting t (insert topic b batches)
      ≡ (if str_eq topic t then b.messages else waiting t batches)
unfolding waiting
waiting-insert topic t b batches = ground (arith, lookup-insert topic t b batches)

-- A batch that is put back with its messages changes nothing that waits.
pub put_back :
    (topic t : String) (b : TopicBatch) (batches : Dict TopicBatch)
    → waiting topic batches ≡ b.messages
    → waiting t (insert topic b batches) ≡ waiting t batches
put_back topic t b batches e = elim (text_cases topic t) [
  | inl (p, y) ↦ rw (waiting-insert topic t b batches, y) (sym e ∙ ap (λ k. waiting k batches) p)
  | inr (p, n) ↦ rw (waiting-insert topic t b batches, n) refl
]

-- A batch whose messages were handed over, and which is empty now, moves them.
handed_over :
    (topic t : String) (sent : List (String × BatchedMessage)) (batched : BatchedMessage)
    (b : TopicBatch) (batches : Dict TopicBatch)
    → waiting topic batches ≡ batched.messages
    → b.messages ≡ []
    → delivered t (sent ++ (topic, batched) ∷ []) ++ waiting t (insert topic b batches)
      ≡ delivered t sent ++ waiting t batches
handed_over topic t sent batched b batches e empty = elim (text_cases topic t) [
  | inl (p, y) ↦
      rw (delivered-append t topic batched sent, waiting-insert topic t b batches, y, empty)
        (append-nil (delivered t sent ++ batched.messages)
          ∙ ap (λ (x : List Bytes). delivered t sent ++ x) (sym e ∙ ap (λ k. waiting k batches) p))
  | inr (p, n) ↦
      rw (delivered-append t topic batched sent, waiting-insert topic t b batches, n)
        (rw (append-nil (delivered t sent)) refl)
]

pub with_message-messages :
    (mb : MessageBatcher) (topic : String) (message : Bytes) (now : ℕ)
    → (with_message mb topic message now).messages ≡ waiting topic mb.batches ++ message ∷ []
unfolding with_message waiting
with_message-messages mb topic message now = elim (Option-cases (lookup topic mb.batches)) [
  | inl n ↦ rw (n, waiting) refl
  | inr (b, n) ↦ rw (n, waiting) refl
]

grown-history :
    (mb : MessageBatcher) (topic t : String) (message : Bytes) (now : ℕ)
    → history t
        (record mb { batches = insert topic (with_message mb topic message now) mb.batches })
      ≡ history t mb ++ (if str_eq topic t then message ∷ [] else [])
grown-history mb topic t message now = elim (text_cases topic t) [
  | inl (p, y) ↦
      rw
        (
          waiting-insert topic t (with_message mb topic message now) mb.batches,
          y,
          with_message-messages mb topic message now,
        )
        (rw p (sym (append_assoc (delivered t mb.published) (waiting t mb.batches) (message ∷ []))))
  | inr (p, n) ↦
      rw (waiting-insert topic t (with_message mb topic message now) mb.batches, n)
        (sym (append-nil (delivered t mb.published ++ waiting t mb.batches)))
]

module _ (is_json : Bytes → Bool) where
  flush_batch-history :
      (mb : MessageBatcher) (topic t : String) (batch : TopicBatch) (now : ℕ) (ms : List Bytes)
      → waiting topic mb.batches ≡ ms
      → batch.messages ≡ ms
      → history t (flush_batch is_json mb topic batch now ms).0 ≡ history t mb
  unfolding flush_batch
  flush_batch-history mb topic t batch now [] e same = refl
  flush_batch-history mb topic t batch now (m ∷ ms) e same =
      elim (Bool-cases (all_of is_json (m ∷ ms))) [
        | inl y ↦
            rw (y, flush_batch)
              (handed_over topic t mb.published
                (record { kind = "batch"; count = length (m ∷ ms); messages = m ∷ ms })
                (record batch { messages = []; size = 0; timer = false; last_flush = now })
                mb.batches e refl)
        | inr n ↦
            rw (n, flush_batch)
              (ap (λ (x : List Bytes). delivered t mb.published ++ x)
                (put_back topic t (record batch { timer = false }) mb.batches (e ∙ sym same)))
      ]

  -- A flush moves messages from the batch to the publisher, and leaves each topic's history.
  pub flush_locked-history :
      (mb : MessageBatcher) (topic t : String) (now : ℕ)
      → history t (flush_locked is_json mb topic now).0 ≡ history t mb
  unfolding flush_locked waiting
  flush_locked-history mb topic t now = elim (Option-cases (lookup topic mb.batches)) [
    | inl n ↦ rw (n, flush_locked) refl
    | inr (b, n) ↦
        rw (n, flush_locked)
          (flush_batch-history mb topic t b now b.messages (rw (n, waiting) refl) refl)
  ]

  pub add-history :
      (mb : MessageBatcher) (topic t : String) (message : Bytes) (now : ℕ)
      → history t (add is_json mb topic message now).0
        ≡ history t mb ++ (if str_eq topic t then message ∷ [] else [])
  unfolding add
  add-history mb topic t message now =
      let batch = with_message mb topic message now in
      let grown = record mb { batches = insert topic batch mb.batches } in
      elim (Bool-cases (
        leb mb.config.max_size (length batch.messages)
        || leb mb.config.max_batch_size batch.size)) [
          | inl y ↦
              rw (y, add)
                (flush_locked-history grown topic t now ∙ grown-history mb topic t message now)
          | inr n ↦ rw (n, add) (grown-history mb topic t message now)
        ]

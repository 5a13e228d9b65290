-- ===== src/Network/Batcher/Runs.antt =====
-- The calls of src/infrastructure/network/libp2p/batcher.go in any order, and what they publish.
use agent_collab.Common.{
  ℕ, String, ◌≡◌, refl, sym, ap, ◌∙◌, subst, inl, inr, Bool, false, List, [], ◌∷◌, ◌++◌, length,
  ltb, leb, ◌||◌, str_eq, arith, Option-cases, Bool-cases, text_cases, if◌then◌else◌,
}
use mathlib.Core.List.{append_assoc, append-nil}
use agent_collab.Common.Dict.{lookup, insert, keys}
use agent_collab.Network.Batcher.{
  Bytes, TopicBatch, MessageBatcher, all_of, flush_batch, flush_locked, with_message, add, fire,
  process_flush_request, flush_each, flush_all,
}
use agent_collab.Network.Batcher.Order.{
  delivered, waiting, history, flush_locked-history, add-history, waiting-insert, delivered-append,
  with_message-messages, put_back,
}

-- What a client and the timers do, with the instants.
pub data Action : Type 0 where
  adds : String → Bytes → Action
  flushes : String → Action
  fires : String → Action
  processes : Action
  flushes_all : Action

-- The messages that some actions add for a topic.
unfoldable pub added : String → List (ℕ × Action) → List Bytes
added t [] = []
added t ((now, adds topic m) ∷ acts) = (if str_eq topic t then m ∷ [] else []) ++ added t acts
added t ((now, other) ∷ acts) = added t acts

module _ (is_json : Bytes → Bool) where
  abbrev pub perform : MessageBatcher → ℕ → Action → MessageBatcher
  perform mb now (adds topic m) = (add is_json mb topic m now).0
  perform mb now (flushes topic) = (flush_locked is_json mb topic now).0
  perform mb now (fires topic) = fire mb topic
  perform mb now processes = process_flush_request is_json mb now
  perform mb now flushes_all = flush_all is_json mb now

  unfoldable pub run : MessageBatcher → List (ℕ × Action) → MessageBatcher
  run mb [] = mb
  run mb ((now, a) ∷ acts) = run (perform mb now a) acts

  fire-history : (mb : MessageBatcher) (topic t : String) → history t (fire mb topic) ≡ history t mb
  unfolding fire
  fire-history mb topic t = elim (Bool-cases (ltb (length mb.flush_ch) 100)) [
    | inl y ↦ rw (y, fire) refl
    | inr n ↦ rw (n, fire) refl
  ]

  flush_each-history :
      (topics : List String) (mb : MessageBatcher) (t : String) (now : ℕ)
      → history t (flush_each is_json topics mb now) ≡ history t mb
  unfolding flush_each
  flush_each-history [] mb t now = refl
  flush_each-history (topic ∷ topics) mb t now =
      flush_each-history topics (flush_locked is_json mb topic now).0 t now
      ∙ flush_locked-history is_json mb topic t now

  process-history :
      (mb : MessageBatcher) (t : String) (now : ℕ)
      → history t (process_flush_request is_json mb now) ≡ history t mb
  unfolding process_flush_request
  process-history mb t now = go mb.flush_ch refl
    where
      go :
          (ch : List String)
          → mb.flush_ch ≡ ch
          → history t (process_flush_request is_json mb now) ≡ history t mb
      go [] e = rw (e, process_flush_request) refl
      go (topic ∷ topics) e =
          rw (e, process_flush_request)
            (flush_locked-history is_json (record mb { flush_ch = topics }) topic t now)

  -- No message is lost, doubled or reordered: whatever is added and flushed in whatever order, the
  -- messages of a topic that were taken for the publisher, followed by those that wait, are those
  -- from before, followed by the ones that were added since, in order.
  pub run-history :
      (mb : MessageBatcher) (acts : List (ℕ × Action)) (t : String)
      → history t (run mb acts) ≡ history t mb ++ added t acts
  unfolding run added flush_all
  run-history mb [] t = sym (append-nil (history t mb))
  run-history mb ((now, adds topic m) ∷ acts) t =
      run-history (add is_json mb topic m now).0 acts t
      ∙ ap (λ (x : List Bytes). x ++ added t acts) (add-history is_json mb topic t m now)
      ∙ append_assoc (history t mb) (if str_eq topic t then m ∷ [] else []) (added t acts)
  run-history mb ((now, flushes topic) ∷ acts) t =
      run-history (flush_locked is_json mb topic now).0 acts t
      ∙ ap (λ (x : List Bytes). x ++ added t acts) (flush_locked-history is_json mb topic t now)
  run-history mb ((now, fires topic) ∷ acts) t =
      run-history (fire mb topic) acts t
      ∙ ap (λ (x : List Bytes). x ++ added t acts) (fire-history mb topic t)
  run-history mb ((now, processes) ∷ acts) t =
      run-history (process_flush_request is_json mb now) acts t
      ∙ ap (λ (x : List Bytes). x ++ added t acts) (process-history mb t now)
  run-history mb ((now, flushes_all) ∷ acts) t =
      run-history (flush_all is_json mb now) acts t
      ∙ ap (λ (x : List Bytes). x ++ added t acts) (flush_each-history (keys mb.batches) mb t now)

module _ (is_json : Bytes → Bool) where
  -- A message that is no JSON waits in the topic's batch.
  abbrev IsPoisoned : String → MessageBatcher → Type 0
  IsPoisoned t mb = all_of is_json (waiting t mb.batches) ≡ false

  all_of-append :
      (xs : List Bytes) (m : Bytes)
      → all_of is_json xs ≡ false
      → all_of is_json (xs ++ m ∷ []) ≡ false
  all_of-append [] m e = absurd (ground arith)
  all_of-append (x ∷ xs) m e = ground (arith, all_of-append xs m)

  -- What a step leaves: the poison, and what was published for the topic.
  abbrev Stays : String → MessageBatcher → MessageBatcher → Type 0
  Stays t mb mb' = IsPoisoned t mb' × (delivered t mb'.published ≡ delivered t mb.published)

  flush_batch-Stays :
      (mb : MessageBatcher) (topic t : String) (b : TopicBatch) (now : ℕ) (ms : List Bytes)
      → waiting topic mb.batches ≡ ms
      → b.messages ≡ ms
      → IsPoisoned t mb
      → Stays t mb (flush_batch is_json mb topic b now ms).0
  unfolding flush_batch
  flush_batch-Stays mb topic t b now [] e same p = (p, refl)
  flush_batch-Stays mb topic t b now (m ∷ ms) e same p =
      elim (Bool-cases (all_of is_json (m ∷ ms))) [
        | inr n ↦
            rw (n, flush_batch)
              (rw (put_back topic t (record b { timer = false }) mb.batches (e ∙ sym same)) p, refl)
        | inl y ↦ elim (text_cases topic t) [
          | inl (q, u) ↦ absurd (
              ground (
                arith,
                y,
                subst (λ k. all_of is_json k ≡ false) (ap (λ k. waiting k mb.batches) (sym q) ∙ e)
                    p,
              ))
          | inr (q, u) ↦
              rw (y, flush_batch)
                (
                  rw
                      (
                        waiting-insert topic t
                            (record b { messages = []; size = 0; timer = false; last_flush = now })
                            mb.batches,
                        u,
                      )
                      p,
                  rw
                      (
                        delivered-append t topic
                            (record { kind = "batch"; count = length (m ∷ ms); messages = m ∷ ms })
                            mb.published,
                        u,
                      )
                      (append-nil (delivered t mb.published)),
                )
        ]
      ]

  flush_locked-Stays :
      (mb : MessageBatcher) (topic t : String) (now : ℕ)
      → IsPoisoned t mb
      → Stays t mb (flush_locked is_json mb topic now).0
  unfolding flush_locked
  flush_locked-Stays mb topic t now p = elim (Option-cases (lookup topic mb.batches)) [
    | inl n ↦ rw (n, flush_locked) (p, refl)
    | inr (b, n) ↦
        rw (n, flush_locked)
          (flush_batch-Stays mb topic t b now b.messages (unfold waiting in rw (n, waiting) refl)
            refl p)
  ]

  add-Stays :
      (mb : MessageBatcher) (topic t : String) (m : Bytes) (now : ℕ)
      → IsPoisoned t mb
      → Stays t mb (add is_json mb topic m now).0
  unfolding add
  add-Stays mb topic t m now p =
      let batch = with_message mb topic m now in
      let grown = record mb { batches = insert topic batch mb.batches } in
      let poisoned : IsPoisoned t grown = elim (text_cases topic t) [
        | inl (q, u) ↦
            rw (waiting-insert topic t batch mb.batches, u, with_message-messages mb topic m now)
              (all_of-append (waiting topic mb.batches) m
                (subst (λ k. all_of is_json (waiting k mb.batches) ≡ false) (sym q) p))
        | inr (q, u) ↦ rw (waiting-insert topic t batch mb.batches, u) p
      ] in
      elim (Bool-cases (
        leb mb.config.max_size (length batch.messages)
        || leb mb.config.max_batch_size batch.size)) [
          | inl y ↦ rw (y, add) (flush_locked-Stays grown topic t now poisoned)
          | inr n ↦ rw (n, add) (poisoned, refl)
        ]

  flush_each-Stays :
      (topics : List String) (mb : MessageBatcher) (t : String) (now : ℕ)
      → IsPoisoned t mb
      → Stays t mb (flush_each is_json topics mb now)
  unfolding flush_each
  flush_each-Stays [] mb t now p = (p, refl)
  flush_each-Stays (topic ∷ topics) mb t now p =
      let (q, e) = flush_locked-Stays mb topic t now p in
      let (q', e') = flush_each-Stays topics (flush_locked is_json mb topic now).0 t now q in
      (q', e' ∙ e)

  perform-Stays :
      (mb : MessageBatcher) (t : String) (now : ℕ) (a : Action)
      → IsPoisoned t mb
      → Stays t mb (perform is_json mb now a)
  unfolding fire process_flush_request flush_all
  perform-Stays mb t now (adds topic m) p = add-Stays mb topic t m now p
  perform-Stays mb t now (flushes topic) p = flush_locked-Stays mb topic t now p
  perform-Stays mb t now (fires topic) p = elim (Bool-cases (ltb (length mb.flush_ch) 100)) [
    | inl y ↦ rw (y, fire) (p, refl)
    | inr n ↦ rw (n, fire) (p, refl)
  ]
  perform-Stays mb t now processes p = go mb.flush_ch refl
    where
      go : (ch : List String) → mb.flush_ch ≡ ch → Stays t mb (process_flush_request is_json mb now)
      go [] e = rw (e, process_flush_request) (p, refl)
      go (topic ∷ topics) e =
          rw (e, process_flush_request)
            (flush_locked-Stays (record mb { flush_ch = topics }) topic t now p)
  perform-Stays mb t now flushes_all p = flush_each-Stays (keys mb.batches) mb t now p

  -- A message that is no JSON blocks its topic for good: while it waits, whatever is added and flushed
  -- in whatever order, no batch of the topic is taken for the publisher any more.
  pub run_poisoned :
      (mb : MessageBatcher) (acts : List (ℕ × Action)) (t : String)
      → all_of is_json (waiting t mb.batches) ≡ false
      → (delivered t (run is_json mb acts).published ≡ delivered t mb.published)
        × (all_of is_json (waiting t (run is_json mb acts).batches) ≡ false)
  unfolding run
  run_poisoned mb [] t p = (refl, p)
  run_poisoned mb ((now, a) ∷ acts) t p =
      let (q, e) = perform-Stays mb t now a p in
      let (e', q') = run_poisoned (perform is_json mb now a) acts t q in (e' ∙ e, q')

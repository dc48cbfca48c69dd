-- ===== src/Publisher/Counts.antt =====
-- The counts that `PublishBatch` returns.
use pub_sub_go.Base.{
  ℕ, suc, ◌+◌, ◌≡◌, refl, subst, inl, inr, String, List, [], ◌∷◌, length, length-append, length-map,
  arith, Bool-cases,
}
use pub_sub_go.Base.Int.{ℤ, pos, ◌+ℤ◌, ◌≤ℤ◌, leb_ℤ, ltb_ℤ}
use pub_sub_go.Base.Words.{int64, max_int64}
use pub_sub_go.Core.Message.{Message}
use pub_sub_go.Core.Topic.{Topic}
use pub_sub_go.Result.{Result, Error, ok, err, then_lem, ◌>>◌, noting, Action, pure, ◌>>=◌}
use pub_sub_go.Publisher.Types.{
  Env, Stores, MessageBatch, BatchPublishRequest, BatchPublishResponse,
}
use pub_sub_go.Publisher.Service.{response_to, create_message, compress_message}
use pub_sub_go.Publisher.Topics.{ensure_topic_exists}
use pub_sub_go.Publisher.Batch.{
  Batch, empty_batch, reject, accept, validate_batch_message, request_of, add_to_batch, add_all,
  batch_response, store_batch, publish_batch,
}

-- The counts of the variables after the rounds of `n` messages.
abbrev pub IsCounted : ℕ → Batch → Type 0
IsCounted n b =
    (b.published ≡ pos (length b.messages))
    × (b.failed ≡ pos (length b.errors))
    × (length b.responses ≡ length b.messages)
    × (length b.messages + length b.errors ≡ n)

-- The response of a batch of `n` messages accounts for each of them.
abbrev pub IsComplete : ℕ → Result BatchPublishResponse → Type 0
IsComplete n (err e) = Unit {0}
IsComplete n (ok r) =
    (r.published ≡ pos (length r.responses))
    × (length r.message_ids ≡ length r.responses)
    × (r.failed ≡ pos (length r.errors))
    × (length r.responses + length r.errors ≡ n)

reject-IsCounted :
    (i : ℕ) (e : Error) (n : ℕ) (b : Batch)
    → pos (suc n) ≤ℤ max_int64
    → IsCounted n b
    → IsCounted (suc n) (reject i e b)
unfolding reject int64 ◌+ℤ◌
reject-IsCounted i e n b small h = ground (arith, h, length-append b.errors ((i, e) ∷ []))

accept-IsCounted :
    (m : Message) (msg : MessageBatch) (n : ℕ) (b : Batch)
    → pos (suc n) ≤ℤ max_int64
    → IsCounted n b
    → IsCounted (suc n) (accept m msg b)
unfolding accept int64 ◌+ℤ◌
accept-IsCounted m msg n b small h =
    ground
      (arith, h, length-append b.messages (m ∷ []), length-append b.responses (response_to m ∷ []))

abbrev AllCounted : ℕ → Result Batch → Type 0
AllCounted n (ok b) = IsCounted n b
AllCounted n (err e) = Unit {0}

module _ {V : Type 0} (env : Env V) where
  open env use {message_repo, topic_repo}

  round-AllCounted :
      (topic : String) (t : Topic V) (now : ℤ) (i n : ℕ) (msg : MessageBatch) (b : Batch)
      (s : Stores message_repo.State topic_repo.State)
      → pos (suc n) ≤ℤ max_int64
      → IsCounted n b
      → AllCounted (suc n) (add_to_batch env topic t now i msg b s).0
  unfolding add_to_batch
  round-AllCounted topic t now i n msg b s small h = cases (validate_batch_message msg)
    where
      cases :
          (r : Result (Unit {0}))
          → AllCounted
              (suc n)
              ((elim r as (λ _. Action (Stores message_repo.State topic_repo.State) Batch) [
                | err e ↦ pure (reject i e b)
                | ok _ ↦ create_message env (request_of topic msg) t now >>= λ created.
                    pure (accept (compress_message env created msg.payload) msg b)
              ])
                s).0
      cases (err e) = reject-IsCounted i e n b small h
      cases (ok u) =
          then_lem (AllCounted (suc n)) (create_message env (request_of topic msg) t now)
            (λ created. pure (accept (compress_message env created msg.payload) msg b)) s (λ e. tt)
            (λ m e. accept-IsCounted (compress_message env m msg.payload) msg n b small h)

  all-AllCounted :
      (topic : String) (t : Topic V) (now : ℤ) (i n : ℕ) (msgs : List MessageBatch) (b : Batch)
      (s : Stores message_repo.State topic_repo.State)
      → pos (n + length msgs) ≤ℤ max_int64
      → IsCounted n b
      → AllCounted (n + length msgs) (add_all env topic t now i msgs b s).0
  unfolding add_all
  all-AllCounted topic t now i n [] b s small h = subst (λ k. IsCounted k b) (omega arith) h
  all-AllCounted topic t now i n (msg ∷ msgs) b s small h =
      then_lem (AllCounted (n + suc (length msgs))) (add_to_batch env topic t now i msg b)
        (λ next. add_all env topic t now (i + 1) msgs next) s (λ e. tt)
        (λ next e.
          subst
            (λ k.
              AllCounted k
                (add_all env topic t now (i + 1) msgs next
                  (add_to_batch env topic t now i msg b s).1).0)
            (omega arith)
            (all-AllCounted topic t now (i + 1) (suc n) msgs next
              (add_to_batch env topic t now i msg b s).1 (omega arith)
              (subst (AllCounted (suc n)) e
                (round-AllCounted topic t now i n msg b s (omega arith) h))))

  loop-AllCounted :
      (topic : String) (t : Topic V) (now : ℤ) (msgs : List MessageBatch)
      (s : Stores message_repo.State topic_repo.State)
      → pos (length msgs) ≤ℤ max_int64
      → AllCounted (length msgs) (add_all env topic t now 0 msgs empty_batch s).0
  loop-AllCounted topic t now msgs s small =
      subst (λ k. AllCounted k (add_all env topic t now 0 msgs empty_batch s).0) (omega arith)
        (all-AllCounted topic t now 0 0 msgs empty_batch s (omega (arith, small))
          (refl, refl, refl, refl))

  -- The response to a batch accounts for each of its messages: it has as many responses and
  -- identifiers as messages were published, an error for each that failed, and the two numbers add
  -- up to the size of the batch. The batch is at most as long as an `int` counts.
  pub publish_batch-IsComplete :
      (req : BatchPublishRequest) (now : ℤ) (s : Stores message_repo.State topic_repo.State)
      → pos (length req.messages) ≤ℤ max_int64
      → IsComplete (length req.messages) (publish_batch env req now s).0
  unfolding publish_batch batch_response
  publish_batch-IsComplete req now s small =
      elim (Bool-cases (leb_ℤ (pos (length req.messages)) (pos 0))) [
        | inl e ↦ rw e tt
        | inr e ↦
            elim (Bool-cases
              (ltb_ℤ env.config.max_message_batch_size (pos (length req.messages)))) [
                | inl e' ↦ rw (e, e') tt
                | inr e' ↦
                    rw (e, e')
                      (then_lem Q found answered s (λ e. tt)
                        (λ t e. answered-IsComplete t (found s).1))
              ]
      ]
    where
      Q : Result BatchPublishResponse → Type 0
      Q = IsComplete (length req.messages)

      found : Action (Stores message_repo.State topic_repo.State) (Topic V)
      found = noting "failed to ensure topic exists" (ensure_topic_exists env req.topic now)

      answered : Topic V → Action (Stores message_repo.State topic_repo.State) BatchPublishResponse
      answered t = add_all env req.topic t now 0 req.messages empty_batch >>= λ b.
          store_batch env t now b >> pure (batch_response b)

      respond : (b : Batch) → IsCounted (length req.messages) b → Q (ok (batch_response b))
      respond b h = ground (arith, h, length-map (λ r. r.message_id) b.responses)

      answered-IsComplete :
          (t : Topic V) (s : Stores message_repo.State topic_repo.State) → Q (answered t s).0
      answered-IsComplete t s =
          then_lem Q (add_all env req.topic t now 0 req.messages empty_batch)
            (λ b. store_batch env t now b >> pure (batch_response b)) s (λ e. tt)
            (λ b e.
              then_lem Q (store_batch env t now b) (λ _. pure (batch_response b))
                (add_all env req.topic t now 0 req.messages empty_batch s).1 (λ e. tt)
                (λ _ _. respond b (
                  subst (AllCounted (length req.messages)) e
                    (loop-AllCounted req.topic t now req.messages s small))))

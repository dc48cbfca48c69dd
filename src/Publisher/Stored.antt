-- ===== src/Publisher/Stored.antt =====
-- What `Publish` of internal/services/publisher/publisher.go leaves in the storage when it succeeds.
use pub_sub_go.Base.{
  ℕ, ◌≡◌, refl, sym, ap, subst, ◌∙◌, inl, inr, String, List, length, arith, Option-cases,
}
use pub_sub_go.Base.Int.{ℤ, pos}
use pub_sub_go.Core.Message.{Message}
use pub_sub_go.Core.Topic.{Topic, increment_messages, add_bytes_in}
use pub_sub_go.Result.{Result, ok, err, Action, pure, ◌>>=◌, ◌>>◌, noting, annotate, ignoring}
use pub_sub_go.Publisher.Types.{
  Env, Stores, PublishRequest, PublishResponse, with_messages, with_topics,
}
use pub_sub_go.Publisher.Service.{
  validate_publish_request, create_message, partition_of, message_at, compress_message, response_to,
  publish,
}
use pub_sub_go.Publisher.Topics.{ensure_topic_exists}
use pub_sub_go.Publisher.Outcome.{IsInverse, read_payload, compress_message-read}

-- A chain that gives a result: its first part gives one, and the rest goes on from there.
bind_inv :
    {S A B : Type 0} (r : Result A) (t : S) (f : A → Action S B) (s : S) (b : B)
    → (((λ _. (r, t)) >>= f) s).0 ≡ ok b
    → (a : A) × (r ≡ ok a) × (((λ _. (r, t)) >>= f) s ≡ f a t)
bind_inv (ok a) t f s b h = (a, refl, refl)
bind_inv (err e) t f s b h = cc

ok_inj : {A : Type 0} (a b : A) → ok a ≡ ok b → a ≡ b
ok_inj a b e = cc

annotate_inv :
    {A : Type 0} (note : String) (r : Result A) (a : A) → annotate note r ≡ ok a → r ≡ ok a
annotate_inv note (ok a) b h = h
annotate_inv note (err e) b h = cc

module _ {V : Type 0} (env : Env V) where
  open env use {message_repo, topic_repo}

  abbrev State : Type 0
  State = Stores message_repo.State topic_repo.State

  -- The last that was done to the messages was to store one with the ID and the topic of the response,
  -- of which a consumer reads the payload.
  abbrev pub IsStored : PublishRequest → PublishResponse → message_repo.State → Type 0
  IsStored req r after =
      (m : Message) × (earlier : message_repo.State) × ((message_repo.store m earlier).0 ≡ ok tt)
      × (after ≡ (message_repo.store m earlier).1)
      × (m.id ≡ r.message_id)
      × (m.topic ≡ req.topic)
      × (read_payload env m ≡ ok req.payload)

  abbrev store_it : PublishRequest → Topic V → ℤ → Message → Action State PublishResponse
  store_it req t now m =
      noting "failed to store message" (with_messages (message_repo.store m))
      >> (ignoring (
            with_topics (
              topic_repo.update
                (add_bytes_in (increment_messages t (pos 1) now) (pos (length req.payload)))))
          >> pure (response_to m))

  store_it_lem :
      (req : PublishRequest) (t : Topic V) (now : ℤ) (m : Message) (s : State) (r : PublishResponse)
      → (store_it req t now m s).0 ≡ ok r
      → ((message_repo.store m s.messages).0 ≡ ok tt)
        × ((store_it req t now m s).1.messages ≡ (message_repo.store m s.messages).1)
        × (m.id ≡ r.message_id)
  unfolding response_to
  store_it_lem req t now m s r h =
      let stored = message_repo.store m s.messages in
      let rest : Unit {0} → Action State PublishResponse = λ u.
        (ignoring (
            with_topics (
              topic_repo.update
                (add_bytes_in (increment_messages t (pos 1) now) (pos (length req.payload)))))
          >> pure (response_to m)) in
      let (u, done, on) =
        bind_inv (annotate "failed to store message" stored.0) (record s { messages = stored.1 })
          rest s r h in
      let same : response_to m ≡ r = ok_inj (response_to m) r (sym (ap (λ q. q.0) on) ∙ h) in
      (
        annotate_inv "failed to store message" stored.0 u done,
        ap (λ q. q.1.messages) on,
        ap (λ q. q.message_id) same,
      )

  topic-compress_message :
      (m : Message) (payload : List ℕ) → (compress_message env m payload).topic ≡ m.topic
  unfolding compress_message
  topic-compress_message m payload = ground arith

  created_lem :
      (req : PublishRequest) (t : Topic V) (now : ℤ) (s : State) (m : Message)
      → (create_message env req t now s).0 ≡ ok m
      → (id : String) × (p : ℤ) × (m ≡ message_at env req id p now)
  unfolding create_message
  created_lem req t now s m h = elim (Option-cases (partition_of env req (env.uuid s.drawn) t)) [
    | inl e ↦ ground (arith, e, h)
    | inr (p, e) ↦ (env.uuid s.drawn, p, ground (arith, e, h))
  ]

  readable :
      IsInverse env.codecs
      → (req : PublishRequest) (id : String) (p now : ℤ)
      → ((compress_message env (message_at env req id p now) req.payload).topic ≡ req.topic)
        × (read_payload env (compress_message env (message_at env req id p now) req.payload)
            ≡ ok req.payload)
  unfolding message_at
  readable inverse req id p now = (
    topic-compress_message (message_at env req id p now) req.payload,
    compress_message-read env (message_at env req id p now) inverse refl,
  )

  abbrev publish_to : PublishRequest → ℤ → Topic V → Action State PublishResponse
  publish_to req now t = create_message env req t now >>= λ created.
      store_it req t now (compress_message env created req.payload)

  publish_to_lem :
      IsInverse env.codecs
      → (req : PublishRequest) (now : ℤ) (t : Topic V) (s : State) (r : PublishResponse)
      → (publish_to req now t s).0 ≡ ok r
      → IsStored req r (publish_to req now t s).1.messages
  publish_to_lem inverse req now t s r h =
      let c = create_message env req t now s in
      let next =
        λ (created : Message). store_it req t now (compress_message env created req.payload) in
      let (created, made, on) = bind_inv c.0 c.1 next s r h in
      let (id, p, shape) = created_lem req t now s created made in
      let m = compress_message env created req.payload in
      let (stored, left, named) = store_it_lem req t now m c.1 r (sym (ap (λ q. q.0) on) ∙ h) in
      (
        m,
        c.1.messages,
        stored,
        (ap (λ q. q.1.messages) on ∙ left),
        named,
        subst (λ m0. (compress_message env m0 req.payload).topic ≡ req.topic) (sym shape)
            (readable inverse req id p now).0,
        subst (λ m0. read_payload env (compress_message env m0 req.payload) ≡ ok req.payload)
            (sym shape) (readable inverse req id p now).1,
      )

  -- A publish that succeeds has stored a message with the ID of the response and the topic of the
  -- request, after which nothing was done to the messages; decompressed with the type that it names,
  -- it has the payload of the request, when the libraries of the formats undo what they do.
  pub publish-IsStored :
      IsInverse env.codecs
      → (req : PublishRequest) (now : ℤ) (s : State) (r : PublishResponse)
      → (publish env req now s).0 ≡ ok r
      → IsStored req r (publish env req now s).1.messages
  unfolding publish
  publish-IsStored inverse req now s r h =
      let v = validate_publish_request env req in
      let found = noting "failed to ensure topic exists" (ensure_topic_exists env req.topic now) in
      let (u, valid, on) =
        bind_inv (annotate "invalid publish request" v) s
          (λ (u : Unit {0}). found >>= publish_to req now) s r h in
      let (t, there, on') =
        bind_inv (found s).0 (found s).1 (publish_to req now) s r (sym (ap (λ q. q.0) on) ∙ h) in
      subst (IsStored req r) (sym (ap (λ q. q.1.messages) (on ∙ on')))
        (publish_to_lem inverse req now t (found s).1 r (sym (ap (λ q. q.0) (on ∙ on')) ∙ h))

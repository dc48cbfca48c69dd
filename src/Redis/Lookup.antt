-- ===== src/Redis/Lookup.antt =====
-- What the repository of topics promises over a client that keeps texts under keys.
use Prim.Native.String.{◌++◌}
use pub_sub_go.Base.{◌≡◌, refl, ◌∙◌, ◌⊎◌, inl, inr, String, Option, some, eq_refl}
use pub_sub_go.Base.Int.{pos}
use pub_sub_go.Core.Topic.{Topic}
use pub_sub_go.Result.{Error, Result, ok, err, ◌>>=◌, ◌>>◌, annotate, noting}
use pub_sub_go.Redis.Client.{Client, Json}
use pub_sub_go.Redis.Contract.{HasTexts, IsReadable}
use pub_sub_go.Redis.Topics.{create, get, parsed, topic_key}

module _ {V : Type 0} (client : Client) (json : Json (Topic V)) where
  open client use {State}

  abbrev pub IsTopicBack : Topic V → State → Type 0
  IsTopicBack t s =
      ((e : Error) × ((client.get ("topic:" ++ t.name) s).0 ≡ err e))
      ⊎ ((get client json t.name s).0 ≡ ok t)

  read_back :
      (t : Topic V) (text : String) (s : State) (r : Result (Option String)) (s' : State)
      → json.unmarshal text ≡ ok t
      → ((o : Option String) → r ≡ ok o → o ≡ some text)
      → ((e : Error) × (r ≡ err e))
        ⊎ ((((λ _. (annotate "failed to get topic" r, s')) >>= parsed client json t.name) s).0
            ≡ ok t)
  unfolding parsed
  read_back t text s (err x) s' e h = inl (x, refl)
  read_back t text s (ok o) s' e h = inr (rw (h o refl) (rw e refl))

  -- The steps of `create`, one result after the other.
  stored :
      (texts : HasTexts client) (t : Topic V) (codec : IsReadable json t) (s : State)
      (text : String) (r : Result (Unit {0}))
      → json.marshal t ≡ ok text
      → (client.set (topic_key client json t.name) text (pos 0) s).0 ≡ r
      → let s1 = (client.set (topic_key client json t.name) text (pos 0) s).1 in
        let run =
          (λ _. (annotate "failed to store topic" r, s1))
          >> noting "failed to add topic to set" (client.s_add "topics" t.name) in
        (run s).0 ≡ ok tt → IsTopicBack t (run s).1
  unfolding get
  stored texts t codec s text (err x) e set_ok h = cc
  stored texts t codec s text (ok tt) e set_ok h =
      let key = "topic:" ++ t.name in
      let s1 = (client.set key text (pos 0) s).1 in
      let s2 = (client.s_add "topics" t.name s1).1 in
      read_back t text s2 (client.get key s2).0 (client.get key s2).1 (codec text e) λ o found.
        texts.get_text key s2 o found
        ∙ texts.s_add_text "topics" t.name s1 key
        ∙ texts.set_text key text (pos 0) s key set_ok
        ∙ rw (eq_refl key) refl

  created :
      (texts : HasTexts client) (t : Topic V) (codec : IsReadable json t) (s : State)
      (r : Result String)
      → json.marshal t ≡ r
      → let run = (λ s'. (annotate "failed to marshal topic" r, s')) >>= λ text.
          noting "failed to store topic" (client.set (topic_key client json t.name) text (pos 0))
          >> noting "failed to add topic to set" (client.s_add "topics" t.name) in
        (run s).0 ≡ ok tt → IsTopicBack t (run s).1
  created texts t codec s (err x) e h = cc
  created texts t codec s (ok text) e h =
      stored texts t codec s text (client.set (topic_key client json t.name) text (pos 0) s).0 e
        refl h

  -- When the JSON of the topic is read back as the topic, which Go's library does not do for every
  -- configuration (an integer comes back as another type), and the client keeps texts as it
  -- documents: a topic that was created is read back under its name as it was, or the client fails
  -- to answer the read.
  pub create-get :
      (texts : HasTexts client) (t : Topic V) (codec : IsReadable json t) (s : State)
      → (create client json t s).0 ≡ ok tt
      → IsTopicBack t (create client json t s).1
  unfolding create
  create-get texts t codec s h = created texts t codec s (json.marshal t) refl h

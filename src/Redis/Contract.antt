-- ===== src/Redis/Contract.antt =====
-- What the repositories promise over a client that keeps texts under keys.
use Prim.Native.String.{◌++◌}
use pub_sub_go.Base.{
  ◌≡◌, refl, ◌∙◌, ◌⊎◌, inl, inr, String, Bool, true, not, ◌&&◌, Option, some, List, [], ◌∷◌, ◌==◌,
  eq_refl, if◌then◌else◌, arith,
}
use pub_sub_go.Base.Int.{ℤ, leb_ℤ}
use pub_sub_go.Core.Message.{Message, Acknowledgment, should_retry}
use pub_sub_go.Result.{Error, Result, ok, err, ◌>>=◌, annotate}
use pub_sub_go.Redis.Client.{Client, Json, Command, set, z_add, r_push, expire, h_incr_by}
use pub_sub_go.Redis.Entries.{expiration, failed_of}
use pub_sub_go.Redis.Messages.{store, get, parsed, store_commands, get_failed_messages}

-- The text under a key after commands that were all executed; only `SET` changes it. A text with a
-- time to live is there until later.
abbrev pub text_after : List Command → String → Option String → Option String
text_after [] key text = text
text_after (set k t ttl ∷ cs) key text = text_after cs key (if k == key then some t else text)
text_after (z_add k score member ∷ cs) key text = text_after cs key text
text_after (r_push k v ∷ cs) key text = text_after cs key text
text_after (expire k ttl ∷ cs) key text = text_after cs key text
text_after (h_incr_by k f n ∷ cs) key text = text_after cs key text

-- The texts that a client keeps, as the library documents its commands.
pub record HasTexts (client : Client) : Type 0 where
  pub text : client.State → String → Option String
  pub get_text :
      (key : String) (s : client.State) (o : Option String)
      → (client.get key s).0 ≡ ok o
      → o ≡ text s key
  pub set_text :
      (key value : String) (ttl : ℤ) (s : client.State) (other : String)
      → (client.set key value ttl s).0 ≡ ok tt
      → text (client.set key value ttl s).1 other
        ≡ (if key == other then some value else text s other)
  pub s_add_text :
      (key member : String) (s : client.State) (other : String)
      → text (client.s_add key member s).1 other ≡ text s other
  pub exec_text :
      (commands : List Command) (s : client.State) (key : String)
      → (client.exec commands s).0 ≡ ok tt
      → text (client.exec commands s).1 key ≡ text_after commands key (text s key)

-- What is written of a value is read back.
abbrev pub IsReadable : {A : Type 0} → Json A → A → Type 0
IsReadable json a = (text : String) → json.marshal a ≡ ok text → json.unmarshal text ≡ ok a

module _ (client : Client) (json : Json Message) (acks : Json Acknowledgment)
    (format_int : ℤ → String) where
  open client use {State}

  store_commands_text :
      (m : Message) (text : String) (now : ℤ) (old : Option String)
      → text_after (store_commands client json acks format_int m text now) ("msg:" ++ m.id) old
        ≡ some text
  unfolding store_commands expiration
  store_commands_text m text now old = ground (arith, eq_refl ("msg:" ++ m.id))

  -- What a read of a text that was found comes to.
  parsed_found :
      (id text : String) (m : Message) (r : Result (Option String)) (s : State)
      → json.unmarshal text ≡ ok m
      → ((o : Option String) → r ≡ ok o → o ≡ some text)
      → ((e : Error) × (r ≡ err e))
        ⊎ (((λ _. (r, s)) >>= parsed client json acks format_int id) s).0 ≡ ok m
  unfolding parsed
  parsed_found id text m (err x) s e h = inl (x, refl)
  parsed_found id text m (ok o) s e h = inr (rw (h o refl) (rw e refl))

  -- The command that answers whether a message is there, or why that is not known.
  abbrev pub IsMessageBack : Message → State → Type 0
  IsMessageBack m s =
      ((e : Error) × ((client.get ("msg:" ++ m.id) s).0 ≡ err e))
      ⊎ ((get client json acks format_int m.id s).0 ≡ ok m)

  executed :
      (texts : HasTexts client) (m : Message) (codec : IsReadable json m) (now : ℤ) (s : State)
      (r : Result String)
      → json.marshal m ≡ r
      → let run = (λ s'. (annotate "failed to marshal message" r, s')) >>= λ text.
          client.exec (store_commands client json acks format_int m text now) in
        (run s).0 ≡ ok tt → IsMessageBack m (run s).1
  unfolding get
  executed texts m codec now s (err x) e h = cc
  executed texts m codec now s (ok text) e h =
      let cs = store_commands client json acks format_int m text now in
      let s' = (client.exec cs s).1 in
      let key = "msg:" ++ m.id in
      parsed_found m.id text m (client.get key s').0 (client.get key s').1 (codec text e) λ o found.
        texts.get_text key s' o found
        ∙ texts.exec_text cs s key h
        ∙ store_commands_text m text now (texts.text s key)

  -- A message that was stored is read back under its ID as it was, or the client fails to answer the
  -- read.
  pub store-get :
      (texts : HasTexts client) (m : Message) (codec : IsReadable json m) (now : ℤ) (s : State)
      → (store client json acks format_int m now s).0 ≡ ok tt
      → IsMessageBack m (store client json acks format_int m now s).1
  unfolding store
  store-get texts m codec now s h = executed texts m codec now s (json.marshal m) refl h

-- The message may not be tried again, unless its own limit is above that of the query.
abbrev pub is_exhausted : ℤ → Message → Bool
is_exhausted max_retries m = if leb_ℤ m.max_retries max_retries then not (should_retry m) else true

abbrev pub all_exhausted : ℤ → List Message → Bool
all_exhausted n [] = true
all_exhausted n (m ∷ ms) = let rest = all_exhausted n ms in is_exhausted n m && rest

failed_of-all_exhausted : (n : ℤ) (ms : List Message) → all_exhausted n (failed_of n ms) ≡ true
unfolding failed_of should_retry
failed_of-all_exhausted n [] = refl
failed_of-all_exhausted n (m ∷ ms) = ground (arith, failed_of-all_exhausted n ms)

-- Of the messages that are asked for to be tried again, none may be: each has used up its tries,
-- unless its own limit is above that of the query.
pub get_failed_messages-all_exhausted :
    (client : Client) (json : Json Message) (acks : Json Acknowledgment) (format_int : ℤ → String)
    (topic : String) (n : ℤ) (s : client.State) (ms : List Message)
    → (get_failed_messages client json acks format_int topic n s).0 ≡ ok ms
    → all_exhausted n ms ≡ true
unfolding get_failed_messages
get_failed_messages-all_exhausted client json acks format_int topic n s ms h =
    grind (arith, failed_of-all_exhausted)

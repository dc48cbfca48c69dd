-- ===== src/Ack/RoundTrip.antt =====
-- A message through the dead letter queue: enriched by `EnrichDLQMessage`, taken out again by
-- `ReprocessDLQMessage`.
use text.Mathlib.Text.{starts_with}
use text.Mathlib.TextPositions.{starts_with-append}
use pub_sub_go.Base.{
  ◌≡◌, refl, ◌∙◌, String, Bool, true, false, not, ◌&&◌, Option, none, some, [], ◌∷◌, Dict, insert,
  lookup, lookup-insert, if◌then◌else◌, ◌==◌, arith, eq_iff, ap, Bool-cases, inl, inr,
}
use pub_sub_go.Base.Int.{ℤ, pos}
use pub_sub_go.Config.{BrokerConfig}
use pub_sub_go.Core.Message.{Message}
use pub_sub_go.Ports.{Formats}
use pub_sub_go.Ack.DeadLetter.{
  DefaultDlqStrategy, should_move_to_dlq, get_dlq_topic, copy_headers, insert_unless_empty,
  insert_time, dlq_headers, enrich_dlq_message,
}
use pub_sub_go.Ack.Reprocess.{keep_headers, insert_reason, reprocessed_message}

-- A message that the strategy made for the dead letter queue is not moved there once more.
enriched-stays :
    (f : Formats) (d : DefaultDlqStrategy) (m : Message) (reason : String) (now : ℤ) (id : String)
    → should_move_to_dlq d (enrich_dlq_message f d m reason now id) ≡ false
unfolding should_move_to_dlq enrich_dlq_message get_dlq_topic
enriched-stays f d m reason now id = ground (arith, starts_with-append d.dlq_prefix m.topic)

lookup-copy : (k : String) (h : Dict String) → lookup k (copy_headers h []) ≡ lookup k h
unfolding lookup copy_headers
lookup-copy k [] = refl
lookup-copy k ((j, v) ∷ h) =
    lookup-insert j k v (copy_headers h [])
    ∙ ap (λ r. if j == k then some v else r) (lookup-copy k h)

-- The test of the headers that a reprocessed message keeps.
abbrev is_kept : String → Bool
is_kept k = not (starts_with k "dlq_") && not (starts_with k "original_")

differs : (j k : String) → is_kept j ≡ false → is_kept k ≡ true → (j == k) ≡ false
differs j k ej ek = elim (Bool-cases (j == k)) [
  | inl e ↦
      let same : j ≡ k = (eq_iff j k).0 e in
      let both : is_kept j ≡ is_kept k = ap is_kept same in ground (arith, both)
  | inr e ↦ e
]

lookup-keep :
    (k : String) (h : Dict String) → is_kept k ≡ true → lookup k (keep_headers h []) ≡ lookup k h
unfolding lookup keep_headers
lookup-keep k [] e = refl
lookup-keep k ((j, v) ∷ h) e = elim (Bool-cases (is_kept j)) [
  | inl kept ↦ rw (kept, lookup-insert, lookup-keep k h e)
  | inr dropped ↦ rw (dropped, differs j k dropped e, lookup-keep k h e)
]

-- Writing another header.
module _ (k j : String) (other : (j == k) ≡ false) where
  insert-other : (v : String) (h : Dict String) → lookup k (insert j v h) ≡ lookup k h
  insert-other v h = rw (lookup-insert, other)

  unless-other :
      (f : Formats) (v : String) (h : Dict String)
      → lookup k (insert_unless_empty f j v h) ≡ lookup k h
  unfolding insert_unless_empty
  unless-other f v h = elim (Bool-cases (v == "")) [
    | inl q ↦ rw q
    | inr q ↦ rw q (insert-other v h)
  ]

  time-other :
      (f : Formats) (t : Option ℤ) (h : Dict String) → lookup k (insert_time f j t h) ≡ lookup k h
  unfolding insert_time
  time-other f none h = refl
  time-other f (some t) h = insert-other (f.format_time t) h

module _ (f : Formats) (d : DefaultDlqStrategy) (m : Message) (reason : String) (now : ℤ) where
  dlq_headers-topic : lookup "original_topic" (dlq_headers f d m reason now) ≡ some m.topic
  unfolding dlq_headers
  dlq_headers-topic =
      time-other "original_topic" "original_delivered_at" refl f m.delivered_at _
      ∙ unless-other "original_topic" "original_consumer_group" refl f m.consumer_group _
      ∙ unless-other "original_topic" "original_consumer_id" refl f m.consumer_id _
      ∙ rw (lookup-insert, lookup-insert, lookup-insert, lookup-insert)

  dlq_headers-own :
      (k : String)
      → is_kept k ≡ true
      → d.preserve_headers ≡ true
      → lookup k (dlq_headers f d m reason now) ≡ lookup k m.headers
  unfolding dlq_headers
  dlq_headers-own k own on =
      time-other k "original_delivered_at" (differs _ k refl own) f m.delivered_at _
      ∙ unless-other k "original_consumer_group" (differs _ k refl own) f m.consumer_group _
      ∙ unless-other k "original_consumer_id" (differs _ k refl own) f m.consumer_id _
      ∙ rw (
        insert-other k "original_created_at" (differs _ k refl own),
        insert-other k "original_retry_count" (differs _ k refl own),
        insert-other k "original_message_id" (differs _ k refl own),
        insert-other k "original_topic" (differs _ k refl own),
        insert-other k "dlq_timestamp" (differs _ k refl own),
        insert-other k "dlq_reason" (differs _ k refl own),
        on,
        lookup-copy,
      )

reason-other :
    (k : String) (r : Option String) (h : Dict String)
    → is_kept k ≡ true
    → lookup k (insert_reason r h) ≡ lookup k h
unfolding insert_reason
reason-other k none h own = refl
reason-other k (some r) h own = insert-other k "original_dlq_reason" (differs _ k refl own) r h

-- What reprocessing makes of a message `d`, at a header of the producer's own.
reprocessed-own :
    (f : Formats) (config : BrokerConfig) (d : Message) (topic dlq_id id : String) (now : ℤ)
    (k : String)
    → is_kept k ≡ true
    → ("reprocessed_from_dlq" == k) ≡ false
    → ("reprocessed_at" == k) ≡ false
    → lookup k (reprocessed_message f config d topic dlq_id id now).headers ≡ lookup k d.headers
unfolding reprocessed_message
reprocessed-own f config d topic dlq_id id now k own a b =
    reason-other k (lookup "dlq_reason" d.headers) _ own
    ∙ rw (
      insert-other k "original_dlq_message_id" (differs _ k refl own),
      insert-other k _ b,
      insert-other k _ a,
      lookup-keep k d.headers own,
    )

-- With a strategy that preserves headers, a message enriched for the dead letter queue names its
-- topic in its headers, which is what `ReprocessDLQMessage` looks up; the message made from it for
-- that topic has the topic, partition, key and payload of the first one, no try behind it, and each
-- header of the first one, but for names that begin with "dlq_" or "original_" and the two marks of
-- reprocessing. It is not marked as compressed, whatever the first one was.
pub dlq_round_trip :
    (f : Formats) (d : DefaultDlqStrategy) (config : BrokerConfig) (m : Message)
    (reason id new_id k : String) (now later : ℤ)
    → d.preserve_headers ≡ true
    → starts_with k "dlq_" ≡ false
    → starts_with k "original_" ≡ false
    → ("reprocessed_from_dlq" == k) ≡ false
    → ("reprocessed_at" == k) ≡ false
    → let e = enrich_dlq_message f d m reason now id in
      let p = reprocessed_message f config e m.topic id new_id later in
      (lookup "original_topic" e.headers ≡ some m.topic)
      × (p.topic ≡ m.topic)
      × (p.partition ≡ m.partition)
      × (p.key ≡ m.key)
      × (p.payload ≡ m.payload)
      × (p.retry_count ≡ pos 0)
      × (lookup k p.headers ≡ lookup k m.headers)
      × (p.compressed ≡ false)
unfolding reprocessed_message enrich_dlq_message
dlq_round_trip f d config m reason id new_id k now later on a b c e =
    let own : is_kept k ≡ true = ground (arith, a, b) in
    let d' = enrich_dlq_message f d m reason now id in
    (
      dlq_headers-topic f d m reason now,
      refl,
      refl,
      refl,
      refl,
      refl,
      reprocessed-own f config d' m.topic id new_id later k own c e
          ∙ dlq_headers-own f d m reason now k own on,
      refl,
    )

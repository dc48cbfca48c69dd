-- ===== src/Topics/Scores.antt =====
-- The scores of the health checks, and what the colour of a topic's health means.
use pub_sub_go.Base.{
  ◌*◌, ◌≡◌, refl, Bool, true, false, Option, none, some, List, [], ◌∷◌, length, arith, ◌==◌,
  if◌then◌else◌, Bool-cases, ◌⊎◌, inl, inr, eqb, ◌&&◌,
}
use pub_sub_go.Base.Int.{ℤ, pos, leb_ℤ, ltb_ℤ, eqb_ℤ, ◌≤ℤ◌, ◌<ℤ◌, int_laws, ◌-ℤ◌}
use pub_sub_go.Core.Topic.{Topic, hour}
use pub_sub_go.Topics.Types.{Floats, PartitionInfo, HealthCheck}
use pub_sub_go.Topics.Health.{
  cost, healthy, check_topic_configuration, partition_test, retention_test, size_test,
  check_topic_activity, update_test, check_partition_balance, usage_test, check_resource_usage,
  calculate_overall_health, total_of, issues_of, checks_of, topic_health,
}

-- The score of a check is from 0 to 100.
abbrev pub IsScore : HealthCheck → Type 0
IsScore c = (pos 0 ≤ℤ c.score) × (c.score ≤ℤ pos 100)

abbrev pub AllScores : List HealthCheck → Type 0
AllScores [] = Unit {0}
AllScores (c ∷ cs) = IsScore c × AllScores cs

configuration-IsScore : {V : Type 0} (t : Topic V) → IsScore (check_topic_configuration t)
unfolding check_topic_configuration partition_test retention_test size_test ◌-ℤ◌
configuration-IsScore t = ground arith

activity-IsScore : {V : Type 0} (now : ℤ) (t : Topic V) → IsScore (check_topic_activity now t)
unfolding check_topic_activity update_test ◌-ℤ◌
activity-IsScore now t = ground arith

balance-IsScore :
    (floats : Floats) (i : PartitionInfo floats.Float) → IsScore (check_partition_balance floats i)
unfolding check_partition_balance ◌-ℤ◌
balance-IsScore floats i = ground arith

resource-IsScore :
    {V : Type 0} (floats : Floats) (t : Topic V) → IsScore (check_resource_usage floats t)
unfolding check_resource_usage usage_test ◌-ℤ◌
resource-IsScore floats t = ground arith

checks_of-AllScores :
    {V : Type 0} (floats : Floats) (t : Topic V) (i : Option (PartitionInfo floats.Float)) (now : ℤ)
    → AllScores (checks_of floats t i now)
unfolding checks_of
checks_of-AllScores floats t none now =
    (configuration-IsScore t, (activity-IsScore now t, (resource-IsScore floats t, tt)))
checks_of-AllScores floats t (some i) now = (
  configuration-IsScore t,
  (balance-IsScore floats i, (activity-IsScore now t, (resource-IsScore floats t, tt))),
)

total_range :
    (cs : List HealthCheck)
    → AllScores cs
    → (pos 0 ≤ℤ total_of cs) × (total_of cs ≤ℤ pos (100 * length cs))
total_range [] h = omega arith
total_range (c ∷ cs) h = grind (int_laws, total_range cs h.1)

abbrev pub none_unhealthy : List HealthCheck → Bool
none_unhealthy [] = true
none_unhealthy (c ∷ cs) =
    let rest = none_unhealthy cs in if c.status == "unhealthy" then false else rest

issues_none : (cs : List HealthCheck) → length (issues_of cs) ≡ 0 → none_unhealthy cs ≡ true
unfolding issues_of
issues_none [] h = refl
issues_none (c ∷ cs) h = ground (arith, issues_none cs)

overall_meaning :
    (cs : List HealthCheck)
    → AllScores cs
    → let o = calculate_overall_health (total_of cs) (length cs) (length (issues_of cs)) in
      (pos 0 ≤ℤ total_of cs)
      × (total_of cs ≤ℤ pos (100 * length cs))
      × ((o.0 == "green") ≡ true
          → (none_unhealthy cs ≡ true) × (pos (80 * length cs) ≤ℤ total_of cs))
      × ((o.0 == "red") ≡ true → total_of cs <ℤ pos (60 * length cs))
unfolding calculate_overall_health
overall_meaning cs h =
    let r = total_range cs h in
    let n = length cs in
    elim (Bool-cases (leb_ℤ (pos (80 * n)) (total_of cs) && eqb (length (issues_of cs)) 0)) [
      | inl e ↦
          rw e (r.0, r.1, (λ g. (issues_none cs (ground (arith, e)), ground (arith, e))), λ q. cc)
      | inr e ↦ elim (Bool-cases (leb_ℤ (pos (60 * n)) (total_of cs))) [
        | inl e' ↦ rw (e, e') (r.0, r.1, (λ g. cc), λ q. cc)
        | inr e' ↦ rw (e, e') (r.0, r.1, (λ g. cc), λ q. ground (arith, e'))
      ]
    ]

-- The mean score of a topic is from 0 to 100. A topic is green only if no check of it is unhealthy and
-- its mean score is 80 or more, and red only if its mean score is below 60.
pub topic_health_meaning :
    {V : Type 0} (floats : Floats) (t : Topic V) (i : Option (PartitionInfo floats.Float)) (now : ℤ)
    → let h = topic_health floats t i now in
      let n = length h.checks in
      (pos 0 ≤ℤ h.total_score)
      × (h.total_score ≤ℤ pos (100 * n))
      × ((h.health == "green") ≡ true
          → (none_unhealthy h.checks ≡ true) × (pos (80 * n) ≤ℤ h.total_score))
      × ((h.health == "red") ≡ true → h.total_score <ℤ pos (60 * n))
unfolding topic_health
topic_health_meaning floats t i now =
    overall_meaning (checks_of floats t i now) (checks_of-AllScores floats t i now)

update_test_cases :
    {V : Type 0} (now : ℤ) (t : Topic V) (c : HealthCheck)
    → (update_test now t c ≡ cost 30 "degraded" "No recent activity detected" c)
      ⊎ (update_test now t c ≡ c)
unfolding update_test
update_test_cases now t c = elim (Bool-cases (ltb_ℤ (pos (24 * hour)) (now -ℤ t.updated_at))) [
  | inl e ↦ inl (rw e refl)
  | inr e ↦ elim (Bool-cases (ltb_ℤ (pos (7 * 24 * hour)) (now -ℤ t.updated_at))) [
    | inl e' ↦ absurd (ground (arith, e, e'))
    | inr e' ↦ inr (rw (e, e') refl)
  ]
]

-- The check of a topic's activity never calls it unhealthy, however long ago its last update was.
activity_never :
    {V : Type 0} (now : ℤ) (t : Topic V)
    → ((check_topic_activity now t).status == "unhealthy") ≡ false
unfolding check_topic_activity
activity_never now t = elim (Bool-cases (eqb_ℤ t.message_count (pos 0))) [
  | inl e ↦ elim (update_test_cases now t start) [ inl u ↦ rw (e, u) refl | inr u ↦ rw (e, u) refl ]
  | inr e ↦ elim (update_test_cases now t start) [ inl u ↦ rw (e, u) refl | inr u ↦ rw (e, u) refl ]
]
  where
    start : HealthCheck
    start = healthy "Activity Level" "Topic activity is normal"

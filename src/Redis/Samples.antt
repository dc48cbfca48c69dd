-- ===== src/Redis/Samples.antt =====
-- A client that keeps its texts in a dictionary, for the tests of the repositories.
use pub_sub_go.Base.{
  ◌≡◌, refl, String, Option, none, List, [], ◌∷◌, Dict, insert, lookup, lookup-insert, arith,
}
use pub_sub_go.Base.Int.{pos}
use pub_sub_go.Result.{ok}
use pub_sub_go.Redis.Client.{Client, Json, Command, set, z_add, r_push, expire, h_incr_by}
use pub_sub_go.Redis.Contract.{HasTexts, text_after}

abbrev pub looked_up : Dict String → List String → List (Option String)
looked_up s [] = []
looked_up s (k ∷ ks) = lookup k s ∷ looked_up s ks

abbrev pub run : List Command → Dict String → Dict String
run [] s = s
run (set k t ttl ∷ cs) s = run cs (insert k t s)
run (z_add k score member ∷ cs) s = run cs s
run (r_push k v ∷ cs) s = run cs s
run (expire k ttl ∷ cs) s = run cs s
run (h_incr_by k f n ∷ cs) s = run cs s

-- Every set has the one member `a`.
abbrev pub memory : Client
memory = record {
  State = Dict String;
  set = λ k t ttl s. (ok tt, insert k t s);
  get = λ k s. (ok (lookup k s), s);
  get_all = λ ks s. (ok (looked_up s ks), s);
  del = λ ks s. (ok tt, s);
  exists = λ k s. (ok (pos 1), s);
  s_add = λ k v s. (ok tt, s);
  s_rem = λ k v s. (ok tt, s);
  s_members = λ k s. (ok ("a" ∷ []), s);
  incr_by = λ k n s. (ok tt, s);
  scan = λ k s. (([], none), s);
  z_range = λ k lo hi s. (ok ("a" ∷ []), s);
  z_card = λ k s. (ok (pos 1), s);
  z_rem_up_to = λ k n s. (ok (pos 0), s);
  l_range = λ k lo hi s. (ok ("a" ∷ []), s);
  x_group_create = λ stream group s. (ok tt, s);
  x_read_group = λ stream group c n s. (ok [], s);
  exec = λ cs s. (ok tt, run cs s);
}

run_text :
    (cs : List Command) (s : Dict String) (key : String)
    → lookup key (run cs s) ≡ text_after cs key (lookup key s)
run_text [] s key = refl
run_text (set k t ttl ∷ cs) s key = rw (run_text cs (insert k t s) key, lookup-insert) refl
run_text (z_add k score member ∷ cs) s key = run_text cs s key
run_text (r_push k v ∷ cs) s key = run_text cs s key
run_text (expire k ttl ∷ cs) s key = run_text cs s key
run_text (h_incr_by k f n ∷ cs) s key = run_text cs s key

pub memory_texts : HasTexts memory
memory_texts = record {
  text = λ s key. lookup key s;
  get_text = λ key s o h. ground (arith, h);
  set_text = λ key value ttl s other h. lookup-insert key other value s;
  s_add_text = λ key member s other. refl;
  exec_text = λ cs s key h. run_text cs s key;
}

-- The encoding of one value.
abbrev pub single : {A : Type 0} → A → Json A
single a = record { marshal = λ b. ok "value"; unmarshal = λ text. ok a }

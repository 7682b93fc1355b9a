-- ===== src/Witnesses/Storing.antt =====
-- A Redis server as the log of its commands, and what was saved in it.
use momu_llmgateway.Base.{
  ℕ, ◌+◌, String, ◌||◌, ◌&&◌, ◌==◌, Option, none, some, List, [], ◌∷◌, map, ltb, if◌then◌else◌, ◌≡◌,
  refl, inl, inr, arith, All, Any, Bool-cases,
}
use momu_llmgateway.Base.Dict.{is_among}
use momu_llmgateway.Base.Int.{ℤ, pos, negsuc}
use momu_llmgateway.Base.Text.{codes}
use momu_llmgateway.Cache.{CacheEntry}
use momu_llmgateway.Cache.Redis.{Redis, Command, set, z_add, expire, load_all}
use momu_llmgateway.Cache.Redis.History.{IsEmpty, saved}
use momu_llmgateway.Cache.Redis.Laws.{RedisLaws, applied}
use momu_llmgateway.Cache.Redis.Restoring.{load_all-Restored}
use momu_llmgateway.Cache.Redis.Saving.{Saved, IsHistory, last_saved, saved_entry}
use momu_llmgateway.Model.{ok}

-- The commands with their instants, the last one first.
abbrev pub Log : Type 0
Log = List (ℕ × Command)

abbrev pub alive : {A : Type 0} → A → ℕ → ℕ → ℤ → A → A
alive gone t now (pos d) a = if ltb t (now + d) then a else gone
alive gone t now (negsuc d) a = gone

unfoldable pub value_in : ℕ → String → Log → Option (List ℕ)
value_in t key [] = none
value_in t key ((now, set k v ttl) ∷ log) =
    let rest = value_in t key log in if k == key then alive none t now ttl (some v) else rest
value_in t key ((now, z_add k score member) ∷ log) = value_in t key log
value_in t key ((now, expire k ttl) ∷ log) = value_in t key log

unfoldable pub members_in : ℕ → String → Log → List String
members_in t key [] = []
members_in t key ((now, set k v ttl) ∷ log) = members_in t key log
members_in t key ((now, z_add k score member) ∷ log) =
    let rest = members_in t key log in if k == key then member ∷ rest else rest
members_in t key ((now, expire k ttl) ∷ log) =
    let before = members_in now key log in
    let rest = members_in t key log in if k == key then alive [] t now ttl before else rest

abbrev pub logged : ℕ → Command → Log → Log
logged now command log = (now, command) ∷ log

abbrev pub logging : Redis Log
logging = record {
  ping = λ log. none;
  exec = λ now commands log. (applied logged now commands log, none);
  z_range = λ now key log. ok (members_in now key log);
  get_all = λ now keys log. (map (λ key. value_in now key log) keys, none);
}

pub logging-RedisLaws : RedisLaws logging
unfolding value_in members_in
logging-RedisLaws = record {
  value = value_in;
  members = members_in;
  apply = logged;
  exec_lem = λ now commands log. refl;
  z_range_lem = λ now key log. refl;
  get_all_lem = λ now keys log. (refl, tt);
  value-set = λ now t d key key' v log l p. refl;
  value-z_add = λ now t score key member key' log l e. refl;
  value-expire = λ now t d key key' log l e. refl;
  members-set = λ now t d key key' v log l p e. refl;
  members-add =
      λ now t d score key member key' member' log l w. added now t d key member key' member' log;
}
  where
    added :
        (now t d : ℕ) (key member key' member' : String) (log : Log)
        → is_among member' (
            if key == key'
            then (if ltb t (now + d)
                then (if key == key'
                    then member ∷ members_in now key' log
                    else members_in now key' log)
                else [])
            else (if key == key' then member ∷ members_in t key' log else members_in t key' log))
          ≡ (if key == key'
              then ltb t (now + d)
                && (member == member' || is_among member' (members_in now key' log))
              else is_among member' (members_in t key' log))
    added now t d key member key' member' log = elim (Bool-cases (key == key')) [
      | inl same ↦ elim (Bool-cases (ltb t (now + d))) [
        | inl living ↦ rw (same, living) refl
        | inr dead ↦ rw (same, dead) refl
      ]
      | inr other ↦ rw other refl
    ]

abbrev pub saving : ℕ → String → Saved
saving at key = record { at = at; model = "small"; key = key; vector = 1 ∷ []; response = "{}" }

-- Two answers, the first of them saved again.
abbrev pub history : List Saved
history = saving 9 "a1" ∷ saving 5 "b2" ∷ saving 2 "a1" ∷ []

abbrev state : Log
state =
    saved codes (λ bytes. "{}") logging logging-RedisLaws 3000000000 (3, omega arith, omega arith)
      [] history

pub logging-IsEmpty :
    IsEmpty codes
      (λ bytes. "{}")
      logging
      logging-RedisLaws
      3000000000
      (3, omega arith, omega arith)
      []
unfolding logging-RedisLaws value_in members_in
logging-IsEmpty = record { no_value = λ t key. refl; no_member = λ t key. refl }

pub history-IsHistory : IsHistory history
history-IsHistory = omega arith

load_all-Restored_example :
    (es : List CacheEntry) × (load_all codes (λ bytes. "{}") logging 10 "small" state ≡ ok es)
    × All
        (λ e.
          (x : Saved) × (last_saved 3000000000 10 "small" e.key history ≡ some x)
          × (saved_entry x ≡ e))
        es
    × ((key : String) (x : Saved)
        → last_saved 3000000000 10 "small" key history ≡ some x
        → Any (λ e. e ≡ saved_entry x) es)
load_all-Restored_example =
    load_all-Restored codes (λ bytes. "{}") logging logging-RedisLaws 3000000000
      (3, omega arith, omega arith) [] logging-IsEmpty 10 "small" history history-IsHistory
      (omega arith) (refl, (refl, (refl, tt)))

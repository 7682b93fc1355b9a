-- ===== src/Ingress/Middleware/RateLimit/Window.antt =====
-- The requests of one key that the rate limit admits one after the other.
use momu_llmgateway.Base.{
  ℕ, suc, ◌≤◌, String, false, ◌&&◌, Option, some, List, [], ◌∷◌, if◌then◌else◌, ◌≡◌, arith,
  Bool-cases, inl, inr, refl, ap, subst, sym, ◌∙◌,
}
use momu_llmgateway.Base.Int.{ℤ, pos, ◌+ℤ◌, ◌-ℤ◌, leb_ℤ, ltb_ℤ, ◌<ℤ◌, ◌≤ℤ◌, +ℤ_parts, -ℤ_parts}
use momu_llmgateway.Ingress.Middleware.{GinContext, Verdict, pass, abort, is_open_path}
use momu_llmgateway.Ingress.Middleware.RateLimit.{SortedSets, rate_limit_middleware}
use momu_llmgateway.Model.{◌<>◌, ok}

-- How many instants of a list are later than an instant.
abbrev pub later_than : ℤ → List ℤ → ℕ
later_than x [] = 0
later_than x (a ∷ h) = let n = later_than x h in if ltb_ℤ x a then suc n else n

-- How many lie in the minute that begins behind an instant.
abbrev pub within_minute : ℤ → List ℤ → ℕ
within_minute x [] = 0
within_minute x (a ∷ h) =
    let n = within_minute x h in if ltb_ℤ x a && leb_ℤ a (x +ℤ pos 60000) then suc n else n

pub within_minute-later_than : (x : ℤ) (h : List ℤ) → within_minute x h ≤ later_than x h
within_minute-later_than x [] = omega arith
within_minute-later_than x (a ∷ h) = ground (arith, within_minute-later_than x h)

pub later_than_mono : (x y : ℤ) (h : List ℤ) → x ≤ℤ y → later_than y h ≤ later_than x h
later_than_mono x y [] e = omega arith
later_than_mono x y (a ∷ h) e = ground (arith, later_than_mono x y h e)

-- Fewer than the limit were admitted in the minute before each admission.
unfoldable pub Spaced : ℤ → List ℤ → Type 0
Spaced limit [] = Unit
Spaced limit (a ∷ h) = (pos (later_than (a -ℤ pos 60000) h) <ℤ limit) × Spaced limit h

pub within_minute-Spaced :
    (limit x : ℤ) (h : List ℤ) → pos 0 <ℤ limit → Spaced limit h → pos (within_minute x h) ≤ℤ limit
unfolding Spaced
within_minute-Spaced limit x [] l s = omega (arith, l)
within_minute-Spaced limit x (a ∷ h) l (few, s) =
    elim (Bool-cases (ltb_ℤ x a && leb_ℤ a (x +ℤ pos 60000))) [
      | inr out ↦ rw out (within_minute-Spaced limit x h l s)
      | inl here ↦ rw here (
          let near : (a -ℤ pos 60000) ≤ℤ x =
            ground (arith, here, +ℤ_parts x (pos 60000), -ℤ_parts a (pos 60000)) in
          omega
            (arith, few, within_minute-later_than x h, later_than_mono (a -ℤ pos 60000) x h near))
    ]

-- What the rate limit relies on. `above` counts the members of a set with a greater score, those that
-- EXPIRE has dropped included: as that happens two minutes after the last of them was added, they are
-- below every score at which the set is pruned from then on. Pruning at a score tells how many members are
-- above it and leaves those alone, and a member that is new to the set adds itself to it.
pub record SetLaws {R : Type 0} (redis : SortedSets R) : Type 1 where
  pub above : String → ℤ → R → ℕ
  pub IsNew : String → String → R → Type 0
  pub prune :
      (key : String) (w : ℤ) (r : R)
      → (r' : R) × ((redis.prune_and_count key w r ≡ (r', ok (pos (above key w r))))
          × ((x : ℤ) → w ≤ℤ x → above key x r' ≡ above key x r))
  pub add :
      (key member : String) (t x : ℤ) (r : R)
      → IsNew key member r
      → above key x (redis.expire key 120 (redis.z_add key t member r))
        ≡ (if ltb_ℤ x t then suc (above key x r) else above key x r)

module _ {R : Type 0} (redis : SortedSets R) (key : String) (limit : ℤ) (c : GinContext) where
  -- A request of the key.
  abbrev pub keyed : GinContext
  keyed = record c { api_key = Option.some key; api_key_rate_limit = Option.some limit }

  abbrev pub noted : ℤ → List ℤ → R × Verdict → R × List ℤ
  noted now h (r, pass c') = (r, now ∷ h)
  noted now h (r, abort status text) = (r, h)

  -- One request, and the instants of those that were admitted, the last one first.
  abbrev pub serve_one : ℤ × String → R × List ℤ → R × List ℤ
  serve_one (now, member) (r, h) =
      noted now h (rate_limit_middleware (some redis) now member keyed r)

  abbrev pub serve : List (ℤ × String) → R × List ℤ → R × List ℤ
  serve [] x = x
  serve (q ∷ qs) x = serve qs (serve_one q x)

  module _ (laws : SetLaws redis) where
    -- Each request comes at or after the one before, and its random member is new.
    abbrev pub InOrder : ℤ → List (ℤ × String) → R → Type 0
    InOrder last [] r = Unit
    InOrder last ((now, member) ∷ qs) r =
        (last ≤ℤ now)
        × (laws.IsNew ("ratelimit:" <> key) member
              (redis.prune_and_count ("ratelimit:" <> key) (now -ℤ pos 60000) r).0
            × InOrder now qs (rate_limit_middleware (some redis) now member keyed r).0)

    -- The set tells of the admissions of the last minute.
    Tracks : ℤ → R × List ℤ → Type 0
    Tracks last (r, h) =
        ((x : ℤ) → (last -ℤ pos 60000) ≤ℤ x → laws.above ("ratelimit:" <> key) x r ≡ later_than x h)
        × Spaced limit h

    earlier : (last now x : ℤ) → last ≤ℤ now → (now -ℤ pos 60000) ≤ℤ x → (last -ℤ pos 60000) ≤ℤ x
    earlier last now x e f =
        omega (arith, e, f, -ℤ_parts now (pos 60000), -ℤ_parts last (pos 60000))

    serve_one-Tracks :
        (last now : ℤ) (member : String) (r : R) (h : List ℤ)
        → pos 0 <ℤ limit
        → is_open_path c.path ≡ false
        → last ≤ℤ now
        → laws.IsNew
            ("ratelimit:" <> key)
            member
            (redis.prune_and_count ("ratelimit:" <> key) (now -ℤ pos 60000) r).0
        → Tracks last (r, h)
        → Tracks now (serve_one (now, member) (r, h))
    unfolding Tracks rate_limit_middleware Spaced
    serve_one-Tracks last now member r h l closed e new (tracks, s) =
        let w = now -ℤ pos 60000 in
        let rate_key = "ratelimit:" <> key in
        let positive : leb_ℤ limit (pos 0) ≡ false = ground (arith, l) in
        let (r', (pruned, same)) = laws.prune rate_key w r in
        let count : laws.above rate_key w r ≡ later_than w h =
          tracks w (earlier last now w e (omega arith)) in
        let new' : laws.IsNew rate_key member r' =
          subst (λ p. laws.IsNew rate_key member p.0) pruned new in
        elim (Bool-cases (leb_ℤ limit (pos (laws.above rate_key w r)))) [
          | inl full ↦
              rw (closed, positive, pruned, full)
                ((λ x f. same x f ∙ tracks x (earlier last now x e f)), s)
          | inr free ↦
              rw (closed, positive, pruned, free)
                (
                  (λ x f.
                      laws.add rate_key member now x r' new'
                      ∙ ap (λ n. if ltb_ℤ x now then suc n else n)
                          (same x f ∙ tracks x (earlier last now x e f))),
                  (ground (arith, free, count), s),
                )
        ]

    noted-state : (now : ℤ) (h : List ℤ) (x : R × Verdict) → (noted now h x).0 ≡ x.0
    noted-state now h (r, pass c') = refl
    noted-state now h (r, abort status text) = refl

    serve-Spaced :
        (last : ℤ) (qs : List (ℤ × String)) (x : R × List ℤ)
        → pos 0 <ℤ limit
        → is_open_path c.path ≡ false
        → InOrder last qs x.0
        → Tracks last x
        → Spaced limit (serve qs x).1
    unfolding Tracks
    serve-Spaced last [] x l closed order (tracks, s) = s
    serve-Spaced last ((now, member) ∷ qs) (r, h) l closed (e, (new, order)) t =
        serve-Spaced now qs (serve_one (now, member) (r, h)) l closed
          (subst (λ r'. InOrder now qs r')
            (sym (noted-state now h (rate_limit_middleware (some redis) now member keyed r))) order)
          (serve_one-Tracks last now member r h l closed e new t)

    -- Of the requests of a key that come one after the other, on a clock that does not go back and with
    -- random members that are new, to a set that is empty at first: in every minute no more than the
    -- limit are admitted, if it is positive, the path is not open, and Redis answers and keeps `SetLaws`.
    pub rate_limit_middleware-within_minute :
        (start x : ℤ) (qs : List (ℤ × String)) (r : R)
        → pos 0 <ℤ limit
        → is_open_path c.path ≡ false
        → ((y : ℤ) → laws.above ("ratelimit:" <> key) y r ≡ 0)
        → InOrder start qs r
        → pos (within_minute x (serve qs (r, [])).1) ≤ℤ limit
    rate_limit_middleware-within_minute start x qs r l closed empty order =
        within_minute-Spaced limit x (serve qs (r, [])).1 l (
          serve-Spaced start qs (r, []) l closed order
            (unfold Tracks Spaced in ((λ y f. empty y), tt)))

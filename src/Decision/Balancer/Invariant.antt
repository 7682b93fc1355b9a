-- ===== src/Decision/Balancer/Invariant.antt =====
-- The slot table: every name has a slot of its own inside `slots`.
use momu_llmgateway.Base.{
  ℕ, ◌+◌, ◌<◌, ◌≤◌, String, none, some, List, [], ◌∷◌, map, length, get_or, set, length-set,
  length-append, All, eq_iff, if◌then◌else◌, ◌≡◌, ◌≢◌, refl, sym, ap, ◌∙◌, arith, Option-cases, inl,
  inr, ◌⊎◌,
}
use momu_llmgateway.Base.Dict.{lookup, insert, lookup-insert}
use momu_llmgateway.Decision.Balancer.{
  Num, ProviderCandidate, Balancer, register, resolve_slots, select_slot, select, effective_weight,
  accumulate,
}

pub record IsValid {N : Type 0} (b : Balancer N) : Type 0 where
  pub inside : (name : String) (s : ℕ) → lookup name b.name_to_slot ≡ some s → s < length b.slots
  pub apart :
      (name name' : String) (s : ℕ)
      → lookup name b.name_to_slot ≡ some s
      → lookup name' b.name_to_slot ≡ some s
      → name ≡ name'

abbrev pub IsFresh : ℕ → List ℕ → Type 0
IsFresh s ss = All (λ t. s ≢ t) ss

-- The slots of the candidates are different slots of the balancer.
abbrev pub AreSlots : ℕ → List ℕ → Type 0
AreSlots n [] = Unit
AreSlots n (s ∷ ss) = (s < n) × IsFresh s ss × AreSlots n ss

-- Each candidate is registered at its slot.
abbrev pub Registered :
    {N : Type 0} → List (String × ℕ) → List (ProviderCandidate N) → List ℕ → Type 0
Registered d [] [] = Unit
Registered d (c ∷ cs) (s ∷ ss) = (lookup c.provider_name d ≡ some s) × Registered d cs ss
Registered d _ _ = ⊥

-- No provider is named twice among the candidates.
abbrev pub AreDistinct : {N : Type 0} → List (ProviderCandidate N) → Type 0
AreDistinct [] = Unit
AreDistinct (c ∷ cs) = All (λ c'. c.provider_name ≢ c'.provider_name) cs × AreDistinct cs

module _ {N : Type 0} (num : Num N) where
  lookup-register_self :
      (name : String) (b : Balancer N)
      → lookup name (register num name b).0.name_to_slot ≡ some (register num name b).1
  unfolding register
  lookup-register_self name b =
      ground (arith, lookup-insert name name (length b.slots) b.name_to_slot, eq_iff name name)

  -- A name that is registered keeps its slot.
  lookup-register :
      (name name' : String) (s : ℕ) (b : Balancer N)
      → lookup name' b.name_to_slot ≡ some s
      → lookup name' (register num name b).0.name_to_slot ≡ some s
  unfolding register
  lookup-register name name' s b h =
      ground (arith, lookup-insert name name' (length b.slots) b.name_to_slot, eq_iff name name')

  length-register :
      (name : String) (b : Balancer N) → length b.slots ≤ length (register num name b).0.slots
  unfolding register
  length-register name b = ground (arith, length-append b.slots (num.zero ∷ []))

  -- A slot under a name after a new name was registered.
  new-inside :
      (name : String) (b : Balancer N)
      → IsValid b
      → lookup name b.name_to_slot ≡ none
      → (k : String) (s : ℕ) → lookup k (insert name (length b.slots) b.name_to_slot) ≡ some s
      → s < length b.slots + 1
  new-inside name b v new k s h =
      ground (arith, lookup-insert name k (length b.slots) b.name_to_slot, v.inside k s)

  new-apart :
      (name : String) (b : Balancer N)
      → IsValid b
      → (k k' : String) (s : ℕ) → lookup k (insert name (length b.slots) b.name_to_slot) ≡ some s
      → lookup k' (insert name (length b.slots) b.name_to_slot) ≡ some s
      → k ≡ k'
  new-apart name b v k k' s h h' = ground (
    arith,
    lookup-insert name k (length b.slots) b.name_to_slot,
    lookup-insert name k' (length b.slots) b.name_to_slot,
    eq_iff name k,
    eq_iff name k',
    v.inside k s,
    v.inside k' s,
    v.apart k k' s,
  )

  -- Registering a name, new or known, keeps the slot table valid.
  pub register-IsValid :
      (name : String) (b : Balancer N) → IsValid b → IsValid (register num name b).0
  unfolding register
  register-IsValid name b v = elim (Option-cases (lookup name b.name_to_slot)) [
    | inr (s, known) ↦ rw known v
    | inl new ↦ rw new (record {
      inside = λ k s h. rw (length-append b.slots (num.zero ∷ [])) (new-inside name b v new k s h);
      apart = new-apart name b v;
    })
  ]

  -- What resolving the slots of a list of candidates leaves.
  record Resolved (cs : List (ProviderCandidate N)) (b b' : Balancer N) (ss : List ℕ) : Type 0 where
    valid : IsValid b'
    same_cfg : b'.cfg ≡ b.cfg
    kept :
        (name : String) (s : ℕ)
        → lookup name b.name_to_slot ≡ some s
        → lookup name b'.name_to_slot ≡ some s
    registered : Registered b'.name_to_slot cs ss

  cfg-register : (name : String) (b : Balancer N) → (register num name b).0.cfg ≡ b.cfg
  unfolding register
  cfg-register name b = ground arith

  resolve_slots-Resolved :
      (cs : List (ProviderCandidate N)) (b : Balancer N)
      → IsValid b
      → Resolved cs b (resolve_slots num cs b).0 (resolve_slots num cs b).1
  unfolding resolve_slots
  resolve_slots-Resolved [] b v = record {
    valid = v;
    same_cfg = refl;
    kept = λ name s h. h;
    registered = tt;
  }
  resolve_slots-Resolved (c ∷ cs) b v =
      let (b', slot) = register num c.provider_name b in
      let rest = resolve_slots-Resolved cs b' (register-IsValid c.provider_name b v) in
      record {
        valid = rest.valid;
        same_cfg = rest.same_cfg ∙ cfg-register c.provider_name b;
        kept = λ name s h. rest.kept name s (lookup-register c.provider_name name s b h);
        registered = (
          rest.kept c.provider_name slot (lookup-register_self c.provider_name b),
          rest.registered,
        );
      }

IsFresh-Registered :
    {N : Type 0} (b : Balancer N) (c : ProviderCandidate N) (cs : List (ProviderCandidate N))
    (s : ℕ) (ss : List ℕ)
    → IsValid b
    → All (λ c'. c.provider_name ≢ c'.provider_name) cs
    → lookup c.provider_name b.name_to_slot ≡ some s
    → Registered b.name_to_slot cs ss
    → IsFresh s ss
IsFresh-Registered b c [] s [] v d e h = tt
IsFresh-Registered b c (c' ∷ cs) s (t ∷ ss) v (other, d) e (e', h) = (
  λ same. other (v.apart c.provider_name c'.provider_name s e (e' ∙ ap some (sym same))),
  IsFresh-Registered b c cs s ss v d e h,
)
IsFresh-Registered b c [] s (t ∷ ss) v d e h = elim h [ ]
IsFresh-Registered b c (c' ∷ cs) s [] v d e h = elim h [ ]

-- Candidates of different names have different slots.
pub AreSlots-Registered :
    {N : Type 0} (b : Balancer N) (cs : List (ProviderCandidate N)) (ss : List ℕ)
    → IsValid b
    → AreDistinct cs
    → Registered b.name_to_slot cs ss
    → AreSlots (length b.slots) ss
AreSlots-Registered b [] [] v d h = tt
AreSlots-Registered b (c ∷ cs) (s ∷ ss) v (others, d) (e, h) = (
  v.inside c.provider_name s e,
  IsFresh-Registered b c cs s ss v others e h,
  AreSlots-Registered b cs ss v d h,
)
AreSlots-Registered b [] (t ∷ ss) v d h = elim h [ ]
AreSlots-Registered b (c' ∷ cs) [] v d h = elim h [ ]

module _ {N : Type 0} (num : Num N) where
  pub length-accumulate :
      (slots : List N) (i b : ℕ) (w : N) (ss : List ℕ) (effs : List N)
      → length (accumulate num slots i b w ss effs).0 ≡ length slots
  unfolding accumulate
  length-accumulate slots i b w [] effs = refl
  length-accumulate slots i b w (t ∷ ss) [] = refl
  length-accumulate slots i b w (t ∷ ss) (eff ∷ effs) =
      let cw = num.add (get_or slots t num.zero) eff in
      length-accumulate (set slots t cw) (i + 1) (if num.lt w cw then i else b)
        (if num.lt w cw then cw else w) ss effs
      ∙ length-set slots t cw

  length-select_slot :
      (slots : List N) (ss : List ℕ) (effs : List N)
      → length (select_slot num slots ss effs).0 ≡ length slots
  unfolding select_slot
  length-select_slot slots ss effs =
      length-set (accumulate num slots 0 0 num.lowest ss effs).0 _ _
      ∙ length-accumulate slots 0 0 num.lowest ss effs

  -- `Select` keeps the slot table valid: every name has a slot of its own inside the slots. It moves
  -- no name to another slot, and after it every candidate is registered; candidates of different
  -- names have different slots.
  pub select-IsValid :
      (cs : List (ProviderCandidate N)) (b : Balancer N)
      → IsValid b
      → IsValid (select num cs b).0
        × ((name : String) (s : ℕ)
            → lookup name b.name_to_slot ≡ some s
            → lookup name (select num cs b).0.name_to_slot ≡ some s)
        × (ss : List ℕ) × Registered (select num cs b).0.name_to_slot cs ss
        × (AreDistinct cs → AreSlots (length (select num cs b).0.slots) ss)
  unfolding select
  select-IsValid [] b v = (v, (λ name s h. h), [], tt, λ d. tt)
  select-IsValid (c ∷ cs) b v =
      let effs = map (effective_weight num b.cfg) (c ∷ cs) in
      let (b', ss) = resolve_slots num (c ∷ cs) b in
      let r = resolve_slots-Resolved num (c ∷ cs) b v in
      let same = length-select_slot b'.slots ss effs in
      (
        record { inside = λ name s h. rw same (r.valid.inside name s h); apart = r.valid.apart },
        r.kept,
        ss,
        r.registered,
        λ d. rw same (AreSlots-Registered b' (c ∷ cs) ss r.valid d r.registered),
      )

  -- `Select` among candidates of different names keeps the slot table valid: every name has a slot of
  -- its own inside the slots. Every name that had a slot keeps it, and every candidate has one, different
  -- from those of the others.
  pub select_slots-IsValid :
      (cs : List (ProviderCandidate N)) (b : Balancer N) (name : String)
      → IsValid b
      → AreDistinct cs
      → IsValid (select num cs b).0
        × ((lookup name b.name_to_slot ≡ none)
            ⊎ (lookup name (select num cs b).0.name_to_slot ≡ lookup name b.name_to_slot))
        × (ss : List ℕ) × Registered (select num cs b).0.name_to_slot cs ss
        × AreSlots (length (select num cs b).0.slots) ss
  select_slots-IsValid cs b name v d =
      let (valid, kept, ss, registered, apart) = select-IsValid cs b v in
      (
        valid,
        elim (Option-cases (lookup name b.name_to_slot)) [
          | inl new ↦ inl new
          | inr (s, known) ↦ inr (kept name s known ∙ sym known)
        ],
        ss,
        registered,
        apart d,
      )

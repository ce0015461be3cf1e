-- ===== src/Gitrefs/Policy/Outcomes.antt =====
-- The plan acts a relation: one decision for each ref, in the order of the loop.
use mathlib.Core.List.{append-nil, append_assoc}
use forge_sync.Base.{
  String, List, [], ◌∷◌, ◌++◌, ◌≡◌, refl, ◌∙◌, arith, ◌||◌, string_eq, contains, sort_by-contains,
  sort_by-IsNodup, IsNodup,
}
use forge_sync.Base.Dict.{keys, lookup}
use forge_sync.Model.{Conflict, Time}
use forge_sync.Result.{Result, ok, >>=-eq-ok}
use forge_sync.Gitrefs.Policy.{
  Action, Refs, Ancestry, Decision, push, same, diverged, string_le, add_all, union, decide_ref,
  append, plan_refs, plan,
}

add_all-contains :
    (refs set : List String) (r : String)
    → contains (add_all refs set) r ≡ (contains refs r || contains set r)
unfolding add_all
add_all-contains [] set r = refl
add_all-contains (x ∷ refs) set r =
    ground (arith, add_all-contains refs set r, add_all-contains refs (x ∷ set) r)

add_all-IsNodup : (refs set : List String) → IsNodup set → IsNodup (add_all refs set)
unfolding add_all
add_all-IsNodup [] set n = n
add_all-IsNodup (x ∷ refs) set n =
    ground (arith, add_all-IsNodup refs set, add_all-IsNodup refs (x ∷ set))

-- Each ref of either forge is planned, and no other.
pub union-contains :
    (gh fj : Refs) (r : String)
    → contains (union gh fj) r ≡ (contains (keys gh) r || contains (keys fj) r)
unfolding union
union-contains gh fj r = ground (
  arith,
  sort_by-contains string_le (add_all (keys fj) (add_all (keys gh) [])) r,
  add_all-contains (keys fj) (add_all (keys gh) []) r,
  add_all-contains (keys gh) [] r,
)

pub union-IsNodup : (gh fj : Refs) → IsNodup (union gh fj)
unfolding union
union-IsNodup gh fj =
    sort_by-IsNodup string_le _ (add_all-IsNodup (keys fj) _ (add_all-IsNodup (keys gh) [] tt))

module _ (repository : String) (is_ancestor : Ancestry) (clock : String → Time) (gh fj : Refs) where
  abbrev pub decide : String → Result Decision
  decide ref = decide_ref repository is_ancestor clock ref (lookup ref gh) (lookup ref fj)

  pub data Planned : List String → List Action → List Conflict → Type 0 where
    done : Planned [] [] []
    pushed :
        {ref : String} {refs : List String} {a : Action} {acts : List Action} {cs : List Conflict}
        → decide ref ≡ ok (push a)
        → Planned refs acts cs
        → Planned (ref ∷ refs) (a ∷ acts) cs
    kept :
        {ref : String} {refs : List String} {acts : List Action} {cs : List Conflict}
        → decide ref ≡ ok same
        → Planned refs acts cs
        → Planned (ref ∷ refs) acts cs
    recorded :
        {ref : String} {refs : List String} {c : Conflict} {acts : List Action} {cs : List Conflict}
        → decide ref ≡ ok (diverged c)
        → Planned refs acts cs
        → Planned (ref ∷ refs) acts (c ∷ cs)

  abbrev Split : List String → List Action → List Conflict → List Action → List Conflict → Type 0
  Split refs acts₀ cs₀ acts' cs' =
      (acts : List Action) × (cs : List Conflict) × (acts' ≡ acts₀ ++ acts)
      × (cs' ≡ cs₀ ++ cs)
      × Planned refs acts cs

  split :
      (ref : String) (refs : List String) (acts₀ : List Action) (cs₀ : List Conflict)
      (acts' : List Action) (cs' : List Conflict)
      (ih : (x : List Action) (y : List Conflict) (x' : List Action) (y' : List Conflict)
        → plan_refs repository is_ancestor clock gh fj refs (x, y) ≡ ok (x', y')
        → Split refs x y x' y')
      (d : Decision)
      → decide ref ≡ ok d
      → plan_refs repository is_ancestor clock gh fj refs (append d (acts₀, cs₀)) ≡ ok (acts', cs')
      → Split (ref ∷ refs) acts₀ cs₀ acts' cs'
  unfolding append
  split ref refs acts₀ cs₀ acts' cs' ih (push a) e r =
      let (acts, cs, p, q, t) = ih (acts₀ ++ a ∷ []) cs₀ acts' cs' r in
      (a ∷ acts, cs, p ∙ append_assoc acts₀ (a ∷ []) acts, q, pushed e t)
  split ref refs acts₀ cs₀ acts' cs' ih same e r =
      let (acts, cs, p, q, t) = ih acts₀ cs₀ acts' cs' r in (acts, cs, p, q, kept e t)
  split ref refs acts₀ cs₀ acts' cs' ih (diverged c) e r =
      let (acts, cs, p, q, t) = ih acts₀ (cs₀ ++ c ∷ []) acts' cs' r in
      (acts, c ∷ cs, p, q ∙ append_assoc cs₀ (c ∷ []) cs, recorded e t)

  -- Each successful run of the loop is a derivation.
  pub plan_refs-Planned :
      (refs : List String) (acts₀ : List Action) (cs₀ : List Conflict) (acts' : List Action)
      (cs' : List Conflict)
      → plan_refs repository is_ancestor clock gh fj refs (acts₀, cs₀) ≡ ok (acts', cs')
      → Split refs acts₀ cs₀ acts' cs'
  unfolding plan_refs append
  plan_refs-Planned [] acts₀ cs₀ acts' cs' h =
      ([], [], rw append-nil (cc), rw append-nil (cc), done)
  plan_refs-Planned (ref ∷ refs) acts₀ cs₀ acts' cs' h =
      let (d, decided, rest) = >>=-eq-ok (decide ref) _ h in
      split ref refs acts₀ cs₀ acts' cs' (plan_refs-Planned refs) d decided rest

  -- Each derivation is a successful run.
  pub Planned-plan_refs :
      {refs : List String} {acts : List Action} {cs : List Conflict} (acts₀ : List Action)
      (cs₀ : List Conflict)
      → Planned refs acts cs
      → plan_refs repository is_ancestor clock gh fj refs (acts₀, cs₀)
        ≡ ok (acts₀ ++ acts, cs₀ ++ cs)
  unfolding plan_refs append
  Planned-plan_refs acts₀ cs₀ done = simp append-nil
  Planned-plan_refs acts₀ cs₀ (pushed {a = a} e t) =
      rw e (Planned-plan_refs (acts₀ ++ a ∷ []) cs₀ t ∙ simp append_assoc)
  Planned-plan_refs acts₀ cs₀ (kept e t) = rw e (Planned-plan_refs acts₀ cs₀ t)
  Planned-plan_refs acts₀ cs₀ (recorded {c = c} e t) =
      rw e (Planned-plan_refs acts₀ (cs₀ ++ c ∷ []) t ∙ simp append_assoc)

  pub plan-Planned :
      (acts : List Action) (cs : List Conflict)
      → plan repository is_ancestor clock gh fj ≡ ok (acts, cs)
      → Planned (union gh fj) acts cs
  unfolding plan
  plan-Planned acts cs h = elim (string_eq.dec repository "") [
    | yes e ↦ ground arith
    | no n ↦
        let (acts', cs', p, q, t) = plan_refs-Planned (union gh fj) [] [] acts cs (ground arith) in
        rw (p, q) t
  ]

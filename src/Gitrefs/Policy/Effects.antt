-- ===== src/Gitrefs/Policy/Effects.antt =====
-- What a plan does to each ref, once its pushes are carried out in order.
use forge_sync.Base.{
  String, Bool, true, false, Option, none, some, List, [], ◌∷◌, ◌≡◌, refl, ◌∙◌, arith, ◌==◌,
  string_eq, contains, if◌then◌else◌, find, IsNodup,
}
use forge_sync.Base.Dict.{lookup, insert, lookup-insert}
use forge_sync.Model.{Conflict, Time}
use forge_sync.Result.{Result, ok}
use forge_sync.Gitrefs.Policy.{
  Forge, github, forgejo, Action, Refs, Ancestry, Decision, push, same, diverged, decide_ref,
}
use forge_sync.Gitrefs.Policy.Outcomes.{Planned, done, pushed, kept, recorded}

abbrev pub is_forge : Forge → Forge → Bool
is_forge github github = true
is_forge forgejo forgejo = true
is_forge _ _ = false

-- The refs of forge `f` after git has accepted every push of the list that targets it.
unfoldable pub deliver : Forge → List Action → Refs → Refs
deliver f [] refs = refs
deliver f (a ∷ actions) refs =
    deliver f actions (if is_forge f a.to then insert a.ref a.sha refs else refs)

-- The recorded conflict about a ref.
abbrev pub conflict_at : String → List Conflict → Option Conflict
conflict_at r = find (λ c. c.object_key == r)

abbrev pub conflict_of : Decision → Option Conflict
conflict_of (diverged c) = some c
conflict_of _ = none

-- What forge `f` holds for a ref after the decision, from what it held before.
abbrev pub wins : Forge → Decision → Option String → Option String
wins f (push a) old = if is_forge f a.to then some a.sha else old
wins f _ old = old

module _ (repository : String) (is_ancestor : Ancestry) (clock : String → Time) where
  pub decide_ref-ref :
      (r : String) (g f : Option String) (d : Decision)
      → decide_ref repository is_ancestor clock r g f ≡ ok d
      → ((a : Action) → d ≡ push a → a.ref ≡ r)
        × ((c : Conflict) → d ≡ diverged c → c.object_key ≡ r)
  unfolding decide_ref
  decide_ref-ref r g f d h = (λ a e. ground arith, λ c e. ground arith)

  module _ (gh fj : Refs) where
    abbrev decision : String → Result Decision
    decision r = decide_ref repository is_ancestor clock r (lookup r gh) (lookup r fj)

    pub deliver-other :
        {refs : List String} {acts : List Action} {cs : List Conflict} (r : String) (f : Forge)
        (m : Refs)
        → Planned repository is_ancestor clock gh fj refs acts cs
        → contains refs r ≡ false
        → lookup r (deliver f acts m) ≡ lookup r m
    unfolding deliver
    deliver-other r f m done h = refl
    deliver-other r f m (pushed {ref = x} {a = a} e t) h =
        deliver-other r f _ t (ground arith)
        ∙ ground (
          arith,
          (decide_ref-ref x (lookup x gh) (lookup x fj) (push a) e).0 a refl,
          lookup-insert r a.ref a.sha m,
        )
    deliver-other r f m (kept e t) h = deliver-other r f m t (ground arith)
    deliver-other r f m (recorded e t) h = deliver-other r f m t (ground arith)

    pub conflict_at-other :
        {refs : List String} {acts : List Action} {cs : List Conflict} (r : String)
        → Planned repository is_ancestor clock gh fj refs acts cs
        → contains refs r ≡ false
        → conflict_at r cs ≡ none
    conflict_at-other r done h = refl
    conflict_at-other r (pushed e t) h = conflict_at-other r t (ground arith)
    conflict_at-other r (kept e t) h = conflict_at-other r t (ground arith)
    conflict_at-other r (recorded {ref = x} {c = c} e t) h = ground (
      arith,
      (decide_ref-ref x (lookup x gh) (lookup x fj) (diverged c) e).1 c refl,
      conflict_at-other r t,
    )

    -- The one decision about a ref, and all that the plan does to it.
    pub record Outcome (r : String) (acts : List Action) (cs : List Conflict) : Type 0 where
      pub d : Decision
      pub decided : decision r ≡ ok d
      pub delivered : (f : Forge) (m : Refs) → lookup r (deliver f acts m) ≡ wins f d (lookup r m)
      pub noted : conflict_at r cs ≡ conflict_of d

    pub outcome :
        {refs : List String} {acts : List Action} {cs : List Conflict} (r : String)
        → Planned repository is_ancestor clock gh fj refs acts cs
        → IsNodup refs
        → contains refs r ≡ true
        → Outcome r acts cs
    unfolding deliver
    outcome r done n h = cc
    outcome r (pushed {ref = x} {a = a} e t) n h = elim (string_eq.dec x r) [
      | yes p ↦ record {
        d = push a;
        decided = rw (← p) e;
        delivered = λ f m.
            deliver-other r f _ t (ground arith)
            ∙ ground (
              arith,
              (decide_ref-ref x (lookup x gh) (lookup x fj) (push a) e).0 a refl,
              lookup-insert r a.ref a.sha m,
            );
        noted = conflict_at-other r t (ground arith);
      }
      | no q ↦
          let o = outcome r t n.1 (ground arith) in
          record {
            d = o.d;
            decided = o.decided;
            delivered = λ f m.
                o.delivered f _
                ∙ ground (
                  arith,
                  (decide_ref-ref x (lookup x gh) (lookup x fj) (push a) e).0 a refl,
                  lookup-insert r a.ref a.sha m,
                );
            noted = o.noted;
          }
    ]
    outcome r (kept {ref = x} e t) n h = elim (string_eq.dec x r) [
      | yes p ↦ record {
        d = same;
        decided = rw (← p) e;
        delivered = λ f m. deliver-other r f m t (ground arith);
        noted = conflict_at-other r t (ground arith);
      }
      | no q ↦ outcome r t n.1 (ground arith)
    ]
    outcome r (recorded {ref = x} {c = c} e t) n h =
        let key = (decide_ref-ref x (lookup x gh) (lookup x fj) (diverged c) e).1 c refl in
        elim (string_eq.dec x r) [
          | yes p ↦ record {
            d = diverged c;
            decided = rw (← p) e;
            delivered = λ f m. deliver-other r f m t (ground arith);
            noted = ground (arith, key);
          }
          | no q ↦
              let o = outcome r t n.1 (ground arith) in
              record {
                d = o.d;
                decided = o.decided;
                delivered = o.delivered;
                noted = ground (arith, key, o.noted);
              }
        ]

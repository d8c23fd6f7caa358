-- ===== src/Crossplane/Taken.antt =====
-- What `RunFunction` does where a desired resource describes the composite, and where none does.
use crossform.Common.{
  elem, String, ◌≡◌, sym, ap, ◌∙◌, Bool, true, false, some, [], ◌∷◌, arith, inl, inr, Bool-cases,
  All,
}
use crossform.Common.Dict.{Dict, lookup, map_values, map_option}
use crossform.Common.Json.{Fields}
use crossform.Common.Outcome.{ok, panic, ◌>>=◌, bind-eq-ok, Outcome-cases}
use crossform.Executor.Types.{DesiredComposed, ExecResult, ObservedComposed}
use crossform.Executor.Exec.{each}
use crossform.Crossplane.Asked.{choice, lookup-cleaned}
use crossform.Crossplane.Composite.{is_composite, take_round, take_composite}
use crossform.Crossplane.Compared.{is_composite-ne-fail}
use crossform.Crossplane.Desired.{keep_deferred, clean_desired, desired_of}

-- Resources of which none describes the composite.
abbrev pub AreOthers : Fields → Dict DesiredComposed → Type 0
AreOthers xr m = All (λ (e : String × DesiredComposed). is_composite e.1.resource xr ≡ ok false) m

-- A loop that returns leaves its state, and has found no resource that describes the composite.
each-AreOthers :
    (m d : Dict DesiredComposed) (xr : Fields) (t : Dict DesiredComposed × Fields)
    → each take_round m (d, xr) ≡ ok t
    → (t ≡ (d, xr)) × AreOthers xr m
unfolding each
each-AreOthers [] d xr t h = (ground arith, tt)
each-AreOthers ((k, v) ∷ m) d xr t h =
    let (s, p, h₁) = bind-eq-ok (take_round k v (d, xr)) _ h in
    let (b, q, h₂) = bind-eq-ok (is_composite v.resource xr) _ p in
    elim (Bool-cases b) [
      | inl same ↦ absurd (ground arith)
      | inr other ↦
          let e : s ≡ (d, xr) = ground arith in
          let (left, others) = each-AreOthers m d xr t (ap (each take_round m) (sym e) ∙ h₁) in
          (left, (q ∙ ap ok other, others))
    ]

pub take_composite-AreOthers :
    (d : Dict DesiredComposed) (xr : Fields) (t : Dict DesiredComposed × Fields)
    → take_composite d xr ≡ ok t
    → (t ≡ (d, xr)) × AreOthers xr d
unfolding take_composite
take_composite-AreOthers d xr t h = each-AreOthers d d xr t h

each-panics :
    (m d : Dict DesiredComposed) (xr : Fields) (k : String) (v : DesiredComposed)
    → lookup k m ≡ some v
    → is_composite v.resource xr ≡ ok true
    → each take_round m (d, xr) ≡ panic
unfolding each lookup ◌>>=◌
each-panics [] d xr k v there same = absurd (ground arith)
each-panics ((j, u) ∷ m) d xr k v there same = elim (Outcome-cases (is_composite u.resource xr)) [
  | inr (inl (e, p)) ↦ absurd (is_composite-ne-fail u.resource xr e p)
  | inr (inr p) ↦ ground arith
  | inl (true, p) ↦ ground arith
  | inl (false, p) ↦ ground (arith, each-panics m d xr k v)
]

-- If the resources of a response can be made, then under each name the response asks for what the
-- result has there, cleaned, and where a resource is deferred and exists, for the observed one
-- instead; the composite is the observed one; and without a critical error, none of the resources
-- describes the composite itself, by version, kind and name.
pub desired_of-takes :
    (observed : Dict ObservedComposed) (is_fatal : Bool) (r : ExecResult) (xr xr' : Fields)
    (d : Dict DesiredComposed)
    → desired_of observed is_fatal r xr ≡ ok (d, xr')
    → ((k : String)
        → lookup k d
          ≡ map_option clean_desired
              (choice (elem k r.deferred) (lookup k observed) (lookup k r.desired)))
      × (xr' ≡ xr)
      × (is_fatal ≡ false → AreOthers xr d)
unfolding desired_of
desired_of-takes observed true r xr xr' d h =
    (λ k. ground (arith, lookup-cleaned observed r k), ground arith, λ no'. absurd (ground arith))
desired_of-takes observed false r xr xr' d h =
    let all = map_values clean_desired (keep_deferred observed r.deferred r.desired) in
    let (left, others) = take_composite-AreOthers all xr (d, xr') h in
    let e : d ≡ all = ap (λ (t : Dict DesiredComposed × Fields). t.0) left in
    (
      λ k. ap (lookup k) e ∙ lookup-cleaned observed r k,
      ap (λ (t : Dict DesiredComposed × Fields). t.1) left,
      λ plain. rw e others,
    )

-- If there is no critical error, and some resource that would be asked for describes the composite,
-- by version, kind and name, then the function panics and there is no answer.
pub desired_of-panics :
    (observed : Dict ObservedComposed) (r : ExecResult) (xr : Fields) (k : String)
    (v : DesiredComposed)
    → choice (elem k r.deferred) (lookup k observed) (lookup k r.desired) ≡ some v
    → is_composite (clean_desired v).resource xr ≡ ok true
    → desired_of observed false r xr ≡ panic
unfolding desired_of take_composite
desired_of-panics observed r xr k v there same =
    let all = map_values clean_desired (keep_deferred observed r.deferred r.desired) in
    each-panics all all xr k (clean_desired v)
      (lookup-cleaned observed r k ∙ ap (map_option clean_desired) there) same

-- ===== src/Executor/Requests.antt =====
-- `makeRequestResult` collects the selectors of the requests.
use crossform.Common.{
  String, ◌≡◌, sym, Option, none, some, [], ◌∷◌, arith, eq_iff, Option-cases, inl, inr,
  String-cases, ◌∙◌,
}
use crossform.Common.Dict.{Dict, lookup, put, lookup-put}
use crossform.Common.Outcome.{ok, ◌>>=◌, bind-eq-ok}
use crossform.Executor.Types.{Request, Crossform, ResourceSelector}
use crossform.Executor.Exec.{each, selector_of, add_request, make_request_result}

pub add_request-inv :
    (k : String) (v : Crossform) (m m' : Dict ResourceSelector)
    → add_request k v m ≡ ok m'
    → (q : Request) × (v.request ≡ some q) × (lookup k m ≡ none) × (m' ≡ put k (selector_of q) m)
unfolding ◌>>=◌
add_request-inv k v m m' h = elim (Option-cases v.request) [
  | inl nil ↦ absurd (ground arith)
  | inr (q, p) ↦ (q, p, ground arith, ground arith)
]

-- What was collected before stays.
make_request_result-keeps :
    (request : Dict Crossform) (m m' : Dict ResourceSelector) (k : String) (s : ResourceSelector)
    → make_request_result m request ≡ ok m'
    → lookup k m ≡ some s
    → lookup k m' ≡ some s
unfolding make_request_result each
make_request_result-keeps [] m m' k s h p = ground arith
make_request_result-keeps ((j, v) ∷ request) m m' k s h p =
    let (t, first, rest) = bind-eq-ok (add_request j v m) (each add_request request) h in
    let (q, some_q, fresh, e) = add_request-inv j v m t first in
    make_request_result-keeps request t m' k s rest
      (ground (arith, lookup-put j k (selector_of q) m, eq_iff j k))

-- A name that no request of the file has keeps what it had.
make_request_result-other :
    (request : Dict Crossform) (m m' : Dict ResourceSelector) (k : String)
    → make_request_result m request ≡ ok m'
    → lookup k request ≡ none
    → lookup k m' ≡ lookup k m
unfolding make_request_result each lookup
make_request_result-other [] m m' k h p = ground arith
make_request_result-other ((j, v) ∷ request) m m' k h p =
    let (t, first, rest) = bind-eq-ok (add_request j v m) (each add_request request) h in
    let (q, some_q, fresh, e) = add_request-inv j v m t first in
    make_request_result-other request t m' k rest (ground (arith, eq_iff j k))
    ∙ ground (arith, lookup-put j k (selector_of q) m, eq_iff j k)

make_request_result-each :
    (request : Dict Crossform) (m m' : Dict ResourceSelector) (k : String) (c : Crossform)
    → make_request_result m request ≡ ok m'
    → lookup k request ≡ some c
    → (q : Request) × (c.request ≡ some q)
      × (lookup k m ≡ none)
      × (lookup k m' ≡ some (selector_of q))
unfolding make_request_result each lookup
make_request_result-each [] m m' k c h p = absurd (ground arith)
make_request_result-each ((j, v) ∷ request) m m' k c h p =
    let (t, first, rest) = bind-eq-ok (add_request j v m) (each add_request request) h in
    let (q, some_q, fresh, e) = add_request-inv j v m t first in
    elim (String-cases j k) [
      | inl same ↦ (
        q,
        ground (arith, eq_iff j k),
        rw same at fresh,
        make_request_result-keeps request t m' k (selector_of q) rest
            (ground (arith, lookup-put j k (selector_of q) m, eq_iff j k)),
      )
      | inr other ↦
          let here : lookup k t ≡ lookup k m =
            ground (arith, lookup-put j k (selector_of q) m, eq_iff j k) in
          let (q', a, b, d) =
            make_request_result-each request t m' k c rest (ground (arith, eq_iff j k)) in
          (q', a, sym here ∙ b, d)
    ]

-- What a name of a file's requests, or another name, has after they are merged.
abbrev pub Collected : Option Crossform → Option ResourceSelector → Option ResourceSelector → Type 0
Collected none old new = new ≡ old
Collected (some c) old new =
    (q : Request) × (c.request ≡ some q) × (old ≡ none) × (new ≡ some (selector_of q))

-- If the requests of a file are merged without an error, then every request of the file has its
-- description, had no selector under its name before, and has its own selector now; and every other
-- selector is as it was.
pub make_request_result-collects :
    (request : Dict Crossform) (m m' : Dict ResourceSelector) (k : String)
    → make_request_result m request ≡ ok m'
    → Collected (lookup k request) (lookup k m) (lookup k m')
make_request_result-collects request m m' k h = elim (Option-cases (lookup k request)) [
  | inl absent ↦ rw absent (make_request_result-other request m m' k h absent)
  | inr (c, p) ↦ rw p (make_request_result-each request m m' k c h p)
]

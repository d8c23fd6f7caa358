-- ===== src/Executor/Folds.antt =====
-- What a loop over a map writes into a table, by key.
use crossform.Common.{
  String, ◌≡◌, refl, ap, ◌∙◌, false, Option, none, some, [], ◌∷◌, arith, eq_iff, ◌==◌,
  if◌then◌else◌, String-cases, inl, inr,
}
use crossform.Common.Dict.{Dict, lookup, has, map_option, IsMap}
use crossform.Common.Outcome.{Outcome, ok, bind-eq-ok}
use crossform.Executor.Exec.{each, fold}

-- A loop whose rounds, where they do not stop the run, do what `g` does.
pub each-eq-fold :
    {V S : Type 0} (f : String → V → S → Outcome S) (g : String → V → S → S)
    → ((k : String) (v : V) (s s' : S) → f k v s ≡ ok s' → s' ≡ g k v s)
    → (m : Dict V) (s s' : S) → each f m s ≡ ok s'
    → s' ≡ fold g m s
unfolding each fold
each-eq-fold f g does [] s s' h = ground arith
each-eq-fold f g does ((k, v) ∷ m) s s' h =
    let (t, first, rest) = bind-eq-ok (f k v s) (each f m) h in
    each-eq-fold f g does m t s' rest ∙ ap (fold g m) (does k v s t first)

-- The entry that is written, or else the one that was there.
abbrev pub or_old : {W : Type 0} → Option W → Option W → Option W
or_old none old = old
or_old (some w) old = some w

-- What a round for an entry writes, if there is the entry.
abbrev pub written : {V W : Type 0} → (V → Option W) → Option V → Option W
written text none = none
written text (some v) = text v

absent : {V : Type 0} (k j : String) (m : Dict V) → k ≡ j → has k m ≡ false → lookup j m ≡ none
absent k j m same h = ground (arith, ap (λ (i : String). lookup i m) same)

module _ {V S W : Type 0} (field : S → Dict W) (f : String → V → S → S)
    (text : String → V → Option W)
    (writes : (k j : String) (v : V) (s : S)
      → lookup j (field (f k v s))
        ≡ (if k == j then or_old (text k v) (lookup j (field s)) else lookup j (field s))) where
  lookup-fold_absent :
      (m : Dict V) (j : String) (s : S)
      → lookup j m ≡ none
      → lookup j (field (fold f m s)) ≡ lookup j (field s)
  unfolding fold lookup
  lookup-fold_absent [] j s h = refl
  lookup-fold_absent ((k, v) ∷ m) j s h =
      lookup-fold_absent m j (f k v s) (ground (arith, eq_iff k j))
      ∙ ground (arith, writes k j v s, eq_iff k j)

  -- An entry of the map writes its own key, whenever it is visited.
  pub lookup-fold :
      (m : Dict V) (j : String) (s : S)
      → IsMap m
      → lookup j (field (fold f m s)) ≡ or_old (written (text j) (lookup j m)) (lookup j (field s))
  unfolding fold lookup
  lookup-fold [] j s h = refl
  lookup-fold ((k, v) ∷ m) j s h = elim (String-cases k j) [
    | inl same ↦
        lookup-fold_absent m j (f k v s) (absent k j m same h.0)
        ∙ ground (arith, writes k j v s, eq_iff k j, ap (λ (i : String). text i v) same)
    | inr other ↦ lookup-fold m j (f k v s) h.1 ∙ ground (arith, writes k j v s, eq_iff k j)
  ]

pub fold-keeps :
    {V S A : Type 0} (field : S → A) (f : String → V → S → S)
    → ((k : String) (v : V) (s : S) → field (f k v s) ≡ field s)
    → (m : Dict V) (s : S) → field (fold f m s) ≡ field s
unfolding fold
fold-keeps field f keeps [] s = refl
fold-keeps field f keeps ((k, v) ∷ m) s = fold-keeps field f keeps m (f k v s) ∙ keeps k v s

pub written-some :
    {V W : Type 0} (f : V → W) (o : Option V) → written (λ v. some (f v)) o ≡ map_option f o
written-some f none = refl
written-some f (some v) = refl

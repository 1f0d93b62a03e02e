-- ===== src/Prelude/Dicts.antt =====
-- Python's `dict` with text keys, in insertion order.

use Prim.Native.String.{String, compare}
use Prim.Native.Nat.{Ordering}
use mathlib.Core.Path.{◌≡◌, refl, subst, ◌∙◌}
use mathlib.Core.Logic.{inl, inr}
use mathlib.Core.Bool.{Bool}
use mathlib.Core.Option.{Option, none, some}
use mathlib.Core.List.{List, [], ◌∷◌, ◌++◌}
use native.Mathlib.Omega.{arith}
use text.Mathlib.Text.{◌==◌}
use text.Mathlib.TextEquality.{eq_iff}
use loop_skill.Prelude.Tests.{if◌then◌else◌, is_some, Bool-cases}

abbrev pub Dict {ℓ} : Type ℓ → Type ℓ
Dict V = List (String × V)

module _ {ℓ} {V : Type ℓ} where
  -- `d.get(k)`
  unfoldable pub lookup : String → Dict V → Option V
  lookup k [] = none
  lookup k ((j, v) ∷ d) = if j == k then some v else lookup k d

  -- `d[k] = v`: in place, or at the end
  unfoldable pub insert : String → V → Dict V → Dict V
  insert k v [] = (k, v) ∷ []
  insert k v ((j, w) ∷ d) = if j == k then (j, v) ∷ d else (j, w) ∷ insert k v d

  -- `k in d`
  abbrev pub contains : String → Dict V → Bool
  contains k d = is_some (lookup k d)

  abbrev pub keys : Dict V → List String
  keys [] = []
  keys ((j, v) ∷ d) = j ∷ keys d

  abbrev pub values : Dict V → List V
  values [] = []
  values ((j, v) ∷ d) = v ∷ values d

  -- the entries whose value passes a test
  abbrev pub select : (V → Bool) → Dict V → Dict V
  select test [] = []
  select test ((j, v) ∷ d) = let rest = select test d in if test v then (j, v) ∷ rest else rest

  -- an entry before the first greater key
  unfoldable pub place : String × V → Dict V → Dict V
  place e [] = e ∷ []
  place e (f ∷ d) =
      let rest = place e d in elim (compare e.0 f.0) [ Ordering.gt ↦ f ∷ rest | _ ↦ e ∷ f ∷ d ]

  -- `sorted(d.items())`
  unfoldable pub sorted_items : Dict V → Dict V
  unfolding place
  sorted_items [] = []
  sorted_items (e ∷ d) = place e (sorted_items d)

  pub lookup-insert :
      (k j : String) (v : V) (d : Dict V)
      → lookup j (insert k v d) ≡ (if k == j then some v else lookup j d)
  unfolding lookup insert
  lookup-insert k j v [] = refl
  lookup-insert k j v ((i, w) ∷ d) =
      ground (arith, eq_iff k j, eq_iff i k, eq_iff i j, lookup-insert k j v d)

  pub lookup-append :
      (k : String) (v : V) (d e : Dict V) → lookup k d ≡ some v → lookup k (d ++ e) ≡ some v
  unfolding lookup
  lookup-append k v [] e h = cc
  lookup-append k v ((j, w) ∷ d) e h = elim (Bool-cases (j == k)) [
    | inl same ↦ rw same (rw same at h)
    | inr other ↦ rw other (lookup-append k v d e (rw other at h))
  ]

  -- A property of every entry, as a predicate that computes along the list.
  abbrev pub Every {κ} : (V → Type κ) → Dict V → Type κ
  Every P [] = Unit
  Every P ((j, v) ∷ d) = P v × Every P d

  pub Every-lookup {κ} :
      (P : V → Type κ) (k : String) (v : V) (d : Dict V) → Every P d → lookup k d ≡ some v → P v
  unfolding lookup
  Every-lookup P k v [] h e = cc
  Every-lookup P k v ((j, w) ∷ d) h e = elim (Bool-cases (j == k)) [
    | inl same ↦ subst P (ground arith) h.0
    | inr other ↦ Every-lookup P k v d h.1 (ground arith)
  ]

  pub Every-insert {κ} :
      (P : V → Type κ) (k : String) (v : V) (d : Dict V) → Every P d → P v → Every P (insert k v d)
  unfolding insert
  Every-insert P k v [] h p = (p, tt)
  Every-insert P k v ((j, w) ∷ d) h p = elim (Bool-cases (j == k)) [
    | inl same ↦ rw same (p, h.1)
    | inr other ↦ rw other (h.0, Every-insert P k v d h.1 p)
  ]

  -- no key stands twice
  abbrev pub Keyed : Dict V → Type ℓ
  Keyed [] = Unit
  Keyed ((j, v) ∷ d) = (lookup j d ≡ none) × Keyed d

  pub Keyed-insert : (k : String) (v : V) (d : Dict V) → Keyed d → Keyed (insert k v d)
  unfolding insert lookup
  Keyed-insert k v [] h = (refl, tt)
  Keyed-insert k v ((j, w) ∷ d) h = elim (Bool-cases (j == k)) [
    | inl same ↦ rw same h
    | inr other ↦
        rw other
          (ground (arith, lookup-insert k j v d, eq_iff j k, eq_iff k j), Keyed-insert k v d h.1)
  ]

  -- a dictionary in the order of its keys reads as before
  lookup-place :
      (k : String) (e : String × V) (d : Dict V)
      → lookup e.0 d ≡ none
      → lookup k (place e d) ≡ (if e.0 == k then some e.1 else lookup k d)
  unfolding place lookup
  lookup-place k (j, v) [] absent = refl
  lookup-place k (j, v) ((i, w) ∷ d) absent =
      elim (compare j i)
        as (λ o.
          lookup k (elim o [ Ordering.gt ↦ (i, w) ∷ place (j, v) d | _ ↦ (j, v) ∷ (i, w) ∷ d ])
          ≡ (if j == k then some v else (if i == k then some w else lookup k d))) [
            | Ordering.gt ↦
                ground (arith, lookup-place k (j, v) d, eq_iff i k, eq_iff j k, eq_iff i j)
            | Ordering.lt ↦ refl
            | Ordering.eq ↦ refl
          ]

  Keyed-place : (e : String × V) (d : Dict V) → lookup e.0 d ≡ none → Keyed d → Keyed (place e d)
  unfolding place lookup
  Keyed-place (j, v) [] absent h = (refl, tt)
  Keyed-place (j, v) ((i, w) ∷ d) absent h =
      elim (compare j i)
        as (λ o.
          Keyed (elim o [ Ordering.gt ↦ (i, w) ∷ place (j, v) d | _ ↦ (j, v) ∷ (i, w) ∷ d ])) [
            | Ordering.gt ↦ (
              ground (arith, lookup-place i (j, v) d, eq_iff i j, eq_iff j i),
              Keyed-place (j, v) d (ground arith) h.1,
            )
            | Ordering.lt ↦ (absent, h)
            | Ordering.eq ↦ (absent, h)
          ]

  pub lookup-sorted_items :
      (k : String) (d : Dict V) → Keyed d → lookup k (sorted_items d) ≡ lookup k d
  unfolding sorted_items lookup
  lookup-sorted_items k [] h = refl
  lookup-sorted_items k ((j, v) ∷ d) h =
      lookup-place k (j, v) (sorted_items d) (lookup-sorted_items j d h.1 ∙ h.0)
      ∙ rw (lookup-sorted_items k d h.1) refl

  pub Keyed-sorted_items : (d : Dict V) → Keyed d → Keyed (sorted_items d)
  unfolding sorted_items
  Keyed-sorted_items [] h = tt
  Keyed-sorted_items ((j, v) ∷ d) h =
      Keyed-place (j, v) (sorted_items d) (lookup-sorted_items j d h.1 ∙ h.0)
        (Keyed-sorted_items d h.1)

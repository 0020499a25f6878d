-- ===== src/Common/Dict.antt =====
-- Python's `dict` with text keys, in insertion order.
use mini_codex.Common.{
  Text, ◌≡◌, refl, Option, none, some, List, [], ◌∷◌, arith, same, same_iff, if◌then◌else◌,
}

abbrev pub Dict {ℓ} : Type ℓ → Type ℓ
Dict V = List (Text × V)

module _ {ℓ} {V : Type ℓ} where
  -- `d.get(k)`
  unfoldable pub lookup : Text → Dict V → Option V
  lookup k [] = none
  lookup k ((j, v) ∷ d) = if same j k then some v else lookup k d

  -- `d[k] = v`: a key that is there keeps its place.
  unfoldable pub assign : Text → V → Dict V → Dict V
  assign k v [] = (k, v) ∷ []
  assign k v ((j, w) ∷ d) = if same j k then (k, v) ∷ d else (j, w) ∷ assign k v d

  -- `d.setdefault(k, v)`
  unfoldable pub setdefault : Text → V → Dict V → Dict V
  setdefault k v [] = (k, v) ∷ []
  setdefault k v ((j, w) ∷ d) = if same j k then (j, w) ∷ d else (j, w) ∷ setdefault k v d

  -- `d.pop(k, None)`
  unfoldable pub pop : Text → Dict V → Dict V
  pop k [] = []
  pop k ((j, w) ∷ d) = let rest = pop k d in if same j k then rest else (j, w) ∷ rest

  -- `dict(items)`: a later item of a key replaces the value of an earlier one.
  unfoldable pub dict_from : Dict V → List (Text × V) → Dict V
  dict_from d [] = d
  dict_from d ((k, v) ∷ items) = dict_from (assign k v d) items

  pub lookup-assign :
      (k j : Text) (v : V) (d : Dict V)
      → lookup j (assign k v d) ≡ (if same k j then some v else lookup j d)
  unfolding lookup assign
  lookup-assign k j v [] = refl
  lookup-assign k j v ((i, w) ∷ d) =
      ground (arith, same_iff k j, same_iff i k, same_iff i j, lookup-assign k j v d)

  pub lookup-pop :
      (k j : Text) (d : Dict V) → lookup j (pop k d) ≡ (if same k j then none else lookup j d)
  unfolding lookup pop
  lookup-pop k j [] = ground arith
  lookup-pop k j ((i, w) ∷ d) =
      ground (arith, same_iff k j, same_iff i k, same_iff i j, lookup-pop k j d)

  pub lookup-setdefault :
      (k j : Text) (v : V) (d : Dict V)
      → lookup j (setdefault k v d)
        ≡ (if same k j then some (elim (lookup k d) [ none ↦ v | some w ↦ w ]) else lookup j d)
  unfolding lookup setdefault
  lookup-setdefault k j v [] = refl
  lookup-setdefault k j v ((i, w) ∷ d) =
      ground (arith, same_iff k j, same_iff i k, same_iff i j, lookup-setdefault k j v d)

-- ===== src/Validation/Regression.antt =====
-- minicodex/agent/validation/regression_policy.py. `casefold` is `str.casefold` and `path_name` is
-- `PurePosixPath(path).name`.
use mini_codex.Common.{
  ◌≡◌, ◌↔◌, ◌⊎◌, Bool, true, false, not, ◌&&◌, ◌||◌, Option, none, some, List, [], ◌∷◌, map, arith,
  Text, codes, strip, is_empty, ◌==◌, any, all, keep, null, get_or, if◌then◌else◌,
}

-- minicodex/agent/routing/execution_mode.py
pub data ExecutionMode : Type 0 where
  fast standard complex : ExecutionMode

pub data RegressionRequirement : Type 0 where
  required not_applicable relevant_only unknown_requirement : RegressionRequirement

-- `s.startswith(p)`
unfoldable pub starts_with : Text → Text → Bool
starts_with [] s = true
starts_with (c ∷ p) [] = false
starts_with (c ∷ p) (d ∷ s) = c == d && starts_with p s

-- `p in s`
unfoldable pub contains : Text → Text → Bool
unfolding starts_with
contains p [] = is_empty p
contains p (c ∷ s) = starts_with p (c ∷ s) || contains p s

abbrev non_product_prefixes : List Text
non_product_prefixes = codes "try_code/" ∷ codes "examples/" ∷ codes "docs/" ∷ []

abbrev core_prefixes : List Text
core_prefixes =
    codes "minicodex/agent/" ∷ codes "minicodex/tools/" ∷ codes "minicodex/evaluation/" ∷ []

abbrev risks : List Text
risks = codes "auth" ∷ codes "security" ∷ codes "payment" ∷ codes "migration" ∷ []

-- `text.lstrip("./")`
unfoldable pub lstrip_dot_slash : Text → Text
lstrip_dot_slash [] = []
lstrip_dot_slash (c ∷ s) = if c == b'.' || c == b'/' then lstrip_dot_slash s else c ∷ s

unfoldable pub normalize : Text → Text
unfolding lstrip_dot_slash
normalize path = lstrip_dot_slash (map (λ c. if c == 92 then b'/' else c) (strip path))

abbrev is_complex : Option ExecutionMode → Bool
is_complex (some complex) = true
is_complex _ = false

abbrev is_standard : Option ExecutionMode → Bool
is_standard (some standard) = true
is_standard _ = false

abbrev is_fast : Option ExecutionMode → Bool
is_fast (some fast) = true
is_fast _ = false

module _ (casefold path_name : Text → Text) where
  unfoldable pub is_non_product : Text → Bool
  is_non_product path =
      any (λ p. starts_with p path) non_product_prefixes
      || starts_with (codes "readme") (casefold (path_name path))

  unfoldable pub is_risky : Text → Bool
  is_risky path = any (λ risk. contains risk (casefold path)) risks

  unfoldable pub is_core : Text → Bool
  is_core path = any (λ p. starts_with p path) core_prefixes

  unfoldable pub requirement_of :
      Option ExecutionMode → List Text → Option RegressionRequirement → RegressionRequirement
  requirement_of mode paths default =
      if any is_risky paths
      then (if is_complex mode then required else relevant_only)
      else if not (null paths) && all is_non_product paths
      then not_applicable
      else if is_complex mode
      then required
      else if any is_core paths
      then (if not (is_complex mode) then relevant_only else required)
      else if is_standard mode
      then relevant_only
      else if is_fast mode && not (null paths)
      then relevant_only
      else get_or default unknown_requirement

  unfoldable pub changed : List Text → List Text
  changed paths = map normalize (keep (λ p. not (is_empty (strip p))) paths)

  unfoldable pub requirement_for :
      Option ExecutionMode → List Text → Option RegressionRequirement → RegressionRequirement
  requirement_for mode changed_paths default = requirement_of mode (changed changed_paths) default

  -- Without a default, regression is waived exactly for a change of documents and samples alone:
  -- there is a changed path, every one is outside the product, and none is risky.
  pub requirement_for-not_applicable :
      (mode : Option ExecutionMode) (changed_paths : List Text)
      → (requirement_for mode changed_paths none ≡ not_applicable) ↔ (
          (null (changed changed_paths) ≡ false)
          × (all is_non_product (changed changed_paths) ≡ true)
          × (any is_risky (changed changed_paths) ≡ false))
  unfolding requirement_for requirement_of
  requirement_for-not_applicable mode changed_paths = (λ h. ground arith, λ h. ground arith)

  -- Without a default, full regression is demanded exactly in complex mode, for any change but one
  -- of documents and samples alone.
  pub requirement_for-required :
      (mode : Option ExecutionMode) (changed_paths : List Text)
      → (requirement_for mode changed_paths none ≡ required) ↔ (
          (mode ≡ some complex)
          × ((any is_risky (changed changed_paths) ≡ true)
              ⊎ (not (null (changed changed_paths)) && all is_non_product (changed changed_paths)
                  ≡ false)))
  unfolding requirement_for requirement_of
  requirement_for-required mode changed_paths = (λ h. ground arith, λ h. ground arith)

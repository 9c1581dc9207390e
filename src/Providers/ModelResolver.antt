-- ===== src/Providers/ModelResolver.antt =====
-- crates/zorch-providers/src/model_resolver.rs. The shuffle of a group is rand's, on the state `W`.
pub mod Order
pub mod Examples
use zorch.Prelude.{
  ℕ, Bool, true, false, not, String, Option, none, some, List, [], ◌∷◌, ◌++◌, map, unwrap_or,
  if◌then◌else◌,
}
use zorch.Prelude.Int.{ℤ, int_leb, int_beq}
use zorch.Prelude.Classes.{◌==◌, string_eq}
use zorch.Prelude.Map.{lookup, insert}

pub record Target : Type 0 where
  pub provider_id : String
  pub target_model : String
  pub priority : ℤ  -- i32

pub record ModelResolver : Type 0 where
  pub index : List (String × List Target)

unfoldable pub new : ModelResolver
new = record { index = [] }

-- `entry(public_model).or_default().push(target)`
unfoldable pub add_target : String → Target → ModelResolver → ModelResolver
add_target public_model target resolver = record {
  index =
      insert public_model (unwrap_or (lookup public_model resolver.index) [] ++ target ∷ [])
        resolver.index;
}

unfoldable pub active_of : List Target → List Target
active_of [] = []
active_of (t ∷ ts) = let rest = active_of ts in if t.provider_id == "" then rest else t ∷ rest

-- `sort_by` is stable: a target comes before the later ones of its priority.
unfoldable pub place : Target → List Target → List Target
place t [] = t ∷ []
place t (u ∷ us) =
    let later = place t us in if int_leb u.priority t.priority then t ∷ u ∷ us else u ∷ later

unfoldable pub sort_by_priority : List Target → List Target
sort_by_priority [] = []
sort_by_priority (t ∷ ts) = place t (sort_by_priority ts)

module _ {W : Type 0} (shuffle : List Target → W → List Target × W) where
  -- `group` is active[start..end], whose priority is `priority`, and the list what follows it.
  unfoldable pub shuffle_groups : ℤ → List Target → List Target → W → List Target × W
  shuffle_groups priority group [] w = shuffle group w
  shuffle_groups priority group (t ∷ ts) w = elim (int_beq t.priority priority) [
    | true ↦ shuffle_groups priority (group ++ t ∷ []) ts w
    | false ↦
        let (mixed, w') = shuffle group w in
        let (rest, w'') = shuffle_groups t.priority (t ∷ []) ts w' in (mixed ++ rest, w'')
  ]

  unfoldable pub shuffle_equals : List Target → W → List Target × W
  shuffle_equals [] w = ([], w)
  shuffle_equals (t ∷ ts) w = shuffle_groups t.priority (t ∷ []) ts w

  unfoldable pub resolve : ModelResolver → String → W → List Target × W
  resolve resolver public_model w = elim (lookup public_model resolver.index) [
    | none ↦ ([], w)
    | some targets ↦ shuffle_equals (sort_by_priority (active_of targets)) w
  ]

unfoldable pub public_models : ModelResolver → List String
public_models resolver = map (λ entry. entry.0) resolver.index

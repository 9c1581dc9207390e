-- ===== src/Api/Models.antt =====
-- list_models_handler and get_model_handler of crates/zorch-api/src/routes/v1/proxy/mod.rs. `now` is
-- the time in seconds.
mod Examples
use mathlib.Core.List.{Mem, Perm, mem-cons}
use mathlib.Core.List.Perm
use zorch.Prelude.{
  ℕ, Bool, true, String, Option, none, some, List, [], ◌∷◌, map, ◌≡◌, refl, sym, inl, arith,
}
use zorch.Prelude.Int.{int_leb, int_leb_refl}
use zorch.Prelude.Classes.{string_eq}
use zorch.Prelude.Map.{lookup}
use zorch.Shared.Errors.{Result, ok, err, AppError, Message, text, not_found}
use zorch.Providers.ModelResolver.{Target, ModelResolver, active_of, resolve, public_models}
use zorch.Providers.ModelResolver.Order.{IsDescending, Bounds-cons, resolve-sorted}

pub record ModelEntry : Type 0 where
  pub id : String
  pub object : String
  pub created : ℕ
  pub owned_by : String

unfoldable pub list_models_handler : ModelResolver → ℕ → List ModelEntry
list_models_handler resolver now =
    map (λ m. record { id = m; object = "model"; created = now; owned_by = "zorch" })
      (public_models resolver)

unfoldable pub entry_of : String → ℕ → List Target → Result ModelEntry
entry_of model_id now [] =
    err (not_found (text "Model '" ∷ text model_id ∷ text "' not found" ∷ []))
entry_of model_id now (target ∷ targets) =
    ok (record { id = model_id; object = "model"; created = now; owned_by = target.provider_id })

module _ {W : Type 0} (shuffle : List Target → W → List Target × W) where
  unfoldable pub get_model_handler : ModelResolver → String → ℕ → W → Result ModelEntry × W
  get_model_handler resolver model_id now w =
      let (targets, w') = resolve shuffle resolver model_id w in (entry_of model_id now targets, w')

  entry_of-owner :
      (model_id : String) (now : ℕ) (targets active : List Target) (entry : ModelEntry)
      → Perm targets active
      → IsDescending targets
      → entry_of model_id now targets ≡ ok entry
      → (target : Target) × Mem target active
        × (entry.owned_by ≡ target.provider_id)
        × ((t : Target) → Mem t active → int_leb t.priority target.priority ≡ true)
  unfolding entry_of IsDescending
  entry_of-owner model_id now [] active entry p d h = ground (arith, h)
  entry_of-owner model_id now (target ∷ targets) active entry p d h = (
    target,
    Perm.subset p target (mem-cons.1 (∣ inl refl ∣₁)),
    ground (arith, h),
    λ t m.
        Bounds-cons target.priority target targets (int_leb_refl target.priority) d.0 t
          (Perm.subset (Perm.symm p) t m),
  )

  -- The owner of a model that is found is the provider of one of its active targets, and no active
  -- target has a higher priority than that one: the shuffle permutes its group.
  pub get_model_handler-owner :
      ((ts : List Target) (w : W) → Perm (shuffle ts w).0 ts)
      → (resolver : ModelResolver) (model_id : String) (targets : List Target) (now : ℕ) (w : W)
        (entry : ModelEntry)
      → lookup model_id resolver.index ≡ some targets
      → (get_model_handler resolver model_id now w).0 ≡ ok entry
      → (target : Target) × Mem target (active_of targets)
        × (entry.owned_by ≡ target.provider_id)
        × ((t : Target) → Mem t (active_of targets) → int_leb t.priority target.priority ≡ true)
  unfolding get_model_handler
  get_model_handler-owner shuffle_perm resolver model_id targets now w entry known h =
      let (same, sorted) = resolve-sorted shuffle shuffle_perm resolver model_id targets w known in
      entry_of-owner model_id now (resolve shuffle resolver model_id w).0 (active_of targets) entry
        same sorted h

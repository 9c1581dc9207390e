-- ===== src/Api/Models/Examples.antt =====
-- The model of the resolver's examples.
use mathlib.Core.List.{Mem}
use mathlib.Core.List.Perm
use zorch.Prelude.{true, [], ◌∷◌, ◌≡◌, refl}
use zorch.Prelude.Int.{int_leb}
use zorch.Prelude.Classes.{string_eq}
use zorch.Prelude.Map.{lookup}
use zorch.Providers.ModelResolver.{
  Target, active_of, place, sort_by_priority, shuffle_groups, shuffle_equals, resolve,
}
use zorch.Providers.ModelResolver.Examples.{resolver, keep, slow, nobody, fast}
use zorch.Api.Models.{ModelEntry, entry_of, get_model_handler, get_model_handler-owner}

abbrev found : ModelEntry
found = record { id = "chat"; object = "model"; created = 7; owned_by = "groq" }

get_model_handler-owner_example :
    (target : Target) × Mem target (active_of (slow ∷ nobody ∷ fast ∷ []))
    × (found.owned_by ≡ target.provider_id)
    × ((t : Target)
        → Mem t (active_of (slow ∷ nobody ∷ fast ∷ []))
        → int_leb t.priority target.priority ≡ true)
unfolding lookup get_model_handler entry_of resolve active_of place sort_by_priority shuffle_groups
    shuffle_equals
get_model_handler-owner_example =
    get_model_handler-owner keep (λ ts w. Perm.refl ts) resolver "chat" (slow ∷ nobody ∷ fast ∷ [])
      7 tt found refl refl

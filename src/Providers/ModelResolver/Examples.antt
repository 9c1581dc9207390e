-- ===== src/Providers/ModelResolver/Examples.antt =====
-- Three targets of one model, of which one has no provider.
use mathlib.Core.List.{Perm}
use mathlib.Core.List.Perm
use zorch.Prelude.{ℕ, String, List, [], ◌∷◌, ◌≡◌, refl}
use zorch.Prelude.Int.{pos}
use zorch.Prelude.Classes.{string_eq}
use zorch.Prelude.Map.{lookup}
use zorch.Providers.ModelResolver.{
  Target, ModelResolver, active_of, place, sort_by_priority, shuffle_groups, shuffle_equals,
  resolve,
}
use zorch.Providers.ModelResolver.Order.{IsDescending, resolve-sorted}

abbrev pub target : String → String → ℕ → Target
target provider_id target_model n = record {
  provider_id = provider_id;
  target_model = target_model;
  priority = pos n;
}

abbrev pub slow : Target
slow = target "openai" "gpt-4o-mini" 1

abbrev pub fast : Target
fast = target "groq" "llama-3" 2

abbrev pub nobody : Target
nobody = target "" "gpt-4o" 3

abbrev pub resolver : ModelResolver
resolver = record { index = ("chat", slow ∷ nobody ∷ fast ∷ []) ∷ [] }

abbrev pub keep : List Target → Unit {0} → List Target × Unit {0}
keep ts w = (ts, w)

first : (resolve keep resolver "chat" tt).0 ≡ fast ∷ slow ∷ []
unfolding resolve active_of place sort_by_priority shuffle_groups shuffle_equals lookup
first = refl

resolve-sorted_example :
    Perm (resolve keep resolver "chat" tt).0 (active_of (slow ∷ nobody ∷ fast ∷ []))
    × IsDescending (resolve keep resolver "chat" tt).0
unfolding lookup
resolve-sorted_example =
    resolve-sorted keep (λ ts w. Perm.refl ts) resolver "chat" (slow ∷ nobody ∷ fast ∷ []) tt refl

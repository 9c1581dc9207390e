-- ===== src/Api/ApiKeys/Update/Placeholders.antt =====
-- The placeholders of the statement and its arguments.
use mathlib.Core.List.{append_assoc}
use zorch.Prelude.{
  ℕ, suc, ◌-◌, String, Option, none, some, List, [], ◌∷◌, ◌++◌, length, length-append, get_elem?,
  is_empty, ◌≡◌, refl, ap, ◌∙◌, arith, Bool-cases, inl, inr,
}
use zorch.Shared.Errors.{ok}
use zorch.Shared.Sql.{
  Cell, uuid, words, json, maybe_words, maybe_int, maybe_float, texts, maybe_texts,
}
use zorch.Api.ApiKeys.{ApiKeyTag, UpdateApiKeyRequest}
use zorch.Api.ApiKeys.Update.{Sets, add_set, all_sets, build_update_sql, bind_if, all_binds}

-- What a statement assigns: to each column the argument that its placeholder names, if there is one.
unfoldable pub assigned :
    {Json : Type 0} → List (String × ℕ) → List (Cell Json) → List (String × Option (Cell Json))
assigned [] cells = []
assigned ((column, n) ∷ sets) cells = (column, get_elem? cells (n - 1)) ∷ assigned sets cells

-- A field that is given is to be assigned.
unfoldable pub wanted_if :
    {Json A : Type 0}
    → Option A
    → (A → Cell Json)
    → String
    → List (String × Option (Cell Json))
    → List (String × Option (Cell Json))
wanted_if none cell column wanted = wanted
wanted_if (some a) cell column wanted = wanted ++ (column, some (cell a)) ∷ []

-- The fields of a request, each to its own column.
unfoldable pub all_wanted :
    {Json : Type 0}
    → (List ApiKeyTag → Json)
    → UpdateApiKeyRequest
    → List (String × Option (Cell Json))
all_wanted tags_json req = wanted_if req.allowed_models maybe_texts "allowed_models" (
    wanted_if req.max_spend_usd maybe_float "max_spend_usd" (
      wanted_if req.requests_per_day maybe_int "requests_per_day" (
        wanted_if req.requests_per_minute maybe_int "requests_per_minute" (
          wanted_if req.window_timezone maybe_words "window_timezone" (
            wanted_if req.allowed_hours_end maybe_int "allowed_hours_end" (
              wanted_if req.allowed_hours_start maybe_int "allowed_hours_start" (
                wanted_if req.tags (λ tags. json (tags_json tags)) "tags"
                  (wanted_if req.scopes texts "scopes" (wanted_if req.name words "name" [])))))))))

module _ {Json : Type 0} where
  assigned-append :
      (sets more : List (String × ℕ)) (cells : List (Cell Json))
      → assigned (sets ++ more) cells ≡ assigned sets cells ++ assigned more cells
  unfolding assigned
  assigned-append [] more cells = refl
  assigned-append ((column, n) ∷ sets) more cells =
      ap (λ r. (column, get_elem? cells (n - 1)) ∷ r) (assigned-append sets more cells)

  get_elem?-append :
      (xs ys : List (Cell Json)) (c : Cell Json) → get_elem? (xs ++ c ∷ ys) (length xs) ≡ some c
  get_elem?-append [] ys c = refl
  get_elem?-append (x ∷ xs) ys c = get_elem?-append xs ys c

  -- The arguments so far make the assignments so far, whatever is bound after them.
  abbrev Aligned : Sets → List (Cell Json) → List (String × Option (Cell Json)) → Type 0
  Aligned s cells wanted =
      (s.1 ≡ suc (length cells))
      × ((more : List (Cell Json)) → assigned s.0 (cells ++ more) ≡ wanted)

  Aligned-add :
      {A : Type 0} (o : Option A) (cell : A → Cell Json) (column : String) (s : Sets)
      (cells : List (Cell Json)) (wanted : List (String × Option (Cell Json)))
      → Aligned s cells wanted
      → Aligned (add_set o column s) (bind_if o cell cells) (wanted_if o cell column wanted)
  unfolding add_set bind_if wanted_if assigned
  Aligned-add none cell column s cells wanted h = h
  Aligned-add (some a) cell column s cells wanted h = (
    omega (arith, length-append cells (cell a ∷ []), h.0),
    λ more.
        let all = cells ++ cell a ∷ more in
        let position : s.1 - 1 ≡ length cells = omega (arith, h.0) in
        let before = h.1 (cell a ∷ more) in
        rw (append_assoc cells (cell a ∷ []) more) (
          assigned-append s.0 ((column, s.1) ∷ []) all
          ∙ rw (before, position, get_elem?-append cells more (cell a)) refl),
  )

  start : Aligned ([], 1) [] []
  unfolding assigned
  start = (refl, λ more. refl)

  all-Aligned :
      (tags_json : List ApiKeyTag → Json) (req : UpdateApiKeyRequest)
      → Aligned (all_sets req) (all_binds tags_json req) (all_wanted tags_json req)
  unfolding all_sets all_binds all_wanted
  all-Aligned tags_json req = Aligned-add req.allowed_models maybe_texts "allowed_models" _ _ _ (
      Aligned-add req.max_spend_usd maybe_float "max_spend_usd" _ _ _ (
        Aligned-add req.requests_per_day maybe_int "requests_per_day" _ _ _ (
          Aligned-add req.requests_per_minute maybe_int "requests_per_minute" _ _ _ (
            Aligned-add req.window_timezone maybe_words "window_timezone" _ _ _ (
              Aligned-add req.allowed_hours_end maybe_int "allowed_hours_end" _ _ _ (
                Aligned-add req.allowed_hours_start maybe_int "allowed_hours_start" _ _ _ (
                  Aligned-add req.tags (λ tags. json (tags_json tags)) "tags" _ _ _
                    (Aligned-add req.scopes texts "scopes" _ _ _
                      (Aligned-add req.name words "name" ([], 1) [] [] start)))))))))

  -- The statement of an update gives each field of the request to the column of its name, and its
  -- last placeholder stands for the key's id: the arguments are those of the fields and then the id.
  pub build_update_sql-assigns :
      (tags_json : List ApiKeyTag → Json) (req : UpdateApiKeyRequest) (id : ℕ) (s : Sets)
      → build_update_sql req ≡ ok s
      → (assigned s.0 (all_binds tags_json req ++ uuid id ∷ []) ≡ all_wanted tags_json req)
        × (get_elem? (all_binds tags_json req ++ uuid id ∷ []) (s.1 - 1) ≡ some (uuid id))
  unfolding build_update_sql
  build_update_sql-assigns tags_json req id s h =
      let aligned = all-Aligned tags_json req in
      elim (Bool-cases (is_empty (all_sets req).0)) [
        | inl b ↦ ground (arith, b, h)
        | inr b ↦
            let same : all_sets req ≡ s = ground (arith, b, h) in
            let position : (all_sets req).1 - 1 ≡ length (all_binds tags_json req) =
              omega (arith, aligned.0) in
            let last : get_elem? (all_binds tags_json req ++ uuid id ∷ []) ((all_sets req).1 - 1)
                ≡ some (uuid id) =
              rw (position, get_elem?-append (all_binds tags_json req) [] (uuid id)) refl in
            (rw same at (aligned.1 (uuid id ∷ [])), rw same at last)
      ]

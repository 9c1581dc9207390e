-- ===== src/Providers/ModelResolver/Order.antt =====
-- The order of the targets that are tried.
use mathlib.Core.Logic.Or
use mathlib.Core.List.{
  Mem, Perm, append-nil, append_assoc, mem-cons_of_mem, mem-cons, mem-append, not-mem-nil,
}
use mathlib.Core.List.Perm
use zorch.Prelude.{
  Bool, true, false, String, some, List, [], ◌∷◌, ◌++◌, ◌≡◌, refl, ap, ◌∙◌, arith, Bool-cases, inl,
  inr,
}
use zorch.Prelude.Int.{
  ℤ, int_leb, int_beq, int_leb_refl, int_leb_total, int_leb_trans, int_beq-eq, int_beq_refl,
}
use zorch.Prelude.Classes.{string_eq}
use zorch.Prelude.Map.{lookup}
use zorch.Providers.ModelResolver.{
  Target, ModelResolver, active_of, place, sort_by_priority, shuffle_groups, shuffle_equals,
  resolve,
}

-- A priority bounds those of a list.
abbrev pub Bounds : ℤ → List Target → Type 0
Bounds p ts = (t : Target) → Mem t ts → int_leb t.priority p ≡ true

-- No target has a lower priority than one after it.
unfoldable pub IsDescending : List Target → Type 0
IsDescending [] = Unit
IsDescending (t ∷ ts) = Bounds t.priority ts × IsDescending ts

true_prop : {b c : Bool} → IsProp (b ≡ c)
true_prop = hlevel

pub Bounds-cons :
    (p : ℤ) (t : Target) (ts : List Target)
    → int_leb t.priority p ≡ true
    → Bounds p ts
    → Bounds p (t ∷ ts)
Bounds-cons p t ts h hs u m =
    Or.elim true_prop (mem-cons.0 m) (λ e. ap (λ x. int_leb x.priority p) e ∙ h) (hs u)

Bounds-append : (p : ℤ) (ts us : List Target) → Bounds p ts → Bounds p us → Bounds p (ts ++ us)
Bounds-append p ts us h i u m = Or.elim true_prop (mem-append.0 m) (h u) (i u)

Bounds-perm : (p : ℤ) (ts us : List Target) → Perm us ts → Bounds p ts → Bounds p us
Bounds-perm p ts us e h u m = h u (Perm.subset e u m)

Bounds-weaken : (p q : ℤ) (ts : List Target) → int_leb p q ≡ true → Bounds p ts → Bounds q ts
Bounds-weaken p q ts h hs u m = int_leb_trans u.priority p q (hs u m) h

place-perm : (t : Target) (us : List Target) → Perm (place t us) (t ∷ us)
unfolding place
place-perm t [] = Perm.refl (t ∷ [])
place-perm t (u ∷ us) = elim (Bool-cases (int_leb u.priority t.priority)) [
  | inl b ↦ rw b (Perm.refl (t ∷ u ∷ us))
  | inr b ↦ rw b (Perm.trans (Perm.cons u (place-perm t us)) (Perm.swap t u us))
]

sort_by_priority-perm : (ts : List Target) → Perm (sort_by_priority ts) ts
unfolding sort_by_priority
sort_by_priority-perm [] = Perm.refl []
sort_by_priority-perm (t ∷ ts) =
    Perm.trans (place-perm t (sort_by_priority ts)) (Perm.cons t (sort_by_priority-perm ts))

place-IsDescending : (t : Target) (us : List Target) → IsDescending us → IsDescending (place t us)
unfolding place IsDescending
place-IsDescending t [] h = ((λ u m. absurd (not-mem-nil m)), tt)
place-IsDescending t (u ∷ us) h = elim (Bool-cases (int_leb u.priority t.priority)) [
  | inl b ↦ rw b ((Bounds-cons t.priority u us b (Bounds-weaken u.priority t.priority us b h.0)), h)
  | inr b ↦ rw b (
    (Bounds-perm u.priority (t ∷ us) (place t us) (place-perm t us)
        (Bounds-cons u.priority t us (int_leb_total u.priority t.priority b) h.0)),
    place-IsDescending t us h.1,
  )
]

sort_by_priority-IsDescending : (ts : List Target) → IsDescending (sort_by_priority ts)
unfolding sort_by_priority IsDescending
sort_by_priority-IsDescending [] = tt
sort_by_priority-IsDescending (t ∷ ts) =
    place-IsDescending t (sort_by_priority ts) (sort_by_priority-IsDescending ts)

-- The targets of one group.
abbrev HasPriority : ℤ → List Target → Type 0
HasPriority p ts = (t : Target) → Mem t ts → int_beq t.priority p ≡ true

HasPriority-append :
    (p : ℤ) (ts : List Target) (t : Target)
    → HasPriority p ts
    → int_beq t.priority p ≡ true
    → HasPriority p (ts ++ t ∷ [])
HasPriority-append p ts t h e u m = Or.elim true_prop (mem-append.0 m) (h u) (λ n.
    Or.elim true_prop (mem-cons.0 n) (λ q. ap (λ x. int_beq x.priority p) q ∙ e)
      (λ o. absurd (not-mem-nil o)))

HasPriority-one : (t : Target) → HasPriority t.priority (t ∷ [])
HasPriority-one t u m =
    Or.elim true_prop (mem-cons.0 m)
      (λ q. ap (λ x. int_beq x.priority t.priority) q ∙ int_beq_refl t.priority)
      (λ o. absurd (not-mem-nil o))

HasPriority-Bounds : (p : ℤ) (ts : List Target) → HasPriority p ts → Bounds p ts
HasPriority-Bounds p ts h u m = let e = int_beq-eq u.priority p (h u m) in rw e (int_leb_refl p)

append-IsDescending :
    (p : ℤ) (ts us : List Target)
    → HasPriority p ts
    → Bounds p us
    → IsDescending us
    → IsDescending (ts ++ us)
unfolding IsDescending
append-IsDescending p [] us h b d = d
append-IsDescending p (t ∷ ts) us h b d =
    let later : HasPriority p ts = λ u m. h u (mem-cons_of_mem t m) in
    let e = int_beq-eq t.priority p (h t (mem-cons.1 (∣ inl refl ∣₁))) in
    (
      rw e (Bounds-append p ts us (HasPriority-Bounds p ts later) b),
      append-IsDescending p ts us later b d,
    )

module _ {W : Type 0} (shuffle : List Target → W → List Target × W)
    (shuffle_perm : (ts : List Target) (w : W) → Perm (shuffle ts w).0 ts) where
  same_group :
      (p : ℤ) (group ts : List Target) (t : Target) (w : W)
      → int_beq t.priority p ≡ true
      → (shuffle_groups shuffle p group (t ∷ ts) w).0
        ≡ (shuffle_groups shuffle p (group ++ t ∷ []) ts w).0
  unfolding shuffle_groups
  same_group p group ts t w e = ground (arith, e)

  next_group :
      (p : ℤ) (group ts : List Target) (t : Target) (w : W)
      → int_beq t.priority p ≡ false
      → (shuffle_groups shuffle p group (t ∷ ts) w).0
        ≡ (shuffle group w).0
          ++ (shuffle_groups shuffle t.priority (t ∷ []) ts (shuffle group w).1).0
  unfolding shuffle_groups
  next_group p group ts t w e = ground (arith, e)

  shuffle_groups-perm :
      (p : ℤ) (group ts : List Target) (w : W)
      → Perm (shuffle_groups shuffle p group ts w).0 (group ++ ts)
  unfolding shuffle_groups
  shuffle_groups-perm p group [] w = rw (append-nil group) (shuffle_perm group w)
  shuffle_groups-perm p group (t ∷ ts) w = elim (Bool-cases (int_beq t.priority p)) [
    | inl b ↦
        rw (same_group p group ts t w b)
          (rw (append_assoc group (t ∷ []) ts) at (shuffle_groups-perm p (group ++ t ∷ []) ts w))
    | inr b ↦ rw (next_group p group ts t w b) (
        Perm.append (shuffle_perm group w)
          (shuffle_groups-perm t.priority (t ∷ []) ts (shuffle group w).1))
  ]

  mixed-HasPriority :
      (p : ℤ) (group : List Target) (w : W)
      → HasPriority p group
      → HasPriority p (shuffle group w).0
  mixed-HasPriority p group w h u m = h u (Perm.subset (shuffle_perm group w) u m)

  shuffle_groups-IsDescending :
      (p : ℤ) (group ts : List Target) (w : W)
      → HasPriority p group
      → Bounds p ts
      → IsDescending ts
      → IsDescending (shuffle_groups shuffle p group ts w).0
  unfolding IsDescending shuffle_groups
  shuffle_groups-IsDescending p group [] w h b d = rw (append-nil (shuffle group w).0) at (
      append-IsDescending p (shuffle group w).0 [] (mixed-HasPriority p group w h)
        (λ u m. absurd (not-mem-nil m)) tt)
  shuffle_groups-IsDescending p group (t ∷ ts) w h b d = elim (Bool-cases (int_beq t.priority p)) [
    | inl e ↦ rw (same_group p group ts t w e) (
        shuffle_groups-IsDescending p (group ++ t ∷ []) ts w (HasPriority-append p group t h e)
          (λ u m. b u (mem-cons_of_mem t m)) d.1)
    | inr e ↦
        let w' = (shuffle group w).1 in
        rw (next_group p group ts t w e) (
          append-IsDescending p (shuffle group w).0
            (shuffle_groups shuffle t.priority (t ∷ []) ts w').0 (mixed-HasPriority p group w h)
            (Bounds-perm p (t ∷ ts) (shuffle_groups shuffle t.priority (t ∷ []) ts w').0
              (shuffle_groups-perm t.priority (t ∷ []) ts w') b)
            (shuffle_groups-IsDescending t.priority (t ∷ []) ts w' (HasPriority-one t) d.0 d.1))
  ]

  shuffle_equals-perm : (ts : List Target) (w : W) → Perm (shuffle_equals shuffle ts w).0 ts
  unfolding shuffle_equals
  shuffle_equals-perm [] w = Perm.refl []
  shuffle_equals-perm (t ∷ ts) w = shuffle_groups-perm t.priority (t ∷ []) ts w

  shuffle_equals-IsDescending :
      (ts : List Target) (w : W) → IsDescending ts → IsDescending (shuffle_equals shuffle ts w).0
  unfolding shuffle_equals IsDescending
  shuffle_equals-IsDescending [] w d = tt
  shuffle_equals-IsDescending (t ∷ ts) w d =
      shuffle_groups-IsDescending t.priority (t ∷ []) ts w (HasPriority-one t) d.0 d.1

  -- The targets of a known model are its targets with a provider, each as often as it was added, and
  -- in an order in which none has a lower priority than one after it: the shuffle permutes its group.
  pub resolve-sorted :
      (resolver : ModelResolver) (public_model : String) (targets : List Target) (w : W)
      → lookup public_model resolver.index ≡ some targets
      → Perm (resolve shuffle resolver public_model w).0 (active_of targets)
        × IsDescending (resolve shuffle resolver public_model w).0
  unfolding resolve
  resolve-sorted resolver public_model targets w h =
      let sorted = sort_by_priority (active_of targets) in
      let e : (resolve shuffle resolver public_model w).0 ≡ (shuffle_equals shuffle sorted w).0 =
        ground (arith, h) in
      rw e (
        Perm.trans (shuffle_equals-perm sorted w) (sort_by_priority-perm (active_of targets)),
        shuffle_equals-IsDescending sorted w (sort_by_priority-IsDescending (active_of targets)),
      )

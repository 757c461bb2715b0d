-- ===== src/Sensor/Order/Tables.antt =====
-- sensors_order_resolver.cpp: the tables that AddSensor() builds, and the order of any sensors added.
use rt_core.Prelude.{
  ℕ, zero, suc, ◌≡◌, refl, sym, subst, ◌⊎◌, inl, inr, Bool, true, false, ◌||◌, none, some, List, [],
  ◌∷◌, ◌++◌, arith, take, drop, Bool-cases, Option-cases,
}
use rt_core.Prelude.Tables.{insert_at}
use rt_core.Sensor.Order.{
  Sensor, Resolver, empty_resolver, contains, dependencies_at, emplace_dependencies, emplace_sensor,
  variable_names, add_sensor, get_processing_order,
}
use rt_core.Sensor.Order.Sets.{IsEquality}
use rt_core.Sensor.Order.Walks.{HasEntries}
use rt_core.Sensor.Order.Result.{Verified, order-Verified}

module _ {A : Type 0} (same : A → A → Bool) where
  -- Sensors were added one after the other, each at any place of the tables; an AddSensor() that throws
  -- adds nothing.
  pub data Built : Resolver A → Type 0 where
    nothing : Built empty_resolver
    adds :
        {r : Resolver A}
        → Built r
        → (entry place : ℕ) (s : Sensor A) (t : Resolver A)
        → add_sensor same entry place s r ≡ some t
        → Built t

  has_entry : List (A × List A) → A → Bool
  unfolding dependencies_at
  has_entry table id = elim (dependencies_at same table id) [ none ↦ false | some names ↦ true ]

  has_entry-append :
      (a b : List (A × List A)) (x : A) → has_entry (a ++ b) x ≡ (has_entry a x || has_entry b x)
  unfolding has_entry
  has_entry-append [] b x = refl
  has_entry-append ((k, names) ∷ a) b x = ground (arith, has_entry-append a b x)

  contains-append :
      (a b : List A) (x : A) → contains same (a ++ b) x ≡ (contains same a x || contains same b x)
  unfolding contains
  contains-append [] b x = refl
  contains-append (y ∷ a) b x = ground (arith, contains-append a b x)

  has_entry-parts :
      (i : ℕ) (table : List (A × List A)) (x : A)
      → (has_entry (take i table) x || has_entry (drop i table) x) ≡ has_entry table x
  unfolding has_entry
  has_entry-parts zero table x = refl
  has_entry-parts (suc i) [] x = refl
  has_entry-parts (suc i) ((k, names) ∷ table) x = ground (arith, has_entry-parts i table x)

  contains-parts :
      (i : ℕ) (xs : List A) (x : A)
      → (contains same (take i xs) x || contains same (drop i xs) x) ≡ contains same xs x
  unfolding contains
  contains-parts zero xs x = refl
  contains-parts (suc i) [] x = refl
  contains-parts (suc i) (y ∷ xs) x = ground (arith, contains-parts i xs x)

  contains-emplace :
      (place : ℕ) (id : A) (xs : List A) (x : A)
      → contains same (emplace_sensor same place id xs) x ≡ true
      → (same id x ≡ true) ⊎ (contains same xs x ≡ true)
  unfolding emplace_sensor insert_at contains
  contains-emplace place id xs x m = elim (Bool-cases (same id x)) [
    | inl here ↦ inl here
    | inr other ↦ inr (
        ground (
          arith,
          contains-append (take place xs) (id ∷ drop place xs) x,
          contains-parts place xs x,
        ))
  ]

  has_entry-insert :
      (i : ℕ) (id : A) (names : List A) (table : List (A × List A)) (x : A)
      → (same id x ≡ true) ⊎ (has_entry table x ≡ true)
      → has_entry (insert_at i (id, names) table) x ≡ true
  unfolding insert_at has_entry
  has_entry-insert i id names table x h =
      let both = has_entry-append (take i table) ((id, names) ∷ drop i table) x in
      let parts = has_entry-parts i table x in
      elim h [ inl here ↦ ground arith | inr there ↦ ground arith ]

  emplace-has_entry :
      (entry : ℕ) (id : A) (names : List A) (table : List (A × List A)) (x : A)
      → IsEquality same
      → (same id x ≡ true) ⊎ (has_entry table x ≡ true)
      → has_entry (emplace_dependencies same entry id names table) x ≡ true
  unfolding emplace_dependencies
  emplace-has_entry entry id names table x eq h =
      elim (Option-cases (dependencies_at same table id)) [
        | inl none_yet ↦
            let e : emplace_dependencies same entry id names table
                ≡ insert_at entry (id, names) table =
              ground arith in
            subst (λ t. has_entry t x ≡ true) (sym e) (has_entry-insert entry id names table x h)
        | inr (old, found) ↦
            let e : emplace_dependencies same entry id names table ≡ table = ground arith in
            subst (λ t. has_entry t x ≡ true) (sym e)
              (elim h [
                | inl here ↦
                    subst (λ y. has_entry table y ≡ true) (eq.sound id x here)
                      (unfold has_entry in (ground arith))
                | inr there ↦ there
              ])
      ]

  Built-has_entry :
      {r : Resolver A}
      → IsEquality same
      → Built r
      → (x : A) → contains same r.sensors x ≡ true
      → has_entry r.dependencies x ≡ true
  unfolding contains
  Built-has_entry eq nothing x m = absurd (ground arith)
  Built-has_entry eq (adds {r = r} b entry place s t e) x m =
      elim (Option-cases (variable_names same s.expression)) [
        | inl invalid ↦ absurd (unfold add_sensor in (ground arith))
        | inr (names, found) ↦
            let u : Resolver A = record {
              dependencies = emplace_dependencies same entry s.id names r.dependencies;
              sensors = emplace_sensor same place s.id r.sensors;
            } in
            let added : add_sensor same entry place s r ≡ some u =
              unfold add_sensor in (ground arith) in
            let t_u : t ≡ u = cc in
            let m_u : contains same u.sensors x ≡ true =
              subst (λ (v : Resolver A). contains same v.sensors x ≡ true) t_u m in
            subst (λ (v : Resolver A). has_entry v.dependencies x ≡ true) (sym t_u)
              (emplace-has_entry entry s.id names r.dependencies x eq
                (elim (contains-emplace place s.id r.sensors x m_u) [
                  | inl here ↦ inl here
                  | inr there ↦ inr (Built-has_entry eq b x there)
                ]))
      ]

  Built-HasEntries : {r : Resolver A} → IsEquality same → Built r → HasEntries same r
  Built-HasEntries {r} eq b x m =
      let h = Built-has_entry eq b x m in
      elim (Option-cases (dependencies_at same r.dependencies x)) [
        | inl missing ↦ absurd (unfold has_entry in (ground arith))
        | inr found ↦ found
      ]

-- With an equality of IDs, whatever sensors were added, and in whatever order the tables are gone through: GetProcessingOrder() ends.
-- It returns each sensor once, after all sensors that it depends on; or it throws, and then there is a
-- sensor that depends on itself, maybe through others, or on one that does not exist. When there is such
-- a sensor it does not return an order.
pub get_processing_order-Verified :
    {A : Type 0} (same : A → A → Bool) (eq : IsEquality same) (r : Resolver A)
    → Built same r
    → Verified same eq r (get_processing_order same r)
get_processing_order-Verified same eq r b = order-Verified same eq r (Built-HasEntries same eq b)

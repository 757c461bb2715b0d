-- ===== src/Sensor/Order/Result.antt =====
-- sensors_order_resolver.cpp: what GetProcessingOrder() returns.
use rt_core.Prelude.{
  ℕ, suc, ◌+◌, ◌<◌, ◌≡◌, refl, sym, subst, inl, inr, Bool, true, Option, none, some, List, [], ◌∷◌,
  ◌++◌, length, arith, Bool-cases,
}
use rt_core.Sensor.Order.{
  Resolver, Answer, unknown, no_entry, cyclic, out_of_fuel, acyclic, Outcome, ordered,
  unknown_sensor, no_such_entry, cyclic_dependency, no_fuel, contains, dependencies_at,
  has_cyclic_dependency, resolve_each, resolve_dependencies, check_all, get_processing_order,
}
use rt_core.Sensor.Order.Sets.{IsEquality, contains-snoc, contains-same, outside, outside-le}
use rt_core.Sensor.Order.Walks.{
  DependsOn, Walk, one, more, HasCycle, HasUnknown, IsOrder, empty, next, HasEntries,
}
use rt_core.Sensor.Order.Search.{
  Means, MeansOne, Means-if, nothing-Searched, join-Means, each, one_then, then-Means, search-Means,
}

module _ {A : Type 0} (same : A → A → Bool) (eq : IsEquality same) (r : Resolver A) where
  all-Means :
      (fuel : ℕ)
      → MeansOne same eq r (suc fuel)
      → outside same [] r.sensors < suc fuel
      → (ids visited : List A)
      → ((x : A) → contains same ids x ≡ true → contains same r.sensors x ≡ true)
      → IsOrder same r visited
      → Means same eq r ids visited []
          (each same eq r (suc fuel) ids)
          (check_all same r (suc fuel) ids visited [])
  unfolding check_all contains resolve_each
  all-Means fuel search l [] visited known o =
      nothing-Searched same eq r visited [] (each same eq r (suc fuel) []) o (λ w a. refl) []
        (λ x m. absurd (ground arith))
  all-Means fuel search l (id ∷ ids) visited known o =
      let here : contains same r.sensors id ≡ true = known id (ground (arith, eq.same_refl id)) in
      let later = λ (x : A) (m : contains same ids x ≡ true). known x (ground arith) in
      Means-if same eq r (id ∷ ids) visited [] (each same eq r (suc fuel) (id ∷ ids))
        (contains same visited id) (check_all same r (suc fuel) ids visited []) _
        (λ seen.
          join-Means same eq r (suc fuel) id ids visited [] visited []
            (nothing-Searched same eq r visited [] (one_then same eq r (suc fuel) id) o
              (λ w g. unfold resolve_dependencies in (ground (arith, g id))) (id ∷ [])
              (λ x m. ground (arith, contains-same same eq visited id x)))
            (check_all same r (suc fuel) ids visited [])
            (all-Means fuel search l ids visited later o))
        (λ new.
          then-Means same eq r (suc fuel) id ids visited [] (check_all same r (suc fuel) ids)
            (λ middle q. all-Means fuel search l ids middle later q)
            (has_cyclic_dependency same r (suc fuel) id visited [])
            (search id visited [] o here (λ x m. absurd (ground arith)) l))

  names_of :
      (id x : A) (names : List A) (dep : A)
      → same id x ≡ true
      → dependencies_at same r.dependencies id ≡ some names
      → DependsOn same r x dep
      → contains same names dep ≡ true
  names_of id x names dep h entry d =
      let e : dependencies_at same r.dependencies x ≡ some names =
        subst (λ y. dependencies_at same r.dependencies y ≡ some names) (eq.sound id x h) entry in
      let same_names : d.names ≡ names = cc in
      subst (λ l. contains same l dep ≡ true) same_names d.listed

  closed :
      {xs : List A}
      → IsOrder same r xs
      → (x dep : A) → contains same xs x ≡ true
      → DependsOn same r x dep
      → contains same xs dep ≡ true
  unfolding contains
  closed empty x dep m d = absurd (ground arith)
  closed (next {before = before} o id names known new entry all) x dep m d =
      let inside : contains same before dep ≡ true → contains same (before ++ id ∷ []) dep ≡ true =
        λ h. ground (arith, contains-snoc same before id dep) in
      elim (Bool-cases (same id x)) [
        | inl here ↦ inside (all dep (names_of id x names dep here entry d))
        | inr other ↦ inside (closed o x dep (ground (arith, contains-snoc same before id x)) d)
      ]

  Walk-inside :
      {before : List A}
      → IsOrder same r before
      → (id : A) (names : List A) → dependencies_at same r.dependencies id ≡ some names
      → ((dep : A) → contains same names dep ≡ true → contains same before dep ≡ true)
      → {x y : A} → same id x ≡ true
      → Walk same r x y
      → contains same before y ≡ true
  Walk-inside o id names entry all {x} {y} h (one d) = all y (names_of id x names y h entry d)
  Walk-inside o id names entry all {x} {y} h (more {dep = dep} w d) =
      closed o dep y (Walk-inside o id names entry all h w) d

  -- No walk in an order comes back.
  no_return :
      {xs : List A} → IsOrder same r xs → (x : A) → contains same xs x ≡ true → ¬ Walk same r x x
  unfolding contains
  no_return empty x m w = absurd (ground arith)
  no_return (next {before = before} o id names known new entry all) x m w =
      elim (Bool-cases (same id x)) [
        | inl here ↦ absurd (
            let back = Walk-inside o id names entry all here w in
            ground (arith, contains-same same eq before id x))
        | inr other ↦ no_return o x (ground (arith, contains-snoc same before id x)) w
      ]

  IsOrder-known :
      {xs : List A}
      → IsOrder same r xs
      → (x : A) → contains same xs x ≡ true
      → contains same r.sensors x ≡ true
  unfolding contains
  IsOrder-known empty x m = absurd (ground arith)
  IsOrder-known (next {before = before} o id names known new entry all) x m =
      elim (Bool-cases (same id x)) [
        | inl here ↦ ground (arith, contains-same same eq r.sensors id x)
        | inr other ↦ IsOrder-known o x (ground (arith, contains-snoc same before id x))
      ]

  -- Every sensor has its place, in an order without which there would be a cycle or an unknown sensor.
  pub record IsComplete (xs : List A) : Type 0 where
    pub order : IsOrder same r xs
    pub all : (x : A) → contains same r.sensors x ≡ true → contains same xs x ≡ true
    pub no_cycle : ¬ HasCycle same r
    pub no_unknown : ¬ HasUnknown same r

  complete :
      (xs : List A)
      → IsOrder same r xs
      → ((x : A) → contains same r.sensors x ≡ true → contains same xs x ≡ true)
      → IsComplete xs
  complete xs o all = record {
    order = o;
    all = all;
    no_cycle = λ c. no_return o c.sensor (all c.sensor c.is_sensor) c.around;
    no_unknown = λ u.
        let found =
          IsOrder-known o u.dependency
            (closed o u.sensor u.dependency (all u.sensor u.is_sensor) u.depends) in
        absurd (ground (arith, u.is_unknown));
  }

  unfoldable pub Verified : Outcome A → Type 0
  Verified (ordered xs) = IsComplete xs
  Verified unknown_sensor = HasUnknown same r
  Verified no_such_entry = ⊥
  Verified cyclic_dependency = HasCycle same r
  Verified no_fuel = ⊥

  finish :
      (fuel : ℕ) (a : Answer A)
      → Means same eq r r.sensors [] [] (each same eq r fuel r.sensors) a
      → Verified (elim a [
        | acyclic visited temp ↦
            elim (resolve_each same (resolve_dependencies same r fuel) r.sensors [] []) [
              | none ↦ no_such_entry
              | some (resolved, ordered_sensors) ↦ ordered ordered_sensors
            ]
        | unknown ↦ unknown_sensor
        | no_entry ↦ no_such_entry
        | cyclic ↦ cyclic_dependency
        | out_of_fuel ↦ no_fuel
      ])
  unfolding Verified contains
  finish fuel unknown m = m
  finish fuel no_entry m = m
  finish fuel cyclic m = m
  finish fuel out_of_fuel m = m
  finish fuel (acyclic finished temp) m =
      let (u, walked, agrees) = m.follows [] (λ x. refl) in
      subst
        (λ (o : Option (List A × List A)). Verified (elim o [
          | none ↦ no_such_entry
          | some (resolved, ordered_sensors) ↦ ordered ordered_sensors
        ]))
        (sym walked) (complete finished m.order m.has)

  pub order-Verified : HasEntries same r → Verified (get_processing_order same r)
  unfolding get_processing_order
  order-Verified entries =
      let n = length r.sensors in
      let fuel : suc n ≡ n + 1 = omega arith in
      let m =
        all-Means n (search-Means same eq r entries (suc n))
          (omega (arith, outside-le same [] r.sensors)) r.sensors [] (λ x k. k) empty in
      finish (n + 1) (check_all same r (n + 1) r.sensors [] []) (
        subst
          (λ f.
            Means same eq r r.sensors [] [] (each same eq r f r.sensors)
              (check_all same r f r.sensors [] []))
          fuel m)

-- ===== src/Sensor/Order/Search.antt =====
-- sensors_order_resolver.cpp: the search for a cycle, and the walk that follows it step by step.
use rt_core.Prelude.{
  ℕ, zero, suc, ◌<◌, ◌≡◌, refl, sym, ap, subst, ◌∙◌, ◌⊎◌, inl, inr, Bool, true, false, not, ◌||◌,
  Option, some, List, [], ◌∷◌, ◌++◌, arith, if◌then◌else◌, Bool-cases,
}
use rt_core.Sensor.Order.{
  Resolver, Answer, unknown, no_entry, cyclic, out_of_fuel, acyclic, contains, erase,
  dependencies_at, check_dependencies, leave, has_cyclic_dependency, resolve_each, push,
  resolve_dependencies,
}
use rt_core.Sensor.Order.Sets.{
  IsEquality, contains-snoc, contains-same, erase-fresh, outside, outside-less,
}
use rt_core.Sensor.Order.Walks.{
  DependsOn, Walk, one, more, HasCycle, HasUnknown, IsOrder, next, HasEntries,
}

module _ {A : Type 0} (same : A → A → Bool) (eq : IsEquality same) (r : Resolver A) where
  -- The second walk has visited what the search has finished and what it is in.
  abbrev pub Agrees : List A → List A → List A → Type 0
  Agrees w visited temp =
      (x : A) → contains same w x ≡ (contains same visited x || contains same temp x)

  -- `walk` resolves what the search went through, in the order in which it finished.
  abbrev pub Follows :
      (List A → List A → Option (List A × List A)) → List A → List A → List A → Type 0
  Follows walk visited temp finished =
      (w : List A)
      → Agrees w visited temp
      → (u : List A) × (walk w visited ≡ some (u, finished)) × Agrees u finished temp

  -- The search of the sensors `ids` from the sets `visited` and `temp` on ends without a cycle.
  pub record Searched (ids visited temp : List A)
      (walk : List A → List A → Option (List A × List A)) (finished temp_then : List A)
      : Type 0 where
    pub same_temp : temp_then ≡ temp
    pub order : IsOrder same r finished
    pub grows : (x : A) → contains same visited x ≡ true → contains same finished x ≡ true
    pub has : (x : A) → contains same ids x ≡ true → contains same finished x ≡ true
    pub apart :
        (x : A) → contains same temp x ≡ true → contains same finished x ≡ contains same visited x
    pub follows : Follows walk visited temp finished

  -- What an answer of the search means.
  abbrev pub Means :
      List A → List A → List A → (List A → List A → Option (List A × List A)) → Answer A → Type 0
  Means ids visited temp walk unknown = HasUnknown same r
  Means ids visited temp walk no_entry = ⊥
  Means ids visited temp walk cyclic = HasCycle same r
  Means ids visited temp walk out_of_fuel = ⊥
  Means ids visited temp walk (acyclic finished temp_then) =
      Searched ids visited temp walk finished temp_then

  -- The search and the walk of one sensor, with some fuel.
  abbrev pub MeansOne : ℕ → Type 0
  MeansOne fuel =
      (id : A) (visited temp : List A)
      → IsOrder same r visited
      → contains same r.sensors id ≡ true
      → ((x : A) → contains same temp x ≡ true → Walk same r x id)
      → outside same temp r.sensors < fuel
      → Means (id ∷ []) visited temp (resolve_dependencies same r fuel id)
          (has_cyclic_dependency same r fuel id visited temp)

  pub Means-if :
      (ids visited temp : List A) (walk : List A → List A → Option (List A × List A)) (b : Bool)
      (x y : Answer A)
      → (b ≡ true → Means ids visited temp walk x)
      → (b ≡ false → Means ids visited temp walk y)
      → Means ids visited temp walk (if b then x else y)
  Means-if ids visited temp walk true x y f g = f refl
  Means-if ids visited temp walk false x y f g = g refl

  pub nothing-Searched :
      (visited temp : List A) (walk : List A → List A → Option (List A × List A))
      → IsOrder same r visited
      → ((w : List A) → Agrees w visited temp → walk w visited ≡ some (w, visited))
      → (ids : List A) → ((x : A) → contains same ids x ≡ true → contains same visited x ≡ true)
      → Searched ids visited temp walk visited temp
  nothing-Searched visited temp walk o e ids h = record {
    same_temp = refl;
    order = o;
    grows = λ x m. m;
    has = h;
    apart = λ x m. refl;
    follows = λ w a. (w, e w a, a);
  }

  abbrev pub each : ℕ → List A → List A → List A → Option (List A × List A)
  each fuel ids w visited = resolve_each same (resolve_dependencies same r fuel) ids w visited

  abbrev pub one_then : ℕ → A → List A → List A → Option (List A × List A)
  one_then fuel id = resolve_dependencies same r fuel id

  pub join-Searched :
      (fuel : ℕ) (dep : A) (deps visited temp middle finished temp_1 temp_2 : List A)
      → Searched (dep ∷ []) visited temp (one_then fuel dep) middle temp_1
      → Searched deps middle temp (each fuel deps) finished temp_2
      → Searched (dep ∷ deps) visited temp (each fuel (dep ∷ deps)) finished temp_2
  unfolding contains resolve_each
  join-Searched fuel dep deps visited temp middle finished temp_1 temp_2 a b = record {
    same_temp = b.same_temp;
    order = b.order;
    grows = λ x m. b.grows x (a.grows x m);
    has = λ x m. elim (Bool-cases (same dep x)) [
      | inl here ↦ b.grows x (a.has x (ground arith))
      | inr later ↦ b.has x (ground arith)
    ];
    apart = λ x m. b.apart x m ∙ a.apart x m;
    follows = λ w g.
        let (u, walked, agrees) = a.follows w g in
        let (v, walked_then, agrees_then) = b.follows u agrees in
        (v, ground (arith, walked, walked_then), agrees_then);
  }

  pub join-Means :
      (fuel : ℕ) (dep : A) (deps visited temp middle temp_1 : List A)
      → Searched (dep ∷ []) visited temp (one_then fuel dep) middle temp_1
      → (a : Answer A) → Means deps middle temp (each fuel deps) a
      → Means (dep ∷ deps) visited temp (each fuel (dep ∷ deps)) a
  join-Means fuel dep deps visited temp middle temp_1 m unknown k = k
  join-Means fuel dep deps visited temp middle temp_1 m no_entry k = k
  join-Means fuel dep deps visited temp middle temp_1 m cyclic k = k
  join-Means fuel dep deps visited temp middle temp_1 m out_of_fuel k = k
  join-Means fuel dep deps visited temp middle temp_1 m (acyclic finished temp_2) k =
      join-Searched fuel dep deps visited temp middle finished temp_1 temp_2 m k

  abbrev check : ℕ → List A → List A → List A → Answer A
  check fuel deps visited temp =
      check_dependencies same r (has_cyclic_dependency same r fuel) deps visited temp

  -- `go` is what comes after the first one.
  pub then-Means :
      (fuel : ℕ) (dep : A) (deps visited temp : List A) (go : List A → List A → Answer A)
      → ((middle : List A)
          → IsOrder same r middle
          → Means deps middle temp (each fuel deps) (go middle temp))
      → (a : Answer A) → Means (dep ∷ []) visited temp (one_then fuel dep) a
      → Means (dep ∷ deps) visited temp (each fuel (dep ∷ deps)) (elim a [
        | acyclic visited_then temp_then ↦ go visited_then temp_then
        | unknown ↦ unknown
        | no_entry ↦ no_entry
        | cyclic ↦ cyclic
        | out_of_fuel ↦ out_of_fuel
      ])
  then-Means fuel dep deps visited temp go h unknown m = m
  then-Means fuel dep deps visited temp go h no_entry m = m
  then-Means fuel dep deps visited temp go h cyclic m = m
  then-Means fuel dep deps visited temp go h out_of_fuel m = m
  then-Means fuel dep deps visited temp go h (acyclic middle temp_1) m =
      subst (λ t. Means (dep ∷ deps) visited temp (each fuel (dep ∷ deps)) (go middle t))
        (sym m.same_temp)
        (join-Means fuel dep deps visited temp middle temp_1 m (go middle temp) (h middle m.order))

  -- The dependencies of a sensor, when the search of each one means what it should.
  dependencies-Means :
      (fuel : ℕ)
      → MeansOne fuel
      → (id : A) (deps visited temp : List A) → contains same r.sensors id ≡ true
      → IsOrder same r visited
      → ((dep : A) → contains same deps dep ≡ true → DependsOn same r id dep)
      → ((x dep : A)
          → contains same temp x ≡ true
          → contains same deps dep ≡ true
          → Walk same r x dep)
      → outside same temp r.sensors < fuel
      → Means deps visited temp (each fuel deps) (check fuel deps visited temp)
  unfolding check_dependencies resolve_each contains
  dependencies-Means fuel ih id [] visited temp q o d w l =
      nothing-Searched visited temp (each fuel []) o (λ w a. refl) [] (λ x m. absurd (ground arith))
  dependencies-Means fuel ih id (dep ∷ deps) visited temp q o d w l =
      let here : contains same (dep ∷ deps) dep ≡ true = ground (arith, eq.same_refl dep) in
      let answer = has_cyclic_dependency same r fuel dep visited temp in
      Means-if (dep ∷ deps) visited temp (each fuel (dep ∷ deps))
        (not (contains same r.sensors dep)) unknown _
        (λ missing. record {
          sensor = id;
          is_sensor = q;
          dependency = dep;
          depends = d dep here;
          is_unknown = ground arith;
        })
        (λ known.
          then-Means fuel dep deps visited temp (check fuel deps)
            (λ middle order.
              dependencies-Means fuel ih id deps middle temp q order (λ x k. d x (ground arith))
                (λ x y k j. w x y k (ground arith)) l)
            answer (ih dep visited temp o (ground arith) (λ x m. w x dep m here) l))

  -- The sensor itself, after its dependencies.
  leave-Searched :
      (fuel : ℕ) (id : A) (deps visited temp finished temp_1 : List A)
      → contains same r.sensors id ≡ true
      → contains same temp id ≡ false
      → contains same visited id ≡ false
      → dependencies_at same r.dependencies id ≡ some deps
      → Searched deps visited (id ∷ temp) (each fuel deps) finished temp_1
      → Searched
          (id ∷ [])
          visited
          temp
          (one_then (suc fuel) id)
          (finished ++ id ∷ [])
          (erase same id temp_1)
  unfolding contains resolve_dependencies push
  leave-Searched fuel id deps visited temp finished temp_1 known out new entry a = record {
    same_temp = ap (erase same id) a.same_temp ∙ erase-fresh same eq id temp out;
    order =
        next a.order id deps known (a.apart id (ground (arith, eq.same_refl id)) ∙ new) entry a.has;
    grows = λ x m. ground (arith, contains-snoc same finished id x, a.grows x m);
    has = λ x m. ground (arith, contains-snoc same finished id x);
    apart = λ x m.
        let other : same id x ≡ false = ground (arith, contains-same same eq temp id x) in
        let before : contains same finished x ≡ contains same visited x =
          a.apart x (ground arith) in
        ground (arith, contains-snoc same finished id x);
    follows = λ w g.
        let fresh : contains same w id ≡ false = ground (arith, g id) in
        let (u, walked, agrees) = a.follows (id ∷ w) (λ x. ground (arith, g x)) in
        (
          u,
          ground (arith, fresh, entry, walked),
          λ x. ground (arith, contains-snoc same finished id x, agrees x),
        );
  }

  leave-Means :
      (fuel : ℕ) (id : A) (deps visited temp : List A)
      → contains same r.sensors id ≡ true
      → contains same temp id ≡ false
      → contains same visited id ≡ false
      → dependencies_at same r.dependencies id ≡ some deps
      → (a : Answer A) → Means deps visited (id ∷ temp) (each fuel deps) a
      → Means (id ∷ []) visited temp (one_then (suc fuel) id) (leave same id a)
  unfolding leave
  leave-Means fuel id deps visited temp known out new entry unknown m = m
  leave-Means fuel id deps visited temp known out new entry no_entry m = m
  leave-Means fuel id deps visited temp known out new entry cyclic m = m
  leave-Means fuel id deps visited temp known out new entry out_of_fuel m = m
  leave-Means fuel id deps visited temp known out new entry (acyclic finished temp_1) m =
      leave-Searched fuel id deps visited temp finished temp_1 known out new entry m

  -- With fuel for the sensors that the search is not in, it ends: with a cycle or a dependency that is
  -- there, or with an order that the walk then follows.
  pub search-Means : HasEntries same r → (fuel : ℕ) → MeansOne fuel
  unfolding has_cyclic_dependency contains
  search-Means entries zero id visited temp o known w l = absurd (omega arith)
  search-Means entries (suc fuel) id visited temp o known w l =
      let (deps, entry) = entries id known in
      let inner = check fuel deps visited (id ∷ temp) in
      let unfolded : has_cyclic_dependency same r (suc fuel) id visited temp ≡ (
          if contains same temp id
          then cyclic
          else if contains same visited id
          then acyclic visited temp
          else leave same id inner) =
        ground (arith, entry) in
      subst (Means (id ∷ []) visited temp (one_then (suc fuel) id)) (sym unfolded) (
        Means-if (id ∷ []) visited temp (one_then (suc fuel) id) (contains same temp id) cyclic _
          (λ cycle. record { sensor = id; is_sensor = known; around = w id cycle })
          (λ out.
            Means-if (id ∷ []) visited temp (one_then (suc fuel) id) (contains same visited id)
              (acyclic visited temp) (leave same id inner)
              (λ seen.
                nothing-Searched visited temp (one_then (suc fuel) id) o
                  (λ w g. unfold resolve_dependencies in (ground (arith, g id))) (id ∷ [])
                  (λ x m. ground (arith, contains-same same eq visited id x)))
              (λ new. leave-Means fuel id deps visited temp known out new entry inner (
                dependencies-Means fuel (search-Means entries fuel) id deps visited (id ∷ temp)
                  known o (λ dep m. record { names = deps; entry = entry; listed = m })
                  (λ x dep m k. step entry (Bool-cases (same id x)) m k)
                  (let less = outside-less same id temp r.sensors eq known out in omega arith)))))
    where
      step :
          {deps : List A} {x dep : A}
          → dependencies_at same r.dependencies id ≡ some deps
          → (same id x ≡ true) ⊎ (same id x ≡ false)
          → contains same (id ∷ temp) x ≡ true
          → contains same deps dep ≡ true
          → Walk same r x dep
      step {deps} {x} {dep} entry (inl here) m k =
          subst (λ y. Walk same r y dep) (eq.sound id x here)
            (one (record { names = deps; entry = entry; listed = k }))
      step {deps} {x} {dep} entry (inr other) m k =
          more (w x (ground arith)) (record { names = deps; entry = entry; listed = k })

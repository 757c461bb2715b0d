-- ===== src/Sensor/Order/Walks.antt =====
-- sensors_order_resolver.h: what an order of the sensors is, and what is wrong when there is none.
use rt_core.Prelude.{◌≡◌, Bool, true, false, some, List, [], ◌∷◌, ◌++◌}
use rt_core.Sensor.Order.{Resolver, contains, dependencies_at}

module _ {A : Type 0} (same : A → A → Bool) (r : Resolver A) where
  -- The sensor `id` depends on `dep`.
  pub record DependsOn (id dep : A) : Type 0 where
    pub names : List A
    pub entry : dependencies_at same r.dependencies id ≡ some names
    pub listed : contains same names dep ≡ true

  -- One dependency after the other.
  pub data Walk (id : A) : A → Type 0 where
    one : {dep : A} → DependsOn id dep → Walk id dep
    more : {dep last : A} → Walk id dep → DependsOn dep last → Walk id last

  -- A sensor that depends on itself, maybe through others.
  pub record HasCycle : Type 0 where
    pub sensor : A
    pub is_sensor : contains same r.sensors sensor ≡ true
    pub around : Walk sensor sensor

  -- A dependency that is not a sensor.
  pub record HasUnknown : Type 0 where
    pub sensor : A
    pub is_sensor : contains same r.sensors sensor ≡ true
    pub dependency : A
    pub depends : DependsOn sensor dependency
    pub is_unknown : contains same r.sensors dependency ≡ false

  -- Each sensor once, and after all that it depends on.
  pub data IsOrder : List A → Type 0 where
    empty : IsOrder []
    next :
        {before : List A}
        → IsOrder before
        → (id : A) (names : List A) → contains same r.sensors id ≡ true
        → contains same before id ≡ false
        → dependencies_at same r.dependencies id ≡ some names
        → ((dep : A) → contains same names dep ≡ true → contains same before dep ≡ true)
        → IsOrder (before ++ id ∷ [])

  -- Each sensor has an entry for its dependencies.
  abbrev pub HasEntries : Type 0
  HasEntries =
      (id : A)
      → contains same r.sensors id ≡ true
      → (names : List A) × (dependencies_at same r.dependencies id ≡ some names)

-- ===== src/Cdmp/State/Local/Versions.antt =====
-- RefreshLaggingVersions() and StampChange(): every record's next version compares as newer.
use rt_core.Prelude.{
  ℕ, zero, suc, ◌+◌, ◌-◌, ◌≤◌, ◌<◌, ◌≡◌, ◌≢◌, refl, ap, subst, ◌⊎◌, inl, inr, true, false, ◌||◌,
  List, [], ◌∷◌, arith, length, ltb, ◌==◌, if◌then◌else◌, Bool-cases,
}
use rt_core.Prelude.Bits.{u8}
use rt_core.Prelude.Tables.{modify_at, insert_at}
use rt_core.Cdmp.State.Local.{
  LocalRecord, is_newer, lag, stamped, version_refresh_lag, refresh_lagging_versions,
  stamp_versions,
}

-- No record in use is further behind the counter than a bound.
abbrev pub AllFresh : ℕ → ℕ → List LocalRecord → Type 0
AllFresh bound counter [] = Unit {0}
AllFresh bound counter (r ∷ rest) =
    (r.version < 256)
    × ((r.is_withdrawn ≡ true) ⊎ (lag counter r ≤ bound))
    × AllFresh bound counter rest

-- The records that do not have this version.
abbrev pub others : ℕ → List LocalRecord → ℕ
others version [] = 0
others version (r ∷ rest) = let n = others version rest in if r.version == version then n else suc n

-- What a refresh does to a record: nothing, or a newer version if it had another than `version`.
abbrev Moves : ℕ → LocalRecord → LocalRecord → Type 0
Moves version r r' =
    (r' ≡ r)
    ⊎ ((r.version ≢ version)
        × (r.is_withdrawn ≡ false)
        × (r' ≡ stamped r'.version r)
        × (is_newer r'.version r.version ≡ true))

abbrev AllMove : ℕ → List LocalRecord → List LocalRecord → Type 0
AllMove version [] [] = Unit {0}
AllMove version [] (_ ∷ _) = ⊥
AllMove version (_ ∷ _) [] = ⊥
AllMove version (r ∷ rest) (r' ∷ rest') = Moves version r r' × AllMove version rest rest'

record Refreshed (room start done : ℕ) (rs : List LocalRecord) (counter : ℕ)
    (rs' : List LocalRecord) : Type 0 where
  count : ℕ
  few : count ≤ others start rs
  counter_sum : counter ≡ u8 (start + done + count)
  fresh : AllFresh (room + 61) counter rs'
  moves : AllMove start rs rs'

-- A record that a refresh passes over: the rest of the refresh may leave it further behind.
kept_fresh :
    (room start done count rest : ℕ) (r : LocalRecord)
    → room ≤ 33
    → start < 256
    → r.version < 256
    → count ≤ rest
    → done + (if r.version == start then rest else suc rest) + 1 ≤ room
    → r.is_withdrawn || ltb (lag (u8 (start + done)) r) version_refresh_lag ≡ true
    → (r.is_withdrawn ≡ true) ⊎ (lag (u8 (start + done + count)) r ≤ room + 61)
unfolding lag
kept_fresh room start done count rest r n h w few k kept = elim (Bool-cases r.is_withdrawn) [
  | inl out ↦ inl out
  | inr in_use ↦ inr (ground arith)
]

-- A record that a refresh stamps: it was another than the one that the change stamped, and its new
-- version compares as newer.
stamped_moves :
    (room start done rest : ℕ) (r : LocalRecord)
    → room ≤ 33
    → start < 256
    → r.version < 256
    → (r.is_withdrawn ≡ true) ⊎ (lag start r ≤ room + 62)
    → done + (if r.version == start then rest else suc rest) + 1 ≤ room
    → r.is_withdrawn || ltb (lag (u8 (start + done)) r) version_refresh_lag ≡ false
    → (r.version ≢ start)
      × (r.is_withdrawn ≡ false)
      × (is_newer (u8 (u8 (start + done) + 1)) r.version ≡ true)
unfolding lag is_newer
stamped_moves room start done rest r n h w f k late =
    let in_use : r.is_withdrawn ≡ false = ground arith in
    let behind : 64 ≤ u8 (u8 (start + done) + 256 - r.version) = ground arith in
    let near : u8 (start + 256 - r.version) ≤ room + 62 = ground arith in
    ((λ e. absurd (ground arith)), in_use, ground arith)

refresh_lem :
    (room start done : ℕ) (rs : List LocalRecord)
    → room ≤ 33
    → start < 256
    → done + others start rs + 1 ≤ room
    → AllFresh (room + 62) start rs
    → let (counter, rs') = refresh_lagging_versions (u8 (start + done)) rs in
      Refreshed room start done rs counter rs'
unfolding refresh_lagging_versions
refresh_lem room start done [] n h k f = record {
  count = 0;
  few = omega arith;
  counter_sum = omega arith;
  fresh = tt;
  moves = tt;
}
refresh_lem room start done (r ∷ rs) n h k (w, f, fs) =
    let c = u8 (start + done) in
    elim (Bool-cases (r.is_withdrawn || ltb (lag c r) version_refresh_lag)) [
      | inl kept ↦
          let ih = refresh_lem room start done rs n h (ground arith) fs in
          let behind =
            kept_fresh room start done ih.count (others start rs) r n h w ih.few k kept in
          rw kept (record {
            count = ih.count;
            few = ground (arith, ih.few);
            counter_sum = ih.counter_sum;
            fresh = (w, rw ih.counter_sum behind, ih.fresh);
            moves = (inl refl, ih.moves);
          })
      | inr late ↦
          let (other, in_use, newer) =
            stamped_moves room start done (others start rs) r n h w f k late in
          let next : u8 (start + (done + 1)) ≡ u8 (c + 1) = omega arith in
          let bound : done + 1 + others start rs + 1 ≤ room = ground arith in
          let ih = refresh_lem room start (done + 1) rs n h bound fs in
          let ih' : let (counter, rs') = refresh_lagging_versions (u8 (c + 1)) rs in
              Refreshed room start (done + 1) rs counter rs' =
            subst
              (λ x.
                let (counter, rs') = refresh_lagging_versions x rs in
                Refreshed room start (done + 1) rs counter rs')
              next ih in
          rw late (record {
            count = suc ih'.count;
            few = ground (arith, ih'.few);
            counter_sum = omega (arith, ih'.counter_sum);
            fresh = (
              omega arith,
              inr (unfold lag in omega (arith, ih'.counter_sum, ih'.few, bound)),
              ih'.fresh,
            );
            moves = (inr (other, in_use, refl, newer), ih'.moves);
          })
    ]

-- What a change of one record leaves for the refresh: at most one version further behind, and the
-- changed record has the new version.
pub record Ready (room version : ℕ) (rs : List LocalRecord) : Type 0 where
  pub few : others version rs + 1 ≤ room
  pub fresh : AllFresh (room + 62) version rs

others-le : (version : ℕ) (rs : List LocalRecord) → others version rs ≤ length rs
others-le version [] = omega arith
others-le version (r ∷ rs) = ground (arith, others-le version rs)

-- A new counter leaves every record one version further behind.
pub next_fresh :
    (room counter : ℕ) (rs : List LocalRecord)
    → room ≤ 33
    → counter < 256
    → AllFresh (room + 61) counter rs
    → AllFresh (room + 62) (u8 (counter + 1)) rs
unfolding lag
next_fresh room counter [] n h f = tt
next_fresh room counter (r ∷ rs) n h (w, f, fs) = (w, one f, next_fresh room counter rs n h fs)
  where
    one :
        (r.is_withdrawn ≡ true) ⊎ (lag counter r ≤ room + 61)
        → (r.is_withdrawn ≡ true) ⊎ (lag (u8 (counter + 1)) r ≤ room + 62)
    one (inl e) = inl e
    one (inr l) = inr (omega arith)

pub modify-Ready :
    (room version i : ℕ) (f : LocalRecord → LocalRecord) (rs : List LocalRecord)
    → version < 256
    → i < length rs
    → length rs ≤ room
    → AllFresh (room + 62) version rs
    → Ready room version (modify_at i (stamped version) (modify_at i f rs))
unfolding modify_at stamped
modify-Ready room version i f rs h l k fresh = record {
  few = omega (arith, few i rs l);
  fresh = all i rs fresh;
}
  where
    few :
        (i : ℕ) (rs : List LocalRecord)
        → i < length rs
        → others version (modify_at i (stamped version) (modify_at i f rs)) + 1 ≤ length rs
    few i [] l = absurd (omega arith)
    few zero (r ∷ rs) l = ground (arith, others-le version rs)
    few (suc i) (r ∷ rs) l = ground (arith, few i rs (omega arith))

    all :
        (i : ℕ) (rs : List LocalRecord)
        → AllFresh (room + 62) version rs
        → AllFresh (room + 62) version (modify_at i (stamped version) (modify_at i f rs))
    all i [] t = tt
    all zero (r ∷ rs) (w, q, t) = (h, inr (unfold lag in omega arith), t)
    all (suc i) (r ∷ rs) (w, q, t) = (w, q, all i rs t)

-- A record that was in use has its old version or a newer one.
abbrev pub Later : LocalRecord → LocalRecord → Type 0
Later r r' =
    (r.is_withdrawn ≡ true) ⊎ ((r'.version ≡ r.version) ⊎ (is_newer r'.version r.version ≡ true))

abbrev pub AllLater : List LocalRecord → List LocalRecord → Type 0
AllLater [] [] = Unit {0}
AllLater [] (_ ∷ _) = ⊥
AllLater (_ ∷ _) [] = ⊥
AllLater (r ∷ rest) (r' ∷ rest') = Later r r' × AllLater rest rest'

moved-Later : {version : ℕ} {r r' : LocalRecord} → Moves version r r' → Later r r'
moved-Later (inl e) = inr (inl (ap (λ (x : LocalRecord). x.version) e))
moved-Later (inr (_, _, _, newer)) = inr (inr newer)

changed-Later :
    (room counter : ℕ) (f : LocalRecord → LocalRecord) (r r' : LocalRecord)
    → room ≤ 33
    → counter < 256
    → r.version < 256
    → (r.is_withdrawn ≡ true) ⊎ (lag counter r ≤ room + 61)
    → Moves (u8 (counter + 1)) (stamped (u8 (counter + 1)) (f r)) r'
    → Later r r'
unfolding lag stamped
changed-Later room counter f r r' n h w (inl e) m = inl e
changed-Later room counter f r r' n h w (inr l) (inl e) =
    inr (inr (rw e (unfold is_newer in ground arith)))
changed-Later room counter f r r' n h w (inr l) (inr (other, _, _, _)) = absurd (other refl)

modify-Later :
    (room counter i : ℕ) (f : LocalRecord → LocalRecord) (rs rs' : List LocalRecord)
    → room ≤ 33
    → counter < 256
    → AllFresh (room + 61) counter rs
    → AllMove (u8 (counter + 1)) (modify_at i (stamped (u8 (counter + 1))) (modify_at i f rs)) rs'
    → AllLater rs rs'
unfolding modify_at
modify-Later room counter i f [] [] n h t m = tt
modify-Later room counter i f [] (r' ∷ rs') n h t m = absurd m
modify-Later room counter zero f (r ∷ rs) [] n h t m = absurd m
modify-Later room counter (suc i) f (r ∷ rs) [] n h t m = absurd m
modify-Later room counter zero f (r ∷ rs) (r' ∷ rs') n h (w, q, t) (m, ms) =
    (changed-Later room counter f r r' n h w q m, unchanged rs rs' ms)
  where
    unchanged : (rs rs' : List LocalRecord) → AllMove (u8 (counter + 1)) rs rs' → AllLater rs rs'
    unchanged [] [] m = tt
    unchanged [] (_ ∷ _) m = m
    unchanged (_ ∷ _) [] m = m
    unchanged (r ∷ rs) (r' ∷ rs') (m, ms) = (moved-Later m, unchanged rs rs' ms)
modify-Later room counter (suc i) f (r ∷ rs) (r' ∷ rs') n h (w, q, t) (m, ms) =
    (moved-Later m, modify-Later room counter i f rs rs' n h t ms)

-- With at most 33 slots, changing one record in place under the next version and refreshing the others
-- leaves every record in use at most 61 versions and one for each slot behind the counter, and gives
-- every record that was in use its old version or one that receivers take for newer.
pub stamp_versions_later :
    (room counter i : ℕ) (f : LocalRecord → LocalRecord) (rs : List LocalRecord)
    → room ≤ 33
    → counter < 256
    → i < length rs
    → length rs ≤ room
    → AllFresh (room + 61) counter rs
    → let (counter', rs') = stamp_versions counter i (modify_at i f rs) in
      (counter' < 256) × AllFresh (room + 61) counter' rs' × AllLater rs rs'
unfolding stamp_versions
stamp_versions_later room counter i f rs n h l k fresh =
    let version = u8 (counter + 1) in
    let next = next_fresh room counter rs n h fresh in
    let ready = modify-Ready room version i f rs (omega arith) l k next in
    let start : u8 (version + 0) ≡ version = omega arith in
    let changed = modify_at i (stamped version) (modify_at i f rs) in
    let done =
      subst
        (λ x.
          let (counter', rs') = refresh_lagging_versions x changed in
          Refreshed room version 0 changed counter' rs')
        start
        (refresh_lem room version 0 changed n (omega arith) (omega (arith, ready.few))
          ready.fresh) in
    (
      rw done.counter_sum (omega arith),
      done.fresh,
      modify-Later room counter i f rs _ n h fresh done.moves,
    )

-- The refresh after a change, on a list that the change left ready.
pub refresh-Ready :
    (room version : ℕ) (rs : List LocalRecord)
    → room ≤ 33
    → version < 256
    → Ready room version rs
    → let (counter', rs') = refresh_lagging_versions version rs in
      (counter' < 256) × AllFresh (room + 61) counter' rs'
refresh-Ready room version rs n h ready =
    let start : u8 (version + 0) ≡ version = omega arith in
    let done =
      subst
        (λ x.
          let (counter', rs') = refresh_lagging_versions x rs in
          Refreshed room version 0 rs counter' rs')
        start (refresh_lem room version 0 rs n h (omega (arith, ready.few)) ready.fresh) in
    (rw done.counter_sum (omega arith), done.fresh)

-- A record that is inserted and changed at once.
pub insert-Ready :
    (room version i : ℕ) (f : LocalRecord → LocalRecord) (x : LocalRecord) (rs : List LocalRecord)
    → version < 256
    → i ≤ length rs
    → length rs + 1 ≤ room
    → AllFresh (room + 62) version rs
    → Ready room version (modify_at i (stamped version) (modify_at i f (insert_at i x rs)))
unfolding modify_at insert_at stamped
insert-Ready room version i f x rs h l k fresh = record {
  few = omega (arith, few i rs l);
  fresh = all i rs l fresh;
}
  where
    few :
        (i : ℕ) (rs : List LocalRecord)
        → i ≤ length rs
        → others version (modify_at i (stamped version) (modify_at i f (insert_at i x rs)))
          ≤ length rs
    few zero rs l = ground (arith, others-le version rs)
    few (suc i) [] l = absurd (omega arith)
    few (suc i) (r ∷ rs) l = ground (arith, few i rs (omega arith))

    all :
        (i : ℕ) (rs : List LocalRecord)
        → i ≤ length rs
        → AllFresh (room + 62) version rs
        → AllFresh
            (room + 62)
            version
            (modify_at i (stamped version) (modify_at i f (insert_at i x rs)))
    all zero rs l t = (h, inr (unfold lag in omega arith), t)
    all (suc i) [] l t = absurd (omega arith)
    all (suc i) (r ∷ rs) l (w, q, t) = (w, q, all i rs (omega arith) t)

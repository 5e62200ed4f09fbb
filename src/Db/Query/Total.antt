-- ===== src/Db/Query/Total.antt =====
-- The series of all clients out of a table: `GROUP BY ts ORDER BY ts`.
use luci_app_overwatch.Base.{
  ◌≡◌, ◌≢◌, ◌⊎◌, refl, sym, ap, ◌∙◌, subst, true, if_pos, if_neg, List, [], ◌∷◌, Option, none, some,
  if◌then◌else◌, Bool-cases, Option-cases, inl, inr,
}
use luci_app_overwatch.Base.Int.{ℤ, ℤ-discrete}
use luci_app_overwatch.Db.{Traffic, Table}
use luci_app_overwatch.Db.Query.{
  row_to_sample, between, Group, groups, sum_group, group_rows, query_table,
}
use luci_app_overwatch.Db.Query.Groups.{
  group_at, traffic_at, GroupsAfter, AreGroups, groups-AreGroups, group_at-groups,
  group_at-GroupsAfter,
}
use luci_app_overwatch.Db.Query.Series.{row_at, within}
use luci_app_overwatch.History.Total.{point_at, AllAfter, IsRising}
use luci_app_overwatch.Sample.{Sample}

-- The point of some rows of one time: their sums and maxima, none for no rows.
abbrev pub sum_at : ℤ → List Traffic → Option Sample
sum_at t vs = row_at t (sum_group vs)

-- There are rows, and adding them up fails.
abbrev pub HasNoSum : List Traffic → Type 0
HasNoSum vs = (vs ≢ []) × (sum_group vs ≡ none)

-- What the loop over the groups comes to.
record Summed (gs : List Group) (out : List Sample) : Type 0 where
  rising : IsRising out
  after : (t : ℤ) → GroupsAfter t gs → AllAfter t out
  points : (t : ℤ) → point_at t out ≡ sum_at t (group_at t gs)
  sums : (t : ℤ) → ¬ HasNoSum (group_at t gs)

Summed-cons :
    (u : ℤ) (g : List Traffic) (v : Traffic) (gs : List Group) (out : List Sample)
    → GroupsAfter u gs
    → sum_group g ≡ some v
    → Summed gs out
    → Summed ((u, g) ∷ gs) (row_to_sample u v ∷ out)
Summed-cons u g v gs out h e s = record {
  rising = (s.after u h, s.rising);
  after = λ t k. (k.0, s.after t k.1);
  points = λ t. elim (ℤ-discrete u t) [
    | yes p ↦
        if_pos (ℤ-discrete u t) p _ _
        ∙ ap (λ w. some (row_to_sample w v)) p
        ∙ ap (row_at t) (sym e)
        ∙ ap (sum_at t) (sym (if_pos (ℤ-discrete u t) p g (group_at t gs)))
    | no np ↦
        if_neg (ℤ-discrete u t) np _ _
        ∙ s.points t
        ∙ ap (sum_at t) (sym (if_neg (ℤ-discrete u t) np g (group_at t gs)))
  ];
  sums = λ t. elim (ℤ-discrete u t) [
    | yes p ↦ rw (if_pos (ℤ-discrete u t) p) (λ o. cc (sym e ∙ o.1))
    | no np ↦ rw (if_neg (ℤ-discrete u t) np) (s.sums t)
  ];
}

group_rows_lem :
    (gs : List Group)
    → AreGroups gs
    → ((out : List Sample) × (group_rows gs ≡ some out) × Summed gs out)
      ⊎ ((group_rows gs ≡ none) × (t : ℤ) × HasNoSum (group_at t gs))
unfolding group_rows
group_rows_lem [] h = inl (
  [],
  refl,
  record { rising = tt; after = λ t k. tt; points = λ t. refl; sums = λ t o. o.0 refl },
)
group_rows_lem ((u, g) ∷ gs) h = elim (Option-cases (sum_group g)) [
  | inl e ↦ inr (rw (e, group_rows) refl, u, rw (if_pos (ℤ-discrete u u) refl) (h.1, e))
  | inr (v, e) ↦ elim (group_rows_lem gs h.2) [
    | inl (out, r, s) ↦
        inl (row_to_sample u v ∷ out, rw (e, r, group_rows) refl, Summed-cons u g v gs out h.0 e s)
    | inr (r, t, o) ↦
        let later : u ≢ t = λ p. o.0 (group_at-GroupsAfter t u gs p h.0) in
        inr (rw (e, r, group_rows) refl, t, rw (if_neg (ℤ-discrete u t) later) o)
  ]
]

-- What a query for all clients answers with, group by group.
pub record IsTotal (rows : Table) (from to : ℤ) (out : List Sample) : Type 0 where
  pub rising : IsRising out
  pub points : (t : ℤ) → point_at t out ≡ within from to t (sum_at t (traffic_at t rows))

pub query_table-IsTotal :
    (rows : Table) (from to : ℤ)
    → ((out : List Sample) × (query_table rows none from to ≡ some out)
        × IsTotal rows from to out
        × ((t : ℤ) → between from to t ≡ true → ¬ HasNoSum (traffic_at t rows)))
      ⊎ ((query_table rows none from to ≡ none)
          × (t : ℤ) × (between from to t ≡ true)
          × HasNoSum (traffic_at t rows))
unfolding query_table
query_table-IsTotal rows from to =
    elim (group_rows_lem (groups from to rows) (groups-AreGroups from to rows)) [
      | inl (out, r, s) ↦ inl (
        out,
        r,
        record {
          rising = s.rising;
          points = λ t.
              s.points t
              ∙ ap (sum_at t) (group_at-groups from to t rows)
              ∙ elim (Bool-cases (between from to t)) [ inl b ↦ rw b refl | inr b ↦ rw b refl ];
        },
        λ t b. subst (λ vs. ¬ HasNoSum vs) (group_at-groups from to t rows ∙ rw b refl) (s.sums t),
      )
      | inr (r, t, o) ↦
          let here : HasNoSum (if between from to t then traffic_at t rows else []) =
            subst HasNoSum (group_at-groups from to t rows) o in
          elim (Bool-cases (between from to t)) [
            | inl b ↦ inr (r, t, b, subst HasNoSum (rw b refl) here)
            | inr b ↦
                let no_rows : HasNoSum [] = subst HasNoSum (rw b refl) here in
                absurd (no_rows.0 refl)
          ]
    ]

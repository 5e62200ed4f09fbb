-- ===== src/Db/Query/Groups.antt =====
-- The rows of a table in a range, in groups by their times.
use luci_app_overwatch.Base.{
  ◌≡◌, ◌≢◌, refl, sym, ap, ◌∙◌, ite, if_pos, if_neg, List, [], ◌∷◌, if◌then◌else◌, arith, ltb→lt,
  Bool-cases, inl, inr,
}
use luci_app_overwatch.Base.Int.{ℤ, pos_part, neg_part, ◌<ℤ◌, ltb_ℤ, ℤ-discrete}
use luci_app_overwatch.Db.{Traffic, Table}
use luci_app_overwatch.Db.Query.{between, Group, insert_row, groups}
use luci_app_overwatch.History.Total.{after_ℤ}

abbrev pub group_at : ℤ → List Group → List Traffic
group_at t [] = []
group_at t ((u, g) ∷ gs) = ite (ℤ-discrete u t) g (group_at t gs)

-- The rows of a time, in the table's order.
abbrev pub traffic_at : ℤ → Table → List Traffic
traffic_at t [] = []
traffic_at t (((u, client), v) ∷ rows) =
    ite (ℤ-discrete u t) (v ∷ traffic_at t rows) (traffic_at t rows)

abbrev pub GroupsAfter : ℤ → List Group → Type 0
GroupsAfter t [] = Unit
GroupsAfter t ((u, g) ∷ gs) = (t <ℤ u) × GroupsAfter t gs

-- Groups in the order of their times, none of them empty.
abbrev pub AreGroups : List Group → Type 0
AreGroups [] = Unit
AreGroups ((u, g) ∷ gs) = GroupsAfter u gs × (g ≢ []) × AreGroups gs

GroupsAfter-trans : (a b : ℤ) (gs : List Group) → a <ℤ b → GroupsAfter b gs → GroupsAfter a gs
GroupsAfter-trans a b [] h k = tt
GroupsAfter-trans a b ((u, g) ∷ gs) h k = (omega arith, GroupsAfter-trans a b gs h k.1)

GroupsAfter-insert_row :
    (t u : ℤ) (v : Traffic) (gs : List Group)
    → t <ℤ u
    → GroupsAfter t gs
    → GroupsAfter t (insert_row u v gs)
GroupsAfter-insert_row t u v [] h k = (h, tt)
GroupsAfter-insert_row t u v ((w, g) ∷ gs) h k = elim (ℤ-discrete u w) [
  | yes p ↦ rw (if_pos (ℤ-discrete u w) p) k
  | no np ↦ rw (if_neg (ℤ-discrete u w) np) (elim (Bool-cases (ltb_ℤ u w)) [
    | inl q ↦ rw q (h, k)
    | inr q ↦ rw q (k.0, GroupsAfter-insert_row t u v gs h k.1)
  ])
]

cons_ne_nil : (v : Traffic) (g : List Traffic) → v ∷ g ≢ []
cons_ne_nil v g e = cc

AreGroups-insert_row :
    (u : ℤ) (v : Traffic) (gs : List Group) → AreGroups gs → AreGroups (insert_row u v gs)
AreGroups-insert_row u v [] h = (tt, cons_ne_nil v [], tt)
AreGroups-insert_row u v ((w, g) ∷ gs) h = elim (ℤ-discrete u w) [
  | yes p ↦ rw (if_pos (ℤ-discrete u w) p) (h.0, cons_ne_nil v g, h.2)
  | no np ↦ rw (if_neg (ℤ-discrete u w) np) (elim (Bool-cases (ltb_ℤ u w)) [
    | inl q ↦
        let lt : u <ℤ w = ltb→lt _ _ q in
        rw q ((lt, GroupsAfter-trans u w gs lt h.0), cons_ne_nil v [], h)
    | inr q ↦ rw q (
      GroupsAfter-insert_row w u v gs (after_ℤ u w np q) h.0,
      h.1,
      AreGroups-insert_row u v gs h.2,
    )
  ])
]

pub group_at-GroupsAfter :
    (t u : ℤ) (gs : List Group) → u ≡ t → GroupsAfter u gs → group_at t gs ≡ []
group_at-GroupsAfter t u [] p h = refl
group_at-GroupsAfter t u ((w, g) ∷ gs) p h =
    let ne : w ≢ t =
      λ q. absurd (omega (arith, h.0, ap pos_part (q ∙ sym p), ap neg_part (q ∙ sym p))) in
    rw (if_neg (ℤ-discrete w t) ne) (group_at-GroupsAfter t u gs p h.1)

group_at-insert_row :
    (t u : ℤ) (v : Traffic) (gs : List Group)
    → AreGroups gs
    → group_at t (insert_row u v gs) ≡ ite (ℤ-discrete u t) (v ∷ group_at t gs) (group_at t gs)
group_at-insert_row t u v [] h = refl
group_at-insert_row t u v ((w, g) ∷ gs) h = elim (ℤ-discrete u w) [
  | yes p ↦ rw (if_pos (ℤ-discrete u w) p) (elim (ℤ-discrete w t) [
    | yes e ↦
        if_pos (ℤ-discrete w t) e _ _
        ∙ ap (λ xs. v ∷ xs) (sym (if_pos (ℤ-discrete w t) e g (group_at t gs)))
        ∙ sym (if_pos (ℤ-discrete u t) (p ∙ e) _ _)
    | no ne ↦
        let nu : u ≢ t = λ e. ne (sym p ∙ e) in
        if_neg (ℤ-discrete w t) ne _ _
        ∙ sym (if_neg (ℤ-discrete w t) ne g (group_at t gs))
        ∙ sym (if_neg (ℤ-discrete u t) nu _ _)
  ])
  | no np ↦ rw (if_neg (ℤ-discrete u w) np) (elim (Bool-cases (ltb_ℤ u w)) [
    | inl q ↦
        let lt : u <ℤ w = ltb→lt _ _ q in
        rw q (elim (ℤ-discrete u t) [
          | yes e ↦
              let gone : group_at t ((w, g) ∷ gs) ≡ [] =
                group_at-GroupsAfter t u ((w, g) ∷ gs) e (lt, GroupsAfter-trans u w gs lt h.0) in
              if_pos (ℤ-discrete u t) e _ _
              ∙ ap (λ xs. v ∷ xs) (sym gone)
              ∙ sym (if_pos (ℤ-discrete u t) e _ _)
          | no ne ↦ if_neg (ℤ-discrete u t) ne _ _ ∙ sym (if_neg (ℤ-discrete u t) ne _ _)
        ])
    | inr q ↦
        let rest = group_at-insert_row t u v gs h.2 in
        rw q (elim (ℤ-discrete u t) [
          | yes e ↦
              let nw : w ≢ t = λ r. np (e ∙ sym r) in
              if_neg (ℤ-discrete w t) nw _ _
              ∙ rest
              ∙ if_pos (ℤ-discrete u t) e _ _
              ∙ ap (λ xs. v ∷ xs) (sym (if_neg (ℤ-discrete w t) nw g (group_at t gs)))
              ∙ sym (if_pos (ℤ-discrete u t) e _ _)
          | no ne ↦
              ap (λ xs. ite (ℤ-discrete w t) g xs) (rest ∙ if_neg (ℤ-discrete u t) ne _ _)
              ∙ sym (if_neg (ℤ-discrete u t) ne _ _)
        ])
  ])
]

module _ (from to : ℤ) where
  pub groups-AreGroups : (rows : Table) → AreGroups (groups from to rows)
  unfolding groups
  groups-AreGroups [] = tt
  groups-AreGroups (((u, client), v) ∷ rows) = elim (Bool-cases (between from to u)) [
    | inl b ↦ rw b (AreGroups-insert_row u v (groups from to rows) (groups-AreGroups rows))
    | inr b ↦ rw b (groups-AreGroups rows)
  ]

  -- The group of a time in the range are the rows of that time.
  pub group_at-groups :
      (t : ℤ) (rows : Table)
      → group_at t (groups from to rows) ≡ (if between from to t then traffic_at t rows else [])
  unfolding groups
  group_at-groups t [] = elim (Bool-cases (between from to t)) [
    | inl b ↦ rw b refl
    | inr b ↦ rw b refl
  ]
  group_at-groups t (((u, client), v) ∷ rows) =
      let rest = group_at-groups t rows in
      let ok = groups-AreGroups rows in
      elim (ℤ-discrete u t) [
        | yes p ↦
            let same : between from to u ≡ between from to t = ap (between from to) p in
            elim (Bool-cases (between from to t)) [
              | inl b ↦
                  let here : group_at t (groups from to rows) ≡ traffic_at t rows =
                    rest ∙ rw b refl in
                  rw (same, b)
                    (group_at-insert_row t u v (groups from to rows) ok
                      ∙ if_pos (ℤ-discrete u t) p _ _
                      ∙ ap (λ xs. v ∷ xs) here
                      ∙ sym (if_pos (ℤ-discrete u t) p _ _))
              | inr b ↦ rw (same, b) (rest ∙ rw b refl)
            ]
        | no np ↦ elim (Bool-cases (between from to u)) [
          | inl b ↦
              rw (b, if_neg (ℤ-discrete u t) np)
                (group_at-insert_row t u v (groups from to rows) ok
                  ∙ if_neg (ℤ-discrete u t) np _ _
                  ∙ rest)
          | inr b ↦ rw (b, if_neg (ℤ-discrete u t) np) rest
        ]
      ]

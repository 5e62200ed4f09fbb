-- ===== src/Db/Rollup.antt =====
-- What a roll-up leaves in a table of buckets.
use luci_app_overwatch.Base.{
  ℕ, ◌≡◌, refl, sym, ap, ◌∙◌, subst, true, false, ite, if_pos, if_neg, List, [], ◌∷◌, Option, none,
  some, if◌then◌else◌, Bool-cases, Option-cases, inl, inr,
}
use luci_app_overwatch.Base.Maps
use luci_app_overwatch.Db.{
  Key, Key-discrete, Traffic, Table, sum_from, put_sum, rows_in, has, add_key, group_keys,
  insert_group, rollup_groups, rollup_tier, bucket_of,
}

abbrev pub get : Key → Table → Option Traffic
get k t = Maps.lookup Key-discrete k t

-- The row of a bucket after a roll-up: the sums of its group, or what was there.
abbrev pub told : List Traffic → Option Traffic → Option Traffic
told [] old = old
told (t ∷ ts) old = sum_from t ts

get-insert_group :
    (rows : List Traffic) (j k : Key) (dst d : Table)
    → insert_group rows j dst ≡ some d
    → get k d ≡ ite (Key-discrete j k) (told rows (get k dst)) (get k dst)
get-insert_group [] j k dst d e = elim (Key-discrete j k) [
  | yes q ↦ rw (if_pos (Key-discrete j k) q) (ap (get k) (cc e))
  | no ne ↦ rw (if_neg (Key-discrete j k) ne) (ap (get k) (cc e))
]
get-insert_group (t ∷ ts) j k dst d e = go (sum_from t ts) e
  where
    go :
        (o : Option Traffic)
        → put_sum j dst o ≡ some d
        → get k d ≡ ite (Key-discrete j k) o (get k dst)
    go none p = cc
    go (some a) p = ap (get k) (cc p) ∙ Maps.lookup-upsert Key-discrete j k (λ _. a) dst

told_twice :
    (rows : List Traffic) (old : Option Traffic) → told rows (told rows old) ≡ told rows old
told_twice [] old = refl
told_twice (t ∷ ts) old = refl

module _ (bucket : ℕ) (src : Table) (k : Key) where
  get-rollup_groups :
      (ks : List Key) (dst d : Table)
      → rollup_groups bucket src ks dst ≡ some d
      → get k d ≡ (if has k ks then told (rows_in bucket k src) (get k dst) else get k dst)
  unfolding rollup_groups
  get-rollup_groups [] dst d e = ap (get k) (cc e)
  get-rollup_groups (j ∷ js) dst d e =
      elim (Option-cases (insert_group (rows_in bucket j src) j dst)) [
        | inl p ↦ cc (rw (p, rollup_groups) at e)
        | inr (dst', p) ↦
            let rest : rollup_groups bucket src js dst' ≡ some d = rw (p, rollup_groups) at e in
            let here = get-insert_group (rows_in bucket j src) j k dst dst' p in
            get-rollup_groups js dst' d rest ∙ elim (Key-discrete j k) [
              | yes q ↦
                  let now : get k dst' ≡ told (rows_in bucket k src) (get k dst) =
                    here
                    ∙ if_pos (Key-discrete j k) q _ _
                    ∙ ap (λ i. told (rows_in bucket i src) (get k dst)) q in
                  rw (if_pos (Key-discrete j k) q, now)
                    (elim (Bool-cases (has k js)) [
                      | inl b ↦ rw b (told_twice (rows_in bucket k src) (get k dst))
                      | inr b ↦ rw b refl
                    ])
              | no ne ↦
                  let now : get k dst' ≡ get k dst = here ∙ if_neg (Key-discrete j k) ne _ _ in
                  rw (if_neg (Key-discrete j k) ne, now) refl
            ]
      ]

has-add_key :
    (k j : Key) (ks : List Key) → has k (add_key j ks) ≡ ite (Key-discrete j k) true (has k ks)
has-add_key k j ks = elim (Bool-cases (has j ks)) [
  | inl b ↦ elim (Key-discrete j k) [
    | yes q ↦ rw (b, if_pos (Key-discrete j k) q) (subst (λ i. has i ks ≡ true) q b)
    | no ne ↦ rw (b, if_neg (Key-discrete j k) ne) refl
  ]
  | inr b ↦ rw b refl
]

-- A key that is no group has no rows.
rows_in-nil :
    (bucket : ℕ) (k : Key) (src : Table)
    → has k (group_keys bucket src) ≡ false
    → rows_in bucket k src ≡ []
unfolding rows_in group_keys
rows_in-nil bucket k [] e = refl
rows_in-nil bucket k (((ts, client), t) ∷ rows) e =
    let j : Key = (bucket_of bucket ts, client) in
    let e1 : ite (Key-discrete j k) true (has k (group_keys bucket rows)) ≡ false =
      sym (has-add_key k j (group_keys bucket rows)) ∙ e in
    elim (Key-discrete j k) [
      | yes q ↦ absurd (cc (sym (if_pos (Key-discrete j k) q _ _) ∙ e1))
      | no ne ↦
          rw (if_neg (Key-discrete j k) ne)
            (rows_in-nil bucket k rows (sym (if_neg (Key-discrete j k) ne true _) ∙ e1))
    ]

-- A roll-up that succeeds leaves, for every bucket and client, the sums and maxima of the source rows
-- that fall into the bucket, and the old row where none does: whatever else the old row told is
-- replaced.
pub get-rollup_tier :
    (bucket : ℕ) (src dst d : Table) (k : Key)
    → rollup_tier bucket src dst ≡ some d
    → get k d ≡ told (rows_in bucket k src) (get k dst)
unfolding rollup_tier
get-rollup_tier bucket src dst d k e =
    get-rollup_groups bucket src k (group_keys bucket src) dst d e
    ∙ elim (Bool-cases (has k (group_keys bucket src))) [
      | inl b ↦ rw b refl
      | inr b ↦ rw (b, rows_in-nil bucket k src b) refl
    ]

-- Rolling up twice from the same rows, where both succeed, leaves what rolling up once leaves.
get-rollup_twice :
    (bucket : ℕ) (src dst d d' : Table) (k : Key)
    → rollup_tier bucket src dst ≡ some d
    → rollup_tier bucket src d ≡ some d'
    → get k d' ≡ get k d
get-rollup_twice bucket src dst d d' k e e' =
    get-rollup_tier bucket src d d' k e'
    ∙ ap (told (rows_in bucket k src)) (get-rollup_tier bucket src dst d k e)
    ∙ told_twice (rows_in bucket k src) (get k dst)
    ∙ sym (get-rollup_tier bucket src dst d k e)

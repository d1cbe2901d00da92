-- ===== src/Api/Defaults.antt =====
-- `ensure_defaults` and `get_policy` of app/services.py. A setting is a dict of JSON values, a
-- parameter type with its numbers and its texts.
use token_loom.Prelude.{
  ℕ, ◌≡◌, refl, ◌∙◌, Option-cases, true, Option, none, some, [], ◌∷◌, if◌then◌else◌, Text, text_eq,
  text_eq_iff, codes, arith, Bool-cases, inl, inr,
}
use token_loom.Prelude.Dict.{Dict, get, contains, put, IsDistinct, get-put, get-absent}

-- `or_else`: the first that is there
abbrev pub or_else {ℓ} : {A : Type ℓ} → Option A → Option A → Option A
or_else none o = o
or_else (some a) o = some a

or_else_self {ℓ} : {A : Type ℓ} (o : Option A) → or_else o o ≡ o
or_else_self none = refl
or_else_self (some a) = refl

module _ {ℓ} {V : Type ℓ} where
  -- `d.update(e)`
  unfoldable pub update_all : Dict V → Dict V → Dict V
  update_all d [] = d
  update_all d ((k, v) ∷ e) = update_all (put k v d) e

  pub get-update_all :
      (j : Text) (d e : Dict V)
      → IsDistinct e
      → get j (update_all d e) ≡ or_else (get j e) (get j d)
  unfolding update_all get
  get-update_all j d [] h = refl
  get-update_all j d ((k, v) ∷ e) h = ground (
    arith,
    text_eq_iff k j,
    get-absent k e h.0,
    get-put k j v d,
    get-update_all j (put k v d) e h.1,
  )

  -- `INSERT … ON CONFLICT DO NOTHING` of each row in turn
  unfoldable pub add_missing : Dict V → Dict V → Dict V
  add_missing [] t = t
  add_missing ((k, v) ∷ rows) t = add_missing rows (if contains k t then t else put k v t)

  get-contains : (k : Text) (t : Dict V) → contains k t ≡ true → (v : V) × (get k t ≡ some v)
  unfolding contains get
  get-contains k [] h = cc
  get-contains k ((j, v) ∷ t) h = elim (Bool-cases (text_eq j k)) [
    | inl e ↦ (v, rw e)
    | inr e ↦ let (w, found) = get-contains k t (ground (arith, h, e)) in (w, rw e found)
  ]

  get-add_missing :
      (j : Text) (rows t : Dict V)
      → IsDistinct rows
      → get j (add_missing rows t) ≡ or_else (get j t) (get j rows)
  unfolding add_missing get
  get-add_missing j [] t h = ground arith
  get-add_missing j ((k, v) ∷ rows) t h = elim (Bool-cases (contains k t)) [
    | inl e ↦
        let (w, found) = get-contains k t e in
        rw e (
          ground
            (arith, text_eq_iff k j, found, get-absent k rows h.0, get-add_missing j rows t h.1))
    | inr e ↦ rw e (
        ground (
          arith,
          text_eq_iff k j,
          get-absent k t e,
          get-absent k rows h.0,
          get-put k j v t,
          get-add_missing j rows (put k v t) h.1,
        ))
  ]

module _ {J : Type 0} (of_nat : ℕ → J) (of_text : Text → J) where
  -- `DEFAULT_APP_SETTINGS`
  abbrev pub default_policy : Dict J
  default_policy =
      (codes "interval_days", of_nat 60)
      ∷ (codes "schedule_time", of_text (codes "03:30"))
      ∷ (codes "timezone", of_text (codes "Asia/Shanghai"))
      ∷ (codes "refresh_concurrency", of_nat 40)
      ∷ (codes "health_concurrency", of_nat 8)
      ∷ (codes "max_retries", of_nat 3)
      ∷ []

  abbrev pub default_run : Dict J
  default_run = (codes "date", of_text []) ∷ (codes "at", of_text []) ∷ []

  abbrev pub default_settings : Dict (Dict J)
  default_settings =
      (codes "refresh_policy", default_policy) ∷ (codes "last_scheduler_run", default_run) ∷ []

  unfoldable pub ensure_defaults : Dict (Dict J) → Dict (Dict J)
  unfolding add_missing
  ensure_defaults t = add_missing default_settings t

  -- `row.value or {}`
  abbrev pub value_of : Option (Dict J) → Dict J
  value_of none = []
  value_of (some value) = value

  unfoldable pub get_policy : Dict (Dict J) → Dict J
  unfolding update_all
  get_policy t = update_all default_policy (value_of (get (codes "refresh_policy") t))

  -- what the table says of a key of the policy
  abbrev pub stored_value : Text → Dict (Dict J) → Option J
  stored_value key t = get key (value_of (get (codes "refresh_policy") t))

  default_policy-IsDistinct : IsDistinct default_policy
  unfolding contains text_eq
  default_policy-IsDistinct = (refl, (refl, (refl, (refl, (refl, (refl, tt))))))

  default_settings-IsDistinct : IsDistinct default_settings
  unfolding contains text_eq
  default_settings-IsDistinct = (refl, (refl, tt))

  get-ensure_defaults :
      (t : Dict (Dict J)) (name : Text)
      → get name (ensure_defaults t) ≡ or_else (get name t) (get name default_settings)
  unfolding ensure_defaults
  get-ensure_defaults t name = get-add_missing name default_settings t default_settings-IsDistinct

  policy_after :
      (t : Dict (Dict J))
      → get (codes "refresh_policy") (ensure_defaults t)
        ≡ or_else (get (codes "refresh_policy") t) (some default_policy)
  policy_after t = get-ensure_defaults t (codes "refresh_policy") ∙ unfold get text_eq in refl

  -- Where the keys of the stored policy are distinct, behind `ensure_defaults` each key of the policy
  -- is what was stored, or else the default, every setting that was there is as it was, and a
  -- setting that was not there is its default.
  pub get_policy-ensure_defaults :
      (t : Dict (Dict J)) (key name : Text)
      → IsDistinct (value_of (get (codes "refresh_policy") t))
      → (get key (get_policy (ensure_defaults t))
          ≡ or_else (stored_value key t) (get key default_policy))
        × (get name (ensure_defaults t) ≡ or_else (get name t) (get name default_settings))
  unfolding get_policy get
  get_policy-ensure_defaults t key name h = (
    elim (Option-cases (get (codes "refresh_policy") t)) [
      | inl e ↦
          let after : get (codes "refresh_policy") (ensure_defaults t) ≡ some default_policy =
            policy_after t ∙ rw e in
          rw (after, e)
            (get-update_all key default_policy default_policy default_policy-IsDistinct
              ∙ or_else_self (get key default_policy))
      | inr (value, e) ↦
          let after : get (codes "refresh_policy") (ensure_defaults t) ≡ some value =
            policy_after t ∙ rw e in
          rw (after, e) (get-update_all key default_policy value (rw e at h))
    ],
    get-ensure_defaults t name,
  )

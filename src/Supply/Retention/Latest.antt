-- ===== src/Supply/Retention/Latest.antt =====
-- pi_supply/retention.py, `_retention_facts`: the dictionary of the latest passed checks.
use paper_radar.Prelude.{
  All, All-map, Among, Bool-cases, List, Option, Option-cases, String, [], append-nil, append_assoc,
  arith, eq_iff, eq_refl, false, inl, inr, keep, map, none, refl, some, str_eq, subst, sym, true,
  ◌++◌, ◌∷◌, ◌≡◌,
}
use paper_radar.Prelude.Int.{ℤ}
use paper_radar.Prelude.Text.{text_leb_other, text_leb_trans}
use paper_radar.Supply.Retention.{
  CheckCandidate, InstallCheck, InstallInstance, Latest, SupplyRecord, add_candidate, add_checks,
  add_installs, add_over, add_records, candidate_leb, candidate_of, get_scope, install_of,
  latest_of, set_scope,
}

-- All passed checks under their scopes, in the order of the records.
module _ (fromisoformat : String → ℤ) where
  abbrev passed_of : InstallInstance → List InstallCheck → List (String × CheckCandidate)
  passed_of i checks =
      map (λ (c : InstallCheck). (c.scope, candidate_of fromisoformat i c))
        (keep (λ (c : InstallCheck). c.is_passed) checks)

  unfoldable pub passed_installs : List InstallInstance → List (String × CheckCandidate)
  passed_installs [] = []
  passed_installs (i ∷ is) = passed_of i i.checks ++ passed_installs is

  unfoldable pub passed_checks : List SupplyRecord → List (String × CheckCandidate)
  passed_checks [] = []
  passed_checks (r ∷ rs) = passed_installs r.installs ++ passed_checks rs

-- Of the candidates of a scope, the greatest, if there is any.
abbrev pub IsLatest : List (String × CheckCandidate) → String → Option CheckCandidate → Type 0
IsLatest seen scope none = All (λ (p : String × CheckCandidate). str_eq p.0 scope ≡ false) seen
IsLatest seen scope (some c) =
    Among (scope, c) seen
    × All (λ (p : String × CheckCandidate). str_eq p.0 scope ≡ true → candidate_leb p.1 c ≡ true)
        seen

candidate_leb_other : (a b : CheckCandidate) → candidate_leb a b ≡ false → candidate_leb b a ≡ true
unfolding candidate_leb
candidate_leb_other a b h = ground (arith, text_leb_other a.install_id b.install_id)

candidate_leb_trans :
    (a b c : CheckCandidate)
    → candidate_leb a b ≡ true
    → candidate_leb b c ≡ true
    → candidate_leb a c ≡ true
unfolding candidate_leb
candidate_leb_trans a b c h k =
    ground (arith, text_leb_trans a.install_id b.install_id c.install_id)

candidate_leb_refl : (a : CheckCandidate) → candidate_leb a a ≡ true
candidate_leb_refl a = elim (Bool-cases (candidate_leb a a)) [
  | inl e ↦ e
  | inr e ↦ candidate_leb_other a a e
]

get_scope-set_scope :
    (s : String) (c : CheckCandidate) (l : Latest) → get_scope s (set_scope s c l) ≡ some c
unfolding get_scope set_scope
get_scope-set_scope s c [] = rw (eq_refl s)
get_scope-set_scope s c ((key, d) ∷ rest) = elim (Bool-cases (str_eq key s)) [
  | inl e ↦ rw (e, e)
  | inr e ↦ rw (e, e, get_scope-set_scope s c rest)
]

get_scope-set_scope_other :
    (s t : String) (c : CheckCandidate) (l : Latest)
    → str_eq s t ≡ false
    → get_scope t (set_scope s c l) ≡ get_scope t l
unfolding get_scope set_scope
get_scope-set_scope_other s t c [] h = rw h
get_scope-set_scope_other s t c ((key, d) ∷ rest) h = elim (Bool-cases (str_eq key s)) [
  | inl e ↦
      let same : key ≡ s = (eq_iff key s).0 e in
      let differs : str_eq key t ≡ false = subst (λ x. str_eq x t ≡ false) (sym same) h in
      rw (e, differs)
  | inr e ↦ rw (e, get_scope-set_scope_other s t c rest h)
]

Among-snoc : {A : Type 0} (a : A) (xs : List A) → Among a (xs ++ a ∷ [])
Among-snoc a [] = inl refl
Among-snoc a (x ∷ xs) = inr (Among-snoc a xs)

Among-append : {A : Type 0} (a : A) (xs ys : List A) → Among a xs → Among a (xs ++ ys)
Among-append a [] ys m = absurd m
Among-append a (x ∷ xs) ys (inl e) = inl e
Among-append a (x ∷ xs) ys (inr m) = inr (Among-append a xs ys m)

All-snoc :
    {A : Type 0} (P : A → Type 0) (xs : List A) (a : A) → All P xs → P a → All P (xs ++ a ∷ [])
All-snoc P [] a h p = (p, tt)
All-snoc P (x ∷ xs) a h p = (h.0, All-snoc P xs a h.1 p)

-- A candidate of another scope changes nothing.
IsLatest-other :
    (seen : List (String × CheckCandidate)) (scope s : String) (c : CheckCandidate)
    (o : Option CheckCandidate)
    → str_eq s scope ≡ false
    → IsLatest seen scope o
    → IsLatest (seen ++ (s, c) ∷ []) scope o
IsLatest-other seen scope s c none h l = All-snoc _ seen (s, c) l h
IsLatest-other seen scope s c (some d) h l =
    (Among-append _ seen _ l.0, All-snoc _ seen (s, c) l.1 (λ e. cc))

-- The first candidate of a scope, a greater one, and one that is not.
IsLatest-first :
    (seen : List (String × CheckCandidate)) (s : String) (c : CheckCandidate)
    → IsLatest seen s none
    → IsLatest (seen ++ (s, c) ∷ []) s (some c)
IsLatest-first seen s c l = (
  Among-snoc (s, c) seen,
  All-snoc _ seen (s, c) (All-map _ _ seen (λ p h e. cc) l) (λ _. candidate_leb_refl c),
)

IsLatest-greater :
    (seen : List (String × CheckCandidate)) (s : String) (c d : CheckCandidate)
    → candidate_leb c d ≡ false
    → IsLatest seen s (some d)
    → IsLatest (seen ++ (s, c) ∷ []) s (some c)
IsLatest-greater seen s c d h l = (
  Among-snoc (s, c) seen,
  All-snoc _ seen (s, c)
      (All-map _ _ seen (λ p le e. candidate_leb_trans p.1 d c (le e) (candidate_leb_other c d h))
        l.1)
      (λ _. candidate_leb_refl c),
)

IsLatest-kept :
    (seen : List (String × CheckCandidate)) (s : String) (c d : CheckCandidate)
    → candidate_leb c d ≡ true
    → IsLatest seen s (some d)
    → IsLatest (seen ++ (s, c) ∷ []) s (some d)
IsLatest-kept seen s c d h l = (Among-append _ seen _ l.0, All-snoc _ seen (s, c) l.1 (λ _. h))

-- The dictionary has the latest of every scope.
abbrev pub IsDescribed : List (String × CheckCandidate) → Latest → Type 0
IsDescribed seen latest = (scope : String) → IsLatest seen scope (get_scope scope latest)

add_candidate-IsDescribed :
    (seen : List (String × CheckCandidate)) (latest : Latest) (s : String) (c : CheckCandidate)
    → IsDescribed seen latest
    → IsDescribed (seen ++ (s, c) ∷ []) (add_candidate s c latest)
unfolding add_over
add_candidate-IsDescribed seen latest s c h scope = elim (Bool-cases (str_eq s scope)) [
  | inl e ↦
      subst (λ x. IsLatest (seen ++ (s, c) ∷ []) x (get_scope x (add_candidate s c latest)))
        ((eq_iff s scope).0 e) same
  | inr e ↦ other e
]
  where
    seen' : List (String × CheckCandidate)
    seen' = seen ++ (s, c) ∷ []

    same : IsLatest seen' s (get_scope s (add_candidate s c latest))
    same = elim (Option-cases (get_scope s latest)) [
      | inl n ↦
          let e : get_scope s (add_candidate s c latest) ≡ some c =
            rw (n, get_scope-set_scope s c latest) in
          subst (IsLatest seen' s) (sym e)
            (IsLatest-first seen s c (subst (IsLatest seen s) n (h s)))
      | inr (d, has) ↦
          let l = subst (IsLatest seen s) has (h s) in
          elim (Bool-cases (candidate_leb c d)) [
            | inl le ↦
                let e : get_scope s (add_candidate s c latest) ≡ some d = rw (has, le, has) in
                subst (IsLatest seen' s) (sym e) (IsLatest-kept seen s c d le l)
            | inr gt ↦
                let e : get_scope s (add_candidate s c latest) ≡ some c =
                  rw (has, gt, get_scope-set_scope s c latest) in
                subst (IsLatest seen' s) (sym e) (IsLatest-greater seen s c d gt l)
          ]
    ]

    unchanged :
        str_eq s scope ≡ false → get_scope scope (add_candidate s c latest) ≡ get_scope scope latest
    unchanged differs = elim (Option-cases (get_scope s latest)) [
      | inl n ↦ rw (n, get_scope-set_scope_other s scope c latest differs)
      | inr (d, has) ↦ elim (Bool-cases (candidate_leb c d)) [
        | inl le ↦ rw (has, le)
        | inr gt ↦ rw (has, gt, get_scope-set_scope_other s scope c latest differs)
      ]
    ]

    other :
        str_eq s scope ≡ false → IsLatest seen' scope (get_scope scope (add_candidate s c latest))
    other differs =
        subst (IsLatest seen' scope) (sym (unchanged differs))
          (IsLatest-other seen scope s c (get_scope scope latest) differs (h scope))

module _ (fromisoformat : String → ℤ) where
  add_checks-IsDescribed :
      (i : InstallInstance) (checks : List InstallCheck) (seen : List (String × CheckCandidate))
      (latest : Latest)
      → IsDescribed seen latest
      → IsDescribed
          (seen ++ passed_of fromisoformat i checks)
          (add_checks fromisoformat i checks latest)
  unfolding add_checks
  add_checks-IsDescribed i [] seen latest h =
      subst (λ xs. IsDescribed xs latest) (sym (append-nil seen)) h
  add_checks-IsDescribed i (check ∷ checks) seen latest h = elim (Bool-cases check.is_passed) [
    | inl e ↦
        let c = candidate_of fromisoformat i check in
        let described =
          add_checks-IsDescribed i checks _ (add_candidate check.scope c latest)
            (add_candidate-IsDescribed seen latest check.scope c h) in
        rw e (
          subst
            (λ xs.
              IsDescribed xs
                (add_checks fromisoformat i checks (add_candidate check.scope c latest)))
            (append_assoc seen ((check.scope, c) ∷ []) (passed_of fromisoformat i checks))
            described)
    | inr e ↦ rw e (add_checks-IsDescribed i checks seen latest h)
  ]

  add_installs-IsDescribed :
      (is : List InstallInstance) (seen : List (String × CheckCandidate)) (latest : Latest)
      → IsDescribed seen latest
      → IsDescribed
          (seen ++ passed_installs fromisoformat is)
          (add_installs fromisoformat is latest)
  unfolding add_installs passed_installs
  add_installs-IsDescribed [] seen latest h =
      subst (λ xs. IsDescribed xs latest) (sym (append-nil seen)) h
  add_installs-IsDescribed (i ∷ is) seen latest h =
      subst
        (λ xs.
          IsDescribed xs
            (add_installs fromisoformat is (add_checks fromisoformat i i.checks latest)))
        (append_assoc seen (passed_of fromisoformat i i.checks) (passed_installs fromisoformat is))
        (add_installs-IsDescribed is _ _ (add_checks-IsDescribed i i.checks seen latest h))

  add_records-IsDescribed :
      (rs : List SupplyRecord) (seen : List (String × CheckCandidate)) (latest : Latest)
      → IsDescribed seen latest
      → IsDescribed (seen ++ passed_checks fromisoformat rs) (add_records fromisoformat rs latest)
  unfolding add_records passed_checks
  add_records-IsDescribed [] seen latest h =
      subst (λ xs. IsDescribed xs latest) (sym (append-nil seen)) h
  add_records-IsDescribed (r ∷ rs) seen latest h =
      subst
        (λ xs.
          IsDescribed xs
            (add_records fromisoformat rs (add_installs fromisoformat r.installs latest)))
        (append_assoc seen (passed_installs fromisoformat r.installs)
          (passed_checks fromisoformat rs))
        (add_records-IsDescribed rs _ _ (add_installs-IsDescribed r.installs seen latest h))

  -- The install of a scope is that of the greatest of its passed checks, by time, then id, then
  -- install; there is none exactly when no check of the scope has passed.
  pub latest_of-IsLatest :
      (records : List SupplyRecord) (scope : String)
      → (o : Option CheckCandidate) × IsLatest (passed_checks fromisoformat records) scope o
        × (latest_of fromisoformat records scope ≡ install_of o)
  unfolding latest_of get_scope
  latest_of-IsLatest records scope = (
    get_scope scope (add_records fromisoformat records []),
    add_records-IsDescribed records [] [] (λ s. tt) scope,
    refl,
  )

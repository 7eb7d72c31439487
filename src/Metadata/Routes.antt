-- ===== src/Metadata/Routes.antt =====
-- feed_metadata/projection.py: which routes a paper must have, told of its DOI and of the answer of its
-- agency.
use paper_radar.Prelude.{
  All, All-Among, All-map, Among, Bool, Bool-cases, List, Option, Option-cases, String, [], all,
  and_first, and_second, ap, arith, false, if◌then◌else◌, inl, inr, map, none, refl, some, subst,
  sym, true, ◌++◌, ◌||◌, ◌↔◌, ◌∙◌, ◌∷◌, ◌≡◌, ◌≢◌, ◌⊎◌,
}
use paper_radar.Prelude.Text.{opt_is, opt_is_empty, opt_is_iff}
use paper_radar.Sources.{
  Route, SourceReason, acquired, doi_ra, is_acquired, publisher, registry_crossref,
  registry_datacite, route_eq,
}
use paper_radar.Metadata.{
  MetadataBasis, MetadataRoute, RegistryApplicability, agency_missing, applicability_of, applicable,
  expected_routes, find_route, has_route, is_registered, registry_applicability_of, registry_of,
  same_routes,
}

-- A route is there.
abbrev pub HasRoute : Route → List MetadataRoute → Type 0
HasRoute r values = (v : MetadataRoute) × Among v values × (v.route ≡ r)

-- The routes are those to the agency, to the publisher and to a registry.
pub record IsExactly (registry : Route) (values : List MetadataRoute) : Type 0 where
  pub each : All (λ v. (v.route ≡ doi_ra) ⊎ ((v.route ≡ publisher) ⊎ (v.route ≡ registry))) values
  pub has_publisher : HasRoute publisher values
  pub has_registry : HasRoute registry values

-- The paper has a DOI, its agency has been acquired and is Crossref or DataCite, and the routes are the
-- agency, the publisher and the registry of the agency.
pub record IsRegistered (doi : Option String) (values : List MetadataRoute) : Type 0 where
  pub has_doi : opt_is_empty doi ≡ false
  pub routing : MetadataRoute
  pub found : find_route doi_ra values ≡ some routing
  pub answered : routing.reason ≡ acquired
  pub exact :
      ((routing.agency ≡ some "Crossref") × IsExactly registry_crossref values)
      ⊎ ((routing.agency ≡ some "DataCite") × IsExactly registry_datacite values)

-- A paper without a DOI has no routes.
abbrev pub IsRouted : Option String → List MetadataRoute → Type 0
IsRouted doi values = ((doi ≡ none) × (values ≡ [])) ⊎ IsRegistered doi values

route_eq_iff : (a b : Route) → (route_eq a b ≡ true) ↔ (a ≡ b)
route_eq_iff a b = ground arith

acquired_iff : (r : SourceReason) → is_acquired r ≡ true → r ≡ acquired
acquired_iff r h = ground arith

abbrev routes_of : List MetadataRoute → List Route
routes_of values = map (λ (v : MetadataRoute). v.route) values

has_route_sound :
    (r : Route) (values : List MetadataRoute)
    → has_route (routes_of values) r ≡ true
    → HasRoute r values
has_route_sound r [] h = cc
has_route_sound r (v ∷ values) h = elim (Bool-cases (route_eq r v.route)) [
  | inl e ↦ (v, inl refl, sym ((route_eq_iff r v.route).0 e))
  | inr e ↦
      let h' : has_route (routes_of values) r ≡ true = rw e at h in
      let (w, among, same) = has_route_sound r values h' in (w, inr among, same)
]

has_route_complete :
    (r : Route) (values : List MetadataRoute) (v : MetadataRoute)
    → Among v values
    → v.route ≡ r
    → has_route (routes_of values) r ≡ true
has_route_complete r [] v m e = absurd m
has_route_complete r (w ∷ values) v (inl same) e =
    let equal : route_eq r w.route ≡ true =
      (route_eq_iff r w.route).1 (sym e ∙ ap (λ (x : MetadataRoute). x.route) same) in
    rw equal refl
has_route_complete r (w ∷ values) v (inr m) e =
    rw (has_route_complete r values v m e) (or_true (route_eq r w.route))
  where
    or_true : (b : Bool) → (b || true) ≡ true
    or_true true = refl
    or_true false = refl

find_route_found :
    (r : Route) (values : List MetadataRoute) (v : MetadataRoute)
    → find_route r values ≡ some v
    → Among v values × (v.route ≡ r)
find_route_found r [] v h = cc
find_route_found r (w ∷ values) v h = elim (Bool-cases (route_eq w.route r)) [
  | inl e ↦
      let h' : some w ≡ some v = rw e at h in
      let same : w ≡ v = cc in
      (
        inl (sym same),
        ap (λ (x : MetadataRoute). x.route) (sym same) ∙ (route_eq_iff w.route r).0 e,
      )
  | inr e ↦
      let h' : find_route r values ≡ some v = rw e at h in
      let (among, same) = find_route_found r values v h' in (inr among, same)
]

pub all_iff :
    {A : Type 0} (p : A → Bool) (xs : List A) → (all p xs ≡ true) ↔ All (λ x. p x ≡ true) xs
all_iff p [] = (λ h. tt, λ h. refl)
all_iff p (x ∷ xs) = (
  λ h. (and_first (p x) _ h, (all_iff p xs).0 (and_second (p x) _ h)),
  λ h. rw (h.0, (all_iff p xs).1 h.1) refl,
)

abbrev three : Route → List Route
three registry = doi_ra ∷ publisher ∷ registry ∷ []

one_of_three :
    (registry r : Route)
    → (has_route (three registry) r ≡ true) ↔ ((r ≡ doi_ra) ⊎ ((r ≡ publisher) ⊎ (r ≡ registry)))
one_of_three registry r = ground arith

same_routes-IsExactly :
    (registry : Route) (values : List MetadataRoute)
    → same_routes (three registry) values ≡ true
    → IsExactly registry values
unfolding same_routes
same_routes-IsExactly registry values h =
    let has = has_route (routes_of values) in
    let front = and_first (all has (three registry)) _ h in
    let back = and_second (all has (three registry)) _ h in
    let later = and_second (has doi_ra) _ front in
    let last = and_second (has publisher) _ later in
    record {
      each =
          All-map (λ v. has_route (three registry) v.route ≡ true) _ values
            (λ v e. (one_of_three registry v.route).0 e)
            ((all_iff (λ (v : MetadataRoute). has_route (three registry) v.route) values).0 back);
      has_publisher = has_route_sound publisher values (and_first (has publisher) _ later);
      has_registry = has_route_sound registry values (and_first (has registry) _ last);
    }

IsExactly-same_routes :
    (registry : Route) (values : List MetadataRoute) (routing : MetadataRoute)
    → find_route doi_ra values ≡ some routing
    → IsExactly registry values
    → same_routes (three registry) values ≡ true
unfolding same_routes
IsExactly-same_routes registry values routing f i =
    let (m, same) = find_route_found doi_ra values routing f in
    let first = has_route_complete doi_ra values routing m same in
    let second =
      has_route_complete publisher values i.has_publisher.0 i.has_publisher.1 i.has_publisher.2 in
    let third =
      has_route_complete registry values i.has_registry.0 i.has_registry.1 i.has_registry.2 in
    let back = (all_iff (λ (v : MetadataRoute). has_route (three registry) v.route) values).1 (
      All-map _ (λ v. has_route (three registry) v.route ≡ true) values
        (λ v e. (one_of_three registry v.route).1 e) i.each) in
    rw (first, second, third, back) refl

none_same : (values : List MetadataRoute) → same_routes [] values ≡ true → values ≡ []
unfolding same_routes
none_same [] h = refl
none_same (v ∷ values) h = cc

none_again : same_routes [] [] ≡ true
unfolding same_routes
none_again = refl

-- One registry alone is not what there is, where the agency is there.
one_alone :
    (registry : Route) (values : List MetadataRoute) (routing : MetadataRoute)
    → registry ≢ doi_ra
    → find_route doi_ra values ≡ some routing
    → same_routes (registry ∷ []) values ≢ true
unfolding same_routes
one_alone registry values routing other f h =
    let (m, same) = find_route_found doi_ra values routing f in
    let back = and_second (all (has_route (routes_of values)) (registry ∷ [])) _ h in
    let each = (all_iff (λ (v : MetadataRoute). has_route (registry ∷ []) v.route) values).0 back in
    let this = All-Among _ values routing each m in
    other (one_of_one registry doi_ra (subst (λ r. has_route (registry ∷ []) r ≡ true) same this))
  where
    one_of_one : (registry r : Route) → has_route (registry ∷ []) r ≡ true → registry ≡ r
    one_of_one registry r h = ground arith

-- The agency of an answer that is known: it has been acquired, and has a registry.
record IsKnown (routing : MetadataRoute) : Type 0 where
  answered : routing.reason ≡ acquired
  is_applicable : applicability_of (some routing) ≡ applicable
  agency : (routing.agency ≡ some "Crossref") ⊎ (routing.agency ≡ some "DataCite")

agency-IsKnown :
    (routing : MetadataRoute)
    → agency_missing (applicability_of (some routing)) ≡ []
    → IsKnown routing
agency-IsKnown routing h =
    let known : (is_acquired routing.reason ≡ true) × (is_registered routing.agency ≡ true) =
      ground arith in
    record {
      answered = acquired_iff routing.reason known.0;
      is_applicable = rw (known.0, known.1) refl;
      agency = elim (Bool-cases (opt_is routing.agency "Crossref")) [
        | inl c ↦ inl ((opt_is_iff routing.agency "Crossref").0 c)
        | inr c ↦
            let other : opt_is routing.agency "DataCite" ≡ true = rw c at known.1 in
            inr ((opt_is_iff routing.agency "DataCite").0 other)
      ];
    }

abbrev first_routes : Option String → List Route
first_routes doi = if opt_is_empty doi then [] else doi_ra ∷ publisher ∷ []

named_routes :
    (doi : Option String) (registry : Route) (values : List MetadataRoute) (routing : MetadataRoute)
    → registry ≢ doi_ra
    → find_route doi_ra values ≡ some routing
    → same_routes (first_routes doi ++ registry ∷ []) values ≡ true
    → (opt_is_empty doi ≡ false) × IsExactly registry values
named_routes doi registry values routing other f h = elim (Bool-cases (opt_is_empty doi)) [
  | inl e ↦
      let h' : same_routes (registry ∷ []) values ≡ true = rw e at h in
      absurd (one_alone registry values routing other f h')
  | inr e ↦
      let h' : same_routes (three registry) values ≡ true = rw e at h in
      (e, same_routes-IsExactly registry values h')
]

registered :
    (doi : Option String) (values : List MetadataRoute) (routing : MetadataRoute)
    → find_route doi_ra values ≡ some routing
    → IsKnown routing
    → same_routes (first_routes doi ++ registry_of (some routing)) values ≡ true
    → IsRegistered doi values
registered doi values routing f k s = elim k.agency [
  | inl c ↦
      let s' : same_routes (first_routes doi ++ registry_crossref ∷ []) values ≡ true = rw c at s in
      let (has_doi, exact) = named_routes doi registry_crossref values routing (λ h. cc) f s' in
      record {
        has_doi = has_doi;
        routing = routing;
        found = f;
        answered = k.answered;
        exact = inl (c, exact);
      }
  | inr c ↦
      let s' : same_routes (first_routes doi ++ registry_datacite ∷ []) values ≡ true = rw c at s in
      let (has_doi, exact) = named_routes doi registry_datacite values routing (λ h. cc) f s' in
      record {
        has_doi = has_doi;
        routing = routing;
        found = f;
        answered = k.answered;
        exact = inr (c, exact);
      }
]

module _ (basis : MetadataBasis) (values : List MetadataRoute) where
  abbrev found_agency : RegistryApplicability
  found_agency = registry_applicability_of basis (find_route doi_ra values)

  pub same_routes-IsRouted :
      agency_missing found_agency ≡ []
      → same_routes (expected_routes basis (find_route doi_ra values) found_agency) values ≡ true
      → IsRouted basis.doi values
  unfolding registry_applicability_of expected_routes
  same_routes-IsRouted a s = elim (Option-cases basis.doi) [
    | inl e ↦ let s' : same_routes [] values ≡ true = rw e at s in inl (e, none_same values s')
    | inr (d, e) ↦ elim (Option-cases (find_route doi_ra values)) [
      | inl n ↦ absurd (unknown_apart (rw (e, n) at a))
      | inr (routing, f) ↦
          let a' : agency_missing (applicability_of (some routing)) ≡ [] = rw (e, f) at a in
          let k = agency-IsKnown routing a' in
          let s' : same_routes (first_routes (some d) ++ registry_of (some routing)) values ≡ true =
            rw (e, f, k.is_applicable, f) at s in
          inr (
            subst (λ doi. IsRegistered doi values) (sym e)
              (registered (some d) values routing f k s'))
    ]
  ]
    where
      unknown_apart : agency_missing (applicability_of none) ≢ []
      unknown_apart h = cc

  pub IsRouted-same_routes :
      IsRouted basis.doi values
      → (agency_missing found_agency ≡ [])
        × (same_routes (expected_routes basis (find_route doi_ra values) found_agency) values
            ≡ true)
  unfolding registry_applicability_of expected_routes
  IsRouted-same_routes (inl (e, v)) = (rw e refl, rw (e, v) none_again)
  IsRouted-same_routes (inr r) = elim (Option-cases basis.doi) [
    | inl e ↦ let h : true ≡ false = rw e at r.has_doi in cc
    | inr (d, e) ↦ elim r.exact [
      | inl (c, exact) ↦
          let again = IsExactly-same_routes registry_crossref values r.routing r.found exact in
          (
            rw (e, r.found, r.answered, c) refl,
            rw (r.has_doi, e, r.found, r.answered, c, r.found, c) again,
          )
      | inr (c, exact) ↦
          let again = IsExactly-same_routes registry_datacite values r.routing r.found exact in
          (
            rw (e, r.found, r.answered, c) refl,
            rw (r.has_doi, e, r.found, r.answered, c, r.found, c) again,
          )
    ]
  ]

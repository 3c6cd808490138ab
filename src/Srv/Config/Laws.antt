-- ===== src/Srv/Config/Laws.antt =====
-- srv/config.go: what Validate accepts, and what the numbers of the processes are.
use text.Mathlib.Text.{◌==◌}
use mathlib.Core.Bool.{true≢false}
use text.Mathlib.TextEquality.{eq_iff}
use open_peacock.Prelude.{
  ℕ, ◌≡◌, ◌≢◌, refl, sym, ap, ◌∙◌, ◌⊎◌, inl, inr, ◌↔◌, true, false, ◌&&◌, Option, none, some, List,
  [], length, get_elem?, String, if◌then◌else◌, arith, Bool-cases,
}
use open_peacock.Prelude.Int.{ℤ, pos, negsuc, leb_ℤ}
use open_peacock.Prelude.Run.{Run, ok, ◌>>=◌}
use open_peacock.Srv.Config.{
  Squad, Config, ConfigError, not_allocatable, one_sided, is_empty, all_squad_errors, index_where,
  allocate_squads_and_aggregators, check_squads, validate, squad_id, member_id, sampler_id,
  loader_id,
}
use open_peacock.Srv.Config.Search.{IsFirst, index_cases, index_where-IsFirst}
use open_peacock.Srv.Config.Squads.{
  AllComplete, text_false→ne, is_empty→nil, empty_by_length, zero_by_empty, nonempty→ne, List-cases,
  all_squad_errors-nil,
}

module _ {F : Type 0} where
  -- The number of a squad is the first index at which its coordinator stands, and -1 if no squad has
  -- that coordinator.
  pub squad_id-IsFirst :
      (c : Config F) (addr : String)
      → IsFirst (λ s. s.coordinator == addr) c.squads (squad_id c addr)
  unfolding squad_id
  squad_id-IsFirst c addr = index_where-IsFirst (λ s. s.coordinator == addr) c.squads

  -- The configurations that Validate accepts.
  abbrev pub IsValid : Config F → Type 0
  IsValid c =
      (c.job_name ≢ "")
      × (c.master ≢ "")
      × (c.aggregators ≢ [])
      × (c.squads ≢ [])
      × AllComplete (length c.aggregators) c.squads

  -- What the part of Validate behind the allocation returns.
  check_squads_iff :
      (c d : Config F)
      → is_empty c.aggregators ≡ false
      → is_empty c.squads ≡ false
      → (check_squads c ≡ (none, d)) ↔ (
          AllComplete (length c.aggregators) c.squads
          × (d ≡ record c { num_v_shards = pos (length c.aggregators) }))
  unfolding check_squads
  check_squads_iff c d a s =
      elim (List-cases (all_squad_errors (pos (length c.aggregators)) 0 c.squads)) [
        | inl e ↦
            rw (empty_by_length c.aggregators, zero_by_empty c.aggregators, a, s, e)
              ((λ h. ((all_squad_errors-nil _ 0 c.squads).0 e, cc), λ (v, h). rw h))
        | inr (y, ys, e) ↦
            rw (empty_by_length c.aggregators, zero_by_empty c.aggregators, a, s, e)
              ((λ h. cc, λ (v, h). cc (sym e ∙ (all_squad_errors-nil _ 0 c.squads).1 v)))
      ]

  one_sided-aggregators :
      (c : Config F) → is_empty c.aggregators ≡ true → check_squads c ≡ (some one_sided, c)
  unfolding check_squads
  one_sided-aggregators c h = rw (empty_by_length c.aggregators, h)

  one_sided-squads :
      (c : Config F) → is_empty c.squads ≡ true → check_squads c ≡ (some one_sided, c)
  unfolding check_squads
  one_sided-squads c h = elim (Bool-cases (is_empty c.aggregators)) [
    | inl a ↦ one_sided-aggregators c a
    | inr a ↦ rw (empty_by_length c.aggregators, a, h)
  ]

  -- Validate behind the tests on the two names.
  ok_inj : (r s : Option ConfigError × Config F) → ok r ≡ ok s → r ≡ s
  ok_inj r s h = cc

  refuses :
      (c d : Config F)
      → (is_empty c.aggregators ≡ true) ⊎ (is_empty c.squads ≡ true)
      → (if is_empty c.aggregators && is_empty c.squads
          then (if is_empty c.machines
              then ok (some (not_allocatable true (leb_ℤ c.num_v_shards (pos 0))), c)
              else if leb_ℤ c.num_v_shards (pos 0)
              then ok (some (not_allocatable false true), c)
              else allocate_squads_and_aggregators c >>= λ d. ok (check_squads d))
          else ok (check_squads c))
        ≢ ok (none, d)
  unfolding allocate_squads_and_aggregators
  refuses c d one h = ground (arith, one_sided-aggregators c, one_sided-squads c)

  -- Validate returns no error exactly for the configurations with a job name, a master, aggregators
  -- and squads, in which every squad has a coordinator and as many loaders and samplers as there are
  -- aggregators; then it changes NumVShards to that number and nothing else. So a configuration with
  -- no aggregators is refused also where it has one squad, and none is completed from its machines.
  pub validate_iff :
      (c d : Config F)
      → (validate c ≡ ok (none, d))
        ↔ (IsValid c × (d ≡ record c { num_v_shards = pos (length c.aggregators) }))
  unfolding validate check_squads allocate_squads_and_aggregators
  validate_iff c d = elim (Bool-cases (c.job_name == "")) [
    | inl q ↦ rw q (λ h. cc, λ (v, e). absurd (v.0 ((eq_iff c.job_name "").0 q)))
    | inr q ↦ rw q (elim (Bool-cases (c.master == "")) [
      | inl r ↦ rw r (λ h. cc, λ (v, e). absurd (v.1 ((eq_iff c.master "").0 r)))
      | inr r ↦ rw r (elim (Bool-cases (is_empty c.aggregators)) [
        | inl a ↦ (
          λ h. absurd (refuses c d (inl a) h),
          λ ((u, v, w, x, y), e). absurd (w (is_empty→nil c.aggregators a)),
        )
        | inr a ↦ elim (Bool-cases (is_empty c.squads)) [
          | inl b ↦ (
            λ h. absurd (refuses c d (inr b) h),
            λ ((u, v, w, x, y), e). absurd (x (is_empty→nil c.squads b)),
          )
          | inr b ↦ rw a (
            λ h.
                (let (y, e) = (check_squads_iff c d a b).0 (ok_inj _ _ h) in
                  (
                    (
                      text_false→ne c.job_name "" q,
                      text_false→ne c.master "" r,
                      nonempty→ne c.aggregators a,
                      nonempty→ne c.squads b,
                      y,
                    ),
                    e,
                  )),
            λ ((u, v, w, x, y), e). ap ok ((check_squads_iff c d a b).1 (y, e)),
          )
        ]
      ])
    ])
  ]

  -- A pair of numbers for a coordinator and an address: either a squad with that coordinator and the
  -- index of that address in it, or (-1, -1) where the squad that SquadId finds, if any, does not
  -- have the address.
  abbrev pub IsMemberId : (Squad → List String) → Config F → String → String → Run (ℤ × ℤ) → Type 0
  IsMemberId members c coord addr r =
      ((sid i : ℕ) × (s : Squad) × (r ≡ ok (pos sid, pos i))
        × (get_elem? c.squads sid ≡ some s)
        × (s.coordinator ≡ coord)
        × (get_elem? (members s) i ≡ some addr))
      ⊎ ((r ≡ ok (negsuc 0, negsuc 0))
          × ((sid j : ℕ) (s : Squad)
              → squad_id c coord ≡ pos sid
              → get_elem? c.squads sid ≡ some s
              → get_elem? (members s) j ≢ some addr))

  member_id-no_squad :
      (members : Squad → List String) (c : Config F) (coord addr : String)
      → squad_id c coord ≡ negsuc 0
      → member_id members c coord addr ≡ ok (negsuc 0, negsuc 0)
  unfolding member_id
  member_id-no_squad members c coord addr e = rw (member_id, e)

  member_id-at :
      (members : Squad → List String) (c : Config F) (coord addr : String) (sid : ℕ) (s : Squad)
      → squad_id c coord ≡ pos sid
      → get_elem? c.squads sid ≡ some s
      → member_id members c coord addr
        ≡ elim (index_where (λ a. a == addr) 0 (members s)) as (λ _. Run (ℤ × ℤ)) [
          | pos i ↦ ok (pos sid, pos i)
          | negsuc _ ↦ ok (negsuc 0, negsuc 0)
        ]
  unfolding member_id
  member_id-at members c coord addr sid s e g = rw (member_id, e, ◌>>=◌, g)

  member_id-IsMemberId :
      (members : Squad → List String) (c : Config F) (coord addr : String)
      → IsMemberId members c coord addr (member_id members c coord addr)
  unfolding squad_id
  member_id-IsMemberId members c coord addr =
      elim (index_cases (λ s. s.coordinator == coord) c.squads) [
        | inl (e, h) ↦ inr (member_id-no_squad members c coord addr e, λ sid j s p. cc)
        | inr (sid, e, (s, at_sid, is_coord), before) ↦
            let found = member_id-at members c coord addr sid s e at_sid in
            elim (index_cases (λ a. a == addr) (members s)) [
              | inl (n, none_is) ↦ inr (
                rw n at found,
                λ sid' j s' p q g. true≢false (
                    sym ((eq_iff addr addr).1 refl)
                    ∙ none_is j addr (
                        ap (λ x. get_elem? (members x) j)
                          (same_squad sid sid' s s' (sym e ∙ p) at_sid q)
                        ∙ g)),
              )
              | inr (i, n, (a, at_i, is_addr), first) ↦ inl (
                sid,
                i,
                s,
                (rw n at found),
                at_sid,
                (eq_iff s.coordinator coord).0 is_coord,
                at_i ∙ ap some ((eq_iff a addr).0 is_addr),
              )
            ]
      ]
    where
      same_squad :
          (sid sid' : ℕ) (s s' : Squad)
          → pos sid ≡ pos sid'
          → get_elem? c.squads sid ≡ some s
          → get_elem? c.squads sid' ≡ some s'
          → s ≡ s'
      same_squad sid sid' s s' p g h = cc

  -- SamplerId never panics. It returns a squad with that coordinator and the index of the sampler in
  -- it, or (-1, -1) where the squad that SquadId finds, if any, does not have the sampler.
  pub sampler_id-IsMemberId :
      (c : Config F) (coord sampler : String)
      → IsMemberId (λ s. s.samplers) c coord sampler (sampler_id c coord sampler)
  unfolding sampler_id
  sampler_id-IsMemberId c coord sampler = member_id-IsMemberId (λ s. s.samplers) c coord sampler

  -- LoaderId never panics. It returns a squad with that coordinator and the index of the loader in
  -- it, or (-1, -1) where the squad that SquadId finds, if any, does not have the loader.
  pub loader_id-IsMemberId :
      (c : Config F) (coord loader : String)
      → IsMemberId (λ s. s.loaders) c coord loader (loader_id c coord loader)
  unfolding loader_id
  loader_id-IsMemberId c coord loader = member_id-IsMemberId (λ s. s.loaders) c coord loader

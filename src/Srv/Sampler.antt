-- ===== src/Srv/Sampler.antt =====
-- srv/sampler_service.go: a sampler: its start, and its call Sample, which does nothing yet.
use open_peacock.Prelude.{
  ◌⊎◌, inl, inr, ◌||◌, Option, none, some, List, [], length, get_elem?, String, if◌then◌else◌,
}
use open_peacock.Prelude.Int.{ℤ, pos, ltb_ℤ, to_index}
use open_peacock.Prelude.Run.{Run, ok, fatal, ◌>>=◌, or_panic}
use open_peacock.Srv.Config.{Config, Squad, sampler_id}
use open_peacock.Srv.World.{World}
use open_peacock.Srv.Connect.{Clients, connect_to}
use open_peacock.Srv.Aggregator.{Start, unknown_address, failed, serving}

pub record Sampler (F : Type 0) : Type 0 where
  pub cfg : Config F
  pub coord : String
  pub me : String
  pub squad : Squad
  pub aggregators : List (Option String)

module _ {F : Type 0} (w : World F) where
  open w use {State, Error, dial, call, listen}

  -- registerSampler
  unfoldable pub register : String → String → State → Option Error × State
  register coord sampler s =
      let (e, s') = dial coord s in
      elim e [ some x ↦ (some x, s') | none ↦ call coord "Coordinator.RegisterSampler" sampler s' ]

  -- The clients of a sampler: none in a test run without aggregators.
  unfoldable pub aggregators_or_test : Config F → (Error ⊎ Clients w) → Error ⊎ Clients w
  aggregators_or_test c (inr clients) = inr clients
  aggregators_or_test c (inl x) =
      if ltb_ℤ (pos 0) (pos (length c.aggregators)) then inl x else inr []

  -- RunSampler up to the wait for the end.
  unfoldable pub run_sampler :
      Config F → String → String → State → Run (Start Error (Sampler F) × State)
  unfolding register aggregators_or_test
  run_sampler c coord sampler s = sampler_id c coord sampler >>= λ (cid, sid).
      if ltb_ℤ cid (pos 0) || ltb_ℤ sid (pos 0)
      then ok (unknown_address, s)
      else (connect_to w c.aggregators s >>= λ (r, s₁). elim (aggregators_or_test c r) [
        | inl x ↦ ok (failed x, s₁)
        | inr clients ↦ or_panic (to_index cid) >>= λ n.
            or_panic (get_elem? c.squads n) >>= λ squad.
            let (e, s₂) = listen sampler s₁ in
            elim e [
              | some x ↦ fatal
              | none ↦
                  (let (e', s₃) = register coord sampler s₂ in
                    let sp : Sampler F = record {
                      cfg = c;
                      coord = coord;
                      me = sampler;
                      squad = squad;
                      aggregators = clients;
                    } in
                    elim e' [ some x ↦ ok (failed x, s₃) | none ↦ ok (serving sp, s₃) ])
            ]
      ])

  -- Sample
  unfoldable pub sample_call : Sampler F → ℤ → State → Option Error × State
  sample_call sp n s = (none, s)

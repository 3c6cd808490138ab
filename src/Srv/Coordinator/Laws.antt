-- ===== src/Srv/Coordinator/Laws.antt =====
-- srv/coordinator_service.go: the registration of the processes of a squad.
use text.Mathlib.Text.{◌==◌}
use open_peacock.Prelude.{
  ℕ, suc, ◌≤◌, ◌≡◌, ◌≢◌, refl, ◌↔◌, ◌⊎◌, inl, inr, Bool, true, false, not, none, [], ◌∷◌, ◌++◌,
  length, length-append, String, if◌then◌else◌, arith, Bool-cases, Option-cases,
}
use open_peacock.Prelude.Int.{ℤ, pos, leb_ℤ}
use open_peacock.Srv.World.{World}
use open_peacock.Srv.Coordinator.{Coordinator, Registration, register_loader}

module _ {F : Type 0} (w : World F) where
  -- A result that adds the loader behind the others, or one with an error.
  abbrev pub IsRegistered : Coordinator F → String → ℕ → Registration w → Type 0
  IsRegistered c addr v r =
      ((r.error ≡ none)
        × (r.coordinator.loaders ≡ c.loaders ++ addr ∷ [])
        × (length r.coordinator.loaders ≤ v)
        × ((r.starts ≡ true)
            ↔ ((length r.coordinator.loaders ≡ v) × ((c.cfg.master == "") ≡ false))))
      ⊎ ((r.error ≢ none) × (r.starts ≡ false) × (r.coordinator ≡ c))

  starts_iff :
      (m : Bool) (n v : ℕ) (z : ℤ)
      → z ≡ pos v
      → n ≤ v
      → ((if leb_ℤ z (pos n) then not m else false) ≡ true) ↔ ((n ≡ v) × (m ≡ false))
  starts_iff m n v z e h = ground arith

  -- With NumVShards = v, a registration either returns no error, adds the loader behind the others,
  -- which are then at most v, and starts `run` exactly if they are v and there is a master; or it
  -- returns an error, starts nothing and does not change the coordinator.
  pub register_loader-IsRegistered :
      (c : Coordinator F) (s : World.State w) (addr : String) (v : ℕ)
      → c.cfg.num_v_shards ≡ pos v
      → IsRegistered c addr v (register_loader w c s addr)
  unfolding register_loader
  register_loader-IsRegistered c s addr v h =
      elim (Bool-cases (leb_ℤ c.cfg.num_v_shards (pos (length c.loaders)))) [
        | inl q ↦ rw (register_loader, q) (inr (λ e. cc, refl, refl))
        | inr q ↦ elim (Option-cases (w.dial addr s).0) [
          | inr (x, e) ↦ rw (register_loader, q, e) (inr (λ d. cc, refl, refl))
          | inl e ↦
              let room : length (c.loaders ++ addr ∷ []) ≤ v = omega (
                arith,
                length-append c.loaders (addr ∷ []),
                below v (length c.loaders) c.cfg.num_v_shards h q,
              ) in
              rw (register_loader, q, e)
                (inl
                  (refl, refl, room, starts_iff (c.cfg.master == "") _ v c.cfg.num_v_shards h room))
        ]
      ]
    where
      below : (m n : ℕ) (z : ℤ) → z ≡ pos m → leb_ℤ z (pos n) ≡ false → suc n ≤ m
      below m n z d e = ground arith

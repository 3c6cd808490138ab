-- ===== src/Srv/Connect.antt =====
-- srv/common.go: the connections to samplers and aggregators. A client is its address.
use open_peacock.Prelude.{
  ◌⊎◌, inl, inr, Option, none, some, List, length, get_elem?, replicate, String,
}
use open_peacock.Prelude.Int.{ℤ, pos, to_index}
use open_peacock.Prelude.Run.{Run, ok, ◌>>=◌, or_panic}
use open_peacock.Gibbs.Sampler.{store_at}
use open_peacock.Srv.World.{World}

module _ {F : Type 0} (w : World F) where
  open w use {State, Error, dial, close, parallel_for}

  -- What the calls of the closure share: the slice of clients, nil at first, and the world.
  abbrev pub Clients : Type 0
  Clients = List (Option String)

  -- The closures of connectToSamplers and connectToAggregators.
  unfoldable pub connect_one :
      List String → ℤ → Clients × State → Run (Option Error × (Clients × State))
  connect_one addrs i (clients, s) = or_panic (to_index i) >>= λ n.
      or_panic (get_elem? addrs n) >>= λ a.
      let (e, s') = dial a s in
      elim e [
        | some x ↦ ok (some x, (clients, s'))
        | none ↦ store_at clients i (some a) >>= λ clients'. ok (none, (clients', s'))
      ]

  -- connectToSamplers and connectToAggregators
  unfoldable pub connect_to : List String → State → Run ((Error ⊎ Clients) × State)
  unfolding connect_one
  connect_to addrs s =
      parallel_for (Clients × State) (pos 0) (pos (length addrs)) (pos 1) (connect_one addrs)
        (replicate (length addrs) none, s)
      >>= λ (e, (clients, s')). elim e [ some x ↦ ok (inl x, s') | none ↦ ok (inr clients, s') ]

  -- The closure of closeAll; a nil client panics.
  unfoldable pub close_one : Clients → ℤ → State → Run (Option Error × State)
  close_one clients i s = or_panic (to_index i) >>= λ n.
      or_panic (get_elem? clients n) >>= λ c. or_panic c >>= λ a. ok (close a s)

  -- closeAll
  unfoldable pub close_all : Clients → State → Run (Option Error × State)
  unfolding close_one
  close_all clients s =
      parallel_for State (pos 0) (pos (length clients)) (pos 1) (close_one clients) s

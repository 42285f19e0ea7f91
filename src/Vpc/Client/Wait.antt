-- ===== src/Vpc/Client/Wait.antt =====
-- When `WaitForVPCEndpointAvailable` succeeds, and how many calls it makes.
use custome_provider_mongo_d.Prelude.{
  ℕ, zero, suc, ◌+◌, ◌*◌, ◌≤◌, ◌<◌, ◌≡◌, ◌↔◌, inl, inr, refl, String, Bool, true, false, ◌||◌, none,
  ◌∷◌, ◌==◌, arith, not, ap, ◌∙◌, ◌&&◌, Bool-cases,
}
use custome_provider_mongo_d.Prelude.Lists.{length}
use custome_provider_mongo_d.Go.Exec.{◌>>◌, continue, Outcome, done, failed, panicked, ◌>>=◌}
use custome_provider_mongo_d.Go.Runs.{bind_done}
use custome_provider_mongo_d.Vpc.Platform.{
  wait_five_seconds, Platform, State, call, wait_interval, Go,
}
use custome_provider_mongo_d.Vpc.Client.{
  VpcEndpointOutput, get_vpc_endpoint_status, wait_loop, wait_for_vpc_endpoint_available,
  after_description,
}

abbrev pub is_pending : String → Bool
is_pending state = not (state == "available") && not (state == "failed" || state == "deleted")

-- The state after a wait of five seconds.
abbrev pub waited : State → State
waited s = record s { calls = wait_interval ∷ s.calls }

length-continue :
    {A : Type 0} (f : A → Go Unit) (n : ℕ)
    → ((a : A) (t : State) → length (f a t).1.calls ≤ n + length t.calls)
    → (r : Outcome A × State) → length (continue r f).1.calls ≤ n + length r.1.calls
length-continue f n h (done a, s) = h a s
length-continue f n h (failed e, s) = ground arith
length-continue f n h (panicked, s) = ground arith

module _ (p : Platform) (id : String) where
  -- In `k` rounds, of which each but the last describes the endpoint in a state that is neither
  -- available nor terminal and waits five seconds, the endpoint is described as available.
  pub BecomesAvailable : ℕ → State → Type 0
  BecomesAvailable zero s =
      (out : VpcEndpointOutput) × ((get_vpc_endpoint_status p id s).0 ≡ done out)
      × ((out.state == "available") ≡ true)
  BecomesAvailable (suc k) s =
      (out : VpcEndpointOutput) × ((get_vpc_endpoint_status p id s).0 ≡ done out)
      × (is_pending out.state ≡ true)
      × (p.elapsed (get_vpc_endpoint_status p id s).1.calls ≡ none)
      × BecomesAvailable k (waited (get_vpc_endpoint_status p id s).1)

  round_done :
      (s : State) (left : ℕ) (out : VpcEndpointOutput)
      → (get_vpc_endpoint_status p id s).0 ≡ done out
      → (wait_loop p id (suc left) s)
        ≡ after_description p
            (do wait_five_seconds p; wait_loop p id left)
            out
            (get_vpc_endpoint_status p id s).1
  unfolding wait_loop ◌>>=◌
  round_done s left out e = rw e refl

  round_available :
      (more : Go Unit) (out : VpcEndpointOutput) (s : State)
      → (out.state == "available") ≡ true
      → after_description p more out s ≡ (done tt, s)
  unfolding ◌>>=◌
  round_available more out s h = rw h refl

  round_pending :
      (more : Go Unit) (out : VpcEndpointOutput) (s : State)
      → is_pending out.state ≡ true
      → after_description p more out s ≡ more s
  unfolding ◌>>=◌
  round_pending more out s h = ground (arith, h)

  wait_done :
      (more : Go Unit) (s : State)
      → p.elapsed s.calls ≡ none
      → (do wait_five_seconds p; more) s ≡ more (waited s)
  unfolding call
  wait_done more s h = rw h refl

  BecomesAvailable-wait_loop :
      (k left : ℕ) (s : State)
      → k < left
      → BecomesAvailable k s
      → (wait_loop p id left s).0 ≡ done tt
  unfolding wait_loop call BecomesAvailable
  BecomesAvailable-wait_loop k zero s h b = absurd (omega (arith, h))
  BecomesAvailable-wait_loop zero (suc left) s h (out, e, now) =
      ap (λ r. r.0) (round_done s left out e ∙ round_available _ out _ now)
  BecomesAvailable-wait_loop (suc k) (suc left) s h (out, e, pending, elapsed, later) =
      ap (λ r. r.0)
        (round_done s left out e ∙ round_pending _ out _ pending ∙ wait_done _ _ elapsed)
      ∙ BecomesAvailable-wait_loop k left _ (omega (arith, h)) later

  terminal_not_done :
      (more : Go Unit) (out : VpcEndpointOutput) (s : State)
      → (out.state == "available") ≡ false
      → (after_description p more out s).0 ≡ done tt
      → (is_pending out.state ≡ true) × ((more s).0 ≡ done tt)
  unfolding ◌>>=◌
  terminal_not_done more out s other h = ground (arith, other, h)

  wait_not_done :
      (more : Go Unit) (s : State)
      → ((do wait_five_seconds p; more) s).0 ≡ done tt
      → (p.elapsed s.calls ≡ none) × ((more (waited s)).0 ≡ done tt)
  unfolding call
  wait_not_done more s h = ground (arith, h)

  wait_loop-BecomesAvailable :
      (left : ℕ) (s : State)
      → (wait_loop p id left s).0 ≡ done tt
      → (k : ℕ) × (k < left) × BecomesAvailable k s
  unfolding wait_loop BecomesAvailable call
  wait_loop-BecomesAvailable zero s h = absurd (ground (arith, h))
  wait_loop-BecomesAvailable (suc left) s h =
      let (out, e, rest) = bind_done (get_vpc_endpoint_status p id) _ s tt h in
      elim (Bool-cases (out.state == "available")) [
        | inl now ↦ (0, ground arith, (out, e, now))
        | inr other ↦
            (let (pending, later) = terminal_not_done _ out _ other rest in
              let (elapsed, again) = wait_not_done _ _ later in
              let (k, bound, becomes) = wait_loop-BecomesAvailable left _ again in
              (suc k, omega (arith, bound), (out, e, pending, elapsed, becomes)))
      ]

  -- The wait succeeds exactly where one of its 120 rounds describes the endpoint as available, and in
  -- each round before it the endpoint was neither available nor in a terminal state and the five
  -- seconds passed.
  pub wait_for_vpc_endpoint_available_iff :
      (s : State)
      → ((wait_for_vpc_endpoint_available p id s).0 ≡ done tt)
        ↔ ((k : ℕ) × (k < 120) × BecomesAvailable k s)
  unfolding wait_for_vpc_endpoint_available
  wait_for_vpc_endpoint_available_iff s = (
    wait_loop-BecomesAvailable 120 s,
    λ (k, bound, becomes). BecomesAvailable-wait_loop k 120 s bound becomes,
  )

  describe_length :
      (s : State) → length (get_vpc_endpoint_status p id s).1.calls ≤ 1 + length s.calls
  unfolding get_vpc_endpoint_status call
  describe_length s = ground arith

  after_length :
      (more : Go Unit) (n : ℕ)
      → ((t : State) → length (more t).1.calls ≤ n + length t.calls)
      → (out : VpcEndpointOutput) (s : State)
      → length (after_description p (do wait_five_seconds p; more) out s).1.calls
        ≤ suc n + length s.calls
  unfolding call
  after_length more n h out s = ground (arith, h (waited s))

  length-wait_loop :
      (left : ℕ) (s : State) → length (wait_loop p id left s).1.calls ≤ 2 * left + length s.calls
  unfolding wait_loop ◌>>=◌
  length-wait_loop zero s = ground arith
  length-wait_loop (suc left) s = omega (
    arith,
    describe_length s,
    length-continue (after_description p (do wait_five_seconds p; wait_loop p id left))
        (suc (2 * left)) (after_length (wait_loop p id left) (2 * left) (length-wait_loop left))
        (get_vpc_endpoint_status p id s),
  )

  -- The wait makes at most 240 calls, whatever is answered: a description and a wait of five seconds in
  -- each of its rounds.
  pub wait_for_vpc_endpoint_available_bound :
      (s : State) → length (wait_for_vpc_endpoint_available p id s).1.calls ≤ 240 + length s.calls
  unfolding wait_for_vpc_endpoint_available
  wait_for_vpc_endpoint_available_bound s = length-wait_loop 120 s

-- ===== src/Probe/Tries.antt =====
-- The loop over addresses and retries of `probe_node` in beiran/daemon/peer.py.
use beiran.Address.{PeerAddress}
use beiran.Base.{List, Text, [], ap, arith, length, some, suc, zero, ℕ, ◌*◌, ◌+◌, ◌<◌, ◌∙◌, ◌∷◌}
use beiran.Base.{◌≡◌, ◌≤◌}
use beiran.Nodes.{Node}
use beiran.Probe.{Fetched, Probed, Target, fetch_raised, got, one, probe_targets, probed, round}
use beiran.Probe.{several, tries, try_probe_remote_node, unreachable}

fetches-round :
    (f : Fetched) (i bound : ℕ) (rest : Probed × ℕ)
    → suc i ≤ bound
    → rest.1 ≤ bound
    → (round f i rest).1 ≤ bound
unfolding round
fetches-round (got n) i bound rest h k = h
fetches-round unreachable i bound rest h k = k
fetches-round fetch_raised i bound rest h k = h

module _ (answers : ℕ → Fetched) where
  fetches-tries :
      (counter i bound : ℕ) (next : ℕ → Probed × ℕ)
      → ((j : ℕ) → (next j).1 ≤ j + bound)
      → (tries answers counter i next).1 ≤ i + (counter + bound)
  unfolding tries round
  fetches-tries zero i bound next h = omega (arith, h i)
  fetches-tries (suc c) i bound next h =
      fetches-round (answers i) i (i + (suc c + bound)) (tries answers c (suc i) next) (omega arith)
        (omega (arith, fetches-tries c (suc i) bound next h))

  fetches-probe_targets :
      (retries : ℕ) (ts : List Target) (i : ℕ)
      → (probe_targets answers retries ts i).1 ≤ i + retries * length ts
  unfolding probe_targets
  fetches-probe_targets zero ts i = omega arith
  fetches-probe_targets (suc r) [] i = omega arith
  fetches-probe_targets (suc r) (several as_list ∷ ts) i = omega arith
  fetches-probe_targets (suc r) (one a ∷ ts) i = grind (
    arith,
    fetches-tries (suc r) i (suc r * length ts) (probe_targets answers (suc r) ts)
        (fetches-probe_targets (suc r) ts),
  )

  tries-got :
      (waits counter i : ℕ) (n : Node) (next : ℕ → Probed × ℕ)
      → ((j : ℕ) → j < waits → answers (i + j) ≡ unreachable)
      → answers (i + waits) ≡ got n
      → waits < counter
      → tries answers counter i next ≡ (probed (some n), suc (i + waits))
  unfolding tries round
  tries-got waits zero i n next h e lt = absurd (omega (arith, lt))
  tries-got zero (suc c) i n next h e lt =
      let now : answers i ≡ got n = ap answers (omega arith) ∙ e in
      rw (now) (ap (λ k. (probed (some n), suc k)) (omega arith))
  tries-got (suc w) (suc c) i n next h e lt =
      let now : answers i ≡ unreachable = ap answers (omega arith) ∙ h 0 (omega arith) in
      rw (now) (
        tries-got w c (suc i) n next
          (λ j k. ap answers (omega arith) ∙ h (suc j) (omega (arith, k)))
          (ap answers (omega arith) ∙ e) (omega (arith, lt))
        ∙ ap (λ k. (probed (some n), suc k)) (omega arith))

  -- `probe_node` fetches at most as often as there are retries.
  fetches-try_probe_remote_node :
      (retries : ℕ) (a : PeerAddress) (extra_addr : List Text)
      → (try_probe_remote_node answers retries a extra_addr).1 ≤ retries
  unfolding try_probe_remote_node probe_targets
  fetches-try_probe_remote_node zero a [] = omega arith
  fetches-try_probe_remote_node zero a (b ∷ bs) = omega arith
  fetches-try_probe_remote_node (suc r) a [] =
      omega (arith, fetches-tries (suc r) 0 0 (probe_targets answers (suc r) []) (λ j. omega arith))
  fetches-try_probe_remote_node (suc r) a (b ∷ bs) = omega (
    arith,
    fetches-tries (suc r) 0 0 (probe_targets answers (suc r) (several (b ∷ bs) ∷ []))
        (λ j. omega arith),
  )

  pub try_probe_remote_node-got :
      (waits retries : ℕ) (a : PeerAddress) (extra_addr : List Text) (n : Node)
      → ((j : ℕ) → j < waits → answers j ≡ unreachable)
      → answers waits ≡ got n
      → waits < retries
      → try_probe_remote_node answers retries a extra_addr ≡ (probed (some n), suc waits)
  unfolding try_probe_remote_node probe_targets
  try_probe_remote_node-got waits zero a bs n h e lt = absurd (omega (arith, lt))
  try_probe_remote_node-got waits (suc r) a [] n h e lt =
      tries-got waits (suc r) 0 n (probe_targets answers (suc r) [])
        (λ j k. ap answers (omega arith) ∙ h j k) (ap answers (omega arith) ∙ e) lt
      ∙ ap (λ k. (probed (some n), suc k)) (omega arith)
  try_probe_remote_node-got waits (suc r) a (b ∷ bs) n h e lt =
      tries-got waits (suc r) 0 n (probe_targets answers (suc r) (several (b ∷ bs) ∷ []))
        (λ j k. ap answers (omega arith) ∙ h j k) (ap answers (omega arith) ∙ e) lt
      ∙ ap (λ k. (probed (some n), suc k)) (omega arith)

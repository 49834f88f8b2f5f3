-- ===== src/Docker/Events/Waits.antt =====
-- How long update_docker_info of plugins/beiran_interface_docker/util.py waits between its tries.
use beiran.Base.{Bool-cases, List, Option, [], ap, arith, get_elem?, if◌then◌else◌, inl, inr, leb}
use beiran.Base.{ltb, none, refl, some, suc, zero, ℕ, ◌*◌, ◌+◌, ◌<◌, ◌∙◌, ◌∷◌, ◌≡◌, ◌≤◌}
use beiran.Docker.Events.{update_docker_info}

unfoldable pub failures {ℓ} : {A : Type ℓ} → ℕ → List (Option A) → List (Option A)
failures zero tries = tries
failures (suc n) tries = none ∷ failures n tries

wait_from : ℕ → ℕ → ℕ
wait_from start i = if leb (start + i * 5) 30 then start + i * 5 else 30

-- The first waits, from a wait that is a multiple of five on.
waits_from : ℕ → ℕ → List ℕ
waits_from start zero = []
waits_from start (suc n) = start ∷ waits_from (if ltb start 30 then start + 5 else start) n

module _ {ℓ} {A : Type ℓ} where
  update-failures :
      (n start : ℕ) (info : A) (tries : List (Option A))
      → update_docker_info start (failures n (some info ∷ tries)) ≡ (waits_from start n, some info)
  unfolding update_docker_info failures waits_from
  update-failures zero start info tries = refl
  update-failures (suc n) start info tries =
      let next = if ltb start 30 then start + 5 else start in
      rw (update-failures n next info tries) refl

get-waits_from :
    (n i k : ℕ)
    → i < n
    → k * 5 ≤ 30
    → get_elem? (waits_from (k * 5) n) i ≡ some (wait_from (k * 5) i)
unfolding waits_from wait_from
get-waits_from zero i k h b = absurd (omega arith)
get-waits_from (suc n) zero k h b = ground arith
get-waits_from (suc n) (suc i) k h b = elim (Bool-cases (ltb (k * 5) 30)) [
  | inl e ↦
      let next : k * 5 + 5 ≡ suc k * 5 = omega arith in
      let below : suc k * 5 ≤ 30 = ground arith in
      rw (e, next) (get-waits_from n i (suc k) (omega arith) below ∙ ap some (ground arith))
  | inr e ↦ rw (e) (get-waits_from n i k (omega arith) b ∙ ap some (ground arith))
]

module _ {ℓ} {A : Type ℓ} where
  -- If the first tries fail and the next one gives the information, update_docker_info returns it; the
  -- waits between the tries start with none and grow by five seconds, up to thirty.
  update_docker_info_lem :
      (n i : ℕ) (info : A) (tries : List (Option A))
      → i < n
      → ((update_docker_info 0 (failures n (some info ∷ tries))).1 ≡ some info)
        × (get_elem? (update_docker_info 0 (failures n (some info ∷ tries))).0 i
            ≡ some (if leb (i * 5) 30 then i * 5 else 30))
  unfolding wait_from
  update_docker_info_lem n i info tries h =
      let all_waits = update-failures n 0 info tries in
      let start : i * 5 ≡ 0 + i * 5 = omega arith in
      (
        ap (λ (r : List ℕ × Option A). r.1) all_waits,
        ap (λ (r : List ℕ × Option A). get_elem? r.0 i) all_waits
            ∙ (get-waits_from n i 0 h (omega arith) ∙ ap some (ground arith)),
      )

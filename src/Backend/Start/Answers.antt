-- ===== src/Backend/Start/Answers.antt =====
-- What waitReadyState answers: a container that is up, or a failure.
use kubedock.Base.{
  ℕ, zero, suc, ◌≡◌, ◌⊎◌, inl, inr, refl, Bool, true, false, List, [], ◌∷◌, Option, none, some,
  Bool-cases, Option-cases, arith, str_eq_instance,
}
use kubedock.Backend.Interface.{DeployState, pending, failed, running, completed}
use kubedock.Backend.Deploy.{
  Pod, ContainerStatus, main_status, get_container_status, is_pending, wait_ready_state,
}

unfoldable pub IsUp : DeployState → Type 0
IsUp state = (state ≡ running) ⊎ (state ≡ completed)

-- A state with its error: up or pending without one, or failed with one.
unfoldable is_answer : DeployState × Bool → Bool
is_answer (running, false) = true
is_answer (completed, false) = true
is_answer (pending, false) = true
is_answer (failed, true) = true
is_answer _ = false

main-is_answer :
    (ss : List ContainerStatus) (r : DeployState × Bool)
    → main_status ss ≡ some r
    → is_answer r ≡ true
unfolding main_status is_answer
main-is_answer [] r e = absurd (ground arith)
main-is_answer (s ∷ more) r e = ground (arith, main-is_answer more r)

status-is_answer : (p : Option Pod) → is_answer (get_container_status p) ≡ true
unfolding get_container_status is_answer
status-is_answer none = refl
status-is_answer (some pod) = elim (Option-cases (main_status pod.statuses)) [
  | inl e ↦ ground arith
  | inr (r, e) ↦ ground (arith, main-is_answer pod.statuses r e)
]

-- waitReadyState ends with a container that is up, or with a failure.
unfoldable pub is_end : DeployState × Bool → Bool
is_end (running, false) = true
is_end (completed, false) = true
is_end (failed, true) = true
is_end _ = false

answer-is_end :
    (r : DeployState × Bool) → is_answer r ≡ true → is_pending r ≡ false → is_end r ≡ true
unfolding is_answer is_pending is_end
answer-is_end (running, false) a p = refl
answer-is_end (running, true) a p = a
answer-is_end (completed, false) a p = refl
answer-is_end (completed, true) a p = a
answer-is_end (failed, true) a p = refl
answer-is_end (failed, false) a p = a
answer-is_end (pending, true) a p = a
answer-is_end (pending, false) a p = absurd (ground arith)

pub wait-is_end :
    (poll : ℕ → Option Pod) (n wait : ℕ) → is_end (wait_ready_state poll n wait) ≡ true
unfolding wait_ready_state is_end
wait-is_end poll n zero = refl
wait-is_end poll n (suc wait) = elim (Bool-cases (is_pending (get_container_status (poll n)))) [
  | inl p ↦ rw p (wait-is_end poll (suc n) wait)
  | inr p ↦ rw p (answer-is_end (get_container_status (poll n)) (status-is_answer (poll n)) p)
]

pub end-IsUp : (state : DeployState) → is_end (state, false) ≡ true → IsUp state
unfolding is_end IsUp
end-IsUp running h = inl refl
end-IsUp completed h = inr refl
end-IsUp failed h = absurd (ground arith)
end-IsUp pending h = absurd (ground arith)

pub end_failed : (state : DeployState) → is_end (state, true) ≡ true → state ≡ failed
unfolding is_end
end_failed failed h = refl
end_failed running h = absurd (ground arith)
end_failed completed h = absurd (ground arith)
end_failed pending h = absurd (ground arith)

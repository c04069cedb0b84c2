-- ===== src/Backend/Deploy/Ready.antt =====
-- How long waitReadyState waits.
use kubedock.Base.{
  ℕ, zero, suc, ◌+◌, ◌<◌, ◌≡◌, refl, sym, subst, ◌∙◌, ◌≤◌, ap, true, false, Option, arith,
  str_eq_instance,
}
use kubedock.Backend.Interface.{failed}
use kubedock.Backend.Deploy.{Pod, get_container_status, is_pending, wait_ready_state}

plus_zero : (n : ℕ) → n + 0 ≡ n
plus_zero n = omega arith

zero_plus : (n : ℕ) → 0 + n ≡ n
zero_plus n = omega arith

shift : (n i : ℕ) → n + suc i ≡ suc n + i
shift n i = omega arith

first_state :
    (poll : ℕ → Option Pod) (n j wait : ℕ)
    → j < wait
    → ((i : ℕ) → i < j → is_pending (get_container_status (poll (n + i))) ≡ true)
    → is_pending (get_container_status (poll (n + j))) ≡ false
    → wait_ready_state poll n wait ≡ get_container_status (poll (n + j))
unfolding wait_ready_state
first_state poll n j zero h before at = absurd (omega arith)
first_state poll n zero (suc wait) h before at =
    let now : is_pending (get_container_status (poll n)) ≡ false =
      subst (λ x. is_pending (get_container_status (poll x)) ≡ false) (plus_zero n) at in
    rw now (ap (λ x. get_container_status (poll x)) (sym (plus_zero n)))
first_state poll n (suc j) (suc wait) h before at =
    let now : is_pending (get_container_status (poll n)) ≡ true =
      subst (λ x. is_pending (get_container_status (poll x)) ≡ true) (plus_zero n)
        (before 0 (omega arith)) in
    let later =
      first_state poll (suc n) j wait (omega arith)
        (λ i l.
          subst (λ x. is_pending (get_container_status (poll x)) ≡ true) (shift n i)
            (before (suc i) (omega arith)))
        (subst (λ x. is_pending (get_container_status (poll x)) ≡ false) (shift n j) at) in
    rw now (later ∙ ap (λ x. get_container_status (poll x)) (sym (shift n j)))

no_state :
    (poll : ℕ → Option Pod) (n wait : ℕ)
    → ((i : ℕ) → i < wait → is_pending (get_container_status (poll (n + i))) ≡ true)
    → wait_ready_state poll n wait ≡ (failed, true)
unfolding wait_ready_state
no_state poll n zero before = refl
no_state poll n (suc wait) before =
    let now : is_pending (get_container_status (poll n)) ≡ true =
      subst (λ x. is_pending (get_container_status (poll x)) ≡ true) (plus_zero n)
        (before 0 (omega arith)) in
    rw now (
      no_state poll (suc n) wait (λ i l.
        subst (λ x. is_pending (get_container_status (poll x)) ≡ true) (shift n i)
          (before (suc i) (omega arith))))

-- The result is what the first round that meets a state gets; where no round within the limit meets
-- one, it is the failure of the time-out.
pub wait_ready_state_lem :
    (poll : ℕ → Option Pod) (j wait : ℕ)
    → ((i : ℕ) → i < j → is_pending (get_container_status (poll i)) ≡ true)
    → (j < wait
        → is_pending (get_container_status (poll j)) ≡ false
        → wait_ready_state poll 0 wait ≡ get_container_status (poll j))
      × (wait ≤ j → wait_ready_state poll 0 wait ≡ (failed, true))
wait_ready_state_lem poll j wait before = (
  λ h at.
      subst (λ x. wait_ready_state poll 0 wait ≡ get_container_status (poll x)) (zero_plus j)
        (first_state poll 0 j wait h
          (λ i l.
            subst (λ x. is_pending (get_container_status (poll x)) ≡ true) (sym (zero_plus i))
              (before i l))
          (subst (λ x. is_pending (get_container_status (poll x)) ≡ false) (sym (zero_plus j)) at)),
  λ h. no_state poll 0 wait (λ i l.
      subst (λ x. is_pending (get_container_status (poll x)) ≡ true) (sym (zero_plus i))
        (before i (omega arith))),
)

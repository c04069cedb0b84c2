-- ===== src/Backend/Deploy/Tests.antt =====
-- Labels of a container with labels of its client, and a pod that starts in its third round.
use kubedock.Base.{
  ℕ, zero, suc, ◌<◌, ◌≡◌, refl, Bool, true, false, [], ◌∷◌, Option, none, some, all_of, any_of,
  arith, str_eq, replicate,
}
use kubedock.Base.Text.{codes}
use kubedock.Model.Container.{Container, blank}
use kubedock.Backend.Names.Keys.{is_key, is_plain, is_segment_byte}
use kubedock.Base.Text.{split}
use kubedock.Backend.Names.Valid.{is_label_text}
use kubedock.Backend.Delete.{Meta, selected}
use kubedock.Backend.Deploy.{
  Defaults, get_labels, Pod, ContainerStatus, get_container_status, is_pending,
}
use kubedock.Backend.Deploy.Labels.{is_label, get_labels-is_label, get_labels-selected}

abbrev defaults : Defaults
defaults = record {
  labels = [];
  system_labels = (codes "kubedock", codes "true") ∷ [];
  annotations = [];
}

abbrev redis : Container
redis = record blank {
  short_id = replicate 12 b'a';
  labels = (codes "kubedock.containerid", codes "other") ∷ (codes "org.name_", codes "value!") ∷ [];
}

no_labels : all_of is_label [] ≡ true
unfolding all_of
no_labels = refl

system_valid : all_of is_label defaults.system_labels ≡ true
unfolding all_of is_label codes is_key split
system_valid = refl

plain : all_of (λ e. is_plain e.0) redis.labels ≡ true
unfolding all_of is_plain codes any_of
plain = refl

short_valid : is_label_text is_segment_byte redis.short_id ≡ true
unfolding all_of
short_valid = refl

get_labels-is_label_example : all_of is_label (get_labels defaults [] redis) ≡ true
get_labels-is_label_example =
    get_labels-is_label defaults [] redis no_labels no_labels system_valid plain short_valid

abbrev pod : Meta
pod = record {
  name = codes "redis";
  labels = get_labels defaults [] redis;
  created = 0;
  deleting = false;
}

get_labels-selected_example :
    selected (codes "kubedock.containerid", redis.short_id) pod
    ≡ str_eq redis.short_id redis.short_id
get_labels-selected_example = get_labels-selected defaults [] redis redis pod refl

abbrev main : Bool → ContainerStatus
main on = record {
  name = codes "main";
  terminated = none;
  last_terminated = none;
  restart_count = 0;
  waiting = none;
  is_running = on;
}

abbrev poll : ℕ → Option Pod
poll zero = some (record { statuses = main false ∷ []; init_statuses = []; has_failed = false })
poll (suc n) = some (record { statuses = main true ∷ []; init_statuses = []; has_failed = false })

waits_first : is_pending (get_container_status (poll 0)) ≡ true
unfolding is_pending get_container_status str_eq codes
waits_first = refl

waits : (i : ℕ) → i < 1 → is_pending (get_container_status (poll i)) ≡ true
waits zero h = waits_first
waits (suc i) h = absurd (omega arith)

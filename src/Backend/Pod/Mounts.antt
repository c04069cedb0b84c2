-- ===== src/Backend/Pod/Mounts.antt =====
-- Every mount of a pod is a mount of one of its volumes.
use kubedock.Base.{
  ◌≡◌, refl, subst, sym, inl, inr, Bool, true, List, [], ◌∷◌, ◌++◌, Option, some, any_of, All,
  All-append, Bool-cases, Option-cases, arith, Str, str_eq, str_eq_refl, str_eq_instance,
}
use kubedock.Base.GoMap.{GoMap}
use kubedock.Base.Text.{codes}
use kubedock.Model.Container.{Container}
use kubedock.Model.Container.PreArchives.{File}
use kubedock.Backend.Names.{to_kubernetes_name}
use kubedock.Backend.Pod.{
  VolumeMount, Volume, empty_dir, PodContainer, PodSpec, ConfigMap, Instance, Libraries, setup_name,
}
use kubedock.Backend.Pod.Steps.{
  mount_first, create_setup_init_container, find_setup, add_setup_init_container, mount_all,
  folder_volumes, folder_mounts, file_mounts, pre_archive_mounts,
}

unfoldable pub has_volume : List Volume → Str → Bool
has_volume vs n = any_of (λ v. str_eq v.name n) vs

-- The mounts are all of the volumes.
unfoldable pub Fit : List Volume → List VolumeMount → Type 0
Fit vs ms = All (λ m. has_volume vs m.name ≡ true) ms

unfoldable pub ContainersFit : {Q : Type 0} → List Volume → List (PodContainer Q) → Type 0
unfolding Fit
ContainersFit vs cs = All (λ c. Fit vs c.volume_mounts) cs

unfoldable pub PodFit : {Q : Type 0} → PodSpec Q → Type 0
unfolding ContainersFit
PodFit pod =
    ContainersFit pod.volumes pod.init_containers × ContainersFit pod.volumes pod.containers

has_volume-left :
    (vs ws : List Volume) (n : Str) → has_volume vs n ≡ true → has_volume (vs ++ ws) n ≡ true
unfolding has_volume any_of
has_volume-left [] ws n h = absurd (ground arith)
has_volume-left (v ∷ vs) ws n h = ground (arith, has_volume-left vs ws n)

has_volume-right :
    (vs ws : List Volume) (n : Str) → has_volume ws n ≡ true → has_volume (vs ++ ws) n ≡ true
unfolding has_volume any_of
has_volume-right [] ws n h = h
has_volume-right (v ∷ vs) ws n h = ground (arith, has_volume-right vs ws n)

pub Fit-left : (vs ws : List Volume) (ms : List VolumeMount) → Fit vs ms → Fit (vs ++ ws) ms
unfolding Fit
Fit-left vs ws [] h = tt
Fit-left vs ws (m ∷ ms) h = (has_volume-left vs ws m.name h.0, Fit-left vs ws ms h.1)

pub Fit-right : (vs ws : List Volume) (ms : List VolumeMount) → Fit ws ms → Fit (vs ++ ws) ms
unfolding Fit
Fit-right vs ws [] h = tt
Fit-right vs ws (m ∷ ms) h = (has_volume-right vs ws m.name h.0, Fit-right vs ws ms h.1)

pub Fit-append :
    (vs : List Volume) (ms ns : List VolumeMount) → Fit vs ms → Fit vs ns → Fit vs (ms ++ ns)
unfolding Fit
Fit-append vs ms ns h h' = All-append (λ m. has_volume vs m.name ≡ true) ms ns h h'

pub containers-left :
    {Q : Type 0} (vs ws : List Volume) (cs : List (PodContainer Q))
    → ContainersFit vs cs
    → ContainersFit (vs ++ ws) cs
unfolding ContainersFit
containers-left vs ws [] h = tt
containers-left vs ws (c ∷ cs) h =
    (Fit-left vs ws c.volume_mounts h.0, containers-left vs ws cs h.1)

pub first-Fit :
    {Q : Type 0} (vs : List Volume) (ms : List VolumeMount) (cs : List (PodContainer Q))
    → Fit vs ms
    → ContainersFit vs cs
    → ContainersFit vs (mount_first ms cs)
unfolding ContainersFit mount_first
first-Fit vs ms [] h hc = tt
first-Fit vs ms (c ∷ cs) h hc = (Fit-append vs c.volume_mounts ms hc.0 h, hc.1)

-- one volume of a name is enough for the mounts of that name
pub one-Fit :
    (vs : List Volume) (v : Volume) (ms : List VolumeMount)
    → All (λ m. m.name ≡ v.name) ms
    → Fit (vs ++ v ∷ []) ms
unfolding Fit has_volume any_of
one-Fit vs v [] h = tt
one-Fit vs v (m ∷ ms) h =
    (has_volume-right vs (v ∷ []) m.name (ground (arith, str_eq_refl v.name)), one-Fit vs v ms h.1)

some_same : {A : Type 0} (x y : A) → ◌≡◌ {A = Option A} (some x) (some y) → x ≡ y
some_same x y h = cc

module _ {Q K : Type 0} (lib : Libraries Q) (inst : Instance Q)
    (create : ConfigMap → K → K × Option Str) where
  created_mounts :
      (co : Container) (init : PodContainer Q)
      → create_setup_init_container lib inst create co ≡ some init
      → init.volume_mounts ≡ inst.container_template.volume_mounts
  unfolding create_setup_init_container
  created_mounts co init e = ground arith

  created-Fit :
      (co : Container) (init : PodContainer Q) (vs : List Volume)
      → create_setup_init_container lib inst create co ≡ some init
      → Fit vs inst.container_template.volume_mounts
      → Fit vs init.volume_mounts
  created-Fit co init vs e h = subst (Fit vs) (sym (created_mounts co init e)) h

  found-Fit :
      (init : PodContainer Q) (vs : List Volume) (cs : List (PodContainer Q))
      → find_setup lib inst create cs ≡ some init
      → ContainersFit vs cs
      → Fit vs init.volume_mounts
  unfolding find_setup ContainersFit
  found-Fit init vs [] e h = absurd (ground arith)
  found-Fit init vs (c ∷ cs) e h = elim (Bool-cases (str_eq c.name setup_name)) [
    | inl b ↦
        let same : c ≡ init = some_same c init (ground arith) in
        subst (λ x. Fit vs x.volume_mounts) same h.0
    | inr b ↦ found-Fit init vs cs (ground arith) h.1
  ]

  pub setup-Fit :
      (co : Container) (pod : PodSpec Q) (init : PodContainer Q)
      → add_setup_init_container lib inst create co pod ≡ some init
      → Fit pod.volumes inst.container_template.volume_mounts
      → PodFit pod
      → Fit pod.volumes init.volume_mounts
  unfolding add_setup_init_container PodFit
  setup-Fit co pod init e h fit =
      elim (Option-cases (find_setup lib inst create pod.init_containers)) [
        | inl b ↦ created-Fit co init pod.volumes (ground arith) h
        | inr (c, b) ↦ found-Fit init pod.volumes pod.init_containers (ground arith) fit.0
      ]

  pub mount_all-Fit :
      (init : PodContainer Q) (vs : List Volume) (ms : List VolumeMount) (pod : PodSpec Q)
      → Fit pod.volumes init.volume_mounts
      → Fit (pod.volumes ++ vs) ms
      → PodFit pod
      → PodFit (mount_all lib inst create init vs ms pod)
  unfolding mount_all PodFit ContainersFit
  mount_all-Fit init vs ms pod hi hm fit = (
    (
      Fit-append (pod.volumes ++ vs) init.volume_mounts ms
          (Fit-left pod.volumes vs init.volume_mounts hi) hm,
      tt,
    ),
    first-Fit (pod.volumes ++ vs) ms pod.containers hm
        (containers-left pod.volumes vs pod.containers fit.1),
  )

  pub folders-Fit :
      (folders : GoMap Str Str)
      → Fit (folder_volumes lib inst create folders) (folder_mounts lib inst create folders)
  unfolding Fit folder_volumes folder_mounts has_volume any_of
  folders-Fit [] = tt
  folders-Fit ((dst, src) ∷ more) = (
    ground (arith, str_eq_refl (to_kubernetes_name dst)),
    Fit-right (record { name = to_kubernetes_name dst; source = empty_dir } ∷ [])
        (folder_volumes lib inst create more) (folder_mounts lib inst create more)
        (folders-Fit more),
  )

  pub named_vfiles :
      (files : GoMap Str Str)
      → All (λ m. m.name ≡ codes "vfiles") (file_mounts lib inst create files)
  unfolding file_mounts
  named_vfiles [] = tt
  named_vfiles ((dst, src) ∷ more) = (refl, named_vfiles more)

  pub named_pfiles :
      (files : GoMap Str File)
      → All (λ m. m.name ≡ codes "pfiles") (pre_archive_mounts lib inst create files)
  unfolding pre_archive_mounts
  named_pfiles [] = tt
  named_pfiles ((dst, info) ∷ more) = (refl, named_pfiles more)

-- ===== src/Backend/Delete.antt =====
-- internal/backend/delete.go: how the services, config maps and pods of containers are deleted. The
-- kubernetes client is a parameter.
pub mod Effects
pub mod Tests
use kubedock.Base.{
  ℕ, ◌+◌, ◌≡◌, Bool, true, false, ◌&&◌, ◌||◌, not, List, [], ◌∷◌, Option, none, some, keep, ltb,
  if◌then◌else◌, Str, str_eq, str_eq_instance,
}
use kubedock.Base.GoMap
use kubedock.Base.GoMap.{GoMap}
use kubedock.Base.Text.{codes}
use kubedock.Model.Container.{Container}

pub data Kind : Type 0 where
  services config_maps pods : Kind

abbrev pub same_kind : Kind → Kind → Bool
same_kind services services = true
same_kind config_maps config_maps = true
same_kind pods pods = true
same_kind _ _ = false

-- metav1.ObjectMeta, as far as the code reads it; a time is a number of seconds
pub record Meta : Type 0 where
  pub name : Str
  pub labels : GoMap Str Str
  pub created : ℕ
  pub deleting : Bool

-- The client of a namespace over the state `K` of the cluster. A list is asked for by the selector
-- key=value; `none` and the flag are errors.
pub record Client (K : Type 0) : Type 0 where
  pub list : Kind → Str × Str → K → Option (List Meta)
  pub delete : Kind → Str → K → K × Bool

unfoldable pub selected : Str × Str → Meta → Bool
selected (key, value) o = elim (GoMap.lookup key o.labels) [
  | none ↦ false
  | some v ↦ str_eq v value
]

-- What is not being deleted: kubernetes lists a pod with a time of its deletion until it has stopped.
unfoldable pub active : List Meta → List Meta
active os = keep (λ o. not o.deleting) os

-- What kubernetes documents, where `objects` are those that there are, with what is being deleted: a
-- list has the objects with the label; after a delete the object of that kind and name is gone or
-- is being deleted, and of what is not being deleted all the others are left; no object of another
-- kind is touched.
pub record IsClient {K : Type 0} (client : Client K) : Type 0 where
  pub objects : Kind → K → List Meta
  pub listed :
      (w : Kind) (sel : Str × Str) (k : K) (os : List Meta)
      → client.list w sel k ≡ some os
      → os ≡ keep (selected sel) (objects w k)
  pub deleted :
      (w : Kind) (n : Str) (k k' : K)
      → client.delete w n k ≡ (k', false)
      → active (objects w k') ≡ keep (λ o. not (str_eq o.name n)) (active (objects w k))
  pub untouched :
      (w w' : Kind) (n : Str) (k k' : K)
      → client.delete w n k ≡ (k', false)
      → same_kind w w' ≡ false
      → objects w' k' ≡ objects w' k

-- isOlderThan at the time `now`
unfoldable pub is_older_than : ℕ → ℕ → Meta → Bool
is_older_than now keepmax o = not o.deleting && ltb (o.created + keepmax) now

module _ {K : Type 0} (client : Client K) where
  -- The loop over the listed objects; the flag is the error of the first delete that fails.
  unfoldable pub delete_each : Kind → List Meta → K → K × Bool
  delete_each w [] k = (k, false)
  delete_each w (o ∷ os) k =
      let (k1, bad) = client.delete w o.name k in
      let rest = delete_each w os k1 in if bad then (k1, true) else rest

  -- deleteServices, deleteConfigMaps and deletePods are the same for their kinds.
  unfoldable pub delete_kind : Kind → Str × Str → K → K × Bool
  unfolding delete_each
  delete_kind w sel k = elim (client.list w sel k) [
    | none ↦ (k, true)
    | some os ↦ delete_each w os k
  ]

  -- The three deletes of DeleteAll, DeleteWithKubedockID and DeleteContainer, each tried whatever the
  -- others return.
  unfoldable pub delete_selected : Str × Str → K → K × Bool
  unfolding delete_kind
  delete_selected sel k =
      let (k1, bad1) = delete_kind services sel k in
      let (k2, bad2) = delete_kind config_maps sel k1 in
      let (k3, bad3) = delete_kind pods sel k2 in (k3, bad1 || bad2 || bad3)

  -- DeleteAll
  unfoldable pub delete_all : K → K × Bool
  unfolding delete_selected
  delete_all k = delete_selected (codes "kubedock", codes "true") k

  -- DeleteWithKubedockID
  unfoldable pub delete_with_kubedock_id : Str → K → K × Bool
  unfolding delete_selected
  delete_with_kubedock_id id k = delete_selected (codes "kubedock.id", id) k

  -- DeleteContainer
  unfoldable pub delete_container : Container → K → K × Bool
  unfolding delete_selected
  delete_container co k = delete_selected (codes "kubedock.containerid", co.short_id) k

  -- DeleteServicesOlderThan, DeleteConfigMapsOlderThan and DeletePodsOlderThan
  unfoldable pub delete_kind_older_than : ℕ → ℕ → Kind → K → K × Bool
  unfolding delete_each is_older_than
  delete_kind_older_than now keepmax w k = elim (client.list w (codes "kubedock", codes "true") k) [
    | none ↦ (k, true)
    | some os ↦ delete_each w (keep (is_older_than now keepmax) os) k
  ]

  -- The loop of DeleteContainersOlderThan: errors about services and config maps are only logged.
  unfoldable pub delete_pods_and_more : ℕ → ℕ → List Meta → K → K × Bool
  unfolding delete_kind is_older_than
  delete_pods_and_more now keepmax [] k = (k, false)
  delete_pods_and_more now keepmax (pod ∷ more) k =
      let sel : Str × Str = (codes "kubedock.containerid", pod.name) in
      let k1 = (delete_kind services sel k).0 in
      let k2 = (delete_kind config_maps sel k1).0 in
      let (k3, bad) = client.delete pods pod.name k2 in
      let skipped = delete_pods_and_more now keepmax more k in
      let rest = delete_pods_and_more now keepmax more k3 in
      if is_older_than now keepmax pod then (if bad then (k3, true) else rest) else skipped

  -- DeleteContainersOlderThan
  unfoldable pub delete_containers_older_than : ℕ → ℕ → K → K × Bool
  unfolding delete_pods_and_more
  delete_containers_older_than now keepmax k =
      elim (client.list pods (codes "kubedock", codes "true") k) [
        | none ↦ (k, true)
        | some os ↦ delete_pods_and_more now keepmax os k
      ]

  -- DeleteOlderThan
  unfoldable pub delete_older_than : ℕ → ℕ → K → K × Bool
  unfolding delete_containers_older_than delete_kind_older_than
  delete_older_than now keepmax k =
      let (k1, bad1) = delete_containers_older_than now keepmax k in
      let (k2, bad2) = delete_kind_older_than now keepmax config_maps k1 in
      let (k3, bad3) = delete_kind_older_than now keepmax pods k2 in
      let last = delete_kind_older_than now keepmax services k3 in
      if bad1 then (k1, true) else if bad2 then (k2, true) else if bad3 then (k3, true) else last

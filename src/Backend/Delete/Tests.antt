-- ===== src/Backend/Delete/Tests.antt =====
-- A cluster of three lists of objects.
use kubedock.Base.GoMap.{lookup}
use kubedock.Base.{
  ◌≡◌, refl, sym, ap, ◌∙◌, arith, Bool, true, false, not, List, [], ◌∷◌, some, keep, any_of, Str,
  str_eq, if◌then◌else◌, replicate,
}
use kubedock.Base.Text.{codes}
use kubedock.Model.Container.{Container, blank}
use kubedock.Backend.Delete.{
  Kind, services, config_maps, pods, same_kind, Meta, Client, active, IsClient, selected,
  delete_container,
}
use kubedock.Backend.Delete.Effects.{rest_of, of_container, run, label, delete_lem}

abbrev Lists : Type 0
Lists = Kind → List Meta

-- a pod stops for a while, all else is gone at once
abbrev mark : Str → List Meta → List Meta
mark n [] = []
mark n (o ∷ os) =
    let rest = mark n os in
    if str_eq o.name n then record o { deleting = true } ∷ rest else o ∷ rest

abbrev remove : Kind → Str → List Meta → List Meta
remove pods n os = mark n os
remove _ n os = keep (λ o. not (str_eq o.name n)) os

abbrev client : Client Lists
client = record {
  list = λ w sel k. some (keep (selected sel) (k w));
  delete = λ w n k. (λ w'. if same_kind w w' then remove w n (k w) else k w', false);
}

active-mark :
    (n : Str) (os : List Meta) → active (mark n os) ≡ keep (λ o. not (str_eq o.name n)) (active os)
unfolding active keep
active-mark n [] = refl
active-mark n (o ∷ os) = ground (arith, active-mark n os)

active-keep :
    (n : Str) (os : List Meta)
    → active (keep (λ o. not (str_eq o.name n)) os) ≡ keep (λ o. not (str_eq o.name n)) (active os)
unfolding active keep
active-keep n [] = refl
active-keep n (o ∷ os) = ground (arith, active-keep n os)

after :
    (w w' : Kind) (n : Str) (k k' : Lists)
    → client.delete w n k ≡ (k', false)
    → k' w' ≡ (if same_kind w w' then remove w n (k w) else k w')
after w w' n k k' h = sym (ap (λ (p : Lists × Bool). p.0 w') h)

deleted_own :
    (w : Kind) (n : Str) (k k' : Lists)
    → client.delete w n k ≡ (k', false)
    → active (k' w) ≡ keep (λ o. not (str_eq o.name n)) (active (k w))
deleted_own services n k k' h =
    ap active (after services services n k k' h) ∙ active-keep n (k services)
deleted_own config_maps n k k' h =
    ap active (after config_maps config_maps n k k' h) ∙ active-keep n (k config_maps)
deleted_own pods n k k' h = ap active (after pods pods n k k' h) ∙ active-mark n (k pods)

client-IsClient : IsClient client
client-IsClient = record {
  objects = λ w k. k w;
  listed = λ w sel k os h. cc;
  deleted = deleted_own;
  untouched = λ w w' n k k' h differ. after w w' n k k' h ∙ rw differ refl;
}

abbrev redis : Container
redis = record blank { short_id = replicate 12 b'a' }

abbrev pod : Str → Str → Meta
pod name id = record {
  name = name;
  labels = (codes "kubedock.containerid", id) ∷ [];
  created = 0;
  deleting = false;
}

abbrev cluster : Lists
cluster services = []
cluster config_maps = []
cluster pods =
    pod (codes "redis-pod") (replicate 12 b'a') ∷ pod (codes "db-pod") (replicate 12 b'b') ∷ []

deleted_fine : (delete_container client redis cluster).1 ≡ false
unfolding delete_container keep selected lookup str_eq codes
deleted_fine = refl

delete_lem_example :
    (active (client-IsClient.objects pods (run client (of_container redis) cluster).0)
      ≡ rest_of (label (of_container redis)) (client-IsClient.objects pods cluster))
    × (any_of
          (selected (label (of_container redis)))
          (active (client-IsClient.objects pods (run client (of_container redis) cluster).0))
        ≡ false)
delete_lem_example =
    delete_lem client client-IsClient (of_container redis) cluster pods deleted_fine

-- ===== src/Backend/Delete/Effects.antt =====
-- What DeleteContainer leaves in the cluster.
use kubedock.Base.{
  ◌≡◌, refl, subst, all_of, ap, ◌∙◌, Bool, true, false, ◌||◌, not, List, [], ◌∷◌, Option, none,
  some, keep, any_of, arith, Str, str_eq, str_eq_refl, str_eq_instance,
}
use kubedock.Base.Text.{codes}
use kubedock.Model.Container.{Container}
use kubedock.Backend.Delete.{
  Kind, services, config_maps, pods, same_kind, Meta, Client, active, IsClient, selected,
  delete_each, delete_kind, delete_container, delete_selected, delete_all, delete_with_kubedock_id,
}

-- One of the objects has this name.
unfoldable pub named : List Meta → Meta → Bool
named os o = any_of (λ x. str_eq o.name x.name) os

keep-keep-named :
    (o : Meta) (os xs : List Meta)
    → keep (λ x. not (named os x)) (keep (λ x. not (str_eq x.name o.name)) xs)
      ≡ keep (λ x. not (named (o ∷ os) x)) xs
unfolding keep named any_of
keep-keep-named o os [] = refl
keep-keep-named o os (x ∷ xs) = ground (arith, keep-keep-named o os xs)

keep_none : (xs : List Meta) → keep (λ x. not (named [] x)) xs ≡ xs
unfolding keep named any_of
keep_none [] = refl
keep_none (x ∷ xs) = ground (arith, keep_none xs)

-- What is not being deleted when no selected object is left out.
abbrev pub rest_of : Str × Str → List Meta → List Meta
rest_of sel xs = keep (λ x. not (named (keep (selected sel) xs) x)) (active xs)

none_bad : (p q r : Bool) → (p || q || r) ≡ false → (p ≡ false) × (q ≡ false) × (r ≡ false)
none_bad false false r h = (refl, refl, h)
none_bad true q r h = absurd (ground arith)
none_bad false true r h = absurd (ground arith)

-- every selected object of the second list has the name of one of the first
unfoldable covers : Str × Str → List Meta → List Meta → Bool
unfolding named
covers sel os xs = all_of (λ x. not (selected sel x) || named os x) xs

covers-cons :
    (sel : Str × Str) (o : Meta) (os xs : List Meta)
    → covers sel os xs ≡ true
    → covers sel (o ∷ os) xs ≡ true
unfolding covers all_of named any_of
covers-cons sel o os [] h = refl
covers-cons sel o os (x ∷ xs) h = ground (arith, covers-cons sel o os xs)

covers-keep : (sel : Str × Str) (xs : List Meta) → covers sel (keep (selected sel) xs) xs ≡ true
unfolding covers all_of named any_of keep
covers-keep sel [] = refl
covers-keep sel (x ∷ xs) =
    ground
      (arith, covers-keep sel xs, covers-cons sel x (keep (selected sel) xs) xs, str_eq_refl x.name)

left_none :
    (sel : Str × Str) (os xs : List Meta)
    → covers sel os xs ≡ true
    → any_of (selected sel) (keep (λ x. not (named os x)) (active xs)) ≡ false
unfolding covers all_of any_of keep active
left_none sel os [] h = refl
left_none sel os (x ∷ xs) h = ground (arith, left_none sel os xs)

rest_of-none : (sel : Str × Str) (xs : List Meta) → any_of (selected sel) (rest_of sel xs) ≡ false
rest_of-none sel xs = left_none sel (keep (selected sel) xs) xs (covers-keep sel xs)

-- The deletes by a label, and their labels.
pub data Deletion : Type 0 where
  of_container : Container → Deletion
  of_instance : Str → Deletion
  everything : Deletion

abbrev pub run : {K : Type 0} → Client K → Deletion → K → K × Bool
run client (of_container co) k = delete_container client co k
run client (of_instance id) k = delete_with_kubedock_id client id k
run client everything k = delete_all client k

abbrev pub label : Deletion → Str × Str
label (of_container co) = (codes "kubedock.containerid", co.short_id)
label (of_instance id) = (codes "kubedock.id", id)
label everything = (codes "kubedock", codes "true")

module _ {K : Type 0} (client : Client K) (good : IsClient client) where
  own_step :
      (w : Kind) (o : Meta) (os : List Meta) (k k1 k' : K) (bad : Bool)
      → client.delete w o.name k ≡ (k1, bad)
      → (delete_each client w os k1 ≡ (k', false)
          → active (good.objects w k') ≡ keep (λ x. not (named os x)) (active (good.objects w k1)))
      → delete_each client w (o ∷ os) k ≡ (k', false)
      → active (good.objects w k') ≡ keep (λ x. not (named (o ∷ os) x)) (active (good.objects w k))
  unfolding delete_each
  own_step w o os k k1 k' true e rest h = absurd (ground arith)
  own_step w o os k k1 k' false e rest h =
      rest (ground arith)
      ∙ ap (λ xs. keep (λ x. not (named os x)) xs) (good.deleted w o.name k k1 e)
      ∙ keep-keep-named o os (active (good.objects w k))

  delete_each-own :
      (w : Kind) (os : List Meta) (k k' : K)
      → delete_each client w os k ≡ (k', false)
      → active (good.objects w k') ≡ keep (λ x. not (named os x)) (active (good.objects w k))
  unfolding delete_each
  delete_each-own w [] k k' h = ground (arith, keep_none (active (good.objects w k)))
  delete_each-own w (o ∷ os) k k' h =
      own_step w o os k (client.delete w o.name k).0 k' (client.delete w o.name k).1 refl
        (delete_each-own w os (client.delete w o.name k).0 k') h

  other_step :
      (w w' : Kind) (o : Meta) (os : List Meta) (k k1 k' : K) (bad : Bool)
      → same_kind w w' ≡ false
      → client.delete w o.name k ≡ (k1, bad)
      → (delete_each client w os k1 ≡ (k', false) → good.objects w' k' ≡ good.objects w' k1)
      → delete_each client w (o ∷ os) k ≡ (k', false)
      → good.objects w' k' ≡ good.objects w' k
  unfolding delete_each
  other_step w w' o os k k1 k' true differ e rest h = absurd (ground arith)
  other_step w w' o os k k1 k' false differ e rest h =
      rest (ground arith) ∙ good.untouched w w' o.name k k1 e differ

  delete_each-other :
      (w w' : Kind) (os : List Meta) (k k' : K)
      → same_kind w w' ≡ false
      → delete_each client w os k ≡ (k', false)
      → good.objects w' k' ≡ good.objects w' k
  unfolding delete_each
  delete_each-other w w' [] k k' differ h = ground arith
  delete_each-other w w' (o ∷ os) k k' differ h =
      other_step w w' o os k (client.delete w o.name k).0 k' (client.delete w o.name k).1 differ
        refl (delete_each-other w w' os (client.delete w o.name k).0 k' differ) h

  kind_step :
      (w : Kind) (sel : Str × Str) (k k' : K) (o : Option (List Meta))
      → client.list w sel k ≡ o
      → delete_kind client w sel k ≡ (k', false)
      → (active (good.objects w k') ≡ rest_of sel (good.objects w k))
        × ((w' : Kind) → same_kind w w' ≡ false → good.objects w' k' ≡ good.objects w' k)
  unfolding delete_kind
  kind_step w sel k k' none e h = absurd (ground arith)
  kind_step w sel k k' (some os) e h =
      let run : delete_each client w os k ≡ (k', false) = ground arith in
      (
        subst
            (λ l.
              active (good.objects w k') ≡ keep (λ x. not (named l x)) (active (good.objects w k)))
            (good.listed w sel k os e) (delete_each-own w os k k' run),
        λ w' differ. delete_each-other w w' os k k' differ run,
      )

  delete_kind_lem :
      (w : Kind) (sel : Str × Str) (k : K)
      → (delete_kind client w sel k).1 ≡ false
      → let k' = (delete_kind client w sel k).0 in
        (active (good.objects w k') ≡ rest_of sel (good.objects w k))
        × ((w' : Kind) → same_kind w w' ≡ false → good.objects w' k' ≡ good.objects w' k)
  delete_kind_lem w sel k h =
      kind_step w sel k (delete_kind client w sel k).0 (client.list w sel k) refl
        (ap (λ b. ((delete_kind client w sel k).0, b)) h)

  -- the objects of one kind are deleted, and those of the others stay
  Deleted : Kind → Str × Str → K → K → Type 0
  Deleted w sel k k' =
      (active (good.objects w k') ≡ rest_of sel (good.objects w k))
      × ((w' : Kind) → same_kind w w' ≡ false → good.objects w' k' ≡ good.objects w' k)

  by_kind :
      (sel : Str × Str) (w : Kind) (k k1 k2 k3 : K)
      → Deleted services sel k k1
      → Deleted config_maps sel k1 k2
      → Deleted pods sel k2 k3
      → active (good.objects w k3) ≡ rest_of sel (good.objects w k)
  unfolding Deleted
  by_kind sel services k k1 k2 k3 a b c = ap active (c.1 services refl ∙ b.1 services refl) ∙ a.0
  by_kind sel config_maps k k1 k2 k3 a b c =
      ap active (c.1 config_maps refl) ∙ b.0 ∙ ap (rest_of sel) (a.1 config_maps refl)
  by_kind sel pods k k1 k2 k3 a b c = c.0 ∙ ap (rest_of sel) (b.1 pods refl ∙ a.1 pods refl)

  three_kinds :
      (sel : Str × Str) (k : K) (w : Kind)
      → (delete_selected client sel k).1 ≡ false
      → active (good.objects w (delete_selected client sel k).0) ≡ rest_of sel (good.objects w k)
  unfolding delete_selected Deleted
  three_kinds sel k w h =
      let k1 = (delete_kind client services sel k).0 in
      let k2 = (delete_kind client config_maps sel k1).0 in
      let (bad1, bad2, bad3) =
        none_bad (delete_kind client services sel k).1 (delete_kind client config_maps sel k1).1
          (delete_kind client pods sel k2).1 h in
      by_kind sel w k k1 k2 (delete_kind client pods sel k2).0 (delete_kind_lem services sel k bad1)
        (delete_kind_lem config_maps sel k1 bad2) (delete_kind_lem pods sel k2 bad3)

  delete_selected_lem :
      (sel : Str × Str) (k : K) (w : Kind)
      → (delete_selected client sel k).1 ≡ false
      → (active (good.objects w (delete_selected client sel k).0) ≡ rest_of sel (good.objects w k))
        × (any_of (selected sel) (active (good.objects w (delete_selected client sel k).0)) ≡ false)
  delete_selected_lem sel k w h =
      let e = three_kinds sel k w h in
      (e, ap (any_of (selected sel)) e ∙ rest_of-none sel (good.objects w k))

  -- DeleteContainer, DeleteWithKubedockID and DeleteAll, when they return no error, leave of each
  -- kind, beside what is being deleted, exactly the objects that were not being deleted and have not
  -- the name of one with the label of the container, of the instance, or of kubedock; so each object
  -- with that label that is left is being deleted.
  pub delete_lem :
      (d : Deletion) (k : K) (w : Kind)
      → (run client d k).1 ≡ false
      → (active (good.objects w (run client d k).0) ≡ rest_of (label d) (good.objects w k))
        × (any_of (selected (label d)) (active (good.objects w (run client d k).0)) ≡ false)
  unfolding delete_container delete_all delete_with_kubedock_id
  delete_lem (of_container co) k w h =
      delete_selected_lem (codes "kubedock.containerid", co.short_id) k w h
  delete_lem (of_instance id) k w h = delete_selected_lem (codes "kubedock.id", id) k w h
  delete_lem everything k w h = delete_selected_lem (codes "kubedock", codes "true") k w h

  -- DeleteContainer, when it returns no error, leaves of each kind, beside what is being deleted,
  -- exactly the objects that were not and have not the name of one with the container's label.
  pub delete_container_lem :
      (co : Container) (k : K) (w : Kind)
      → (delete_container client co k).1 ≡ false
      → let sel : Str × Str = (codes "kubedock.containerid", co.short_id) in
        (active (good.objects w (delete_container client co k).0) ≡ rest_of sel (good.objects w k))
        × (any_of (selected sel) (active (good.objects w (delete_container client co k).0)) ≡ false)
  delete_container_lem co k w h = delete_lem (of_container co) k w h

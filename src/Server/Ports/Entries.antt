-- ===== src/Server/Ports/Entries.antt =====
-- What the lists of ports in internal/server/routes show of the available ports.
use kubedock.Base.{
  ℤ, ◌≡◌, inl, inr, Bool-cases, refl, ap, ◌∙◌, Bool, true, false, ◌||◌, ◌&&◌, not, List, [], ◌∷◌,
  ◌++◌, any_of, arith, int_eq_instance,
}
use kubedock.Base.Int.{is_neg, int_eq, int_eq_iff}
use kubedock.Base.GoMap
use kubedock.Base.GoMap.{GoMap}
use kubedock.Server.Ports.{add_available, once, entries, list_each}

module _ {E : Type 0} (entry : ℤ → ℤ → E) (q : E → Bool) where
  any_of-append : (xs ys : List E) → any_of q (xs ++ ys) ≡ (any_of q xs || any_of q ys)
  unfolding any_of
  any_of-append [] ys = refl
  any_of-append (x ∷ xs) ys = ground (arith, any_of-append xs ys)

  seen_shown :
      (dst src : ℤ) (seen : List ℤ)
      → any_of (int_eq src) seen ≡ true
      → q (entry dst src) ≡ true
      → any_of q (entries (entry dst) seen) ≡ true
  unfolding any_of entries
  seen_shown dst src [] h s = absurd (ground arith)
  seen_shown dst src (x ∷ seen) h s = ground (arith, int_eq_iff src x, seen_shown dst src seen)

  -- leaving out what was seen shows nothing less, beside what was seen
  once_shown :
      (dst : ℤ) (seen xs : List ℤ)
      → (any_of q (entries (entry dst) (once seen xs)) || any_of q (entries (entry dst) seen))
        ≡ (any_of q (entries (entry dst) xs) || any_of q (entries (entry dst) seen))
  unfolding any_of entries once
  once_shown dst seen [] = refl
  once_shown dst seen (x ∷ xs) =
      ground (arith, once_shown dst seen xs, once_shown dst (x ∷ seen) xs, seen_shown dst x seen)

  snoc_shown :
      (dst src : ℤ) (xs : List ℤ)
      → any_of q (entries (entry dst) (xs ++ src ∷ []))
        ≡ (any_of q (entries (entry dst) xs) || q (entry dst src))
  unfolding any_of entries
  snoc_shown dst src [] = ground arith
  snoc_shown dst src (x ∷ xs) = ground (arith, snoc_shown dst src xs)

  once_all :
      (dst : ℤ) (xs : List ℤ)
      → any_of q (entries (entry dst) (once [] xs)) ≡ any_of q (entries (entry dst) xs)
  unfolding any_of entries
  once_all dst xs = ground (arith, once_shown dst [] xs)

  cons_shown :
      (j : ℤ) (xs : List ℤ) (ports : GoMap ℤ (List ℤ))
      → any_of q (list_each entry ((j, xs) ∷ ports))
        ≡ (any_of q (entries (entry j) xs) || any_of q (list_each entry ports))
  unfolding list_each
  cons_shown j xs ports =
      any_of-append (entries (entry j) (once [] xs)) (list_each entry ports)
      ∙ ap (λ b. b || any_of q (list_each entry ports)) (once_all j xs)

  insert_here :
      (d s j : ℤ) (xs : List ℤ) (ports : GoMap ℤ (List ℤ))
      → int_eq j d ≡ true
      → GoMap.insert d (GoMap.get_or d [] ((j, xs) ∷ ports) ++ s ∷ []) ((j, xs) ∷ ports)
        ≡ (j, xs ++ s ∷ []) ∷ ports
  unfolding GoMap.insert GoMap.get_or GoMap.lookup
  insert_here d s j xs ports h = ground (arith, int_eq_iff j d)

  insert_later :
      (d s j : ℤ) (xs : List ℤ) (ports : GoMap ℤ (List ℤ))
      → int_eq j d ≡ false
      → GoMap.insert d (GoMap.get_or d [] ((j, xs) ∷ ports) ++ s ∷ []) ((j, xs) ∷ ports)
        ≡ (j, xs) ∷ GoMap.insert d (GoMap.get_or d [] ports ++ s ∷ []) ports
  unfolding GoMap.insert GoMap.get_or GoMap.lookup
  insert_later d s j xs ports h = ground arith

  shown_here :
      (d s j : ℤ) (xs : List ℤ) (ports : GoMap ℤ (List ℤ))
      → int_eq j d ≡ true
      → any_of q (list_each entry ((j, xs ++ s ∷ []) ∷ ports))
        ≡ (any_of q (list_each entry ((j, xs) ∷ ports)) || q (entry d s))
  shown_here d s j xs ports h = ground (
    arith,
    cons_shown j (xs ++ s ∷ []) ports,
    cons_shown j xs ports,
    snoc_shown j s xs,
    int_eq_iff j d,
  )

  shown_later :
      (e : Bool) (j : ℤ) (xs : List ℤ) (ports ports' : GoMap ℤ (List ℤ))
      → any_of q (list_each entry ports') ≡ (any_of q (list_each entry ports) || e)
      → any_of q (list_each entry ((j, xs) ∷ ports'))
        ≡ (any_of q (list_each entry ((j, xs) ∷ ports)) || e)
  shown_later e j xs ports ports' h = ground (arith, cons_shown j xs ports, cons_shown j xs ports')

  insert_shown :
      (d s : ℤ) (ports : GoMap ℤ (List ℤ))
      → any_of q (list_each entry (GoMap.insert d (GoMap.get_or d [] ports ++ s ∷ []) ports))
        ≡ (any_of q (list_each entry ports) || q (entry d s))
  unfolding any_of list_each GoMap.insert GoMap.get_or GoMap.lookup entries once
  insert_shown d s [] = ground arith
  insert_shown d s ((j, xs) ∷ ports) = elim (Bool-cases (int_eq j d)) [
    | inl here ↦
        ap (λ ps. any_of q (list_each entry ps)) (insert_here d s j xs ports here)
        ∙ shown_here d s j xs ports here
    | inr later ↦
        ap (λ ps. any_of q (list_each entry ps)) (insert_later d s j xs ports later)
        ∙ shown_later (q (entry d s)) j xs ports
            (GoMap.insert d (GoMap.get_or d [] ports ++ s ∷ []) ports) (insert_shown d s ports)
  ]

  pub add_shown :
      (prts : GoMap ℤ ℤ) (ports : GoMap ℤ (List ℤ))
      → any_of q (list_each entry (add_available prts ports)) ≡ (
          any_of q (list_each entry ports)
          || any_of (λ e. not (is_neg e.0) && q (entry e.1 e.0)) prts)
  unfolding add_available any_of
  add_shown [] ports = ground arith
  add_shown ((s, d) ∷ prts) ports = ground (
    arith,
    add_shown prts ports,
    add_shown prts (GoMap.insert d (GoMap.get_or d [] ports ++ s ∷ []) ports),
    insert_shown d s ports,
  )

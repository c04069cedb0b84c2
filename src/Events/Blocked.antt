-- ===== src/Events/Blocked.antt =====
-- When a publication waits.
use kubedock.Base.{
  ◌≡◌, refl, ◌∙◌, Bool, true, false, not, [], ◌∷◌, none, some, is_nil, if◌then◌else◌, arith, Str,
  str_eq_instance,
}
use kubedock.Base.GoMap
use kubedock.Events.{Message, Observers, publish, receive}

-- Nobody has a message to receive.
unfoldable pub all_empty : Observers → Bool
all_empty [] = true
all_empty ((id, none) ∷ more) = all_empty more
all_empty ((id, some msg) ∷ more) = false

not_waits : (msg : Message) (obs : Observers) → all_empty obs ≡ true → (publish msg obs).1 ≡ false
unfolding publish all_empty
not_waits msg [] h = refl
not_waits msg ((id, none) ∷ more) h = not_waits msg more h
not_waits msg ((id, some held) ∷ more) h = absurd (ground arith)

held :
    (msg : Message) (obs : Observers) (id : Str)
    → all_empty obs ≡ true
    → GoMap.lookup id (publish msg obs).0 ≡ (if GoMap.has id obs then some (some msg) else none)
unfolding publish all_empty GoMap.lookup GoMap.has
held msg [] id h = refl
held msg ((i, none) ∷ more) id h = ground (arith, held msg more id)
held msg ((i, some m) ∷ more) id h = absurd (ground arith)

waits :
    (msg later : Message) (obs : Observers)
    → all_empty obs ≡ true
    → (publish later (publish msg obs).0).1 ≡ not (is_nil obs)
unfolding publish all_empty
waits msg later [] h = refl
waits msg later ((id, none) ∷ more) h = refl
waits msg later ((id, some held) ∷ more) h = absurd (ground arith)

observed : (id : Str) (obs : Observers) → GoMap.has id obs ≡ true → not (is_nil obs) ≡ true
unfolding GoMap.has GoMap.lookup
observed id [] h = absurd (ground arith)
observed id (o ∷ more) h = refl

received :
    (id : Str) (msg : Message) (obs : Observers)
    → GoMap.lookup id obs ≡ some (some msg)
    → receive id obs ≡ some (msg, GoMap.insert id none obs)
unfolding receive
received id msg obs e = rw (receive, e) refl

-- If no subscriber has a message to receive, a publication does not wait, and every subscriber that
-- there is then receives its message; but where there is a subscriber, the next publication, if no
-- subscriber received before, waits, and with it the handler that publishes.
pub publish-publish :
    (msg later : Message) (obs : Observers) (id : Str)
    → all_empty obs ≡ true
    → GoMap.has id obs ≡ true
    → let (obs', waiting) = publish msg obs in
      (waiting ≡ false)
      × (receive id obs' ≡ some (msg, GoMap.insert id none obs'))
      × ((publish later obs').1 ≡ true)
publish-publish msg later obs id empty there = (
  not_waits msg obs empty,
  received id msg _ (held msg obs id empty ∙ rw there refl),
  waits msg later obs empty ∙ observed id obs there,
)

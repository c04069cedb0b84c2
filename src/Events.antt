-- ===== src/Events.antt =====
-- internal/events: the subscribers, each with a channel for one message.
pub mod Blocked
pub mod Tests
use kubedock.Base.{
  ℕ, Bool, true, false, List, [], ◌∷◌, Option, none, some, if◌then◌else◌, Str, str_eq,
  str_eq_instance,
}
use kubedock.Base.GoMap
use kubedock.Base.GoMap.{GoMap}
use kubedock.Base.Text.{codes}

pub record Message : Type 0 where
  pub id : Str
  pub typ : Str
  pub action : Str
  pub time : ℕ
  pub time_nano : ℕ

-- The observers, in the order in which `range` visits them. A channel holds one message at most.
abbrev pub Observers : Type 0
Observers = GoMap Str (Option Message)

-- Publish: what the channels then hold, and whether it waits at the first channel that is full.
unfoldable pub publish : Message → Observers → Observers × Bool
publish msg [] = ([], false)
publish msg ((id, some held) ∷ more) = ((id, some held) ∷ more, true)
publish msg ((id, none) ∷ more) =
    let (rest, waits) = publish msg more in ((id, some msg) ∷ rest, waits)

-- Subscribe, with the id that GenerateRandomID returns
unfoldable pub subscribe : Str → Observers → Observers
subscribe id obs = GoMap.insert id none obs

-- Unsubscribe
unfoldable pub unsubscribe : Str → Observers → Observers
unsubscribe id obs = GoMap.delete id obs

-- A subscriber receives: the message and the channels, none where it waits.
unfoldable pub receive : Str → Observers → Option (Message × Observers)
receive id obs = elim (GoMap.lookup id obs) [
  | none ↦ none
  | some none ↦ none
  | some (some msg) ↦ some (msg, GoMap.insert id none obs)
]

-- Match
unfoldable pub match_message : Message → Str → Str → Str → Bool
match_message m typ key val =
    if str_eq typ (codes "type")
    then str_eq m.typ key
    else if str_eq m.typ typ
    then str_eq m.id key
    else true

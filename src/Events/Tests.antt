-- ===== src/Events/Tests.antt =====
-- Two subscribers, of which one does not receive.
use kubedock.Base.{◌*◌, ◌≡◌, refl, true, false, [], ◌∷◌, some, none, str_eq, str_eq_instance}
use kubedock.Base.GoMap
use kubedock.Base.Text.{codes}
use kubedock.Events.{Message, Observers, publish, subscribe, unsubscribe, receive, match_message}
use kubedock.Events.Blocked.{all_empty, publish-publish}

abbrev started : Message
started = record {
  id = codes "aa";
  typ = codes "container";
  action = codes "start";
  time = 7;
  time_nano = 7 * 1000000000;
}

abbrev died : Message
died = record {
  id = codes "aa";
  typ = codes "container";
  action = codes "die";
  time = 9;
  time_nano = 9 * 1000000000;
}

abbrev both : Observers
both = (codes "s1", none) ∷ (codes "s2", none) ∷ []

subscribed : subscribe (codes "s2") (subscribe (codes "s1") []) ≡ both
unfolding subscribe GoMap.insert str_eq codes
subscribed = refl

gone : unsubscribe (codes "s1") both ≡ (codes "s2", none) ∷ []
unfolding unsubscribe GoMap.delete str_eq codes
gone = refl

by_type : match_message started (codes "type") (codes "image") [] ≡ false
unfolding match_message str_eq codes
by_type = refl

all : all_empty both ≡ true
unfolding all_empty
all = refl

there : GoMap.has (codes "s2") both ≡ true
unfolding GoMap.has str_eq codes
there = refl

publish-publish_example :
    let (obs', waiting) = publish started both in
    (waiting ≡ false)
    × (receive (codes "s2") obs' ≡ some (started, GoMap.insert (codes "s2") none obs'))
    × ((publish died obs').1 ≡ true)
publish-publish_example = publish-publish started died both (codes "s2") all there

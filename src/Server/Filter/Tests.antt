-- ===== src/Server/Filter/Tests.antt =====
-- A request with label filters, and a container with a label.
use kubedock.Base.{
  str_eq_instance, int_eq_instance, ◌≡◌, refl, true, [], ◌∷◌, none, some, all_of, ok, str_eq,
}
use kubedock.Base.Text.{codes}
use kubedock.Base.GoMap
use kubedock.Base.Text.Split.{lacks}
use kubedock.Model.Error.{Error}
use kubedock.Model.Container.{Container, blank}
use kubedock.Server.Filter.{Json, Matcher, Request, create, matches, unmarshal}
use kubedock.Server.Filter.Semantics.{matches-create, wants}

-- A decoder that reads every text as the filter label=app=web.
abbrev request : Request
request = (codes "label", (codes "app=web", true) ∷ []) ∷ []

abbrev json : Json
json = record { decode_request = λ s. (request, true); decode_legacy = λ s. none }

-- An object with the label app=web.
abbrev only_web : Matcher Error
only_web typ k v = ok (str_eq v (codes "web"))

matches-create_example :
    matches only_web (create json (codes "{}")).0 ≡ all_of (λ e. wants only_web e.0 e.1) request
unfolding all_of unmarshal
matches-create_example = unfold codes in matches-create only_web json (codes "{}")

abbrev web : Container
web = record blank { labels = (codes "app", codes "c") ∷ [] }

key_lacks : lacks b'=' (codes "app") ≡ true
unfolding all_of codes
key_lacks = refl

value_lacks : lacks b'=' (codes "a") ≡ true
unfolding all_of codes
value_lacks = refl

label_there : GoMap.lookup (codes "app") web.labels ≡ some (codes "c")
unfolding GoMap.lookup str_eq codes
label_there = refl

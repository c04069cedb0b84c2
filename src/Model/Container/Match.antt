-- ===== src/Model/Container/Match.antt =====
-- How a container answers a filter: `Match` of internal/model/types/container.go.
use kubedock.Base.{
  Bool, true, false, none, some, is_nil, if◌then◌else◌, Result, ok, Str, str_eq, str_eq_instance,
}
use kubedock.Base.GoMap
use kubedock.Base.Text.{codes}
use kubedock.Model.Error.{Error}
use kubedock.Model.Container.{Container}

-- `regexp_match` is regexp.MatchString: pattern, text.
module _ (regexp_match : Str → Str → Result Error Bool) where
  -- nameMatch
  unfoldable pub name_match : Str → Str → Result Error Bool
  name_match name key = if str_eq name key then ok true else regexp_match key name

  unfoldable pub matches : Container → Str → Str → Str → Result Error Bool
  unfolding name_match
  matches co typ key val =
      if str_eq typ (codes "name")
      then name_match co.name key
      else if str_eq typ (codes "label")
      then (elim (GoMap.lookup key co.labels) [
        | none ↦ ok false
        | some v ↦ if is_nil val then ok true else ok (str_eq v val)
      ])
      else ok true

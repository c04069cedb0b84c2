-- ===== src/Model/Records.antt =====
-- internal/model/types: networks, execs and images.
use kubedock.Base.{
  ℕ, Bool, true, false, ◌||◌, List, [], none, some, if◌then◌else◌, Result, ok, Str, str_eq,
  str_eq_instance,
}
use kubedock.Base.Int.{ℤ}
use kubedock.Base.GoMap
use kubedock.Base.GoMap.{GoMap}
use kubedock.Base.Text.{codes}
use kubedock.Model.Error.{Error}
use kubedock.Model.Container.Match.{name_match}

pub record Network : Type 0 where
  pub id : Str
  pub short_id : Str
  pub name : Str
  pub labels : GoMap Str Str
  pub created : ℕ

pub record Exec : Type 0 where
  pub id : Str
  pub container_id : Str
  pub cmd : List Str
  pub tty : Bool
  pub stdin : Bool
  pub stdout : Bool
  pub stderr : Bool
  pub exit_code : ℤ
  pub created : ℕ

pub record Image : Type 0 where
  pub id : Str
  pub short_id : Str
  pub name : Str
  pub exposed_ports : GoMap Str (Unit {0})
  pub created : ℕ

abbrev pub blank_network : Network
blank_network = record { id = []; short_id = []; name = []; labels = []; created = 0 }

-- IsPredefined
unfoldable pub is_predefined : Network → Bool
is_predefined nw =
    str_eq nw.name (codes "bridge")
    || str_eq nw.name (codes "null")
    || str_eq nw.name (codes "host")

-- Match of a network; `regexp_match` is regexp.MatchString
unfoldable pub match_network :
    (Str → Str → Result Error Bool) → Network → Str → Str → Str → Result Error Bool
match_network regexp_match nw typ key val =
    if str_eq typ (codes "name")
    then name_match regexp_match nw.name key
    else if str_eq typ (codes "label")
    then (elim (GoMap.lookup key nw.labels) [ none ↦ ok false | some v ↦ ok (str_eq v val) ])
    else ok true
